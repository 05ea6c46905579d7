-- ===== src/Transport/Publish/Lanes.antt =====
-- git_transport.py, GitBus.publish: what it writes to which lane, and the sequence numbers.
use mcp_dispatch.Base.{
  ℕ, suc, ◌+◌, String, Bool, true, false, ◌&&◌, ◌==◌, Option, none, some, List, [], ◌∷◌, ◌++◌,
  length, select, if◌then◌else◌, Bool-cases, inl, inr, ◌≡◌, refl, ap, ◌∙◌, arith, eq_iff,
}
use mcp_dispatch.Base.Dict.{Dict, get, put, get-put}
use mcp_dispatch.Base.Result.{Result, ok, raise, ◌>>◌}
use mcp_dispatch.Transport.{
  Envelope, Line, blank, malformed, wrong_type, entry, Repo, or_empty, my_lane, append_line,
}
use mcp_dispatch.Transport.Publish.{
  is_record, next_seq, check_target, new_envelope, Post, PublishError, publish,
}

abbrev pub same_chan : Option String → Option String → Bool
same_chan none none = true
same_chan (some c) (some d) = c == d
same_chan _ _ = false

or_empty-get-put {ℓ} :
    {A : Type ℓ} (table : Dict (List A)) (k j : String) (xs : List A)
    → or_empty (get (put table k xs) j) ≡ (if k == j then xs else or_empty (get table j))
or_empty-get-put table k j xs = ground (arith, get-put table k j xs)

pub my_lane-append_line :
    (repo : Repo) (author : String) (chan : Option String) (line : Line) (reader : String)
    (from : Option String)
    → my_lane (append_line repo author chan line) reader from ≡ (
        if author == reader && same_chan chan from
        then my_lane repo reader from ++ line ∷ []
        else my_lane repo reader from)
unfolding my_lane append_line
my_lane-append_line repo author none line reader none =
    rw get-put (ground (arith, eq_iff author reader))
my_lane-append_line repo author none line reader (some d) = ground (arith)
my_lane-append_line repo author (some c) line reader none = ground (arith)
my_lane-append_line repo author (some c) line reader (some d) =
    let files = or_empty (get repo.channels c) in
    let longer = or_empty (get files author) ++ line ∷ [] in
    rw (get-put repo.channels c d (put files author longer)) (
      ground (arith, or_empty-get-put files author reader longer, eq_iff c d, eq_iff author reader))

-- A lane of author and channel as publish makes them: every line is an envelope of that author and
-- channel, and the n-th has sequence number `k + n`.
abbrev pub InOrder : String → Option String → ℕ → List Line → Type 0
InOrder author chan k [] = Unit
InOrder author chan k (blank ∷ lines) = ⊥
InOrder author chan k (malformed ∷ lines) = ⊥
InOrder author chan k (wrong_type ∷ lines) = ⊥
InOrder author chan k (entry env ∷ lines) =
    (env.seq ≡ k) × (env.from ≡ author) × (env.chan ≡ chan) × InOrder author chan (suc k) lines

InOrder-append :
    (author : String) (chan : Option String) (k : ℕ) (lines : List Line) (env : Envelope)
    → env.from ≡ author
    → env.chan ≡ chan
    → InOrder author chan k lines
    → env.seq ≡ k + length (select is_record lines)
    → InOrder author chan k (lines ++ entry env ∷ [])
InOrder-append author chan k [] env a c h e = (omega (arith, e), a, c, tt)
InOrder-append author chan k (blank ∷ lines) env a c h e = absurd h
InOrder-append author chan k (malformed ∷ lines) env a c h e = absurd h
InOrder-append author chan k (wrong_type ∷ lines) env a c h e = absurd h
InOrder-append author chan k (entry here ∷ lines) env a c (n, f, d, h) e =
    (n, f, d, InOrder-append author chan (suc k) lines env a c h (omega (arith, e)))

same_chan-equal : (c d : Option String) → same_chan c d ≡ true → c ≡ d
same_chan-equal none none h = refl
same_chan-equal none (some d) h = absurd (cc)
same_chan-equal (some c) none h = absurd (cc)
same_chan-equal (some c) (some d) h = ap some (ground (arith, eq_iff c d))

-- Every lane of the repository is as publish makes it.
abbrev pub WellOrdered : Repo → Type 0
WellOrdered repo =
    (author : String) (chan : Option String) → InOrder author chan 0 (my_lane repo author chan)

appended-WellOrdered :
    (repo : Repo) (agent_id : String) (post : Post)
    → WellOrdered repo
    → WellOrdered (append_line repo agent_id post.chan (entry (new_envelope repo agent_id post)))
unfolding new_envelope next_seq
appended-WellOrdered repo agent_id post well author chan =
    let env = new_envelope repo agent_id post in
    rw (my_lane-append_line repo agent_id post.chan (entry env) author chan)
      (elim (Bool-cases (agent_id == author && same_chan post.chan chan)) [
        | inl t ↦
            let a : agent_id ≡ author = ground (arith, t, eq_iff agent_id author) in
            let c : post.chan ≡ chan = same_chan-equal post.chan chan (ground (arith, t)) in
            rw t (
              InOrder-append author chan 0 (my_lane repo author chan) env a c (well author chan) (
                ap (λ ls. length (select is_record ls))
                  (ap (my_lane repo agent_id) c ∙ ap (λ x. my_lane repo x chan) a)
                ∙ omega arith))
        | inr f ↦ rw f (well author chan)
      ])

-- A call of publish by an agent. One that raises has written nothing.
abbrev pub published : Repo → Result PublishError (Envelope × Repo) → Repo
published repo (raise e) = repo
published repo (ok (env, after)) = after

abbrev pub publishes : Repo → List (String × Post) → Repo
publishes repo [] = repo
publishes repo ((agent_id, post) ∷ posts) =
    publishes (published repo (publish repo agent_id post)) posts

published-WellOrdered :
    (repo after : Repo) (checked : Result PublishError (Unit {0})) (env : Envelope)
    → WellOrdered repo
    → WellOrdered after
    → WellOrdered (published repo (checked >> ok (env, after)))
published-WellOrdered repo after (ok u) env before well = well
published-WellOrdered repo after (raise e) env before well = before

publish-WellOrdered :
    (repo : Repo) (agent_id : String) (post : Post)
    → WellOrdered repo
    → WellOrdered (published repo (publish repo agent_id post))
unfolding publish
publish-WellOrdered repo agent_id post well =
    published-WellOrdered repo _ (check_target post.to post.chan post.key) _ well
      (appended-WellOrdered repo agent_id post well)

publishes-WellOrdered :
    (repo : Repo) (posts : List (String × Post))
    → WellOrdered repo
    → WellOrdered (publishes repo posts)
publishes-WellOrdered repo [] well = well
publishes-WellOrdered repo ((agent_id, post) ∷ posts) well =
    publishes-WellOrdered (published repo (publish repo agent_id post)) posts
      (publish-WellOrdered repo agent_id post well)

-- After any calls of publish by any agents, from a repository whose lanes are so (an empty one is),
-- every line of each lane is an envelope, of the lane's author and channel, and the n-th line has
-- sequence number n, counted from 0.
pub publishes-InOrder :
    (repo : Repo) (posts : List (String × Post)) (author : String) (chan : Option String)
    → WellOrdered repo
    → InOrder author chan 0 (my_lane (publishes repo posts) author chan)
publishes-InOrder repo posts author chan well = publishes-WellOrdered repo posts well author chan
