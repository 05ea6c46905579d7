-- ===== src/Bridge/Account.antt =====
-- git_bridge.py, GitBridge._outbound: what an id that a pass enters in the ledger stands for.
use mcp_dispatch.Base.{
  ℕ, String, true, false, ◌==◌, Option, none, some, List, [], ◌∷◌, In, In-append, Bool-cases, ◌⊎◌,
  inl, inr, ◌≡◌, refl, sym, subst, arith, eq_iff, eq_refl, suc, Bool, ◌&&◌, ◌++◌, All,
  if◌then◌else◌,
}
use mcp_dispatch.Base.Dict.{Dict, put, has, get-put}
use mcp_dispatch.Base.Result.{Result, ok, raise, ◌>>=◌, ◌>>◌}
use mcp_dispatch.Message.{Message, msg_to_publish_kwargs}
use mcp_dispatch.Transport.{object, Envelope, Line, entry, Repo, my_lane, append_line}
use mcp_dispatch.Transport.Publish.{PublishError, check_target, new_envelope, publish}
use mcp_dispatch.Transport.Publish.Lanes.{same_chan, my_lane-append_line}
use mcp_dispatch.Bridge.{
  Route, Sending, route, post_of, publish_one, sent, is_done, consider, send_all,
}

same_lane :
    (author : String) (chan : Option String) → (author == author && same_chan chan chan) ≡ true
same_lane author none = ground (arith, eq_refl author)
same_lane author (some c) = ground (arith, eq_refl author, eq_refl c)

-- The message is on its route: its sender's lane holds an envelope with its body.
abbrev pub Published : Repo → Message → Route → Type 0
Published repo msg way =
    (env : Envelope) × (env.body ≡ object (msg_to_publish_kwargs msg).body)
    × In (entry env) (my_lane repo msg.from way.chan)

-- The id is of a scanned message that has no route, or that is published.
abbrev pub Settled : Bool → List String → List Message → Repo → String → Type 0
Settled mirror_all live msgs repo id =
    (msg : Message) × In msg msgs
    × (msg.id ≡ id)
    × ((route mirror_all live msg ≡ none)
        ⊎ ((way : Route) × (route mirror_all live msg ≡ some way) × Published repo msg way))

In-my_lane :
    (repo : Repo) (author : String) (chan : Option String) (line old : Line) (reader : String)
    (from : Option String)
    → In old (my_lane repo reader from)
    → In old (my_lane (append_line repo author chan line) reader from)
In-my_lane repo author chan line old reader from i =
    subst (In old) (sym (my_lane-append_line repo author chan line reader from))
      (elim (author == reader && same_chan chan from)
        as (λ b.
          In old (if b then my_lane repo reader from ++ line ∷ [] else my_lane repo reader from)) [
            | true ↦ In-append old (my_lane repo reader from) (line ∷ []) (inl i)
            | false ↦ i
          ])

Published-append_line :
    (repo : Repo) (author : String) (chan : Option String) (line : Line) (msg : Message)
    (way : Route)
    → Published repo msg way
    → Published (append_line repo author chan line) msg way
Published-append_line repo author chan line msg way (env, b, i) =
    (env, b, In-my_lane repo author chan line (entry env) msg.from way.chan i)

In-own_lane :
    (repo : Repo) (author : String) (chan : Option String) (line : Line)
    → In line (my_lane (append_line repo author chan line) author chan)
In-own_lane repo author chan line =
    let lane = my_lane repo author chan in
    let here : (author == author && same_chan chan chan) ≡ true = same_lane author chan in
    subst (In line) (sym (my_lane-append_line repo author chan line author chan))
      (rw here (In-append line lane (line ∷ []) (inr (inl refl))))

-- The repository after a message has gone out on its way.
abbrev with_post : ℕ → String → Repo → Message → Route → Repo
with_post now uuid12 repo msg way =
    append_line repo msg.from way.chan
      (entry (new_envelope repo msg.from (post_of now uuid12 msg way)))

with_post-Published :
    (now : ℕ) (uuid12 : String) (repo : Repo) (msg : Message) (way : Route)
    → Published (with_post now uuid12 repo msg way) msg way
unfolding new_envelope post_of
with_post-Published now uuid12 repo msg way = (_, refl, In-own_lane repo msg.from way.chan _)

checked_cases :
    (checked : Result PublishError (Unit {0})) (env : Envelope) (after : Repo)
    → ((e : PublishError) × (((checked >> ok (env, after)) >>= λ (s : Envelope × Repo).
            ok (some s.1))
          ≡ raise e))
      ⊎ (((checked >> ok (env, after)) >>= λ (s : Envelope × Repo). ok (some s.1))
          ≡ ok (some after))
checked_cases (raise e) env after = inl (e, refl)
checked_cases (ok u) env after = inr refl

publish_one-cases :
    (now : ℕ) (uuid12 : String) (repo : Repo) (msg : Message) (way : Route)
    → ((e : PublishError) × (publish_one now uuid12 repo msg (some way) ≡ raise e))
      ⊎ (publish_one now uuid12 repo msg (some way) ≡ ok (some (with_post now uuid12 repo msg way)))
unfolding publish_one publish post_of
publish_one-cases now uuid12 repo msg way =
    let post = post_of now uuid12 msg way in
    checked_cases (check_target post.to post.chan post.key) _ _

module _ (mirror_all : Bool) (live : List String) (now : ℕ) (uuids : ℕ → String) (old : Dict ℕ)
    (all : List Message) where
  -- Every id that is in the ledger and was not is settled.
  abbrev pub Accounted : Sending → Type 0
  Accounted st =
      (id : String)
      → has st.ledger id ≡ true
      → has old id ≡ false
      → Settled mirror_all live all st.repo id

  noted-Accounted :
      (msg : Message) (st : Sending) (repo : Repo) (published : ℕ)
      → Settled mirror_all live all repo msg.id
      → ((m : Message) (way : Route) → Published st.repo m way → Published repo m way)
      → Accounted st
      → Accounted
          (record st { repo = repo; ledger = put st.ledger msg.id now; published = published })
  noted-Accounted msg st repo published own keeps acc id h n = elim (Bool-cases (msg.id == id)) [
    | inl t ↦
        let same : msg.id ≡ id = ground (arith, t, eq_iff msg.id id) in
        subst (Settled mirror_all live all repo) same own
    | inr f ↦
        let before : has st.ledger id ≡ true =
          ground (arith, h, f, get-put st.ledger msg.id id now) in
        let (m, i, e, how) = acc id before n in
        (m, i, e, elim how [ inl r ↦ inl r | inr (way, r, p) ↦ inr (way, r, keeps m way p) ])
  ]

  sent-Accounted :
      (msg : Message) (st : Sending) (o : Option Route)
      → route mirror_all live msg ≡ o
      → In msg all
      → Accounted st
      → Accounted (sent now msg st (publish_one now (uuids st.published) st.repo msg o))
  unfolding sent publish_one
  sent-Accounted msg st none r i acc =
      noted-Accounted msg st st.repo st.published (msg, i, refl, inl r) (λ m way p. p) acc
  sent-Accounted msg st (some way) r i acc =
      let uuid12 = uuids st.published in
      let after = with_post now uuid12 st.repo msg way in
      elim (publish_one-cases now uuid12 st.repo msg way) [
        | inl (e, raised) ↦ subst (λ q. Accounted (sent now msg st q)) (sym raised) acc
        | inr out ↦
            subst (λ q. Accounted (sent now msg st q)) (sym out)
              (noted-Accounted msg st after (suc st.published)
                (msg, i, refl, inr (way, r, with_post-Published now uuid12 st.repo msg way))
                (λ m w p. Published-append_line st.repo msg.from way.chan _ m w p) acc)
      ]

  consider-Accounted :
      (msg : Message) (st : Sending)
      → In msg all
      → Accounted st
      → Accounted (consider mirror_all live now uuids msg st)
  unfolding consider
  consider-Accounted msg st i acc =
      elim (is_done st msg)
        as (λ b. Accounted (
          if b
          then st
          else sent now msg st
              (publish_one now (uuids st.published) st.repo msg (route mirror_all live msg)))) [
                | true ↦ acc
                | false ↦ sent-Accounted msg st (route mirror_all live msg) refl i acc
              ]

  pub send_all-Accounted :
      (msgs : List Message) (st : Sending)
      → All (λ m. In m all) msgs
      → Accounted st
      → Accounted (send_all mirror_all live now uuids msgs st)
  unfolding send_all
  send_all-Accounted [] st i acc = acc
  send_all-Accounted (msg ∷ msgs) st i acc =
      send_all-Accounted msgs (consider mirror_all live now uuids msg st) i.1
        (consider-Accounted msg st i.0 acc)

In-self_from :
    (all msgs : List Message) → ((m : Message) → In m msgs → In m all) → All (λ m. In m all) msgs
In-self_from all [] f = tt
In-self_from all (msg ∷ msgs) f = (f msg (inl refl), In-self_from all msgs (λ m i. f m (inr i)))

pub In-self : (all : List Message) → All (λ m. In m all) all
In-self all = In-self_from all all (λ m i. i)
