-- ===== src/Transport/Drain/Wedged.antt =====
-- git_transport.py, GitBus.drain when from_json raises on a line what the reader does not catch.
use mcp_dispatch.Base.{
  ℕ, zero, suc, ◌≤◌, String, Bool, ◌==◌, Option, none, some, List, [], ◌∷◌, All, Bool-cases, inl,
  inr, ◌≡◌, refl, sym, subst, ap, arith, eq_iff,
}
use mcp_dispatch.Base.Dict.{Dict, get, put}
use mcp_dispatch.Transport.{
  Envelope, Line, blank, malformed, wrong_type, entry, LaneFile, Repo, all_lane_files,
}
use mcp_dispatch.Transport.Drain.{
  Reader, consumed_of, before_rest, new_lines, consumed_after, Scanned, scan_step, read_lanes,
  finish, is_foreign, drain,
}
use mcp_dispatch.Transport.Drain.Scan.{consumed_of-put_other, differ}
use mcp_dispatch.Transport.Drain.Once.{drains}

-- Line number `n`, counted from 0
abbrev pub line_at : ℕ → List Line → Option Line
line_at n [] = none
line_at zero (line ∷ lines) = some line
line_at (suc n) (line ∷ lines) = line_at n lines

new_lines-wrong_type :
    (start n : ℕ) (lines : List Line)
    → start ≤ n
    → line_at n lines ≡ some wrong_type
    → new_lines start lines ≡ none
unfolding new_lines
new_lines-wrong_type start n [] h e = absurd (cc)
new_lines-wrong_type zero zero (blank ∷ lines) h e = absurd (cc)
new_lines-wrong_type zero zero (malformed ∷ lines) h e = absurd (cc)
new_lines-wrong_type zero zero (entry env ∷ lines) h e = absurd (cc)
new_lines-wrong_type zero n (wrong_type ∷ lines) h e = refl
new_lines-wrong_type zero (suc n) (blank ∷ lines) h e =
    new_lines-wrong_type zero n lines (omega arith) e
new_lines-wrong_type zero (suc n) (malformed ∷ lines) h e =
    new_lines-wrong_type zero n lines (omega arith) e
new_lines-wrong_type zero (suc n) (entry env ∷ lines) h e =
    ap (before_rest (env ∷ [])) (new_lines-wrong_type zero n lines (omega arith) e)
new_lines-wrong_type (suc start) zero (line ∷ lines) h e = absurd (omega arith)
new_lines-wrong_type (suc start) (suc n) (line ∷ lines) h e =
    new_lines-wrong_type start n lines (omega arith) e

-- A loop that raised and left the cursor of a lane where it was.
Raised : String → ℕ → Scanned → Type 0
Raised rel start scan = (scan.found ≡ none) × (consumed_of scan.consumed rel ≡ start)

scan_step-Raised :
    (keep : Envelope → Bool) (consumed : Dict ℕ) (new : Option (List Envelope)) (rest : Scanned)
    (rel : String)
    → Raised rel (consumed_of consumed rel) rest
    → Raised rel (consumed_of consumed rel) (scan_step keep consumed new rest)
unfolding Raised scan_step
scan_step-Raised keep consumed none rest rel h = (refl, refl)
scan_step-Raised keep consumed (some envs) rest rel h = (ap (before_rest _) h.0, h.1)

read_lanes-Raised :
    (keep : Envelope → Bool) (consumed : Dict ℕ) (files : List LaneFile) (rel : String)
    (lines : List Line) (n : ℕ)
    → get files rel ≡ some lines
    → line_at n lines ≡ some wrong_type
    → consumed_of consumed rel ≤ n
    → Raised rel (consumed_of consumed rel) (read_lanes keep consumed files)
unfolding Raised read_lanes get
read_lanes-Raised keep consumed [] rel lines n g e h = absurd (cc)
read_lanes-Raised keep consumed ((path, here) ∷ files) rel lines n g e h =
    elim (Bool-cases (path == rel)) [
      | inl t ↦
          let same : path ≡ rel = ground (arith, eq_iff path rel) in
          let whole : here ≡ lines = ground (arith, t, g) in
          let stops : new_lines (consumed_of consumed path) here ≡ none =
            new_lines-wrong_type (consumed_of consumed path) n here
              (subst (λ q. consumed_of consumed q ≤ n) (sym same) h)
              (subst (λ ls. line_at n ls ≡ some wrong_type) (sym whole) e) in
          rw stops (refl, refl)
      | inr f ↦
          let moved = put consumed path (consumed_after (consumed_of consumed path) here) in
          let kept : consumed_of moved rel ≡ consumed_of consumed rel =
            consumed_of-put_other consumed path rel _ (differ path rel f) in
          let further : get files rel ≡ some lines = ground (arith, f, g) in
          scan_step-Raised keep consumed (new_lines (consumed_of consumed path) here)
            (read_lanes keep moved files) rel
            (subst (λ k. Raised rel k (read_lanes keep moved files)) kept
              (read_lanes-Raised keep moved files rel lines n further e
                (subst (λ k. k ≤ n) (sym kept) h)))
    ]

-- What a call that raised leaves: the reader's cursor of that lane, and its id.
Wedged : String → ℕ → Option (List Envelope) × Reader → Type 0
Wedged rel start out = (out.0 ≡ none) × (consumed_of out.1.consumed rel ≡ start)

finish-Wedged :
    (reader : Reader) (consumed : Dict ℕ) (found : Option (List Envelope)) (rel : String)
    (start : ℕ)
    → found ≡ none
    → consumed_of consumed rel ≡ start
    → Wedged rel start (finish reader consumed found)
unfolding Wedged finish
finish-Wedged reader consumed none rel start f c = (refl, c)
finish-Wedged reader consumed (some envs) rel start f c = absurd (cc)

drain-Wedged :
    (reader : Reader) (repo : Repo) (rel : String) (lines : List Line) (n : ℕ)
    → get (all_lane_files repo) rel ≡ some lines
    → line_at n lines ≡ some wrong_type
    → consumed_of reader.consumed rel ≤ n
    → Wedged rel (consumed_of reader.consumed rel) (drain reader repo)
unfolding drain Raised
drain-Wedged reader repo rel lines n g e h =
    let keep = is_foreign reader.agent_id in
    let raised = read_lanes-Raised keep reader.consumed (all_lane_files repo) rel lines n g e h in
    finish-Wedged reader _ _ rel _ raised.0 raised.1

-- In each repository a line that makes from_json raise is line number `n` of the lane.
abbrev pub Poisoned : String → ℕ → List Repo → Type 0
Poisoned rel n = All (λ repo.
    (lines : List Line) × (get (all_lane_files repo) rel ≡ some lines)
    × (line_at n lines ≡ some wrong_type))

-- Once a line on which from_json raises what the reader does not catch is in a lane, at or behind
-- the reader's cursor of that lane, no call of drain returns an envelope, of any lane, as long as
-- the line stays.
pub drains-wedged :
    (reader : Reader) (repos : List Repo) (rel : String) (n : ℕ)
    → consumed_of reader.consumed rel ≤ n
    → Poisoned rel n repos
    → (drains reader repos).0 ≡ []
unfolding Wedged
drains-wedged reader [] rel n h bad = refl
drains-wedged reader (repo ∷ repos) rel n h ((lines, g, e), bad) =
    let w = drain-Wedged reader repo rel lines n g e h in
    let rest =
      drains-wedged (drain reader repo).1 repos rel n (subst (λ k. k ≤ n) (sym w.1) h) bad in
    rw (w.0, rest) refl
