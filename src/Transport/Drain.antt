-- ===== src/Transport/Drain.antt =====
-- git_transport.py: the reader-local cursor, GitBus.receive and GitBus.drain with no body codec.
pub mod Listing
pub mod Scan
pub mod Once
pub mod Wedged
use Prim.Native.String.{compare}
use text.Mathlib.Text.{is_le}
use mcp_dispatch.Base.{
  ℕ, zero, suc, String, Bool, true, false, not, ◌&&◌, ◌==◌, Option, none, some, List, [], ◌∷◌, ◌++◌,
  length, select, elem, ltb, leb, eqb, if◌then◌else◌,
}
use mcp_dispatch.Base.Dict.{Dict, get, put}
use mcp_dispatch.Base.Sort.{sort_with}
use mcp_dispatch.Transport.{
  Envelope, Line, blank, malformed, wrong_type, entry, LaneFile, Repo, all_lane_files,
}

-- A GitBus as a reader: its id, its subscriptions, the cursor in memory and the cursor file.
pub record Reader : Type 0 where
  pub agent_id : String
  pub subs : List String
  pub consumed : Dict ℕ
  pub saved : Dict ℕ

-- Cursor.consumed.get(rel, 0)
abbrev pub consumed_of : Dict ℕ → String → ℕ
consumed_of consumed rel = elim (get consumed rel) [ none ↦ 0 | some n ↦ n ]

-- The envelopes in front of those of the rest of a lane, if the rest is read.
abbrev pub before_rest {ℓ} : {A : Type ℓ} → List A → Option (List A) → Option (List A)
before_rest xs none = none
before_rest xs (some ys) = some (xs ++ ys)

-- The envelopes of the lines from number `start` on; `none` where from_json raises what the reader
-- does not catch.
unfoldable pub new_lines : ℕ → List Line → Option (List Envelope)
new_lines start [] = some []
new_lines (suc start) (line ∷ lines) = new_lines start lines
new_lines zero (blank ∷ lines) = new_lines zero lines
new_lines zero (malformed ∷ lines) = new_lines zero lines
new_lines zero (wrong_type ∷ lines) = none
new_lines zero (entry env ∷ lines) = before_rest (env ∷ []) (new_lines zero lines)

-- `consumed` after the loop over the lines: the number of the last line read, plus one.
abbrev pub consumed_after : ℕ → List Line → ℕ
consumed_after start lines = if ltb start (length lines) then length lines else start

-- What the loop over the lanes leaves: the envelopes kept, or `none` if it raised, and the cursor.
pub record Scanned : Type 0 where
  pub found : Option (List Envelope)
  pub consumed : Dict ℕ

-- One round of the loop over the lanes: what the lane's new lines give, and the later rounds.
-- Where the lane raises, neither its cursor has moved nor are there later rounds.
scan_step : (Envelope → Bool) → Dict ℕ → Option (List Envelope) → Scanned → Scanned
scan_step keep consumed none rest = record { found = none; consumed = consumed }
scan_step keep consumed (some envs) rest = record {
  found = before_rest (select keep envs) rest.found;
  consumed = rest.consumed;
}

-- The loop over the lanes, with _read_new_lines on each of them.
unfoldable pub read_lanes : (Envelope → Bool) → Dict ℕ → List LaneFile → Scanned
unfolding new_lines scan_step
read_lanes keep consumed [] = record { found = some []; consumed = consumed }
read_lanes keep consumed ((rel, lines) ∷ files) =
    let start = consumed_of consumed rel in
    scan_step keep consumed (new_lines start lines)
      (read_lanes keep (put consumed rel (consumed_after start lines)) files)

-- The order of the keys (ts, from, seq).
unfoldable pub env_le : Envelope → Envelope → Bool
env_le a b =
    if eqb a.ts b.ts
    then if a.from == b.from then leb a.seq b.seq else is_le (compare a.from b.from)
    else ltb a.ts b.ts

-- The end of receive and drain: the cursor is saved, and the envelopes sorted. A call that raised
-- (`none`) keeps the cursor that it had moved in memory.
unfoldable pub finish : Reader → Dict ℕ → Option (List Envelope) → Option (List Envelope) × Reader
unfolding env_le
finish reader consumed none = (none, record reader { consumed = consumed })
finish reader consumed (some envs) =
    (some (sort_with env_le envs), record reader { consumed = consumed; saved = consumed })

abbrev pub is_foreign : String → Envelope → Bool
is_foreign agent_id env = not (env.from == agent_id)

-- The tests of receive: not the reader's own, and a subscribed channel or the reader's id.
abbrev pub is_mine : Reader → Envelope → Bool
is_mine reader env = is_foreign reader.agent_id env && elim env.chan [
  | some chan ↦ elem chan reader.subs
  | none ↦ elim env.to [ none ↦ false | some to ↦ to == reader.agent_id ]
]

-- GitBus.receive and GitBus.drain on the repository as it is after the fetch
unfoldable pub receive : Reader → Repo → Option (List Envelope) × Reader
unfolding read_lanes finish
receive reader repo =
    let scan = read_lanes (is_mine reader) reader.consumed (all_lane_files repo) in
    finish reader scan.consumed scan.found

unfoldable pub drain : Reader → Repo → Option (List Envelope) × Reader
unfolding read_lanes finish
drain reader repo =
    let keep = is_foreign reader.agent_id in
    let scan = read_lanes keep reader.consumed (all_lane_files repo) in
    finish reader scan.consumed scan.found
