-- ===== src/Transport/Drain/Once.antt =====
-- git_transport.py, GitBus.drain called on a clone that grows between the calls: which envelopes
-- the calls return together.
use mcp_dispatch.Base.{
  ◌+◌, String, Bool, false, ◌&&◌, Option, some, List, [], ◌∷◌, ◌++◌, length, select, elem, ◌≡◌,
  refl, sym, subst, ap, ◌∙◌, arith,
}
use mcp_dispatch.Base.Dict.{get}
use mcp_dispatch.Base.Sort.{length-select-sort_with}
use mcp_dispatch.Transport.{Envelope, LaneFile, Repo, all_lane_files, or_empty}
use mcp_dispatch.Transport.Drain.{
  Reader, consumed_of, read_lanes, env_le, finish, is_foreign, drain,
}
use mcp_dispatch.Transport.Drain.Listing.{
  paths, Distinct, Readable, total, Grows, none_left, longer, added, CaughtUp,
}
use mcp_dispatch.Transport.Drain.Scan.{
  unread, read_lanes-unread, read_lanes-other, read_lanes-CaughtUp, Grows-Within, unread-gain,
  count-append,
}

-- The calls of drain on the repository as each fetch leaves it: all that they return, and the
-- reader after them.
abbrev pub drains : Reader → List Repo → List Envelope × Reader
drains reader [] = ([], reader)
drains reader (repo ∷ repos) =
    let (found, next) = drain reader repo in
    let (rest, end) = drains next repos in (or_empty found ++ rest, end)

-- A clone in which lanes only grow, whose files can be read.
abbrev pub Growing : List LaneFile → List Repo → Type 0
Growing files [] = Unit
Growing files (repo ∷ repos) =
    let next = all_lane_files repo in
    Grows (paths files) files next × Distinct next × Readable next × Growing next repos

abbrev pub last_files : List LaneFile → List Repo → List LaneFile
last_files files [] = files
last_files files (repo ∷ repos) = last_files (all_lane_files repo) repos

-- A reader that has drained `files`.
pub record Drained (reader : Reader) (files : List LaneFile) : Type 0 where
  pub caught_up : CaughtUp reader.consumed files
  pub untouched :
      (rel : String) → elem rel (paths files) ≡ false → consumed_of reader.consumed rel ≡ 0

drain-Readable :
    (reader : Reader) (repo : Repo)
    → Distinct (all_lane_files repo)
    → Readable (all_lane_files repo)
    → drain reader repo
      ≡ finish reader
          (read_lanes (is_foreign reader.agent_id) reader.consumed (all_lane_files repo)).consumed
          (some (unread (is_foreign reader.agent_id) reader.consumed (all_lane_files repo)))
unfolding drain
drain-Readable reader repo d r =
    rw (read_lanes-unread (is_foreign reader.agent_id) reader.consumed (all_lane_files repo) d r)
      refl

Grows-elem :
    (known : List String) (fs gs : List LaneFile) (rel : String)
    → Grows known fs gs
    → elem rel (paths gs) ≡ false
    → elem rel (paths fs) ≡ false
Grows-elem known _ _ rel none_left h = refl
Grows-elem known _ _ rel (longer path lines extra {fs} {gs} g) h =
    ground (arith, Grows-elem known fs gs rel g)
Grows-elem known _ _ rel (added path lines {fs} {gs} new g) h =
    ground (arith, Grows-elem known fs gs rel g)

-- What one call does: the reader has then drained the new listing, and the call has returned as
-- many envelopes of a kind as have come.
pub Step :
    (Envelope → Bool)
    → Reader
    → List LaneFile
    → List LaneFile
    → Option (List Envelope) × Reader
    → Type 0
Step p reader files next out =
    (out.1.agent_id ≡ reader.agent_id)
    × Drained out.1 next
    × (length (select p (or_empty out.0)) + total (λ e. is_foreign reader.agent_id e && p e) files
        ≡ total (λ e. is_foreign reader.agent_id e && p e) next)

drain-Step :
    (p : Envelope → Bool) (reader : Reader) (files : List LaneFile) (repo : Repo)
    → Drained reader files
    → Grows (paths files) files (all_lane_files repo)
    → Distinct (all_lane_files repo)
    → Readable (all_lane_files repo)
    → Step p reader files (all_lane_files repo) (drain reader repo)
unfolding finish Step
drain-Step p reader files repo m g d r =
    let keep = is_foreign reader.agent_id in
    let next = all_lane_files repo in
    subst (Step p reader files next) (sym (drain-Readable reader repo d r)) (
      refl,
      record {
        caught_up =
            read_lanes-CaughtUp keep reader.consumed next d r
              (Grows-Within (paths files) reader.consumed files next g m.caught_up m.untouched);
        untouched = λ rel h.
            read_lanes-other keep reader.consumed next rel r h
            ∙ m.untouched rel (Grows-elem (paths files) files next rel g h);
      },
      omega (
        arith,
        length-select-sort_with p env_le (unread keep reader.consumed next),
        unread-gain p keep (paths files) reader.consumed files next g m.caught_up m.untouched,
      ),
    )

drains-total :
    (p : Envelope → Bool) (reader : Reader) (files : List LaneFile) (repos : List Repo)
    → Drained reader files
    → Growing files repos
    → length (select p (drains reader repos).0)
        + total (λ e. is_foreign reader.agent_id e && p e) files
      ≡ total (λ e. is_foreign reader.agent_id e && p e) (last_files files repos)
unfolding Step
drains-total p reader files [] m g = omega arith
drains-total p reader files (repo ∷ repos) m (g, d, r, more) =
    let next = all_lane_files repo in
    let after = (drain reader repo).1 in
    let (same, drained, count) = drain-Step p reader files repo m g d r in
    let later : length (select p (drains after repos).0)
          + total (λ e. is_foreign reader.agent_id e && p e) next
        ≡ total (λ e. is_foreign reader.agent_id e && p e) (last_files next repos) =
      subst
        (λ me.
          length (select p (drains after repos).0) + total (λ e. is_foreign me e && p e) next
          ≡ total (λ e. is_foreign me e && p e) (last_files next repos))
        same (drains-total p after next repos drained more) in
    omega
      (arith, count, later, count-append p (or_empty (drain reader repo).0) (drains after repos).0)

-- A reader with an empty cursor that drains a clone, in which lanes only grow and no line raises,
-- over any number of calls, gets every envelope of the last listing that is not by itself exactly
-- once: of each kind `p`, as many as the lanes hold.
pub drains-exactly_once :
    (p : Envelope → Bool) (reader : Reader) (repos : List Repo)
    → reader.consumed ≡ []
    → Growing [] repos
    → length (select p (drains reader repos).0)
      ≡ total (λ e. is_foreign reader.agent_id e && p e) (last_files [] repos)
unfolding get
drains-exactly_once p reader repos empty g =
    let m : Drained reader [] = record {
      caught_up = tt;
      untouched = λ rel h. ap (λ c. consumed_of c rel) empty;
    } in
    omega (arith, drains-total p reader [] repos m g)
