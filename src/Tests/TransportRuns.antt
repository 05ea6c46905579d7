-- ===== src/Tests/TransportRuns.antt =====
-- The transport on concrete clones.
use mcp_dispatch.Base.{
  ℕ, String, true, none, some, List, [], ◌∷◌, All, length, select, ◌≡◌, refl, arith, ◌&&◌, ◌≤◌,
}
use mcp_dispatch.Base.Dict.{Dict, get, put}
use mcp_dispatch.Base.Sort.{sort_by, sort_with}
use mcp_dispatch.Transport.{
  other_json, Envelope, Line, blank, malformed, wrong_type, entry, Repo, files_in, channel_files,
  LaneFile, all_lane_files, my_lane, append_line,
}
use mcp_dispatch.Transport.Publish.{Post, is_wire_id, publish}
use mcp_dispatch.Transport.Publish.Lanes.{WellOrdered, InOrder, publishes, publishes-InOrder}
use mcp_dispatch.Transport.Drain.{Reader, consumed_of, finish, drain, read_lanes, is_foreign}
use mcp_dispatch.Transport.Drain.Listing.{none_left, longer, added, total}
use mcp_dispatch.Transport.Drain.Once.{Growing, drains, drains-exactly_once, last_files}
use mcp_dispatch.Transport.Collect.{collect, collect_files, collect_lines, keep_latest}
use mcp_dispatch.Transport.Collect.Latest.{Covered, collect-Covered}
use mcp_dispatch.Base.Result.{ok}
use mcp_dispatch.Transport.Drain.Wedged.{line_at, drains-wedged}

abbrev env : String → ℕ → Envelope
env from seq = record {
  type = "message";
  from = from;
  body = other_json;
  to = some "zed-9";
  chan = none;
  key = none;
  id = "rec-0";
  ts = 5;
  seq = seq;
  ttl = none;
}

abbrev clone : Dict (List Line) → Repo
clone lanes = record { lanes = lanes; channels = [] }

abbrev amy_one : List Line
amy_one = entry (env "amy-7" 0) ∷ malformed ∷ []

abbrev amy_more : List Line
amy_more = entry (env "amy-7" 0) ∷ malformed ∷ entry (env "amy-7" 2) ∷ []

abbrev bob_one : List Line
bob_one = blank ∷ entry (env "bob-8" 0) ∷ []

abbrev before : Repo
before = clone (("amy-7", amy_one) ∷ [])

abbrev after : Repo
after = clone (("bob-8", bob_one) ∷ ("amy-7", amy_more) ∷ [])

abbrev gitsync : Reader
gitsync = record { agent_id = "_gitsync"; subs = []; consumed = []; saved = [] }

grown : Growing [] (before ∷ after ∷ [])
unfolding all_lane_files files_in channel_files sort_by
grown = (
  added "lanes/amy-7.jsonl" amy_one refl none_left,
  (refl, tt),
  (refl, tt),
  (
    longer "lanes/amy-7.jsonl" amy_one (entry (env "amy-7" 2) ∷ [])
        (added "lanes/bob-8.jsonl" bob_one refl none_left),
    (refl, (refl, tt)),
    (refl, (refl, tt)),
    tt,
  ),
)

drains-exactly_once_example :
    length (select (λ e. true) (drains gitsync (before ∷ after ∷ [])).0)
    ≡ total (λ e. is_foreign "_gitsync" e && true) (last_files [] (before ∷ after ∷ []))
drains-exactly_once_example =
    drains-exactly_once (λ e. true) gitsync (before ∷ after ∷ []) refl grown

three_drained : length (drains gitsync (before ∷ after ∷ [])).0 ≡ 3
unfolding drain read_lanes finish get put sort_with all_lane_files sort_by
three_drained = refl

abbrev poisoned : Repo
poisoned = clone (("amy-7", amy_one) ∷ ("bob-8", wrong_type ∷ []) ∷ [])

bob_poisoned :
    (lines : List Line) × (get (all_lane_files poisoned) "lanes/bob-8.jsonl" ≡ some lines)
    × (line_at 0 lines ≡ some wrong_type)
unfolding get all_lane_files sort_by
bob_poisoned = (wrong_type ∷ [], refl, refl)

at_start : consumed_of gitsync.consumed "lanes/bob-8.jsonl" ≤ 0
unfolding get
at_start = omega arith

drains-wedged_example : (drains gitsync (poisoned ∷ poisoned ∷ [])).0 ≡ []
drains-wedged_example =
    drains-wedged gitsync (poisoned ∷ poisoned ∷ []) "lanes/bob-8.jsonl" 0 at_start
      (bob_poisoned, (bob_poisoned, tt))

abbrev to_zed : Post
to_zed = record {
  body = other_json;
  to = some "zed-9";
  chan = none;
  type = "message";
  key = none;
  ttl = none;
  uuid12 = "0123456789ab";
  now = 5;
}

abbrev in_eng : Post
in_eng = record to_zed { to = none; chan = some "eng" }

empty-WellOrdered : WellOrdered (clone [])
unfolding my_lane get
empty-WellOrdered author none = tt
empty-WellOrdered author (some chan) = tt

publishes-InOrder_example : InOrder "amy-7" none 0 (
    my_lane
      (publishes (clone []) (("amy-7", to_zed) ∷ ("bob-8", to_zed) ∷ ("amy-7", in_eng) ∷ []))
      "amy-7"
      none)
publishes-InOrder_example =
    publishes-InOrder (clone []) (("amy-7", to_zed) ∷ ("bob-8", to_zed) ∷ ("amy-7", in_eng) ∷ [])
      "amy-7" none empty-WellOrdered

published_lane :
    length (
      my_lane
        (publishes (clone []) (("amy-7", to_zed) ∷ ("bob-8", to_zed) ∷ ("amy-7", to_zed) ∷ []))
        "amy-7"
        none)
    ≡ 2
unfolding publish is_wire_id my_lane append_line get put
published_lane = refl

abbrev latest : List Envelope
latest = env "amy-7" 2 ∷ env "bob-8" 0 ∷ []

collected : collect (some "message") after ≡ ok latest
unfolding collect collect_files collect_lines keep_latest all_lane_files files_in channel_files
    sort_by
collected = refl

collect-Covered_example :
    All (λ (f : LaneFile). All (Covered (some "message") latest) f.1) (all_lane_files after)
collect-Covered_example = collect-Covered (some "message") after latest collected
