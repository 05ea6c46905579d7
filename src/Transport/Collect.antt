-- ===== src/Transport/Collect.antt =====
-- git_transport.py, GitBus.collect with no body codec and no fetch of its own: the latest record of
-- each author and key. The dictionary is the list of its values, which have their keys.
pub mod Latest
use mcp_dispatch.Base.{
  ℕ, String, Bool, true, false, ◌==◌, not, ◌&&◌, ◌||◌, Option, none, some, List, [], ◌∷◌, ltb, eqb,
  if◌then◌else◌,
}
use mcp_dispatch.Base.Result.{Result, ok, raise, ◌>>=◌}
use mcp_dispatch.Transport.{
  Envelope, Line, blank, malformed, wrong_type, entry, Repo, LaneFile, all_lane_files,
}

abbrev same_option : Option String → Option String → Bool
same_option none none = true
same_option (some a) (some b) = a == b
same_option _ _ = false

-- Whether two records have one key of the dictionary.
abbrev pub same_slot : Envelope → Envelope → Bool
same_slot e f = e.from == f.from && same_option e.key f.key

-- `(env.seq, env.ts) > (cur.seq, cur.ts)`
abbrev pub newer : Envelope → Envelope → Bool
newer env cur = ltb cur.seq env.seq || eqb cur.seq env.seq && ltb cur.ts env.ts

unfoldable pub keep_latest : Envelope → List Envelope → List Envelope
keep_latest env [] = env ∷ []
keep_latest env (cur ∷ latest) =
    let rest = keep_latest env latest in
    if same_slot cur env then (if newer env cur then env else cur) ∷ latest else cur ∷ rest

abbrev pub passes_type : Option String → Envelope → Bool
passes_type none env = true
passes_type (some type) env = env.type == type

unfoldable pub collect_lines :
    Option String → List Line → List Envelope → Result (Unit {0}) (List Envelope)
unfolding keep_latest
collect_lines filter [] latest = ok latest
collect_lines filter (blank ∷ lines) latest = collect_lines filter lines latest
collect_lines filter (malformed ∷ lines) latest = collect_lines filter lines latest
collect_lines filter (wrong_type ∷ lines) latest = raise tt
collect_lines filter (entry env ∷ lines) latest =
    collect_lines filter lines (if passes_type filter env then keep_latest env latest else latest)

unfoldable pub collect_files :
    Option String → List LaneFile → List Envelope → Result (Unit {0}) (List Envelope)
unfolding collect_lines
collect_files filter [] latest = ok latest
collect_files filter ((path, lines) ∷ files) latest =
    collect_lines filter lines latest >>= λ next. collect_files filter files next

unfoldable pub collect : Option String → Repo → Result (Unit {0}) (List Envelope)
unfolding collect_files
collect filter repo = collect_files filter (all_lane_files repo) []
