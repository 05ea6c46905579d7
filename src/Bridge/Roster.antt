-- ===== src/Bridge/Roster.antt =====
-- git_bridge.py, GitBridge._write_remote_roster: the agents of other hosts, by the lanes of the
-- clone. A roster file is its name here, which is what routing and inheritance read of it.
pub mod Local
use mcp_dispatch.Base.{
  ℕ, String, Bool, true, false, ◌==◌, not, ◌||◌, Option, none, some, List, [], ◌∷◌, ◌++◌, select,
  elem, if◌then◌else◌,
}
use mcp_dispatch.Base.Dict.{Dict, keys, put}
use mcp_dispatch.Base.Result.{Result, ok, raise, ◌>>=◌, ◌>>◌}
use mcp_dispatch.Ident.{is_id}
use mcp_dispatch.Relay.{Relay, local_session_ids}
use mcp_dispatch.Transport.{Envelope, Line, blank, malformed, wrong_type, entry, Repo}

-- _local_ids
unfoldable pub local_ids : Relay → List String
local_ids relay = select is_id (keys relay.presence) ++ local_session_ids relay.agents

abbrev or_line : Option Line → Line → Option Line
or_line none line = some line
or_line (some later) line = some later

-- The last line that is not blank.
unfoldable pub last_line : List Line → Option Line
last_line [] = none
last_line (blank ∷ lines) = last_line lines
last_line (line ∷ lines) = or_line (last_line lines) line

abbrev ts_of : Option Line → Result (Unit {0}) (Option ℕ)
ts_of none = ok none
ts_of (some blank) = ok none
ts_of (some malformed) = ok none
ts_of (some wrong_type) = raise tt
ts_of (some (entry env)) = ok (some env.ts)

-- _last_ts
unfoldable pub last_ts : List Line → Result (Unit {0}) (Option ℕ)
unfolding last_line
last_ts lines = ts_of (last_line lines)

-- `current`: the valid ids with a lane that are not local, with the time of their last record
unfoldable pub current :
    List String → List (String × List Line) → Result (Unit {0}) (Dict (Option ℕ))
unfolding last_ts
current local [] = ok []
current local ((author, lines) ∷ lanes) =
    let rest = current local lanes in
    if not (is_id author) || elem author local
    then rest
    else (do seen ← last_ts lines; more ← rest; ok ((author, seen) ∷ more))

-- The loop that writes the records.
unfoldable pub written : Dict (Option ℕ) → Dict (Unit {0}) → Dict (Unit {0})
written [] roster = roster
written ((author, seen) ∷ authors) roster = written authors (put roster author tt)

-- The files that stay: `set(existing) - set(current)` goes.
unfoldable pub pruned : Dict (Option ℕ) → Dict (Unit {0}) → Dict (Unit {0})
pruned authors roster = select (λ (f : String × Unit {0}). elem f.0 (keys authors)) roster

unfoldable pub write_remote_roster : Repo → Relay → Result (Unit {0}) Relay
unfolding local_ids current written pruned
write_remote_roster repo relay = do
  authors ← current (local_ids relay) repo.lanes
  ok (record relay { remote = pruned authors (written authors relay.remote) })
