-- ===== src/Server/Registry.antt =====
-- server.py, the .agents registry: the records of the nicks, the sessions of this host in them, the
-- subscriptions, and the reaping of what dead sessions leave. A record's absent text is empty, its
-- absent time 0, and its absent list empty. No access to a file fails. An inbox holds no other
-- files than messages.
pub mod Watermark
pub mod Calls
pub mod Corpse
use mcp_dispatch.Base.{
  ℕ, suc, ◌-◌, String, Bool, true, false, ◌==◌, not, ◌&&◌, ◌||◌, Option, none, some, List, [], ◌∷◌,
  map, length, select, elem, leb, eqb, if◌then◌else◌,
}
use mcp_dispatch.Base.Dict.{Dict, get, put, has}
use mcp_dispatch.Base.Result.{Result, ok, raise}
use mcp_dispatch.Base.Sort.{sort_by, sort_with, sorted}
use mcp_dispatch.Ident.{is_id, durable_nick}
use mcp_dispatch.Message.{File}
use mcp_dispatch.Relay.{Relay, Inbox, Presence, Session, Agent, live_sessions_of}

abbrev pub blank : Agent
blank = record {
  nick = "";
  first_seen = 0;
  sessions = 0;
  last_seen = 0;
  previous_seen = none;
  last_session_id = "";
  local_sessions = [];
  last_cwd = "";
  channels = [];
}

-- The record that a file holds, `{}` where it does not load.
abbrev pub loaded : Option (Option Agent) → Agent
loaded none = blank
loaded (some none) = blank
loaded (some (some rec)) = rec

-- _local_session_ids
unfoldable pub local_session_ids : Relay → Agent → String → List String
local_session_ids relay rec agent_id =
    agent_id ∷ select (λ aid. not (aid == agent_id) && has relay.inboxes aid) rec.local_sessions

abbrev first_of : ℕ → ℕ → ℕ
first_of a b = if eqb a 0 then b else a

-- Whether no other session of the nick is live.
abbrev pub was_away : Relay → String → String → Bool
was_away relay nick agent_id =
    eqb (length (select (λ aid. not (aid == agent_id)) (live_sessions_of relay nick))) 0

unfoldable pub updated : Relay → String → String → ℕ → String → Agent → Agent
unfolding local_session_ids
updated relay nick agent_id now cwd rec =
    let first_seen = first_of rec.first_seen now in
    record {
      nick = if rec.nick == "" then nick else rec.nick;
      first_seen = first_seen;
      sessions = suc rec.sessions;
      last_seen = now;
      previous_seen =
          if was_away relay nick agent_id
          then some (first_of rec.last_seen (first_of first_seen now))
          else rec.previous_seen;
      last_session_id = agent_id;
      local_sessions = local_session_ids relay rec agent_id;
      last_cwd = cwd;
      channels = rec.channels;
    }

-- _register_agent
unfoldable pub register_agent : Relay → String → ℕ → String → Relay
unfolding updated
register_agent relay agent_id now cwd =
    let nick = durable_nick agent_id in
    if not (is_id nick) then relay else record relay {
      agents =
          put relay.agents nick
            (some (updated relay nick agent_id now cwd (loaded (get relay.agents nick))));
    }

abbrev fields : Option (List String) → Agent → Agent
fields none rec = rec
fields (some channels) rec = record rec { channels = channels }

unfoldable pub touch_record :
    Relay → String → ℕ → Option (List String) → Option (Option Agent) → Relay
touch_record relay nick now given none = relay
touch_record relay nick now given (some none) = relay
touch_record relay nick now given (some (some rec)) = record relay {
  agents = put relay.agents nick (some (fields given (record rec { last_seen = now })));
}

-- _touch_agent, with the channels where they are passed
unfoldable pub touch_agent : Relay → String → ℕ → Option (List String) → Relay
unfolding touch_record
touch_agent relay agent_id now given =
    let nick = durable_nick agent_id in
    if not (is_id nick) then relay else touch_record relay nick now given (get relay.agents nick)

abbrev pub unlock : String → Option Presence → Dict Presence → Dict Presence
unlock agent_id none files = files
unlock agent_id (some presence) files = put files agent_id (record presence { locked = false })

-- _release_id: the registry is stamped before the lock is dropped.
unfoldable pub release_id : Relay → String → ℕ → Relay
unfolding touch_agent
release_id relay agent_id now =
    let stamped = touch_agent relay agent_id now none in
    record stamped { presence = unlock agent_id (get stamped.presence agent_id) stamped.presence }

unfoldable pub known_of : List (String × Option Agent) → List Agent
known_of [] = []
known_of ((stem, none) ∷ files) = known_of files
known_of ((stem, some rec) ∷ files) =
    let rest = known_of files in if is_id rec.nick then rec ∷ rest else rest

-- _known_agents, the most recently active first
unfoldable pub known_agents : Relay → List Agent
unfolding known_of
known_agents relay =
    sort_with (λ (r s : Agent). leb s.last_seen r.last_seen)
      (known_of (sort_by (λ (f : String × Option Agent). f.0) relay.agents))

abbrev channels_of : Option (Option Agent) → List String
channels_of none = []
channels_of (some none) = []
channels_of (some (some rec)) = select is_id rec.channels

-- _remembered_channels
unfoldable pub remembered_channels : Bool → Relay → String → List String
remembered_channels roster relay agent_id =
    let nick = durable_nick agent_id in
    if roster || not (is_id nick) || not (was_away relay nick agent_id)
    then []
    else channels_of (get relay.agents nick)

abbrev with_channel : String → Bool → List String → List String
with_channel channel true channels = if elem channel channels then channels else channel ∷ channels
with_channel channel false channels = select (λ c. not (c == channel)) channels

unfoldable pub write_presence : Relay → String → List String → Option Presence → Relay
write_presence relay agent_id channels none = relay
write_presence relay agent_id channels (some presence) = record relay {
  presence =
      put relay.presence agent_id
        (record presence { content = some (record { agent_id = agent_id; channels = channels }) });
}

-- _set_subscription, with the session's channels before it and the rooms of the environment: the
-- channels and the relay after it
unfoldable pub set_subscription :
    Relay
    → String
    → ℕ
    → List String
    → List String
    → String
    → Bool
    → Result (Unit {0}) (List String × Relay)
unfolding write_presence touch_agent
set_subscription relay agent_id now from_env mine channel subscribed =
    if not (is_id channel)
    then raise tt
    else let channels = sorted (with_channel channel subscribed mine) in
      let written = write_presence relay agent_id channels (get relay.presence agent_id) in
      ok (
        channels,
        touch_agent written agent_id now (some (select (λ c. not (elem c from_env)) channels)),
      )

-- _reap_dead_presence: the relay and the count
unfoldable pub reap_dead_presence : Relay → Relay × ℕ
reap_dead_presence relay =
    let live = select (λ (f : String × Presence). f.1.locked) relay.presence in
    (record relay { presence = live }, length relay.presence - length live)

abbrev is_empty : List (String × File) → Bool
is_empty [] = true
is_empty _ = false

-- The test of the loop, negated: the directory stays.
abbrev pub stays : List String → String × Inbox → Bool
stays known (name, inbox) = elem name known || not (is_empty inbox.files)

-- _reap_empty_inboxes
unfoldable pub reap_empty_inboxes : Bool → Relay → Relay × ℕ
unfolding known_agents
reap_empty_inboxes roster relay =
    let known = map (λ (r : Agent). r.nick) (known_agents relay) in
    let kept = select (stays known) relay.inboxes in
    if roster
    then (relay, 0)
    else (record relay { inboxes = kept }, length relay.inboxes - length kept)
