-- ===== src/Relay.antt =====
-- dispatch_fs.py, the relay directory: inboxes, presence, the `.agents` registry and the `.remote`
-- roster, and what is read from them. A directory is the table of its entries by name, and a
-- presence or registry file by its stem; `sorted` is applied where the source applies it. The
-- inboxes are the entries whose names do not begin with a dot.
pub mod Recipients
pub mod Send
use mcp_dispatch.Base.{
  ℕ, String, Bool, true, false, ◌==◌, not, ◌&&◌, Option, none, some, List, [], ◌∷◌, ◌++◌, map,
  select, elem, length, if◌then◌else◌,
}
use mcp_dispatch.Base.Dict.{Dict, get, has}
use mcp_dispatch.Base.Sort.{sort_by, sorted}
use mcp_dispatch.Ident.{is_id, durable_nick}
use mcp_dispatch.Message.{Message, File, unreadable, message, is_pending, is_expired}

pub record Inbox : Type 0 where
  pub files : Dict File
  pub ours : Bool  -- st_uid == os.getuid()
  pub shared : Bool  -- setgid and group rwx, and this process has the access

-- The JSON of a presence file. An absent or null `agent_id` is the empty text.
pub record Session : Type 0 where
  pub agent_id : String
  pub channels : List String

pub record Presence : Type 0 where
  pub locked : Bool  -- a live process holds the flock, so the probe blocks
  pub content : Option Session  -- `none` where the file does not load

-- A record of the `.agents` registry. A time is a number of seconds.
pub record Agent : Type 0 where
  pub nick : String
  pub first_seen : ℕ
  pub sessions : ℕ
  pub last_seen : ℕ
  pub previous_seen : Option ℕ
  pub last_session_id : String
  pub local_sessions : List String
  pub last_cwd : String
  pub channels : List String

pub record Relay : Type 0 where
  pub inboxes : Dict Inbox
  pub presence : Dict Presence
  pub agents : Dict (Option Agent)  -- `none` where the file does not load
  pub remote : Dict (Unit {0})

-- iter_pending, over files that are sorted already
unfoldable pub pending_files : ℕ → List (String × File) → List Message
pending_files now [] = []
pending_files now ((name, unreadable) ∷ files) = pending_files now files
pending_files now ((name, message msg) ∷ files) =
    let rest = pending_files now files in
    if is_pending msg.state && not (is_expired now msg) then msg ∷ rest else rest

-- iter_pending at the time `now`; an inbox that is no directory has nothing
unfoldable pub iter_pending : ℕ → Option Inbox → List Message
unfolding pending_files
iter_pending now none = []
iter_pending now (some inbox) = pending_files now (sort_by (λ (f : String × File). f.0) inbox.files)

unfoldable pub count_pending : ℕ → Option Inbox → ℕ
unfolding iter_pending
count_pending now inbox = length (iter_pending now inbox)

unfoldable pub live_presence_files : Relay → List (String × Presence)
live_presence_files relay =
    select (λ (f : String × Presence). f.1.locked)
      (sort_by (λ (f : String × Presence). f.0) relay.presence)

-- `agent_id or pf.stem`, and the stem of a file that does not load
abbrev pub agent_of : String → Option Session → String
agent_of stem none = stem
agent_of stem (some session) = if session.agent_id == "" then stem else session.agent_id

unfoldable pub live_agents : Relay → List String
unfolding live_presence_files
live_agents relay =
    select is_id
      (map (λ (f : String × Presence). agent_of f.0 f.1.content) (live_presence_files relay))

unfoldable pub live_nicks : Relay → List String
live_nicks relay = map durable_nick (live_agents relay)

-- xs if xs else ys
abbrev pub or_else {ℓ} : {A : Type ℓ} → List A → List A → List A
or_else [] ys = ys
or_else (x ∷ xs) ys = x ∷ xs

-- sorted(aid for aid in live_agents(...) if durable_nick(aid) == nick)
unfoldable pub live_sessions_of : Relay → String → List String
live_sessions_of relay nick = sorted (select (λ aid. durable_nick aid == nick) (live_agents relay))

unfoldable pub resolve_recipients : Relay → String → List String
resolve_recipients relay target =
    let nick = durable_nick target in
    if elem target (live_agents relay)
    then target ∷ []
    else or_else (live_sessions_of relay target) (
        if nick == target
        then target ∷ []
        else if has relay.remote target
        then target ∷ []
        else or_else (live_sessions_of relay nick) (nick ∷ []))

-- One registry record's session ids, `last_session_id` among them.
abbrev pub recorded : Option Agent → List String
recorded none = []
recorded (some agent) = agent.local_sessions ++ agent.last_session_id ∷ []

unfoldable pub local_session_ids : Dict (Option Agent) → List String
local_session_ids [] = []
local_session_ids ((stem, agent) ∷ files) = select is_id (recorded agent) ++ local_session_ids files

-- The subscriber that one live presence file names, if it names one that is safe as a path.
abbrev subscriber : String → Option Session → List String
subscriber channel none = []
subscriber channel (some session) =
    if elem channel session.channels && is_id session.agent_id then session.agent_id ∷ [] else []

subscribers_in : String → List (String × Presence) → List String
subscribers_in channel [] = []
subscribers_in channel ((stem, presence) ∷ files) =
    subscriber channel presence.content ++ subscribers_in channel files

unfoldable pub channel_subscribers : Relay → String → List String
unfolding live_presence_files subscribers_in
channel_subscribers relay channel = subscribers_in channel (live_presence_files relay)
