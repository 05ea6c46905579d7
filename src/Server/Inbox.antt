-- ===== src/Server/Inbox.antt =====
-- server.py, a session's own inbox: expiry and tombstones, reading, marking read, acks. The inbox
-- is the table of its files by name. No access to a file fails, and the clock stands still during a
-- call. `glob` lists the files in the order of the table, which nothing depends on.
pub mod Retire
pub mod Waiting
pub mod Once
pub mod Deliver
pub mod Ack
use mcp_dispatch.Base.{
  ℕ, suc, ◌+◌, String, Bool, true, false, ◌==◌, not, ◌&&◌, ◌||◌, Option, none, some, List, [], ◌∷◌,
  select, elem, ltb, if◌then◌else◌,
}
use mcp_dispatch.Base.Dict.{Dict, get, put, remove}
use mcp_dispatch.Base.Sort.{sort_by}
use mcp_dispatch.Base.Text.{take}
use mcp_dispatch.Message.{
  Message, State, pending, read, expired, File, unreadable, message, is_pending, is_tombstone,
  is_expired,
}

-- TOMBSTONE_TTL and TOMBSTONE_PREVIEW
abbrev pub tombstone_ttl : ℕ
tombstone_ttl = 604_800

abbrev pub tombstone_preview : ℕ
tombstone_preview = 120

-- _tombstone
unfoldable pub tombstone : ℕ → Message → Message
tombstone now msg = record {
  id = msg.id;
  from = msg.from;
  to = msg.to;
  timestamp = msg.timestamp;
  priority = msg.priority;
  content = take tombstone_preview msg.content;
  payload = none;
  thread_id = msg.thread_id;
  reply_to = none;
  ttl = none;
  must_read = false;
  state = expired;
  read_at = none;
  expired_at = some now;
  kind = none;
  about = none;
  via = none;
  inherited_from = none;
}

-- `stamped > 0 and time.time() > stamped + TOMBSTONE_TTL`, where 0 stands for no time
abbrev pub outlived : ℕ → Option ℕ → Bool
outlived now none = false
outlived now (some stamped) = ltb 0 stamped && ltb (stamped + tombstone_ttl) now

-- What becomes of one file: nothing, another content, or its removal. The Boolean says whether the
-- call counts it as retired.
pub data Fate : Type 0 where
  stays : Fate
  becomes : Message → Fate
  goes : Bool → Fate

unfoldable pub retire : ℕ → Message → Fate
unfolding tombstone
retire now msg =
    if is_tombstone msg.state
    then (if outlived now msg.expired_at then goes false else stays)
    else if not (is_expired now msg)
    then stays
    else if is_pending msg.state
    then becomes (tombstone now msg)
    else goes true

-- An inbox after _cleanup_expired, and its count.
pub record Cleaned : Type 0 where
  pub files : Dict File
  pub retired : ℕ

unfoldable pub settle : String → Message → Fate → Cleaned → Cleaned
settle name msg stays rest = record rest { files = (name, message msg) ∷ rest.files }
settle name msg (becomes msg') rest = record {
  files = (name, message msg') ∷ rest.files;
  retired = suc rest.retired;
}
settle name msg (goes true) rest = record rest { retired = suc rest.retired }
settle name msg (goes false) rest = rest

-- _cleanup_expired at the time `now`
unfoldable pub cleanup_expired : ℕ → Dict File → Cleaned
unfolding retire settle
cleanup_expired now [] = record { files = []; retired = 0 }
cleanup_expired now ((name, unreadable) ∷ files) =
    let rest = cleanup_expired now files in record rest { files = (name, unreadable) ∷ rest.files }
cleanup_expired now ((name, message msg) ∷ files) =
    settle name msg (retire now msg) (cleanup_expired now files)

-- A message that was read, with the name of its file (`_file`).
abbrev pub Entry : Type 0
Entry = String × Message

abbrev pub same_state : State → State → Bool
same_state pending pending = true
same_state read read = true
same_state expired expired = true
same_state _ _ = false

-- The two tests on a state, with the filter or without.
abbrev pub passes_state : Option State → State → Bool
passes_state none state = not (is_tombstone state)
passes_state (some wanted) state =
    not (is_tombstone state && not (is_tombstone wanted)) && same_state state wanted

-- `thread_id and msg.get("thread_id") != thread_id`, negated. An empty text is no filter.
abbrev pub passes_thread : Option String → Option String → Bool
passes_thread none thread = true
passes_thread (some wanted) none = wanted == ""
passes_thread (some wanted) (some thread) = wanted == "" || thread == wanted

abbrev passes : Option State → Option String → Message → Bool
passes state thread msg = passes_state state msg.state && passes_thread thread msg.thread_id

unfoldable pub entries : Option State → Option String → List (String × File) → List Entry
entries state thread [] = []
entries state thread ((name, unreadable) ∷ files) = entries state thread files
entries state thread ((name, message msg) ∷ files) =
    let rest = entries state thread files in
    if passes state thread msg then (name, msg) ∷ rest else rest

-- _read_inbox
unfoldable pub read_inbox : Option State → Option String → Dict File → List Entry
unfolding entries
read_inbox state thread files = entries state thread (sort_by (λ (f : String × File). f.0) files)

-- A message after _mark_read
abbrev pub as_read : ℕ → Message → Message
as_read now msg = record msg { state = read; read_at = some now }

-- _mark_read
unfoldable pub mark_read : ℕ → List Entry → Dict File → Dict File
mark_read now [] files = files
mark_read now ((name, msg) ∷ rest) files =
    mark_read now rest
      (if is_pending msg.state then put files name (message (as_read now msg)) else files)

-- The messages that a call of _with_pending attaches, as the files had them, and the inbox after it.
pub record Attached : Type 0 where
  pub dispatches : List Entry
  pub files : Dict File

unfoldable pub with_pending : ℕ → Dict File → Attached
unfolding cleanup_expired read_inbox mark_read
with_pending now files =
    let cleaned = (cleanup_expired now files).files in
    let messages = read_inbox (some pending) none cleaned in
    record { dispatches = messages; files = mark_read now messages cleaned }

-- _select_messages. An empty list of ids is no list.
unfoldable pub select_messages : Option String → Bool → List String → Dict File → List Entry
unfolding read_inbox
select_messages thread include_read [] files =
    if include_read then read_inbox none thread files else read_inbox (some pending) thread files
select_messages thread include_read (id ∷ ids) files =
    select (λ (e : Entry). elem e.1.id (id ∷ ids)) (read_inbox none thread files)

-- The messages of peek_tool, and the inbox after it.
unfoldable pub peek : ℕ → Option String → Bool → List String → Dict File → Attached
unfolding cleanup_expired select_messages mark_read
peek now thread include_read ids files =
    let cleaned = (cleanup_expired now files).files in
    let messages = select_messages thread include_read ids cleaned in
    record { dispatches = messages; files = mark_read now messages cleaned }

-- The first file that holds a message with an id.
unfoldable pub find_id : String → List (String × File) → Option String
find_id id [] = none
find_id id ((name, unreadable) ∷ files) = find_id id files
find_id id ((name, message msg) ∷ files) =
    let rest = find_id id files in if msg.id == id then some name else rest

-- ack_tool, before its _with_pending.
pub record Acked : Type 0 where
  pub files : Dict File
  pub acked : ℕ
  pub not_found : List String

unfoldable pub acked_one : String → Option String → Acked → Acked
acked_one id none st = record st { not_found = id ∷ st.not_found }
acked_one id (some name) st = record st { acked = suc st.acked }

unfoldable pub unlink_found : Option String → Dict File → Dict File
unlink_found none files = files
unlink_found (some name) files = remove files name

unfoldable pub ack : List String → Dict File → Acked
unfolding find_id acked_one unlink_found
ack [] files = record { files = files; acked = 0; not_found = [] }
ack (id ∷ ids) files =
    let found = find_id id files in acked_one id found (ack ids (unlink_found found files))
