-- ===== src/Message.antt =====
-- The message record: the JSON object that dispatch_fs.send_message writes and that every reader
-- of an inbox loads. A field that may be absent or null is an `Option`, and an absent `id`, `from`
-- or `to` is the empty text, which the readers treat alike. A missing `state` is `pending`, as
-- `msg.get("state", "pending")` reads it. A timestamp is the number of seconds that
-- `parse_timestamp` makes of its text, 0 for a text that is no time.
pub mod Expiry
use mcp_dispatch.Base.{
  ℕ, ◌+◌, String, Bool, true, false, not, ◌&&◌, ◌||◌, ◌==◌, Option, none, some, ltb, eqb,
  if◌then◌else◌,
}

pub data State : Type 0 where
  pending read expired : State

pub record Message : Type 0 where
  pub id : String
  pub from : String
  pub to : String
  pub timestamp : ℕ
  pub priority : String
  pub content : String
  pub payload : Option String  -- the JSON text of the object
  pub thread_id : Option String
  pub reply_to : Option String
  pub ttl : Option ℕ
  pub must_read : Bool
  pub state : State
  pub read_at : Option ℕ
  pub expired_at : Option ℕ
  pub kind : Option String
  pub about : Option String
  pub via : Option String  -- `_via`
  pub inherited_from : Option String  -- `_inherited_from`

abbrev pub is_pending : State → Bool
is_pending pending = true
is_pending _ = false

abbrev pub is_tombstone : State → Bool
is_tombstone expired = true
is_tombstone _ = false

-- is_expired, at the time `now`. A ttl of `None` or 0 is falsy.
unfoldable pub is_expired : ℕ → Message → Bool
is_expired now msg = elim msg.ttl [
  | none ↦ false
  | some ttl ↦
      if eqb ttl 0 || msg.must_read
      then false
      else if eqb msg.timestamp 0
      then false
      else ltb (msg.timestamp + ttl) now
]

-- What is in a file `*.json`: a message, or bytes that do not load as one, which readers skip.
pub data File : Type 0 where
  unreadable : File
  message : Message → File

-- BRIDGED_VIA_TAGS
abbrev pub is_bridged : Option String → Bool
is_bridged none = false
is_bridged (some tag) = tag == "git" || tag == "native-bridge"

-- GitBus.publish's arguments for a message, less the routing target (msg_to_publish_kwargs).
pub record PublishKwargs : Type 0 where
  pub body : Message
  pub type : String
  pub key : Option String
  pub ttl : Option ℕ

unfoldable pub msg_to_publish_kwargs : Message → PublishKwargs
msg_to_publish_kwargs msg = record {
  body = msg;
  type = "message";
  key = msg.thread_id;
  ttl = msg.ttl;
}

-- envelope_to_msg, on the envelope's body.
unfoldable pub envelope_to_msg : Message → Message
envelope_to_msg body = record body { state = pending; read_at = none; via = some "git" }
