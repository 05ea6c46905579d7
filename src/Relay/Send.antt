-- ===== src/Relay/Send.antt =====
-- dispatch_fs.send_message, and the checks and file names that it uses.
pub mod Delivery
pub mod Contract
use Prim.Native.String.{◌++◌}
use mcp_dispatch.Base.{
  ℕ, suc, ◌+◌, String, Bool, true, false, ◌==◌, not, ◌&&◌, ◌||◌, Option, none, some, List, [], ◌∷◌,
  select, elem, ltb, if◌then◌else◌,
}
use mcp_dispatch.Base.Dict.{Dict, get, put}
use mcp_dispatch.Base.Int.{ℤ, pos, negsuc, is_negative}
use mcp_dispatch.Base.Result.{Result, ok, raise, ◌>>=◌, ◌>>◌, raise_if}
use mcp_dispatch.Base.Text.{chars}
use mcp_dispatch.Ident.{is_id}
use mcp_dispatch.Message.{Message, pending, message}
use mcp_dispatch.NotifyPolicy.{channel_of}
use mcp_dispatch.Relay.{Relay, Inbox, live_agents, channel_subscribers, resolve_recipients, or_else}

-- The ValueErrors, by what they say.
pub data SendError : Type 0 where
  negative_ttl bad_kind long_about too_large unknown_agent invalid_id : SendError

-- What the caller passes besides the sender, the target and the content.
pub record Options : Type 0 where
  pub priority : String
  pub thread_id : Option String
  pub reply_to : Option String
  pub payload : Option String
  pub ttl : Option ℤ
  pub must_read : Bool
  pub kind : Option String
  pub about : Option String

pub record Config : Type 0 where
  pub dynamic_mode : Bool
  pub agent_ids : List String
  pub max_message_bytes : ℕ
  pub default_ttl : ℤ

-- What the standard library gives a call: the time in seconds, the eight hex digits of the
-- message's uuid, and for each delivery the text of its millisecond and its own uuid's digits.
pub record Draws : Type 0 where
  pub now : ℕ
  pub id8 : String
  pub stamp : ℕ → String × String

-- validate_id
unfoldable pub validate_id : String → Result SendError (Unit {0})
validate_id s = raise_if (not (is_id s)) invalid_id

-- message_filename
unfoldable pub message_filename : String × String → String → String
message_filename (ts, uuid8) from = ts ++ "-" ++ from ++ "-" ++ uuid8 ++ ".json"

-- `kind is not None and kind not in MESSAGE_KINDS`
abbrev pub bad : Option String → Bool
bad none = false
bad (some kind) = not (elem kind ("fyi" ∷ "ask" ∷ "decision" ∷ "conflict" ∷ []))

-- `about is not None and len(about) > MAX_ABOUT_CHARS`
abbrev pub too_long : Option String → Bool
too_long none = false
too_long (some about) = ltb 200 (chars about)

unfoldable pub triage_fields : Options → Result SendError (Unit {0})
triage_fields options = do
  raise_if (bad options.kind) bad_kind
  raise_if (too_long options.about) long_about

abbrev pub ttl_negative : Option ℤ → Bool
ttl_negative none = false
ttl_negative (some ttl) = is_negative ttl

-- effective_ttl if effective_ttl and effective_ttl > 0 else None
abbrev pub positive_ttl : ℤ → Option ℕ
positive_ttl (pos n) = if ltb 0 n then some n else none
positive_ttl (negsuc n) = none

abbrev pub effective_ttl : ℤ → Option ℤ → ℤ
effective_ttl default_ttl none = default_ttl
effective_ttl default_ttl (some ttl) = ttl

unfoldable pub new_message : Config → Draws → String → String → String → Options → Message
new_message config draws from to content options = record {
  id = "msg-" ++ draws.id8;
  from = from;
  to = to;
  timestamp = draws.now;
  priority = options.priority;
  content = content;
  payload = options.payload;
  thread_id = options.thread_id;
  reply_to = options.reply_to;
  ttl = positive_ttl (effective_ttl config.default_ttl options.ttl);
  must_read = options.must_read;
  state = pending;
  read_at = none;
  expired_at = none;
  kind = options.kind;
  about = options.about;
  via = none;
  inherited_from = none;
}

-- _validate_target
unfoldable pub validate_target : Config → String → Result SendError (Unit {0})
unfolding validate_id
validate_target config target =
    if config.dynamic_mode
    then validate_id target
    else raise_if (not (elem target config.agent_ids)) unknown_agent

-- mkdir(exist_ok=True): what is there, or a new directory of this process
abbrev pub inbox_or_new : Option Inbox → Inbox
inbox_or_new none = record { files = []; ours = true; shared = false }
inbox_or_new (some inbox) = inbox

-- One file written to one inbox.
unfoldable pub write_message : Relay → String → String → Message → Relay
write_message relay target name msg =
    let inbox = inbox_or_new (get relay.inboxes target) in
    record relay {
      inboxes =
          put relay.inboxes target (record inbox { files = put inbox.files name (message msg) });
    }

-- The loop over `delivered`. `copy target` is what `_deliver_one` writes for a target, and `i`
-- counts the file names drawn so far.
unfoldable pub deliver : Draws → String → (String → Message) → ℕ → List String → Relay → Relay
unfolding write_message message_filename
deliver draws from copy i [] relay = relay
deliver draws from copy i (target ∷ targets) relay =
    deliver draws from copy (i + 1) targets
      (write_message relay target (message_filename (draws.stamp i) from) (copy target))

-- What a call returns: the message, `queued_to`, and the relay after it.
pub record Sent : Type 0 where
  pub msg : Message
  pub queued_to : List String
  pub relay : Relay

abbrev pub others : String → List String → List String
others from = select (λ aid. not (aid == from))

-- The inboxes for a target, after its validation.
unfoldable pub addressed : Config → Relay → String → String → Result SendError (List String)
unfolding validate_id validate_target
addressed config relay from to =
    if to == "all"
    then ok (others from (or_else config.agent_ids (live_agents relay)))
    else elim (channel_of to) [
      | some channel ↦ do validate_id channel; ok (others from (channel_subscribers relay channel))
      | none ↦ do validate_target config to; ok (resolve_recipients relay to)
    ]

-- Only a DM's copies carry the inbox's own id in `to`.
unfoldable pub copy_for : Message → String → Message
copy_for msg target =
    if msg.to == "all"
    then msg
    else elim (channel_of msg.to) [ some channel ↦ msg | none ↦ record msg { to = target } ]

-- `json_size` is the length of json.dumps(msg, indent=2) in UTF-8 bytes.
module _ (json_size : Message → ℕ) where
  unfoldable pub send_message :
      Config → Draws → Relay → String → String → String → Options → Result SendError Sent
  unfolding triage_fields new_message addressed
  send_message config draws relay from to content options = do
    raise_if (ttl_negative options.ttl) negative_ttl
    triage_fields options
    let msg = new_message config draws from to content options
    raise_if (ltb config.max_message_bytes (json_size msg + 64)) too_large
    delivered ← addressed config relay from to
    ok (record {
      msg = msg;
      queued_to = delivered;
      relay = deliver draws from (copy_for msg) 0 delivered relay;
    })
