-- ===== src/Tests/RelayRuns.antt =====
-- Routing and sending.
use mcp_dispatch.Base.{
  ℕ, String, true, false, ◌≡◌, refl, ◌⊎◌, eq_iff, arith, none, some, List, [], ◌∷◌, elem, All,
}
use mcp_dispatch.Base.Dict.{get}
use mcp_dispatch.Base.Int.{pos}
use mcp_dispatch.Base.Result.{Result, ok, raise}
use mcp_dispatch.Base.Sort.{sort_by}
use mcp_dispatch.Ident.{is_id, durable_nick}
use mcp_dispatch.Message.{Message, message, pending}
use mcp_dispatch.NotifyPolicy.{should_notify}
use mcp_dispatch.Relay.{
  Relay, Presence, live_agents, live_sessions_of, resolve_recipients, channel_subscribers,
}
use mcp_dispatch.Relay.Recipients.{IsReached, resolve_recipients-IsSafe, resolve_recipients-dead}
use mcp_dispatch.Relay.Send.{
  Options, Config, Draws, Sent, SendError, invalid_id, send_message, copy_for,
}
use mcp_dispatch.Relay.Send.Delivery.{file_at}
use mcp_dispatch.Relay.Send.Contract.{send_message-queued_to, send_message-direct}

abbrev pub live_file : String → List String → Presence
live_file aid channels = record {
  locked = true;
  content = some (record { agent_id = aid; channels = channels });
}

abbrev pub relay : Relay
relay = record {
  inboxes = [];
  presence =
      ("bob-12", live_file "bob-12" ("eng" ∷ []))
      ∷ ("amy-7", live_file "amy-7" ("eng" ∷ []))
      ∷ ("bob-3", record { locked = false; content = none })
      ∷ [];
  agents = [];
  remote = [];
}

abbrev pub config : Config
config = record {
  dynamic_mode = true;
  agent_ids = [];
  max_message_bytes = 4096;
  default_ttl = pos 60;
}

abbrev pub draws : Draws
draws = record { now = 1700; id8 = "0badcafe"; stamp = λ i. ("1700000", "deadbeef") }

abbrev pub plain : Options
plain = record {
  priority = "normal";
  thread_id = none;
  reply_to = none;
  payload = none;
  ttl = none;
  must_read = false;
  kind = some "ask";
  about = none;
}

abbrev pub size : Message → ℕ
size msg = 300

live_here : live_agents relay ≡ "amy-7" ∷ "bob-12" ∷ []
unfolding live_agents sort_by is_id
live_here = refl

to_the_nick : resolve_recipients relay "bob" ≡ "bob-12" ∷ []
unfolding resolve_recipients live_agents live_sessions_of sort_by is_id durable_nick
to_the_nick = refl

dead_session : resolve_recipients relay "bob-3" ≡ "bob-12" ∷ []
unfolding resolve_recipients live_agents live_sessions_of sort_by is_id durable_nick get
dead_session = refl

resolve_recipients-IsSafe_example : All (λ aid. is_id aid ≡ true) (resolve_recipients relay "bob-3")
unfolding is_id
resolve_recipients-IsSafe_example = resolve_recipients-IsSafe relay "bob-3" refl

resolve_recipients-dead_example :
    (elem "bob-3" (resolve_recipients relay "bob-3") ≡ false)
    × All (IsReached relay (durable_nick "bob-3")) (resolve_recipients relay "bob-3")
unfolding live_agents sort_by is_id durable_nick get
resolve_recipients-dead_example =
    resolve_recipients-dead relay "bob-3" refl (ground (arith, eq_iff "bob" "bob-3")) refl

abbrev pub nothing_sent : Sent
nothing_sent = record {
  msg = record {
    id = "";
    from = "";
    to = "";
    timestamp = 0;
    priority = "";
    content = "";
    payload = none;
    thread_id = none;
    reply_to = none;
    ttl = none;
    must_read = false;
    state = pending;
    read_at = none;
    expired_at = none;
    kind = none;
    about = none;
    via = none;
    inherited_from = none;
  };
  queued_to = [];
  relay = relay;
}

abbrev pub returned : Result SendError Sent → Sent
returned (ok sent) = sent
returned (raise e) = nothing_sent

abbrev dm : Result SendError Sent
dm = send_message size config draws relay "amy-7" "bob" "ping" plain

dm_done : dm ≡ ok (returned dm)
unfolding send_message resolve_recipients live_agents live_sessions_of sort_by is_id durable_nick
dm_done = refl

dm_queued : elem "bob-12" (returned dm).queued_to ≡ true
unfolding send_message resolve_recipients live_agents live_sessions_of sort_by is_id durable_nick
dm_queued = refl

traversal : send_message size config draws relay "amy-7" "../etc" "ping" plain ≡ raise invalid_id
unfolding send_message is_id
traversal = refl

send_message-queued_to_example :
    (elem "bob-12" (returned dm).queued_to ≡ true)
      × ((name : String) × (file_at (returned dm).relay "bob-12" name
            ≡ some (message (copy_for (returned dm).msg "bob-12"))))
    ⊎ (elem "bob-12" (returned dm).queued_to ≡ false)
      × (get (returned dm).relay.inboxes "bob-12" ≡ get relay.inboxes "bob-12")
send_message-queued_to_example =
    send_message-queued_to size config draws relay "amy-7" "bob" "ping" plain dm_done "bob-12"

send_message-direct_example :
    (name : String) × (copy : Message) × (file_at (returned dm).relay "bob-12" name
      ≡ some (message copy))
    × (should_notify copy "direct" "bob-12" [] false ≡ true)
send_message-direct_example =
    send_message-direct size config draws relay "amy-7" "bob" "ping" plain dm_done "bob-12" [] false
      refl refl (ground (arith, eq_iff "bob-12" "")) dm_queued

abbrev post : Result SendError Sent
post = send_message size config draws relay "amy-7" "#eng" "ping" plain

post_done : post ≡ ok (returned post)
unfolding send_message channel_subscribers sort_by is_id
post_done = refl
