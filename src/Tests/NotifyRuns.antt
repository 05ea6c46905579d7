-- ===== src/Tests/NotifyRuns.antt =====
-- The notify policy.
use mcp_dispatch.Base.{true, false, ◌≡◌, refl, none, some, [], ◌∷◌}
use mcp_dispatch.Message.{Message, pending}
use mcp_dispatch.NotifyPolicy.{should_notify}
use mcp_dispatch.NotifyPolicy.Rules.{native_bridge_no_escalation, channel_wakes}

abbrev loud : Message
loud = record {
  id = "msg-1";
  from = "native-bridge";
  to = "#eng";
  timestamp = 1700;
  priority = "normal";
  content = "hi";
  payload = none;
  thread_id = none;
  reply_to = none;
  ttl = none;
  must_read = true;
  state = pending;
  read_at = none;
  expired_at = none;
  kind = none;
  about = none;
  via = some "native-bridge";
  inherited_from = none;
}

bridged_stays_quiet : should_notify loud "important" "bob" [] false ≡ false
unfolding should_notify
bridged_stays_quiet = refl

native_bridge_no_escalation_example :
    should_notify loud "direct" "bob" [] false
    ≡ should_notify (record loud { must_read = false }) "direct" "bob" [] false
native_bridge_no_escalation_example = native_bridge_no_escalation loud "direct" "bob" [] refl

channel_wakes_example :
    should_notify (record loud { must_read = false }) "direct" "bob" ("eng" ∷ []) false ≡ true
channel_wakes_example =
    channel_wakes (record loud { must_read = false }) "bob" "eng" ("eng" ∷ []) false refl refl
