-- ===== src/NotifyPolicy/Rules.antt =====
-- What wakes an agent, and what a bridged message cannot do.
use mcp_dispatch.Base.{
  String, ◌≡◌, ◌≢◌, Bool, true, false, ◌==◌, eq_iff, some, List, elem, arith, if◌then◌else◌,
}
use mcp_dispatch.Message.{Message}
use mcp_dispatch.NotifyPolicy.{is_native_bridge, channel_of, should_notify}

-- Without the operator's trust the `must_read` of a native-bridge message changes nothing.
pub native_bridge_no_escalation :
    (msg : Message) (notify_on agent_id : String) (channels : List String)
    → msg.via ≡ some "native-bridge"
    → should_notify msg notify_on agent_id channels false
      ≡ should_notify (record msg { must_read = false }) notify_on agent_id channels false
unfolding should_notify
native_bridge_no_escalation msg notify_on agent_id channels h = ground arith

-- A `must_read` message that no native bridge brought wakes under every policy but "none".
must_read_pierces :
    (msg : Message) (notify_on agent_id : String) (channels : List String) (trusted : Bool)
    → msg.must_read ≡ true
    → is_native_bridge msg.via ≡ false
    → should_notify msg notify_on agent_id channels trusted
      ≡ (if notify_on == "none" then false else true)
unfolding should_notify
must_read_pierces msg notify_on agent_id channels trusted h v = ground arith

-- A message addressed to the agent's own id wakes it under "direct".
pub direct_wakes :
    (msg : Message) (agent_id : String) (channels : List String) (trusted : Bool)
    → agent_id ≢ ""
    → msg.to ≡ agent_id
    → should_notify msg "direct" agent_id channels trusted ≡ true
unfolding should_notify
direct_wakes msg agent_id channels trusted ne e =
    ground (arith, eq_iff agent_id "", eq_iff msg.to agent_id)

-- A post to a subscribed channel wakes the subscriber under "direct".
pub channel_wakes :
    (msg : Message) (agent_id channel : String) (channels : List String) (trusted : Bool)
    → channel_of msg.to ≡ some channel
    → elem channel channels ≡ true
    → should_notify msg "direct" agent_id channels trusted ≡ true
unfolding should_notify
channel_wakes msg agent_id channel channels trusted c e = ground arith
