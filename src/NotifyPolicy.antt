-- ===== src/NotifyPolicy.antt =====
-- notify_policy.py
pub mod Rules
use Prim.Native.Char.{code}
use Prim.Native.String as Text
use mcp_dispatch.Base.{
  String, Bool, true, false, not, ◌&&◌, ◌||◌, ◌==◌, Option, none, some, List, elem, eqb,
  if◌then◌else◌,
}
use mcp_dispatch.Message.{Message}

abbrev pub is_native_bridge : Option String → Bool
is_native_bridge none = false
is_native_bridge (some tag) = tag == "native-bridge"

-- to.startswith("#") and to[1:]
abbrev pub channel_of : String → Option String
channel_of Text.[] = none
channel_of (Text.◌∷◌ c s) = if eqb (code c) b'#' then some s else none

-- An absent agent id is the empty text: both are falsy.
unfoldable pub should_notify : Message → String → String → List String → Bool → Bool
should_notify msg notify_on agent_id channels native_bridge_trusted =
    if notify_on == "none"
    then false
    else if notify_on == "all"
    then true
    else let untrusted_bridge = is_native_bridge msg.via && not native_bridge_trusted in
      if msg.must_read && not untrusted_bridge
      then true
      else if notify_on == "direct"
      then if not (agent_id == "") && msg.to == agent_id
        then true
        else elim (channel_of msg.to) [ some channel ↦ elem channel channels | none ↦ false ]
      else msg.priority == "urgent"
