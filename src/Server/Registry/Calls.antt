-- ===== src/Server/Registry/Calls.antt =====
-- server.py: what the servers of a host do with the registry, call by call.
use mcp_dispatch.Base.{ℕ, String, Bool, true, Option, List, [], ◌∷◌, ◌≡◌}
use mcp_dispatch.Base.Dict.{Dict, has}
use mcp_dispatch.Relay.{Relay, Inbox, Presence}
use mcp_dispatch.Server.Registry.{
  register_agent, touch_agent, release_id, reap_dead_presence, reap_empty_inboxes,
}

-- What the servers of this host do with the registry, and whatever else happens to inboxes and
-- presence files.
pub data Call : Type 0 where
  registers : String → ℕ → String → Call
  touches : String → ℕ → Option (List String) → Call
  releases : String → ℕ → Call
  reaps : Bool → Call
  others : Dict Inbox → Dict Presence → Call

unfoldable pub step : Call → Relay → Relay
step (registers agent_id now cwd) relay = register_agent relay agent_id now cwd
step (touches agent_id now given) relay = touch_agent relay agent_id now given
step (releases agent_id now) relay = release_id relay agent_id now
step (reaps roster) relay = (reap_empty_inboxes roster (reap_dead_presence relay).0).0
step (others inboxes presence) relay = record relay { inboxes = inboxes; presence = presence }

unfoldable pub run : List Call → Relay → Relay
run [] relay = relay
run (call ∷ calls) relay = run calls (step call relay)

-- The inbox of a session is there at each call.
unfoldable pub HasSpool : String → List Call → Relay → Type 0
HasSpool session [] relay = Unit
HasSpool session (call ∷ calls) relay =
    (has relay.inboxes session ≡ true) × HasSpool session calls (step call relay)
