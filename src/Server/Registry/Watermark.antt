-- ===== src/Server/Registry/Watermark.antt =====
-- server.py and digest.py: the start of a digest's window, from one session of a nick to the next.
use mcp_dispatch.Base.{
  ℕ, String, true, false, some, eqb, Bool-cases, if◌then◌else◌, inl, inr, ◌≡◌, refl, ap, ◌∙◌,
  eq_refl,
}
use mcp_dispatch.Base.Dict.{get, get-put}
use mcp_dispatch.Ident.{is_id, durable_nick}
use mcp_dispatch.Relay.{Relay, Agent}
use mcp_dispatch.Digest.{watermark}
use mcp_dispatch.Server.Registry.{
  was_away, updated, register_agent, touch_record, touch_agent, release_id,
}

register-watermark :
    (relay : Relay) (nick agent_id : String) (now : ℕ) (cwd : String) (rec : Agent)
    → durable_nick agent_id ≡ nick
    → is_id nick ≡ true
    → get relay.agents nick ≡ some (some rec)
    → eqb rec.last_seen 0 ≡ false
    → eqb rec.first_seen 0 ≡ false
    → watermark (register_agent relay agent_id now cwd) nick
      ≡ (if was_away relay nick agent_id then (rec.last_seen, true) else watermark relay nick)
unfolding watermark register_agent updated
register-watermark relay nick agent_id now cwd rec n safe found seen first =
    rw (n, safe, found, get-put, eq_refl nick)
      (elim (Bool-cases (was_away relay nick agent_id)) [
        | inl t ↦ rw (t, seen, seen) refl
        | inr f ↦ rw (f, first) refl
      ])

-- The record after a session of the nick has left.
release-agents :
    (relay : Relay) (nick agent_id : String) (now : ℕ) (rec : Agent)
    → durable_nick agent_id ≡ nick
    → is_id nick ≡ true
    → get relay.agents nick ≡ some (some rec)
    → get (release_id relay agent_id now).agents nick ≡ some (some (record rec { last_seen = now }))
unfolding release_id touch_agent touch_record
release-agents relay nick agent_id now rec n safe found =
    rw (n, safe, found, get-put, eq_refl nick) refl

-- The window of a digest begins at the last time that a session of the nick left by itself, and is
-- called exact: a session leaves at `left`, nothing changes the registry, and another of the nick
-- registers while no third one is live. That is so also where a third session was live at `left`
-- and was killed since. Both have the nick, which is a valid id and has a record that loads, with
-- a first_seen; the time `left` is not 0.
pub release-register-watermark :
    (relay later : Relay) (nick gone next : String) (left now : ℕ) (cwd : String) (rec : Agent)
    → durable_nick gone ≡ nick
    → durable_nick next ≡ nick
    → is_id nick ≡ true
    → get relay.agents nick ≡ some (some rec)
    → eqb rec.first_seen 0 ≡ false
    → eqb left 0 ≡ false
    → later.agents ≡ (release_id relay gone left).agents
    → was_away later nick next ≡ true
    → watermark (register_agent later next now cwd) nick ≡ (left, true)
release-register-watermark relay later nick gone next left now cwd rec g n safe found first l same
      away =
    let stamped : get later.agents nick ≡ some (some (record rec { last_seen = left })) =
      ap (λ agents. get agents nick) same ∙ release-agents relay nick gone left rec g safe found in
    register-watermark later nick next now cwd (record rec { last_seen = left }) n safe stamped l
      first
    ∙ rw away refl

-- While another session of the nick is live the window stays where it was.
register-sibling :
    (relay : Relay) (nick agent_id : String) (now : ℕ) (cwd : String) (rec : Agent)
    → durable_nick agent_id ≡ nick
    → is_id nick ≡ true
    → get relay.agents nick ≡ some (some rec)
    → eqb rec.last_seen 0 ≡ false
    → eqb rec.first_seen 0 ≡ false
    → was_away relay nick agent_id ≡ false
    → watermark (register_agent relay agent_id now cwd) nick ≡ watermark relay nick
register-sibling relay nick agent_id now cwd rec n safe found seen first live =
    register-watermark relay nick agent_id now cwd rec n safe found seen first ∙ rw live refl
