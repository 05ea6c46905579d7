-- ===== src/Supervisor/Wake/Start.antt =====
-- A message to an offline teammate starts it: `send_message` and `decide` together.
use mcp_dispatch.Base.{
  ℕ, ◌-◌, ◌≤◌, ◌<◌, String, Bool, true, false, ◌==◌, eq_refl, ◌≡◌, refl, ◌∙◌, Option, none, some,
  [], ◌∷◌, Bool-cases, Option-cases, arith, inl, inr,
}
use mcp_dispatch.Base.Dict.{get}
use mcp_dispatch.Base.Result.{ok}
use mcp_dispatch.Ident.{durable_nick}
use mcp_dispatch.Message.{Message, message, is_expired}
use mcp_dispatch.NotifyPolicy.{channel_of}
use mcp_dispatch.Relay.{Relay, Inbox, live_nicks}
use mcp_dispatch.Relay.Send.{
  Options, Config, Draws, Sent, new_message, addressed, copy_for, inbox_or_new, send_message,
}
use mcp_dispatch.Relay.Send.Delivery.{
  file_in, send_message-Accepted, live_agents-deliver, deliver-ours, deliver-writes,
}
use mcp_dispatch.Supervisor.Sources.{waiting_mail, is_live}
use mcp_dispatch.Supervisor.Decision.{
  AgentSpec, SupervisorConfig, NickState, is_awaiting, has_starts, last_start, recent_starts, start,
  decide,
}
use mcp_dispatch.Supervisor.Pass.Steps.{Ready-decide}
use mcp_dispatch.Supervisor.Wake.{count_pending-pos, own_mail, offline_nick}

file-Inbox :
    (o : Option Inbox) (name : String) {msg : Message}
    → file_in o name ≡ some (message msg)
    → (inbox : Inbox) × (o ≡ some inbox) × (get inbox.files name ≡ some (message msg))
file-Inbox none name h = cc
file-Inbox (some inbox) name h = (inbox, refl, h)

-- A copy has the state and the deadline of the message.
copy_for-state : (msg : Message) (t : String) → (copy_for msg t).state ≡ msg.state
unfolding copy_for
copy_for-state msg t = ground arith

copy_for-expired :
    (now : ℕ) (msg : Message) (t : String) → is_expired now (copy_for msg t) ≡ is_expired now msg
unfolding copy_for is_expired
copy_for-expired now msg t = elim (Bool-cases (msg.to == "all")) [
  | inl b ↦ rw b refl
  | inr n ↦ elim (Option-cases (channel_of msg.to)) [
    | inl c ↦ rw (n, c) refl
    | inr (channel, c) ↦ rw (n, c) refl
  ]
]

module _ (json_size : Message → ℕ) (config : Config) (draws : Draws) (relay : Relay)
    (from nick content : String) (options : Options) {sent : Sent}
    (done : send_message json_size config draws relay from nick content options ≡ ok sent)
    (not_all : (nick == "all") ≡ false) (not_channel : channel_of nick ≡ none)
    (is_nick : durable_nick nick ≡ nick) (offline : is_live relay nick ≡ false) where
  queued_here : sent.queued_to ≡ nick ∷ []
  unfolding addressed
  queued_here =
      let a = send_message-Accepted json_size config draws relay from nick content options done in
      ground (arith, a.addressed_eq, offline_nick relay nick is_nick offline)

  still_offline : is_live sent.relay nick ≡ false
  unfolding is_live live_nicks
  still_offline =
      let a = send_message-Accepted json_size config draws relay from nick content options done in
      rw (a.relay_eq, live_agents-deliver draws from (copy_for sent.msg) 0 sent.queued_to relay)
        offline

  module _ (time : ℕ) (ours : (inbox_or_new (get relay.inboxes nick)).ours ≡ true)
      (fresh : is_expired time sent.msg ≡ false) where
    mail_waits : (inherit : Bool) → 0 < waiting_mail time sent.relay nick inherit
    mail_waits inherit =
        let a = send_message-Accepted json_size config draws relay from nick content options done in
        let (name, at) =
          deliver-writes draws from (copy_for sent.msg) 0 sent.queued_to relay nick
            (rw (queued_here, eq_refl nick) refl) in
        let (inbox, there, file) = file-Inbox _ name at in
        let mine = deliver-ours draws from (copy_for sent.msg) 0 sent.queued_to relay nick ∙ ours in
        rw a.relay_eq (
          own_mail time _ nick there (rw there at mine)
            (count_pending-pos time inbox name file
              (copy_for-state sent.msg nick ∙ rw a.msg_eq (unfold new_message in refl))
              (copy_for-expired time sent.msg nick ∙ fresh))
            inherit)

    -- A DM to a nick with no live session leaves that nick's allowlist entry ready: with mail to
    -- count and nobody live, `decide` says "start" as soon as the gates of the nick's own state and
    -- of the daemon are open. It takes a nick with no pid suffix, whose inbox is this account's or
    -- not there yet, and a message that has not expired when the supervisor looks.
    pub offline_dm_starts :
        (spec : AgentSpec) (state : NickState) (now : ℕ) (cfg : SupervisorConfig) (concurrent : ℕ)
        (counted : Bool)
        → state.parked ≡ none
        → is_awaiting state ≡ false
        → (has_starts state.starts ≡ true → cfg.cooldown ≤ now - last_start state.starts)
        → recent_starts state now < cfg.max_starts_per_hour
        → concurrent < cfg.max_concurrent_starts
        → (decide spec state
            (waiting_mail time sent.relay nick cfg.inherit_inbox)
            (is_live sent.relay nick)
            now
            cfg
            concurrent
            counted).action
          ≡ start
    offline_dm_starts spec state now cfg concurrent counted unparked idle cooled rate room =
        Ready-decide spec state _ _ now cfg concurrent counted (record {
          unparked = unparked;
          dead = still_offline;
          idle = idle;
          waiting = mail_waits cfg.inherit_inbox;
          cooled = cooled;
          rate = rate;
          room = room;
        })
