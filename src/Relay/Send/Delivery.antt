-- ===== src/Relay/Send/Delivery.antt =====
-- What a sent message leaves in the inboxes.
use mcp_dispatch.Base.{
  ℕ, ◌+◌, String, true, false, ◌==◌, eq_iff, eq_refl, ◌≡◌, refl, ◌∙◌, Option, none, some, List, [],
  ◌∷◌, elem, if◌then◌else◌, Bool-cases, arith, inl, inr,
}
use mcp_dispatch.Base.Dict.{get, put, get-put}
use mcp_dispatch.Base.Result.{ok}
use mcp_dispatch.Message.{Message, File, message}
use mcp_dispatch.Relay.{Relay, Inbox, live_agents}
use mcp_dispatch.Relay.Send.{
  Options, Config, Draws, Sent, new_message, inbox_or_new, message_filename, write_message, deliver,
  addressed, copy_for, send_message, triage_fields,
}

abbrev pub file_in : Option Inbox → String → Option File
file_in none name = none
file_in (some inbox) name = get inbox.files name

-- The file `name` of the inbox of `target`.
abbrev pub file_at : Relay → String → String → Option File
file_at relay target name = file_in (get relay.inboxes target) name

pub file_in-new :
    (o : Option Inbox) (name : String) → get (inbox_or_new o).files name ≡ file_in o name
file_in-new none name = unfold get in refl
file_in-new (some inbox) name = refl

file_at-write_message :
    (relay : Relay) (t n : String) (m : Message) (j k : String)
    → file_at (write_message relay t n m) j k ≡ (
        if t == j
        then (if n == k then some (message m) else file_at relay j k)
        else file_at relay j k)
unfolding write_message
file_at-write_message relay t n m j k = rw get-put (
    ground (
      arith,
      eq_iff t j,
      get-put (inbox_or_new (get relay.inboxes t)).files n k (message m),
      file_in-new (get relay.inboxes t) k,
    ))

module _ (draws : Draws) (from : String) (copy : String → Message) where
  deliver-keeps :
      (i : ℕ) (targets : List String) (relay : Relay) (t name : String)
      → file_at relay t name ≡ some (message (copy t))
      → file_at (deliver draws from copy i targets relay) t name ≡ some (message (copy t))
  unfolding deliver
  deliver-keeps i [] relay t name h = h
  deliver-keeps i (x ∷ targets) relay t name h = deliver-keeps (i + 1) targets _ t name (
      rw (file_at-write_message relay x (message_filename (draws.stamp i) from) (copy x) t name)
        (ground (arith, eq_iff x t)))

  -- Every target's inbox has a copy at the end, under some name.
  pub deliver-writes :
      (i : ℕ) (targets : List String) (relay : Relay) (t : String)
      → elem t targets ≡ true
      → (name : String) × (file_at (deliver draws from copy i targets relay) t name
          ≡ some (message (copy t)))
  unfolding deliver
  deliver-writes i [] relay t h = cc
  deliver-writes i (x ∷ targets) relay t h =
      let name = message_filename (draws.stamp i) from in
      let written = file_at-write_message relay x name (copy x) t name in
      elim (Bool-cases (x == t)) [
        | inl e ↦ (
          name,
          deliver-keeps (i + 1) targets _ t name
              (rw written (ground (arith, e, eq_iff x t, eq_refl name))),
        )
        | inr n ↦ deliver-writes (i + 1) targets _ t (ground arith)
      ]

  -- An inbox that is no target is as it was.
  pub deliver-frame :
      (i : ℕ) (targets : List String) (relay : Relay) (t : String)
      → elem t targets ≡ false
      → get (deliver draws from copy i targets relay).inboxes t ≡ get relay.inboxes t
  unfolding deliver write_message
  deliver-frame i [] relay t h = refl
  deliver-frame i (x ∷ targets) relay t h =
      deliver-frame (i + 1) targets _ t (ground arith) ∙ rw get-put (ground arith)

  deliver-presence :
      (i : ℕ) (targets : List String) (relay : Relay)
      → (deliver draws from copy i targets relay).presence ≡ relay.presence
  unfolding deliver write_message
  deliver-presence i [] relay = refl
  deliver-presence i (x ∷ targets) relay = deliver-presence (i + 1) targets _

  -- Writing mail changes nobody's presence.
  pub live_agents-deliver :
      (i : ℕ) (targets : List String) (relay : Relay)
      → live_agents (deliver draws from copy i targets relay) ≡ live_agents relay
  unfolding live_agents
  live_agents-deliver i targets relay = rw (deliver-presence i targets relay) refl

  -- A delivery leaves the account of an inbox as it is, or makes a new one of this account.
  pub deliver-ours :
      (i : ℕ) (targets : List String) (relay : Relay) (t : String)
      → (inbox_or_new (get (deliver draws from copy i targets relay).inboxes t)).ours
        ≡ (inbox_or_new (get relay.inboxes t)).ours
  unfolding deliver write_message
  deliver-ours i [] relay t = refl
  deliver-ours i (x ∷ targets) relay t =
      let name = message_filename (draws.stamp i) from in
      let old = inbox_or_new (get relay.inboxes x) in
      let new = record old { files = put old.files name (message (copy x)) } in
      deliver-ours (i + 1) targets _ t ∙ ground (arith, get-put relay.inboxes x t new, eq_iff x t)

-- What a call that returns has done.
pub record Accepted (config : Config) (draws : Draws) (relay : Relay) (from to content : String)
    (options : Options) (sent : Sent) : Type 0 where
  pub msg_eq : sent.msg ≡ new_message config draws from to content options
  pub addressed_eq : addressed config relay from to ≡ ok sent.queued_to
  pub relay_eq : sent.relay ≡ deliver draws from (copy_for sent.msg) 0 sent.queued_to relay

module _ (json_size : Message → ℕ) (config : Config) (draws : Draws) (relay : Relay)
    (from to content : String) (options : Options) {sent : Sent}
    (done : send_message json_size config draws relay from to content options ≡ ok sent) where
  pub send_message-Accepted : Accepted config draws relay from to content options sent
  unfolding send_message triage_fields
  send_message-Accepted = record {
    msg_eq = ground arith;
    addressed_eq = ground arith;
    relay_eq = ground arith;
  }
