-- ===== src/Relay/Send/Contract.antt =====
-- What a caller of `send_message` can rely on.
use mcp_dispatch.Base.{
  ℕ, String, Bool, true, false, ◌==◌, ◌≡◌, ◌≢◌, ◌⊎◌, refl, none, some, List, [], ◌∷◌, elem,
  Bool-cases, Option-cases, arith, inl, inr,
}
use mcp_dispatch.Base.Dict.{get}
use mcp_dispatch.Base.Result.{ok}
use mcp_dispatch.Message.{Message, message}
use mcp_dispatch.NotifyPolicy.{channel_of, should_notify}
use mcp_dispatch.NotifyPolicy.Rules.{direct_wakes}
use mcp_dispatch.Relay.{Relay, live_agents, or_else, channel_subscribers}
use mcp_dispatch.Relay.Send.{
  Options, Config, Draws, Sent, new_message, others, addressed, copy_for, send_message,
}
use mcp_dispatch.Relay.Send.Delivery.{file_at, deliver-writes, deliver-frame, send_message-Accepted}

elem-others : (from : String) (xs : List String) → elem from (others from xs) ≡ false
elem-others from [] = refl
elem-others from (x ∷ xs) = ground (arith, elem-others from xs)

addressed-no_echo :
    (config : Config) (relay : Relay) (from to : String) (queued : List String)
    → ((to == "all") ≡ true) ⊎ (channel_of to ≢ none)
    → addressed config relay from to ≡ ok queued
    → elem from queued ≡ false
unfolding addressed
addressed-no_echo config relay from to queued many h = elim (Bool-cases (to == "all")) [
  | inl b ↦ ground (arith, b, h, elem-others from (or_else config.agent_ids (live_agents relay)))
  | inr n ↦ elim (Option-cases (channel_of to)) [
    | inl c ↦ ground (arith, many)
    | inr (channel, c) ↦ ground (arith, elem-others from (channel_subscribers relay channel))
  ]
]

module _ (json_size : Message → ℕ) (config : Config) (draws : Draws) (relay : Relay)
    (from to content : String) (options : Options) {sent : Sent}
    (done : send_message json_size config draws relay from to content options ≡ ok sent) where
  queued :
      (t : String)
      → elem t sent.queued_to ≡ true
      → (name : String) × (file_at sent.relay t name ≡ some (message (copy_for sent.msg t)))
  queued t h =
      let a = send_message-Accepted json_size config draws relay from to content options done in
      rw a.relay_eq (deliver-writes draws from (copy_for sent.msg) 0 sent.queued_to relay t h)

  untouched :
      (t : String) → elem t sent.queued_to ≡ false → get sent.relay.inboxes t ≡ get relay.inboxes t
  untouched t h =
      let a = send_message-Accepted json_size config draws relay from to content options done in
      rw a.relay_eq (deliver-frame draws from (copy_for sent.msg) 0 sent.queued_to relay t h)

  -- `queued_to` is exactly the set of inboxes written: an inbox in it holds its copy of the
  -- message in some file, and any other inbox is as it was before the call.
  pub send_message-queued_to :
      (t : String)
      → (elem t sent.queued_to ≡ true)
          × ((name : String) × (file_at sent.relay t name ≡ some (message (copy_for sent.msg t))))
        ⊎ (elem t sent.queued_to ≡ false) × (get sent.relay.inboxes t ≡ get relay.inboxes t)
  send_message-queued_to t = elim (Bool-cases (elem t sent.queued_to)) [
    | inl h ↦ inl (h, queued t h)
    | inr h ↦ inr (h, untouched t h)
  ]

  copy_for-to :
      (t : String) → (to == "all") ≡ false → channel_of to ≡ none → (copy_for sent.msg t).to ≡ t
  unfolding copy_for new_message
  copy_for-to t n c =
      let a = send_message-Accepted json_size config draws relay from to content options done in
      rw (a.msg_eq, n, c) refl

  -- The copy of a DM in each inbox that it was queued to wakes the session with that id under the
  -- "direct" policy, whatever id or nick the sender typed.
  pub send_message-direct :
      (t : String) (channels : List String) (trusted : Bool)
      → (to == "all") ≡ false
      → channel_of to ≡ none
      → t ≢ ""
      → elem t sent.queued_to ≡ true
      → (name : String) × (copy : Message) × (file_at sent.relay t name ≡ some (message copy))
        × (should_notify copy "direct" t channels trusted ≡ true)
  send_message-direct t channels trusted n c ne q =
      let (name, at) = queued t q in
      (
        name,
        copy_for sent.msg t,
        at,
        direct_wakes (copy_for sent.msg t) t channels trusted ne (copy_for-to t n c),
      )

  -- A broadcast or a channel post is never queued to its own sender.
  send_message-no_echo :
      ((to == "all") ≡ true) ⊎ (channel_of to ≢ none) → elem from sent.queued_to ≡ false
  send_message-no_echo many =
      let a = send_message-Accepted json_size config draws relay from to content options done in
      addressed-no_echo config relay from to sent.queued_to many a.addressed_eq
