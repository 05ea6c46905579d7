-- ===== src/Server/Inherit/Shown.antt =====
-- _inherit_orphan_inbox between supervisor.py's inherit_sources and _with_pending: what the
-- supervisor counts, the session that it starts is shown.
use mcp_dispatch.Base.{
  ℕ, String, Bool, true, false, ◌==◌, some, any, Bool-cases, inl, inr, ◌≡◌, refl, sym, subst, ap,
  ◌∙◌, arith, eq_iff,
}
use mcp_dispatch.Base.Dict.{get, has, Distinct}
use mcp_dispatch.Message.{Message, message, is_pending, is_expired}
use mcp_dispatch.Relay.{Relay, Inbox}
use mcp_dispatch.Relay.Send.Delivery.{file_in}
use mcp_dispatch.Supervisor.Sources.{held, is_source}
use mcp_dispatch.Server.Inbox.{Entry, with_pending}
use mcp_dispatch.Server.Inbox.Deliver.{with_pending-delivers}
use mcp_dispatch.Server.Inherit.{
  Settings, is_donor, moves_of, tagged, donors_of, inherit_orphan_inbox,
}
use mcp_dispatch.Server.Inherit.Adopt.{OneName}
use mcp_dispatch.Server.Inherit.Heir.{
  Inherits, adopt-mine, same_base-durable_nick, inherit_orphan_inbox-adopt, inherit-adopts,
}

is_donor-of_source :
    (settings : Settings) (relay : Relay) (me nick name : String) (inbox : Inbox)
    → name == me ≡ false
    → has relay.remote name ≡ false
    → held (get relay.presence nick) ≡ false
    → is_source relay nick (name, inbox) ≡ true
    → is_donor settings relay me nick (name, inbox) ≡ true
unfolding is_donor is_source
is_donor-of_source settings relay me nick name inbox n r h s = elim (Bool-cases (name == nick)) [
  | inl t ↦
      let same : nick ≡ name = ground (arith, t, eq_iff name nick) in
      let h' : held (get relay.presence name) ≡ false =
        subst (λ i. held (get relay.presence i) ≡ false) same h in
      ground (arith, t, h', n, r, s)
  | inr f ↦ ground (arith, f, n, r, s, same_base-durable_nick name nick f)
]

is_expired-tagged :
    (now : ℕ) (donor : String) (msg : Message)
    → is_expired now (tagged donor msg) ≡ is_expired now msg
unfolding is_expired
is_expired-tagged now donor msg = refl

-- A message that the supervisor counts for a nick, in a directory that is not in the .remote
-- roster, is attached to the first result of a tool that a new session of the nick calls after it
-- has adopted, if it has not expired by then: `q` stands for any question about the entry. The
-- session inherits and has an inbox, no session holds the nick itself as its id, and no two of the
-- files to move have one name.
pub inherit-shown :
    (settings : Settings) (relay : Relay) (me nick : String) (mine : Inbox) (donor name : String)
    (inbox : Inbox) (msg : Message) (now : ℕ) (q : Entry → Bool)
    → Inherits settings me nick
    → get relay.inboxes me ≡ some mine
    → Distinct mine.files
    → OneName (moves_of (donors_of settings relay me nick))
    → get relay.inboxes donor ≡ some inbox
    → is_source relay nick (donor, inbox) ≡ true
    → donor == me ≡ false
    → has relay.remote donor ≡ false
    → held (get relay.presence nick) ≡ false
    → get inbox.files name ≡ some (message msg)
    → is_pending msg.state ≡ true
    → is_expired now msg ≡ false
    → q (name, tagged donor msg) ≡ true
    → (after : Inbox) × (get (inherit_orphan_inbox settings relay me).relay.inboxes me ≡ some after)
      × (any q (with_pending now after.files).dispatches ≡ true)
inherit-shown settings relay me nick mine donor name inbox msg now q i m fresh o d s n r h f p e a =
    let test = is_donor-of_source settings relay me nick donor inbox n r h s in
    let landed =
      (inherit-adopts settings relay me nick mine donor name inbox msg i m o d test f p).0 in
    let (after, at_end, distinct) =
      adopt-mine me (moves_of (donors_of settings relay me nick))
        (record { relay = relay; moved = 0 }) mine m fresh in
    let there =
      ap (λ (l : Relay). get l.inboxes me)
        (inherit_orphan_inbox-adopt settings relay me nick i.0 i.1 i.2)
      ∙ at_end in
    let held_now : get after.files name ≡ some (message (tagged donor msg)) =
      ap (λ b. file_in b name) (sym there) ∙ landed in
    (
      after,
      there,
      (with_pending-delivers now after.files name (tagged donor msg) q distinct held_now p
          (is_expired-tagged now donor msg ∙ e) a).0,
    )
