-- ===== src/Server/Inherit/Heir.antt =====
-- server.py, _inherit_orphan_inbox, with supervisor.py's inherit_sources: which directories
-- the new session adopts from.
use mcp_dispatch.Base.{
  suc, String, true, false, ◌==◌, none, some, List, [], ◌∷◌, select, In-select, All-map, All-In,
  select-passes, Bool-cases, if◌then◌else◌, inl, inr, ◌≡◌, refl, sym, subst, arith, eq_iff, eq_refl,
}
use mcp_dispatch.Base.Dict.{get, put, has, get-put, In-of_get, Distinct, Distinct-put}
use mcp_dispatch.Base.Sort.{sort_by, In-sort_by}
use mcp_dispatch.Ident.{before_pid, durable_nick}
use mcp_dispatch.Message.{Message, message, is_pending}
use mcp_dispatch.Relay.{Relay, Inbox}
use mcp_dispatch.Supervisor.Sources.{held, is_source}
use mcp_dispatch.Server.Inherit.{
  Settings, base_of, same_base, is_donor, Move, moves_of, tagged, Adopted, replace_file, adopt_one,
  adopt, donors_of, inherit_by, inherit_orphan_inbox,
}
use mcp_dispatch.Server.Inherit.Adopt.{
  OneName, Elsewhere, Orderly-of, Landed, adopt-Landed, moves_of-Elsewhere, In-moves_of,
}

-- What the call moves is what `moves_of` lists, in a session with a pid that inherits.
pub inherit_orphan_inbox-adopt :
    (settings : Settings) (relay : Relay) (me base : String)
    → settings.roster ≡ false
    → settings.inherit_inbox ≡ true
    → base_of me ≡ some base
    → (inherit_orphan_inbox settings relay me).relay
      ≡ (adopt me
          (moves_of (donors_of settings relay me base))
          (record { relay = relay; moved = 0 })).relay
unfolding inherit_orphan_inbox inherit_by
inherit_orphan_inbox-adopt settings relay me base r i b = rw (r, i, b) refl

-- An inbox of which no test of the loop holds is no donor of the call.
donors_of-Elsewhere :
    (settings : Settings) (relay : Relay) (me base j : String)
    → ((inbox : Inbox) → is_donor settings relay me base (j, inbox) ≡ false)
    → Elsewhere j (moves_of (donors_of settings relay me base))
unfolding donors_of
donors_of-Elsewhere settings relay me base j skips =
    let test = is_donor settings relay me base in
    let sorted = sort_by (λ (d : String × Inbox). d.0) relay.inboxes in
    moves_of-Elsewhere j (select test sorted) (
      All-map (λ (d : String × Inbox). test d ≡ true) (λ (d : String × Inbox). d.0 == j ≡ false)
        (select test sorted)
        (λ d t. elim (Bool-cases (d.0 == j)) [
          | inr f ↦ f
          | inl e ↦
              let same : d.0 ≡ j = ground (arith, e, eq_iff d.0 j) in
              let t' : test (j, d.1) ≡ true = subst (λ n. test (n, d.1) ≡ true) same t in
              let f : test (j, d.1) ≡ false = skips d.1 in absurd (cc)
        ])
        (select-passes test sorted))

pub not_own_donor :
    (settings : Settings) (relay : Relay) (me base : String) (inbox : Inbox)
    → is_donor settings relay me base (me, inbox) ≡ false
unfolding is_donor
not_own_donor settings relay me base inbox = rw (eq_refl me) refl

-- The heir's directory at the end holds no name twice.
pub adopt-mine :
    (me : String) (moves : List Move) (st : Adopted) (mine : Inbox)
    → get st.relay.inboxes me ≡ some mine
    → Distinct mine.files
    → (after : Inbox) × (get (adopt me moves st).relay.inboxes me ≡ some after)
      × Distinct after.files
unfolding adopt adopt_one replace_file
adopt-mine me [] st mine e d = (mine, e, d)
adopt-mine me (move ∷ moves) st mine e d =
    let landed : Inbox = record mine {
      files = put mine.files move.name (message (tagged move.donor move.msg));
    } in
    let next : Adopted = record {
      relay = replace_file st.relay me mine move;
      moved = suc st.moved;
    } in
    let has_inbox : get next.relay.inboxes me ≡ some landed = rw (get-put, eq_refl me) refl in
    subst
      (λ i.
        (after : Inbox) × (get (adopt me moves (adopt_one me move i st)).relay.inboxes me
          ≡ some after)
        × Distinct after.files)
      (sym e)
      (adopt-mine me moves next landed has_inbox
        (Distinct-put mine.files move.name (message (tagged move.donor move.msg)) d))

-- A session that inherits: its settings, and its id with a pid behind the base.
abbrev pub Inherits : Settings → String → String → Type 0
Inherits settings me base =
    (settings.roster ≡ false) × (settings.inherit_inbox ≡ true) × (base_of me ≡ some base)

-- Each pending message of a directory that the loop does not skip is afterwards in the inbox of the
-- new session, tagged with the directory that it came from, and no more in that directory, where
-- no two of the files to move have one name and the session has an inbox.
pub inherit-adopts :
    (settings : Settings) (relay : Relay) (me base : String) (mine : Inbox) (donor name : String)
    (inbox : Inbox) (msg : Message)
    → Inherits settings me base
    → get relay.inboxes me ≡ some mine
    → OneName (moves_of (donors_of settings relay me base))
    → get relay.inboxes donor ≡ some inbox
    → is_donor settings relay me base (donor, inbox) ≡ true
    → get inbox.files name ≡ some (message msg)
    → is_pending msg.state ≡ true
    → Landed me
        (inherit_orphan_inbox settings relay me).relay
        (record { donor = donor; name = name; msg = msg })
unfolding donors_of
inherit-adopts settings relay me base mine donor name inbox msg (r, i, b) m o d is f p =
    let donors = donors_of settings relay me base in
    let moves = moves_of donors in
    let listed =
      In-select (is_donor settings relay me base) (donor, inbox) _ is
        (In-sort_by (λ (d : String × Inbox). d.0) (donor, inbox) relay.inboxes
          (In-of_get relay.inboxes donor inbox d)) in
    let elsewhere =
      donors_of-Elsewhere settings relay me base me (not_own_donor settings relay me base) in
    subst (λ after. Landed me after (record { donor = donor; name = name; msg = msg }))
      (sym (inherit_orphan_inbox-adopt settings relay me base r i b))
      (All-In _ (record { donor = donor; name = name; msg = msg }) moves
        (adopt-Landed me moves (record { relay = relay; moved = 0 }) mine m
          (Orderly-of me moves elsewhere o))
        (In-moves_of donor name msg inbox donors p (In-of_get inbox.files name (message msg) f)
          listed))

pub same_base-durable_nick :
    (name nick : String)
    → name == nick ≡ false
    → same_base (base_of name) nick ≡ (durable_nick name == nick)
unfolding base_of durable_nick
same_base-durable_nick name nick n =
    elim (before_pid name)
      as (λ o.
        same_base (elim o [ none ↦ none | some b ↦ if b == "" then none else some b ]) nick
        ≡ (elim o [ none ↦ name | some b ↦ if b == "" then name else b ]) == nick) [
          | none ↦ sym n
          | some b ↦ ground (arith, n)
        ]

-- The supervisor's test and the server's agree on the inboxes of other names that are not in the
-- .remote roster, outside group mode, unless the nick itself is held as a session.
is_donor-is_source :
    (settings : Settings) (relay : Relay) (me nick name : String) (inbox : Inbox)
    → settings.group_mode ≡ false
    → name == me ≡ false
    → has relay.remote name ≡ false
    → held (get relay.presence nick) ≡ false
    → is_donor settings relay me nick (name, inbox) ≡ is_source relay nick (name, inbox)
unfolding is_donor is_source
is_donor-is_source settings relay me nick name inbox g n r h = elim (Bool-cases (name == nick)) [
  | inl t ↦
      let same : nick ≡ name = ground (arith, t, eq_iff name nick) in
      let h' : held (get relay.presence name) ≡ false =
        subst (λ i. held (get relay.presence i) ≡ false) same h in
      ground (arith, t, h', n, r, g)
  | inr f ↦ ground (arith, f, n, r, g, same_base-durable_nick name nick f)
]
