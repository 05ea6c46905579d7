-- ===== src/Bridge/Outbound.antt =====
-- git_bridge.py, GitBridge._outbound over an unchanged relay: the ledger after a pass, and the
-- next pass.
use mcp_dispatch.Base.{
  ℕ, String, true, false, ◌==◌, some, All, select-All, All-In, is_some, ◌≡◌, refl, sym, subst,
  arith,
}
use mcp_dispatch.Base.Dict.{get, has}
use mcp_dispatch.Message.{Message, message, is_bridged, is_tombstone}
use mcp_dispatch.Relay.{Relay, Inbox, live_agents}
use mcp_dispatch.Bridge.Scan.{In-local_messages}
use mcp_dispatch.Bridge.Account.{Settled, send_all-Accounted, In-self}
use mcp_dispatch.Bridge.{
  Bridge, Sending, is_kept, save_ledger, local_messages, conclude, begin, sending, outbound,
}
use mcp_dispatch.Bridge.Covered.{Covered, send_all-Covered, send_all-covers, send_all-kept}

-- A pass over a relay whose messages are all in the ledger changes nothing.
pub outbound-Covered :
    (now : ℕ) (uuids : ℕ → String) (relay : Relay) (bridge : Bridge)
    → Covered bridge.ledger (local_messages relay)
    → outbound now uuids relay bridge ≡ bridge
unfolding outbound sending conclude
outbound-Covered now uuids relay bridge h =
    rw
      (send_all-Covered bridge.mirror_all (live_agents relay) now uuids (local_messages relay)
        (begin bridge) h)
      refl

-- What a pass leaves that did not raise, from a ledger with no entry past its time to live.
pub conclude-ledger :
    (now : ℕ) (bridge : Bridge) (st : Sending)
    → All (λ e. is_kept now e ≡ true) st.ledger
    → (conclude now bridge st).ledger ≡ st.ledger
unfolding conclude save_ledger
conclude-ledger now bridge st h = ground (arith, select-All (is_kept now) st.ledger h)

conclude-repo : (now : ℕ) (bridge : Bridge) (st : Sending) → (conclude now bridge st).repo ≡ st.repo
unfolding conclude save_ledger
conclude-repo now bridge st = ground arith

-- A pass of _outbound that raises nothing, from a ledger with no entry past its time to live, has
-- published or settled every message. The id of each one in a file of an inbox that did not come
-- over a bridge, is no tombstone and has an id, is in the ledger. An id that came into the ledger is
-- of a scanned message that has no route, or whose sender's lane holds an envelope with its body.
-- And a second pass over the same relay, at any later time, changes neither the clone nor the
-- ledger.
pub outbound-twice :
    (now later : ℕ) (uuids uuids' : ℕ → String) (relay : Relay) (bridge : Bridge)
    → All (λ e. is_kept now e ≡ true) bridge.ledger
    → is_some (sending now uuids relay bridge).raised ≡ false
    → ((owner name : String) (inbox : Inbox) (msg : Message)
        → get relay.inboxes owner ≡ some inbox
        → get inbox.files name ≡ some (message msg)
        → is_bridged msg.via ≡ false
        → is_tombstone msg.state ≡ false
        → msg.id == "" ≡ false
        → has (outbound now uuids relay bridge).ledger msg.id ≡ true)
      × ((id : String)
          → has (outbound now uuids relay bridge).ledger id ≡ true
          → has bridge.ledger id ≡ false
          → Settled bridge.mirror_all
              (live_agents relay)
              (local_messages relay)
              (outbound now uuids relay bridge).repo
              id)
      × (outbound later uuids' relay (outbound now uuids relay bridge)
          ≡ outbound now uuids relay bridge)
unfolding outbound sending
outbound-twice now later uuids uuids' relay bridge h quiet =
    let live = live_agents relay in
    let msgs = local_messages relay in
    let kept = send_all-kept bridge.mirror_all live now uuids msgs (begin bridge) h in
    let covers : Covered (outbound now uuids relay bridge).ledger msgs =
      subst (λ ledger. Covered ledger msgs)
        (sym (conclude-ledger now bridge (sending now uuids relay bridge) kept))
        (send_all-covers bridge.mirror_all live now uuids msgs (begin bridge) quiet) in
    let st = sending now uuids relay bridge in
    let account =
      send_all-Accounted bridge.mirror_all live now uuids bridge.ledger msgs msgs (begin bridge)
        (In-self msgs) (λ id there new. absurd (cc)) in
    (
      λ owner name inbox msg o f v t i.
          let here = In-local_messages relay owner name inbox msg o f (ground (arith, v, t)) in
          ground (arith, All-In _ msg msgs covers here, i),
      λ id there new.
          subst (λ repo. Settled bridge.mirror_all live msgs repo id)
            (sym (conclude-repo now bridge st))
            (account id
              (subst (λ ledger. has ledger id ≡ true) (conclude-ledger now bridge st kept) there)
              new),
      outbound-Covered later uuids' relay (outbound now uuids relay bridge) covers,
    )
