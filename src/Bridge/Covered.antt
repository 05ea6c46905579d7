-- ===== src/Bridge/Covered.antt =====
-- git_bridge.py, the loop of GitBridge._outbound: the messages that it has dealt with are in the
-- ledger.
use mcp_dispatch.Base.{
  ℕ, String, Bool, true, false, ◌==◌, ◌||◌, Option, none, some, List, [], ◌∷◌, All, if◌then◌else◌,
  is_some, Bool-cases, inl, inr, ◌≡◌, refl, ap, arith, eq_iff,
}
use mcp_dispatch.Base.Dict.{Dict, put, has, get-put, All-put}
use mcp_dispatch.Base.Result.{Result, ok, raise}
use mcp_dispatch.Message.{Message}
use mcp_dispatch.Transport.{Repo}
use mcp_dispatch.Transport.Publish.{PublishError}
use mcp_dispatch.Bridge.{Sending, is_kept, route, publish_one, sent, is_done, consider, send_all}

-- A message that no round of the loop looks at.
abbrev pub covered : Dict ℕ → Message → Bool
covered ledger msg = msg.id == "" || has ledger msg.id

abbrev pub Covered : Dict ℕ → List Message → Type 0
Covered ledger = All (λ msg. covered ledger msg ≡ true)

pub covered-put :
    (ledger : Dict ℕ) (id : String) (now : ℕ) (msg : Message)
    → covered ledger msg ≡ true
    → covered (put ledger id now) msg ≡ true
covered-put ledger id now msg h = ground (arith, get-put ledger id msg.id now)

pub covered-put_own :
    (ledger : Dict ℕ) (now : ℕ) (msg : Message) → covered (put ledger msg.id now) msg ≡ true
covered-put_own ledger now msg =
    ground (arith, get-put ledger msg.id msg.id now, eq_iff msg.id msg.id)

sent-covered :
    (now : ℕ) (msg : Message) (st : Sending) (r : Result PublishError (Option Repo)) (m : Message)
    → covered st.ledger m ≡ true
    → covered (sent now msg st r).ledger m ≡ true
unfolding sent
sent-covered now msg st (raise e) m h = h
sent-covered now msg st (ok none) m h = covered-put st.ledger msg.id now m h
sent-covered now msg st (ok (some repo)) m h = covered-put st.ledger msg.id now m h

sent-covered_own :
    (now : ℕ) (msg : Message) (st : Sending) (r : Result PublishError (Option Repo))
    → is_some (sent now msg st r).raised ≡ false
    → covered (sent now msg st r).ledger msg ≡ true
unfolding sent
sent-covered_own now msg st (raise e) h = absurd (cc)
sent-covered_own now msg st (ok none) h = covered-put_own st.ledger now msg
sent-covered_own now msg st (ok (some repo)) h = covered-put_own st.ledger now msg

pub is_kept_now : (now : ℕ) (id : String) → is_kept now (id, now) ≡ true
is_kept_now now id = ground arith

sent-kept :
    (now : ℕ) (msg : Message) (st : Sending) (r : Result PublishError (Option Repo))
    → All (λ e. is_kept now e ≡ true) st.ledger
    → All (λ e. is_kept now e ≡ true) (sent now msg st r).ledger
unfolding sent
sent-kept now msg st (raise e) h = h
sent-kept now msg st (ok none) h = All-put _ st.ledger msg.id now h (is_kept_now now msg.id)
sent-kept now msg st (ok (some repo)) h = All-put _ st.ledger msg.id now h (is_kept_now now msg.id)

own_step :
    (now : ℕ) (msg : Message) (st : Sending) (r : Result PublishError (Option Repo)) (b : Bool)
    → is_done st msg ≡ b
    → is_some (if b then st else sent now msg st r).raised ≡ false
    → covered (if b then st else sent now msg st r).ledger msg ≡ true
own_step now msg st r true e h = ground (arith, e, h)
own_step now msg st r false e h = sent-covered_own now msg st r h

module _ (mirror_all : Bool) (live_local : List String) (now : ℕ) (uuids : ℕ → String) where
  consider-done :
      (msg : Message) (st : Sending)
      → is_done st msg ≡ true
      → consider mirror_all live_local now uuids msg st ≡ st
  unfolding consider
  consider-done msg st h = rw h refl

  -- Nothing happens after a raise, ...
  pub send_all-raised :
      (msgs : List Message) (st : Sending)
      → is_some st.raised ≡ true
      → send_all mirror_all live_local now uuids msgs st ≡ st
  unfolding send_all
  send_all-raised [] st h = refl
  send_all-raised (msg ∷ msgs) st h =
      rw (consider-done msg st (ground (arith, h))) (send_all-raised msgs st h)

  -- ... nor to a message that is in the ledger.
  pub send_all-Covered :
      (msgs : List Message) (st : Sending)
      → Covered st.ledger msgs
      → send_all mirror_all live_local now uuids msgs st ≡ st
  unfolding send_all
  send_all-Covered [] st h = refl
  send_all-Covered (msg ∷ msgs) st h =
      rw (consider-done msg st (ground (arith, h.0))) (send_all-Covered msgs st h.1)

  consider-covered :
      (msg : Message) (st : Sending) (m : Message)
      → covered st.ledger m ≡ true
      → covered (consider mirror_all live_local now uuids msg st).ledger m ≡ true
  unfolding consider
  consider-covered msg st m h =
      elim (is_done st msg)
        as (λ b.
          covered
            (if b
              then st
              else sent now msg st (
                  publish_one now (uuids st.published) st.repo msg
                    (route mirror_all live_local msg))).ledger
            m
          ≡ true) [ true ↦ h | false ↦ sent-covered now msg st _ m h ]

  send_all-keeps :
      (msgs : List Message) (st : Sending) (m : Message)
      → covered st.ledger m ≡ true
      → covered (send_all mirror_all live_local now uuids msgs st).ledger m ≡ true
  unfolding send_all
  send_all-keeps [] st m h = h
  send_all-keeps (msg ∷ msgs) st m h =
      send_all-keeps msgs (consider mirror_all live_local now uuids msg st) m
        (consider-covered msg st m h)

  consider-own :
      (msg : Message) (st : Sending)
      → is_some (consider mirror_all live_local now uuids msg st).raised ≡ false
      → covered (consider mirror_all live_local now uuids msg st).ledger msg ≡ true
  unfolding consider
  consider-own msg st =
      own_step now msg st
        (publish_one now (uuids st.published) st.repo msg (route mirror_all live_local msg))
        (is_done st msg) refl

  -- A loop that does not raise leaves every message in the ledger.
  pub send_all-covers :
      (msgs : List Message) (st : Sending)
      → is_some (send_all mirror_all live_local now uuids msgs st).raised ≡ false
      → Covered (send_all mirror_all live_local now uuids msgs st).ledger msgs
  unfolding send_all
  send_all-covers [] st h = tt
  send_all-covers (msg ∷ msgs) st h =
      let next = consider mirror_all live_local now uuids msg st in
      let quiet : is_some next.raised ≡ false = elim (Bool-cases (is_some next.raised)) [
        | inl t ↦ let same = ap (λ s. is_some s.raised) (send_all-raised msgs next t) in absurd (cc)
        | inr f ↦ f
      ] in
      (send_all-keeps msgs next msg (consider-own msg st quiet), send_all-covers msgs next h)

  consider-kept :
      (msg : Message) (st : Sending)
      → All (λ e. is_kept now e ≡ true) st.ledger
      → All (λ e. is_kept now e ≡ true) (consider mirror_all live_local now uuids msg st).ledger
  unfolding consider
  consider-kept msg st h =
      elim (is_done st msg)
        as (λ b.
          All (λ e. is_kept now e ≡ true)
            (if b
              then st
              else sent now msg st (
                  publish_one now (uuids st.published) st.repo msg
                    (route mirror_all live_local msg))).ledger) [
                      | true ↦ h
                      | false ↦ sent-kept now msg st _ h
                    ]

  pub send_all-kept :
      (msgs : List Message) (st : Sending)
      → All (λ e. is_kept now e ≡ true) st.ledger
      → All (λ e. is_kept now e ≡ true) (send_all mirror_all live_local now uuids msgs st).ledger
  unfolding send_all
  send_all-kept [] st h = h
  send_all-kept (msg ∷ msgs) st h =
      send_all-kept msgs (consider mirror_all live_local now uuids msg st) (consider-kept msg st h)
