-- ===== src/Bridge/Backlog.antt =====
-- git_bridge.py, the first run of a GitBridge: _seed_ledger_from_backlog, and the pass after it.
use mcp_dispatch.Base.{
  ℕ, String, Bool, true, false, ◌==◌, ◌||◌, none, List, [], ◌∷◌, All, select-All, if◌then◌else◌,
  ◌≡◌, refl, sym, subst,
}
use mcp_dispatch.Base.Dict.{Dict, put, has, All-put}
use mcp_dispatch.Message.{Message}
use mcp_dispatch.Relay.{Relay}
use mcp_dispatch.Transport.{Repo}
use mcp_dispatch.Bridge.{is_kept, seed, save_ledger, new_bridge, local_messages, outbound}
use mcp_dispatch.Bridge.Covered.{covered, Covered, covered-put, covered-put_own, is_kept_now}
use mcp_dispatch.Bridge.Outbound.{outbound-Covered}

-- What the loop of the seeding does with one message.
abbrev noted : ℕ → Message → Dict ℕ → Dict ℕ
noted now msg ledger = if msg.id == "" || has ledger msg.id then ledger else put ledger msg.id now

noted-covered :
    (now : ℕ) (msg : Message) (ledger : Dict ℕ) (m : Message)
    → covered ledger m ≡ true
    → covered (noted now msg ledger) m ≡ true
noted-covered now msg ledger m h =
    elim (msg.id == "" || has ledger msg.id)
      as (λ b. covered (if b then ledger else put ledger msg.id now) m ≡ true) [
        | true ↦ h
        | false ↦ covered-put ledger msg.id now m h
      ]

noted_step :
    (now : ℕ) (msg : Message) (ledger : Dict ℕ) (b : Bool)
    → covered ledger msg ≡ b
    → covered (if b then ledger else put ledger msg.id now) msg ≡ true
noted_step now msg ledger true h = h
noted_step now msg ledger false h = covered-put_own ledger now msg

seed-covered :
    (now : ℕ) (msgs : List Message) (ledger : Dict ℕ) (m : Message)
    → covered ledger m ≡ true
    → covered (seed now msgs ledger) m ≡ true
unfolding seed
seed-covered now [] ledger m h = h
seed-covered now (msg ∷ msgs) ledger m h =
    seed-covered now msgs (noted now msg ledger) m (noted-covered now msg ledger m h)

seed-Covered :
    (now : ℕ) (msgs : List Message) (ledger : Dict ℕ) → Covered (seed now msgs ledger) msgs
unfolding seed
seed-Covered now [] ledger = tt
seed-Covered now (msg ∷ msgs) ledger = (
  seed-covered now msgs (noted now msg ledger) msg
      (noted_step now msg ledger (covered ledger msg) refl),
  seed-Covered now msgs (noted now msg ledger),
)

seed-kept :
    (now : ℕ) (msgs : List Message) (ledger : Dict ℕ)
    → All (λ e. is_kept now e ≡ true) ledger
    → All (λ e. is_kept now e ≡ true) (seed now msgs ledger)
unfolding seed
seed-kept now [] ledger h = h
seed-kept now (msg ∷ msgs) ledger h =
    seed-kept now msgs (noted now msg ledger)
      (elim (msg.id == "" || has ledger msg.id)
        as (λ b. All (λ e. is_kept now e ≡ true) (if b then ledger else put ledger msg.id now)) [
          | true ↦ h
          | false ↦ All-put _ ledger msg.id now h (is_kept_now now msg.id)
        ])

-- A GitBridge that starts where no ledger is publishes nothing of what the inboxes hold then: a
-- pass over the relay that it was made on, at any later time, changes nothing.
pub new_bridge-backlog :
    (mirror_all : Bool) (now later : ℕ) (uuids : ℕ → String) (relay : Relay) (repo : Repo)
    → outbound later uuids relay (new_bridge mirror_all now relay repo none)
      ≡ new_bridge mirror_all now relay repo none
unfolding new_bridge save_ledger
new_bridge-backlog mirror_all now later uuids relay repo =
    let msgs = local_messages relay in
    outbound-Covered later uuids relay (new_bridge mirror_all now relay repo none) (
      subst (λ ledger. Covered ledger msgs)
        (sym (select-All (is_kept now) (seed now msgs []) (seed-kept now msgs [] tt)))
        (seed-Covered now msgs []))
