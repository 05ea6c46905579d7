-- ===== src/Supervisor/Pass/Parallel.antt =====
-- How many starts are in flight at once, and nicks that are parked.
use mathlib.Core.List.{append-nil}
use mcp_dispatch.Base.{
  ℕ, ◌+◌, ◌≤◌, ◌<◌, String, Bool, true, false, ◌==◌, eq_iff, eq_refl, ◌≡◌, refl, subst, ◌∙◌,
  is_some, List, [], ◌∷◌, if◌then◌else◌, Bool-cases, arith, inl, inr,
}
use mcp_dispatch.Base.Dict.{Dict, get, put}
use mcp_dispatch.Supervisor.Sources.{is_live}
use mcp_dispatch.Supervisor.Decision.{
  AgentSpec, SupervisorConfig, NickState, is_awaiting, Decision, decide,
}
use mcp_dispatch.Supervisor.Pass.{
  World, Supervisor, Daemon, state_of, refresh, start_nick, act, is_start, decision_for, visit,
  sweep, concurrent_starts, tick, step, run, times_of,
}
use mcp_dispatch.Supervisor.Pass.Steps.{decide-Ready, refresh-awaiting}
use mcp_dispatch.Supervisor.Pass.Turns.{state_of-put, act-here, act-there, times_of-append}

abbrev flag : NickState → ℕ
flag state = if is_awaiting state then 1 else 0

-- Replacing a nick's state changes the count by that nick.
concurrent_starts-put :
    (states : Dict NickState) (n : String) (s : NickState)
    → concurrent_starts (put states n s) + flag (state_of states n)
      ≡ concurrent_starts states + flag s
unfolding concurrent_starts get put
concurrent_starts-put [] n s = omega arith
concurrent_starts-put ((k, old) ∷ states) n s = ground (arith, concurrent_starts-put states n s)

module _ (cfg : SupervisorConfig) (dry_run : Bool) (world : World) where
  act-concurrent :
      (n : String) (spec : AgentSpec) (states : Dict NickState) (decision : Decision)
      → concurrent_starts states ≤ cfg.max_concurrent_starts
      → (is_start decision.action ≡ true → concurrent_starts states < cfg.max_concurrent_starts)
      → concurrent_starts (act cfg dry_run world n spec states decision).states
        ≤ cfg.max_concurrent_starts
  unfolding act
  act-concurrent n spec states decision le lt =
      let s = (start_nick cfg dry_run world spec (state_of states n)).state in
      let bound : flag s ≤ 1 = elim (Bool-cases (is_awaiting s)) [
        | inl y ↦ rw y (omega arith)
        | inr y ↦ rw y (omega arith)
      ] in
      elim (Bool-cases (is_start decision.action)) [
        | inl go ↦ rw go (omega (arith, concurrent_starts-put states n s, bound, lt go))
        | inr stay ↦ rw stay le
      ]

  refresh-flag :
      (state : NickState) (live : Bool) → flag (refresh cfg world state live) ≤ flag state
  refresh-flag state live = elim (Bool-cases (is_awaiting state)) [
    | inl y ↦ rw y (elim (Bool-cases (is_awaiting (refresh cfg world state live))) [
      | inl z ↦ rw z (omega arith)
      | inr z ↦ rw z (omega arith)
    ])
    | inr n ↦ rw (n, refresh-awaiting cfg world state live n) (omega arith)
  ]

  visit-concurrent :
      (n : String) (spec : AgentSpec) (states : Dict NickState)
      → concurrent_starts states ≤ cfg.max_concurrent_starts
      → concurrent_starts (visit cfg dry_run world n spec states).states ≤ cfg.max_concurrent_starts
  unfolding visit decision_for
  visit-concurrent n spec states le =
      let live = is_live (world.relay n) n in
      let state' = refresh cfg world (state_of states n) live in
      let states' = put states n state' in
      act-concurrent n spec states' (decision_for cfg dry_run world spec n states')
        (omega
          (arith, concurrent_starts-put states n state', refresh-flag (state_of states n) live))
        (λ go.
          (decide-Ready spec (state_of states' n) _ live world.now cfg (concurrent_starts states') _
            go).room)

  sweep-concurrent :
      (agents : Dict AgentSpec) (states : Dict NickState)
      → concurrent_starts states ≤ cfg.max_concurrent_starts
      → concurrent_starts (sweep cfg dry_run world agents states).states ≤ cfg.max_concurrent_starts
  unfolding sweep
  sweep-concurrent [] states le = le
  sweep-concurrent ((n, spec) ∷ agents) states le =
      sweep-concurrent agents _ (visit-concurrent n spec states le)

  -- A pass that begins with at most `max_concurrent_starts` starts in flight ends so, over all
  -- nicks of the allowlist together.
  pub tick-concurrent :
      (sup : Supervisor)
      → concurrent_starts sup.states ≤ cfg.max_concurrent_starts
      → concurrent_starts (tick cfg dry_run world sup).supervisor.states ≤ cfg.max_concurrent_starts
  unfolding tick
  tick-concurrent sup le = sweep-concurrent cfg.agents sup.states le

-- A nick whose breaker has tripped, with no start in flight.
pub record IsParked (state : NickState) : Type 0 where
  pub tripped : is_some state.parked ≡ true
  pub idle : state.awaiting_since ≡ 0

module _ (cfg : SupervisorConfig) (dry_run : Bool) (world : World) where
  refresh-IsParked :
      (state : NickState) (live : Bool) → IsParked state → IsParked (refresh cfg world state live)
  unfolding refresh
  refresh-IsParked state live p = record { tripped = ground arith; idle = ground arith }

  parked_skips :
      (spec : AgentSpec) (n : String) (states : Dict NickState)
      → IsParked (state_of states n)
      → is_start (decision_for cfg dry_run world spec n states).action ≡ false
  unfolding decision_for decide
  parked_skips spec n states p = ground (arith, p.tripped)

  visit-IsParked-here :
      (n : String) (spec : AgentSpec) (states : Dict NickState)
      → IsParked (state_of states n)
      → let turn = visit cfg dry_run world n spec states in
        IsParked (state_of turn.states n) × (times_of n world.now turn.spawned ≡ [])
  unfolding visit
  visit-IsParked-here n spec states p =
      let live = is_live (world.relay n) n in
      let state' = refresh cfg world (state_of states n) live in
      let states' = put states n state' in
      let same : state_of states' n ≡ state' =
        state_of-put states n state' n ∙ rw (eq_refl n) refl in
      let p' : IsParked (state_of states' n) =
        rw same (refresh-IsParked (state_of states n) live p) in
      let decision = decision_for cfg dry_run world spec n states' in
      let stays = parked_skips spec n states' p' in
      let (ends, times) = act-here cfg dry_run world n spec states' decision in
      (rw (ends, stays) p', rw (times, stays) refl)

  visit-IsParked :
      (n k : String) (spec : AgentSpec) (states : Dict NickState)
      → IsParked (state_of states k)
      → let turn = visit cfg dry_run world n spec states in
        IsParked (state_of turn.states k) × (times_of k world.now turn.spawned ≡ [])
  visit-IsParked n k spec states p = elim (Bool-cases (n == k)) [
    | inl same ↦
        subst
          (λ j.
            IsParked (state_of states j)
            → IsParked (state_of (visit cfg dry_run world n spec states).states j)
              × (times_of j world.now (visit cfg dry_run world n spec states).spawned ≡ []))
          ((eq_iff n k).0 same) (visit-IsParked-here n spec states) p
    | inr other ↦
        unfold visit in
        (let states' =
            put states n (refresh cfg world (state_of states n) (is_live (world.relay n) n)) in
          let decision = decision_for cfg dry_run world spec n states' in
          let (kept, silent) = act-there cfg dry_run world n k spec states' decision other in
          (rw (kept, state_of-put states n _ k, other) p, silent))
  ]

  sweep-IsParked :
      (k : String) (agents : Dict AgentSpec) (states : Dict NickState)
      → IsParked (state_of states k)
      → let swept = sweep cfg dry_run world agents states in
        IsParked (state_of swept.states k) × (times_of k world.now swept.spawned ≡ [])
  unfolding sweep
  sweep-IsParked k [] states p = (p, unfold times_of in refl)
  sweep-IsParked k ((n, spec) ∷ agents) states p =
      let turn = visit cfg dry_run world n spec states in
      let (p', t) = visit-IsParked n k spec states p in
      let (p'', t') = sweep-IsParked k agents turn.states p' in
      (
        p'',
        rw
            (
              times_of-append cfg dry_run world k turn.spawned
                  (sweep cfg dry_run world agents turn.states).spawned,
              t,
              t',
            )
            refl,
      )

-- A parked nick stays parked and is never started again, however many passes the daemon makes.
pub run-IsParked :
    (cfg : SupervisorConfig) (dry_run : Bool) (worlds : List World) (daemon : Daemon)
    (nick : String)
    → IsParked (state_of daemon.supervisor.states nick)
    → IsParked (state_of (run cfg dry_run worlds daemon).supervisor.states nick)
      × ((run cfg dry_run worlds daemon).history nick ≡ daemon.history nick)
unfolding run
run-IsParked cfg dry_run [] daemon nick p = (p, refl)
run-IsParked cfg dry_run (world ∷ worlds) daemon nick p =
    let (p', t) = sweep-IsParked cfg dry_run world nick cfg.agents daemon.supervisor.states p in
    let (q, h) =
      run-IsParked cfg dry_run worlds (step cfg dry_run world daemon) nick
        (unfold step tick in p') in
    (q, h ∙ unfold step tick in rw (t, append-nil (daemon.history nick)) refl)
