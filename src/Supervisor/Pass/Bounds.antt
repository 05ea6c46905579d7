-- ===== src/Supervisor/Pass/Bounds.antt =====
-- The bounds on how often the daemon starts a nick, kept by every pass.
use mathlib.Core.List.{append-nil, append_assoc}
use mcp_dispatch.Base.{
  ℕ, ◌<◌, String, Bool, true, ◌==◌, eq_iff, eq_refl, ◌≡◌, refl, sym, subst, ◌∙◌, List, [], ◌∷◌,
  ◌++◌, select, select-select, Bool-cases, inl, inr,
}
use mcp_dispatch.Base.Dict.{Dict, put}
use mcp_dispatch.Supervisor.Sources.{is_live}
use mcp_dispatch.Supervisor.Decision.{AgentSpec, SupervisorConfig, NickState, in_window, Decision}
use mcp_dispatch.Supervisor.Pass.{
  World, refresh, start_nick, state_of, is_start, act, decision_for, visit, sweep, times_of,
}
use mcp_dispatch.Supervisor.Pass.Turns.{
  state_of-put, end_state, end_times, act-here, act-there, times_of-append,
}
use mcp_dispatch.Supervisor.Pass.Steps.{
  Ready, decide-Ready, refresh-starts, Breaker, refresh-Breaker, start_nick-Breaker,
  start_nick-starts,
}
use mcp_dispatch.Supervisor.Pass.History.{Tracks, Tracks-prune, Tracks-launch}

pub record Good (cfg : SupervisorConfig) (now : ℕ) (times : List ℕ) (state : NickState)
    : Type 0 where
  pub tracks : Tracks cfg now times state
  pub breaker : Breaker cfg state

module _ (cfg : SupervisorConfig) (dry_run : Bool) (world : World)
    (positive : 0 < cfg.max_failures) where
  refresh-Good :
      {times : List ℕ} {state : NickState} (live : Bool)
      → Good cfg world.now times state
      → Good cfg world.now times (refresh cfg world state live)
  refresh-Good {times} {state} live g = record {
    tracks = Tracks-prune g.tracks (refresh-starts cfg world state live);
    breaker = refresh-Breaker cfg world state live positive g.breaker;
  }

  -- A launch or a failed attempt, from a state whose gates have passed.
  start_nick-Good :
      (spec : AgentSpec) {times : List ℕ} {state : NickState} {mail : ℕ} {live : Bool}
      {concurrent : ℕ}
      → Good cfg world.now times state
      → state.starts ≡ select (in_window world.now) state.starts
      → Ready state mail live world.now cfg concurrent
      → Good cfg world.now
          (times ++ end_times cfg dry_run world spec state true)
          (end_state cfg dry_run world spec state true)
  start_nick-Good spec {times} {state} g pruned r =
      let e = start_nick-starts cfg world state dry_run spec in
      record {
        tracks = elim (Bool-cases (start_nick cfg dry_run world spec state).spawned) [
          | inl y ↦ rw y (Tracks-launch g.tracks pruned r.cooled r.rate (e ∙ rw y refl))
          | inr n ↦
              rw (n, append-nil times)
                (Tracks-prune g.tracks (e ∙ rw n (append-nil state.starts ∙ pruned)))
        ];
        breaker = start_nick-Breaker cfg world state dry_run spec r.unparked g.breaker;
      }

  act-Good :
      (n : String) (spec : AgentSpec) (states : Dict NickState) (decision : Decision)
      (times : List ℕ) (mail : ℕ) (live : Bool) (concurrent : ℕ)
      → Good cfg world.now times (state_of states n)
      → (state_of states n).starts ≡ select (in_window world.now) (state_of states n).starts
      → (is_start decision.action ≡ true
          → Ready (state_of states n) mail live world.now cfg concurrent)
      → let turn = act cfg dry_run world n spec states decision in
        Good cfg world.now (times ++ times_of n world.now turn.spawned) (state_of turn.states n)
  act-Good n spec states decision times mail live concurrent g pruned ready =
      let (ends, started) = act-here cfg dry_run world n spec states decision in
      elim (Bool-cases (is_start decision.action)) [
        | inl go ↦ rw (ends, started, go) (start_nick-Good spec g pruned (ready go))
        | inr stay ↦ rw (ends, started, stay, append-nil times) g
      ]

  visit-here :
      (n : String) (spec : AgentSpec) (states : Dict NickState) (times : List ℕ)
      → Good cfg world.now times (state_of states n)
      → let turn = visit cfg dry_run world n spec states in
        Good cfg world.now (times ++ times_of n world.now turn.spawned) (state_of turn.states n)
  unfolding visit decision_for
  visit-here n spec states times g =
      let live = is_live (world.relay n) n in
      let state' = refresh cfg world (state_of states n) live in
      let states' = put states n state' in
      let same : state_of states' n ≡ state' =
        state_of-put states n state' n ∙ rw (eq_refl n) refl in
      let kept = refresh-starts cfg world (state_of states n) live in
      act-Good n spec states' (decision_for cfg dry_run world spec n states') times _ live _
        (rw same (refresh-Good live g))
        (rw (same, kept)
          (sym (
            select-select (in_window world.now) (in_window world.now) (state_of states n).starts
              (λ u h. h))))
        (λ go. decide-Ready spec (state_of states' n) _ live world.now cfg _ _ go)

  visit-Good :
      (n k : String) (spec : AgentSpec) (states : Dict NickState) (times : List ℕ)
      → Good cfg world.now times (state_of states k)
      → let turn = visit cfg dry_run world n spec states in
        Good cfg world.now (times ++ times_of k world.now turn.spawned) (state_of turn.states k)
  visit-Good n k spec states times g = elim (Bool-cases (n == k)) [
    | inl same ↦
        subst
          (λ j.
            Good cfg world.now times (state_of states j)
            → Good cfg world.now
                (times ++ times_of j world.now (visit cfg dry_run world n spec states).spawned)
                (state_of (visit cfg dry_run world n spec states).states j))
          ((eq_iff n k).0 same) (visit-here n spec states times) g
    | inr other ↦
        unfold visit in
        (let states' =
            put states n (refresh cfg world (state_of states n) (is_live (world.relay n) n)) in
          let decision = decision_for cfg dry_run world spec n states' in
          let (kept, silent) = act-there cfg dry_run world n k spec states' decision other in
          rw (kept, silent, append-nil times, state_of-put states n _ k, other) g)
  ]

  pub sweep-Good :
      (k : String) (agents : Dict AgentSpec) (states : Dict NickState) (times : List ℕ)
      → Good cfg world.now times (state_of states k)
      → let swept = sweep cfg dry_run world agents states in
        Good cfg world.now (times ++ times_of k world.now swept.spawned) (state_of swept.states k)
  unfolding sweep
  sweep-Good k [] states times g = unfold times_of in rw (append-nil times) g
  sweep-Good k ((n, spec) ∷ agents) states times g =
      let turn = visit cfg dry_run world n spec states in
      rw
        (
          times_of-append cfg dry_run world k turn.spawned
              (sweep cfg dry_run world agents turn.states).spawned,
          ← append_assoc,
        )
        (sweep-Good k agents turn.states _ (visit-Good n k spec states times g))
