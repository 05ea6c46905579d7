-- ===== src/Supervisor/Pass/Cooldown.antt =====
-- The cooldown is measured from the starts that `prune` has left, so it reaches an hour at most.
use mcp_dispatch.Base.{
  ℕ, ◌+◌, ◌≤◌, ◌<◌, Bool, false, ◌≡◌, refl, none, List, [], ◌∷◌, select, All, arith,
}
use mcp_dispatch.Supervisor.Decision.{
  AgentSpec, SupervisorConfig, NickState, rate_window, in_window, is_awaiting, recent_starts, prune,
  start, decide,
}
use mcp_dispatch.Supervisor.Pass.Steps.{Ready-decide}

none_recent :
    (now : ℕ) (starts : List ℕ)
    → All (λ t. t + rate_window ≤ now) starts
    → select (in_window now) starts ≡ []
none_recent now [] h = refl
none_recent now (t ∷ starts) h = ground (arith, h.0, none_recent now starts h.1)

-- Whatever the cooldown is, it does not hold a nick back once its starts are an hour old: a pass
-- that finds mail for it, with the other gates open, starts it.
pub cooldown_forgotten :
    (spec : AgentSpec) (state : NickState) (mail now : ℕ) (cfg : SupervisorConfig) (concurrent : ℕ)
    (counted : Bool)
    → state.parked ≡ none
    → is_awaiting state ≡ false
    → 0 < mail
    → All (λ t. t + rate_window ≤ now) state.starts
    → 0 < cfg.max_starts_per_hour
    → concurrent < cfg.max_concurrent_starts
    → (decide spec (prune now state) mail false now cfg concurrent counted).action ≡ start
unfolding prune recent_starts
cooldown_forgotten spec state mail now cfg concurrent counted unparked idle waiting old rate room =
    let empty = none_recent now state.starts old in
    Ready-decide spec (prune now state) mail false now cfg concurrent counted (record {
      unparked = unparked;
      dead = refl;
      idle = idle;
      waiting = waiting;
      cooled = rw empty (λ e. cc);
      rate = rw (empty) rate;
      room = room;
    })
