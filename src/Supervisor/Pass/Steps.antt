-- ===== src/Supervisor/Pass/Steps.antt =====
-- What one nick's turn does to its state.
use mathlib.Core.List.{append-nil}
use mcp_dispatch.Base.{
  ℕ, ◌-◌, ◌≤◌, ◌<◌, Bool, true, false, ◌≡◌, none, [], ◌∷◌, ◌++◌, select, is_some, if◌then◌else◌,
  arith,
}
use mcp_dispatch.Supervisor.Decision.{
  AgentSpec, SupervisorConfig, NickState, is_awaiting, in_window, has_starts, last_start,
  recent_starts, start, decide,
}
use mcp_dispatch.Supervisor.Pass.{World, refresh, start_nick, is_start}

-- What `decide` has checked when it says "start".
pub record Ready (state : NickState) (mail : ℕ) (live : Bool) (now : ℕ) (cfg : SupervisorConfig)
    (concurrent : ℕ) : Type 0 where
  pub unparked : state.parked ≡ none
  pub dead : live ≡ false
  pub idle : is_awaiting state ≡ false
  pub waiting : 0 < mail
  pub cooled : has_starts state.starts ≡ true → cfg.cooldown ≤ now - last_start state.starts
  pub rate : recent_starts state now < cfg.max_starts_per_hour
  pub room : concurrent < cfg.max_concurrent_starts

pub decide-Ready :
    (spec : AgentSpec) (state : NickState) (mail : ℕ) (live : Bool) (now : ℕ)
    (cfg : SupervisorConfig) (concurrent : ℕ) (counted : Bool)
    → is_start (decide spec state mail live now cfg concurrent counted).action ≡ true
    → Ready state mail live now cfg concurrent
unfolding decide
decide-Ready spec state mail live now cfg concurrent counted h = ground arith

pub Ready-decide :
    (spec : AgentSpec) (state : NickState) (mail : ℕ) (live : Bool) (now : ℕ)
    (cfg : SupervisorConfig) (concurrent : ℕ) (counted : Bool)
    → Ready state mail live now cfg concurrent
    → (decide spec state mail live now cfg concurrent counted).action ≡ start
unfolding decide
Ready-decide spec state mail live now cfg concurrent counted r = ground (arith, r.cooled)

module _ (cfg : SupervisorConfig) (world : World) (state : NickState) (live : Bool) where
  pub refresh-starts :
      (refresh cfg world state live).starts ≡ select (in_window world.now) state.starts
  unfolding refresh
  refresh-starts = ground arith

  pub refresh-awaiting :
      is_awaiting state ≡ false → is_awaiting (refresh cfg world state live) ≡ false
  unfolding refresh
  refresh-awaiting h = ground arith

  pub refresh-parked :
      is_some state.parked ≡ true
      → state.awaiting_since ≡ 0
      → (refresh cfg world state live).parked ≡ state.parked
  unfolding refresh
  refresh-parked p i = ground arith

-- The facts about one nick that every step of a pass keeps.
pub record Breaker (cfg : SupervisorConfig) (state : NickState) : Type 0 where
  pub below : state.parked ≡ none → state.failures < cfg.max_failures
  pub idle : is_some state.parked ≡ true → state.awaiting_since ≡ 0

module _ (cfg : SupervisorConfig) (world : World) (state : NickState) where
  pub refresh-Breaker :
      (live : Bool)
      → 0 < cfg.max_failures
      → Breaker cfg state
      → Breaker cfg (refresh cfg world state live)
  unfolding refresh
  refresh-Breaker live pos b = record {
    below = λ u. ground (arith, b.below, b.idle);
    idle = λ p. ground (arith, b.idle);
  }

  pub start_nick-Breaker :
      (dry_run : Bool) (spec : AgentSpec)
      → state.parked ≡ none
      → Breaker cfg state
      → Breaker cfg (start_nick cfg dry_run world spec state).state
  unfolding start_nick
  start_nick-Breaker dry_run spec u b = record {
    below = λ u. ground (arith, b.below);
    idle = λ p. ground (arith, b.idle);
  }

  -- A start adds the present time to the starts exactly when a child was created.
  pub start_nick-starts :
      (dry_run : Bool) (spec : AgentSpec)
      → (start_nick cfg dry_run world spec state).state.starts
        ≡ state.starts
          ++ (if (start_nick cfg dry_run world spec state).spawned then world.now ∷ [] else [])
  unfolding start_nick
  start_nick-starts dry_run spec = ground (arith, append-nil state.starts)
