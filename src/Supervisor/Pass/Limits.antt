-- ===== src/Supervisor/Pass/Limits.antt =====
-- The limits on the daemon's starts, over any run of it.
use mcp_dispatch.Base.{ℕ, ◌≤◌, ◌<◌, String, Bool, ◌≡◌, refl, List, [], ◌∷◌, select, length, arith}
use mcp_dispatch.Base.Dict.{Dict, get}
use mcp_dispatch.Supervisor.Decision.{AgentSpec, SupervisorConfig, fresh}
use mcp_dispatch.Supervisor.Pass.{World, Daemon, new, new_states, state_of, tick, step, run, boot}
use mcp_dispatch.Supervisor.Pass.Steps.{Breaker}
use mcp_dispatch.Supervisor.Pass.History.{Tracks-later, Spaced, within, gap_of}
use mcp_dispatch.Supervisor.Pass.Bounds.{Good, sweep-Good}

-- The passes' monotonic clock does not go back.
abbrev pub Forward : ℕ → List World → Type 0
Forward now [] = Unit
Forward now (world ∷ worlds) = (now ≤ world.now) × Forward world.now worlds

abbrev end_time : ℕ → List World → ℕ
end_time now [] = now
end_time now (world ∷ worlds) = end_time world.now worlds

module _ (cfg : SupervisorConfig) (dry_run : Bool) (positive : 0 < cfg.max_failures)
    (nick : String) where
  GoodDaemon : ℕ → Daemon → Type 0
  GoodDaemon now daemon =
      Good cfg now (daemon.history nick) (state_of daemon.supervisor.states nick)

  step-Good :
      (world : World) (now : ℕ) (daemon : Daemon)
      → now ≤ world.now
      → GoodDaemon now daemon
      → GoodDaemon world.now (step cfg dry_run world daemon)
  unfolding GoodDaemon step tick
  step-Good world now daemon le g =
      sweep-Good cfg dry_run world positive nick cfg.agents daemon.supervisor.states
        (daemon.history nick)
        (record { tracks = Tracks-later world.now le g.tracks; breaker = g.breaker })

  run-Good :
      (worlds : List World) (now : ℕ) (daemon : Daemon)
      → Forward now worlds
      → GoodDaemon now daemon
      → GoodDaemon (end_time now worlds) (run cfg dry_run worlds daemon)
  unfolding run
  run-Good [] now daemon f g = g
  run-Good (world ∷ worlds) now daemon f g =
      run-Good worlds world.now (step cfg dry_run world daemon) f.1
        (step-Good world now daemon f.0 g)

  state_of-new_states : (agents : Dict AgentSpec) → state_of (new_states agents) nick ≡ fresh
  unfolding get
  state_of-new_states [] = refl
  state_of-new_states ((n, spec) ∷ agents) = ground (arith, state_of-new_states agents)

  boot-Good : (now : ℕ) → GoodDaemon now (boot cfg)
  unfolding GoodDaemon new
  boot-Good now = rw (state_of-new_states cfg.agents) (record {
    tracks = record { kept = refl; past = tt; spaced = tt; rate = λ from. omega arith };
    breaker = record { below = λ u. positive; idle = λ p. refl };
  })

  after :
      (worlds : List World) (now : ℕ)
      → Forward now worlds
      → GoodDaemon (end_time now worlds) (run cfg dry_run worlds (boot cfg))
  after worlds now f = run-Good worlds now (boot cfg) f (boot-Good now)

  -- In every hour of a run, wherever it begins, the daemon creates at most `max_starts_per_hour`
  -- child processes for a nick: whatever mail arrives, whatever the children do and however often
  -- the passes come, as long as the monotonic clock does not go back.
  pub starts_per_hour :
      (worlds : List World) (now from : ℕ)
      → Forward now worlds
      → length (select (within from) ((run cfg dry_run worlds (boot cfg)).history nick))
        ≤ cfg.max_starts_per_hour
  unfolding GoodDaemon
  starts_per_hour worlds now from f = (after worlds now f).tracks.rate from

  -- Any two starts of a nick in a run are at least the cooldown apart, or an hour where the
  -- cooldown is longer than that.
  pub starts-Spaced :
      (worlds : List World) (now : ℕ)
      → Forward now worlds
      → Spaced (gap_of cfg) ((run cfg dry_run worlds (boot cfg)).history nick)
  unfolding GoodDaemon
  starts-Spaced worlds now f = (after worlds now f).tracks.spaced

  -- At the end of a run a nick is parked, or it has failed fewer than `max_failures` times in a row;
  -- a parked nick is not waiting for a start.
  pub run-Breaker :
      (worlds : List World) (now : ℕ)
      → Forward now worlds
      → Breaker cfg (state_of (run cfg dry_run worlds (boot cfg)).supervisor.states nick)
  unfolding GoodDaemon
  run-Breaker worlds now f = (after worlds now f).breaker
