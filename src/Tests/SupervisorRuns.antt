-- ===== src/Tests/SupervisorRuns.antt =====
-- The supervisor over a few passes.
use mcp_dispatch.Base.{
  ℕ, ◌≤◌, true, false, ◌≡◌, refl, none, some, List, [], ◌∷◌, select, length, arith,
}
use mcp_dispatch.Base.Dict.{get, put}
use mcp_dispatch.Base.Sort.{sort_by}
use mcp_dispatch.Ident.{is_id, durable_nick}
use mcp_dispatch.Message.{Message, pending, message, is_expired}
use mcp_dispatch.Relay.{
  Relay, live_agents, live_sessions_of, resolve_recipients, live_nicks, count_pending,
}
use mcp_dispatch.Base.Result.{Result, ok}
use mcp_dispatch.Relay.Send.{send_message, SendError, Sent}
use mcp_dispatch.Supervisor.Sources.{waiting_mail, is_live}
use mcp_dispatch.Supervisor.Decision.{
  AgentSpec, SupervisorConfig, NickState, spawn_failed, fresh, start, decide, prune, recent_starts,
}
use mcp_dispatch.Supervisor.Pass.{
  World, Daemon, boot, new, run, step, tick, sweep, visit, start_nick, times_of, concurrent_starts,
  state_of,
}
use mcp_dispatch.Supervisor.Pass.History.{Spaced, within, gap_of}
use mcp_dispatch.Supervisor.Pass.Limits.{starts_per_hour, starts-Spaced, run-Breaker}
use mcp_dispatch.Supervisor.Pass.Parallel.{IsParked, tick-concurrent, run-IsParked}
use mcp_dispatch.Supervisor.Pass.Steps.{Breaker}
use mcp_dispatch.Supervisor.Pass.Cooldown.{cooldown_forgotten}
use mcp_dispatch.Supervisor.Wake.Start.{offline_dm_starts}
use mcp_dispatch.Tests.RelayRuns.{relay, config, draws, plain, size, returned, nothing_sent}

abbrev webapp : AgentSpec
webapp = record { nick = "webapp"; command = "/usr/bin/agent" ∷ []; cwd = ""; env = [] }

abbrev cfg : SupervisorConfig
cfg = record {
  cooldown = 60_000_000;
  start_timeout = 120_000_000;
  max_failures = 2;
  max_starts_per_hour = 3;
  max_concurrent_starts = 1;
  agents = ("webapp", webapp) ∷ [];
  inherit_inbox = true;
}

abbrev letter : Message
letter = record nothing_sent.msg { id = "msg-2"; to = "webapp"; timestamp = 1700; state = pending }

abbrev mailed : Relay
mailed = record relay {
  inboxes =
      ("webapp", record { files = ("1.json", message letter) ∷ []; ours = true; shared = false })
      ∷ [];
}

-- A pass at `now`, in which the runtime starts and its child is still running.
abbrev world_at : ℕ → World
world_at now = record {
  now = now;
  time = 1800;
  relay = λ nick. mailed;
  poll = λ proc. none;
  check_spec = λ spec. [];
  spawn = λ spec. some 42;
  armed = λ stem session. none;
  end_relay = mailed;
}

abbrev passes : List World
passes = world_at 5_000_000 ∷ world_at 10_000_000 ∷ world_at 200_000_000 ∷ world_at 205_000_000 ∷ []

-- The start, a wait, the timeout with a new start at once, and a wait.
two_starts : (run cfg false passes (boot cfg)).history "webapp" ≡ 5_000_000 ∷ 200_000_000 ∷ []
unfolding run step new visit sweep tick start_nick times_of concurrent_starts get put waiting_mail
    count_pending sort_by is_live live_nicks live_agents is_id durable_nick decide is_expired
two_starts = refl

starts_per_hour_example :
    length (select (within 1_000_000) ((run cfg false passes (boot cfg)).history "webapp")) ≤ 3
starts_per_hour_example =
    starts_per_hour cfg false (omega arith) "webapp" passes 0 1_000_000 (omega arith)

starts-Spaced_example : Spaced (gap_of cfg) ((run cfg false passes (boot cfg)).history "webapp")
starts-Spaced_example = starts-Spaced cfg false (omega arith) "webapp" passes 0 (omega arith)

run-Breaker_example :
    Breaker cfg (state_of (run cfg false passes (boot cfg)).supervisor.states "webapp")
run-Breaker_example = run-Breaker cfg false (omega arith) "webapp" passes 0 (omega arith)

tick-concurrent_example :
    concurrent_starts (tick cfg false (world_at 5_000_000) (new cfg)).supervisor.states ≤ 1
unfolding new concurrent_starts
tick-concurrent_example = tick-concurrent cfg false (world_at 5_000_000) (new cfg) (omega arith)

abbrev tripped : NickState
tripped = record fresh { failures = 2; parked = some (record { failures = 2; why = spawn_failed }) }

abbrev parked_daemon : Daemon
parked_daemon = record {
  supervisor = record { states = ("webapp", tripped) ∷ []; deaf_alerted = [] };
  history = λ nick. [];
}

run-IsParked_example :
    IsParked (state_of (run cfg false passes parked_daemon).supervisor.states "webapp")
    × ((run cfg false passes parked_daemon).history "webapp" ≡ [])
unfolding get
run-IsParked_example =
    run-IsParked cfg false passes parked_daemon "webapp" (record { tripped = refl; idle = refl })

abbrev patient : SupervisorConfig
patient = record cfg { cooldown = 7_200_000_000 }

cooldown_forgotten_example :
    (decide webapp
      (prune 3_700_000_000 (record fresh { starts = 5_000_000 ∷ [] }))
      1
      false
      3_700_000_000
      patient
      0
      true).action
    ≡ start
cooldown_forgotten_example =
    cooldown_forgotten webapp (record fresh { starts = 5_000_000 ∷ [] }) 1 3_700_000_000 patient 0
      true refl refl (omega arith) (omega arith) (omega arith) (omega arith)

abbrev dm : Result SendError Sent
dm = send_message size config draws relay "amy-7" "webapp" "ping" plain

dm_done : dm ≡ ok (returned dm)
unfolding send_message resolve_recipients live_agents live_sessions_of sort_by is_id durable_nick
dm_done = refl

offline_dm_starts_example :
    (decide webapp fresh
      (waiting_mail 1710 (returned dm).relay "webapp" true)
      (is_live (returned dm).relay "webapp")
      5_000_000
      cfg
      0
      true).action
    ≡ start
unfolding send_message is_id durable_nick is_live live_nicks live_agents sort_by get is_expired
    recent_starts
offline_dm_starts_example =
    offline_dm_starts size config draws relay "amy-7" "webapp" "ping" plain dm_done refl refl refl
      refl 1710 refl refl webapp fresh 5_000_000 cfg 0 true refl refl (λ e. cc) (omega arith)
      (omega arith)
