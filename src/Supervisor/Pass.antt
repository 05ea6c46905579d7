-- ===== src/Supervisor/Pass.antt =====
-- supervisor.py: the class Supervisor. What a pass gets from outside is a `World`: the clocks, the
-- relay as it stands when a nick's turn comes, the children's exit codes, and what the file system
-- and the spawn say. The log lines are not modelled.
pub mod Steps
pub mod Turns
pub mod History
pub mod Bounds
pub mod Limits
pub mod Parallel
pub mod Cooldown
use mcp_dispatch.Base.{
  ℕ, zero, suc, ◌+◌, ◌-◌, String, Bool, true, false, ◌==◌, not, ◌&&◌, Option, none, some, List, [],
  ◌∷◌, ◌++◌, is_some, ltb, leb, eqb, if◌then◌else◌,
}
use mcp_dispatch.Base.Dict.{Dict, get, put}
use mcp_dispatch.Base.Int.{ℤ}
use mcp_dispatch.Relay.{Relay}
use mcp_dispatch.Supervisor.Sources.{waiting_mail, is_live}
use mcp_dispatch.Supervisor.Decision.{
  AgentSpec, SupervisorConfig, NickState, Why, exited, no_presence, problems, spawn_failed, fresh,
  is_awaiting, prune, Decision, Action, start, skip, decide,
}
use mcp_dispatch.Supervisor.Deaf.{Armed, Sweep, deaf_sessions, sweep_deaf}

pub record World : Type 0 where
  pub now : ℕ  -- time.monotonic()
  pub time : ℕ  -- time.time()
  pub relay : String → Relay  -- as the pass reads it for a nick
  pub poll : ℕ → Option ℤ  -- Popen.poll
  pub check_spec : AgentSpec → List String
  pub spawn : AgentSpec → Option ℕ  -- `none` where it raises OSError
  pub armed : Armed
  pub end_relay : Relay  -- as the sweep for deaf sessions reads it

-- Supervisor._succeeded
succeeded : NickState → NickState
succeeded state = record state { awaiting_since = 0; failures = 0 }

-- Supervisor._failed
failed : SupervisorConfig → NickState → Why → NickState
failed cfg state why =
    let failures = state.failures + 1 in
    record state {
      awaiting_since = 0;
      failures = failures;
      parked =
          if leb cfg.max_failures failures
          then some (record { failures = failures; why = why })
          else state.parked;
    }

abbrev pub polled : World → Option ℕ → Option ℤ
polled world none = none
polled world (some proc) = world.poll proc

-- The fate of a start, before the child is reaped.
settle : SupervisorConfig → NickState → Bool → ℕ → Option ℤ → NickState
unfolding succeeded failed
settle cfg state true waited rc = succeeded state
settle cfg state false waited (some code) = failed cfg state (exited code waited)
settle cfg state false waited none =
    if ltb cfg.start_timeout waited then failed cfg state (no_presence cfg.start_timeout) else state

abbrev reap : Option ℤ → NickState → NickState
reap none state = state
reap (some code) state = record state { proc = none }

-- Supervisor._resolve_in_flight
resolve_in_flight : SupervisorConfig → World → NickState → Bool → NickState
unfolding settle
resolve_in_flight cfg world state live =
    let rc = polled world state.proc in
    reap rc (settle cfg state live (world.now - state.awaiting_since) rc)

-- A nick's state when its turn begins: pruned, and its start in flight or its finished child seen to.
unfoldable pub refresh : SupervisorConfig → World → NickState → Bool → NickState
unfolding resolve_in_flight prune
refresh cfg world state live =
    let state' = prune world.now state in
    if is_awaiting state'
    then resolve_in_flight cfg world state' live
    else reap (polled world state'.proc) state'

-- What `_start` leaves: the state, and whether a child process was created.
pub record Started : Type 0 where
  pub state : NickState
  pub spawned : Bool

-- The spawn, after check_spec has found nothing.
launch : SupervisorConfig → World → NickState → Option ℕ → Started
unfolding failed
launch cfg world state none = record { state = failed cfg state spawn_failed; spawned = false }
launch cfg world state (some proc) = record {
  state = record state {
    proc = some proc;
    starts = state.starts ++ world.now ∷ [];
    awaiting_since = world.now;
  };
  spawned = true;
}

attempt : SupervisorConfig → World → AgentSpec → NickState → List String → Started
unfolding launch failed
attempt cfg world spec state [] = launch cfg world state (world.spawn spec)
attempt cfg world spec state (p ∷ ps) = record {
  state = failed cfg state (problems (p ∷ ps));
  spawned = false;
}

-- Supervisor._start
unfoldable pub start_nick : SupervisorConfig → Bool → World → AgentSpec → NickState → Started
unfolding attempt
start_nick cfg dry_run world spec state =
    if dry_run
    then record { state = state; spawned = false }
    else attempt cfg world spec state (world.check_spec spec)

-- sum(1 for s in self.states.values() if s.awaiting_since)
unfoldable pub concurrent_starts : Dict NickState → ℕ
concurrent_starts [] = 0
concurrent_starts ((nick, state) ∷ states) =
    (if is_awaiting state then 1 else 0) + concurrent_starts states

abbrev pub is_start : Action → Bool
is_start start = true
is_start skip = false

abbrev pub state_of : Dict NickState → String → NickState
state_of states nick = elim (get states nick) [ none ↦ fresh | some state ↦ state ]

-- One nick's turn, and a whole sweep: what was decided, the states, and the nicks for which a child
-- process was created, in order.
pub record Turn : Type 0 where
  pub decision : Decision
  pub states : Dict NickState
  pub spawned : List String

pub record Swept : Type 0 where
  pub decisions : List Decision
  pub states : Dict NickState
  pub spawned : List String

module _ (cfg : SupervisorConfig) (dry_run : Bool) (world : World) where
  -- The decision for a nick whose refreshed state stands in `states`.
  unfoldable pub decision_for : AgentSpec → String → Dict NickState → Decision
  decision_for spec nick states =
      let relay = world.relay nick in
      let state = state_of states nick in
      let live = is_live relay nick in
      let counted = not live && not (is_some state.parked) && not (is_awaiting state) in
      let mail = if counted then waiting_mail world.time relay nick cfg.inherit_inbox else 0 in
      decide spec state mail live world.now cfg (concurrent_starts states) counted

  -- The end of a round, once the decision is made.
  unfoldable pub act : String → AgentSpec → Dict NickState → Decision → Turn
  act nick spec states decision =
      let started = start_nick cfg dry_run world spec (state_of states nick) in
      if is_start decision.action
      then record {
        decision = decision;
        states = put states nick started.state;
        spawned = if started.spawned then nick ∷ [] else [];
      }
      else record { decision = decision; states = states; spawned = [] }

  -- One round of the loop over the allowlist.
  unfoldable pub visit : String → AgentSpec → Dict NickState → Turn
  unfolding act refresh decision_for
  visit nick spec states =
      let live = is_live (world.relay nick) nick in
      let states' = put states nick (refresh cfg world (state_of states nick) live) in
      act nick spec states' (decision_for spec nick states')

  unfoldable pub sweep : Dict AgentSpec → Dict NickState → Swept
  sweep [] states = record { decisions = []; states = states; spawned = [] }
  sweep ((nick, spec) ∷ agents) states =
      let turn = visit nick spec states in
      let rest = sweep agents turn.states in
      record {
        decisions = turn.decision ∷ rest.decisions;
        states = rest.states;
        spawned = turn.spawned ++ rest.spawned;
      }

-- The object: its per-nick states, and whom it has alerted about.
pub record Supervisor : Type 0 where
  pub states : Dict NickState
  pub deaf_alerted : List String

abbrev new_states : Dict AgentSpec → Dict NickState
new_states [] = []
new_states ((nick, spec) ∷ agents) = (nick, fresh) ∷ new_states agents

-- Supervisor.__init__
unfoldable pub new : SupervisorConfig → Supervisor
new cfg = record { states = new_states cfg.agents; deaf_alerted = [] }

pub record Ticked : Type 0 where
  pub decisions : List Decision
  pub alerts : Dict ℕ
  pub spawned : List String
  pub supervisor : Supervisor

-- Supervisor.tick
unfoldable pub tick : SupervisorConfig → Bool → World → Supervisor → Ticked
unfolding deaf_sessions sweep_deaf
tick cfg dry_run world sup =
    let swept = sweep cfg dry_run world cfg.agents sup.states in
    let deaf = sweep_deaf sup.deaf_alerted (deaf_sessions world.armed world.time world.end_relay) in
    record {
      decisions = swept.decisions;
      spawned = swept.spawned;
      alerts = deaf.alerts;
      supervisor = record { states = swept.states; deaf_alerted = deaf.alerted };
    }

-- The times at which one nick was started, where `nicks` were started at `now`.
unfoldable pub times_of : String → ℕ → List String → List ℕ
times_of nick now [] = []
times_of nick now (n ∷ nicks) =
    let rest = times_of nick now nicks in if n == nick then now ∷ rest else rest

-- The daemon, one pass after another: the object, and each nick's start times so far.
pub record Daemon : Type 0 where
  pub supervisor : Supervisor
  pub history : String → List ℕ

unfoldable pub step : SupervisorConfig → Bool → World → Daemon → Daemon
unfolding times_of
step cfg dry_run world daemon =
    let ticked = tick cfg dry_run world daemon.supervisor in
    record {
      supervisor = ticked.supervisor;
      history = λ nick. daemon.history nick ++ times_of nick world.now ticked.spawned;
    }

unfoldable pub run : SupervisorConfig → Bool → List World → Daemon → Daemon
run cfg dry_run [] daemon = daemon
run cfg dry_run (world ∷ worlds) daemon = run cfg dry_run worlds (step cfg dry_run world daemon)

abbrev pub boot : SupervisorConfig → Daemon
boot cfg = record { supervisor = new cfg; history = λ nick. [] }
