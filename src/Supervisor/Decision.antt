-- ===== src/Supervisor/Decision.antt =====
-- supervisor.py: AgentSpec, SupervisorConfig, NickState, Decision and decide. A reading of
-- time.monotonic() and a configured duration are numbers of microseconds, so 0 is a falsy reading
-- as 0.0 is; a difference that Python finds negative is 0 here, which no test tells apart.
use mcp_dispatch.Base.{
  ℕ, ◌-◌, String, Bool, true, false, not, ◌&&◌, Option, none, some, List, [], ◌∷◌, select, length,
  ltb, leb, eqb, if◌then◌else◌,
}
use mcp_dispatch.Base.Dict.{Dict}
use mcp_dispatch.Base.Int.{ℤ}

-- RATE_WINDOW_SECONDS
abbrev pub rate_window : ℕ
rate_window = 3_600_000_000

pub record AgentSpec : Type 0 where
  pub nick : String
  pub command : List String
  pub cwd : String
  pub env : List (String × String)

pub record SupervisorConfig : Type 0 where
  pub cooldown : ℕ
  pub start_timeout : ℕ
  pub max_failures : ℕ
  pub max_starts_per_hour : ℕ
  pub max_concurrent_starts : ℕ
  pub agents : Dict AgentSpec
  pub inherit_inbox : Bool

-- Why a start failed.
pub data Why : Type 0 where
  exited : ℤ → ℕ → Why  -- the return code, and the time waited
  no_presence : ℕ → Why  -- still running after the timeout
  problems : List String → Why
  spawn_failed : Why

-- The breaker's text: how many failures, and the last one.
pub record Parked : Type 0 where
  pub failures : ℕ
  pub why : Why

pub record NickState : Type 0 where
  pub starts : List ℕ
  pub failures : ℕ
  pub proc : Option ℕ  -- a handle of a child process
  pub awaiting_since : ℕ
  pub parked : Option Parked

abbrev pub fresh : NickState
fresh = record { starts = []; failures = 0; proc = none; awaiting_since = 0; parked = none }

-- `if state.awaiting_since`
abbrev pub is_awaiting : NickState → Bool
is_awaiting state = not (eqb state.awaiting_since 0)

unfoldable pub last_start : List ℕ → ℕ
last_start [] = 0
last_start (t ∷ []) = t
last_start (t ∷ u ∷ starts) = last_start (u ∷ starts)

abbrev pub in_window : ℕ → ℕ → Bool
in_window now t = ltb (now - t) rate_window

unfoldable pub recent_starts : NickState → ℕ → ℕ
recent_starts state now = length (select (in_window now) state.starts)

unfoldable pub prune : ℕ → NickState → NickState
prune now state = record state { starts = select (in_window now) state.starts }

pub data Action : Type 0 where
  start skip : Action

pub data Reason : Type 0 where
  breaker : Parked → Reason
  already_live : Reason
  in_flight : ℕ → Reason
  no_waiting_mail : Reason
  cooling : ℕ → Reason
  rate_limit : ℕ → Reason
  all_in_flight : ℕ → Reason
  mail_waiting : ℕ → Reason

pub record Decision : Type 0 where
  pub nick : String
  pub action : Action
  pub reason : Reason
  pub mail : ℕ
  pub counted : Bool

abbrev pub has_starts : List ℕ → Bool
has_starts [] = false
has_starts (t ∷ starts) = true

abbrev gate : AgentSpec → ℕ → Bool → Action → Reason → Decision
gate spec mail counted action reason = record {
  nick = spec.nick;
  action = action;
  reason = reason;
  mail = mail;
  counted = counted;
}

-- The gates behind the breaker.
decide_unparked : AgentSpec → NickState → ℕ → Bool → ℕ → SupervisorConfig → ℕ → Bool → Decision
unfolding last_start recent_starts
decide_unparked spec state mail live now cfg concurrent counted =
    let since = now - last_start state.starts in
    if live
    then gate spec mail counted skip already_live
    else if is_awaiting state
    then gate spec mail counted skip (in_flight (now - state.awaiting_since))
    else if eqb mail 0
    then gate spec mail true skip no_waiting_mail
    else if has_starts state.starts && ltb since cfg.cooldown
    then gate spec mail true skip (cooling (cfg.cooldown - since))
    else if leb cfg.max_starts_per_hour (recent_starts state now)
    then gate spec mail true skip (rate_limit cfg.max_starts_per_hour)
    else if leb cfg.max_concurrent_starts concurrent
    then gate spec mail true skip (all_in_flight concurrent)
    else gate spec mail true start (mail_waiting mail)

unfoldable pub decide :
    AgentSpec → NickState → ℕ → Bool → ℕ → SupervisorConfig → ℕ → Bool → Decision
unfolding decide_unparked
decide spec state mail live now cfg concurrent counted = elim state.parked [
  | some parked ↦ gate spec mail counted skip (breaker parked)
  | none ↦ decide_unparked spec state mail live now cfg concurrent counted
]
