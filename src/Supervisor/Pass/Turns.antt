-- ===== src/Supervisor/Pass/Turns.antt =====
-- One nick's turn, seen from that nick and from the others.
use mcp_dispatch.Base.{
  ℕ, String, Bool, false, ◌==◌, eq_refl, ◌≡◌, refl, List, [], ◌∷◌, ◌++◌, if◌then◌else◌, arith,
}
use mcp_dispatch.Base.Dict.{Dict, put, get-put}
use mcp_dispatch.Supervisor.Decision.{AgentSpec, SupervisorConfig, NickState, Decision}
use mcp_dispatch.Supervisor.Pass.{World, start_nick, state_of, is_start, act, times_of}

pub state_of-put :
    (states : Dict NickState) (n : String) (s : NickState) (k : String)
    → state_of (put states n s) k ≡ (if n == k then s else state_of states k)
state_of-put states n s k = ground (arith, get-put states n k s)

module _ (cfg : SupervisorConfig) (dry_run : Bool) (world : World) where
  -- The state of the visited nick at the end of its turn, and its start times of this turn.
  abbrev pub end_state : AgentSpec → NickState → Bool → NickState
  end_state spec state go = if go then (start_nick cfg dry_run world spec state).state else state

  abbrev pub end_times : AgentSpec → NickState → Bool → List ℕ
  end_times spec state go =
      if go
      then (if (start_nick cfg dry_run world spec state).spawned then world.now ∷ [] else [])
      else []

  -- The visited nick at the end of its turn.
  pub act-here :
      (n : String) (spec : AgentSpec) (states : Dict NickState) (decision : Decision)
      → let turn = act cfg dry_run world n spec states decision in
        let go = is_start decision.action in
        (state_of turn.states n ≡ end_state spec (state_of states n) go)
        × (times_of n world.now turn.spawned ≡ end_times spec (state_of states n) go)
  unfolding act times_of
  act-here n spec states decision = (
    ground (
      arith,
      state_of-put states n (start_nick cfg dry_run world spec (state_of states n)).state n,
      eq_refl n,
    ),
    ground (arith, eq_refl n),
  )

  -- Every other nick is as it was.
  pub act-there :
      (n k : String) (spec : AgentSpec) (states : Dict NickState) (decision : Decision)
      → (n == k) ≡ false
      → let turn = act cfg dry_run world n spec states decision in
        (state_of turn.states k ≡ state_of states k) × (times_of k world.now turn.spawned ≡ [])
  unfolding act times_of
  act-there n k spec states decision ne = (
    ground (
      arith,
      state_of-put states n (start_nick cfg dry_run world spec (state_of states n)).state k,
      ne,
    ),
    ground (arith, ne),
  )

  pub times_of-append :
      (k : String) (xs ys : List String)
      → times_of k world.now (xs ++ ys) ≡ times_of k world.now xs ++ times_of k world.now ys
  unfolding times_of
  times_of-append k [] ys = refl
  times_of-append k (x ∷ xs) ys = ground (arith, times_of-append k xs ys)
