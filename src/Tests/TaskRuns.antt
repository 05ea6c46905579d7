-- ===== src/Tests/TaskRuns.antt =====
-- Two agents, one of them with two sessions, that claim a task at the same time.
use mcp_dispatch.Base.{
  ℕ, String, true, false, ◌==◌, none, some, List, [], ◌∷◌, if◌then◌else◌, eqb, Bool-cases, inl, inr,
  ◌≡◌, refl,
}
use mcp_dispatch.Base.Dict.{get, put}
use mcp_dispatch.Tasks.{Task, open_task, Store, refused, held_by, read_task}
use mcp_dispatch.Tasks.Claim.{advances, is_returned, all_called, claims-exclusive}

abbrev pub task : Task
task = record {
  id = "task-1";
  title = "review";
  detail = "";
  created_by = "amy-7";
  created_at = 5;
  state = open_task;
  claimed_by = none;
  claimed_at = none;
  done_at = none;
  target = none;
}

abbrev pub store : Store
store = record { records = ("task-1", some task) ∷ []; markers = [] }

abbrev agents : ℕ → String
agents p = if eqb p 1 then "bob-8" else "amy-7"

named : (r : ℕ) → agents r == "" ≡ false
named r = elim (Bool-cases (eqb r 1)) [ inl t ↦ rw t refl | inr f ↦ rw f refl ]

abbrev turns : List (ℕ × ℕ)
turns = (0, 10) ∷ (1, 10) ∷ (0, 10) ∷ (1, 10) ∷ (0, 11) ∷ (0, 11) ∷ (2, 12) ∷ (2, 12) ∷ []

first_returns : is_returned ((advances "task-1" agents turns (all_called store)).calls 0) ≡ true
unfolding advances read_task get put
first_returns = refl

again_returns : is_returned ((advances "task-1" agents turns (all_called store)).calls 2) ≡ true
unfolding advances read_task get put
again_returns = refl

other_refused : (advances "task-1" agents turns (all_called store)).calls 1 ≡ refused (held_by "")
unfolding advances read_task get put
other_refused = refl

claims-exclusive_example : agents 0 ≡ agents 2
claims-exclusive_example =
    claims-exclusive "task-1" agents turns store 0 2 named first_returns again_returns
