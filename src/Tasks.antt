-- ===== src/Tasks.antt =====
-- server.py, tasks: the records below .tasks and the claim markers beside them. A call of
-- _claim_task is cut into its accesses to the directory, since other processes run between them. A
-- marker's text is read as it was written: an agent id has no white space around it.
pub mod Moves
pub mod Claim
pub mod Work
use mcp_dispatch.Base.{
  ℕ, String, Bool, true, false, ◌==◌, not, Option, none, some, List, [], ◌∷◌, if◌then◌else◌, eqb,
}
use mcp_dispatch.Base.Dict.{Dict, get, put}
use mcp_dispatch.Base.Result.{Result, ok, raise}

pub data TaskState : Type 0 where
  open_task claimed done : TaskState

pub record Task : Type 0 where
  pub id : String
  pub title : String
  pub detail : String
  pub created_by : String
  pub created_at : ℕ
  pub state : TaskState
  pub claimed_by : Option String
  pub claimed_at : Option ℕ
  pub done_at : Option ℕ
  pub target : Option String

-- The files <id>.json (`none` where one does not load as an object), and <id>.claim
pub record Store : Type 0 where
  pub records : Dict (Option Task)
  pub markers : Dict String

pub data TaskError : Type 0 where
  no_such_task unreadable already_done no_title title_too_long : TaskError
  held_by : String → TaskError

abbrev loaded : Option (Option Task) → Result TaskError Task
loaded none = raise no_such_task
loaded (some none) = raise unreadable
loaded (some (some task)) = ok task

-- _read_task
unfoldable pub read_task : Store → String → Result TaskError Task
read_task store id = loaded (get store.records id)

abbrev pub is_done : TaskState → Bool
is_done done = true
is_done _ = false

-- A call of _claim_task by how far it has come: its start, the record read, the marker created,
-- the marker written, and its end.
pub data Call : Type 0 where
  called : Call
  checked created written returned : Task → Call
  refused : TaskError → Call

unfoldable pub after_read : Result TaskError Task → Call
after_read (raise e) = refused e
after_read (ok task) = if is_done task.state then refused already_done else checked task

abbrev pub claimed_task : String → ℕ → Task → Task
claimed_task agent_id now task = record task {
  state = claimed;
  claimed_by = some agent_id;
  claimed_at = some now;
}

-- os.open with O_CREAT | O_EXCL, and the except branch. There the failing open and the read of the
-- marker's text are one access: no call removes a marker, and a later read can find only the
-- owner's id in place of an empty text.
unfoldable pub create_marker : String → String → Store → Task → Option String → Store × Call
create_marker id agent_id store task none =
    (record store { markers = put store.markers id "" }, created task)
create_marker id agent_id store task (some holder) =
    (store, if holder == agent_id then returned task else refused (held_by holder))

-- The next access of a call, at the time `now`.
unfoldable pub step : String → String → ℕ → Store → Call → Store × Call
unfolding create_marker after_read
step id agent_id now store called = (store, after_read (read_task store id))
step id agent_id now store (checked task) =
    create_marker id agent_id store task (get store.markers id)
step id agent_id now store (created task) =
    (record store { markers = put store.markers id agent_id }, written task)
step id agent_id now store (written task) =
    let task' = claimed_task agent_id now task in
    (record store { records = put store.records id (some task') }, returned task')
step id agent_id now store (returned task) = (store, returned task)
step id agent_id now store (refused e) = (store, refused e)
