-- ===== src/Tasks/Work.antt =====
-- server.py, the other calls on tasks: _create_task, _complete_task and _list_tasks. A call is one
-- step here, which takes the store as it finds it. The ids of the calls are valid.
pub mod Lost
use mcp_dispatch.Base.{
  ℕ, String, Bool, true, false, ◌==◌, not, ◌&&◌, ◌||◌, Option, none, some, List, [], ◌∷◌, leb, ltb,
  if◌then◌else◌,
}
use mcp_dispatch.Base.Dict.{get, put}
use mcp_dispatch.Base.Result.{Result, ok, raise, ◌>>=◌, ◌>>◌, raise_if}
use mcp_dispatch.Base.Sort.{sort_by, sort_with}
use mcp_dispatch.Base.Text.{chars, starts_with, lstrip_by, rstrip_by}
use mcp_dispatch.Tasks.{
  TaskState, open_task, claimed, done, Task, Store, TaskError, held_by, no_title, title_too_long,
  read_task,
}

-- The test of Python's white space.
module _ (is_space : ℕ → Bool) where
  -- _create_task, with the id that is drawn: the record, and the store after the write
  unfoldable pub create_task :
      Store
      → String
      → ℕ
      → String
      → String
      → String
      → Option String
      → Result TaskError (Task × Store)
  create_task store id now creator title detail target =
      let title = lstrip_by is_space (rstrip_by is_space title) in
      let rec : Task = record {
        id = id;
        title = title;
        detail = detail;
        created_by = creator;
        created_at = now;
        state = open_task;
        claimed_by = none;
        claimed_at = none;
        done_at = none;
        target = target;
      } in
      do
        raise_if (title == "") no_title
        raise_if (ltb 200 (chars title)) title_too_long
        ok (rec, record store { records = put store.records id (some rec) })

-- `holder and holder != agent_id`
abbrev pub of_another : String → Option String → Bool
of_another agent_id none = false
of_another agent_id (some holder) = not (holder == "") && not (holder == agent_id)

abbrev holder_or : String → Option String → String
holder_or agent_id none = agent_id
holder_or agent_id (some holder) = if holder == "" then agent_id else holder

abbrev pub done_task : String → ℕ → Task → Task
done_task agent_id now task = record task {
  state = done;
  claimed_by = some (holder_or agent_id task.claimed_by);
  done_at = some now;
}

-- The rest of _complete_task, behind the read.
unfoldable pub complete_read : Store → String → String → ℕ → Task → Result TaskError (Task × Store)
complete_read store id agent_id now task = do
  raise_if (of_another agent_id task.claimed_by) (held_by (holder_or "" task.claimed_by))
  let rec = done_task agent_id now task
  ok (rec, record store { records = put store.records id (some rec) })

-- _complete_task, at the time `now`
unfoldable pub complete_task : Store → String → String → ℕ → Result TaskError (Task × Store)
unfolding complete_read
complete_task store id agent_id now = do
  task ← read_task store id
  complete_read store id agent_id now task

abbrev same_task_state : TaskState → TaskState → Bool
same_task_state open_task open_task = true
same_task_state claimed claimed = true
same_task_state done done = true
same_task_state _ _ = false

abbrev in_state : Option TaskState → TaskState → Bool
in_state none state = true
in_state (some wanted) state = same_task_state state wanted

unfoldable pub tasks_in : Option TaskState → List (String × Option Task) → List Task
tasks_in wanted [] = []
tasks_in wanted ((stem, none) ∷ files) = tasks_in wanted files
tasks_in wanted ((stem, some rec) ∷ files) =
    let rest = tasks_in wanted files in
    if starts_with "task-" stem && in_state wanted rec.state then rec ∷ rest else rest

-- _list_tasks
unfoldable pub list_tasks : Store → Option TaskState → List Task
unfolding tasks_in
list_tasks store wanted =
    sort_with (λ (r s : Task). leb r.created_at s.created_at)
      (tasks_in wanted (sort_by (λ (f : String × Option Task). f.0) store.records))
