-- ===== src/Digest/Events.antt =====
-- digest.py, _collect_tasks.
use mcp_dispatch.Base.{
  ℕ, String, Bool, true, false, ◌==◌, not, ◌&&◌, ◌||◌, Option, none, some, List, [], ◌∷◌, ◌++◌,
  select, elem, leb, if◌then◌else◌,
}
use mcp_dispatch.Base.Sort.{sort_by, sort_with}
use mcp_dispatch.Ident.{durable_nick}
use mcp_dispatch.NotifyPolicy.{channel_of}
use mcp_dispatch.Tasks.{TaskState, open_task, Task, Store}
use mcp_dispatch.Digest.Fields.{in_window, or_unknown}

-- The kinds of a TaskEvent; the source's kind "open" is `still_open`.
pub data EventKind : Type 0 where
  created claimed done still_open : EventKind

pub record TaskEvent : Type 0 where
  pub kind : EventKind
  pub task_id : String
  pub title : String
  pub who : String
  pub at : ℕ
  pub target : Option String
  pub mine : Bool

-- The target by its nick, or the room that it names.
abbrev in_room : Option String → List String → Bool
in_room none channels = false
in_room (some channel) channels = elem channel channels

unfoldable pub is_mine : String → List String → Option String → Bool
is_mine nick channels none = false
is_mine nick channels (some target) =
    not (target == "")
    && (target == nick || durable_nick target == nick || in_room (channel_of target) channels)

-- `str(at or "")`
abbrev time_or_zero : Option ℕ → ℕ
time_or_zero none = 0
time_or_zero (some at) = at

abbrev name_or_unknown : Option String → String
name_or_unknown none = "?"
name_or_unknown (some who) = or_unknown who

unfoldable pub event : String → List String → String → Task → EventKind → ℕ → String → TaskEvent
unfolding is_mine
event nick channels stem task kind at who = record {
  kind = kind;
  task_id = if task.id == "" then stem else task.id;
  title = task.title;
  who = who;
  at = at;
  target = task.target;
  mine = is_mine nick channels task.target;
}

-- The three transitions of a record, in the order of the tuple.
unfoldable pub transitions : String → List String → String → Task → List TaskEvent
unfolding event
transitions nick channels stem task =
    event nick channels stem task created task.created_at (or_unknown task.created_by)
    ∷ event nick channels stem task claimed (time_or_zero task.claimed_at)
        (name_or_unknown task.claimed_by)
    ∷ event nick channels stem task done (time_or_zero task.done_at)
        (name_or_unknown task.claimed_by)
    ∷ []

abbrev is_open : TaskState → Bool
is_open open_task = true
is_open _ = false

-- The entry of an open task that is mine, and nothing of another task.
unfoldable pub open_entry : String → List String → String → Task → List TaskEvent
unfolding event is_mine
open_entry nick channels stem task =
    if is_open task.state && is_mine nick channels task.target
    then event nick channels stem task still_open task.created_at (or_unknown task.created_by) ∷ []
    else []

-- The loop over the records, before the sort: the events in the window, and the open tasks.
unfoldable pub scan_tasks :
    String → List String → ℕ → ℕ → List (String × Option Task) → List TaskEvent × List TaskEvent
unfolding transitions open_entry
scan_tasks nick channels since now [] = ([], [])
scan_tasks nick channels since now ((stem, none) ∷ files) = scan_tasks nick channels since now files
scan_tasks nick channels since now ((stem, some task) ∷ files) =
    let (events, open_mine) = scan_tasks nick channels since now files in
    (
      select (λ (e : TaskEvent). in_window e.at since now) (transitions nick channels stem task)
          ++ events,
      open_entry nick channels stem task ++ open_mine,
    )

-- _collect_tasks
unfoldable pub collect_tasks :
    Store → String → ℕ → ℕ → List String → List TaskEvent × List TaskEvent
unfolding scan_tasks
collect_tasks store nick since now channels =
    let (events, open_mine) =
      scan_tasks nick channels since now
        (sort_by (λ (f : String × Option Task). f.0) store.records) in
    (sort_with (λ (d e : TaskEvent). leb d.at e.at) events, open_mine)
