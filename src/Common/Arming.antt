-- ===== src/Common/Arming.antt =====
-- dispatch_common.py: whether a session holds a message watch, whether it is handling a message,
-- and how often it is told that it holds none. The state directory is the table of its files by
-- path, with the paths as the source makes them; times are whole seconds.
pub mod Nudge
use Prim.Native.String.{◌++◌}
use mcp_dispatch.Base.{
  ℕ, ◌+◌, ◌-◌, String, Bool, true, false, ◌==◌, not, ◌&&◌, Option, none, some, ltb, if◌then◌else◌,
}
use mcp_dispatch.Base.Dict.{Dict, get, put}

-- What a path shows to this process: a file with its modification time and the probe of its lock,
-- or a directory that it may not read.
pub data Entry : Type 0 where
  file : ℕ → Bool → Entry
  unreadable : Entry

-- What a presence record says of the session: its id, and the state directory if it names one.
pub record Record : Type 0 where
  pub agent_id : String
  pub state_dir : Option String

abbrev pub recent : ℕ → ℕ → Option Entry → Bool
recent now interval none = false
recent now interval (some unreadable) = false
recent now interval (some (file mtime locked)) = ltb now (mtime + interval)

abbrev pub stamped : Dict Entry → String → ℕ → Bool → Dict Entry
stamped files path now true = put files path (file now false)
stamped files path now false = files

-- ARM_NUDGE_INTERVAL
abbrev pub arm_nudge_interval : ℕ
arm_nudge_interval = 600

-- `md5_key`, and this process's own state_dir()
module _ (md5_key : String → String) (own_dir : String) where
  abbrev dir_of : Option String → String
  dir_of none = own_dir
  dir_of (some dir) = dir

  unfoldable pub arm_lock : String → Option String → String
  arm_lock agent_id state = dir_of state ++ "/wait-" ++ md5_key agent_id ++ ".lock"

  unfoldable pub wake_record : String → Option String → String
  wake_record agent_id state = dir_of state ++ "/waitwoke-" ++ md5_key agent_id ++ ".json"

  unfoldable pub nudge_stamp : String → Option String → String
  nudge_stamp agent_id state = dir_of state ++ "/armnudge-" ++ md5_key agent_id ++ ".txt"

  abbrev woken : ℕ → ℕ → Option Entry → Bool
  woken now within none = false
  woken now within (some unreadable) = false
  woken now within (some (file mtime locked)) = ltb now (mtime + within)

  -- handling, at the time `now`
  unfoldable pub handling : Dict Entry → ℕ → String → Option String → ℕ → Bool
  unfolding wake_record
  handling files now agent_id state within =
      woken now within (get files (wake_record agent_id state))

  abbrev named_dir : Option String → Option String
  named_dir none = none
  named_dir (some dir) = if dir == "" then none else some dir

  -- handling_for, with HANDLING_WINDOW
  unfoldable pub handling_for : Dict Entry → ℕ → Record → Bool
  unfolding handling
  handling_for files now rec =
      not (rec.agent_id == "") && handling files now rec.agent_id (named_dir rec.state_dir) 900

  abbrev probe : Option Entry → Option Bool
  probe none = some false
  probe (some unreadable) = none
  probe (some (file mtime locked)) = some locked

  -- armed: `none` where it cannot be told
  unfoldable pub armed : Dict Entry → String → Option String → Option Bool
  unfolding arm_lock
  armed files agent_id state = probe (get files (arm_lock agent_id state))

  abbrev armed_by : Dict Entry → String → Bool → Option String → Option Bool
  armed_by files agent_id ours (some dir) = armed files agent_id (some dir)
  armed_by files agent_id ours none = if ours then armed files agent_id none else none

  -- armed_for, with whether the presence file is this account's
  unfoldable pub armed_for : Dict Entry → Record → Bool → Option Bool
  unfolding armed
  armed_for files rec ours =
      if rec.agent_id == ""
      then none
      else armed_by files rec.agent_id ours (named_dir rec.state_dir)

  -- arm_nudge_due, with whether the state directory can be written: the answer, and the files
  -- after the call
  unfoldable pub arm_nudge_due :
      Dict Entry → String → ℕ → Option String → ℕ → Bool → Bool × Dict Entry
  unfolding nudge_stamp
  arm_nudge_due files agent_id interval state now writable =
      let stamp = nudge_stamp agent_id state in
      if recent now interval (get files stamp)
      then (false, files)
      else (true, stamped files stamp now writable)
