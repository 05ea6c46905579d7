-- ===== src/Server/Claim.antt =====
-- server.py, the claim of an agent id: the accesses of _claim_id with _try_lock_presence, of
-- _reap_dead_presence and of _release_id to the files below .presence, since the processes of a host
-- run them in any order. A file is its inode: a name leads to one, and an flock is on one. What is
-- in the file, and what a claim does to the inbox and the registry, is not in this state.
pub mod Locks
pub mod Holders
use mcp_dispatch.Base.{
  ℕ, suc, String, Bool, true, false, ◌==◌, not, ◌&&◌, Option, none, some, List, [], ◌∷◌, elem, eqb,
  if◌then◌else◌,
}
use mcp_dispatch.Base.Dict.{Dict, get, put, remove}
use mcp_dispatch.Base.Result.{Result, ok, raise}
use mcp_dispatch.Ident.{is_id}

-- The inode of each name, the process that has the flock on an inode, and the next inode.
pub record Directory : Type 0 where
  pub names : Dict ℕ
  pub locks : ℕ → Option ℕ
  pub next : ℕ

pub data ClaimError : Type 0 where
  bad_id not_in_roster held_by_other no_id all_claimed : ClaimError

-- MCP_DISPATCH_AGENT_ID, stripped and in lower case, and the roster of the configuration.
pub record Start : Type 0 where
  pub explicit : String
  pub agent_ids : List String

-- How far a process has come: the ids that are left to try and the error where there is none, an id
-- whose file is open, the id that it holds; the same in _reap_dead_presence, where a file is open,
-- locked, or unlinked and still locked.
pub data Phase : Type 0 where
  idle : Phase
  claiming : List String → ClaimError → Phase
  opened : String → ℕ → List String → ClaimError → Phase
  holding : String → ℕ → Phase
  refused : ClaimError → Phase
  looking sweeping : String → ℕ → Phase
  swept : ℕ → Phase

abbrev pub has_roster : List String → Bool
has_roster [] = false
has_roster (id ∷ ids) = true

-- _claim_id before its first access. Dynamic mode is the one with no roster.
unfoldable pub begin_claim : Start → Phase
begin_claim start =
    if not (start.explicit == "")
    then (if not (is_id start.explicit)
        then refused bad_id
        else if has_roster start.agent_ids && not (elem start.explicit start.agent_ids)
        then refused not_in_roster
        else claiming (start.explicit ∷ []) held_by_other)
    else if not (has_roster start.agent_ids)
    then refused no_id
    else claiming start.agent_ids all_claimed

abbrev pub create : String → Directory → Directory
create id dir = record dir { names = put dir.names id dir.next; next = suc dir.next }

-- open(pf, "a+"), which makes a file where there is none
unfoldable pub open_file :
    String → List String → ClaimError → Directory → Option ℕ → Directory × Phase
open_file id ids e dir (some inode) = (dir, opened id inode ids e)
open_file id ids e dir none = (create id dir, opened id dir.next ids e)

abbrev pub lock : ℕ → ℕ → Directory → Directory
lock p inode dir = record dir { locks = λ i. if eqb inode i then some p else dir.locks i }

-- flock with LOCK_EX | LOCK_NB, and the two ways on from it
unfoldable pub try_lock : ℕ → ℕ → Directory → Option ℕ → Phase → Phase → Directory × Phase
try_lock p inode dir none won lost = (lock p inode dir, won)
try_lock p inode dir (some q) won lost = (dir, lost)

abbrev pub without : ℕ → Option ℕ → Option ℕ
without p none = none
without p (some q) = if eqb p q then none else some q

-- The locks of a process go with its file, by LOCK_UN, close or the end of the process.
abbrev pub unlock : ℕ → Directory → Directory
unlock p dir = record dir { locks = λ i. without p (dir.locks i) }

abbrev pub unlink : String → Directory → Directory
unlink id dir = record dir { names = remove dir.names id }

-- The next access of a process.
unfoldable pub advance : ℕ → Directory → Phase → Directory × Phase
unfolding open_file try_lock
advance p dir idle = (dir, idle)
advance p dir (claiming [] e) = (dir, refused e)
advance p dir (claiming (id ∷ ids) e) = open_file id ids e dir (get dir.names id)
advance p dir (opened id inode ids e) =
    try_lock p inode dir (dir.locks inode) (holding id inode) (claiming ids e)
advance p dir (holding id inode) = (dir, holding id inode)
advance p dir (refused e) = (dir, refused e)
advance p dir (looking id inode) = try_lock p inode dir (dir.locks inode) (sweeping id inode) idle
advance p dir (sweeping id inode) = (unlink id dir, swept inode)
advance p dir (swept inode) = (unlock p dir, idle)

-- _reap_dead_presence opens the file of a name, where it is there.
unfoldable pub look : String → Option ℕ → Phase
look id none = idle
look id (some inode) = looking id inode

pub record Host : Type 0 where
  pub dir : Directory
  pub phase : ℕ → Phase

-- A process begins a claim or looks at a file, if it is idle, makes its next access, or ends: by
-- _release_id, or by its death at any point.
pub data Event : Type 0 where
  starts : ℕ → Start → Event
  looks : ℕ → String → Event
  goes_on ends : ℕ → Event

abbrev pub if_idle : Phase → Phase → Phase
if_idle idle next = next
if_idle phase next = phase

unfoldable pub set_phase : ℕ → Host → Directory × Phase → Host
set_phase p host (dir, next) = record {
  dir = dir;
  phase = λ q. if eqb p q then next else host.phase q;
}

unfoldable pub happen : Event → Host → Host
unfolding begin_claim advance look set_phase
happen (starts p start) host =
    set_phase p host (host.dir, if_idle (host.phase p) (begin_claim start))
happen (looks p id) host =
    set_phase p host (host.dir, if_idle (host.phase p) (look id (get host.dir.names id)))
happen (goes_on p) host = set_phase p host (advance p host.dir (host.phase p))
happen (ends p) host = set_phase p host (unlock p host.dir, idle)
