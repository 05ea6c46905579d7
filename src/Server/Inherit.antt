-- ===== src/Server/Inherit.antt =====
-- server.py, _inherit_orphan_inbox: the pending mail of dead sessions and of the nick moves into
-- the inbox of a new session. No other process writes the relay during a call. `re.match` with the
-- base of the id, escaped, holds of the names with the same base: a pid has no dash.
pub mod Adopt
pub mod Heir
pub mod Shown
use mcp_dispatch.Base.{
  ℕ, suc, String, Bool, true, false, ◌==◌, not, ◌&&◌, ◌||◌, Option, none, some, List, [], ◌∷◌, ◌++◌,
  select, if◌then◌else◌,
}
use mcp_dispatch.Base.Dict.{Dict, get, put, remove, has}
use mcp_dispatch.Base.Sort.{sort_by}
use mcp_dispatch.Ident.{before_pid}
use mcp_dispatch.Message.{Message, File, unreadable, message, is_pending}
use mcp_dispatch.Relay.{Relay, Inbox}
use mcp_dispatch.Relay.Send.{inbox_or_new}
use mcp_dispatch.Supervisor.Sources.{held}

-- The server's settings that the call reads: a roster was configured, inherit_inbox, group_mode.
pub record Settings : Type 0 where
  pub roster : Bool
  pub inherit_inbox : Bool
  pub group_mode : Bool

-- The group `base` of ^(?P<base>.+)-\d+$
unfoldable pub base_of : String → Option String
base_of id = elim (before_pid id) [
  | none ↦ none
  | some base ↦ if base == "" then none else some base
]

abbrev pub same_base : Option String → String → Bool
same_base none base = false
same_base (some b) base = b == base

-- The tests of the loop over the directories.
unfoldable pub is_donor : Settings → Relay → String → String → String × Inbox → Bool
unfolding base_of
is_donor settings relay agent_id base (name, inbox) =
    not (name == agent_id)
    && (same_base (base_of name) base || name == base)
    && not (has relay.remote name)
    && not (held (get relay.presence name))
    && (inbox.ours || settings.group_mode && inbox.shared)

-- A file to move: the donor, the file's name, its message.
pub record Move : Type 0 where
  pub donor : String
  pub name : String
  pub msg : Message

unfoldable pub moves_from : String → List (String × File) → List Move
moves_from donor [] = []
moves_from donor ((name, unreadable) ∷ files) = moves_from donor files
moves_from donor ((name, message msg) ∷ files) =
    let rest = moves_from donor files in
    if is_pending msg.state then record { donor = donor; name = name; msg = msg } ∷ rest else rest

unfoldable pub moves_of : List (String × Inbox) → List Move
unfolding moves_from
moves_of [] = []
moves_of ((donor, inbox) ∷ donors) =
    moves_from donor (sort_by (λ (f : String × File). f.0) inbox.files) ++ moves_of donors

abbrev pub tagged : String → Message → Message
tagged donor msg = record msg { inherited_from = some donor }

-- The relay, and how many files have moved.
pub record Adopted : Type 0 where
  pub relay : Relay
  pub moved : ℕ

-- os.replace out of the donor's directory, and the write of the tagged message.
unfoldable pub replace_file : Relay → String → Inbox → Move → Relay
replace_file relay agent_id mine move =
    let theirs = inbox_or_new (get relay.inboxes move.donor) in
    record relay {
      inboxes =
          put
            (put relay.inboxes move.donor (record theirs { files = remove theirs.files move.name }))
            agent_id
            (record mine {
              files = put mine.files move.name (message (tagged move.donor move.msg));
            });
    }

-- A move fails where the heir has no directory.
unfoldable pub adopt_one : String → Move → Option Inbox → Adopted → Adopted
unfolding replace_file
adopt_one agent_id move none st = st
adopt_one agent_id move (some mine) st = record {
  relay = replace_file st.relay agent_id mine move;
  moved = suc st.moved;
}

unfoldable pub adopt : String → List Move → Adopted → Adopted
unfolding adopt_one
adopt agent_id [] st = st
adopt agent_id (move ∷ moves) st =
    adopt agent_id moves (adopt_one agent_id move (get st.relay.inboxes agent_id) st)

unfoldable pub donors_of : Settings → Relay → String → String → List (String × Inbox)
unfolding is_donor
donors_of settings relay agent_id base =
    select (is_donor settings relay agent_id base)
      (sort_by (λ (d : String × Inbox). d.0) relay.inboxes)

unfoldable pub inherit_by : Settings → Relay → String → Option String → Adopted
unfolding donors_of moves_of adopt
inherit_by settings relay agent_id none = record { relay = relay; moved = 0 }
inherit_by settings relay agent_id (some base) =
    adopt agent_id (moves_of (donors_of settings relay agent_id base))
      (record { relay = relay; moved = 0 })

-- _inherit_orphan_inbox
unfoldable pub inherit_orphan_inbox : Settings → Relay → String → Adopted
unfolding inherit_by
inherit_orphan_inbox settings relay agent_id =
    if settings.roster || not settings.inherit_inbox
    then record { relay = relay; moved = 0 }
    else inherit_by settings relay agent_id (base_of agent_id)
