-- ===== src/Tests/ServerRuns.antt =====
-- An inbox over a week, and a session that is heir to a dead one.
use mcp_dispatch.Base.{
  String, Bool, true, false, ◌==◌, none, some, [], ◌∷◌, any, ◌⊎◌, ◌≡◌, refl, arith,
}
use mcp_dispatch.Base.Dict.{Dict, get, Distinct}
use mcp_dispatch.Base.Sort.{sort_by}
use mcp_dispatch.Ident.{before_pid, durable_nick}
use mcp_dispatch.Message.{
  Message, pending, read, File, unreadable, message, is_tombstone, is_expired,
}
use mcp_dispatch.Relay.{Relay, Inbox}
use mcp_dispatch.Supervisor.Sources.{is_source}
use mcp_dispatch.Server.Inbox.{Entry, with_pending}
use mcp_dispatch.Server.Inbox.Retire.{cleanups, cleanups-unread}
use mcp_dispatch.Server.Inbox.Once.{with_pending-once}
use mcp_dispatch.Server.Inbox.Deliver.{with_pending-delivers}
use mcp_dispatch.Server.Inherit.{
  Settings, base_of, is_donor, inherit_orphan_inbox, moves_of, moves_from, donors_of,
}
use mcp_dispatch.Server.Inherit.Shown.{inherit-shown}
use mcp_dispatch.Tests.RelayRuns.{nothing_sent}

abbrev letter : Message
letter = record nothing_sent.msg {
  id = "msg-2";
  to = "bob-3";
  timestamp = 1_700;
  ttl = some 60;
  state = pending;
}

abbrev seen : Message
seen = record letter { id = "msg-1"; state = read; read_at = some 1_710 }

abbrev files : Dict File
files = ("2.json", message letter) ∷ ("1.json", message seen) ∷ ("0.json", unreadable) ∷ []

abbrev names_differ : Distinct files
names_differ = (refl, (refl, (refl, tt)))

cleanups-unread_example :
    (m : Message) × (get (cleanups (1_750 ∷ 1_800 ∷ 600_000 ∷ []) files) "2.json"
      ≡ some (message m))
    × (m.id ≡ "msg-2")
    × (m.from ≡ letter.from)
    × ((m ≡ letter) ⊎ (is_tombstone m.state ≡ true))
cleanups-unread_example =
    cleanups-unread 1_750 (1_750 ∷ 1_800 ∷ 600_000 ∷ []) files "2.json" letter
      ((omega arith, omega arith), ((omega arith, omega arith), ((omega arith, omega arith), tt)))
      names_differ refl (unfold get in refl)

with_pending-once_example : (with_pending 1_900 (with_pending 1_720 files).files).dispatches ≡ []
with_pending-once_example = with_pending-once 1_720 1_900 files names_differ

asks_for : String → Entry → Bool
asks_for id e = e.1.id == id

with_pending-delivers_example :
    (any (asks_for "msg-2") (with_pending 1_720 files).dispatches ≡ true)
    × (get (with_pending 1_720 files).files "2.json"
        ≡ some (message (record letter { state = read; read_at = some 1_720 })))
with_pending-delivers_example =
    with_pending-delivers 1_720 files "2.json" letter (asks_for "msg-2") names_differ
      (unfold get in refl) refl (unfold is_expired in refl) (unfold asks_for in refl)

abbrev settings : Settings
settings = record { roster = false; inherit_inbox = true; group_mode = false }

abbrev spool : Dict File → Inbox
spool fs = record { files = fs; ours = true; shared = false }

-- bob-3 is dead, bob-5 is a session of another host, bob-12 is new, and mail waits for bob.
abbrev pub relay : Relay
relay = record {
  inboxes =
      ("bob-3", spool files)
      ∷ ("bob", spool (("7.json", message (record letter { id = "msg-7"; to = "bob" })) ∷ []))
      ∷ ("bob-5", spool (("5.json", message letter) ∷ []))
      ∷ ("bob-12", spool [])
      ∷ [];
  presence = ("bob-3", record { locked = false; content = none }) ∷ [];
  agents = [];
  remote = ("bob-5", tt) ∷ [];
}

inherits : base_of "bob-12" ≡ some "bob"
unfolding base_of before_pid
inherits = refl

abbrev remote_spool : Inbox
remote_spool = spool (("5.json", message letter) ∷ [])

inherit-shown_example :
    (after : Inbox) × (get (inherit_orphan_inbox settings relay "bob-12").relay.inboxes "bob-12"
      ≡ some after)
    × (any (asks_for "msg-2") (with_pending 1_720 after.files).dispatches ≡ true)
unfolding base_of before_pid donors_of moves_of is_donor get sort_by moves_from is_source
    durable_nick is_expired asks_for
inherit-shown_example =
    inherit-shown settings relay "bob-12" "bob" (spool []) "bob-3" "2.json" (spool files) letter
      1_720 (asks_for "msg-2") (refl, refl, inherits) refl tt ((refl, tt), (tt, tt)) refl refl refl
      refl refl refl refl refl refl
