-- ===== src/Tests/BridgeRuns.antt =====
-- The bridge on a small relay: an inbox of a remote agent with two messages for it.
use mcp_dispatch.Base.{
  List, inl, inr, eqb, if◌then◌else◌, ◌+◌, ℕ, ◌==◌, String, true, false, Option, none, some, [],
  ◌∷◌, length, is_some, ◌≡◌, refl, arith,
}
use mcp_dispatch.Base.Dict.{get, put, has}
use mcp_dispatch.Base.Sort.{sort_by}
use mcp_dispatch.Ident.{is_id}
use mcp_dispatch.Message.{
  Message, pending, message, is_bridged, is_tombstone, envelope_to_msg, msg_to_publish_kwargs,
}
use mcp_dispatch.Relay.{Relay, Inbox, live_agents}
use mcp_dispatch.Relay.Send.{write_message, message_filename}
use mcp_dispatch.Transport.{object, Envelope, Repo, my_lane, append_line}
use mcp_dispatch.Transport.Publish.{is_wire_id, publish}
use mcp_dispatch.Bridge.{Bridge, Route, local_messages, route, new_bridge, sending, outbound}
use mcp_dispatch.Bridge.Account.{Settled}
use mcp_dispatch.Bridge.Covered.{covered}
use mcp_dispatch.Bridge.Outbound.{outbound-twice}
use mcp_dispatch.Bridge.Backlog.{new_bridge-backlog}
use mcp_dispatch.Bridge.Inbound.{recipients, inbox_ids, inbound}
use mcp_dispatch.Bridge.Inbound.Files.{count_files}
use mcp_dispatch.Bridge.Inbound.Replay.{inbound-replay}
use mcp_dispatch.Bridge.Tick.{Host, Moment, fetch_due, tick}
use mcp_dispatch.Bridge.Tick.Pacing.{ticks, ticks-fetch_due}
use mcp_dispatch.Transport.{all_lane_files}
use mcp_dispatch.Transport.Drain.{drain}
use mcp_dispatch.Bridge.{conclude}
use mcp_dispatch.Bridge.Stuck.{outbound-stuck}

abbrev note : String → Option String → Message
note id thread_id = record {
  id = id;
  from = "amy-7";
  to = "zed-9";
  timestamp = 100;
  priority = "normal";
  content = "ping";
  payload = none;
  thread_id = thread_id;
  reply_to = none;
  ttl = none;
  must_read = false;
  state = pending;
  read_at = none;
  expired_at = none;
  kind = none;
  about = none;
  via = none;
  inherited_from = none;
}

abbrev relay_with : Option String → Relay
relay_with thread_id = record {
  inboxes =
      (
        "zed-9",
        record {
          files =
              ("1-amy-7-a.json", message (note "msg-1" thread_id))
              ∷ ("2-amy-7-b.json", message (note "msg-2" none))
              ∷ [];
          ours = true;
          shared = false;
        },
      )
      ∷ [];
  presence = [];
  agents = [];
  remote = [];
}

abbrev empty_clone : Repo
empty_clone = record { lanes = []; channels = [] }

abbrev bridge : Bridge
bridge = record { mirror_all = false; repo = empty_clone; ledger = []; saved = some [] }

abbrev uuids : ℕ → String
uuids i = "0123456789ab"

quiet : is_some (sending 200 uuids (relay_with none) bridge).raised ≡ false
unfolding sending local_messages sort_by publish is_wire_id is_id my_lane append_line get put
    live_agents msg_to_publish_kwargs
quiet = refl

two_lines : length (my_lane (outbound 200 uuids (relay_with none) bridge).repo "amy-7" none) ≡ 2
unfolding outbound local_messages sort_by publish is_wire_id is_id my_lane append_line get put
    live_agents msg_to_publish_kwargs
two_lines = refl

outbound-twice_example :
    ((owner name : String) (inbox : Inbox) (msg : Message)
      → get (relay_with none).inboxes owner ≡ some inbox
      → get inbox.files name ≡ some (message msg)
      → is_bridged msg.via ≡ false
      → is_tombstone msg.state ≡ false
      → msg.id == "" ≡ false
      → has (outbound 200 uuids (relay_with none) bridge).ledger msg.id ≡ true)
    × ((id : String)
        → has (outbound 200 uuids (relay_with none) bridge).ledger id ≡ true
        → has bridge.ledger id ≡ false
        → Settled bridge.mirror_all
            (live_agents (relay_with none))
            (local_messages (relay_with none))
            (outbound 200 uuids (relay_with none) bridge).repo
            id)
    × (outbound 300 uuids (relay_with none) (outbound 200 uuids (relay_with none) bridge)
        ≡ outbound 200 uuids (relay_with none) bridge)
outbound-twice_example = outbound-twice 200 300 uuids uuids (relay_with none) bridge tt quiet

new_bridge-backlog_example :
    outbound 300 uuids (relay_with none) (new_bridge false 200 (relay_with none) empty_clone none)
    ≡ new_bridge false 200 (relay_with none) empty_clone none
new_bridge-backlog_example = new_bridge-backlog false 200 300 uuids (relay_with none) empty_clone

abbrev broken : Option String
broken = some "two\nlines"

abbrev way : Route
way = record { to = some "zed-9"; chan = none }

scanned : local_messages (relay_with broken) ≡ note "msg-1" broken ∷ note "msg-2" none ∷ []
unfolding local_messages sort_by
scanned = refl

routed : route false (live_agents (relay_with broken)) (note "msg-1" broken) ≡ some way
unfolding route live_agents sort_by is_id
routed = refl

unseen : covered [] (note "msg-1" broken) ≡ false
unfolding get
unseen = refl

outbound-stuck_example :
    (is_some (sending 200 uuids (relay_with broken) bridge).raised ≡ true)
    × (outbound 200 uuids (relay_with broken) bridge ≡ bridge)
outbound-stuck_example =
    outbound-stuck 200 uuids (relay_with broken) bridge [] (note "msg-2" none ∷ [])
      (note "msg-1" broken) way scanned tt unseen routed refl

abbrev record_of : Message → Envelope
record_of msg = record {
  type = "message";
  from = "amy-7";
  body = object msg;
  to = some "zed-9";
  chan = none;
  key = none;
  id = "rec-0";
  ts = 5;
  seq = 0;
  ttl = none;
}

abbrev stamps : ℕ → String × String
stamps i = (if eqb i 0 then "300" else "301", "deadbeef")

abbrev drained : List Envelope
drained = record_of (note "msg-1" none) ∷ record_of (note "msg-2" none) ∷ []

abbrev empty_relay : Relay
empty_relay = record { inboxes = []; presence = []; agents = []; remote = [] }

two_land : (inbound stamps empty_relay drained).materialized ≡ 2
unfolding inbound recipients inbox_ids is_id get put
two_land = refl

own_names :
    count_files (inbound stamps empty_relay drained).relay
    ≡ count_files empty_relay + (inbound stamps empty_relay drained).materialized
unfolding inbound recipients inbox_ids is_id get put write_message message_filename envelope_to_msg
own_names = refl

-- Both records come again, the second one first, and the first one twice.
abbrev again : List Envelope
again = record_of (note "msg-2" none) ∷ record_of (note "msg-1" none) ∷ drained

inbound-replay_example :
    ((inbound stamps (inbound stamps empty_relay drained).relay again).relay
      ≡ (inbound stamps empty_relay drained).relay)
    × ((inbound stamps (inbound stamps empty_relay drained).relay again).materialized ≡ 0)
inbound-replay_example =
    inbound-replay stamps stamps empty_relay drained again (refl, (refl, tt)) own_names
      (inr (inl refl), (inl refl, (inl refl, (inr (inl refl), tt))))

abbrev host : Host
host = record {
  relay = empty_relay;
  bridge = bridge;
  reader = record { agent_id = "_gitsync"; subs = []; consumed = []; saved = [] };
  pace = record { poll_interval = 2; max_fetch_interval = 15; fetch_every = 2; next_fetch = 0 };
}

abbrev moment : ℕ → Moment
moment now = record {
  wall = 200;
  now = now;
  later = now;
  uuids = uuids;
  stamps = stamps;
  push_raises = false;
  fetch = λ repo. repo;
}

-- A quiet bus: fetches at 10 and 14, and none at 15.
paced : (ticks (moment 10 ∷ moment 14 ∷ moment 15 ∷ []) host).pace.next_fetch ≡ 22
unfolding tick sending conclude local_messages drain inbound all_lane_files sort_by
paced = refl

ticks-fetch_due_example :
    fetch_due 30 (ticks (moment 10 ∷ moment 14 ∷ moment 15 ∷ []) host).pace ≡ true
ticks-fetch_due_example =
    ticks-fetch_due 10 30 (moment 10 ∷ moment 14 ∷ moment 15 ∷ []) host refl
      (omega arith, (omega arith, (omega arith, tt))) (omega arith)
