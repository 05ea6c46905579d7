-- ===== src/Bridge.antt =====
-- git_bridge.py, the outbound half of GitBridge: the scan of the local inboxes, the ledger, its
-- seeding on the first run, and the pass that publishes. The clock stands still during a pass.
-- What a push does is outside: it changes neither the clone's lanes nor the ledger.
pub mod Roster
pub mod Scan
pub mod Account
pub mod Covered
pub mod Outbound
pub mod Backlog
pub mod Stuck
pub mod Inbound
pub mod Tick
use mcp_dispatch.Base.{
  ℕ, suc, ◌-◌, ◌+◌, String, Bool, true, false, ◌==◌, not, ◌&&◌, ◌||◌, Option, none, some, List, [],
  ◌∷◌, ◌++◌, select, elem, leb, eqb, if◌then◌else◌, is_some,
}
use mcp_dispatch.Base.Dict.{Dict, get, put, has}
use mcp_dispatch.Base.Result.{Result, ok, raise, ◌>>=◌}
use mcp_dispatch.Base.Sort.{sort_by}
use mcp_dispatch.Ident.{is_id}
use mcp_dispatch.Message.{
  Message, File, unreadable, message, is_bridged, is_tombstone, msg_to_publish_kwargs,
}
use mcp_dispatch.NotifyPolicy.{channel_of}
use mcp_dispatch.Relay.{Relay, Inbox, live_agents}
use mcp_dispatch.Transport.{object, Envelope, Repo}
use mcp_dispatch.Transport.Publish.{Post, PublishError, publish}

-- LEDGER_TTL_SECONDS
abbrev pub ledger_ttl : ℕ
ledger_ttl = 1_209_600

-- A GitBridge: its clone, the ledger in memory, and the ledger's file, `none` where there is none.
pub record Bridge : Type 0 where
  pub mirror_all : Bool  -- mirror is "all", else "remote-only"
  pub repo : Repo
  pub ledger : Dict ℕ
  pub saved : Option (Dict ℕ)

-- A message to transmit: not one that came over a bridge, nor a tombstone.
abbrev pub is_local : Message → Bool
is_local msg = not (is_bridged msg.via) && not (is_tombstone msg.state)

unfoldable pub local_files : List (String × File) → List Message
local_files [] = []
local_files ((name, unreadable) ∷ files) = local_files files
local_files ((name, message msg) ∷ files) =
    let rest = local_files files in if is_local msg then msg ∷ rest else rest

unfoldable pub local_inboxes : List (String × Inbox) → List Message
unfolding local_files
local_inboxes [] = []
local_inboxes ((name, inbox) ∷ inboxes) =
    local_files (sort_by (λ (f : String × File). f.0) inbox.files) ++ local_inboxes inboxes

-- GitBridge._local_messages
unfoldable pub local_messages : Relay → List Message
unfolding local_inboxes
local_messages relay = local_inboxes (sort_by (λ (d : String × Inbox). d.0) relay.inboxes)

-- save_ledger and load_ledger drop the entries older than the ledger's time to live.
abbrev pub is_kept : ℕ → String × ℕ → Bool
is_kept now entry = leb (now - ledger_ttl) entry.1

unfoldable pub save_ledger : ℕ → Bridge → Bridge
save_ledger now bridge =
    let pruned = select (is_kept now) bridge.ledger in
    record bridge { ledger = pruned; saved = some pruned }

-- GitBridge._seed_ledger_from_backlog, before its save
unfoldable pub seed : ℕ → List Message → Dict ℕ → Dict ℕ
seed now [] ledger = ledger
seed now (msg ∷ msgs) ledger =
    seed now msgs (if msg.id == "" || has ledger msg.id then ledger else put ledger msg.id now)

-- GitBridge.__init__, from the clone and the ledger's file
unfoldable pub new_bridge : Bool → ℕ → Relay → Repo → Option (Dict ℕ) → Bridge
unfolding seed save_ledger
new_bridge mirror_all now relay repo none = save_ledger now (record {
  mirror_all = mirror_all;
  repo = repo;
  ledger = seed now (local_messages relay) [];
  saved = none;
})
new_bridge mirror_all now relay repo (some saved) = record {
  mirror_all = mirror_all;
  repo = repo;
  ledger = select (is_kept now) saved;
  saved = some saved;
}

-- The route of a message, or `none` for one that _publish_one leaves alone.
pub record Route : Type 0 where
  pub to : Option String
  pub chan : Option String

unfoldable pub route : Bool → List String → Message → Option Route
route mirror_all live_local msg =
    if msg.to == "" || msg.to == "all"
    then none
    else if msg.from == "" || not (is_id msg.from)
    then none
    else elim (channel_of msg.to) [
      | some chan ↦ if is_id chan then some (record { to = none; chan = some chan }) else none
      | none ↦
          if not (is_id msg.to)
          then none
          else if not mirror_all && elem msg.to live_local
          then none
          else some (record { to = some msg.to; chan = none })
    ]

-- The arguments of the publish: msg_to_publish_kwargs and the route.
unfoldable pub post_of : ℕ → String → Message → Route → Post
post_of now uuid12 msg way =
    let kw = msg_to_publish_kwargs msg in
    record {
      body = object kw.body;
      to = way.to;
      chan = way.chan;
      type = kw.type;
      key = kw.key;
      ttl = kw.ttl;
      uuid12 = uuid12;
      now = now;
    }

-- GitBridge._publish_one on a routed message, to the clone after it: `none` for False.
unfoldable pub publish_one :
    ℕ → String → Repo → Message → Option Route → Result PublishError (Option Repo)
unfolding post_of
publish_one now uuid12 repo msg none = ok none
publish_one now uuid12 repo msg (some way) = do
  sent ← publish repo msg.from (post_of now uuid12 msg way)
  ok (some sent.1)

-- The loop of _outbound so far: how many it has published, and what it has raised, if it has.
pub record Sending : Type 0 where
  pub repo : Repo
  pub ledger : Dict ℕ
  pub published : ℕ
  pub raised : Option PublishError

abbrev noted : ℕ → Message → Sending → Dict ℕ
noted now msg st = put st.ledger msg.id now

unfoldable pub sent : ℕ → Message → Sending → Result PublishError (Option Repo) → Sending
sent now msg st (raise e) = record st { raised = some e }
sent now msg st (ok none) = record st { ledger = noted now msg st }
sent now msg st (ok (some repo)) = record st {
  repo = repo;
  ledger = noted now msg st;
  published = suc st.published;
}

-- One round of the loop. After a raise there are no more rounds.
abbrev pub is_done : Sending → Message → Bool
is_done st msg = is_some st.raised || msg.id == "" || has st.ledger msg.id

unfoldable pub consider : Bool → List String → ℕ → (ℕ → String) → Message → Sending → Sending
unfolding sent publish_one route
consider mirror_all live_local now uuids msg st =
    if is_done st msg
    then st
    else sent now msg st
        (publish_one now (uuids st.published) st.repo msg (route mirror_all live_local msg))

unfoldable pub send_all : Bool → List String → ℕ → (ℕ → String) → List Message → Sending → Sending
unfolding consider
send_all mirror_all live_local now uuids [] st = st
send_all mirror_all live_local now uuids (msg ∷ msgs) st =
    send_all mirror_all live_local now uuids msgs (consider mirror_all live_local now uuids msg st)

-- The end of _outbound: the ledger is saved if something was published. A raise keeps what the
-- loop has changed.
unfoldable pub conclude : ℕ → Bridge → Sending → Bridge
unfolding save_ledger
conclude now bridge st =
    let after = record bridge { repo = st.repo; ledger = st.ledger } in
    if is_some st.raised || eqb st.published 0 then after else save_ledger now after

abbrev pub begin : Bridge → Sending
begin bridge = record { repo = bridge.repo; ledger = bridge.ledger; published = 0; raised = none }

-- The loop of a pass over the relay as it is, and GitBridge._outbound
unfoldable pub sending : ℕ → (ℕ → String) → Relay → Bridge → Sending
unfolding send_all
sending now uuids relay bridge =
    send_all bridge.mirror_all (live_agents relay) now uuids (local_messages relay) (begin bridge)

unfoldable pub outbound : ℕ → (ℕ → String) → Relay → Bridge → Bridge
unfolding sending conclude
outbound now uuids relay bridge = conclude now bridge (sending now uuids relay bridge)
