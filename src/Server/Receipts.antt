-- ===== src/Server/Receipts.antt =====
-- server.py, delivery receipts: what a sender is told of the copies of its messages, and the
-- duplicates that are not sent. No access to a file fails, and every message has an id.
pub mod Shown
use mcp_dispatch.Base.{
  ℕ, ◌-◌, String, Bool, true, false, ◌==◌, not, ◌&&◌, Option, none, some, List, [], ◌∷◌, ◌++◌, map,
  length, select, first, rest_of, any, all, elem, leb, eqb, ltb, is_some, if◌then◌else◌,
}
use mcp_dispatch.Base.Dict.{Dict, get}
use mcp_dispatch.Base.Sort.{sort_by, sort_with}
use mcp_dispatch.Base.Text.{take}
use mcp_dispatch.Message.{Message, State, File, unreadable, message, is_pending, is_tombstone}
use mcp_dispatch.Relay.{Relay, Inbox}
use mcp_dispatch.Server.Inbox.{same_state}

pub record Receipt : Type 0 where
  pub id : String
  pub to : String
  pub state : State
  pub read_at : Option ℕ
  pub sent_at : ℕ
  pub preview : String
  pub expired_at : Option ℕ

-- _discover_agents
unfoldable pub discover_agents : List String → Relay → List String
discover_agents [] relay =
    map (λ (d : String × Inbox). d.0) (sort_by (λ (d : String × Inbox). d.0) relay.inboxes)
discover_agents (id ∷ ids) relay = id ∷ ids

unfoldable pub receipt_of : String → Message → Receipt
receipt_of to msg = record {
  id = msg.id;
  to = to;
  state = msg.state;
  read_at = msg.read_at;
  sent_at = msg.timestamp;
  preview = take 60 msg.content;
  expired_at = if is_tombstone msg.state then msg.expired_at else none;
}

-- The loop over the files of one inbox.
unfoldable pub receipts_in : String → String → List (String × File) → List Receipt
unfolding receipt_of
receipts_in agent_id to [] = []
receipts_in agent_id to ((name, unreadable) ∷ files) = receipts_in agent_id to files
receipts_in agent_id to ((name, message msg) ∷ files) =
    let rest = receipts_in agent_id to files in
    if msg.from == agent_id then receipt_of to msg ∷ rest else rest

abbrev files_of : Option Inbox → List (String × File)
files_of none = []
files_of (some inbox) = inbox.files

unfoldable pub receipts_from : Relay → String → List String → List Receipt
unfolding receipts_in
receipts_from relay agent_id [] = []
receipts_from relay agent_id (agent ∷ agents) =
    let rest = receipts_from relay agent_id agents in
    if agent == agent_id
    then rest
    else receipts_in agent_id agent (files_of (get relay.inboxes agent)) ++ rest

-- _get_sent_receipts, with the configured roster
unfoldable pub get_sent_receipts : List String → Relay → String → List Receipt
unfolding discover_agents receipts_from
get_sent_receipts roster relay agent_id =
    receipts_from relay agent_id (discover_agents roster relay)

-- _REPORTED_RECEIPTS, by the id and the recipient
abbrev pub Reported : Type 0
Reported = String → String → Option State

abbrev state_is : Option State → State → Bool
state_is none state = false
state_is (some s) state = same_state s state

abbrev pub is_fresh : Reported → Receipt → Bool
is_fresh reported r = not (state_is (reported r.id r.to) r.state)

-- The receipts that changed, newest first.
unfoldable pub fresh_receipts : Reported → List Receipt → List Receipt
fresh_receipts reported receipts =
    sort_with (λ (r s : Receipt). leb s.sent_at r.sent_at) (select (is_fresh reported) receipts)

abbrev shown_of : Option ℕ → List Receipt → List Receipt
shown_of none fresh = fresh
shown_of (some limit) fresh = first limit fresh

abbrev pub is_key : String → String → Receipt → Bool
is_key id to r = r.id == id && r.to == to

-- The dictionary comprehension over the receipts that are not held back: a later one of a key
-- replaces an earlier one.
unfoldable pub seen_of : List Receipt → List Receipt → Reported
seen_of held [] id to = none
seen_of held (r ∷ rs) id to =
    let later = seen_of held rs id to in
    if is_some later
    then later
    else if is_key id to r && not (any (is_key id to) held)
    then some r.state
    else none

-- What a call returns, and _REPORTED_RECEIPTS after it.
pub record News : Type 0 where
  pub shown : List Receipt
  pub older : ℕ
  pub reported : Reported

-- _new_receipts
unfoldable pub new_receipts : Reported → List Receipt → Option ℕ → News
unfolding fresh_receipts seen_of
new_receipts reported receipts limit =
    let fresh = fresh_receipts reported receipts in
    let shown = shown_of limit fresh in
    let held = rest_of (length shown) fresh in
    record {
      shown = shown;
      older = length fresh - length shown;
      reported =
          λ id to. if any (is_key id to) held then reported id to else seen_of held receipts id to;
    }

-- _receipt_fields, where an absent field is 0 or an empty list
pub record ReceiptFields : Type 0 where
  pub receipts_unchanged : ℕ
  pub receipts_older : ℕ
  pub sent_receipts : List Receipt
  pub expired_unread : List String

-- _expired_fields
unfoldable pub expired_ids : List Receipt → List String
expired_ids receipts =
    map (λ (r : Receipt). r.id) (select (λ (r : Receipt). is_tombstone r.state) receipts)

-- _RECEIPTS_SHOWN
abbrev pub receipts_shown : ℕ
receipts_shown = 10

unfoldable pub receipt_fields : Reported → List Receipt → Bool → ReceiptFields × Reported
unfolding new_receipts expired_ids
receipt_fields reported every true = (
  record {
    receipts_unchanged = 0;
    receipts_older = 0;
    sent_receipts = every;
    expired_unread = expired_ids every;
  },
  (new_receipts reported every none).reported,
)
receipt_fields reported every false =
    let news = new_receipts reported every (some receipts_shown) in
    (
      record {
        receipts_unchanged = length every - length news.shown - news.older;
        receipts_older = news.older;
        sent_receipts = news.shown;
        expired_unread = expired_ids news.shown;
      },
      news.reported,
    )

-- _unread_duplicate, by what _SENT_KEYS has for the key: the id, and how many inboxes were written
unfoldable pub unread_duplicate : Option (String × ℕ) → List Receipt → Option String
unread_duplicate none receipts = none
unread_duplicate (some (earlier, written)) receipts =
    let copies = select (λ (r : Receipt). r.id == earlier) receipts in
    if not (eqb written 0)
      && eqb (length copies) written
      && all (λ (r : Receipt). is_pending r.state) copies
    then some earlier
    else none
