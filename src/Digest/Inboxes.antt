-- ===== src/Digest/Inboxes.antt =====
-- digest.py, _nick_inboxes and _collect_mail.
use Prim.Native.String.{compare}
use text.Mathlib.Text.{is_le}
use mcp_dispatch.Base.{
  ℕ, suc, String, Bool, ◌==◌, ◌&&◌, ◌||◌, Option, none, some, List, [], ◌∷◌, map, select, ltb, eqb,
  if◌then◌else◌,
}
use mcp_dispatch.Base.Dict.{Dict, get, put}
use mcp_dispatch.Base.Sort.{sort_by, sort_with}
use mcp_dispatch.Ident.{durable_nick}
use mcp_dispatch.Message.{Message}
use mcp_dispatch.Relay.{Relay, Inbox, iter_pending}
use mcp_dispatch.Digest.Fields.{or_unknown}

pub record MailItem : Type 0 where
  pub sender : String
  pub count : ℕ
  pub urgent : ℕ
  pub must_read : ℕ
  pub newest : ℕ

abbrev pub is_nick_inbox : String → String × Inbox → Bool
is_nick_inbox nick (name, inbox) = name == nick || durable_nick name == nick

-- _nick_inboxes
unfoldable pub nick_inboxes : Relay → String → List (String × Inbox)
nick_inboxes relay nick =
    select (is_nick_inbox nick) (sort_by (λ (d : String × Inbox). d.0) relay.inboxes)

-- The sender under which a message is counted.
abbrev pub sender_of : Message → String
sender_of msg = or_unknown msg.from

abbrev pub item_or_new : String → Option MailItem → MailItem
item_or_new sender none = record {
  sender = sender;
  count = 0;
  urgent = 0;
  must_read = 0;
  newest = 0;
}
item_or_new sender (some item) = item

unfoldable pub count_in : Message → MailItem → MailItem
count_in msg item = record {
  sender = item.sender;
  count = suc item.count;
  urgent = if msg.priority == "urgent" then suc item.urgent else item.urgent;
  must_read = if msg.must_read then suc item.must_read else item.must_read;
  newest = if ltb item.newest msg.timestamp then msg.timestamp else item.newest;
}

-- The inner loop, over the messages of one inbox.
unfoldable pub tally : List Message → Dict MailItem → Dict MailItem
unfolding count_in
tally [] by_sender = by_sender
tally (msg ∷ msgs) by_sender =
    let sender = sender_of msg in
    tally msgs (put by_sender sender (count_in msg (item_or_new sender (get by_sender sender))))

unfoldable pub tally_all : ℕ → List (String × Inbox) → Dict MailItem → Dict MailItem
unfolding tally
tally_all time [] by_sender = by_sender
tally_all time ((name, inbox) ∷ dirs) by_sender =
    tally_all time dirs (tally (iter_pending time (some inbox)) by_sender)

-- `(-m.urgent, -m.count, m.sender)` of the one is at most that of the other.
unfoldable pub mail_le : MailItem → MailItem → Bool
mail_le m n =
    ltb n.urgent m.urgent
    || eqb n.urgent m.urgent
      && (ltb n.count m.count || eqb n.count m.count && is_le (compare m.sender n.sender))

-- _collect_mail, at the wall clock time `time`
unfoldable pub collect_mail : ℕ → Relay → String → List MailItem
unfolding nick_inboxes tally_all mail_le
collect_mail time relay nick =
    sort_with mail_le
      (map (λ (e : String × MailItem). e.1) (tally_all time (nick_inboxes relay nick) []))
