-- ===== src/Digest/Mail.antt =====
-- digest.py, _collect_mail: the counts, against the mail that waits and what the supervisor counts.
use mcp_dispatch.Base.{
  ℕ, ◌+◌, ◌≤◌, String, Bool, true, false, ◌==◌, Option, none, some, List, [], ◌∷◌, map, length,
  select, select-All, sum_by, All, Option-cases, In, In-select, Bool-cases, if◌then◌else◌, inl, inr,
  ◌≡◌, refl, ap, arith, eq_iff, eq_refl,
}
use mcp_dispatch.Base.Dict.{Dict, get, put, get-All, All-put, In-of_get}
use mcp_dispatch.Base.Sort.{sum_by-sort_with, In-sort_by}
use mcp_dispatch.Message.{Message}
use mcp_dispatch.Relay.{Relay, Inbox, iter_pending, count_pending}
use mcp_dispatch.Supervisor.Sources.{
  is_source, own_source, inherit_sources, total_pending, waiting_mail,
}
use mcp_dispatch.Tasks.{Store}
use mcp_dispatch.Digest.{mail_total, build}
use mcp_dispatch.Digest.Inboxes.{
  MailItem, is_nick_inbox, nick_inboxes, sender_of, item_or_new, count_in, tally, tally_all,
  mail_le, collect_mail,
}

-- The count of an item whose sender passes `p`.
abbrev pub weight : (String → Bool) → MailItem → ℕ
weight p item = if p item.sender then item.count else 0

abbrev entry_weight : (String → Bool) → String × MailItem → ℕ
entry_weight p (sender, item) = if p sender then item.count else 0

-- How many of the messages are of such a sender.
abbrev pub from_senders : (String → Bool) → List Message → ℕ
from_senders p msgs = length (select (λ (m : Message). p (sender_of m)) msgs)

abbrev pub pending_from : (String → Bool) → ℕ → List (String × Inbox) → ℕ
pending_from p time = sum_by (λ (d : String × Inbox). from_senders p (iter_pending time (some d.1)))

every_one : {A : Type 0} (xs : List A) → All (λ (x : A). true ≡ true) xs
every_one [] = tt
every_one (x ∷ xs) = (refl, every_one xs)

-- One message more in the table.
tally-one :
    (p : String → Bool) (by_sender : Dict MailItem) (msg : Message) (s : String)
    → sum_by (entry_weight p) (put by_sender s (count_in msg (item_or_new s (get by_sender s))))
      ≡ sum_by (entry_weight p) by_sender + (if p s then 1 else 0)
unfolding get put count_in
tally-one p [] msg s = ground arith
tally-one p ((k, item) ∷ rest) msg s = elim (Bool-cases (k == s)) [
  | inl t ↦ let same : k ≡ s = ground (arith, t, eq_iff k s) in rw t (ground (arith, ap p same))
  | inr f ↦ rw f (omega (arith, tally-one p rest msg s))
]

tally-sum :
    (p : String → Bool) (msgs : List Message) (by_sender : Dict MailItem)
    → sum_by (entry_weight p) (tally msgs by_sender)
      ≡ sum_by (entry_weight p) by_sender + from_senders p msgs
unfolding tally
tally-sum p [] by_sender = omega arith
tally-sum p (msg ∷ msgs) by_sender =
    let s = sender_of msg in
    let next = put by_sender s (count_in msg (item_or_new s (get by_sender s))) in
    ground (arith, tally-sum p msgs next, tally-one p by_sender msg s)

tally_all-sum :
    (p : String → Bool) (time : ℕ) (dirs : List (String × Inbox)) (by_sender : Dict MailItem)
    → sum_by (entry_weight p) (tally_all time dirs by_sender)
      ≡ sum_by (entry_weight p) by_sender + pending_from p time dirs
unfolding tally_all
tally_all-sum p time [] by_sender = omega arith
tally_all-sum p time ((name, inbox) ∷ dirs) by_sender =
    let msgs = iter_pending time (some inbox) in
    omega (arith, tally_all-sum p time dirs (tally msgs by_sender), tally-sum p msgs by_sender)

-- Every item is entered under its sender.
abbrev Keyed : Dict MailItem → Type 0
Keyed = All (λ (e : String × MailItem). e.1.sender ≡ e.0)

item_or_new-sender :
    (s : String) (by_sender : Dict MailItem)
    → Keyed by_sender
    → (item_or_new s (get by_sender s)).sender ≡ s
item_or_new-sender s by_sender h = elim (Option-cases (get by_sender s)) [
  | inl e ↦ rw e refl
  | inr (item, e) ↦
      rw e (get-All (λ (x : String × MailItem). x.1.sender ≡ x.0) by_sender s item h e)
]

tally-Keyed :
    (msgs : List Message) (by_sender : Dict MailItem)
    → Keyed by_sender
    → Keyed (tally msgs by_sender)
unfolding tally count_in
tally-Keyed [] by_sender h = h
tally-Keyed (msg ∷ msgs) by_sender h =
    let s = sender_of msg in
    tally-Keyed msgs _ (
      All-put (λ (e : String × MailItem). e.1.sender ≡ e.0) by_sender s
        (count_in msg (item_or_new s (get by_sender s))) h (item_or_new-sender s by_sender h))

tally_all-Keyed :
    (time : ℕ) (dirs : List (String × Inbox)) (by_sender : Dict MailItem)
    → Keyed by_sender
    → Keyed (tally_all time dirs by_sender)
unfolding tally_all
tally_all-Keyed time [] by_sender h = h
tally_all-Keyed time ((name, inbox) ∷ dirs) by_sender h =
    tally_all-Keyed time dirs _ (tally-Keyed (iter_pending time (some inbox)) by_sender h)

values-sum :
    (p : String → Bool) (by_sender : Dict MailItem)
    → Keyed by_sender
    → sum_by (weight p) (map (λ (e : String × MailItem). e.1) by_sender)
      ≡ sum_by (entry_weight p) by_sender
values-sum p [] h = refl
values-sum p ((k, item) ∷ rest) h = rw h.0 (omega (arith, values-sum p rest h.1))

-- The counts of a digest's mail are exact: of the senders that pass any test `p`, the items count
-- together as many messages as wait, unexpired, in all the inboxes of the nick and its sessions.
pub collect_mail-sum :
    (p : String → Bool) (time : ℕ) (relay : Relay) (nick : String)
    → sum_by (weight p) (collect_mail time relay nick)
      ≡ pending_from p time (nick_inboxes relay nick)
unfolding collect_mail
collect_mail-sum p time relay nick =
    let dirs = nick_inboxes relay nick in
    let by_sender = tally_all time dirs [] in
    omega (
      arith,
      sum_by-sort_with (weight p) mail_le (map (λ (e : String × MailItem). e.1) by_sender),
      values-sum p by_sender (tally_all-Keyed time dirs [] tt),
      tally_all-sum p time dirs [],
    )

total_pending-from :
    (time : ℕ) (dirs : List (String × Inbox))
    → pending_from (λ s. true) time dirs ≡ total_pending time dirs
unfolding total_pending count_pending
total_pending-from time [] = refl
total_pending-from time ((name, inbox) ∷ dirs) = omega (
  arith,
  total_pending-from time dirs,
  ap length (
      select-All (λ (m : Message). true) (iter_pending time (some inbox))
        (every_one (iter_pending time (some inbox)))),
)

total_pending_mono :
    (p q : String × Inbox → Bool) (time : ℕ) (dirs : List (String × Inbox))
    → ((d : String × Inbox) → p d ≡ true → q d ≡ true)
    → total_pending time (select p dirs) ≤ total_pending time (select q dirs)
unfolding total_pending
total_pending_mono p q time [] imp = omega arith
total_pending_mono p q time ((name, inbox) ∷ dirs) imp =
    ground (arith, imp (name, inbox), total_pending_mono p q time dirs imp)

total_pending-In :
    (time : ℕ) (name : String) (inbox : Inbox) (dirs : List (String × Inbox))
    → In (name, inbox) dirs
    → count_pending time (some inbox) ≤ total_pending time dirs
unfolding total_pending
total_pending-In time name inbox [] i = absurd i
total_pending-In time name inbox ((other, inbox') ∷ dirs) (inl e) =
    let same : inbox ≡ inbox' = ap (λ (d : String × Inbox). d.1) e in rw same (omega arith)
total_pending-In time name inbox ((other, inbox') ∷ dirs) (inr i) =
    omega (arith, total_pending-In time name inbox dirs i)

total_pending-own_source :
    (time : ℕ) (relay : Relay) (nick : String) (mine : Option Inbox)
    → get relay.inboxes nick ≡ mine
    → total_pending time (own_source nick mine) ≤ total_pending time (nick_inboxes relay nick)
unfolding total_pending nick_inboxes
total_pending-own_source time relay nick none e = omega arith
total_pending-own_source time relay nick (some inbox) e =
    let listed =
      In-select (is_nick_inbox nick) (nick, inbox) _ (ground (arith, eq_refl nick))
        (In-sort_by (λ (d : String × Inbox). d.0) (nick, inbox) relay.inboxes
          (In-of_get relay.inboxes nick inbox e)) in
    let counted = total_pending-In time nick inbox (nick_inboxes relay nick) listed in
    elim (inbox.ours)
      as (λ b.
        total_pending time (if b then (nick, inbox) ∷ [] else [])
        ≤ total_pending time (nick_inboxes relay nick)) [
          | true ↦ omega (arith, counted)
          | false ↦ omega arith
        ]

sources_in_inboxes :
    (time : ℕ) (relay : Relay) (nick : String) (inherit : Bool)
    → waiting_mail time relay nick inherit ≤ total_pending time (nick_inboxes relay nick)
unfolding waiting_mail inherit_sources nick_inboxes
sources_in_inboxes time relay nick true =
    total_pending_mono (is_source relay nick) (is_nick_inbox nick) time _
      (λ d h. unfold is_source in ground (arith, h))
sources_in_inboxes time relay nick false =
    total_pending-own_source time relay nick (get relay.inboxes nick) refl

-- What woke a session is in its digest: the mail that the supervisor counts for a nick, whether its
-- sessions inherit or not, is at most the mail_total of the nick's digest at that time.
pub waiting_mail-le-mail_total :
    (relay : Relay) (store : Store) (nick : String) (time now : ℕ) (given : Option ℕ)
    (channels : List String) (inherit : Bool)
    → waiting_mail time relay nick inherit
      ≤ mail_total (build relay store nick time now given channels)
unfolding build
waiting_mail-le-mail_total relay store nick time now given channels inherit = omega (
  arith,
  sources_in_inboxes time relay nick inherit,
  total_pending-from time (nick_inboxes relay nick),
  collect_mail-sum (λ s. true) time relay nick,
)
