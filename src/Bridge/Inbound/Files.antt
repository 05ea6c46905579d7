-- ===== src/Bridge/Inbound/Files.antt =====
-- git_bridge.py, GitBridge._materialize and the files of an inbox: how many a write adds, and the ids
-- that are then in them.
use mcp_dispatch.Base.{
  ℕ, suc, ◌+◌, ◌≤◌, String, false, ◌==◌, ◌||◌, none, some, [], ◌∷◌, elem, length, sum_by, Option,
  Bool-cases, Option-cases, if◌then◌else◌, inl, inr, ◌≡◌, refl, ap, ◌∙◌, arith, eq_refl,
}
use mcp_dispatch.Base.Dict.{Dict, get, put, get-put}
use mcp_dispatch.Ident.{is_id}
use mcp_dispatch.Message.{Message, File, unreadable, message, envelope_to_msg}
use mcp_dispatch.Relay.{Relay, Inbox}
use mcp_dispatch.Relay.Send.{inbox_or_new, message_filename, write_message}
use mcp_dispatch.Bridge.Inbound.{ids_in, ids_of, inbox_ids, materialize}

-- How many files the inboxes hold.
abbrev pub count_files : Relay → ℕ
count_files relay = sum_by (λ (d : String × Inbox). length d.1.files) relay.inboxes

abbrev files_of : Option Inbox → ℕ
files_of none = 0
files_of (some inbox) = length inbox.files

count-put :
    (inboxes : Dict Inbox) (owner : String) (inbox : Inbox)
    → sum_by (λ (d : String × Inbox). length d.1.files) (put inboxes owner inbox)
        + files_of (get inboxes owner)
      ≡ sum_by (λ (d : String × Inbox). length d.1.files) inboxes + length inbox.files
unfolding get put
count-put [] owner inbox = omega arith
count-put ((j, other) ∷ inboxes) owner inbox = elim (Bool-cases (j == owner)) [
  | inl t ↦ rw t (omega arith)
  | inr f ↦ rw f (omega (arith, count-put inboxes owner inbox))
]

length-put :
    (files : Dict File) (name : String) (file : File)
    → length (put files name file)
      ≡ (elim (get files name) [ none ↦ suc (length files) | some old ↦ length files ])
unfolding get put
length-put [] name file = refl
length-put ((j, old) ∷ files) name file = elim (Bool-cases (j == name)) [
  | inl t ↦ rw t refl
  | inr f ↦
      rw (f, length-put files name file)
        (elim (get files name)
          as (λ o.
            suc (elim o [ none ↦ suc (length files) | some x ↦ length files ])
            ≡ elim o [ none ↦ suc (suc (length files)) | some x ↦ suc (length files) ]) [
              | none ↦ refl
              | some x ↦ refl
            ])
]

files_of-new : (o : Option Inbox) → length (inbox_or_new o).files ≡ files_of o
files_of-new none = refl
files_of-new (some inbox) = refl

-- A write adds a file, or takes the name of one that is there.
count-write_message :
    (relay : Relay) (rcpt name : String) (msg : Message)
    → count_files (write_message relay rcpt name msg)
      ≡ (elim (get (inbox_or_new (get relay.inboxes rcpt)).files name) [
        | none ↦ suc (count_files relay)
        | some old ↦ count_files relay
      ])
unfolding write_message
count-write_message relay rcpt name msg =
    let box = inbox_or_new (get relay.inboxes rcpt) in
    let written = record box { files = put box.files name (message msg) } in
    let sums = count-put relay.inboxes rcpt written in
    let grown = length-put box.files name (message msg) in
    let before = files_of-new (get relay.inboxes rcpt) in
    elim (Option-cases (get box.files name)) [
      | inl e ↦ rw e (
          let one : length written.files ≡ suc (length box.files) = grown ∙ rw e refl in
          omega (arith, sums, one, before))
      | inr (old, e) ↦ rw e (
          let same : length written.files ≡ length box.files = grown ∙ rw e refl in
          omega (arith, sums, same, before))
    ]

-- A new file's id is in the inbox, with those that were there.
ids_in-put :
    (files : Dict File) (name id : String) (msg : Message)
    → get files name ≡ none
    → msg.id == "" ≡ false
    → elem id (ids_in (put files name (message msg))) ≡ (msg.id == id || elem id (ids_in files))
unfolding get put ids_in
ids_in-put [] name id msg fresh e = rw e refl
ids_in-put ((j, unreadable) ∷ files) name id msg fresh e =
    let other : j == name ≡ false = ground (arith, fresh) in
    rw other (ids_in-put files name id msg (ground (arith, fresh, other)) e)
ids_in-put ((j, message old) ∷ files) name id msg fresh e =
    let other : j == name ≡ false = ground (arith, fresh) in
    rw other (ground (arith, ids_in-put files name id msg (ground (arith, fresh, other)) e))

ids_of_new : (o : Option Inbox) → ids_in (inbox_or_new o).files ≡ ids_of o
unfolding ids_in
ids_of_new none = refl
ids_of_new (some inbox) = refl

pub inbox_ids-materialize_own :
    (stamp : String × String) (relay : Relay) (rcpt : String) (body : Message) (id : String)
    → body.id == "" ≡ false
    → count_files (materialize stamp relay rcpt body) ≡ suc (count_files relay)
    → elem id (inbox_ids (materialize stamp relay rcpt body) rcpt)
      ≡ (body.id == id || elem id (inbox_ids relay rcpt))
unfolding materialize inbox_ids write_message envelope_to_msg
inbox_ids-materialize_own stamp relay rcpt body id e grown =
    let msg = envelope_to_msg body in
    let name = message_filename stamp (if is_id msg.from then msg.from else "unknown") in
    let box = inbox_or_new (get relay.inboxes rcpt) in
    let counted = count-write_message relay rcpt name msg in
    elim (Option-cases (get box.files name)) [
      | inr (old, f) ↦
          let same : count_files (write_message relay rcpt name msg) ≡ count_files relay =
            counted ∙ rw f refl in
          absurd (omega (arith, grown, same))
      | inl f ↦
          let there = ids_in-put box.files name id msg f e in
          rw (get-put, eq_refl rcpt)
            (there ∙ ap (λ ids. body.id == id || elem id ids) (ids_of_new (get relay.inboxes rcpt)))
    ]

pub count-materialize :
    (stamp : String × String) (relay : Relay) (rcpt : String) (body : Message)
    → count_files (materialize stamp relay rcpt body) ≤ suc (count_files relay)
unfolding materialize
count-materialize stamp relay rcpt body =
    let msg = envelope_to_msg body in
    let name = message_filename stamp (if is_id msg.from then msg.from else "unknown") in
    let counted = count-write_message relay rcpt name msg in
    elim (Option-cases (get (inbox_or_new (get relay.inboxes rcpt)).files name)) [
      | inl f ↦
          let one : count_files (write_message relay rcpt name msg) ≡ suc (count_files relay) =
            counted ∙ rw f refl in
          omega (arith, one)
      | inr (old, f) ↦
          let same : count_files (write_message relay rcpt name msg) ≡ count_files relay =
            counted ∙ rw f refl in
          omega (arith, same)
    ]
