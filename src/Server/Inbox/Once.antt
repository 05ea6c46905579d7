-- ===== src/Server/Inbox/Once.antt =====
-- server.py, _with_pending: no message is handed to its session twice.
use mcp_dispatch.Base.{
  ℕ, String, true, false, ◌==◌, ◌||◌, Option, none, some, List, [], ◌∷◌, any, All, Bool-cases,
  if◌then◌else◌, inl, inr, ◌≡◌, refl, subst, arith,
}
use mcp_dispatch.Base.Dict.{Dict, get, put, Distinct, get-put, All-of_get, Distinct-put}
use mcp_dispatch.Base.Sort.{sort_by, any-sort_by, All-sort_by}
use mcp_dispatch.Message.{pending, File, unreadable, message, is_pending, is_tombstone, is_expired}
use mcp_dispatch.Server.Inbox.{
  Entry, tombstone, outlived, retire, cleanup_expired, entries, read_inbox, as_read, mark_read,
  with_pending,
}
use mcp_dispatch.Server.Inbox.Retire.{outcome, Distinct-cleanup_expired, get-cleanup_expired}
use mcp_dispatch.Server.Inbox.Waiting.{
  quiet, new_entries, waits, passes_pending, any-new_entries, elem-or-quiet, AllPending,
  new_entries-AllPending,
}

mark_read-quiet :
    (now : ℕ) (es : List Entry) (files : Dict File) (k : String)
    → AllPending es
    → (any (λ (e : Entry). e.0 == k) es || quiet (get files k)) ≡ true
    → quiet (get (mark_read now es files) k) ≡ true
unfolding AllPending mark_read
mark_read-quiet now [] files k p h = h
mark_read-quiet now ((name, msg) ∷ es) files k p h = rw p.0 (
    mark_read-quiet now es (put files name (message (as_read now msg))) k p.1
      (rw get-put (ground (arith, h))))

mark_read-Distinct :
    (now : ℕ) (es : List Entry) (files : Dict File)
    → Distinct files
    → Distinct (mark_read now es files)
unfolding mark_read
mark_read-Distinct now [] files d = d
mark_read-Distinct now ((name, msg) ∷ es) files d =
    mark_read-Distinct now es _
      (elim (is_pending msg.state)
        as (λ b. Distinct (if b then put files name (message (as_read now msg)) else files)) [
          | true ↦ Distinct-put files name (message (as_read now msg)) d
          | false ↦ d
        ])

-- After a call every file is quiet.
with_pending-quiet :
    (now : ℕ) (files : Dict File) (k : String) → quiet (get (with_pending now files).files k) ≡ true
unfolding with_pending read_inbox
with_pending-quiet now files k =
    let cleaned = (cleanup_expired now files).files in
    let sorted = sort_by (λ (f : String × File). f.0) cleaned in
    mark_read-quiet now (new_entries sorted) cleaned k (new_entries-AllPending sorted) (
      rw
        (
          any-new_entries (λ e. e.0 == k) sorted,
          any-sort_by (waits (λ e. e.0 == k)) (λ (f : String × File). f.0) cleaned,
        )
        (elem-or-quiet cleaned k))

outcome-quiet : (now : ℕ) (file : Option File) → quiet file ≡ true → quiet (outcome now file) ≡ true
unfolding retire tombstone
outcome-quiet now none h = refl
outcome-quiet now (some unreadable) h = refl
outcome-quiet now (some (message msg)) h = elim (Bool-cases (is_tombstone msg.state)) [
  | inl t ↦ elim (Bool-cases (outlived now msg.expired_at)) [
    | inl o ↦ rw (t, o) refl
    | inr o ↦ rw (t, o) h
  ]
  | inr f ↦ elim (Bool-cases (is_expired now msg)) [
    | inl x ↦ let read_one : is_pending msg.state ≡ false = ground arith in rw (f, x, read_one) refl
    | inr x ↦ rw (f, x) h
  ]
]

Quiet : String × File → Type 0
Quiet f = quiet (some f.1) ≡ true

new_entries-Quiet : (files : List (String × File)) → All Quiet files → new_entries files ≡ []
unfolding Quiet entries
new_entries-Quiet [] h = refl
new_entries-Quiet ((name, unreadable) ∷ files) h = new_entries-Quiet files h.1
new_entries-Quiet ((name, message msg) ∷ files) h =
    let off : is_pending msg.state ≡ false = ground (arith, h.0) in
    rw (passes_pending msg.state, off) (new_entries-Quiet files h.1)

with_pending-Distinct :
    (now : ℕ) (files : Dict File) → Distinct files → Distinct (with_pending now files).files
unfolding with_pending
with_pending-Distinct now files d =
    mark_read-Distinct now (read_inbox (some pending) none (cleanup_expired now files).files)
      (cleanup_expired now files).files (Distinct-cleanup_expired now files d)

with_pending-Quiet :
    (now : ℕ) (files : Dict File)
    → Distinct files
    → ((k : String) → quiet (get files k) ≡ true)
    → (with_pending now files).dispatches ≡ []
unfolding with_pending read_inbox
with_pending-Quiet now files d q =
    let cleaned = (cleanup_expired now files).files in
    new_entries-Quiet (sort_by (λ (f : String × File). f.0) cleaned) (
      All-sort_by Quiet (λ (f : String × File). f.0) cleaned
        (All-of_get Quiet cleaned (Distinct-cleanup_expired now files d) (λ k f e.
          unfold Quiet in
          subst (λ o. quiet o ≡ true) e
            (rw (get-cleanup_expired now files k d) (outcome-quiet now (get files k) (q k))))))

-- What a tool result has delivered is not delivered again: with no new mail in between, the next
-- call of _with_pending, at any time, attaches nothing.
pub with_pending-once :
    (now later : ℕ) (files : Dict File)
    → Distinct files
    → (with_pending later (with_pending now files).files).dispatches ≡ []
with_pending-once now later files d =
    with_pending-Quiet later (with_pending now files).files (with_pending-Distinct now files d)
      (with_pending-quiet now files)
