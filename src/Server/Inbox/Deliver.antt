-- ===== src/Server/Inbox/Deliver.antt =====
-- server.py, _with_pending: each message is handed to its session.
use mcp_dispatch.Base.{
  ℕ, String, Bool, true, false, ◌==◌, some, List, [], ◌∷◌, any, All, Bool-cases, ◌⊎◌, inl, inr, ◌≡◌,
  refl, subst, ap, ◌∙◌, arith, eq_iff, eq_refl,
}
use mcp_dispatch.Base.Dict.{Dict, get, put, Distinct, get-put, All-of_get}
use mcp_dispatch.Base.Sort.{sort_by, any-sort_by, All-sort_by}
use mcp_dispatch.Message.{Message, File, unreadable, message, is_pending, is_expired}
use mcp_dispatch.Server.Inbox.{
  Entry, retire, cleanup_expired, entries, read_inbox, as_read, mark_read, with_pending,
}
use mcp_dispatch.Server.Inbox.Retire.{
  outcome, not_tombstone, Distinct-cleanup_expired, get-cleanup_expired,
}
use mcp_dispatch.Server.Inbox.Waiting.{
  new_entries, waits, passes_pending, any-new_entries, any-waits, AllPending,
  new_entries-AllPending,
}

-- Every entry of the file `name` holds `msg`.
Only : String → Message → Entry → Type 0
Only name msg e = e.0 == name ≡ true → e.1 ≡ msg

mark_read-Only :
    (now : ℕ) (es : List Entry) (files : Dict File) (name : String) (msg : Message)
    → AllPending es
    → All (Only name msg) es
    → (any (λ (e : Entry). e.0 == name) es ≡ true)
      ⊎ (get files name ≡ some (message (as_read now msg)))
    → get (mark_read now es files) name ≡ some (message (as_read now msg))
unfolding AllPending Only mark_read
mark_read-Only now [] files name msg p o (inl h) = absurd (cc)
mark_read-Only now [] files name msg p o (inr h) = h
mark_read-Only now ((j, m) ∷ es) files name msg p o h = rw p.0 (
    mark_read-Only now es (put files j (message (as_read now m))) name msg p.1 o.1
      (elim (Bool-cases (j == name)) [
        | inl t ↦ inr (rw (get-put, t) (ap (λ x. some (message (as_read now x))) (o.0 t)))
        | inr f ↦ elim h [
          | inl listed ↦ inl (ground (arith, f, listed))
          | inr done ↦ inr (rw (get-put, f) done)
        ]
      ]))

OnlyFile : String → Message → String × File → Type 0
OnlyFile name msg f = (m : Message) → f.1 ≡ message m → f.0 == name ≡ true → m ≡ msg

new_entries-Only :
    (files : List (String × File)) (name : String) (msg : Message)
    → All (OnlyFile name msg) files
    → All (Only name msg) (new_entries files)
unfolding Only OnlyFile entries
new_entries-Only [] name msg h = tt
new_entries-Only ((j, unreadable) ∷ files) name msg h = new_entries-Only files name msg h.1
new_entries-Only ((j, message m) ∷ files) name msg h = elim (Bool-cases (is_pending m.state)) [
  | inl t ↦ rw (passes_pending m.state, t) (h.0 m refl, new_entries-Only files name msg h.1)
  | inr f ↦ rw (passes_pending m.state, f) (new_entries-Only files name msg h.1)
]

get-OnlyFile :
    (files : Dict File) (name : String) (msg : Message)
    → Distinct files
    → get files name ≡ some (message msg)
    → All (OnlyFile name msg) files
get-OnlyFile files name msg d e = All-of_get (OnlyFile name msg) files d (λ k f found.
    unfold OnlyFile in
    λ m is k_name.
      let same : k ≡ name = ground (arith, k_name, eq_iff k name) in
      let here : get files name ≡ some f = subst (λ j. get files j ≡ some f) same found in cc)

outcome-fresh :
    (now : ℕ) (msg : Message)
    → is_pending msg.state ≡ true
    → is_expired now msg ≡ false
    → outcome now (some (message msg)) ≡ some (message msg)
unfolding retire
outcome-fresh now msg p f = rw (not_tombstone msg.state p, f) refl

-- A message that waits in a file, unexpired, is among what the next call attaches, and its file
-- says then that it was read; `q` stands for any question about the entry.
pub with_pending-delivers :
    (now : ℕ) (files : Dict File) (name : String) (msg : Message) (q : Entry → Bool)
    → Distinct files
    → get files name ≡ some (message msg)
    → is_pending msg.state ≡ true
    → is_expired now msg ≡ false
    → q (name, msg) ≡ true
    → (any q (with_pending now files).dispatches ≡ true)
      × (get (with_pending now files).files name ≡ some (message (as_read now msg)))
unfolding with_pending read_inbox
with_pending-delivers now files name msg q d e p fresh h =
    let cleaned = (cleanup_expired now files).files in
    let key = λ (f : String × File). f.0 in
    let sorted = sort_by key cleaned in
    let kept : get cleaned name ≡ some (message msg) =
      get-cleanup_expired now files name d ∙ ap (outcome now) e ∙ outcome-fresh now msg p fresh in
    let listed : (r : Entry → Bool) → r (name, msg) ≡ true → any r (new_entries sorted) ≡ true =
      λ r hr.
        any-new_entries r sorted
        ∙ any-sort_by (waits r) key cleaned
        ∙ any-waits r cleaned name msg kept p hr in
    (
      listed q h,
      mark_read-Only now (new_entries sorted) cleaned name msg (new_entries-AllPending sorted)
          (new_entries-Only sorted name msg (
            All-sort_by (OnlyFile name msg) key cleaned
              (get-OnlyFile cleaned name msg (Distinct-cleanup_expired now files d) kept)))
          (inl (listed (λ e'. e'.0 == name) (eq_refl name))),
    )
