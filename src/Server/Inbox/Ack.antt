-- ===== src/Server/Inbox/Ack.antt =====
-- server.py, ack_tool: which files an ack removes.
use mcp_dispatch.Base.{
  ℕ, suc, ◌+◌, any, eq_refl, String, Bool, true, false, ◌==◌, Option, none, some, List, [], ◌∷◌,
  length, elem, Bool-cases, ◌⊎◌, inl, inr, ◌≡◌, refl, subst, ◌∙◌, arith, eq_iff,
}
use mcp_dispatch.Base.Dict.{Dict, get, keys, get-remove, Distinct, Distinct-remove}
use mcp_dispatch.Message.{File, unreadable, message}
use mcp_dispatch.Server.Inbox.{find_id, Acked, acked_one, unlink_found, ack}

-- The file, if there is one, holds a message with that id.
abbrev pub holds_id : String → Option File → Bool
holds_id id none = false
holds_id id (some unreadable) = false
holds_id id (some (message msg)) = msg.id == id

find_id-elem :
    (id : String) (files : Dict File) (name : String)
    → find_id id files ≡ some name
    → elem name (keys files) ≡ true
unfolding find_id
find_id-elem id [] name e = absurd (cc)
find_id-elem id ((j, unreadable) ∷ files) name e = ground (arith, find_id-elem id files name e)
find_id-elem id ((j, message msg) ∷ files) name e = elim (Bool-cases (msg.id == id)) [
  | inl t ↦ let same : j ≡ name = ground (arith, t, e) in rw (same, eq_refl name) refl
  | inr f ↦
      let further : find_id id files ≡ some name = ground (arith, f, e) in
      ground (arith, find_id-elem id files name further)
]

find_id-holds :
    (id : String) (files : Dict File) (name : String)
    → Distinct files
    → find_id id files ≡ some name
    → holds_id id (get files name) ≡ true
unfolding find_id get
find_id-holds id [] name d e = absurd (cc)
find_id-holds id ((j, unreadable) ∷ files) name d e =
    let listed = find_id-elem id files name e in
    let rest = find_id-holds id files name d.1 e in
    elim (Bool-cases (j == name)) [
      | inl t ↦
          let same : j ≡ name = ground (arith, t, eq_iff j name) in
          let gone : elem name (keys files) ≡ false =
            subst (λ i. elem i (keys files) ≡ false) same d.0 in
          absurd (cc)
      | inr f ↦ rw f rest
    ]
find_id-holds id ((j, message msg) ∷ files) name d e = elim (Bool-cases (msg.id == id)) [
  | inl t ↦ let same : j ≡ name = ground (arith, t, e) in rw (same, eq_refl name) t
  | inr f ↦
      let further : find_id id files ≡ some name = ground (arith, f, e) in
      let listed = find_id-elem id files name further in
      let rest = find_id-holds id files name d.1 further in
      elim (Bool-cases (j == name)) [
        | inl t ↦
            let same : j ≡ name = ground (arith, t, eq_iff j name) in
            let gone : elem name (keys files) ≡ false =
              subst (λ i. elem i (keys files) ≡ false) same d.0 in
            absurd (cc)
        | inr o ↦ rw o rest
      ]
]

counted :
    (id : String) (found : Option String) (st : Acked) {n : ℕ}
    → st.acked + length st.not_found ≡ n
    → (acked_one id found st).acked + length (acked_one id found st).not_found ≡ suc n
unfolding acked_one
counted id none st h = omega (arith, h)
counted id (some name) st h = omega (arith, h)

files-acked_one :
    (id : String) (found : Option String) (st : Acked) → (acked_one id found st).files ≡ st.files
unfolding acked_one
files-acked_one id none st = refl
files-acked_one id (some name) st = refl

-- The file is as it was, or it is gone and held a message with one of the ids.
abbrev Kept : List String → Option File → Option File → Type 0
Kept ids before after =
    (after ≡ before) ⊎ ((after ≡ none) × (any (λ id. holds_id id before) ids ≡ true))

unlink_found-Kept :
    (id : String) (files : Dict File) (k : String) (found : Option String)
    → Distinct files
    → find_id id files ≡ found
    → Kept (id ∷ []) (get files k) (get (unlink_found found files) k)
unfolding unlink_found
unlink_found-Kept id files k none d e = inl refl
unlink_found-Kept id files k (some name) d e =
    let held = find_id-holds id files name d e in
    elim (Bool-cases (name == k)) [
      | inl t ↦
          let same : name ≡ k = ground (arith, t, eq_iff name k) in
          inr (rw (get-remove, t) refl, rw (← same, held) refl)
      | inr f ↦ inl (rw (get-remove, f) refl)
    ]

Distinct-unlink_found :
    (files : Dict File) (found : Option String)
    → Distinct files
    → Distinct (unlink_found found files)
unfolding unlink_found
Distinct-unlink_found files none d = d
Distinct-unlink_found files (some name) d = Distinct-remove files name d

Kept-trans :
    (id : String) (ids : List String) (a b c : Option File)
    → Kept (id ∷ []) a b
    → Kept ids b c
    → Kept (id ∷ ids) a c
Kept-trans id ids a b c (inl same) (inl same') = inl (same' ∙ same)
Kept-trans id ids a b c (inl same) (inr (gone, held)) =
    let held' : any (λ i. holds_id i a) ids ≡ true =
      subst (λ o. any (λ i. holds_id i o) ids ≡ true) same held in
    inr (gone, ground (arith, held'))
Kept-trans id ids a b c (inr (gone, held)) (inl same) = inr (same ∙ gone, ground (arith, held))
Kept-trans id ids a b c (inr (gone, held)) (inr (gone', held')) = inr (gone', ground (arith, held))

-- An ack removes only files that held a message with one of the acked ids, and changes no other;
-- every id is either counted as acked or listed as not found.
ack-only :
    (ids : List String) (files : Dict File) (k : String)
    → Distinct files
    → ((get (ack ids files).files k ≡ get files k)
        ⊎ ((get (ack ids files).files k ≡ none)
            × (any (λ id. holds_id id (get files k)) ids ≡ true)))
      × ((ack ids files).acked + length (ack ids files).not_found ≡ length ids)
unfolding ack
ack-only [] files k d = (inl refl, omega arith)
ack-only (id ∷ ids) files k d =
    let found = find_id id files in
    let one = unlink_found-Kept id files k found d refl in
    let (rest, count) =
      ack-only ids (unlink_found found files) k (Distinct-unlink_found files found d) in
    (
      rw (files-acked_one id found (ack ids (unlink_found found files))) (
          Kept-trans id ids (get files k) (get (unlink_found found files) k)
            (get (ack ids (unlink_found found files)).files k) one rest),
      counted id found (ack ids (unlink_found found files)) count,
    )
