-- ===== src/Server/Receipts/Shown.antt =====
-- server.py, _new_receipts: a receipt that changed is shown, once.
use mcp_dispatch.Base.{
  ℕ, ◌+◌, ◌≤◌, String, Bool, true, false, not, Option, none, some, List, [], ◌∷◌, ◌++◌, length,
  length-append, select, select-append, select-passes, length-select-select-le, any, any-select,
  rest_of, first-rest_of, All, All-map, All-and, All-select, leb, if◌then◌else◌, Bool-cases, inl,
  inr, ◌≡◌, refl, sym, ap, ◌∙◌, arith, eq_refl, eq_iff, neither,
}
use mcp_dispatch.Base.Sort.{All-sort_with, length-select-sort_with}
use mcp_dispatch.Message.{State, pending, read, expired}
use mcp_dispatch.Server.Inbox.{same_state}
use mcp_dispatch.Server.Receipts.{
  Receipt, Reported, is_key, state_is, is_fresh, fresh_receipts, shown_of, seen_of, new_receipts,
}

-- No two receipts are of one message in one inbox.
abbrev pub OneKey : List Receipt → Type 0
OneKey [] = Unit
OneKey (r ∷ rs) = (any (is_key r.id r.to) rs ≡ false) × OneKey rs

same_state_refl : (s : State) → same_state s s ≡ true
same_state_refl pending = refl
same_state_refl read = refl
same_state_refl expired = refl

count-OneKey :
    (id to : String) (rs : List Receipt) → OneKey rs → length (select (is_key id to) rs) ≤ 1
count-OneKey id to [] h = omega arith
count-OneKey id to (r ∷ rs) h = elim (Bool-cases (is_key id to r)) [
  | inr f ↦ rw f (count-OneKey id to rs h.1)
  | inl t ↦
      let same_id : r.id ≡ id = ground (arith, t, eq_iff r.id id) in
      let same_to : r.to ≡ to = ground (arith, t, eq_iff r.to to) in
      let moved : any (is_key id to) rs ≡ any (is_key r.id r.to) rs =
        λ i. any (is_key (sym same_id i) (sym same_to i)) rs in
      let none_left : any (is_key id to) rs ≡ false = moved ∙ h.0 in
      rw t (ground (arith, any-select (is_key id to) rs, none_left))
]

seen_of-none :
    (held rs : List Receipt) (id to : String)
    → any (is_key id to) rs ≡ false
    → seen_of held rs id to ≡ none
unfolding seen_of
seen_of-none held [] id to h = refl
seen_of-none held (r ∷ rs) id to h =
    let (off, rest) = neither (is_key id to r) (any (is_key id to) rs) h in
    rw (seen_of-none held rs id to rest, off) refl

seen_of-some :
    (held rs : List Receipt)
    → OneKey rs
    → All
        (λ (r : Receipt).
          any (is_key r.id r.to) held ≡ false → seen_of held rs r.id r.to ≡ some r.state)
        rs
unfolding seen_of
seen_of-some held [] h = tt
seen_of-some held (r ∷ rs) h = (
  λ off. rw (seen_of-none held rs r.id r.to h.0, eq_refl r.id, eq_refl r.to, off) refl,
  All-map _ _ rs (λ s found off. rw (found off) refl) (seen_of-some held rs h.1),
)

-- Each receipt of a list is of its own key.
own_key : (rs : List Receipt) → All (λ (r : Receipt). any (is_key r.id r.to) rs ≡ true) rs
own_key [] = tt
own_key (r ∷ rs) = (
  rw (eq_refl r.id, eq_refl r.to) refl,
  All-map (λ (s : Receipt). any (is_key s.id s.to) rs ≡ true) _ rs (λ s h. ground (arith, h))
      (own_key rs),
)

shown_of-rest_of :
    (limit : Option ℕ) (fresh : List Receipt)
    → fresh ≡ shown_of limit fresh ++ rest_of (length (shown_of limit fresh)) fresh
shown_of-rest_of (some limit) fresh = first-rest_of limit fresh
shown_of-rest_of none [] = refl
shown_of-rest_of none (r ∷ rs) = ap (λ xs. r ∷ xs) (shown_of-rest_of none rs)

-- A receipt of the list is held back or shown, where its key is in it once.
split_keys :
    (k : Receipt → Bool) (all shown held : List Receipt)
    → all ≡ shown ++ held
    → length (select k all) ≤ 1
    → any k all ≡ true
    → any k held ≡ not (any k shown)
split_keys k all shown held e one some_one =
    let parts : length (select k all) ≡ length (select k shown) + length (select k held) =
      ap (λ xs. length (select k xs)) e
      ∙ ap length (select-append k shown held)
      ∙ length-append (select k shown) (select k held) in
    ground (arith, parts, one, some_one, any-select k all, any-select k shown, any-select k held)

-- A receipt that was news is news after the call just where it is held back.
is_fresh-after :
    (reported : Reported) (held receipts : List Receipt) (r : Receipt)
    → is_fresh reported r ≡ true
    → (any (is_key r.id r.to) held ≡ false → seen_of held receipts r.id r.to ≡ some r.state)
    → not (
        state_is
          (if any (is_key r.id r.to) held
            then reported r.id r.to
            else seen_of held receipts r.id r.to)
          r.state)
      ≡ any (is_key r.id r.to) held
is_fresh-after reported held receipts r new found =
    elim (Bool-cases (any (is_key r.id r.to) held)) [
      | inl t ↦ rw t new
      | inr f ↦ rw (f, found f, same_state_refl r.state) refl
    ]

-- No news is lost and none is told twice: after a call, a receipt that had changed since it was last
-- shown is still news, for the same state, exactly where the call did not show it, and those that it
-- did not show are as many as it says. No two receipts are of one message in one inbox.
pub new_receipts-shown :
    (reported : Reported) (receipts : List Receipt) (limit : Option ℕ)
    → OneKey receipts
    → All
        (λ (r : Receipt).
          is_fresh (new_receipts reported receipts limit).reported r
          ≡ not (any (is_key r.id r.to) (new_receipts reported receipts limit).shown))
        (fresh_receipts reported receipts)
      × (length (new_receipts reported receipts limit).shown
            + (new_receipts reported receipts limit).older
          ≡ length (fresh_receipts reported receipts))
unfolding new_receipts fresh_receipts
new_receipts-shown reported receipts limit h =
    let newest = λ (r s : Receipt). leb s.sent_at r.sent_at in
    let changed = select (is_fresh reported) receipts in
    let fresh = fresh_receipts reported receipts in
    let shown = shown_of limit fresh in
    let held = rest_of (length shown) fresh in
    let Seen : Receipt → Type 0 =
      λ r. any (is_key r.id r.to) held ≡ false → seen_of held receipts r.id r.to ≡ some r.state in
    let is_new : All (λ (r : Receipt). is_fresh reported r ≡ true) fresh =
      All-sort_with _ newest changed (select-passes (is_fresh reported) receipts) in
    let seen : All Seen fresh =
      All-sort_with Seen newest changed
        (All-select Seen (is_fresh reported) receipts (seen_of-some held receipts h)) in
    let parts = shown_of-rest_of limit fresh in
    let once : (r : Receipt) → length (select (is_key r.id r.to) fresh) ≤ 1 = λ r.
      let k = is_key r.id r.to in
      omega (
        arith,
        length-select-sort_with k newest changed,
        length-select-select-le k (is_fresh reported) receipts,
        count-OneKey r.id r.to receipts h,
      ) in
    (
      All-map _ _ fresh
          (λ r (new, (found, own)).
            is_fresh-after reported held receipts r new found
            ∙ split_keys (is_key r.id r.to) fresh shown held parts (once r) own)
          (All-and _ _ fresh is_new (All-and _ _ fresh seen (own_key fresh))),
      omega (arith, ap length parts, length-append shown held),
    )
