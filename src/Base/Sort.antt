-- ===== src/Base/Sort.antt =====
-- Python's `sorted` on texts, and on values by a text key: a stable insertion sort in code point
-- order.
use Prim.Native.String.{String, compare}
use Prim.Native.Nat.{ℕ, ◌+◌, ◌≤◌}
use text.Mathlib.Text.{is_le}
use mathlib.Core.Path.{◌≡◌, refl, ◌∙◌}
use mathlib.Core.Logic.{inl, inr}
use mathlib.Core.Bool.{Bool, true, false, ◌||◌}
use mathlib.Core.List.{List, [], ◌∷◌}
use native.Mathlib.Omega.{arith}
use mcp_dispatch.Base.Tests.{if◌then◌else◌, Bool-cases}
use mcp_dispatch.Base.Lists.{length, select, any, sum_by, All, All-map, In}

module _ {ℓ} {A : Type ℓ} where
  unfoldable pub insert_with : (A → A → Bool) → A → List A → List A
  insert_with le x [] = x ∷ []
  insert_with le x (y ∷ ys) =
      let rest = insert_with le x ys in if le x y then x ∷ y ∷ ys else y ∷ rest

  -- sorted(xs), where `le x y` says that x may stand before y
  unfoldable pub sort_with : (A → A → Bool) → List A → List A
  unfolding insert_with
  sort_with le [] = []
  sort_with le (x ∷ xs) = insert_with le x (sort_with le xs)

  any-insert_with :
      (p : A → Bool) (le : A → A → Bool) (x : A) (xs : List A)
      → any p (insert_with le x xs) ≡ (p x || any p xs)
  unfolding insert_with
  any-insert_with p le x [] = refl
  any-insert_with p le x (y ∷ ys) = ground (arith, any-insert_with p le x ys)

  -- Sorting changes neither what is in a list ...
  pub any-sort_with :
      (p : A → Bool) (le : A → A → Bool) (xs : List A) → any p (sort_with le xs) ≡ any p xs
  unfolding sort_with
  any-sort_with p le [] = refl
  any-sort_with p le (x ∷ xs) =
      any-insert_with p le x (sort_with le xs) ∙ ground (arith, any-sort_with p le xs)

  length-select-insert_with :
      (p : A → Bool) (le : A → A → Bool) (x : A) (xs : List A)
      → length (select p (insert_with le x xs)) ≡ length (select p (x ∷ xs))
  unfolding insert_with
  length-select-insert_with p le x [] = refl
  length-select-insert_with p le x (y ∷ ys) = ground (arith, length-select-insert_with p le x ys)

  -- ... nor how many of its elements pass a test.
  pub length-select-sort_with :
      (p : A → Bool) (le : A → A → Bool) (xs : List A)
      → length (select p (sort_with le xs)) ≡ length (select p xs)
  unfolding sort_with
  length-select-sort_with p le [] = refl
  length-select-sort_with p le (x ∷ xs) =
      length-select-insert_with p le x (sort_with le xs)
      ∙ ground (arith, length-select-sort_with p le xs)

  sum_by-insert_with :
      (f : A → ℕ) (le : A → A → Bool) (x : A) (xs : List A)
      → sum_by f (insert_with le x xs) ≡ f x + sum_by f xs
  unfolding insert_with
  sum_by-insert_with f le x [] = refl
  sum_by-insert_with f le x (y ∷ ys) = ground (arith, sum_by-insert_with f le x ys)

  -- ... nor a sum over them.
  pub sum_by-sort_with :
      (f : A → ℕ) (le : A → A → Bool) (xs : List A) → sum_by f (sort_with le xs) ≡ sum_by f xs
  unfolding sort_with
  sum_by-sort_with f le [] = refl
  sum_by-sort_with f le (x ∷ xs) =
      omega (arith, sum_by-insert_with f le x (sort_with le xs), sum_by-sort_with f le xs)

  All-insert_with {κ} :
      (P : A → Type κ) (le : A → A → Bool) (x : A) (xs : List A)
      → P x
      → All P xs
      → All P (insert_with le x xs)
  unfolding insert_with
  All-insert_with P le x [] h hs = (h, hs)
  All-insert_with P le x (y ∷ ys) h hs =
      elim (le x y) as (λ b. All P (if b then x ∷ y ∷ ys else y ∷ insert_with le x ys)) [
        | true ↦ (h, hs)
        | false ↦ (hs.0, All-insert_with P le x ys h hs.1)
      ]

  pub All-sort_with {κ} :
      (P : A → Type κ) (le : A → A → Bool) (xs : List A) → All P xs → All P (sort_with le xs)
  unfolding sort_with
  All-sort_with P le [] h = h
  All-sort_with P le (x ∷ xs) h = All-insert_with P le x _ h.0 (All-sort_with P le xs h.1)

  -- No key is less than one before it.
  abbrev pub Ascending : (A → ℕ) → List A → Type 0
  Ascending key [] = Unit
  Ascending key (x ∷ xs) = All (λ y. key x ≤ key y) xs × Ascending key xs

  module _ (key : A → ℕ) (le : A → A → Bool) (before : (x y : A) → le x y ≡ true → key x ≤ key y)
      (behind : (x y : A) → le x y ≡ false → key y ≤ key x) where
    insert_with-Ascending :
        (x : A) (ys : List A) → Ascending key ys → Ascending key (insert_with le x ys)
    unfolding insert_with
    insert_with-Ascending x [] h = (tt, tt)
    insert_with-Ascending x (y ∷ ys) h = elim (Bool-cases (le x y)) [
      | inl t ↦
          let least = before x y t in
          rw t (
            (
              least,
              All-map (λ z. key y ≤ key z) (λ z. key x ≤ key z) ys (λ z k. omega (arith, k, least))
                  h.0,
            ),
            h,
          )
      | inr f ↦ rw f (
        All-insert_with (λ z. key y ≤ key z) le x ys (behind x y f) h.0,
        insert_with-Ascending x ys h.1,
      )
    ]

    pub sort_with-Ascending : (xs : List A) → Ascending key (sort_with le xs)
    unfolding sort_with
    sort_with-Ascending [] = tt
    sort_with-Ascending (x ∷ xs) = insert_with-Ascending x _ (sort_with-Ascending xs)

  -- sorted(xs, key=key), for a key that is a text
  unfoldable pub sort_by : (A → String) → List A → List A
  unfolding sort_with insert_with
  sort_by key = sort_with (λ x y. is_le (compare (key x) (key y)))

  pub any-sort_by :
      (p : A → Bool) (key : A → String) (xs : List A) → any p (sort_by key xs) ≡ any p xs
  unfolding sort_by
  any-sort_by p key xs = any-sort_with p _ xs

  pub All-sort_by {κ} :
      (P : A → Type κ) (key : A → String) (xs : List A) → All P xs → All P (sort_by key xs)
  unfolding sort_by
  All-sort_by P key xs h = All-sort_with P _ xs h

-- sorted(texts)
abbrev pub sorted : List String → List String
sorted = sort_by (λ s. s)

module _ {A : Type 0} (le : A → A → Bool) where
  In-insert_with : (x y : A) (ys : List A) → In x (y ∷ ys) → In x (insert_with le y ys)
  unfolding insert_with
  In-insert_with x y [] i = i
  In-insert_with x y (z ∷ zs) i =
      elim (le y z) as (λ b. In x (if b then y ∷ z ∷ zs else z ∷ insert_with le y zs)) [
        | true ↦ i
        | false ↦ elim i [
          | inl e ↦ inr (In-insert_with x y zs (inl e))
          | inr (inl e) ↦ inl e
          | inr (inr j) ↦ inr (In-insert_with x y zs (inr j))
        ]
      ]

  pub In-sort_with : (x : A) (xs : List A) → In x xs → In x (sort_with le xs)
  unfolding sort_with
  In-sort_with x [] i = i
  In-sort_with x (y ∷ ys) (inl e) = In-insert_with x y (sort_with le ys) (inl e)
  In-sort_with x (y ∷ ys) (inr i) = In-insert_with x y (sort_with le ys) (inr (In-sort_with x ys i))

pub In-sort_by :
    {A : Type 0} (key : A → String) (x : A) (xs : List A) → In x xs → In x (sort_by key xs)
unfolding sort_by
In-sort_by key x xs i = In-sort_with _ x xs i
