-- ===== src/Base/Lists.antt =====
-- Lists with native lengths and Boolean tests.
use Prim.Native.Nat.{ℕ, zero, suc, ◌+◌, ◌≤◌}
use Prim.Native.String.{String}
use text.Mathlib.Text.{◌==◌}
use mathlib.Core.Path.{◌≡◌, refl, sym, subst, ap}
use mathlib.Core.Logic.{◌⊎◌, inl, inr}
use mathlib.Core.Bool.{Bool, true, false, ◌||◌, ◌&&◌}
use mathlib.Core.List.{List, [], ◌∷◌, ◌++◌}
use native.Mathlib.Omega.{arith}
use mcp_dispatch.Base.Tests.{if◌then◌else◌, Bool-cases, ltb}

module _ {ℓ} {A : Type ℓ} where
  abbrev pub length : List A → ℕ
  length [] = 0
  length (x ∷ xs) = suc (length xs)

  -- [x for x in xs if p(x)]
  abbrev pub select : (A → Bool) → List A → List A
  select p [] = []
  select p (x ∷ xs) = let rest = select p xs in if p x then x ∷ rest else rest

  abbrev pub any : (A → Bool) → List A → Bool
  any p [] = false
  any p (x ∷ xs) = p x || any p xs

  abbrev pub all : (A → Bool) → List A → Bool
  all p [] = true
  all p (x ∷ xs) = p x && all p xs

  -- sum(f(x) for x in xs)
  abbrev pub sum_by : (A → ℕ) → List A → ℕ
  sum_by f [] = 0
  sum_by f (x ∷ xs) = f x + sum_by f xs

  -- xs[:n]
  abbrev pub first : ℕ → List A → List A
  first zero xs = []
  first (suc n) [] = []
  first (suc n) (x ∷ xs) = x ∷ first n xs

  -- xs[n:]
  abbrev pub rest_of : ℕ → List A → List A
  rest_of zero xs = xs
  rest_of (suc n) [] = []
  rest_of (suc n) (x ∷ xs) = rest_of n xs

  -- Every element satisfies `P`.
  abbrev pub All {κ} : (A → Type κ) → List A → Type κ
  All P [] = Unit
  All P (x ∷ xs) = P x × All P xs

  pub length-append : (xs ys : List A) → length (xs ++ ys) ≡ length xs + length ys
  length-append [] ys = omega arith
  length-append (x ∷ xs) ys = omega (arith, length-append xs ys)

  pub length-select-le : (p : A → Bool) (xs : List A) → length (select p xs) ≤ length xs
  length-select-le p [] = omega arith
  length-select-le p (x ∷ xs) = ground (arith, length-select-le p xs)

  pub select-append :
      (p : A → Bool) (xs ys : List A) → select p (xs ++ ys) ≡ select p xs ++ select p ys
  select-append p [] ys = refl
  select-append p (x ∷ xs) ys = ground (arith, select-append p xs ys)

  pub All-append {κ} : (P : A → Type κ) (xs ys : List A) → All P xs → All P ys → All P (xs ++ ys)
  All-append P [] ys h k = k
  All-append P (x ∷ xs) ys h k = (h.0, All-append P xs ys h.1 k)

  pub All-map {κ μ} :
      (P : A → Type κ) (Q : A → Type μ) (xs : List A) → ((x : A) → P x → Q x) → All P xs → All Q xs
  All-map P Q [] imp h = tt
  All-map P Q (x ∷ xs) imp h = (imp x h.0, All-map P Q xs imp h.1)

  pub All-select {κ} :
      (P : A → Type κ) (p : A → Bool) (xs : List A) → All P xs → All P (select p xs)
  All-select P p [] h = tt
  All-select P p (x ∷ xs) h =
      elim (p x) as (λ b. All P (if b then x ∷ select p xs else select p xs)) [
        | true ↦ (h.0, All-select P p xs h.1)
        | false ↦ All-select P p xs h.1
      ]

  pub select-passes : (p : A → Bool) (xs : List A) → All (λ x. p x ≡ true) (select p xs)
  select-passes p [] = tt
  select-passes p (x ∷ xs) = elim (Bool-cases (p x)) [
    | inl t ↦ rw t (t, select-passes p xs)
    | inr f ↦ rw f (select-passes p xs)
  ]

  All-of_select_step {κ} :
      (P : A → Type κ) (p : A → Bool) (x : A) (xs : List A) (b : Bool)
      → p x ≡ b
      → All P (if b then x ∷ select p xs else select p xs)
      → (p x ≡ true) ⊎ P x
      → (All P (select p xs) → All P xs)
      → P x × All P xs
  All-of_select_step P p x xs true e h k rest = (h.0, rest h.1)
  All-of_select_step P p x xs false e h (inl t) rest = absurd (cc)
  All-of_select_step P p x xs false e h (inr q) rest = (q, rest h)

  -- What holds of the selected elements, and of every other, holds of all.
  pub All-of_select {κ} :
      (P : A → Type κ) (p : A → Bool) (xs : List A)
      → All P (select p xs)
      → All (λ x. (p x ≡ true) ⊎ P x) xs
      → All P xs
  All-of_select P p [] h k = tt
  All-of_select P p (x ∷ xs) h k =
      All-of_select_step P p x xs (p x) refl h k.0 (λ g. All-of_select P p xs g k.1)

  -- Selecting first by a weaker test changes nothing.
  pub select-select :
      (p q : A → Bool) (xs : List A)
      → ((x : A) → p x ≡ true → q x ≡ true)
      → select p (select q xs) ≡ select p xs
  select-select p q [] imp = refl
  select-select p q (x ∷ xs) imp = ground (arith, imp x, select-select p q xs imp)

  -- Selecting what all satisfy changes nothing.
  pub select-All : (p : A → Bool) (xs : List A) → All (λ x. p x ≡ true) xs → select p xs ≡ xs
  select-All p [] h = refl
  select-All p (x ∷ xs) h = ground (arith, h.0, select-All p xs h.1)

  pub length-select_mono :
      (p q : A → Bool) (xs : List A)
      → All (λ x. p x ≡ true → q x ≡ true) xs
      → length (select p xs) ≤ length (select q xs)
  length-select_mono p q [] imp = omega arith
  length-select_mono p q (x ∷ xs) imp = ground (arith, imp.0, length-select_mono p q xs imp.1)

  pub All-and {κ μ} :
      (P : A → Type κ) (Q : A → Type μ) (xs : List A)
      → All P xs
      → All Q xs
      → All (λ x. P x × Q x) xs
  All-and P Q [] h k = tt
  All-and P Q (x ∷ xs) h k = ((h.0, k.0), All-and P Q xs h.1 k.1)

  -- Some element passes where one or more are selected.
  pub any-select : (p : A → Bool) (xs : List A) → any p xs ≡ ltb 0 (length (select p xs))
  any-select p [] = refl
  any-select p (x ∷ xs) = ground (arith, any-select p xs)

  pub length-select-select-le :
      (p q : A → Bool) (xs : List A) → length (select p (select q xs)) ≤ length (select p xs)
  length-select-select-le p q [] = omega arith
  length-select-select-le p q (x ∷ xs) = ground (arith, length-select-select-le p q xs)

  -- A list is its first elements and the rest.
  pub first-rest_of : (n : ℕ) (xs : List A) → xs ≡ first n xs ++ rest_of (length (first n xs)) xs
  first-rest_of zero xs = refl
  first-rest_of (suc n) [] = refl
  first-rest_of (suc n) (x ∷ xs) = ap (λ ys. x ∷ ys) (first-rest_of n xs)

module _ {A : Type 0} where
  -- `x` stands in a list, at some place.
  abbrev pub In : A → List A → Type 0
  In x [] = ⊥
  In x (y ∷ ys) = (x ≡ y) ⊎ In x ys

  pub All-In {κ} : (P : A → Type κ) (x : A) (xs : List A) → All P xs → In x xs → P x
  All-In P x [] h i = absurd i
  All-In P x (y ∷ ys) h (inl e) = subst P (sym e) h.0
  All-In P x (y ∷ ys) h (inr i) = All-In P x ys h.1 i

  pub In-append : (x : A) (xs ys : List A) → In x xs ⊎ In x ys → In x (xs ++ ys)
  In-append x [] ys (inl i) = absurd i
  In-append x [] ys (inr i) = i
  In-append x (z ∷ zs) ys (inl (inl e)) = inl e
  In-append x (z ∷ zs) ys (inl (inr i)) = inr (In-append x zs ys (inl i))
  In-append x (z ∷ zs) ys (inr i) = inr (In-append x zs ys (inr i))

  pub In-select : (p : A → Bool) (x : A) (xs : List A) → p x ≡ true → In x xs → In x (select p xs)
  In-select p x [] h i = i
  In-select p x (y ∷ ys) h (inl e) =
      let e' : p y ≡ true = subst (λ z. p z ≡ true) e h in rw e' (inl e)
  In-select p x (y ∷ ys) h (inr i) =
      elim (p y) as (λ b. In x (if b then y ∷ select p ys else select p ys)) [
        | true ↦ inr (In-select p x ys h i)
        | false ↦ In-select p x ys h i
      ]

-- x in xs
abbrev pub elem : String → List String → Bool
elem k = any (λ x. x == k)
