-- ===== src/Base/Dict.antt =====
-- A Python dict, or a directory of files, keyed by text: an association list in which a write
-- replaces the entry that is there.
use Prim.Native.String.{String}
use text.Mathlib.Text.{◌==◌}
use text.Mathlib.TextEquality.{eq_iff}
use mathlib.Core.Path.{◌≡◌, refl, subst}
use mathlib.Core.Logic.{inl, inr}
use mathlib.Core.Bool.{Bool, true, false, ◌||◌}
use text.Mathlib.TextPositions.{eq_refl}
use mathlib.Core.Option.{Option, none, some}
use mathlib.Core.List.{List, [], ◌∷◌, map}
use native.Mathlib.Omega.{arith}
use mcp_dispatch.Base.Tests.{if◌then◌else◌, is_some, Bool-cases}
use mcp_dispatch.Base.Lists.{All, In, elem}

abbrev pub Dict {ℓ} : Type ℓ → Type ℓ
Dict V = List (String × V)

module _ {ℓ} {V : Type ℓ} where
  -- d.get(k)
  unfoldable pub get : Dict V → String → Option V
  get [] k = none
  get ((j, v) ∷ d) k = if j == k then some v else get d k

  -- d[k] = v
  unfoldable pub put : Dict V → String → V → Dict V
  put [] k v = (k, v) ∷ []
  put ((j, w) ∷ d) k v = let rest = put d k v in if j == k then (k, v) ∷ d else (j, w) ∷ rest

  -- d.pop(k, None)
  unfoldable pub remove : Dict V → String → Dict V
  remove [] k = []
  remove ((j, v) ∷ d) k = let rest = remove d k in if j == k then rest else (j, v) ∷ rest

  -- k in d
  abbrev pub has : Dict V → String → Bool
  has d k = is_some (get d k)

  abbrev pub keys : Dict V → List String
  keys = map (λ (e : String × V). e.0)

  -- No key twice, as in a Python dict or a listing of a directory.
  abbrev pub Distinct : Dict V → Type 0
  Distinct [] = Unit
  Distinct ((k, v) ∷ d) = (elem k (keys d) ≡ false) × Distinct d

  pub get-put :
      (d : Dict V) (k j : String) (v : V) → get (put d k v) j ≡ (if k == j then some v else get d j)
  unfolding get put
  get-put [] k j v = refl
  get-put ((i, w) ∷ d) k j v = ground (arith, eq_iff k j, eq_iff i k, eq_iff i j, get-put d k j v)

  pub get-remove :
      (d : Dict V) (k j : String) → get (remove d k) j ≡ (if k == j then none else get d j)
  unfolding get remove
  get-remove [] k j = ground arith
  get-remove ((i, w) ∷ d) k j = ground (arith, eq_iff k j, eq_iff i k, eq_iff i j, get-remove d k j)

  -- What holds of every entry, and of the one written, holds after the write.
  pub All-put {κ} :
      (P : String × V → Type κ) (d : Dict V) (k : String) (v : V)
      → All P d
      → P (k, v)
      → All P (put d k v)
  unfolding put
  All-put P [] k v h p = (p, tt)
  All-put P ((j, w) ∷ d) k v h p =
      elim (j == k) as (λ b. All P (if b then (k, v) ∷ d else (j, w) ∷ put d k v)) [
        | true ↦ (p, h.1)
        | false ↦ (h.0, All-put P d k v h.1 p)
      ]

  pub get-fresh : (d : Dict V) (k : String) → elem k (keys d) ≡ false → get d k ≡ none
  unfolding get
  get-fresh [] k h = refl
  get-fresh ((j, w) ∷ d) k h = ground (arith, get-fresh d k)

  -- What holds of what a lookup finds holds of every entry.
  pub All-of_get {κ} :
      (P : String × V → Type κ) (d : Dict V)
      → Distinct d
      → ((k : String) (v : V) → get d k ≡ some v → P (k, v))
      → All P d
  unfolding get
  All-of_get P [] fresh h = tt
  All-of_get P ((k, v) ∷ d) fresh h = (
    h k v (rw (eq_refl k) refl),
    All-of_get P d fresh.1 (λ j w e. h j w (ground (arith, e, fresh.0, eq_iff k j, get-fresh d k))),
  )

  pub get-All {κ} :
      (P : String × V → Type κ) (d : Dict V) (k : String) (v : V)
      → All P d
      → get d k ≡ some v
      → P (k, v)
  unfolding get
  get-All P [] k v h e = absurd (cc)
  get-All P ((j, w) ∷ d) k v h e = elim (Bool-cases (j == k)) [
    | inl t ↦
        let same : j ≡ k = ground (arith, t, eq_iff j k) in
        let value : w ≡ v = ground (arith, t, e) in subst P (λ i. (same i, value i)) h.0
    | inr f ↦ get-All P d k v h.1 (ground (arith, f, e))
  ]

  elem-keys-put :
      (d : Dict V) (k j : String) (v : V) → elem j (keys (put d k v)) ≡ (k == j || elem j (keys d))
  unfolding put
  elem-keys-put [] k j v = refl
  elem-keys-put ((i, w) ∷ d) k j v = ground (arith, elem-keys-put d k j v, eq_iff i k)

  pub Distinct-put : (d : Dict V) (k : String) (v : V) → Distinct d → Distinct (put d k v)
  unfolding put
  Distinct-put [] k v h = (refl, tt)
  Distinct-put ((j, w) ∷ d) k v h = elim (Bool-cases (j == k)) [
    | inl t ↦
        let same : j ≡ k = ground (arith, t, eq_iff j k) in
        rw t (subst (λ i. elem i (keys d) ≡ false) same h.0, h.1)
    | inr f ↦ rw f (
      ground (arith, h.0, f, elem-keys-put d k j v, eq_iff j k, eq_iff k j),
      Distinct-put d k v h.1,
    )
  ]

  elem-keys-remove :
      (d : Dict V) (k j : String) → elem j (keys d) ≡ false → elem j (keys (remove d k)) ≡ false
  unfolding remove
  elem-keys-remove [] k j h = refl
  elem-keys-remove ((i, w) ∷ d) k j h = ground (arith, h, elem-keys-remove d k j)

  pub Distinct-remove : (d : Dict V) (k : String) → Distinct d → Distinct (remove d k)
  unfolding remove
  Distinct-remove [] k h = tt
  Distinct-remove ((j, w) ∷ d) k h =
      elim (j == k) as (λ b. Distinct (if b then remove d k else (j, w) ∷ remove d k)) [
        | true ↦ Distinct-remove d k h.1
        | false ↦ (elem-keys-remove d k j h.0, Distinct-remove d k h.1)
      ]

-- What a lookup finds stands in the table.
pub In-of_get : {V : Type 0} (d : Dict V) (k : String) (v : V) → get d k ≡ some v → In (k, v) d
unfolding get
In-of_get [] k v e = absurd (cc)
In-of_get ((j, w) ∷ d) k v e = elim (Bool-cases (j == k)) [
  | inl t ↦
      let same : k ≡ j = ground (arith, t, eq_iff j k) in
      let value : v ≡ w = ground (arith, t, e) in inl (λ i. (same i, value i))
  | inr f ↦ inr (In-of_get d k v (ground (arith, f, e)))
]

pub ruleset dict_laws = (get-put, get-remove)
