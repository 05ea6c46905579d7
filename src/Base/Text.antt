-- ===== src/Base/Text.antt =====
-- The operations of Python's `str` that the source uses, on native strings: a text is its code
-- points.
use Prim.Native.Nat.{ℕ, zero, suc, ◌+◌, ◌-◌, ◌≤◌}
use Prim.Native.Char.{code}
use Prim.Native.String.{String, [], ◌∷◌, ◌++◌}
use mathlib.Core.Path.{◌≡◌, refl, sym, ap, ◌∙◌}
use text.Mathlib.TextLemmas.{nil-append, cons-append}
use mathlib.Core.Bool.{Bool, true, false, not, ◌&&◌}
use mathlib.Core.Option.{Option, none, some}
use text.Mathlib.Text.{◌==◌}
use text.Mathlib.TextEquality.{eq_iff}
use mathlib.Core.Logic.{inl, inr}
use native.Mathlib.Omega.{arith}
use mcp_dispatch.Base.Tests.{if◌then◌else◌, eqb, Bool-cases}

-- len(s)
abbrev pub chars : String → ℕ
chars [] = 0
chars (c ∷ s) = suc (chars s)

-- all(p(c) for c in s)
abbrev pub every : (ℕ → Bool) → String → Bool
every p [] = true
every p (c ∷ s) = p (code c) && every p s

-- The code points of `s` that satisfy `p`: re.sub of the class that fails `p` by "".
unfoldable pub keep : (ℕ → Bool) → String → String
keep p [] = []
keep p (c ∷ s) = let rest = keep p s in if p (code c) then c ∷ rest else rest

-- re.sub("^k*", "", s)
unfoldable pub lstrip : ℕ → String → String
lstrip k [] = []
lstrip k (c ∷ s) = let rest = lstrip k s in if eqb (code c) k then rest else c ∷ s

-- s[:n]
unfoldable pub take : ℕ → String → String
take zero s = []
take (suc n) [] = []
take (suc n) (c ∷ s) = c ∷ take n s

-- s[n:]
unfoldable pub drop : ℕ → String → String
drop zero s = s
drop (suc n) [] = []
drop (suc n) (c ∷ s) = drop n s

-- s.startswith(t)
unfoldable pub starts_with : String → String → Bool
starts_with [] s = true
starts_with (d ∷ t) [] = false
starts_with (d ∷ t) (c ∷ s) = eqb (code d) (code c) && starts_with t s

-- s.find(t), for a text t that is not empty; `none` is -1
unfoldable pub find : String → String → Option ℕ
unfolding starts_with
find t [] = none
find t (c ∷ s) =
    let rest = find t s in
    if starts_with t (c ∷ s) then some 0 else elim rest [ none ↦ none | some i ↦ some (suc i) ]

-- s.rfind(t), for a text t that is not empty; `none` is -1
unfoldable pub rfind : String → String → Option ℕ
unfolding starts_with
rfind t [] = none
rfind t (c ∷ s) = elim (rfind t s) [
  | none ↦ if starts_with t (c ∷ s) then some 0 else none
  | some i ↦ some (suc i)
]

-- s.lstrip() and s.rstrip(), for a test of the code points that are white space
unfoldable pub lstrip_by : (ℕ → Bool) → String → String
lstrip_by p [] = []
lstrip_by p (c ∷ s) = let rest = lstrip_by p s in if p (code c) then rest else c ∷ s

unfoldable pub rstrip_by : (ℕ → Bool) → String → String
rstrip_by p [] = []
rstrip_by p (c ∷ s) = let rest = rstrip_by p s in if rest == [] && p (code c) then [] else c ∷ rest

-- s.rstrip(k), for one code point k
unfoldable pub rstrip : ℕ → String → String
rstrip k [] = []
rstrip k (c ∷ s) = let rest = rstrip k s in if rest == [] && eqb (code c) k then [] else c ∷ rest

-- What follows the last `k` of a text, and the whole text where there is none.
unfoldable pub after_last : ℕ → String → String
after_last k [] = []
after_last k (c ∷ s) =
    let rest = after_last k s in
    if every (λ d. not (eqb d k)) s then (if eqb (code c) k then s else c ∷ s) else rest

pub every-keep : (p : ℕ → Bool) (s : String) → every p (keep p s) ≡ true
unfolding keep
every-keep p [] = refl
every-keep p (c ∷ s) = ground (arith, every-keep p s)

pub every-lstrip :
    (p : ℕ → Bool) (k : ℕ) (s : String) → every p s ≡ true → every p (lstrip k s) ≡ true
unfolding lstrip
every-lstrip p k [] h = refl
every-lstrip p k (c ∷ s) h = ground (arith, every-lstrip p k s)

pub every-take : (p : ℕ → Bool) (n : ℕ) (s : String) → every p s ≡ true → every p (take n s) ≡ true
unfolding take
every-take p zero s h = refl
every-take p (suc n) [] h = refl
every-take p (suc n) (c ∷ s) h = ground (arith, every-take p n s)

pub chars-take-le : (n : ℕ) (s : String) → chars (take n s) ≤ n
unfolding take
chars-take-le zero s = omega arith
chars-take-le (suc n) [] = omega arith
chars-take-le (suc n) (c ∷ s) = omega (arith, chars-take-le n s)

pub every-append : (p : ℕ → Bool) (s t : String) → every p (s ++ t) ≡ (every p s && every p t)
every-append p [] t = ap (every p) (nil-append t)
every-append p (c ∷ s) t = rw cons-append (ground (arith, every-append p s t))

pub chars-append : (s t : String) → chars (s ++ t) ≡ chars s + chars t
chars-append [] t = rw nil-append (omega arith)
chars-append (c ∷ s) t = rw cons-append (omega (arith, chars-append s t))

pub take-all : (n : ℕ) (s : String) → chars s ≤ n → take n s ≡ s
unfolding take
take-all zero [] h = refl
take-all zero (c ∷ s) h = absurd (omega (arith, h))
take-all (suc n) [] h = refl
take-all (suc n) (c ∷ s) h = ap (λ t. c ∷ t) (take-all n s (omega (arith, h)))

-- A text is what two cuts of it leave and what stands between them.
pub take-drop : (n : ℕ) (s : String) → s ≡ take n s ++ drop n s
unfolding take drop
take-drop zero s = sym (nil-append s)
take-drop (suc n) [] = sym (nil-append [])
take-drop (suc n) (c ∷ s) = rw cons-append (ap (λ t. c ∷ t) (take-drop n s))

pub chars-drop : (n : ℕ) (s : String) → chars (drop n s) ≡ chars s - n
unfolding drop
chars-drop zero s = omega arith
chars-drop (suc n) [] = omega arith
chars-drop (suc n) (c ∷ s) = omega (arith, chars-drop n s)

pub take-take-le : (m n : ℕ) (s : String) → m ≤ n → take m (take n s) ≡ take m s
unfolding take
take-take-le zero n s h = refl
take-take-le (suc m) zero s h = absurd (omega (arith, h))
take-take-le (suc m) (suc n) [] h = refl
take-take-le (suc m) (suc n) (c ∷ s) h = ap (λ t. c ∷ t) (take-take-le m n s (omega (arith, h)))

drop-nil : (n : ℕ) → drop n [] ≡ []
unfolding drop
drop-nil zero = refl
drop-nil (suc n) = refl

pub drop-drop : (m n : ℕ) (s : String) → drop m (drop n s) ≡ drop (n + m) s
unfolding drop
drop-drop m zero s = ap (λ k. drop k s) (omega arith)
drop-drop m (suc n) [] = drop-nil m ∙ sym (drop-nil (suc n + m))
drop-drop m (suc n) (c ∷ s) =
    drop-drop m n s
    ∙ (let next : suc (n + m) ≡ suc n + m = omega arith in ap (λ k. drop k (c ∷ s)) next)

-- What `lstrip` and `rstrip` take away is white space.
pub lstrip_by-gap :
    (p : ℕ → Bool) (s : String) → (gap : String) × (s ≡ gap ++ lstrip_by p s) × (every p gap ≡ true)
unfolding lstrip_by
lstrip_by-gap p [] = ([], sym (nil-append []), refl)
lstrip_by-gap p (c ∷ s) =
    let (gap, e, h) = lstrip_by-gap p s in
    elim (Bool-cases (p (code c))) [
      | inl t ↦ rw t (c ∷ gap, rw cons-append (ap (λ r. c ∷ r) e), ground (arith, t, h))
      | inr f ↦ rw f ([], sym (nil-append (c ∷ s)), refl)
    ]

pub rstrip_by-gap :
    (p : ℕ → Bool) (s : String) → (gap : String) × (s ≡ rstrip_by p s ++ gap) × (every p gap ≡ true)
unfolding rstrip_by
rstrip_by-gap p [] = ([], sym (nil-append []), refl)
rstrip_by-gap p (c ∷ s) =
    let (gap, e, h) = rstrip_by-gap p s in
    elim (Bool-cases (rstrip_by p s == [] && p (code c))) [
      | inr f ↦ rw f (gap, rw cons-append (ap (λ r. c ∷ r) e), h)
      | inl t ↦
          let none_left : rstrip_by p s ≡ [] = ground (arith, t, eq_iff (rstrip_by p s) []) in
          let all_gap : s ≡ gap = e ∙ ap (λ r. r ++ gap) none_left ∙ nil-append gap in
          rw t (c ∷ gap, ap (λ r. c ∷ r) all_gap ∙ sym (nil-append (c ∷ gap)), ground (arith, t, h))
    ]
