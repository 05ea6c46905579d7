-- ===== src/Common/Ancestry/Nearest.antt =====
-- dispatch_common.py: what an answer of pick_by_ancestry means, and the length of a chain.
use mcp_dispatch.Base.{
  ℕ, zero, suc, ◌≤◌, ◌<◌, String, Bool, true, false, ◌==◌, ◌&&◌, ◌||◌, Option, first, none, some,
  List, [], ◌∷◌, length, select, any, All, leb, eqb, Bool-cases, if◌then◌else◌, inl, inr, ◌≡◌, refl,
  sym, subst, ◌∙◌, arith, eq_refl,
}
use mcp_dispatch.Base.Dict.{Dict}
use mcp_dispatch.Base.Sort.{
  sort_with, any-sort_with, length-select-sort_with, Ascending, sort_with-Ascending,
}
use mcp_dispatch.Common.Ancestry.{
  parent_in, process_chain, rank, nearer, near, entry, scored, score_le, first_alone,
  pick_by_ancestry,
}

-- A chain has at most as many processes as the loop has turns, and neither init nor the idle task.
process_chain-bounds :
    (stat : ℕ → Option String) (depth cur : ℕ)
    → (length (process_chain stat depth cur) ≤ depth)
      × All (λ pid. 1 < pid) (process_chain stat depth cur)
unfolding process_chain
process_chain-bounds stat zero cur = (omega arith, tt)
process_chain-bounds stat (suc depth) cur =
    elim (parent_in (stat cur))
      as (λ o.
        (length (elim o [
          | none ↦ []
          | some parent ↦ if leb parent 1 then [] else parent ∷ process_chain stat depth parent
        ])
          ≤ suc depth)
        × All (λ pid. 1 < pid)
            (elim o [
              | none ↦ []
              | some parent ↦ if leb parent 1 then [] else parent ∷ process_chain stat depth parent
            ])) [
              | none ↦ (omega arith, tt)
              | some parent ↦
                  let (short, above) = process_chain-bounds stat depth parent in
                  elim (Bool-cases (leb parent 1)) [
                    | inl t ↦ rw t (omega arith, tt)
                    | inr f ↦ rw f (omega (arith, short), (ground (arith, f), above))
                  ]
            ]

score_le-before : (e f : ℕ × String) → score_le e f ≡ true → e.0 ≤ f.0
unfolding score_le
score_le-before (i, aid) (j, other) h = ground (arith, h)

score_le-behind : (e f : ℕ × String) → score_le e f ≡ false → f.0 ≤ e.0
unfolding score_le
score_le-behind (i, aid) (j, other) h = ground (arith, h)

-- How many of the candidates that meet our chain do so at a distance or nearer.
abbrev within_distance : ℕ → List (ℕ × String) → ℕ
within_distance distance entries = length (select (λ (e : ℕ × String). leb e.0 distance) entries)

-- A candidate of the name at the distance.
abbrev is_at : ℕ → String → ℕ × String → Bool
is_at distance aid e = eqb e.0 distance && e.1 == aid

none_within :
    (distance least : ℕ) (es : List (ℕ × String))
    → distance < least
    → All (λ (e : ℕ × String). least ≤ e.0) es
    → within_distance distance es ≡ 0
none_within distance least [] h a = refl
none_within distance least (e ∷ es) h a =
    ground (arith, h, a.0, none_within distance least es h a.1)

first_alone-nearest :
    (es : List (ℕ × String)) (aid : String)
    → Ascending (λ (e : ℕ × String). e.0) es
    → first_alone es ≡ some aid
    → (distance : ℕ) × (any (is_at distance aid) es ≡ true) × (within_distance distance es ≡ 1)
first_alone-nearest [] aid a h = absurd (cc)
first_alone-nearest (e ∷ []) aid a h =
    let same : e.1 ≡ aid = cc in (e.0, rw same (ground (arith, eq_refl aid)), ground arith)
first_alone-nearest (e ∷ f ∷ rest) aid a h = elim (Bool-cases (eqb e.0 f.0)) [
  | inl t ↦
      let off : Path (Option String) none (some aid) =
        subst (λ b. Path (Option String) (if b then none else some e.1) (some aid)) t h in
      absurd (cc)
  | inr n ↦
      let same : e.1 ≡ aid = ground (arith, n, h) in
      let farther : e.0 < f.0 = ground (arith, n, a.0.0) in
      (
        e.0,
        rw same (ground (arith, eq_refl aid)),
        ground (arith, farther, none_within e.0 f.0 rest farther a.1.0),
      )
]

-- A chain shares a process with the first `distance + 1` of ours.
abbrev pub meets : ℕ → List ℕ → List ℕ → Bool
meets distance ours = any (λ p. any (λ q. eqb q p) (first (suc distance) ours))

-- No process stands in the chain twice.
abbrev pub NoTwice : List ℕ → Type 0
NoTwice [] = Unit
NoTwice (q ∷ qs) = (any (λ p. eqb p q) qs ≡ false) × NoTwice qs

abbrev is_within : ℕ → Option ℕ → Bool
is_within distance none = false
is_within distance (some i) = leb i distance

rank-none : (ours : List ℕ) (p : ℕ) → any (λ q. eqb q p) ours ≡ false → rank ours p ≡ none
unfolding rank
rank-none [] p h = refl
rank-none (q ∷ qs) p h =
    let other : eqb q p ≡ false = ground (arith, h) in
    rw (rank-none qs p (ground (arith, h)), other) refl

is_within-behind :
    (distance q p : ℕ) (qs : List ℕ) (o : Option ℕ)
    → eqb q p ≡ false
    → ((d : ℕ) → is_within d o ≡ any (λ r. eqb r p) (first (suc d) qs))
    → is_within distance
        (elim o [ some i ↦ some (suc i) | none ↦ if eqb q p then some 0 else none ])
      ≡ any (λ r. eqb r p) (first (suc distance) (q ∷ qs))
is_within-behind zero q p qs none other h = rw other refl
is_within-behind zero q p qs (some i) other h = rw other (ground arith)
is_within-behind (suc d) q p qs none other h = rw other (h d)
is_within-behind (suc d) q p qs (some i) other h =
    let shift : leb (suc i) (suc d) ≡ leb i d = ground arith in rw other (shift ∙ h d)

is_within-rank :
    (ours : List ℕ) (distance p : ℕ)
    → NoTwice ours
    → is_within distance (rank ours p) ≡ any (λ q. eqb q p) (first (suc distance) ours)
unfolding rank
is_within-rank [] distance p h = refl
is_within-rank (q ∷ qs) distance p h = elim (Bool-cases (eqb q p)) [
  | inr n ↦ is_within-behind distance q p qs (rank qs p) n (λ d. is_within-rank qs d p h.1)
  | inl t ↦
      let same : q ≡ p = ground (arith, t) in
      let fresh : any (λ r. eqb r p) qs ≡ false =
        subst (λ x. any (λ r. eqb r x) qs ≡ false) same h.0 in
      rw (rank-none qs p fresh, t) (ground arith)
]

is_within-nearer :
    (distance : ℕ) (a b : Option ℕ)
    → is_within distance (nearer a b) ≡ (is_within distance a || is_within distance b)
is_within-nearer distance none b = refl
is_within-nearer distance (some i) none = ground arith
is_within-nearer distance (some i) (some j) = ground arith

is_within-near :
    (distance : ℕ) (ours chain : List ℕ)
    → NoTwice ours
    → is_within distance (near ours chain) ≡ meets distance ours chain
unfolding near
is_within-near distance ours [] h = refl
is_within-near distance ours (p ∷ chain) h =
    is_within-nearer distance (rank ours p) (near ours chain)
    ∙ rw (is_within-rank ours distance p h, is_within-near distance ours chain h) refl

scored_step :
    (distance n : ℕ) (met : Bool) (aid : String) (es : List (ℕ × String)) (o : Option ℕ)
    → is_within distance o ≡ met
    → within_distance distance es ≡ n
    → within_distance distance (entry o aid es) ≡ (if met then suc n else n)
scored_step distance n met aid es none m e = ground (arith, m, e)
scored_step distance n met aid es (some i) m e = ground (arith, m, e)

named_step :
    (distance : ℕ) (met there : Bool) (aid other : String) (es : List (ℕ × String)) (o : Option ℕ)
    → is_within distance o ≡ met
    → any (is_at distance aid) (entry o other es) ≡ true
    → (any (is_at distance aid) es ≡ true → there ≡ true)
    → (other == aid && met || there) ≡ true
named_step distance met there aid other es none m e rest = ground (arith, rest e)
named_step distance met there aid other es (some i) m e rest = ground (arith, m, e, rest)

-- A candidate by the name of an answer, that meets our chain within the distance.
abbrev pub is_named : ℕ → List ℕ → String → String × List ℕ → Bool
is_named distance ours aid c = c.0 == aid && meets distance ours c.1

within_distance-scored :
    (distance : ℕ) (ours : List ℕ) (candidates : Dict (List ℕ))
    → NoTwice ours
    → within_distance distance (scored ours candidates)
      ≡ length (select (λ (c : String × List ℕ). meets distance ours c.1) candidates)
unfolding scored
within_distance-scored distance ours [] h = refl
within_distance-scored distance ours ((aid, chain) ∷ candidates) h =
    scored_step distance _ _ aid (scored ours candidates) (near ours chain)
      (is_within-near distance ours chain h) (within_distance-scored distance ours candidates h)
    ∙ ground arith

any-scored :
    (distance : ℕ) (ours : List ℕ) (aid : String) (candidates : Dict (List ℕ))
    → NoTwice ours
    → any (is_at distance aid) (scored ours candidates) ≡ true
    → any (is_named distance ours aid) candidates ≡ true
unfolding scored
any-scored distance ours aid [] h e = e
any-scored distance ours aid ((other, chain) ∷ candidates) h e =
    named_step distance _ _ aid other (scored ours candidates) (near ours chain)
      (is_within-near distance ours chain h) e (any-scored distance ours aid candidates h)

-- An answer is never a guess, and is the nearest: there is a number of first processes of our
-- chain such that of the sessions asked about just one has a chain with any of them, and that is
-- the one named. No process stands twice in our chain.
pub pick_by_ancestry-nearest :
    (candidates : Dict (List ℕ)) (ours : List ℕ) (aid : String)
    → NoTwice ours
    → pick_by_ancestry candidates ours ≡ some aid
    → (distance : ℕ) × (any (is_named distance ours aid) candidates ≡ true)
      × (length (select (λ (c : String × List ℕ). meets distance ours c.1) candidates) ≡ 1)
unfolding pick_by_ancestry
pick_by_ancestry-nearest candidates ours aid once h =
    let es = scored ours candidates in
    let ascending =
      sort_with-Ascending (λ (e : ℕ × String). e.0) score_le score_le-before score_le-behind es in
    let (distance, found, one) = first_alone-nearest (sort_with score_le es) aid ascending h in
    (
      distance,
      any-scored distance ours aid candidates once
          (sym (any-sort_with (is_at distance aid) score_le es) ∙ found),
      sym (within_distance-scored distance ours candidates once)
          ∙ sym (length-select-sort_with (λ (e : ℕ × String). leb e.0 distance) score_le es)
          ∙ one,
    )
