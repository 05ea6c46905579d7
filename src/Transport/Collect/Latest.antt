-- ===== src/Transport/Collect/Latest.antt =====
-- git_transport.py, GitBus.collect: the last writer wins.
use mcp_dispatch.Base.{
  String, Bool, true, false, ◌==◌, not, ◌&&◌, ◌||◌, Option, none, some, List, [], ◌∷◌, any,
  Bool-cases, if◌then◌else◌, inl, inr, ◌≡◌, refl, sym, ap, subst, ◌∙◌, arith, eq_iff, eq_refl, All,
  All-map,
}
use mcp_dispatch.Base.Result.{Result, ok, raise, ◌>>=◌}
use mcp_dispatch.Transport.{
  Envelope, Line, blank, malformed, wrong_type, entry, Repo, LaneFile, all_lane_files,
}
use mcp_dispatch.Transport.Collect.{
  same_option, same_slot, newer, keep_latest, passes_type, collect_lines, collect_files, collect,
}

-- A value that stands for a record: of its slot, and not older.
abbrev pub covers : Envelope → Envelope → Bool
covers e c = same_slot e c && not (newer e c)

same_option_refl : (o : Option String) → same_option o o ≡ true
same_option_refl none = refl
same_option_refl (some s) = eq_refl s

same_option_eq : (o p : Option String) → same_option o p ≡ true → o ≡ p
same_option_eq none none h = refl
same_option_eq none (some t) h = absurd (cc)
same_option_eq (some s) none h = absurd (cc)
same_option_eq (some s) (some t) h =
    let same : s ≡ t = ground (arith, h, eq_iff s t) in ap some same

covers_refl : (e : Envelope) → covers e e ≡ true
covers_refl e = ground (arith, eq_refl e.from, same_option_refl e.key)

-- A newer record of the slot covers what the older one covers.
covers-newer :
    (e cur env : Envelope)
    → covers e cur ≡ true
    → same_slot cur env ≡ true
    → newer env cur ≡ true
    → covers e env ≡ true
covers-newer e cur env c s n =
    let from : cur.from ≡ env.from = ground (arith, s, eq_iff cur.from env.from) in
    let key = same_option_eq cur.key env.key (ground (arith, s)) in
    let slot : same_slot e env ≡ true =
      (λ i. e.from == sym from i && same_option e.key (sym key i)) ∙ ground (arith, c) in
    let not_older : newer e env ≡ false = ground (arith, c, n) in ground (arith, slot, not_older)

-- A record that is no newer is covered by the one that is kept.
covers-kept :
    (env cur : Envelope) → same_slot cur env ≡ true → newer env cur ≡ false → covers env cur ≡ true
covers-kept env cur s n =
    let from : cur.from ≡ env.from = ground (arith, s, eq_iff cur.from env.from) in
    let key = same_option_eq cur.key env.key (ground (arith, s)) in
    let slot : same_slot env cur ≡ true =
      (λ i. env.from == from i && same_option env.key (key i))
      ∙ ground (arith, eq_refl env.from, same_option_refl env.key) in
    ground (arith, slot, n)

keep_latest-covers_new :
    (env : Envelope) (latest : List Envelope) → any (covers env) (keep_latest env latest) ≡ true
unfolding keep_latest
keep_latest-covers_new env [] = ground (arith, covers_refl env)
keep_latest-covers_new env (cur ∷ latest) = elim (Bool-cases (same_slot cur env)) [
  | inr f ↦ rw f (ground (arith, keep_latest-covers_new env latest))
  | inl t ↦ elim (Bool-cases (newer env cur)) [
    | inl n ↦ rw (t, n) (ground (arith, covers_refl env))
    | inr o ↦ rw (t, o) (ground (arith, covers-kept env cur t o))
  ]
]

keep_latest-covers_old :
    (e env : Envelope) (latest : List Envelope)
    → any (covers e) latest ≡ true
    → any (covers e) (keep_latest env latest) ≡ true
unfolding keep_latest
keep_latest-covers_old e env [] h = absurd (cc)
keep_latest-covers_old e env (cur ∷ latest) h = elim (Bool-cases (covers e cur)) [
  | inl c ↦ elim (Bool-cases (same_slot cur env)) [
    | inr f ↦ rw f (ground (arith, c))
    | inl t ↦ elim (Bool-cases (newer env cur)) [
      | inl n ↦ rw (t, n) (ground (arith, covers-newer e cur env c t n))
      | inr o ↦ rw (t, o) (ground (arith, c))
    ]
  ]
  | inr other ↦
      let later : any (covers e) latest ≡ true = ground (arith, other, h) in
      elim (Bool-cases (same_slot cur env)) [
        | inr f ↦ rw f (ground (arith, keep_latest-covers_old e env latest later))
        | inl t ↦ rw t (ground (arith, later))
      ]
]

-- A record of a line that the filter lets through is covered by the values.
abbrev pub Covered : Option String → List Envelope → Line → Type 0
Covered filter result blank = Unit
Covered filter result malformed = Unit
Covered filter result wrong_type = Unit
Covered filter result (entry env) = (not (passes_type filter env) || any (covers env) result) ≡ true

abbrev Keeps : List Envelope → List Envelope → Type 0
Keeps latest result = (e : Envelope) → any (covers e) latest ≡ true → any (covers e) result ≡ true

Covered-mono :
    (filter : Option String) (latest result : List Envelope) (line : Line)
    → Keeps latest result
    → Covered filter latest line
    → Covered filter result line
Covered-mono filter latest result blank k c = tt
Covered-mono filter latest result malformed k c = tt
Covered-mono filter latest result wrong_type k c = tt
Covered-mono filter latest result (entry env) k c = ground (arith, c, k env)

next-Keeps :
    (filter : Option String) (env : Envelope) (latest : List Envelope)
    → Keeps latest (if passes_type filter env then keep_latest env latest else latest)
next-Keeps filter env latest =
    elim (passes_type filter env)
      as (λ b. Keeps latest (if b then keep_latest env latest else latest)) [
        | true ↦ λ e h. keep_latest-covers_old e env latest h
        | false ↦ λ e h. h
      ]

collect_lines-Covered :
    (filter : Option String) (lines : List Line) (latest result : List Envelope)
    → collect_lines filter lines latest ≡ ok result
    → Keeps latest result × All (Covered filter result) lines
unfolding collect_lines
collect_lines-Covered filter [] latest result e =
    let same : latest ≡ result = cc in (λ x h. subst (λ l. any (covers x) l ≡ true) same h, tt)
collect_lines-Covered filter (blank ∷ lines) latest result e =
    let (keeps, rest) = collect_lines-Covered filter lines latest result e in (keeps, (tt, rest))
collect_lines-Covered filter (malformed ∷ lines) latest result e =
    let (keeps, rest) = collect_lines-Covered filter lines latest result e in (keeps, (tt, rest))
collect_lines-Covered filter (wrong_type ∷ lines) latest result e = absurd (cc)
collect_lines-Covered filter (entry env ∷ lines) latest result e =
    let next = if passes_type filter env then keep_latest env latest else latest in
    let (keeps, rest) = collect_lines-Covered filter lines next result e in
    (
      λ x h. keeps x (next-Keeps filter env latest x h),
      (
        elim (Bool-cases (passes_type filter env)) [
          | inl p ↦ ground (arith, keeps env (rw p (keep_latest-covers_new env latest)))
          | inr n ↦ ground (arith, n)
        ],
        rest,
      ),
    )

returned :
    (m : Result (Unit {0}) (List Envelope)) (f : List Envelope → Result (Unit {0}) (List Envelope))
    (result : List Envelope)
    → (m >>= f) ≡ ok result
    → (next : List Envelope) × (m ≡ ok next) × (f next ≡ ok result)
returned (ok next) f result e = (next, refl, e)
returned (raise x) f result e = absurd (cc)

collect_files-Covered :
    (filter : Option String) (files : List LaneFile) (latest result : List Envelope)
    → collect_files filter files latest ≡ ok result
    → Keeps latest result × All (λ (f : LaneFile). All (Covered filter result) f.1) files
unfolding collect_files
collect_files-Covered filter [] latest result e =
    let same : latest ≡ result = cc in (λ x h. subst (λ l. any (covers x) l ≡ true) same h, tt)
collect_files-Covered filter ((path, lines) ∷ files) latest result e =
    let (next, of_lines, of_files) =
      returned (collect_lines filter lines latest) (λ n. collect_files filter files n) result e in
    let (keeps_lines, here) = collect_lines-Covered filter lines latest next of_lines in
    let (keeps_files, rest) = collect_files-Covered filter files next result of_files in
    (
      λ x h. keeps_files x (keeps_lines x h),
      (
        All-map (Covered filter next) (Covered filter result) lines
            (λ line c. Covered-mono filter next result line keeps_files c) here,
        rest,
      ),
    )

-- The last writer wins: when collect returns, each record of each lane that the filter lets through
-- has among the values one of its author and key that is not older, by sequence number and time.
pub collect-Covered :
    (filter : Option String) (repo : Repo) (result : List Envelope)
    → collect filter repo ≡ ok result
    → All (λ (f : LaneFile). All (Covered filter result) f.1) (all_lane_files repo)
unfolding collect
collect-Covered filter repo result e =
    (collect_files-Covered filter (all_lane_files repo) [] result e).1
