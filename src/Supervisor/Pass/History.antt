-- ===== src/Supervisor/Pass/History.antt =====
-- How often one nick is started, from the times of its starts.
use mathlib.Core.List.{append-nil}
use mcp_dispatch.Base.{
  ℕ, ◌+◌, ◌-◌, ◌≤◌, ◌<◌, min, Bool, true, false, ◌&&◌, ◌≡◌, refl, ap, sym, ◌∙◌, List, [], ◌∷◌, ◌++◌,
  select, length, length-append, select-append, All, All-append, All-map, All-select, All-of_select,
  select-select, length-select_mono, ltb, leb, if◌then◌else◌, Bool-cases, arith, inl, inr, ◌⊎◌,
}
use mcp_dispatch.Supervisor.Decision.{
  SupervisorConfig, NickState, rate_window, in_window, has_starts, last_start, recent_starts,
}

-- Later times are at least `gap` after earlier ones.
abbrev pub Spaced : ℕ → List ℕ → Type 0
Spaced gap [] = Unit
Spaced gap (t ∷ ts) = All (λ u. t + gap ≤ u) ts × Spaced gap ts

-- The hour that begins at `from`.
abbrev pub within : ℕ → ℕ → Bool
within from t = leb from t && ltb t (from + rate_window)

-- The gap that the supervisor keeps: the cooldown, up to an hour.
abbrev pub gap_of : SupervisorConfig → ℕ
gap_of cfg = min cfg.cooldown rate_window

-- `times` are all the starts of a nick so far, `now` is the present, and `state` what the
-- supervisor remembers: the starts of the last hour.
pub record Tracks (cfg : SupervisorConfig) (now : ℕ) (times : List ℕ) (state : NickState)
    : Type 0 where
  pub kept : select (in_window now) state.starts ≡ select (in_window now) times
  pub past : All (λ t. t ≤ now) times
  pub spaced : Spaced (gap_of cfg) times
  pub rate : (from : ℕ) → length (select (within from) times) ≤ cfg.max_starts_per_hour

in_window-earlier :
    (now later t : ℕ) → now ≤ later → in_window later t ≡ true → in_window now t ≡ true
in_window-earlier now later t le h = ground arith

pub Tracks-later :
    {cfg : SupervisorConfig} {now : ℕ} {times : List ℕ} {state : NickState} (later : ℕ)
    → now ≤ later
    → Tracks cfg now times state
    → Tracks cfg later times state
Tracks-later {cfg} {now} {times} {state} later le t = record {
  kept =
      sym (
        select-select (in_window later) (in_window now) state.starts
          (λ u. in_window-earlier now later u le))
      ∙ ap (select (in_window later)) t.kept
      ∙ select-select (in_window later) (in_window now) times
          (λ u. in_window-earlier now later u le);
  past = All-map _ _ times (λ u h. omega arith) t.past;
  spaced = t.spaced;
  rate = t.rate;
}

-- A state that remembers the same recent starts tracks the same times.
pub Tracks-prune :
    {cfg : SupervisorConfig} {now : ℕ} {times : List ℕ} {state state' : NickState}
    → Tracks cfg now times state
    → state'.starts ≡ select (in_window now) state.starts
    → Tracks cfg now times state'
Tracks-prune {cfg} {now} {times} {state} t e = record {
  kept = rw e (select-select (in_window now) (in_window now) state.starts (λ u h. h) ∙ t.kept);
  past = t.past;
  spaced = t.spaced;
  rate = t.rate;
}

Spaced-select : (gap : ℕ) (p : ℕ → Bool) (ts : List ℕ) → Spaced gap ts → Spaced gap (select p ts)
Spaced-select gap p [] h = tt
Spaced-select gap p (t ∷ ts) h =
    elim (p t) as (λ b. Spaced gap (if b then t ∷ select p ts else select p ts)) [
      | true ↦ (All-select _ p ts h.0, Spaced-select gap p ts h.1)
      | false ↦ Spaced-select gap p ts h.1
    ]

Spaced-append :
    (gap now : ℕ) (ts : List ℕ)
    → Spaced gap ts
    → All (λ t. t + gap ≤ now) ts
    → Spaced gap (ts ++ now ∷ [])
Spaced-append gap now [] h k = (tt, tt)
Spaced-append gap now (t ∷ ts) h k =
    (All-append _ ts (now ∷ []) h.0 (k.0, tt), Spaced-append gap now ts h.1 k.1)

-- In a spaced list nothing is later than the last element.
before_last :
    (gap now : ℕ) (t : ℕ) (ts : List ℕ)
    → Spaced gap (t ∷ ts)
    → last_start (t ∷ ts) + gap ≤ now
    → All (λ u. u + gap ≤ now) (t ∷ ts)
unfolding last_start
before_last gap now t [] h k = (k, tt)
before_last gap now t (u ∷ ts) h k =
    let rest = before_last gap now u ts h.1 k in (omega (arith, rest.0, h.0.0), rest)

module _ {cfg : SupervisorConfig} {now : ℕ} {times : List ℕ} {state : NickState}
    (t : Tracks cfg now times state) (pruned : state.starts ≡ select (in_window now) state.starts)
    (cooled : has_starts state.starts ≡ true → cfg.cooldown ≤ now - last_start state.starts) where
  remembered : state.starts ≡ select (in_window now) times
  remembered = pruned ∙ t.kept

  starts_past : (ts : List ℕ) → All (λ u. u ≤ now) ts → last_start ts ≤ now
  unfolding last_start
  starts_past [] h = omega arith
  starts_past (u ∷ []) h = h.0
  starts_past (u ∷ v ∷ ts) h = starts_past (v ∷ ts) h.1

  cooled-All :
      (ts : List ℕ)
      → Spaced (gap_of cfg) ts
      → All (λ u. u ≤ now) ts
      → (has_starts ts ≡ true → cfg.cooldown ≤ now - last_start ts)
      → All (λ u. u + gap_of cfg ≤ now) ts
  cooled-All [] s p c = tt
  cooled-All (u ∷ ts) s p c =
      before_last (gap_of cfg) now u ts s (omega (arith, c refl, starts_past (u ∷ ts) p))

  -- Every start so far is a whole gap before `now`: those remembered by the cooldown, the others
  -- because an hour has passed.
  times_before : All (λ u. u + gap_of cfg ≤ now) times
  times_before =
      All-of_select _ (in_window now) times
        (cooled-All _ (Spaced-select _ _ times t.spaced) (All-select _ _ times t.past)
          (rw remembered at cooled))
        (All-map _ _ times (λ u h. old u (Bool-cases (in_window now u))) t.past)
    where
      old :
          (u : ℕ)
          → ((in_window now u ≡ true) ⊎ (in_window now u ≡ false))
          → (in_window now u ≡ true) ⊎ (u + gap_of cfg ≤ now)
      old u (inl h) = inl h
      old u (inr h) = inr (ground arith)

  recent_within :
      (from : ℕ)
      → within from now ≡ true
      → length (select (within from) times) ≤ recent_starts state now
  unfolding recent_starts
  recent_within from i = rw (t.kept) (
      length-select_mono (within from) (in_window now) times
        (All-map _ _ times (λ u past inside. ground arith) t.past))

  module _ (rate : recent_starts state now < cfg.max_starts_per_hour) where
    rate_after :
        (from : ℕ) → length (select (within from) (times ++ now ∷ [])) ≤ cfg.max_starts_per_hour
    rate_after from = elim (Bool-cases (within from now)) [
      | inl i ↦
          rw (select-append (within from) times (now ∷ []), i)
            (omega
              (arith, length-append (select (within from) times) (now ∷ []), recent_within from i))
      | inr o ↦
          rw (select-append (within from) times (now ∷ []), o)
            (rw (append-nil (select (within from) times)) (t.rate from))
    ]

    -- A start whose gates have passed keeps the spacing and the hourly ceiling.
    pub Tracks-launch :
        {state' : NickState}
        → state'.starts ≡ state.starts ++ now ∷ []
        → Tracks cfg now (times ++ now ∷ []) state'
    Tracks-launch e = record {
      kept =
          rw
            (
              e,
              select-append (in_window now) state.starts (now ∷ []),
              select-append (in_window now) times (now ∷ []),
              t.kept,
            )
            refl;
      past = All-append _ times (now ∷ []) t.past (omega arith, tt);
      spaced = Spaced-append (gap_of cfg) now times t.spaced times_before;
      rate = rate_after;
    }
