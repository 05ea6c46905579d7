-- ===== src/Tasks/Claim.antt =====
-- server.py, _claim_task: calls for one task whose accesses come in any order.
use mcp_dispatch.Base.{
  ℕ, String, Bool, true, false, ◌==◌, Option, none, some, List, [], ◌∷◌, if◌then◌else◌, eqb,
  Bool-cases, ◌⊎◌, inl, inr, ◌≡◌, refl, sym, subst, arith,
}
use mcp_dispatch.Base.Dict.{get}
use mcp_dispatch.Tasks.{Store, Call, called, checked, created, written, returned, refused, step}
use mcp_dispatch.Tasks.Moves.{is_created, Fits, Fits-none, Fits-empty, Moves, step-Moves}

-- The store, and how far each call for the task has come.
pub record System : Type 0 where
  pub store : Store
  pub calls : ℕ → Call

-- One access by process `p`, and a schedule of accesses by any processes in any order.
module _ (id : String) (agents : ℕ → String) where
  unfoldable pub advance : ℕ × ℕ → System → System
  unfolding step
  advance (p, now) sys =
      let (store, call) = step id (agents p) now sys.store (sys.calls p) in
      record { store = store; calls = λ q. if eqb p q then call else sys.calls q }

  unfoldable pub advances : List (ℕ × ℕ) → System → System
  unfolding advance
  advances [] sys = sys
  advances (turn ∷ turns) sys = advances turns (advance turn sys)

  -- What the markers say is what the calls did, and one call at most is between the creation of
  -- the marker and the write to it.
  pub record Exclusive (sys : System) : Type 0 where
    pub fits : (p : ℕ) → Fits (get sys.store.markers id) (agents p) (sys.calls p)
    pub alone :
        (p q : ℕ) → is_created (sys.calls p) ≡ true → is_created (sys.calls q) ≡ true → p ≡ q

  not_created_none :
      (agent_id : String) (call : Call) → Fits none agent_id call → is_created call ≡ false
  not_created_none agent_id called h = refl
  not_created_none agent_id (checked task) h = refl
  not_created_none agent_id (created task) h = absurd (cc)
  not_created_none agent_id (written task) h = refl
  not_created_none agent_id (returned task) h = refl
  not_created_none agent_id (refused e) h = refl

  -- Another process's call still fits after the access, ...
  others-Fits :
      (p q : ℕ) (before : Call) (marker marker' : Option String) (sys : System)
      → agents q == "" ≡ false
      → Fits marker (agents q) (sys.calls q)
      → (is_created before ≡ true → is_created (sys.calls q) ≡ true → p ≡ q)
      → eqb p q ≡ false
      → (marker' ≡ marker) ⊎ (marker ≡ none) ⊎ (is_created before ≡ true) × (marker ≡ some "")
      → Fits marker' (agents q) (sys.calls q)
  others-Fits p q before marker marker' sys n h alone other (inl same) =
      subst (λ m. Fits m (agents q) (sys.calls q)) (sym same) h
  others-Fits p q before marker marker' sys n h alone other (inr (inl none_yet)) =
      Fits-none marker' (agents q) (sys.calls q)
        (subst (λ m. Fits m (agents q) (sys.calls q)) none_yet h)
  others-Fits p q before marker marker' sys n h alone other (inr (inr (mine, empty))) =
      elim (Bool-cases (is_created (sys.calls q))) [
        | inl t ↦ let same = alone mine t in absurd (ground (arith, same, other))
        | inr f ↦
            Fits-empty marker' (agents q) (sys.calls q) n f
              (subst (λ m. Fits m (agents q) (sys.calls q)) empty h)
      ]

  -- ... and so does every call.
  advance-Fits :
      (p now : ℕ) (sys : System)
      → ((q : ℕ) → agents q == "" ≡ false)
      → Exclusive sys
      → (q : ℕ)
      → Fits
          (get (advance (p, now) sys).store.markers id)
          (agents q)
          ((advance (p, now) sys).calls q)
  unfolding advance Moves
  advance-Fits p now sys named ex q =
      let marker = get sys.store.markers id in
      let marker' = get (step id (agents p) now sys.store (sys.calls p)).0.markers id in
      let call = (step id (agents p) now sys.store (sys.calls p)).1 in
      let (mine, moved, new) = step-Moves id (agents p) now sys.store (sys.calls p) (ex.fits p) in
      elim (Bool-cases (eqb p q)) [
        | inl t ↦
            let same : p ≡ q = ground (arith, t) in
            rw t (subst (λ r. Fits marker' (agents r) call) same mine)
        | inr f ↦ rw f (
            others-Fits p q (sys.calls p) marker marker' sys (named q) (ex.fits q) (ex.alone p q) f
              moved)
      ]

  advance-alone :
      (p now : ℕ) (sys : System)
      → Exclusive sys
      → (q r : ℕ) → is_created ((advance (p, now) sys).calls q) ≡ true
      → is_created ((advance (p, now) sys).calls r) ≡ true
      → q ≡ r
  unfolding advance Moves
  advance-alone p now sys ex q r hq hr =
      let (mine, moved, new) = step-Moves id (agents p) now sys.store (sys.calls p) (ex.fits p) in
      let none_created : get sys.store.markers id ≡ none
          → (s : ℕ) → is_created (sys.calls s) ≡ false =
        λ e s.
          not_created_none (agents s) (sys.calls s)
            (subst (λ m. Fits m (agents s) (sys.calls s)) e (ex.fits s)) in
      elim new [
        | inl ended ↦ ground (arith, hq, hr, ended, ex.alone q r)
        | inr fresh ↦ ground (arith, hq, hr, none_created fresh q, none_created fresh r)
      ]

  advances-Exclusive :
      (turns : List (ℕ × ℕ)) (sys : System)
      → ((q : ℕ) → agents q == "" ≡ false)
      → Exclusive sys
      → Exclusive (advances turns sys)
  unfolding advances
  advances-Exclusive [] sys named ex = ex
  advances-Exclusive ((p, now) ∷ turns) sys named ex =
      advances-Exclusive turns (advance (p, now) sys) named
        (record { fits = advance-Fits p now sys named ex; alone = advance-alone p now sys ex })

abbrev pub is_returned : Call → Bool
is_returned (returned task) = true
is_returned _ = false

returned-marker :
    (marker : Option String) (agent_id : String) (call : Call)
    → Fits marker agent_id call
    → is_returned call ≡ true
    → marker ≡ some agent_id
returned-marker marker agent_id called h e = absurd (cc)
returned-marker marker agent_id (checked task) h e = absurd (cc)
returned-marker marker agent_id (created task) h e = absurd (cc)
returned-marker marker agent_id (written task) h e = absurd (cc)
returned-marker marker agent_id (returned task) h e = h
returned-marker marker agent_id (refused e') h e = absurd (cc)

abbrev pub all_called : Store → System
all_called store = record { store = store; calls = λ p. called }

-- Of any calls of _claim_task for one task, whose accesses come in any order, all that return are
-- of one agent, whatever is in the directory before; the agents' ids are not empty.
pub claims-exclusive :
    (id : String) (agents : ℕ → String) (turns : List (ℕ × ℕ)) (store : Store) (p q : ℕ)
    → ((r : ℕ) → agents r == "" ≡ false)
    → is_returned ((advances id agents turns (all_called store)).calls p) ≡ true
    → is_returned ((advances id agents turns (all_called store)).calls q) ≡ true
    → agents p ≡ agents q
claims-exclusive id agents turns store p q named hp hq =
    let sys = advances id agents turns (all_called store) in
    let ex =
      advances-Exclusive id agents turns (all_called store) named
        (record { fits = λ r. tt; alone = λ r s h k. absurd (cc) }) in
    let mp = returned-marker _ (agents p) (sys.calls p) (ex.fits p) hp in
    let mq = returned-marker _ (agents q) (sys.calls q) (ex.fits q) hq in cc
