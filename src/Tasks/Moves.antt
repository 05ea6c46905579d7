-- ===== src/Tasks/Moves.antt =====
-- server.py, _claim_task: what one access of a call does to the claim marker.
use mcp_dispatch.Base.{
  ℕ, String, Bool, true, false, ◌==◌, Option, none, some, if◌then◌else◌, Bool-cases, ◌⊎◌, inl, inr,
  ◌≡◌, refl, ap, ◌∙◌, arith, eq_iff,
}
use mcp_dispatch.Base.Dict.{Dict, get, put, get-put}
use mcp_dispatch.Base.Result.{Result, ok, raise}
use mcp_dispatch.Tasks.{
  Task, TaskError, Store, Call, called, checked, created, written, returned, refused, already_done,
  is_done, read_task, after_read, create_marker, step,
}

abbrev pub is_created : Call → Bool
is_created (created task) = true
is_created _ = false

-- What the marker says while a call is where it is.
abbrev pub Fits : Option String → String → Call → Type 0
Fits marker agent_id (created task) = marker ≡ some ""
Fits marker agent_id (written task) = marker ≡ some agent_id
Fits marker agent_id (returned task) = marker ≡ some agent_id
Fits marker agent_id _ = Unit

pub Fits-none :
    (marker : Option String) (agent_id : String) (call : Call)
    → Fits none agent_id call
    → Fits marker agent_id call
Fits-none marker agent_id called h = tt
Fits-none marker agent_id (checked task) h = tt
Fits-none marker agent_id (created task) h = absurd (cc)
Fits-none marker agent_id (written task) h = absurd (cc)
Fits-none marker agent_id (returned task) h = absurd (cc)
Fits-none marker agent_id (refused e) h = tt

pub Fits-empty :
    (marker : Option String) (agent_id : String) (call : Call)
    → agent_id == "" ≡ false
    → is_created call ≡ false
    → Fits (some "") agent_id call
    → Fits marker agent_id call
Fits-empty marker agent_id called n c h = tt
Fits-empty marker agent_id (checked task) n c h = tt
Fits-empty marker agent_id (created task) n c h = absurd (cc)
Fits-empty marker agent_id (written task) n c h = absurd (ground (arith, eq_iff agent_id "", h, n))
Fits-empty marker agent_id (returned task) n c h = absurd (ground (arith, eq_iff agent_id "", h, n))
Fits-empty marker agent_id (refused e) n c h = tt

-- What one access of a call does, with the marker before and after it.
unfoldable pub Moves : String → Call → Option String → Option String → Call → Type 0
Moves agent_id before marker marker' after =
    Fits marker' agent_id after
    × ((marker' ≡ marker) ⊎ (marker ≡ none) ⊎ (is_created before ≡ true) × (marker ≡ some ""))
    × ((is_created after ≡ false) ⊎ (marker ≡ none))

marker-put : (markers : Dict String) (id text : String) → get (put markers id text) id ≡ some text
marker-put markers id text = ground (arith, get-put markers id id text, eq_iff id id)

after_read-Moves :
    (agent_id : String) (before : Call) (marker : Option String) (read : Result TaskError Task)
    → Moves agent_id before marker marker (after_read read)
unfolding Moves after_read
after_read-Moves agent_id before marker (raise e) = (tt, inl refl, inl refl)
after_read-Moves agent_id before marker (ok task) =
    elim (is_done task.state)
      as (λ b.
        Moves agent_id before marker marker (if b then refused already_done else checked task)) [
          | true ↦ (tt, inl refl, inl refl)
          | false ↦ (tt, inl refl, inl refl)
        ]

create_marker-Moves :
    (id agent_id : String) (store : Store) (task : Task) (found : Option String)
    → get store.markers id ≡ found
    → Moves agent_id
        (checked task)
        (get store.markers id)
        (get (create_marker id agent_id store task found).0.markers id)
        (create_marker id agent_id store task found).1
unfolding Moves create_marker
create_marker-Moves id agent_id store task none e =
    (marker-put store.markers id "", inr (inl e), inr e)
create_marker-Moves id agent_id store task (some holder) e =
    elim (Bool-cases (holder == agent_id)) [
      | inl t ↦ rw t (e ∙ ap some (ground (arith, t, eq_iff holder agent_id)), inl refl, inl refl)
      | inr f ↦ rw f (tt, inl refl, inl refl)
    ]

pub step-Moves :
    (id agent_id : String) (now : ℕ) (store : Store) (call : Call)
    → Fits (get store.markers id) agent_id call
    → Moves agent_id call
        (get store.markers id)
        (get (step id agent_id now store call).0.markers id)
        (step id agent_id now store call).1
unfolding step Moves
step-Moves id agent_id now store called h =
    after_read-Moves agent_id called (get store.markers id) (read_task store id)
step-Moves id agent_id now store (checked task) h =
    create_marker-Moves id agent_id store task (get store.markers id) refl
step-Moves id agent_id now store (created task) h =
    (marker-put store.markers id agent_id, inr (inr (refl, h)), inl refl)
step-Moves id agent_id now store (written task) h = (h, inl refl, inl refl)
step-Moves id agent_id now store (returned task) h = (h, inl refl, inl refl)
step-Moves id agent_id now store (refused e) h = (tt, inl refl, inl refl)
