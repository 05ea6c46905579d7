-- ===== src/Tasks/Work/Lost.antt =====
-- server.py, _complete_task in the middle of a claim.
use mcp_dispatch.Base.{ℕ, zero, suc, ◌-◌, ◌≤◌, String, false, none, some, ◌≡◌, refl, eq_refl, arith}
use mcp_dispatch.Base.Dict.{get, put, get-put}
use mcp_dispatch.Base.Result.{ok}
use mcp_dispatch.Tasks.{
  Task, Store, Call, called, checked, created, written, returned, is_done, read_task, after_read,
  create_marker, claimed_task, step,
}
use mcp_dispatch.Tasks.Work.{done_task, complete_read, complete_task}

module _ (id owner agent : String) (now later : ℕ) where
  -- The next `k` accesses of a claim of the task for `owner`, at the time `later`.
  unfoldable pub steps : ℕ → Store × Call → Store × Call
  steps zero st = st
  steps (suc k) st = steps k (step id owner later st.0 st.1)

  -- The rest of the claim overwrites the record, and the marker names its owner.
  abbrev pub Overwritten : Task → Store × Call → Type 0
  Overwritten task (store, call) =
      (call ≡ returned (claimed_task owner later task))
      × (get store.records id ≡ some (some (claimed_task owner later task)))
      × (get store.markers id ≡ some owner)

  steps-written :
      (store : Store) (task : Task)
      → get store.markers id ≡ some owner
      → Overwritten task (steps 1 (store, written task))
  unfolding steps step
  steps-written store task m = (refl, rw (get-put, eq_refl id) refl, m)

  steps-created : (store : Store) (task : Task) → Overwritten task (steps 2 (store, created task))
  unfolding steps step
  steps-created store task = (refl, rw (get-put, eq_refl id) refl, rw (get-put, eq_refl id) refl)

  steps-checked :
      (store : Store) (task : Task)
      → get store.markers id ≡ none
      → Overwritten task (steps 3 (store, checked task))
  unfolding steps step create_marker
  steps-checked store task m =
      rw m (refl, rw (get-put, eq_refl id) refl, rw (get-put, eq_refl id) refl)

  -- A completion of the task between two accesses of the claim, which have left the store and the
  -- call at `mid`: it succeeds, and the last `rest` accesses of the claim undo it.
  abbrev pub Undone : ℕ → Task → Store × Call → Type 0
  Undone rest task (mid, call) =
      (after : Store) × (complete_task mid id agent now ≡ ok (done_task agent now task, after))
      × Overwritten task (steps rest (after, call))

  abbrev completed : Store → Task → Store
  completed store task = record store {
    records = put store.records id (some (done_task agent now task));
  }

  complete_task-ok :
      (store : Store) (task : Task)
      → get store.records id ≡ some (some task)
      → task.claimed_by ≡ none
      → complete_task store id agent now ≡ ok (done_task agent now task, completed store task)
  unfolding complete_task complete_read read_task
  complete_task-ok store task found free = rw (found, free) refl

  -- A completion can be lost. Of a task that is not done and that its record and the markers call
  -- unclaimed, let a claim have done one, two or three of its four accesses: read the record,
  -- created its marker, or written it. A completion by any agent then succeeds, and when the claim
  -- has done the rest it returns the task, the record is claimed again, as if nothing had been
  -- completed, and the marker names the claim's owner.
  pub complete-lost :
      (store : Store) (task : Task) (k : ℕ)
      → get store.records id ≡ some (some task)
      → task.claimed_by ≡ none
      → is_done task.state ≡ false
      → get store.markers id ≡ none
      → 1 ≤ k
      → k ≤ 3
      → Undone (4 - k) task (steps k (store, called))
  unfolding steps step read_task after_read create_marker
  complete-lost store task zero found free todo unmarked low high = absurd (omega (arith, low))
  complete-lost store task (suc zero) found free todo unmarked low high =
      rw (found, todo)
        (
          completed store task,
          complete_task-ok store task found free,
          steps-checked (completed store task) task unmarked,
        )
  complete-lost store task (suc (suc zero)) found free todo unmarked low high =
      let mid = record store { markers = put store.markers id "" } in
      rw (found, todo, unmarked)
        (
          completed mid task,
          complete_task-ok mid task found free,
          steps-created (completed mid task) task,
        )
  complete-lost store task (suc (suc (suc zero))) found free todo unmarked low high =
      let mid = record store { markers = put (put store.markers id "") id owner } in
      rw (found, todo, unmarked)
        (
          completed mid task,
          complete_task-ok mid task found free,
          steps-written (completed mid task) task (rw (get-put, eq_refl id) refl),
        )
  complete-lost store task (suc (suc (suc (suc k)))) found free todo unmarked low high =
      absurd (omega (arith, high))
