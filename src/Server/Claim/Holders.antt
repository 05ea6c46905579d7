-- ===== src/Server/Claim/Holders.antt =====
-- server.py: the processes of a host that claim ids, reap presence files, leave, and die, in any
-- order.
use mcp_dispatch.Base.{
  ℕ, String, false, ◌==◌, Option, none, some, List, [], ◌∷◌, eqb, Bool-cases, not, ◌&&◌, elem, inl,
  inr, ◌≡◌, ◌≢◌, refl, sym, subst, ◌∙◌, arith, eq_refl,
}
use mcp_dispatch.Base.Dict.{Dict, get, get-put}
use mcp_dispatch.Ident.{is_id}
use mcp_dispatch.Server.Claim.{
  ClaimError, Start, Phase, idle, claiming, opened, holding, refused, looking, sweeping, swept,
  has_roster, unlink, begin_claim, create, open_file, lock, try_lock, unlock, advance, look, Host,
  Event, starts, looks, goes_on, ends, if_idle, set_phase, happen,
}
use mcp_dispatch.Server.Claim.Locks.{
  Fits, AllFit, set_phase-AllFit, create-others, lock-others, unlock-others, is_waiting,
  unlink-others,
}

unfoldable pub run_events : List Event → Host → Host
run_events [] host = host
run_events (event ∷ events) host = run_events events (happen event host)

-- Where `p` unlinks the file of an id, no other process has it open with the lock not yet tried.
abbrev pub QuietUnlink : ℕ → Host → Phase → Type 0
QuietUnlink p host (sweeping id inode) =
    (q : ℕ) → eqb p q ≡ false → is_waiting id (host.phase q) ≡ false
QuietUnlink p host _ = Unit

abbrev pub QuietEvent : Event → Host → Type 0
QuietEvent (goes_on p) host = QuietUnlink p host (host.phase p)
QuietEvent _ host = Unit

abbrev pub QuietUnlinks : List Event → Host → Type 0
QuietUnlinks [] host = Unit
QuietUnlinks (event ∷ events) host = QuietEvent event host × QuietUnlinks events (happen event host)

module _ (p : ℕ) (host : Host) (all : AllFit host) where
  -- An access that leaves the directory as it is.
  same-AllFit : (next : Phase) → Fits host.dir p next → AllFit (set_phase p host (host.dir, next))
  same-AllFit next own = set_phase-AllFit p host host.dir next own (λ q f. all q)

  open_file-AllFit :
      (id : String) (ids : List String) (e : ClaimError) (o : Option ℕ)
      → get host.dir.names id ≡ o
      → AllFit (set_phase p host (open_file id ids e host.dir o))
  unfolding open_file
  open_file-AllFit id ids e (some inode) found = same-AllFit (opened id inode ids e) found
  open_file-AllFit id ids e none found =
      set_phase-AllFit p host (create id host.dir) (opened id host.dir.next ids e)
        (rw (get-put, eq_refl id) refl)
        (λ q f. create-others host.dir id q (host.phase q) found (all q))

  try_lock-AllFit :
      (inode : ℕ) (o : Option ℕ) (won lost : Phase)
      → host.dir.locks inode ≡ o
      → Fits (lock p inode host.dir) p won
      → Fits host.dir p lost
      → AllFit (set_phase p host (try_lock p inode host.dir o won lost))
  unfolding try_lock
  try_lock-AllFit inode none won lost free own back =
      set_phase-AllFit p host (lock p inode host.dir) won own
        (λ q f. lock-others p inode host.dir q (host.phase q) free (all q))
  try_lock-AllFit inode (some r) won lost free own back = same-AllFit lost back

  advance-AllFit :
      (phase : Phase)
      → Fits host.dir p phase
      → QuietUnlink p host phase
      → AllFit (set_phase p host (advance p host.dir phase))
  unfolding advance
  advance-AllFit idle own quiet = same-AllFit idle tt
  advance-AllFit (claiming [] e) own quiet = same-AllFit (refused e) tt
  advance-AllFit (claiming (id ∷ ids) e) own quiet = open_file-AllFit id ids e _ refl
  advance-AllFit (opened id inode ids e) own quiet =
      try_lock-AllFit inode _ (holding id inode) (claiming ids e) refl (own, ground arith) tt
  advance-AllFit (holding id inode) own quiet = same-AllFit (holding id inode) own
  advance-AllFit (refused e) own quiet = same-AllFit (refused e) tt
  advance-AllFit (looking id inode) own quiet =
      try_lock-AllFit inode _ (sweeping id inode) idle refl (own, ground arith) tt
  advance-AllFit (sweeping id inode) own quiet =
      set_phase-AllFit p host (unlink id host.dir) (swept inode) own.1
        (λ q f. unlink-others host.dir p q id inode (host.phase q) own f (quiet q f) (all q))
  advance-AllFit (swept inode) own quiet =
      set_phase-AllFit p host (unlock p host.dir) idle tt
        (λ q f. unlock-others p host.dir q (host.phase q) f (all q))

  begin_claim-Fits : (start : Start) → Fits host.dir p (begin_claim start)
  unfolding begin_claim
  begin_claim-Fits start = elim (Bool-cases (start.explicit == "")) [
    | inl t ↦ elim (Bool-cases (has_roster start.agent_ids)) [
      | inl r ↦ rw (t, r) tt
      | inr n ↦ rw (t, n) tt
    ]
    | inr f ↦ elim (Bool-cases (is_id start.explicit)) [
      | inr bad ↦ rw (f, bad) tt
      | inl good ↦
          elim (Bool-cases
            (has_roster start.agent_ids && not (elem start.explicit start.agent_ids))) [
              | inl out ↦ rw (f, good, out) tt
              | inr inside ↦ rw (f, good, inside) tt
            ]
    ]
  ]

  look-Fits : (id : String) (o : Option ℕ) → get host.dir.names id ≡ o → Fits host.dir p (look id o)
  unfolding look
  look-Fits id none e = tt
  look-Fits id (some inode) e = e

  if_idle-Fits :
      (phase next : Phase)
      → Fits host.dir p phase
      → Fits host.dir p next
      → Fits host.dir p (if_idle phase next)
  if_idle-Fits idle next own h = h
  if_idle-Fits (claiming ids e) next own h = own
  if_idle-Fits (opened id inode ids e) next own h = own
  if_idle-Fits (holding id inode) next own h = own
  if_idle-Fits (refused e) next own h = own
  if_idle-Fits (looking id inode) next own h = own
  if_idle-Fits (sweeping id inode) next own h = own
  if_idle-Fits (swept inode) next own h = own

happen-AllFit :
    (event : Event) (host : Host) → AllFit host → QuietEvent event host → AllFit (happen event host)
unfolding happen
happen-AllFit (starts p start) host all quiet =
    same-AllFit p host all _
      (if_idle-Fits p host all (host.phase p) _ (all p) (begin_claim-Fits p host all start))
happen-AllFit (looks p id) host all quiet =
    same-AllFit p host all _
      (if_idle-Fits p host all (host.phase p) _ (all p) (look-Fits p host all id _ refl))
happen-AllFit (goes_on p) host all quiet = advance-AllFit p host all (host.phase p) (all p) quiet
happen-AllFit (ends p) host all quiet =
    set_phase-AllFit p host (unlock p host.dir) idle tt
      (λ q f. unlock-others p host.dir q (host.phase q) f (all q))

run_events-AllFit :
    (events : List Event) (host : Host)
    → AllFit host
    → QuietUnlinks events host
    → AllFit (run_events events host)
unfolding run_events
run_events-AllFit [] host all quiet = all
run_events-AllFit (event ∷ events) host all quiet =
    run_events-AllFit events (happen event host) (happen-AllFit event host all quiet.0) quiet.1

-- Presence files that nobody has locked, and no process.
abbrev pub at_first : Dict ℕ → ℕ → Host
at_first names next = record {
  dir = record { names = names; locks = λ i. none; next = next };
  phase = λ p. idle;
}

-- An id is of one process at a time: however processes claim ids, reap presence files, leave and
-- die, access by access, and whatever files are there before, where one process holds an id no
-- other does. The condition is that a file is unlinked only while no other process has the file of
-- that id open and its lock not yet tried.
pub run_events-one_holder :
    (names : Dict ℕ) (next : ℕ) (events : List Event) (p q : ℕ) (id : String) (i j : ℕ)
    → QuietUnlinks events (at_first names next)
    → eqb p q ≡ false
    → (run_events events (at_first names next)).phase p ≡ holding id i
    → (run_events events (at_first names next)).phase q ≢ holding id j
run_events-one_holder names next events p q id i j quiet other e f =
    let after = run_events events (at_first names next) in
    let all = run_events-AllFit events (at_first names next) (λ r. tt) quiet in
    let mine = subst (Fits after.dir p) e (all p) in
    let theirs = subst (Fits after.dir q) f (all q) in
    let one : some i ≡ some j = sym mine.0 ∙ theirs.0 in
    let file : i ≡ j = ground (arith, one) in
    let lock_p : after.dir.locks j ≡ some p = subst (λ n. after.dir.locks n ≡ some p) file mine.1 in
    let both : some p ≡ some q = sym lock_p ∙ theirs.1 in
    let pq : p ≡ q = ground (arith, both) in absurd (ground (arith, pq, other))
