-- ===== src/Server/Claim/Locks.antt =====
-- server.py: what the phase of a process says of the directory of presence files, through the
-- accesses of the others.
use mcp_dispatch.Base.{
  ℕ, String, Bool, false, ◌==◌, none, some, eqb, Bool-cases, inl, inr, ◌≡◌, refl, sym, subst, ap,
  ◌∙◌, arith, eq_iff,
}
use mcp_dispatch.Base.Dict.{get, remove, get-put, get-remove}
use mcp_dispatch.Server.Claim.{
  Directory, Phase, idle, claiming, opened, holding, refused, looking, sweeping, swept, unlink,
  create, lock, without, unlock, Host, set_phase,
}

-- What a phase says of the directory: the name leads to the file that is open, and the lock is the
-- process's.
abbrev pub Fits : Directory → ℕ → Phase → Type 0
Fits dir p idle = Unit
Fits dir p (claiming ids e) = Unit
Fits dir p (opened id inode ids e) = get dir.names id ≡ some inode
Fits dir p (holding id inode) = (get dir.names id ≡ some inode) × (dir.locks inode ≡ some p)
Fits dir p (refused e) = Unit
Fits dir p (looking id inode) = get dir.names id ≡ some inode
Fits dir p (sweeping id inode) = (get dir.names id ≡ some inode) × (dir.locks inode ≡ some p)
Fits dir p (swept inode) = dir.locks inode ≡ some p

Fits-map :
    (dir after : Directory) (q : ℕ) (phase : Phase)
    → ((id : String) (i : ℕ) → get dir.names id ≡ some i → get after.names id ≡ some i)
    → ((i : ℕ) → dir.locks i ≡ some q → after.locks i ≡ some q)
    → Fits dir q phase
    → Fits after q phase
Fits-map dir after q idle n l h = tt
Fits-map dir after q (claiming ids e) n l h = tt
Fits-map dir after q (opened id inode ids e) n l h = n id inode h
Fits-map dir after q (holding id inode) n l h = (n id inode h.0, l inode h.1)
Fits-map dir after q (refused e) n l h = tt
Fits-map dir after q (looking id inode) n l h = n id inode h
Fits-map dir after q (sweeping id inode) n l h = (n id inode h.0, l inode h.1)
Fits-map dir after q (swept inode) n l h = l inode h

abbrev pub AllFit : Host → Type 0
AllFit host = (p : ℕ) → Fits host.dir p (host.phase p)

-- An access of `p`: its own phase fits afterwards, and those of the others still do.
pub set_phase-AllFit :
    (p : ℕ) (host : Host) (dir : Directory) (next : Phase)
    → Fits dir p next
    → ((q : ℕ) → eqb p q ≡ false → Fits dir q (host.phase q))
    → AllFit (set_phase p host (dir, next))
unfolding set_phase
set_phase-AllFit p host dir next own others q = elim (Bool-cases (eqb p q)) [
  | inr f ↦ rw f (others q f)
  | inl t ↦ let same : p ≡ q = ground (arith, t) in rw t (subst (λ r. Fits dir r next) same own)
]

pub create-others :
    (dir : Directory) (id : String) (q : ℕ) (phase : Phase)
    → get dir.names id ≡ none
    → Fits dir q phase
    → Fits (create id dir) q phase
create-others dir id q phase free h =
    Fits-map dir (create id dir) q phase
      (λ k i e. get-put dir.names id k dir.next ∙ ground (arith, e, free, eq_iff id k)) (λ i e. e) h

pub lock-others :
    (p inode : ℕ) (dir : Directory) (q : ℕ) (phase : Phase)
    → dir.locks inode ≡ none
    → Fits dir q phase
    → Fits (lock p inode dir) q phase
lock-others p inode dir q phase free h =
    Fits-map dir (lock p inode dir) q phase (λ k i e. e)
      (λ i e. elim (Bool-cases (eqb inode i)) [
        | inr f ↦ rw f e
        | inl t ↦
            let same : inode ≡ i = ground (arith, t) in
            let off : dir.locks i ≡ none = subst (λ j. dir.locks j ≡ none) same free in absurd (cc)
      ])
      h

pub unlock-others :
    (p : ℕ) (dir : Directory) (q : ℕ) (phase : Phase)
    → eqb p q ≡ false
    → Fits dir q phase
    → Fits (unlock p dir) q phase
unlock-others p dir q phase other h =
    Fits-map dir (unlock p dir) q phase (λ k i e. e) (λ i e. ap (without p) e ∙ rw other refl) h

-- The process has opened the file of the id, for a claim or to reap it, and not tried its lock.
abbrev pub is_waiting : String → Phase → Bool
is_waiting id (opened k inode ids e) = k == id
is_waiting id (looking k inode) = k == id
is_waiting id _ = false

get-unlink :
    (dir : Directory) (id k : String) (i : ℕ)
    → k == id ≡ false
    → get dir.names k ≡ some i
    → get (remove dir.names id) k ≡ some i
get-unlink dir id k i other e =
    get-remove dir.names id k ∙ ground (arith, e, other, eq_iff id k, eq_iff k id)

-- No other process holds what `p` is about to unlink: the name leads to the file that `p` locked.
not_held :
    (dir : Directory) (p q : ℕ) (id k : String) (inode i : ℕ)
    → Fits dir p (sweeping id inode)
    → eqb p q ≡ false
    → get dir.names k ≡ some i
    → dir.locks i ≡ some q
    → k == id ≡ false
not_held dir p q id k inode i own other e l = elim (Bool-cases (k == id)) [
  | inr f ↦ f
  | inl t ↦
      let same : k ≡ id = ground (arith, t, eq_iff k id) in
      let here : get dir.names id ≡ some i = subst (λ n. get dir.names n ≡ some i) same e in
      let one : some inode ≡ some i = sym own.0 ∙ here in
      let file : inode ≡ i = ground (arith, one) in
      let mine : dir.locks i ≡ some p = subst (λ n. dir.locks n ≡ some p) file own.1 in
      let both : some p ≡ some q = sym mine ∙ l in
      let pq : p ≡ q = ground (arith, both) in absurd (ground (arith, pq, other))
]

pub unlink-others :
    (dir : Directory) (p q : ℕ) (id : String) (inode : ℕ) (phase : Phase)
    → Fits dir p (sweeping id inode)
    → eqb p q ≡ false
    → is_waiting id phase ≡ false
    → Fits dir q phase
    → Fits (unlink id dir) q phase
unlink-others dir p q id inode idle own other w h = tt
unlink-others dir p q id inode (claiming ids e) own other w h = tt
unlink-others dir p q id inode (opened k i ids e) own other w h = get-unlink dir id k i w h
unlink-others dir p q id inode (holding k i) own other w h =
    (get-unlink dir id k i (not_held dir p q id k inode i own other h.0 h.1) h.0, h.1)
unlink-others dir p q id inode (refused e) own other w h = tt
unlink-others dir p q id inode (looking k i) own other w h = get-unlink dir id k i w h
unlink-others dir p q id inode (sweeping k i) own other w h =
    (get-unlink dir id k i (not_held dir p q id k inode i own other h.0 h.1) h.0, h.1)
unlink-others dir p q id inode (swept i) own other w h = h
