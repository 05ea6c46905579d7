-- ===== src/Server/Inbox/Retire.antt =====
-- server.py, _cleanup_expired: what becomes of each file of an inbox, and of a message that nobody
-- has read.
use mcp_dispatch.Base.{
  ℕ, ◌+◌, ◌≤◌, String, true, false, ◌==◌, ◌&&◌, Option, none, some, List, [], ◌∷◌, elem, All,
  neither, Bool-cases, ltb, if◌then◌else◌, ◌⊎◌, inl, inr, ◌≡◌, refl, sym, subst, ap, ◌∙◌, arith,
  eq_iff,
}
use mcp_dispatch.Base.Dict.{Dict, get, keys, get-fresh, Distinct}
use mcp_dispatch.Message.{
  Message, State, pending, read, expired, File, unreadable, message, is_pending, is_tombstone,
  is_expired,
}
use mcp_dispatch.Server.Inbox.{
  tombstone_ttl, tombstone, Fate, stays, becomes, goes, retire, Cleaned, settle, cleanup_expired,
}

-- The file of a message after its fate, and a file after a call.
abbrev pub after : Message → Fate → Option File
after msg stays = some (message msg)
after msg (becomes msg') = some (message msg')
after msg (goes counted) = none

abbrev pub outcome : ℕ → Option File → Option File
outcome now none = none
outcome now (some unreadable) = some unreadable
outcome now (some (message msg)) = after msg (retire now msg)

keys-settle :
    (name : String) (msg : Message) (fate : Fate) (rest : Cleaned) (k : String)
    → name == k ≡ false
    → elem k (keys rest.files) ≡ false
    → elem k (keys (settle name msg fate rest).files) ≡ false
unfolding settle
keys-settle name msg stays rest k h e = rw h e
keys-settle name msg (becomes msg') rest k h e = rw h e
keys-settle name msg (goes true) rest k h e = e
keys-settle name msg (goes false) rest k h e = e

keys-cleanup_expired :
    (now : ℕ) (files : Dict File) (k : String)
    → elem k (keys files) ≡ false
    → elem k (keys (cleanup_expired now files).files) ≡ false
unfolding cleanup_expired
keys-cleanup_expired now [] k h = refl
keys-cleanup_expired now ((name, unreadable) ∷ files) k h =
    let off = neither (name == k) (elem k (keys files)) h in
    rw off.0 (keys-cleanup_expired now files k off.1)
keys-cleanup_expired now ((name, message msg) ∷ files) k h =
    let off = neither (name == k) (elem k (keys files)) h in
    keys-settle name msg (retire now msg) (cleanup_expired now files) k off.0
      (keys-cleanup_expired now files k off.1)

Distinct-settle :
    (name : String) (msg : Message) (fate : Fate) (rest : Cleaned)
    → elem name (keys rest.files) ≡ false
    → Distinct rest.files
    → Distinct (settle name msg fate rest).files
unfolding settle
Distinct-settle name msg stays rest h d = (h, d)
Distinct-settle name msg (becomes msg') rest h d = (h, d)
Distinct-settle name msg (goes true) rest h d = d
Distinct-settle name msg (goes false) rest h d = d

pub Distinct-cleanup_expired :
    (now : ℕ) (files : Dict File) → Distinct files → Distinct (cleanup_expired now files).files
unfolding cleanup_expired
Distinct-cleanup_expired now [] d = tt
Distinct-cleanup_expired now ((name, unreadable) ∷ files) d =
    (keys-cleanup_expired now files name d.0, Distinct-cleanup_expired now files d.1)
Distinct-cleanup_expired now ((name, message msg) ∷ files) d =
    Distinct-settle name msg (retire now msg) (cleanup_expired now files)
      (keys-cleanup_expired now files name d.0) (Distinct-cleanup_expired now files d.1)

get-settle :
    (name : String) (msg : Message) (fate : Fate) (rest : Cleaned) (k : String)
    → elem name (keys rest.files) ≡ false
    → get (settle name msg fate rest).files k
      ≡ (if name == k then after msg fate else get rest.files k)
unfolding settle get
get-settle name msg stays rest k h = refl
get-settle name msg (becomes msg') rest k h = refl
get-settle name msg (goes true) rest k h =
    ground (arith, get-fresh rest.files name h, eq_iff name k)
get-settle name msg (goes false) rest k h =
    ground (arith, get-fresh rest.files name h, eq_iff name k)

-- Each file by itself.
pub get-cleanup_expired :
    (now : ℕ) (files : Dict File) (k : String)
    → Distinct files
    → get (cleanup_expired now files).files k ≡ outcome now (get files k)
unfolding cleanup_expired get
get-cleanup_expired now [] k d = refl
get-cleanup_expired now ((name, unreadable) ∷ files) k d = elim (Bool-cases (name == k)) [
  | inl t ↦ rw t refl
  | inr f ↦ rw f (get-cleanup_expired now files k d.1)
]
get-cleanup_expired now ((name, message msg) ∷ files) k d =
    get-settle name msg (retire now msg) (cleanup_expired now files) k
      (keys-cleanup_expired now files name d.0)
    ∙ elim (Bool-cases (name == k)) [
      | inl t ↦ rw t refl
      | inr f ↦ rw f (get-cleanup_expired now files k d.1)
    ]

-- Calls one after another, at these times.
abbrev pub cleanups : List ℕ → Dict File → Dict File
cleanups [] files = files
cleanups (now ∷ times) files = cleanups times (cleanup_expired now files).files

-- What a sender's receipt needs of a message that nobody has read: it is there as it was, or there
-- is its tombstone, not older than the first call.
abbrev Remains : ℕ → Message → Message → Type 0
Remains start msg here =
    (here ≡ msg)
    ⊎ ((t : ℕ) × (start ≤ t)
        × (here.expired_at ≡ some t)
        × (is_tombstone here.state ≡ true)
        × (here.id ≡ msg.id)
        × (here.from ≡ msg.from))

pub not_tombstone : (state : State) → is_pending state ≡ true → is_tombstone state ≡ false
not_tombstone pending p = refl
not_tombstone read p = refl
not_tombstone expired p = absurd (cc)

retire-pending :
    (start now : ℕ) (msg : Message)
    → start ≤ now
    → is_pending msg.state ≡ true
    → (m : Message) × (after msg (retire now msg) ≡ some (message m)) × Remains start msg m
unfolding retire
retire-pending start now msg lo p = elim (Bool-cases (is_expired now msg)) [
  | inl t ↦ (
    tombstone now msg,
    rw (not_tombstone msg.state p, t, p) refl,
    inr (
      now,
      lo,
      unfold tombstone in refl,
      unfold tombstone in refl,
      unfold tombstone in refl,
      unfold tombstone in refl,
    ),
  )
  | inr f ↦ (msg, rw (not_tombstone msg.state p, f) refl, inl refl)
]

retire-Remains :
    (start now : ℕ) (msg here : Message)
    → start ≤ now
    → now ≤ start + tombstone_ttl
    → is_pending msg.state ≡ true
    → Remains start msg here
    → (m : Message) × (after here (retire now here) ≡ some (message m)) × Remains start msg m
unfolding retire
retire-Remains start now msg here lo hi p (inl same) =
    subst (λ h. (m : Message) × (after h (retire now h) ≡ some (message m)) × Remains start msg m)
      (sym same) (retire-pending start now msg lo p)
retire-Remains start now msg here lo hi p (inr (t, le, stamp, dead, id, from)) =
    let young : (ltb 0 t && ltb (t + tombstone_ttl) now) ≡ false = ground arith in
    (here, rw (dead, stamp, young) refl, inr (t, le, stamp, dead, id, from))

abbrev pub Between : ℕ → List ℕ → Type 0
Between start = All (λ now. (start ≤ now) × (now ≤ start + tombstone_ttl))

cleanups-Remains :
    (start : ℕ) (times : List ℕ) (files : Dict File) (name : String) (msg here : Message)
    → Between start times
    → Distinct files
    → is_pending msg.state ≡ true
    → get files name ≡ some (message here)
    → Remains start msg here
    → (m : Message) × (get (cleanups times files) name ≡ some (message m)) × Remains start msg m
cleanups-Remains start [] files name msg here w d p e r = (here, e, r)
cleanups-Remains start (now ∷ times) files name msg here w d p e r =
    let (m, kept, r') = retire-Remains start now msg here w.0.0 w.0.1 p r in
    cleanups-Remains start times (cleanup_expired now files).files name msg m w.1
      (Distinct-cleanup_expired now files d) p
      (get-cleanup_expired now files name d ∙ ap (outcome now) e ∙ kept) r'

-- A message that nobody has read does not vanish from an inbox by expiry: after any calls of
-- _cleanup_expired within a week of the first, its file holds it as it was, or holds a tombstone
-- with its id and sender, so that the sender's receipts go on naming it.
pub cleanups-unread :
    (start : ℕ) (times : List ℕ) (files : Dict File) (name : String) (msg : Message)
    → Between start times
    → Distinct files
    → is_pending msg.state ≡ true
    → get files name ≡ some (message msg)
    → (m : Message) × (get (cleanups times files) name ≡ some (message m))
      × (m.id ≡ msg.id)
      × (m.from ≡ msg.from)
      × ((m ≡ msg) ⊎ (is_tombstone m.state ≡ true))
cleanups-unread start times files name msg w d p e =
    let (m, kept, r) = cleanups-Remains start times files name msg msg w d p e (inl refl) in
    elim r [
      | inl same ↦ (m, kept, ap (λ x. x.id) same, ap (λ x. x.from) same, inl same)
      | inr (t, le, stamp, dead, id, from) ↦ (m, kept, id, from, inr dead)
    ]
