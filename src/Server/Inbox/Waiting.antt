-- ===== src/Server/Inbox/Waiting.antt =====
-- server.py, _read_inbox with the filter for pending messages: what an inbox has for its session.
use mcp_dispatch.Base.{
  String, Bool, true, false, ◌==◌, not, ◌&&◌, ◌||◌, Option, none, some, List, [], ◌∷◌, map, any,
  elem, All, Bool-cases, inl, inr, ◌≡◌, refl, arith, eq_iff,
}
use mcp_dispatch.Base.Dict.{Dict, get}
use mcp_dispatch.Message.{
  Message, State, pending, read, expired, File, unreadable, message, is_pending,
}
use mcp_dispatch.Server.Inbox.{Entry, passes_state, entries}

-- The file, if there is one, holds no message that waits to be read.
abbrev pub quiet : Option File → Bool
quiet none = true
quiet (some unreadable) = true
quiet (some (message msg)) = not (is_pending msg.state)

abbrev pub new_entries : List (String × File) → List Entry
new_entries = entries (some pending) none

-- The test that a file passes where its entry passes `q`.
abbrev pub waits : (Entry → Bool) → String × File → Bool
waits q (name, unreadable) = false
waits q (name, message msg) = is_pending msg.state && q (name, msg)

pub passes_pending : (state : State) → passes_state (some pending) state ≡ is_pending state
passes_pending pending = refl
passes_pending read = refl
passes_pending expired = refl

pub any-new_entries :
    (q : Entry → Bool) (files : List (String × File))
    → any q (new_entries files) ≡ any (waits q) files
unfolding entries
any-new_entries q [] = refl
any-new_entries q ((name, unreadable) ∷ files) = any-new_entries q files
any-new_entries q ((name, message msg) ∷ files) =
    ground (arith, any-new_entries q files, passes_pending msg.state)

pub any-waits :
    (q : Entry → Bool) (files : Dict File) (name : String) (msg : Message)
    → get files name ≡ some (message msg)
    → is_pending msg.state ≡ true
    → q (name, msg) ≡ true
    → any (waits q) files ≡ true
unfolding get
any-waits q [] name msg e p h = absurd (cc)
any-waits q ((j, unreadable) ∷ files) name msg e p h =
    ground (arith, e, any-waits q files name msg, p, h)
any-waits q ((j, message m) ∷ files) name msg e p h = elim (Bool-cases (j == name)) [
  | inl t ↦
      let same : j ≡ name = ground (arith, t, eq_iff j name) in
      let value : m ≡ msg = ground (arith, t, e) in rw (same, value, p, h) refl
  | inr f ↦
      let further : get files name ≡ some (message msg) = ground (arith, f, e) in
      ground (arith, any-waits q files name msg further p h)
]

pub names : List Entry → List String
names = map (λ (e : Entry). e.0)

-- A file whose message waits is among the entries, and any other is quiet.
pub elem-or-quiet :
    (files : Dict File) (k : String)
    → (any (waits (λ e. e.0 == k)) files || quiet (get files k)) ≡ true
unfolding get
elem-or-quiet [] k = refl
elem-or-quiet ((j, unreadable) ∷ files) k = ground (arith, elem-or-quiet files k)
elem-or-quiet ((j, message m) ∷ files) k = ground (arith, elem-or-quiet files k)

unfoldable pub AllPending : List Entry → Type 0
AllPending = All (λ (e : Entry). is_pending e.1.state ≡ true)

pub new_entries-AllPending : (files : List (String × File)) → AllPending (new_entries files)
unfolding AllPending entries
new_entries-AllPending [] = tt
new_entries-AllPending ((name, unreadable) ∷ files) = new_entries-AllPending files
new_entries-AllPending ((name, message msg) ∷ files) = elim (Bool-cases (is_pending msg.state)) [
  | inl t ↦ rw (passes_pending msg.state, t) (t, new_entries-AllPending files)
  | inr f ↦ rw (passes_pending msg.state, f) (new_entries-AllPending files)
]

pub elem-names :
    (es : List Entry) (k : String) → elem k (names es) ≡ any (λ (e : Entry). e.0 == k) es
unfolding names
elem-names [] k = refl
elem-names (e ∷ es) k = ground (arith, elem-names es k)

-- Marking leaves no listed file, and no file that was quiet, waiting.
