-- ===== src/Relay/Recipients.antt =====
-- Where a DM goes.
use mcp_dispatch.Base.{
  String, Bool, true, false, ◌==◌, eq_iff, ◌≡◌, ◌≢◌, refl, List, [], ◌∷◌, select, select-passes,
  elem, All, All-select, All-map, ◌⊎◌, inl, inr, if◌then◌else◌, arith, ◌∙◌,
}
use mcp_dispatch.Base.Dict.{has}
use mcp_dispatch.Base.Sort.{any-sort_by, All-sort_by}
use mcp_dispatch.Ident.{is_id, durable_nick}
use mcp_dispatch.Ident.Nick.{durable_nick-is_id}
use mcp_dispatch.Relay.{Relay, live_agents, live_sessions_of, or_else, resolve_recipients}

abbrev IsSafe : String → Type 0
IsSafe aid = is_id aid ≡ true

All-subselect {ℓ} :
    {A : Type ℓ} (p q : A → Bool) (xs : List A)
    → All (λ x. p x ≡ true) xs
    → All (λ x. p x ≡ true) (select q xs)
All-subselect p q [] h = tt
All-subselect p q (x ∷ xs) h = ground (arith, All-subselect p q xs h.1)

pub live_agents-IsSafe : (relay : Relay) → All IsSafe (live_agents relay)
unfolding live_agents
live_agents-IsSafe relay = select-passes is_id _

live_sessions_of-IsSafe : (relay : Relay) (nick : String) → All IsSafe (live_sessions_of relay nick)
unfolding live_sessions_of
live_sessions_of-IsSafe relay nick =
    All-sort_by IsSafe (λ s. s) _
      (All-subselect is_id _ (live_agents relay) (live_agents-IsSafe relay))

-- The branches of `resolve_recipients`, on any tests.
abbrev route : Bool → Bool → Bool → List String → List String → String → String → List String
route here plain away own siblings target nick =
    if here
    then target ∷ []
    else or_else own
        (if plain then target ∷ [] else if away then target ∷ [] else or_else siblings (nick ∷ []))

route-All :
    (P : String → Type 0) (here plain away : Bool) (own siblings : List String)
    (target nick : String)
    → P target
    → P nick
    → All P own
    → All P siblings
    → All P (route here plain away own siblings target nick)
route-All P true plain away own siblings target nick t n o s = (t, tt)
route-All P false plain away (x ∷ xs) siblings target nick t n o s = o
route-All P false true away [] siblings target nick t n o s = (t, tt)
route-All P false false true [] siblings target nick t n o s = (t, tt)
route-All P false false false [] (y ∷ ys) target nick t n o s = s
route-All P false false false [] [] target nick t n o s = (n, tt)

module _ (relay : Relay) (target : String) where
  resolve_recipients-route :
      resolve_recipients relay target
      ≡ route
          (elem target (live_agents relay))
          (durable_nick target == target)
          (has relay.remote target)
          (live_sessions_of relay target)
          (live_sessions_of relay (durable_nick target))
          target
          (durable_nick target)
  unfolding resolve_recipients
  resolve_recipients-route = refl

  -- A DM to a valid id is written only to inboxes with valid ids, none of which leaves the relay
  -- directory.
  pub resolve_recipients-IsSafe : is_id target ≡ true → All IsSafe (resolve_recipients relay target)
  resolve_recipients-IsSafe h = rw resolve_recipients-route (
      route-All IsSafe _ _ _ _ _ _ _ h (durable_nick-is_id target h)
        (live_sessions_of-IsSafe relay target)
        (live_sessions_of-IsSafe relay (durable_nick target)))

  -- A live session id is a mailbox of its own: it alone gets the message.
  pub resolve_recipients-live :
      elem target (live_agents relay) ≡ true → resolve_recipients relay target ≡ target ∷ []
  resolve_recipients-live h = rw (resolve_recipients-route, h) refl

  -- Where no session of the nick behind a target is live, and no other host has the target, the
  -- message waits in the nick's own inbox.
  pub resolve_recipients-offline :
      elem target (live_agents relay) ≡ false
      → live_sessions_of relay target ≡ []
      → live_sessions_of relay (durable_nick target) ≡ []
      → has relay.remote target ≡ false
      → resolve_recipients relay target ≡ durable_nick target ∷ []
  resolve_recipients-offline n o s r =
      rw (resolve_recipients-route, n, o, s, r)
        (ground (arith, eq_iff (durable_nick target) target))

any-select :
    (k : String) (p : String → Bool) (xs : List String)
    → elem k xs ≡ false
    → elem k (select p xs) ≡ false
any-select k p [] h = refl
any-select k p (x ∷ xs) h = ground (arith, any-select k p xs)

elem-or_else :
    (k : String) (xs ys : List String)
    → elem k xs ≡ false
    → elem k ys ≡ false
    → elem k (or_else xs ys) ≡ false
elem-or_else k [] ys h e = e
elem-or_else k (x ∷ xs) ys h e = h

elem-live_sessions_of :
    (relay : Relay) (k nick : String)
    → elem k (live_agents relay) ≡ false
    → elem k (live_sessions_of relay nick) ≡ false
unfolding live_sessions_of
elem-live_sessions_of relay k nick h =
    any-sort_by (λ x. x == k) (λ s. s) _ ∙ any-select k _ (live_agents relay) h

All-own :
    (xs ys : List String)
    → ((x : String) → elem x xs ≡ true → elem x ys ≡ true)
    → All (λ x. elem x ys ≡ true) xs
All-own [] ys f = tt
All-own (x ∷ xs) ys f =
    (f x (ground (arith, eq_iff x x)), All-own xs ys (λ y h. f y (ground (arith, h))))

-- The session is live, or is the nick itself.
abbrev pub IsReached : Relay → String → String → Type 0
IsReached relay nick aid = (elem aid (live_agents relay) ≡ true) ⊎ (aid ≡ nick)

live_sessions_of-IsReached :
    (relay : Relay) (nick own : String) → All (IsReached relay nick) (live_sessions_of relay own)
unfolding live_sessions_of
live_sessions_of-IsReached relay nick own =
    let live = live_agents relay in
    All-sort_by (IsReached relay nick) (λ s. s) _
      (All-select (IsReached relay nick) (λ aid. durable_nick aid == own) live
        (All-map (λ x. elem x live ≡ true) (IsReached relay nick) live (λ x h. inl h)
          (All-own live live (λ x h. h))))

or_else-All :
    (P : String → Type 0) (xs ys : List String) → All P xs → All P ys → All P (or_else xs ys)
or_else-All P [] ys h k = k
or_else-All P (x ∷ xs) ys h k = h

-- A DM to a dead session of this host, where the target has a pid suffix, is not live, and no other
-- host has it: it is not written to that session's own inbox, and every inbox that it is written to
-- is of a live session or of the nick.
pub resolve_recipients-dead :
    (relay : Relay) (target : String)
    → elem target (live_agents relay) ≡ false
    → durable_nick target ≢ target
    → has relay.remote target ≡ false
    → (elem target (resolve_recipients relay target) ≡ false)
      × All (IsReached relay (durable_nick target)) (resolve_recipients relay target)
resolve_recipients-dead relay target n ne r =
    let nick = durable_nick target in
    let other : (nick == target) ≡ false = ground (arith, eq_iff nick target) in
    rw (resolve_recipients-route relay target, n, r, other)
      (
        elem-or_else target (live_sessions_of relay target)
            (or_else (live_sessions_of relay nick) (nick ∷ []))
            (elem-live_sessions_of relay target target n)
            (elem-or_else target (live_sessions_of relay nick) (nick ∷ [])
              (elem-live_sessions_of relay target nick n) (rw other)),
        or_else-All (IsReached relay nick) (live_sessions_of relay target)
            (or_else (live_sessions_of relay nick) (nick ∷ []))
            (live_sessions_of-IsReached relay nick target)
            (or_else-All (IsReached relay nick) (live_sessions_of relay nick) (nick ∷ [])
              (live_sessions_of-IsReached relay nick nick) (inr refl, tt)),
      )
