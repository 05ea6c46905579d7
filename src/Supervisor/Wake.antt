-- ===== src/Supervisor/Wake.antt =====
-- From a message to a start: mail that waits for a nick is what the supervisor counts.
pub mod Start
use mcp_dispatch.Base.{
  ℕ, zero, suc, ◌+◌, ◌-◌, ◌≤◌, ◌<◌, String, Bool, true, false, ◌==◌, eq_iff, eq_refl, not, ◌&&◌,
  ◌||◌, ◌≡◌, ◌≢◌, refl, ap, sym, ◌∙◌, Option, none, some, is_some, List, [], ◌∷◌, ◌++◌, map, select,
  any, elem, length, if◌then◌else◌, Bool-cases, Option-cases, arith, inl, inr, ltb,
}
use mcp_dispatch.Base.Dict.{Dict, get, put, get-put}
use mcp_dispatch.Base.Sort.{sort_by, any-sort_by}
use mcp_dispatch.Base.Result.{ok}
use mcp_dispatch.Ident.{durable_nick}
use mcp_dispatch.Message.{Message, File, unreadable, message, pending, is_pending, is_expired}
use mcp_dispatch.Relay.{
  Relay, Inbox, pending_files, iter_pending, count_pending, live_agents, live_nicks,
  live_sessions_of, live_presence_files, resolve_recipients,
}
use mcp_dispatch.Relay.Send.Delivery.{file_at}
use mcp_dispatch.Supervisor.Sources.{
  is_source, inherit_sources, total_pending, waiting_mail, is_live,
}

-- A table's entry passes every test that its key and its value pass.
get-any {ℓ} :
    {V : Type ℓ} (p : String → V → Bool) (d : Dict V) (k : String) (v : V)
    → get d k ≡ some v
    → p k v ≡ true
    → any (λ (e : String × V). p e.0 e.1) d ≡ true
unfolding get
get-any p [] k v h t = cc
get-any p ((j, w) ∷ d) k v h t = ground (arith, eq_iff j k, get-any p d k v)

-- The file holds a message that is pending and has not expired.
abbrev waits : ℕ → String → File → Bool
waits now name unreadable = false
waits now name (message msg) = is_pending msg.state && not (is_expired now msg)

pending_files-pos :
    (now : ℕ) (files : List (String × File))
    → any (λ (e : String × File). waits now e.0 e.1) files ≡ true
    → 0 < length (pending_files now files)
unfolding pending_files
pending_files-pos now [] h = cc
pending_files-pos now ((name, unreadable) ∷ files) h = pending_files-pos now files h
pending_files-pos now ((name, message msg) ∷ files) h = ground (arith, pending_files-pos now files)

pub count_pending-pos :
    (now : ℕ) (inbox : Inbox) (name : String) {msg : Message}
    → get inbox.files name ≡ some (message msg)
    → msg.state ≡ pending
    → is_expired now msg ≡ false
    → 0 < count_pending now (some inbox)
unfolding count_pending
count_pending-pos now inbox name h s e = pending_files-pos now (sort_by (λ f. f.0) inbox.files) (
    any-sort_by (λ (e : String × File). waits now e.0 e.1) (λ f. f.0) inbox.files
    ∙ get-any (waits now) inbox.files name _ h (ground arith))

total_pending-pos :
    (now : ℕ) (p : String × Inbox → Bool) (dirs : List (String × Inbox))
    → any (λ d. p d && ltb 0 (count_pending now (some d.1))) dirs ≡ true
    → 0 < total_pending now (select p dirs)
unfolding total_pending
total_pending-pos now p [] h = cc
total_pending-pos now p ((name, inbox) ∷ dirs) h = elim (Bool-cases (p (name, inbox))) [
  | inl y ↦ rw y (ground (arith, h, y, total_pending-pos now p dirs))
  | inr n ↦ rw n (total_pending-pos now p dirs (ground (arith, n)))
]

-- Mail in any directory that is a source counts for a nick whose sessions inherit.
pub source_mail :
    (time : ℕ) (relay : Relay) (nick name : String) (inbox : Inbox)
    → get relay.inboxes name ≡ some inbox
    → is_source relay nick (name, inbox) ≡ true
    → 0 < count_pending time (some inbox)
    → 0 < waiting_mail time relay nick true
unfolding waiting_mail inherit_sources
source_mail time relay nick name inbox there source full =
    total_pending-pos time (is_source relay nick) _ (
      any-sort_by _ (λ d. d.0) relay.inboxes
      ∙ get-any (λ k d. is_source relay nick (k, d) && ltb 0 (count_pending time (some d)))
          relay.inboxes name inbox there (ground (arith, source, full)))

module _ (time : ℕ) (relay : Relay) (nick : String) {inbox : Inbox}
    (there : get relay.inboxes nick ≡ some inbox) (ours : inbox.ours ≡ true)
    (full : 0 < count_pending time (some inbox)) where
  pub own_mail : (inherit : Bool) → 0 < waiting_mail time relay nick inherit
  unfolding waiting_mail
  own_mail true =
      source_mail time relay nick nick inbox there
        (unfold is_source in (ground (arith, eq_refl nick))) full
  own_mail false = rw there (simp ours (omega (arith, full)))

map-elem :
    (nick : String) (aids : List String)
    → elem nick (map durable_nick aids) ≡ false
    → select (λ aid. durable_nick aid == nick) aids ≡ []
map-elem nick [] h = refl
map-elem nick (x ∷ aids) h = ground (arith, map-elem nick aids)

elem-of_durable :
    (nick : String) (aids : List String)
    → durable_nick nick ≡ nick
    → elem nick (map durable_nick aids) ≡ false
    → elem nick aids ≡ false
elem-of_durable nick [] d h = refl
elem-of_durable nick (x ∷ aids) d h =
    ground (arith, elem-of_durable nick aids d, eq_iff x nick, eq_iff (durable_nick x) nick)

-- With no session of it live, a nick is its own mailbox.
pub offline_nick :
    (relay : Relay) (nick : String)
    → durable_nick nick ≡ nick
    → is_live relay nick ≡ false
    → resolve_recipients relay nick ≡ nick ∷ []
unfolding resolve_recipients is_live live_nicks live_sessions_of sort_by
offline_nick relay nick d l =
    rw
      (
        elem-of_durable nick (live_agents relay) d l,
        map-elem nick (live_agents relay) l,
        d,
        eq_refl nick,
      )
      refl
