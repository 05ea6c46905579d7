-- ===== src/Supervisor/Sources.antt =====
-- supervisor.py: inherit_sources, waiting_mail and is_live.
use mcp_dispatch.Base.{
  ℕ, ◌+◌, String, Bool, false, ◌==◌, not, ◌&&◌, Option, none, some, List, [], ◌∷◌, select, elem,
  if◌then◌else◌,
}
use mcp_dispatch.Base.Dict.{get}
use mcp_dispatch.Base.Sort.{sort_by}
use mcp_dispatch.Ident.{durable_nick}
use mcp_dispatch.Relay.{Relay, Inbox, Presence, count_pending, live_nicks}

-- `pf.exists() and presence_is_live(pf)`
abbrev pub held : Option Presence → Bool
held none = false
held (some presence) = presence.locked

-- The tests of the loop: the nick's own inbox, or a dead session's of that nick; in both cases
-- only a directory of this account.
unfoldable pub is_source : Relay → String → String × Inbox → Bool
is_source relay nick (name, inbox) =
    if name == nick
    then inbox.ours
    else durable_nick name == nick && not (held (get relay.presence name)) && inbox.ours

abbrev pub own_source : String → Option Inbox → List (String × Inbox)
own_source nick none = []
own_source nick (some inbox) = if inbox.ours then (nick, inbox) ∷ [] else []

unfoldable pub inherit_sources : Relay → String → Bool → List (String × Inbox)
unfolding is_source
inherit_sources relay nick inherit =
    if inherit
    then select (is_source relay nick) (sort_by (λ (d : String × Inbox). d.0) relay.inboxes)
    else own_source nick (get relay.inboxes nick)

unfoldable pub total_pending : ℕ → List (String × Inbox) → ℕ
total_pending time [] = 0
total_pending time ((name, inbox) ∷ dirs) =
    count_pending time (some inbox) + total_pending time dirs

-- waiting_mail at the wall clock time `time`
unfoldable pub waiting_mail : ℕ → Relay → String → Bool → ℕ
unfolding inherit_sources total_pending
waiting_mail time relay nick inherit = total_pending time (inherit_sources relay nick inherit)

unfoldable pub is_live : Relay → String → Bool
is_live relay nick = elem nick (live_nicks relay)
