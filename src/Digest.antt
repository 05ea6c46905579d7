-- ===== src/Digest.antt =====
-- digest.py: what moved while a nick was away. Every time is a number of seconds here, and 0 where
-- its text is empty: the source compares the texts, which are all of one fixed width in UTC and so
-- are in the order of their times. The relay directory and the directories in it exist, and `str`
-- of a text is the text.
pub mod Fields
pub mod Inboxes
pub mod Events
pub mod Mail
pub mod Windows
use Prim.Native.String.{compare}
use text.Mathlib.Text.{is_le}
use mcp_dispatch.Base.{
  ℕ, suc, ◌+◌, String, Bool, true, false, ◌==◌, not, ◌&&◌, ◌||◌, Option, none, some, List, [], ◌∷◌,
  ◌++◌, map, select, elem, ltb, leb, eqb, sum_by, if◌then◌else◌,
}
use mcp_dispatch.Base.Dict.{Dict, get, put}
use mcp_dispatch.Base.Sort.{sort_by, sort_with, sorted}
use mcp_dispatch.Ident.{durable_nick}
use mcp_dispatch.Message.{Message}
use mcp_dispatch.NotifyPolicy.{channel_of}
use mcp_dispatch.Relay.{Relay, Inbox, Agent, iter_pending, live_nicks}
use mcp_dispatch.Tasks.{TaskState, open_task, Task, Store}
use mcp_dispatch.Digest.Fields.{in_window}
use mcp_dispatch.Digest.Inboxes.{MailItem, collect_mail}
use mcp_dispatch.Digest.Events.{TaskEvent, collect_tasks}

pub record Digest : Type 0 where
  pub nick : String
  pub since : ℕ
  pub now : ℕ
  pub window_exact : Bool
  pub mail : List MailItem
  pub tasks : List TaskEvent
  pub open_tasks_for_me : List TaskEvent
  pub active_while_away : List String
  pub live_now : List String

-- Digest.mail_total
abbrev pub mail_total : Digest → ℕ
mail_total d = sum_by (λ (m : MailItem). m.count) d.mail

abbrev is_nil {ℓ} : {A : Type ℓ} → List A → Bool
is_nil [] = true
is_nil _ = false

-- Digest.empty
unfoldable pub empty : Digest → Bool
empty d =
    is_nil d.mail && is_nil d.tasks && is_nil d.open_tasks_for_me && is_nil d.active_while_away

abbrev nick_or : String → String → String
nick_or stem nick = if nick == "" then stem else nick

unfoldable pub seen_in : String → ℕ → ℕ → List (String × Option Agent) → List String
seen_in nick since now [] = []
seen_in nick since now ((stem, none) ∷ files) = seen_in nick since now files
seen_in nick since now ((stem, some rec) ∷ files) =
    let rest = seen_in nick since now files in
    let other = nick_or stem rec.nick in
    if not (other == nick) && in_window rec.last_seen since now then other ∷ rest else rest

-- _collect_teammates
unfoldable pub collect_teammates : Relay → String → ℕ → ℕ → List String
unfolding seen_in
collect_teammates relay nick since now =
    seen_in nick since now (sort_by (λ (f : String × Option Agent). f.0) relay.agents)

abbrev mark_of : Option ℕ → ℕ → ℕ × Bool
mark_of none first = (first, false)
mark_of (some prev) first = if eqb prev 0 then (first, false) else (prev, true)

abbrev watermark_of : Option (Option Agent) → ℕ × Bool
watermark_of none = (0, false)
watermark_of (some none) = (0, false)
watermark_of (some (some rec)) = mark_of rec.previous_seen rec.first_seen

-- watermark
unfoldable pub watermark : Relay → String → ℕ × Bool
watermark relay nick = watermark_of (get relay.agents nick)

abbrev since_or_mark : Option ℕ → ℕ × Bool → ℕ × Bool
since_or_mark none mark = mark
since_or_mark (some since) mark = (since, true)

-- The elements of a set, each once.
unfoldable pub as_set : List String → List String
as_set [] = []
as_set (s ∷ ss) = let rest = as_set ss in if elem s ss then rest else s ∷ rest

-- build, at the wall clock time `time`
unfoldable pub build : Relay → Store → String → ℕ → ℕ → Option ℕ → List String → Digest
unfolding watermark collect_mail collect_tasks collect_teammates as_set
build relay store nick time now given channels =
    let (since, exact) = since_or_mark given (watermark relay nick) in
    let (events, open_mine) = collect_tasks store nick since now channels in
    record {
      nick = nick;
      since = since;
      now = now;
      window_exact = exact;
      mail = collect_mail time relay nick;
      tasks = events;
      open_tasks_for_me = open_mine;
      active_while_away = collect_teammates relay nick since now;
      live_now = sorted (select (λ n. not (n == nick)) (as_set (live_nicks relay)));
    }
