-- ===== src/Server/Public.antt =====
-- server.py, what a recipient is shown of a message: _public_msg, with the cut of a long text and
-- the fields that are left out. The cap is 0 where the configured one is not positive. A float
-- product of a length with 0.6 or 0.5 compares with a whole number as the exact one does.
pub mod Pieces
pub mod Defaults
use Prim.Native.String.{◌++◌}
use mcp_dispatch.Base.{
  ℕ, ◌+◌, ◌-◌, ◌*◌, ◌/◌, String, Bool, true, false, ◌==◌, not, ◌&&◌, ◌||◌, Option, none, some, List,
  [], ◌∷◌, ltb, leb, eqb, if◌then◌else◌,
}
use mcp_dispatch.Base.Text.{chars, take, drop, find, rfind, lstrip_by, rstrip_by}
use mcp_dispatch.Message.{Message, State, read}

-- _BREAKS
abbrev pub breaks : List String
breaks = "\n" ∷ ". " ∷ "; " ∷ ", " ∷ " " ∷ []

-- `at >= len(head) * 0.6`, where `none` is -1
abbrev pub is_late : String → Option ℕ → Bool
is_late head none = false
is_late head (some at) = leb (3 * chars head) (5 * at)

abbrev pub is_early : String → Option ℕ → Bool
is_early tail none = false
is_early tail (some at) = leb (2 * at) (chars tail)

abbrev pub or_start : Option ℕ → ℕ
or_start none = 0
or_start (some at) = at

-- The loop over the breaks, from the strongest on.
unfoldable pub end_at : List String → String → String
end_at [] head = head
end_at (brk ∷ brks) head =
    let at = rfind brk head in
    let rest = end_at brks head in
    if is_late head at then take (or_start at + chars brk) head else rest

-- _end_at_break
unfoldable pub end_at_break : String → String
unfolding end_at
end_at_break = end_at breaks

unfoldable pub start_at : List String → String → String
start_at [] tail = tail
start_at (brk ∷ brks) tail =
    let at = find brk tail in
    let rest = start_at brks tail in
    if is_early tail at then drop (or_start at + chars brk) tail else rest

-- _start_at_break
unfoldable pub start_at_break : String → String
unfolding start_at
start_at_break = start_at breaks

-- _cut_exempt
abbrev pub cut_exempt : Bool → String → Bool
cut_exempt must_read priority = must_read || priority == "urgent"

-- _will_cut, under the cap `deliver_max`
unfoldable pub will_cut : ℕ → ℕ → Bool → String → Bool
will_cut deliver_max length must_read priority =
    if eqb deliver_max 0 || cut_exempt must_read priority
    then false
    else ltb (deliver_max + 80) length

-- What stands for "normal" among the priorities, and the other defaults that are left out.
abbrev pub unless {ℓ} : {A : Type ℓ} → Bool → A → Option A
unless true x = none
unless false x = some x

abbrev pub same_ttl : ℕ → Option ℕ → Bool
same_ttl default_ttl none = false
same_ttl default_ttl (some ttl) = eqb ttl default_ttl

abbrev is_read : State → Bool
is_read read = true
is_read _ = false

-- A message as a recipient is shown it. In the fields that follow `about`, `none` is a field that
-- is left out.
pub record Public : Type 0 where
  pub id : String
  pub from : String
  pub to : String
  pub timestamp : ℕ
  pub content : String
  pub expired_at : Option ℕ
  pub kind : Option String
  pub about : Option String
  pub payload : Option String
  pub thread_id : Option String
  pub reply_to : Option String
  pub must_read : Option Bool
  pub priority : Option String
  pub ttl : Option (Option ℕ)
  pub state : Option State
  pub read_at : Option (Option ℕ)
  pub via : Option String
  pub inherited_from : Option String
  pub truncated_from : Option ℕ

-- `via`, by the internal tag
abbrev pub public_via : Option String → Option String
public_via none = none
public_via (some tag) =
    if tag == "git"
    then some "remote"
    else if tag == "native-bridge"
    then some "native-bridge"
    else none

abbrev pub named_source : Option String → Option String
named_source none = none
named_source (some name) = if name == "" then none else some name

-- _omit_defaults, on a message whose text is cut already
unfoldable pub omit_defaults : ℕ → Bool → Message → String × Option ℕ → Public
omit_defaults default_ttl just_read msg (content, truncated_from) = record {
  id = msg.id;
  from = msg.from;
  to = msg.to;
  timestamp = msg.timestamp;
  content = content;
  expired_at = msg.expired_at;
  kind = msg.kind;
  about = msg.about;
  payload = msg.payload;
  thread_id = msg.thread_id;
  reply_to = msg.reply_to;
  must_read = unless (not msg.must_read) msg.must_read;
  priority = unless (msg.priority == "normal") msg.priority;
  ttl = unless (same_ttl default_ttl msg.ttl) msg.ttl;
  state = unless (just_read && is_read msg.state) msg.state;
  read_at = unless just_read msg.read_at;
  via = public_via msg.via;
  inherited_from = named_source msg.inherited_from;
  truncated_from = truncated_from;
}

-- `str` of a number.
module _ (str : ℕ → String) where
  -- The line between the two pieces.
  unfoldable pub marker : ℕ → String → String
  marker omitted msg_id =
      let fetch =
        if msg_id == ""
        then "peek(message_ids=[...])"
        else "peek(message_ids=[\"" ++ msg_id ++ "\"])" in
      "\n[… " ++ str omitted ++ " chars omitted: " ++ fetch ++ " …]\n"

  -- The test of Python's white space.
  module _ (is_space : ℕ → Bool) where
    -- _clip
    unfoldable pub clip : String → ℕ → String → String
    unfolding end_at_break start_at_break marker
    clip text limit msg_id =
        let tail_budget = limit / 5 in
        if eqb tail_budget 0
        then take limit text ++ " …"
        else let head = end_at_break (take (limit - tail_budget) text) in
          let tail = start_at_break (drop (chars text - tail_budget) text) in
          rstrip_by is_space head
          ++ marker (chars text - chars head - chars tail) msg_id
          ++ lstrip_by is_space tail

    -- The text that is delivered, and `truncated_from`.
    unfoldable pub cut_for_delivery : ℕ → Message → String × Option ℕ
    unfolding will_cut clip
    cut_for_delivery deliver_max msg =
        if will_cut deliver_max (chars msg.content) msg.must_read msg.priority
        then (clip msg.content deliver_max msg.id, some (chars msg.content))
        else (msg.content, none)

    -- _public_msg
    unfoldable pub public_msg : ℕ → ℕ → Bool → Bool → Message → Public
    unfolding cut_for_delivery omit_defaults
    public_msg deliver_max default_ttl just_read full msg =
        omit_defaults default_ttl just_read msg
          (if full then (msg.content, none) else cut_for_delivery deliver_max msg)
