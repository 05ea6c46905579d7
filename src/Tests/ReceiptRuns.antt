-- ===== src/Tests/ReceiptRuns.antt =====
-- What recipients and senders are shown.
use mcp_dispatch.Base.{
  ℕ, zero, suc, ◌+◌, ◌/◌, ◌*◌, ◌-◌, ◌<◌, ◌≤◌, String, Bool, true, false, not, ◌==◌, ◌||◌, none,
  some, List, [], ◌∷◌, length, any, All, ◌⊎◌, ◌≡◌, refl, eqb, ltb, if◌then◌else◌, arith,
}
use Prim.Native.String.{◌++◌}
use mcp_dispatch.Base.Text.{chars, rstrip_by, lstrip_by, rfind, find, take, drop}
use mcp_dispatch.Message.{Message, State, pending, read}
use mcp_dispatch.Server.Public.{public_msg, cut_for_delivery, clip}
use mcp_dispatch.Server.Public.Pieces.{Clipped, cut_for_delivery-Clipped}
use mcp_dispatch.Server.Public.Defaults.{restore, restore-public_msg}
use mcp_dispatch.Server.Receipts.{Receipt, Reported, is_key, is_fresh, fresh_receipts, new_receipts}
use mcp_dispatch.Server.Receipts.Shown.{new_receipts-shown}
use mcp_dispatch.Tests.RelayRuns.{nothing_sent}

abbrev digit : ℕ → String
digit n =
    if eqb n 0
    then "0"
    else if eqb n 1
    then "1"
    else if eqb n 2
    then "2"
    else if eqb n 3
    then "3"
    else if eqb n 4
    then "4"
    else if eqb n 5
    then "5"
    else if eqb n 6
    then "6"
    else if eqb n 7
    then "7"
    else if eqb n 8
    then "8"
    else "9"

-- str(n), for a number of at most `room` digits
unfoldable decimal : ℕ → ℕ → String
decimal zero n = ""
decimal (suc room) n =
    let rest = decimal room (n / 10) in (if ltb n 10 then "" else rest) ++ digit (n - 10 * (n / 10))

abbrev digits : ℕ → String
digits n = decimal 4 n

abbrev is_space : ℕ → Bool
is_space c = eqb c 32 || eqb c 10

abbrev letter : Message
letter = record nothing_sent.msg {
  id = "msg-2";
  content =
      "one, two, three, four, five, six, seven, eight, nine, ten, eleven, twelve, thirteen, fourteen, fifteen, sixteen";
  priority = "urgent";
  ttl = some 60;
  must_read = true;
  state = read;
  read_at = some 7;
  via = some "git";
}

abbrev plain : Message
plain = record letter { must_read = false; priority = "normal" }

is_cut : (cut_for_delivery digits is_space 22 plain).1 ≡ some 111
unfolding cut_for_delivery clip
is_cut = refl

-- The blank behind "three," is not counted: of 111 characters 20 are shown and 90 said to be missing.
shown_pieces :
    (cut_for_delivery digits is_space 22 plain).0
    ≡ "one, two, three,\n[… 90 chars omitted: peek(message_ids=[\"msg-2\"]) …]\nteen"
unfolding cut_for_delivery clip decimal rstrip_by lstrip_by rfind find take drop
shown_pieces = refl

cut_for_delivery-Clipped_example :
    ((cut_for_delivery digits is_space 22 plain ≡ (plain.content, none))
      × ((plain.must_read || plain.priority == "urgent" ≡ true) ⊎ (chars plain.content ≤ 22 + 80)))
    ⊎ ((plain.must_read || plain.priority == "urgent" ≡ false)
        × (22 + 80 < chars plain.content)
        × ((cut_for_delivery digits is_space 22 plain).1 ≡ some (chars plain.content))
        × Clipped digits is_space 22 "msg-2" plain.content
            (cut_for_delivery digits is_space 22 plain).0)
cut_for_delivery-Clipped_example = cut_for_delivery-Clipped digits is_space 22 plain (omega arith)

restore-public_msg_example :
    restore 60 (public_msg digits is_space 20 60 false true letter)
    ≡ record letter { via = some "remote" }
restore-public_msg_example = restore-public_msg digits is_space 20 60 letter

abbrev receipt : String → ℕ → State → Receipt
receipt to sent_at state = record {
  id = "msg-2";
  to = to;
  state = state;
  read_at = none;
  sent_at = sent_at;
  preview = "";
  expired_at = none;
}

abbrev receipts : List Receipt
receipts = receipt "bob-3" 5 read ∷ receipt "bob-12" 6 pending ∷ receipt "cat-9" 4 pending ∷ []

abbrev nothing_yet : Reported
nothing_yet id to = none

new_receipts-shown_example :
    All
      (λ (r : Receipt).
        is_fresh (new_receipts nothing_yet receipts (some 2)).reported r
        ≡ not (any (is_key r.id r.to) (new_receipts nothing_yet receipts (some 2)).shown))
      (fresh_receipts nothing_yet receipts)
    × (length (new_receipts nothing_yet receipts (some 2)).shown
          + (new_receipts nothing_yet receipts (some 2)).older
        ≡ length (fresh_receipts nothing_yet receipts))
new_receipts-shown_example =
    new_receipts-shown nothing_yet receipts (some 2) (refl, (refl, (refl, tt)))
