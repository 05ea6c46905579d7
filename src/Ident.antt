-- ===== src/Ident.antt =====
-- dispatch_fs.py, ids: the pattern `ID_RE`, the nick behind a session id (`PID_SUFFIX_RE`,
-- `durable_nick`) and the nick that a session launched in a directory claims (`nick_for_dir`).
-- `\d` is read as an ASCII digit: the ids of the relay pass `ID_RE`, which has no other digits.
pub mod Nick
use Prim.Native.Char.{Char, code}
use Prim.Native.String.{[], ◌∷◌}
use mcp_dispatch.Base.{
  ℕ, zero, suc, String, Bool, true, false, not, ◌&&◌, ◌||◌, ◌==◌, Option, none, some, leb, eqb,
  if◌then◌else◌,
}
use mcp_dispatch.Base.Text.{every, keep, lstrip, take, rstrip, after_last}

abbrev pub is_digit : ℕ → Bool
is_digit c = leb b'0' c && leb c b'9'

-- [a-z0-9], the first character of an id
abbrev pub is_start : ℕ → Bool
is_start c = leb b'a' c && leb c b'z' || is_digit c

-- [a-z0-9_-]
abbrev pub is_part : ℕ → Bool
is_part c = is_start c || eqb c b'_' || eqb c b'-'

-- Up to `room` further characters of an id, and then the absolute end (`\Z`).
unfoldable pub id_tail : ℕ → String → Bool
id_tail room [] = true
id_tail zero (c ∷ s) = false
id_tail (suc room) (c ∷ s) = is_part (code c) && id_tail room s

-- ID_RE.match(s)
unfoldable pub is_id : String → Bool
unfolding id_tail
is_id [] = false
is_id (c ∷ s) = is_start (code c) && id_tail 63 s

-- `\d+$`: at least one digit, then the end, or a line feed that ends the text.
unfoldable pub pid_end : String → Bool
pid_end [] = false
pid_end (c ∷ []) = is_digit (code c)
pid_end (c ∷ d ∷ s) = is_digit (code c) && (eqb (code d) 10 && s == [] || pid_end (d ∷ s))

-- One character `c` in front of `s`, where `rest` is what `before_pid` finds in `s`.
pid_step : Char → String → Option String → Option String
unfolding pid_end
pid_step c s (some nick) = if eqb (code c) 10 then none else some (c ∷ nick)
pid_step c s none = if eqb (code c) b'-' && pid_end s then some [] else none

-- The text before the last `-` behind which a pid stands, if it holds no line feed.
unfoldable pub before_pid : String → Option String
unfolding pid_step
before_pid [] = none
before_pid (c ∷ s) = pid_step c s (before_pid s)

-- durable_nick: the group `.+` takes at least one character.
unfoldable pub durable_nick : String → String
unfolding before_pid
durable_nick s = elim (before_pid s) [ none ↦ s | some nick ↦ if nick == [] then s else nick ]

-- [a-z0-9-]
abbrev pub in_nick : ℕ → Bool
in_nick c = is_start c || eqb c b'-'

-- `str.lower`, which is Python's.
module _ (lower : String → String) where
  unfoldable pub nick_for_dir : String → String
  nick_for_dir cwd =
      take 50 (lstrip b'-' (keep in_nick (lower (after_last b'/' (rstrip b'/' cwd)))))
