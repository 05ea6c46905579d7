-- ===== src/Transport/Publish.antt =====
-- git_transport.py: the ids of the wire, and GitBus.publish with no body codec.
pub mod Lanes
use Prim.Native.Char.{code}
use Prim.Native.String.{[], ◌∷◌, ◌++◌ as text_append}
use mcp_dispatch.Base.{
  ℕ, zero, suc, String, Bool, true, false, not, ◌&&◌, ◌||◌, ◌==◌, Option, none, some, List, length,
  select, leb, eqb,
}
use mcp_dispatch.Base.Result.{Result, ok, raise, ◌>>=◌, ◌>>◌, raise_if}
use mcp_dispatch.Base.Text.{every}
use mcp_dispatch.Ident.{is_part}
use mcp_dispatch.Transport.{
  Body, Envelope, Line, blank, malformed, wrong_type, entry, Repo, my_lane, append_line,
}

-- [A-Za-z0-9_-]
abbrev pub is_wire_part : ℕ → Bool
is_wire_part c = is_part c || leb b'A' c && leb c b'Z'

-- Up to `room` more characters, then `$`: the end, or a line feed that ends the text.
unfoldable pub wire_tail : ℕ → String → Bool
wire_tail room [] = true
wire_tail zero (c ∷ s) = eqb (code c) 10 && s == []
wire_tail (suc room) (c ∷ s) =
    eqb (code c) 10 && s == [] || is_wire_part (code c) && wire_tail room s

-- _ID_RE.match(s)
unfoldable pub is_wire_id : String → Bool
unfolding wire_tail
is_wire_id [] = false
is_wire_id (c ∷ s) = is_wire_part (code c) && not (eqb (code c) b'-') && wire_tail 127 s

-- The ValueErrors of publish, by what they say.
pub data PublishError : Type 0 where
  not_one_target bad_recipient bad_channel newline_in_key : PublishError

abbrev pub not_one : Option String → Option String → Bool
not_one none none = true
not_one (some to) (some chan) = true
not_one _ _ = false

abbrev pub fails : Option String → Bool
fails none = false
fails (some s) = not (is_wire_id s)

abbrev pub has_newline : Option String → Bool
has_newline none = false
has_newline (some key) = not (every (λ c. not (eqb c 10 || eqb c 13)) key)

unfoldable pub check_target :
    Option String → Option String → Option String → Result PublishError (Unit {0})
check_target to chan key = do
  raise_if (not_one to chan) not_one_target
  raise_if (fails to) bad_recipient
  raise_if (fails chan) bad_channel
  raise_if (has_newline key) newline_in_key

abbrev pub is_record : Line → Bool
is_record blank = false
is_record _ = true

-- GitBus._next_seq, on the lines of the lane
unfoldable pub next_seq : List Line → ℕ
next_seq lines = length (select is_record lines)

-- The arguments of publish, with the digits of the uuid and the time that it draws.
pub record Post : Type 0 where
  pub body : Body
  pub to : Option String
  pub chan : Option String
  pub type : String
  pub key : Option String
  pub ttl : Option ℕ
  pub uuid12 : String
  pub now : ℕ

unfoldable pub new_envelope : Repo → String → Post → Envelope
unfolding next_seq
new_envelope repo agent_id post = record {
  type = post.type;
  from = agent_id;
  body = post.body;
  to = post.to;
  chan = post.chan;
  key = post.key;
  id = text_append "rec-" post.uuid12;
  ts = post.now;
  seq = next_seq (my_lane repo agent_id post.chan);
  ttl = post.ttl;
}

-- GitBus.publish, to the envelope and the repository with it
unfoldable pub publish : Repo → String → Post → Result PublishError (Envelope × Repo)
unfolding check_target new_envelope
publish repo agent_id post = do
  check_target post.to post.chan post.key
  let env = new_envelope repo agent_id post
  ok (env, append_line repo agent_id post.chan (entry env))
