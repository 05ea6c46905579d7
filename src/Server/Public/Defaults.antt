-- ===== src/Server/Public/Defaults.antt =====
-- server.py, _omit_defaults: a field that is left out means its default.
use mcp_dispatch.Base.{
  ℕ, String, Bool, true, false, ◌==◌, not, Option, none, some, Bool-cases, eqb, inl, inr, ◌≡◌, refl,
  ap, arith, eq_iff,
}
use mcp_dispatch.Message.{Message, read}
use mcp_dispatch.Server.Public.{
  Public, unless, same_ttl, public_via, named_source, omit_defaults, public_msg,
}

abbrev pub or_default {ℓ} : {A : Type ℓ} → A → Option A → A
or_default d none = d
or_default d (some x) = x

-- The message that a reader of a shown one takes it for, with the server's default ttl.
pub restore : ℕ → Public → Message
restore default_ttl p = record {
  id = p.id;
  from = p.from;
  to = p.to;
  timestamp = p.timestamp;
  priority = or_default "normal" p.priority;
  content = p.content;
  payload = p.payload;
  thread_id = p.thread_id;
  reply_to = p.reply_to;
  ttl = or_default (some default_ttl) p.ttl;
  must_read = or_default false p.must_read;
  state = or_default read p.state;
  read_at = or_default none p.read_at;
  expired_at = p.expired_at;
  kind = p.kind;
  about = p.about;
  via = p.via;
  inherited_from = p.inherited_from;
}

restored_must_read : (b : Bool) → or_default false (unless (not b) b) ≡ b
restored_must_read true = refl
restored_must_read false = refl

restored_priority : (s : String) → or_default "normal" (unless (s == "normal") s) ≡ s
restored_priority s = elim (Bool-cases (s == "normal")) [
  | inl t ↦ let same : "normal" ≡ s = ground (arith, t, eq_iff s "normal") in rw t same
  | inr f ↦ rw f refl
]

restored_ttl : (d : ℕ) (ttl : Option ℕ) → or_default (some d) (unless (same_ttl d ttl) ttl) ≡ ttl
restored_ttl d none = refl
restored_ttl d (some n) = elim (Bool-cases (eqb n d)) [
  | inl t ↦ let same : d ≡ n = ground (arith, t) in rw t (ap some same)
  | inr f ↦ rw f refl
]

-- Nothing is lost by leaving defaults out: from what peek shows of a message in full, with its
-- state, a reader who puts the defaults in has the message again, with `via` and `inherited_from`
-- as they are shown.
pub restore-public_msg :
    (str : ℕ → String) (is_space : ℕ → Bool) (deliver_max default_ttl : ℕ) (msg : Message)
    → restore default_ttl (public_msg str is_space deliver_max default_ttl false true msg)
      ≡ record msg { via = public_via msg.via; inherited_from = named_source msg.inherited_from }
unfolding restore public_msg omit_defaults
restore-public_msg str is_space deliver_max default_ttl msg = λ i. record msg {
  via = public_via msg.via;
  inherited_from = named_source msg.inherited_from;
  must_read = restored_must_read msg.must_read i;
  priority = restored_priority msg.priority i;
  ttl = restored_ttl default_ttl msg.ttl i;
}
