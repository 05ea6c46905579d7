-- ===== src/Ident/Nick.antt =====
-- The laws of ids and nicks.
use Prim.Native.Char.{Char, code}
use Prim.Native.String.{[], ◌∷◌, ◌++◌}
use text.Mathlib.TextLemmas.{nil-append, cons-append}
use mcp_dispatch.Base.{
  ℕ, zero, suc, ◌≤◌, String, ◌≡◌, ◌≢◌, refl, inl, inr, Bool, true, not, ◌&&◌, ◌==◌, eq_iff, Option,
  none, some, eqb, if◌then◌else◌, Bool-cases, arith,
}
use mcp_dispatch.Base.Text.{
  chars, every, keep, lstrip, take, rstrip, after_last, every-keep, every-lstrip, every-take,
  chars-take-le, every-append, chars-append,
}
use mcp_dispatch.Ident.{
  is_digit, is_start, is_part, in_nick, id_tail, is_id, pid_end, pid_step, before_pid, durable_nick,
  nick_for_dir,
}

-- A pid as the launcher writes it: a non-empty run of digits.
abbrev pub IsPid : String → Type 0
IsPid s = (s ≢ []) × (every is_digit s ≡ true)

pid_end_digits : (c : Char) (s : String) → every is_digit (c ∷ s) ≡ true → pid_end (c ∷ s) ≡ true
unfolding pid_end
pid_end_digits c [] h = ground arith
pid_end_digits c (d ∷ s) h = ground (arith, pid_end_digits d s)

pid_end-IsPid : (s : String) → IsPid s → pid_end s ≡ true
pid_end-IsPid [] h = absurd (h.0 refl)
pid_end-IsPid (c ∷ s) h = pid_end_digits c s h.1

before_pid_digits : (s : String) → every is_digit s ≡ true → before_pid s ≡ none
unfolding before_pid
before_pid_digits [] h = refl
before_pid_digits (c ∷ s) h = ground (arith, before_pid_digits s)

abbrev pub one_line : String → Bool
one_line = every (λ c. not (eqb c 10))

before_pid-append :
    (nick pid : String)
    → one_line nick ≡ true
    → IsPid pid
    → before_pid (nick ++ "-" ++ pid) ≡ some nick
unfolding before_pid
before_pid-append [] pid h p =
    rw (nil-append, cons-append, nil-append)
      (rw (before_pid_digits pid p.1) (ground (arith, pid_end-IsPid pid p)))
before_pid-append (c ∷ s) pid h p =
    rw (cons-append c s ("-" ++ pid)) (ground (arith, before_pid-append s pid))

-- A session id made of a non-empty one-line nick, a dash and a pid has that nick.
pub durable_nick-append :
    (nick pid : String)
    → nick ≢ []
    → one_line nick ≡ true
    → IsPid pid
    → durable_nick (nick ++ "-" ++ pid) ≡ nick
unfolding durable_nick
durable_nick-append nick pid ne h p = ground (arith, before_pid-append nick pid h p, eq_iff nick [])

-- A run of id characters that fits the room is the tail of an id.
id_tail-every :
    (room : ℕ) (s : String) → every is_part s ≡ true → chars s ≤ room → id_tail room s ≡ true
unfolding id_tail
id_tail-every zero [] h le = refl
id_tail-every (suc room) [] h le = refl
id_tail-every zero (c ∷ s) h le = absurd (omega arith)
id_tail-every (suc room) (c ∷ s) h le = ground (arith, id_tail-every room s)

abbrev pub starts_well : String → Bool
starts_well [] = true
starts_well (c ∷ s) = is_start (code c)

every_mono :
    (p q : ℕ → Bool) (s : String)
    → ((c : ℕ) → p c ≡ true → q c ≡ true)
    → every p s ≡ true
    → every q s ≡ true
every_mono p q [] imp h = refl
every_mono p q (c ∷ s) imp h = ground (arith, imp (code c), every_mono p q s imp)

is_id-cons :
    (c : Char) (s : String)
    → is_start (code c) ≡ true
    → every is_part s ≡ true
    → chars s ≤ 63
    → is_id (c ∷ s) ≡ true
unfolding is_id
is_id-cons c s h e le = rw (h, id_tail-every 63 s e le)

lstrip_start : (s : String) → every in_nick s ≡ true → starts_well (lstrip b'-' s) ≡ true
unfolding lstrip
lstrip_start [] h = refl
lstrip_start (c ∷ s) h = ground (arith, lstrip_start s)

take_start : (n : ℕ) (s : String) → starts_well s ≡ true → starts_well (take n s) ≡ true
unfolding take
take_start zero s h = refl
take_start (suc n) [] h = refl
take_start (suc n) (c ∷ s) h = h

-- What `nick_for_dir` returns for a directory, whatever `str.lower` does: at most 50 characters of
-- a nick, of which the first is a letter or a digit.
pub record IsNick (s : String) : Type 0 where
  pub short : chars s ≤ 50
  start : starts_well s ≡ true
  parts : every in_nick s ≡ true

nick_for_dir-IsNick : (lower : String → String) (cwd : String) → IsNick (nick_for_dir lower cwd)
unfolding nick_for_dir
nick_for_dir-IsNick lower cwd =
    let name = lower (after_last b'/' (rstrip b'/' cwd)) in
    let kept = keep in_nick name in
    record {
      short = chars-take-le 50 _;
      start = take_start 50 _ (lstrip_start kept (every-keep in_nick name));
      parts = every-take in_nick 50 _ (every-lstrip in_nick b'-' kept (every-keep in_nick name));
    }

-- The characters of a nick, a dash and digits are characters of an id.
parts :
    (s pid : String)
    → every in_nick s ≡ true
    → every is_digit pid ≡ true
    → every is_part (s ++ "-" ++ pid) ≡ true
parts s pid h e = rw (every-append is_part s ("-" ++ pid)) (
    ground (
      arith,
      every_mono in_nick is_part s (λ c i. ground arith) h,
      every-append is_part "-" pid,
      every_mono is_digit is_part pid (λ c i. ground arith) e,
    ))

session_id-is_id :
    (nick pid : String)
    → IsNick nick
    → nick ≢ []
    → every is_digit pid ≡ true
    → chars pid ≤ 13
    → is_id (nick ++ "-" ++ pid) ≡ true
session_id-is_id [] pid h ne e le = absurd (ne refl)
session_id-is_id (c ∷ s) pid h ne e le = rw (cons-append c s ("-" ++ pid)) (
    is_id-cons c (s ++ "-" ++ pid) h.start (parts s pid (ground (arith, h.parts)) e)
      (omega (arith, h.short, chars-append s ("-" ++ pid), chars-append "-" pid)))

-- The id that the launcher makes of a directory's nick and a pid of at most 13 digits is a valid
-- id, and its durable nick is the directory's nick again: whatever `str.lower` returns, where the
-- directory's name has a usable character.
pub launched_session :
    (lower : String → String) (cwd pid : String)
    → nick_for_dir lower cwd ≢ []
    → IsPid pid
    → chars pid ≤ 13
    → (is_id (nick_for_dir lower cwd ++ "-" ++ pid) ≡ true)
      × (durable_nick (nick_for_dir lower cwd ++ "-" ++ pid) ≡ nick_for_dir lower cwd)
launched_session lower cwd pid ne p le =
    let n = nick_for_dir-IsNick lower cwd in
    (
      session_id-is_id _ pid n ne p.1 le,
      durable_nick-append _ pid ne
          (every_mono in_nick (λ c. not (eqb c 10)) (nick_for_dir lower cwd) (λ c i. ground arith)
            n.parts)
          p,
    )

abbrev TailFits : ℕ → Option String → Type 0
TailFits room none = Unit
TailFits room (some nick) = id_tail room nick ≡ true

pid_step-TailFits :
    (room : ℕ) (c : Char) (s : String) (o : Option String)
    → is_part (code c) ≡ true
    → TailFits room o
    → TailFits (suc room) (pid_step c s o)
unfolding pid_step id_tail
pid_step-TailFits room c s none h f = elim (Bool-cases (eqb (code c) b'-' && pid_end s)) [
  | inl e ↦ rw e refl
  | inr e ↦ rw e tt
]
pid_step-TailFits room c s (some nick) h f = elim (Bool-cases (eqb (code c) 10)) [
  | inl e ↦ rw e tt
  | inr e ↦ rw e (rw (h, f))
]

-- Cutting the pid off leaves a run of id characters that still fits.
before_pid-TailFits : (room : ℕ) (s : String) → id_tail room s ≡ true → TailFits room (before_pid s)
unfolding before_pid id_tail
before_pid-TailFits zero [] h = tt
before_pid-TailFits (suc room) [] h = tt
before_pid-TailFits zero (c ∷ s) h = cc
before_pid-TailFits (suc room) (c ∷ s) h =
    pid_step-TailFits room c s (before_pid s) (ground arith)
      (before_pid-TailFits room s (ground arith))

nick_or : String → Option String → String
nick_or s none = s
nick_or s (some nick) = if nick == [] then s else nick

durable_nick-eq-nick_or : (s : String) → durable_nick s ≡ nick_or s (before_pid s)
unfolding durable_nick nick_or
durable_nick-eq-nick_or s = ground arith

nick_or-is_id :
    (c : Char) (s : String) (o : Option String)
    → is_id (c ∷ s) ≡ true
    → TailFits 63 o
    → is_id (nick_or (c ∷ s) (pid_step c s o)) ≡ true
unfolding pid_step nick_or
nick_or-is_id c s none h f = elim (Bool-cases (eqb (code c) b'-' && pid_end s)) [
  | inl e ↦ rw e h
  | inr e ↦ rw e h
]
nick_or-is_id c s (some nick) h f = elim (Bool-cases (eqb (code c) 10)) [
  | inl e ↦ rw e h
  | inr e ↦ rw e (unfold is_id in (ground arith))
]

-- The durable nick of a valid id is a valid id, so it is a safe path segment as well.
pub durable_nick-is_id : (s : String) → is_id s ≡ true → is_id (durable_nick s) ≡ true
durable_nick-is_id [] h = unfold is_id in (cc)
durable_nick-is_id (c ∷ s) h = rw (durable_nick-eq-nick_or (c ∷ s)) (
    unfold before_pid in
    nick_or-is_id c s (before_pid s) h (before_pid-TailFits 63 s (unfold is_id in (ground arith))))
