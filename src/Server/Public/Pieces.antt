-- ===== src/Server/Public/Pieces.antt =====
-- server.py, _clip: the two pieces of a text that is cut, and what the marker says is missing.
use Prim.Native.String.{◌++◌}
use text.Mathlib.TextLemmas.{append_assoc}
use mcp_dispatch.Base.{
  ℕ, ◌+◌, ◌-◌, ◌/◌, ◌≤◌, ◌<◌, String, Bool, true, false, ◌==◌, ◌||◌, none, some, List, [], ◌∷◌, leb,
  eqb, Bool-cases, if◌then◌else◌, ◌⊎◌, inl, inr, ◌≡◌, refl, sym, ap, ◌∙◌, arith,
}
use mcp_dispatch.Base.Text.{
  chars, every, rstrip_by-gap, lstrip_by-gap, take, drop, find, rfind, lstrip_by, rstrip_by,
  take-drop, take-all, take-take-le, drop-drop, chars-drop, chars-take-le, chars-append,
}
use mcp_dispatch.Message.{Message}
use mcp_dispatch.Server.Public.{
  breaks, is_late, is_early, or_start, end_at, end_at_break, start_at, start_at_break, will_cut,
  marker, clip, cut_for_delivery,
}

abbrev IsPrefix : String → String → Type 0
IsPrefix head text = (n : ℕ) × (head ≡ take n text)

abbrev IsSuffix : String → String → Type 0
IsSuffix tail text = (n : ℕ) × (tail ≡ drop n text)

end_at-IsPrefix : (brks : List String) (head : String) → IsPrefix (end_at brks head) head
unfolding end_at
end_at-IsPrefix [] head = (chars head, sym (take-all (chars head) head (omega arith)))
end_at-IsPrefix (brk ∷ brks) head =
    elim (is_late head (rfind brk head))
      as (λ b.
        IsPrefix (if b then take (or_start (rfind brk head) + chars brk) head else end_at brks head)
          head) [
            | true ↦ (or_start (rfind brk head) + chars brk, refl)
            | false ↦ end_at-IsPrefix brks head
          ]

start_at-IsSuffix : (brks : List String) (tail : String) → IsSuffix (start_at brks tail) tail
unfolding start_at drop
start_at-IsSuffix [] tail = (0, refl)
start_at-IsSuffix (brk ∷ brks) tail =
    elim (is_early tail (find brk tail))
      as (λ b.
        IsSuffix
          (if b then drop (or_start (find brk tail) + chars brk) tail else start_at brks tail)
          tail) [
            | true ↦ (or_start (find brk tail) + chars brk, refl)
            | false ↦ start_at-IsSuffix brks tail
          ]

-- A prefix of a prefix is a prefix, of at most as many characters.
take-IsPrefix :
    (l : ℕ) (head text : String)
    → IsPrefix head (take l text)
    → (m : ℕ) × (m ≤ l) × (head ≡ take m text)
take-IsPrefix l head text (n, e) = elim (Bool-cases (leb n l)) [
  | inl t ↦ (n, ground (arith, t), e ∙ take-take-le n l text (ground (arith, t)))
  | inr f ↦
      let le : l ≤ n = ground (arith, f) in
      let short : chars (take l text) ≤ n = omega (arith, le, chars-take-le l text) in
      (l, omega arith, e ∙ take-all n (take l text) short)
]

-- `text` is `head`, then `middle`, then `tail`, and the two pieces have at most `limit` characters.
abbrev pub Cuts : ℕ → String → String → String → String → Type 0
Cuts limit text head middle tail =
    (text ≡ head ++ middle ++ tail) × (chars head + chars tail ≤ limit)

three_pieces :
    (m b : ℕ) (text : String)
    → m ≤ b
    → text ≡ take m text ++ take (b - m) (drop m text) ++ drop b text
three_pieces m b text h =
    let rest : drop m text ≡ take (b - m) (drop m text) ++ drop b text =
      take-drop (b - m) (drop m text)
      ∙ ap (λ t. take (b - m) (drop m text) ++ t)
          (drop-drop (b - m) m text
            ∙ (let sum : m + (b - m) ≡ b = omega (arith, h) in ap (λ k. drop k text) sum)) in
    take-drop m text ∙ ap (λ t. take m text ++ t) rest

module _ (str : ℕ → String) (is_space : ℕ → Bool) where
  -- What a text that is cut becomes. It is `head`, white space, `middle`, white space and `tail`,
  -- and shown are the head, the marker with the length of the middle, and the tail. The pieces
  -- have at most `limit` characters with the white space.
  abbrev pub Clipped : ℕ → String → String → String → Type 0
  Clipped limit msg_id text shown =
      (head : String) × (gap : String) × (middle : String) × (gap' : String) × (tail : String)
      × (text ≡ head ++ gap ++ middle ++ gap' ++ tail)
      × (every is_space gap ≡ true)
      × (every is_space gap' ≡ true)
      × (chars head + chars gap + chars gap' + chars tail ≤ limit)
      × (shown ≡ head ++ marker str (chars middle) msg_id ++ tail)

  -- The pieces less the white space at the cuts.
  Clipped-of_Cuts :
      (limit : ℕ) (msg_id text head middle tail shown : String)
      → Cuts limit text head middle tail
      → shown
        ≡ rstrip_by is_space head ++ marker str (chars middle) msg_id ++ lstrip_by is_space tail
      → Clipped limit msg_id text shown
  Clipped-of_Cuts limit msg_id text head middle tail shown (whole, short) e =
      let (gap, is_head, blank) = rstrip_by-gap is_space head in
      let (gap', is_tail, blank') = lstrip_by-gap is_space tail in
      let front = rstrip_by is_space head in
      let back = lstrip_by is_space tail in
      let regroup : text ≡ front ++ gap ++ middle ++ gap' ++ back =
        whole
        ∙ (λ i. is_head i ++ middle ++ is_tail i)
        ∙ append_assoc front gap (middle ++ gap' ++ back) in
      let fits : chars front + chars gap + chars gap' + chars back ≤ limit = omega (
        arith,
        short,
        ap chars is_head,
        ap chars is_tail,
        chars-append front gap,
        chars-append gap' back,
      ) in
      (front, gap, middle, gap', back, regroup, blank, blank', fits, e)

  clip-Clipped :
      (text : String) (limit : ℕ) (msg_id : String)
      → 5 ≤ limit
      → limit ≤ chars text
      → Clipped limit msg_id text (clip str is_space text limit msg_id)
  unfolding clip end_at_break start_at_break
  clip-Clipped text limit msg_id five long =
      let tb = limit / 5 in
      let some_tail : eqb tb 0 ≡ false = ground (arith, five) in
      let head = end_at_break (take (limit - tb) text) in
      let tail = start_at_break (drop (chars text - tb) text) in
      let (m, m_le, is_head) =
        take-IsPrefix (limit - tb) head text (end_at-IsPrefix breaks (take (limit - tb) text)) in
      let (n, is_tail) = start_at-IsSuffix breaks (drop (chars text - tb) text) in
      let b = chars text - tb + n in
      let middle = take (b - m) (drop m text) in
      let is_tail' : tail ≡ drop b text = is_tail ∙ drop-drop n (chars text - tb) text in
      let whole : text ≡ head ++ middle ++ tail =
        three_pieces m b text (omega (arith, m_le, long))
        ∙ (λ i. (sym is_head) i ++ middle ++ (sym is_tail') i) in
      let head_le : chars head ≤ limit - tb =
        omega (arith, m_le, ap chars is_head, chars-take-le m text) in
      let tail_le : chars tail ≤ tb = omega (arith, ap chars is_tail', chars-drop b text) in
      let missing : chars text - chars head - chars tail ≡ chars middle =
        omega
          (arith, ap chars whole, chars-append head (middle ++ tail), chars-append middle tail) in
      rw some_tail (
        Clipped-of_Cuts limit msg_id text head middle tail _
          (whole, omega (arith, head_le, tail_le))
          (ap (λ k. rstrip_by is_space head ++ marker str k msg_id ++ lstrip_by is_space tail)
            missing))

  -- Under a cap of 5 characters or more a recipient is shown the whole text of a message that is
  -- must_read or urgent or at most 80 characters longer than the cap, and of any other its start
  -- and its end, of at most as many characters as the cap together, around a marker. What is left
  -- out is white space behind the start, a middle, and white space before the end, and the marker
  -- has the length of the middle: it does not count the white space at the cuts.
  pub cut_for_delivery-Clipped :
      (deliver_max : ℕ) (msg : Message)
      → 5 ≤ deliver_max
      → ((cut_for_delivery str is_space deliver_max msg ≡ (msg.content, none))
          × ((msg.must_read || msg.priority == "urgent" ≡ true)
              ⊎ (chars msg.content ≤ deliver_max + 80)))
        ⊎ ((msg.must_read || msg.priority == "urgent" ≡ false)
            × (deliver_max + 80 < chars msg.content)
            × ((cut_for_delivery str is_space deliver_max msg).1 ≡ some (chars msg.content))
            × Clipped deliver_max msg.id msg.content
                (cut_for_delivery str is_space deliver_max msg).0)
  unfolding cut_for_delivery will_cut
  cut_for_delivery-Clipped deliver_max msg five =
      elim (Bool-cases (will_cut deliver_max (chars msg.content) msg.must_read msg.priority)) [
        | inr f ↦
            let exempt = msg.must_read || msg.priority == "urgent" in
            let why : (exempt ≡ true) ⊎ (chars msg.content ≤ deliver_max + 80) =
              elim (Bool-cases exempt) [
                | inl t ↦ inl t
                | inr n ↦ inr (ground (arith, f, n, five))
              ] in
            rw f (inl (refl, why))
        | inl t ↦
            let longer : deliver_max + 80 < chars msg.content = ground (arith, t) in
            rw t (
              inr (
                ground (arith, t),
                longer,
                refl,
                clip-Clipped msg.content deliver_max msg.id five (omega (arith, longer)),
              ))
      ]
