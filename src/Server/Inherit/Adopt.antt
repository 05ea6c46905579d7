-- ===== src/Server/Inherit/Adopt.antt =====
-- server.py, _inherit_orphan_inbox: where each message of a dead session is afterwards.
use mcp_dispatch.Base.{
  suc, String, true, false, ◌==◌, Option, none, some, List, [], ◌∷◌, In, In-append, All, All-append,
  Bool-cases, if◌then◌else◌, inl, inr, ◌≡◌, refl, sym, subst, ap, ◌∙◌, arith, eq_iff, eq_refl,
}
use mcp_dispatch.Base.Dict.{get, put, remove, get-put, get-remove}
use mcp_dispatch.Base.Sort.{sort_by, In-sort_by}
use mcp_dispatch.Message.{Message, File, unreadable, message, is_pending}
use mcp_dispatch.Relay.{Relay, Inbox}
use mcp_dispatch.Relay.Send.{inbox_or_new}
use mcp_dispatch.Relay.Send.Delivery.{file_in, file_at, file_in-new}
use mcp_dispatch.Server.Inherit.{
  Move, moves_from, moves_of, tagged, Adopted, replace_file, adopt_one, adopt,
}

-- One move, at every file of the relay.
pub file_at-replace_file :
    (relay : Relay) (me : String) (mine : Inbox) (move : Move) (j k : String)
    → get relay.inboxes me ≡ some mine
    → move.donor == me ≡ false
    → file_at (replace_file relay me mine move) j k ≡ (
        if me == j
        then (if move.name == k
            then some (message (tagged move.donor move.msg))
            else file_at relay j k)
        else if move.donor == j
        then (if move.name == k then none else file_at relay j k)
        else file_at relay j k)
unfolding replace_file
file_at-replace_file relay me mine move j k e d =
    let theirs = inbox_or_new (get relay.inboxes move.donor) in
    let emptied = record theirs { files = remove theirs.files move.name } in
    let landed = record mine {
      files = put mine.files move.name (message (tagged move.donor move.msg));
    } in
    let outer = get-put (put relay.inboxes move.donor emptied) me j landed in
    elim (Bool-cases (me == j)) [
      | inl t ↦
          let same : me ≡ j = ground (arith, t, eq_iff me j) in
          let here : get relay.inboxes j ≡ some mine =
            subst (λ i. get relay.inboxes i ≡ some mine) same e in
          rw (outer, t, here) (get-put mine.files move.name k _)
      | inr f ↦
          let inner = get-put relay.inboxes move.donor j emptied in
          elim (Bool-cases (move.donor == j)) [
            | inl t ↦
                let same : move.donor ≡ j = ground (arith, t, eq_iff move.donor j) in
                rw (outer, f, inner, t)
                  (get-remove theirs.files move.name k
                    ∙ ap (λ (o : Option File). if move.name == k then none else o)
                        (file_in-new (get relay.inboxes move.donor) k
                          ∙ ap (λ i. file_in (get relay.inboxes i) k) same))
            | inr o ↦ rw (outer, f, inner, o) refl
          ]
    ]

-- The heir keeps a directory.
pub has_inbox-replace_file :
    (relay : Relay) (me : String) (mine : Inbox) (move : Move)
    → (after : Inbox) × (get (replace_file relay me mine move).inboxes me ≡ some after)
unfolding replace_file
has_inbox-replace_file relay me mine move = (
  record mine { files = put mine.files move.name (message (tagged move.donor move.msg)) },
  rw (get-put, eq_refl me) refl,
)

-- No move of the list takes a file of the name `k`.
abbrev NoName : String → List Move → Type 0
NoName k = All (λ (m : Move). m.name == k ≡ false)

-- No two files to move have one name.
abbrev pub OneName : List Move → Type 0
OneName [] = Unit
OneName (move ∷ moves) = NoName move.name moves × OneName moves

-- Every donor is another inbox than `me`.
abbrev pub Elsewhere : String → List Move → Type 0
Elsewhere me = All (λ (m : Move). m.donor == me ≡ false)

abbrev Orderly : String → List Move → Type 0
Orderly me [] = Unit
Orderly me (move ∷ moves) = (move.donor == me ≡ false) × NoName move.name moves × Orderly me moves

pub Orderly-of :
    (me : String) (moves : List Move) → Elsewhere me moves → OneName moves → Orderly me moves
Orderly-of me [] e o = tt
Orderly-of me (move ∷ moves) e o = (e.0, o.0, Orderly-of me moves e.1 o.1)

-- A file that no move takes stays where it is.
adopt-others :
    (me : String) (moves : List Move) (st : Adopted) (mine : Inbox) (j k : String)
    → get st.relay.inboxes me ≡ some mine
    → Orderly me moves
    → NoName k moves
    → file_at (adopt me moves st).relay j k ≡ file_at st.relay j k
unfolding adopt adopt_one
adopt-others me [] st mine j k e o n = refl
adopt-others me (move ∷ moves) st mine j k e o n =
    let (after, has_inbox) = has_inbox-replace_file st.relay me mine move in
    let next : Adopted = record {
      relay = replace_file st.relay me mine move;
      moved = suc st.moved;
    } in
    let moved = file_at-replace_file st.relay me mine move j k e o.0 in
    ap (λ i. file_at (adopt me moves (adopt_one me move i st)).relay j k) e
    ∙ adopt-others me moves next after j k has_inbox o.2 n.1
    ∙ moved
    ∙ ground (arith, n.0)

-- Where one move's message is at the end.
abbrev pub Landed : String → Relay → Move → Type 0
Landed me relay move =
    (file_at relay me move.name ≡ some (message (tagged move.donor move.msg)))
    × (file_at relay move.donor move.name ≡ none)

pub adopt-Landed :
    (me : String) (moves : List Move) (st : Adopted) (mine : Inbox)
    → get st.relay.inboxes me ≡ some mine
    → Orderly me moves
    → All (Landed me (adopt me moves st).relay) moves
unfolding adopt adopt_one
adopt-Landed me [] st mine e o = tt
adopt-Landed me (move ∷ moves) st mine e o =
    let (after, has_inbox) = has_inbox-replace_file st.relay me mine move in
    let next : Adopted = record {
      relay = replace_file st.relay me mine move;
      moved = suc st.moved;
    } in
    let at_me = file_at-replace_file st.relay me mine move me move.name e o.0 in
    let at_donor = file_at-replace_file st.relay me mine move move.donor move.name e o.0 in
    let kept = λ (j : String). adopt-others me moves next after j move.name has_inbox o.2 o.1 in
    subst
      (λ i.
        Landed me (adopt me moves (adopt_one me move i st)).relay move
        × All (Landed me (adopt me moves (adopt_one me move i st)).relay) moves)
      (sym e)
      (
        (
          kept me ∙ at_me ∙ ground (arith, eq_refl me, eq_refl move.name),
          kept move.donor
              ∙ at_donor
              ∙ ground (arith, o.0, eq_iff me move.donor, eq_refl move.donor, eq_refl move.name),
        ),
        adopt-Landed me moves next after has_inbox o.2,
      )

moves_from-Elsewhere :
    (me donor : String) (files : List (String × File))
    → donor == me ≡ false
    → Elsewhere me (moves_from donor files)
unfolding moves_from
moves_from-Elsewhere me donor [] e = tt
moves_from-Elsewhere me donor ((name, unreadable) ∷ files) e = moves_from-Elsewhere me donor files e
moves_from-Elsewhere me donor ((name, message msg) ∷ files) e =
    let rest = moves_from-Elsewhere me donor files e in
    elim (is_pending msg.state)
      as (λ b. Elsewhere me (
        if b
        then record { donor = donor; name = name; msg = msg } ∷ moves_from donor files
        else moves_from donor files)) [ true ↦ (e, rest) | false ↦ rest ]

pub moves_of-Elsewhere :
    (me : String) (donors : List (String × Inbox))
    → All (λ (d : String × Inbox). d.0 == me ≡ false) donors
    → Elsewhere me (moves_of donors)
unfolding moves_of
moves_of-Elsewhere me [] h = tt
moves_of-Elsewhere me ((donor, inbox) ∷ donors) h =
    let here =
      moves_from-Elsewhere me donor (sort_by (λ (f : String × File). f.0) inbox.files) h.0 in
    All-append (λ (m : Move). m.donor == me ≡ false) _ _ here (moves_of-Elsewhere me donors h.1)

In-moves_from :
    (donor name : String) (msg : Message) (files : List (String × File))
    → is_pending msg.state ≡ true
    → In (name, message msg) files
    → In (record { donor = donor; name = name; msg = msg }) (moves_from donor files)
unfolding moves_from
In-moves_from donor name msg [] p i = i
In-moves_from donor name msg ((other, unreadable) ∷ files) p (inl e) =
    let same : message msg ≡ unreadable = ap (λ (f : String × File). f.1) e in absurd (cc)
In-moves_from donor name msg ((other, unreadable) ∷ files) p (inr i) =
    In-moves_from donor name msg files p i
In-moves_from donor name msg ((other, message msg') ∷ files) p (inl e) =
    let same : message msg ≡ message msg' = ap (λ (f : String × File). f.1) e in
    let same_msg : msg ≡ msg' = cc in
    let is_on : is_pending msg'.state ≡ true =
      subst (λ (m : Message). is_pending m.state ≡ true) same_msg p in
    rw is_on (
      inl (λ i. record {
        donor = donor;
        name = (ap (λ (f : String × File). f.0) e) i;
        msg = same_msg i;
      }))
In-moves_from donor name msg ((other, message msg') ∷ files) p (inr i) =
    let rest = In-moves_from donor name msg files p i in
    elim (is_pending msg'.state)
      as (λ b.
        In (record { donor = donor; name = name; msg = msg })
          (if b
            then record { donor = donor; name = other; msg = msg' } ∷ moves_from donor files
            else moves_from donor files)) [ true ↦ inr rest | false ↦ rest ]

pub In-moves_of :
    (donor name : String) (msg : Message) (inbox : Inbox) (donors : List (String × Inbox))
    → is_pending msg.state ≡ true
    → In (name, message msg) inbox.files
    → In (donor, inbox) donors
    → In (record { donor = donor; name = name; msg = msg }) (moves_of donors)
unfolding moves_of
In-moves_of donor name msg inbox [] p f i = absurd i
In-moves_of donor name msg inbox ((other, inbox') ∷ donors) p f (inl e) =
    let sorted = In-sort_by (λ (f : String × File). f.0) (name, message msg) inbox.files f in
    let here =
      In-moves_from donor name msg (sort_by (λ (f : String × File). f.0) inbox.files) p sorted in
    let there =
      subst
        (λ (d : String × Inbox).
          In (record { donor = donor; name = name; msg = msg })
            (moves_from d.0 (sort_by (λ (f : String × File). f.0) d.1.files)))
        e here in
    In-append _ _ (moves_of donors) (inl there)
In-moves_of donor name msg inbox ((other, inbox') ∷ donors) p f (inr i) =
    In-append _ (moves_from other (sort_by (λ (f : String × File). f.0) inbox'.files)) _
      (inr (In-moves_of donor name msg inbox donors p f i))
