-- ===== src/Common/Ancestry.antt =====
-- dispatch_common.py: process_chain, pick_by_ancestry and resolve_agent_id. A text that `int` takes
-- is a run of ASCII digits here: another that it takes is no parent that /proc shows.
pub mod Nearest
use Prim.Native.Char.{Char, code}
use Prim.Native.String as Text
use Prim.Native.String.{compare, ◌++◌}
use text.Mathlib.Text.{is_le}
use mcp_dispatch.Base.{
  ℕ, zero, suc, ◌+◌, ◌-◌, ◌*◌, String, Bool, true, false, ◌==◌, not, ◌&&◌, ◌||◌, Option, none, some,
  List, [], ◌∷◌, ltb, leb, eqb, min, if◌then◌else◌,
}
use mcp_dispatch.Base.Dict.{Dict, put}
use mcp_dispatch.Base.Sort.{sort_with}
use mcp_dispatch.Base.Text.{after_last, starts_with}
use mcp_dispatch.Ident.{is_digit, nick_for_dir}
use mcp_dispatch.Relay.{Presence, Session}

abbrev is_blank : ℕ → Bool
is_blank c = eqb c 32 || leb 9 c && leb c 13

abbrev begins_word : String → Bool
begins_word Text.[] = false
begins_word (Text.◌∷◌ c s) = not (is_blank (code c))

abbrev attach : Char → List String → List String
attach c [] = []
attach c (w ∷ ws) = Text.◌∷◌ c w ∷ ws

-- s.split()
unfoldable pub words : String → List String
words Text.[] = []
words (Text.◌∷◌ c s) =
    let rest = words s in
    if is_blank (code c)
    then rest
    else if begins_word s
    then attach c rest
    else Text.◌∷◌ c Text.[] ∷ rest

unfoldable pub digits : ℕ → String → Option ℕ
digits n Text.[] = some n
digits n (Text.◌∷◌ c s) =
    let rest = digits (10 * n + (code c - b'0')) s in if is_digit (code c) then rest else none

abbrev second : List String → Option ℕ
second [] = none
second (a ∷ []) = none
second (a ∷ b ∷ fields) = if b == "" then none else digits 0 b

-- The parent in the text of /proc/<pid>/stat, where there is one.
unfoldable pub parent_in : Option String → Option ℕ
unfolding words digits
parent_in none = none
parent_in (some stat) = second (words (after_last b')' stat))

-- process_chain, by what /proc/<pid>/stat reads as; `depth` bounds the loop in the source.
unfoldable pub process_chain : (ℕ → Option String) → ℕ → ℕ → List ℕ
unfolding parent_in
process_chain stat zero cur = []
process_chain stat (suc depth) cur = elim (parent_in (stat cur)) [
  | none ↦ []
  | some parent ↦
      let rest = process_chain stat depth parent in if leb parent 1 then [] else parent ∷ rest
]

-- rank.get(p): the last place of a pid in our chain
unfoldable pub rank : List ℕ → ℕ → Option ℕ
rank [] p = none
rank (q ∷ qs) p = elim (rank qs p) [
  | some i ↦ some (suc i)
  | none ↦ if eqb q p then some 0 else none
]

abbrev pub nearer : Option ℕ → Option ℕ → Option ℕ
nearer none o = o
nearer (some i) none = some i
nearer (some i) (some j) = some (min i j)

-- min(near), if there is any
unfoldable pub near : List ℕ → List ℕ → Option ℕ
unfolding rank
near ours [] = none
near ours (p ∷ chain) = nearer (rank ours p) (near ours chain)

abbrev pub entry : Option ℕ → String → List (ℕ × String) → List (ℕ × String)
entry none aid rest = rest
entry (some distance) aid rest = (distance, aid) ∷ rest

-- The candidates that meet our chain, by where.
unfoldable pub scored : List ℕ → Dict (List ℕ) → List (ℕ × String)
unfolding near
scored ours [] = []
scored ours ((aid, chain) ∷ candidates) = entry (near ours chain) aid (scored ours candidates)

unfoldable pub score_le : ℕ × String → ℕ × String → Bool
score_le (i, aid) (j, other) = ltb i j || eqb i j && is_le (compare aid other)

-- The first, unless the second is as near.
abbrev pub first_alone : List (ℕ × String) → Option String
first_alone [] = none
first_alone (e ∷ []) = some e.1
first_alone (e ∷ f ∷ rest) = if eqb e.0 f.0 then none else some e.1

-- pick_by_ancestry. An empty chain of ours meets no other.
unfoldable pub pick_by_ancestry : Dict (List ℕ) → List ℕ → Option String
unfolding scored score_le
pick_by_ancestry candidates ours = first_alone (sort_with score_le (scored ours candidates))

abbrev chain_of : (ℕ → Option String) → Option ℕ → List ℕ
chain_of stat none = []
chain_of stat (some pid) = process_chain stat 8 pid

abbrev agent_id_of : Option Session → String
agent_id_of none = ""
agent_id_of (some session) = session.agent_id

-- The loop over the presence files, with the pid that each record has.
unfoldable pub matches :
    (ℕ → Option String)
    → (String → Option ℕ)
    → String
    → List (String × Presence)
    → Dict (List ℕ)
    → Dict (List ℕ)
unfolding process_chain
matches stat pid_of prefix [] found = found
matches stat pid_of prefix ((stem, presence) ∷ files) found =
    let aid = agent_id_of presence.content in
    matches stat pid_of prefix files (
      if starts_with (prefix ++ "-") aid && presence.locked
      then put found aid (chain_of stat (pid_of stem))
      else found)

abbrev only_or : Dict (List ℕ) → List ℕ → Option String
only_or [] ours = none
only_or ((aid, chain) ∷ []) ours = some aid
only_or (a ∷ b ∷ rest) ours = pick_by_ancestry (a ∷ b ∷ rest) ours

-- resolve_agent_id, with the id of the environment, stripped and in lower case, what the loop reads
-- in the order in which `glob` lists it, and the asking process
module _ (lower : String → String) (stat : ℕ → Option String) (pid_of : String → Option ℕ) where
  unfoldable pub resolve_agent_id : String → String → List (String × Presence) → ℕ → Option String
  unfolding matches pick_by_ancestry
  resolve_agent_id explicit cwd files me =
      let prefix = nick_for_dir lower cwd in
      if not (explicit == "")
      then some explicit
      else if prefix == ""
      then none
      else only_or (matches stat pid_of prefix files []) (process_chain stat 8 me)
