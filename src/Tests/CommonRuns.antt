-- ===== src/Tests/CommonRuns.antt =====
-- Two windows on one project.
use mcp_dispatch.Base.{
  ℕ, String, true, Option, some, List, [], ◌∷◌, any, select, length, eqb, if◌then◌else◌, ◌≡◌, refl,
}
use mcp_dispatch.Base.Dict.{Dict}
use mcp_dispatch.Base.Sort.{sort_with}
use mcp_dispatch.Base.Text.{after_last}
use mcp_dispatch.Common.Ancestry.{
  words, digits, process_chain, parent_in, scored, pick_by_ancestry, near, rank, score_le,
}
use mcp_dispatch.Common.Ancestry.Nearest.{meets, is_named, pick_by_ancestry-nearest}

abbrev stat : ℕ → Option String
stat pid =
    if eqb pid 90
    then some "90 (tmux: (server)) S 40 90"
    else if eqb pid 40
    then some "40 (claude) S 7 40"
    else some "7 (init) S 1 7"

chain : process_chain stat 8 90 ≡ 40 ∷ 7 ∷ []
unfolding process_chain parent_in words digits after_last
chain = refl

abbrev candidates : Dict (List ℕ)
candidates = ("bob-3", 50 ∷ 7 ∷ []) ∷ ("bob-12", 40 ∷ 7 ∷ []) ∷ []

pick_by_ancestry-nearest_example :
    (distance : ℕ) × (any (is_named distance (40 ∷ 7 ∷ []) "bob-12") candidates ≡ true)
    × (length (select (λ (c : String × List ℕ). meets distance (40 ∷ 7 ∷ []) c.1) candidates) ≡ 1)
unfolding pick_by_ancestry scored near rank score_le sort_with
pick_by_ancestry-nearest_example =
    pick_by_ancestry-nearest candidates (40 ∷ 7 ∷ []) "bob-12" (refl, (refl, tt)) refl
