-- ===== src/Transport/Drain/Listing.antt =====
-- The lane files of git_transport.py that a reader lists: what is in them, which listings a call of
-- drain reads to the end, and how a listing grows between two calls.
use mcp_dispatch.Base.{
  ℕ, zero, suc, ◌+◌, String, Bool, true, false, List, [], ◌∷◌, ◌++◌, map, length, select, elem, All,
  ◌≡◌,
}
use mcp_dispatch.Base.Dict.{Dict}
use mcp_dispatch.Transport.{Envelope, Line, blank, malformed, wrong_type, entry, LaneFile}
use mcp_dispatch.Transport.Drain.{consumed_of}

abbrev pub envelopes : List Line → List Envelope
envelopes [] = []
envelopes (entry env ∷ lines) = env ∷ envelopes lines
envelopes (blank ∷ lines) = envelopes lines
envelopes (malformed ∷ lines) = envelopes lines
envelopes (wrong_type ∷ lines) = envelopes lines

-- No line raises what the reader does not catch.
abbrev pub readable : List Line → Bool
readable [] = true
readable (wrong_type ∷ lines) = false
readable (entry env ∷ lines) = readable lines
readable (blank ∷ lines) = readable lines
readable (malformed ∷ lines) = readable lines

abbrev pub drop : ℕ → List Line → List Line
drop zero lines = lines
drop (suc n) [] = []
drop (suc n) (line ∷ lines) = drop n lines

abbrev pub paths : List LaneFile → List String
paths = map (λ (f : LaneFile). f.0)

-- No path twice, as in a listing of directories.
abbrev pub Distinct : List LaneFile → Type 0
Distinct [] = Unit
Distinct ((rel, lines) ∷ files) = (elem rel (paths files) ≡ false) × Distinct files

abbrev pub Readable : List LaneFile → Type 0
Readable = All (λ (f : LaneFile). readable f.1 ≡ true)

-- How many envelopes in the files pass a test.
abbrev pub total : (Envelope → Bool) → List LaneFile → ℕ
total p [] = 0
total p ((rel, lines) ∷ files) = length (select p (envelopes lines)) + total p files

-- A listing in which lanes have got longer at their ends, and in which there are lanes whose path
-- is not `known`.
pub data Grows (known : List String) : List LaneFile → List LaneFile → Type 0 where
  none_left : Grows known [] []
  longer :
      (rel : String) (lines extra : List Line) {fs gs : List LaneFile}
      → Grows known fs gs
      → Grows known ((rel, lines) ∷ fs) ((rel, lines ++ extra) ∷ gs)
  added :
      (rel : String) (lines : List Line) {fs gs : List LaneFile}
      → elem rel known ≡ false
      → Grows known fs gs
      → Grows known fs ((rel, lines) ∷ gs)

abbrev pub CaughtUp : Dict ℕ → List LaneFile → Type 0
CaughtUp consumed = All (λ (f : LaneFile). consumed_of consumed f.0 ≡ length f.1)
