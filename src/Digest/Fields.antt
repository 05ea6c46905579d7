-- ===== src/Digest/Fields.antt =====
-- digest.py: the window of a digest, and the name that stands for none.
use mcp_dispatch.Base.{ℕ, String, Bool, ◌==◌, not, ◌&&◌, ltb, leb, eqb, if◌then◌else◌}

-- _in_window
abbrev pub in_window : ℕ → ℕ → ℕ → Bool
in_window at since now = not (eqb at 0) && ltb since at && leb at now

-- `str(x or "?")`
abbrev pub or_unknown : String → String
or_unknown s = if s == "" then "?" else s
