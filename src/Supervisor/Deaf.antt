-- ===== src/Supervisor/Deaf.antt =====
-- supervisor.py: deaf_sessions and Supervisor._sweep_deaf.
use mcp_dispatch.Base.{
  ℕ, String, Bool, true, false, ◌==◌, not, ◌&&◌, Option, none, some, List, [], ◌∷◌, ◌++◌, select,
  elem, ltb, if◌then◌else◌,
}
use mcp_dispatch.Base.Dict.{Dict, get, put, keys}
use mcp_dispatch.Relay.{Relay, Session, Presence, count_pending, live_presence_files}

-- dispatch_common.armed_for on a presence file: whether its session holds a message watch, or
-- `none` where that cannot be read.
abbrev pub Armed : Type 0
Armed = String → Session → Option Bool

abbrev is_false : Option Bool → Bool
is_false (some false) = true
is_false _ = false

-- The entry for one live presence file.
abbrev deaf_entry : Armed → ℕ → Relay → String → Option Session → List (String × ℕ)
deaf_entry armed time relay stem none = []
deaf_entry armed time relay stem (some session) =
    let waiting = count_pending time (get relay.inboxes session.agent_id) in
    if not (session.agent_id == "") && is_false (armed stem session) && ltb 0 waiting
    then (session.agent_id, waiting) ∷ []
    else []

deaf_entries : Armed → ℕ → Relay → List (String × Presence) → List (String × ℕ)
deaf_entries armed time relay [] = []
deaf_entries armed time relay ((stem, presence) ∷ files) =
    deaf_entry armed time relay stem presence.content ++ deaf_entries armed time relay files

unfoldable pub deaf_sessions : Armed → ℕ → Relay → List (String × ℕ)
unfolding deaf_entries
deaf_sessions armed time relay = deaf_entries armed time relay (live_presence_files relay)

-- dict(pairs): a later pair replaces an earlier one of its key
unfoldable pub to_dict : Dict ℕ → List (String × ℕ) → Dict ℕ
to_dict d [] = d
to_dict d ((k, v) ∷ pairs) = to_dict (put d k v) pairs

-- What a sweep does: whom it alerts about, and the new `_deaf_alerted`.
pub record Sweep : Type 0 where
  pub alerts : Dict ℕ
  pub alerted : List String

-- `alerted` grows by each session alerted about, and then `&= set(current)`.
unfoldable pub sweep_deaf : List String → List (String × ℕ) → Sweep
unfolding to_dict
sweep_deaf alerted deaf =
    let current = to_dict [] deaf in
    let alerts = select (λ (e : String × ℕ). not (elem e.0 alerted)) current in
    record {
      alerts = alerts;
      alerted = select (λ aid. elem aid (keys current)) (alerted ++ keys alerts);
    }
