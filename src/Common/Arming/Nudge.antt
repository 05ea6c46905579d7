-- ===== src/Common/Arming/Nudge.antt =====
-- dispatch_common.py, arm_nudge_due: how often a session is told that it holds no watch.
use mcp_dispatch.Base.{
  ℕ, ◌+◌, ◌≤◌, String, Bool, true, false, Option, some, List, [], ◌∷◌, All, All-map, ltb,
  Bool-cases, if◌then◌else◌, inl, inr, ◌≡◌, refl, arith, eq_refl,
}
use mcp_dispatch.Base.Dict.{Dict, get, put, get-put}
use mcp_dispatch.Common.Arming.{Entry, file, recent, nudge_stamp, arm_nudge_due}

-- Each of the times is an interval or more before those that follow.
abbrev Spaced : ℕ → List ℕ → Type 0
Spaced interval [] = Unit
Spaced interval (t ∷ ts) = All (λ u. t + interval ≤ u) ts × Spaced interval ts

module _ (md5_key : String → String) (own_dir agent_id : String) (state : Option String)
    (interval : ℕ) where
  -- When the notice is given, in calls at these times, where the state directory can be written.
  nudge_times : List ℕ → Dict Entry → List ℕ
  nudge_times [] files = []
  nudge_times (now ∷ times) files =
      let (due, files') = arm_nudge_due md5_key own_dir files agent_id interval state now true in
      let rest = nudge_times times files' in if due then now ∷ rest else rest

  nudge_times-after :
      (times : List ℕ) (files : Dict Entry) (mtime : ℕ) (locked : Bool)
      → get files (nudge_stamp md5_key own_dir agent_id state) ≡ some (file mtime locked)
      → All (λ t. mtime + interval ≤ t) (nudge_times times files)
  unfolding nudge_times arm_nudge_due
  nudge_times-after [] files mtime locked e = tt
  nudge_times-after (now ∷ times) files mtime locked e =
      let stamp = nudge_stamp md5_key own_dir agent_id state in
      elim (Bool-cases (ltb now (mtime + interval))) [
        | inl t ↦ rw (e, t) (nudge_times-after times files mtime locked e)
        | inr f ↦
            let late : mtime + interval ≤ now = ground (arith, f) in
            rw (e, f)
              (
                late,
                All-map (λ t. now + interval ≤ t) (λ t. mtime + interval ≤ t) _
                    (λ t h. omega (arith, h, late))
                    (nudge_times-after times (put files stamp (file now false)) now false
                      (rw (get-put, eq_refl stamp) refl)),
              )
      ]

  -- The notice is given at most once in an interval, whatever the clock does: of the calls for one
  -- session, with a state directory that can be written, any two that answer yes are the interval
  -- apart.
  nudge_times-Spaced :
      (times : List ℕ) (files : Dict Entry) → Spaced interval (nudge_times times files)
  unfolding nudge_times arm_nudge_due
  nudge_times-Spaced [] files = tt
  nudge_times-Spaced (now ∷ times) files =
      let stamp = nudge_stamp md5_key own_dir agent_id state in
      elim (Bool-cases (recent now interval (get files stamp))) [
        | inl t ↦ rw t (nudge_times-Spaced times files)
        | inr f ↦ rw f (
          nudge_times-after times (put files stamp (file now false)) now false
              (rw (get-put, eq_refl stamp) refl),
          nudge_times-Spaced times (put files stamp (file now false)),
        )
      ]
