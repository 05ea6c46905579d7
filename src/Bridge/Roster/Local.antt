-- ===== src/Bridge/Roster/Local.antt =====
-- git_bridge.py, the remote roster: a session of this host is not on it.
use mcp_dispatch.Base.{
  ℕ, String, true, false, ◌==◌, not, ◌||◌, Option, List, [], ◌∷◌, ◌++◌, elem, Bool-cases, inl, inr,
  ◌≡◌, refl, ap, ◌∙◌, arith, eq_iff,
}
use mcp_dispatch.Base.Dict.{Dict, get, keys, has}
use mcp_dispatch.Base.Result.{Result, ok, raise, ◌>>=◌}
use mcp_dispatch.Ident.{is_id, durable_nick}
use mcp_dispatch.Relay.{Relay, local_session_ids}
use mcp_dispatch.Transport.{Line, Repo}
use mcp_dispatch.Bridge.Roster.{local_ids, last_ts, current, written, pruned, write_remote_roster}
use mcp_dispatch.Server.Registry.{register_agent}
use mcp_dispatch.Server.Registry.Calls.{Call, run, HasSpool}
use mcp_dispatch.Server.Registry.Corpse.{registered-local}

-- The authors are found, and the id is not among them, or the loop raises.
abbrev Absent : String → Result (Unit {0}) (Dict (Option ℕ)) → Type 0
Absent j (ok authors) = elem j (keys authors) ≡ false
Absent j (raise e) = Unit

add-Absent :
    (j author : String) (seen : Result (Unit {0}) (Option ℕ))
    (rest : Result (Unit {0}) (Dict (Option ℕ)))
    → author == j ≡ false
    → Absent j rest
    → Absent j (seen >>= λ s. rest >>= λ more. ok ((author, s) ∷ more))
add-Absent j author (raise e) rest n a = tt
add-Absent j author (ok s) (raise e) n a = tt
add-Absent j author (ok s) (ok more) n a = ground (arith, n, a)

on_equal :
    (local : List String) (author j : String)
    → author == j ≡ true
    → elem author local ≡ elem j local
on_equal local author j t =
    let same : author ≡ j = ground (arith, t, eq_iff author j) in ap (λ k. elem k local) same

current-Absent :
    (local : List String) (lanes : List (String × List Line)) (j : String)
    → elem j local ≡ true
    → Absent j (current local lanes)
unfolding current
current-Absent local [] j l = refl
current-Absent local ((author, lines) ∷ lanes) j l =
    let rest = current-Absent local lanes j l in
    elim (Bool-cases (not (is_id author) || elem author local)) [
      | inl t ↦ rw t rest
      | inr f ↦
          let other : author == j ≡ false = ground (arith, f, l, on_equal local author j) in
          rw f (add-Absent j author (last_ts lines) (current local lanes) other rest)
    ]

get-pruned :
    (authors : Dict (Option ℕ)) (roster : Dict (Unit {0})) (j : String)
    → elem j (keys authors) ≡ false
    → has (pruned authors roster) j ≡ false
unfolding get pruned
get-pruned authors [] j h = refl
get-pruned authors ((k, u) ∷ roster) j h = elim (Bool-cases (k == j)) [
  | inl t ↦
      let same : k ≡ j = ground (arith, t, eq_iff k j) in
      let out : elem k (keys authors) ≡ false = ap (λ i. elem i (keys authors)) same ∙ h in
      rw out (get-pruned authors roster j h)
  | inr f ↦ ground (arith, f, get-pruned authors roster j h)
]

-- The roster does not list the id after the pass, or the pass raises.
abbrev pub Unlisted : String → Result (Unit {0}) Relay → Type 0
Unlisted j (ok after) = has after.remote j ≡ false
Unlisted j (raise e) = Unit

pass-Unlisted :
    (j : String) (relay : Relay) (authors : Result (Unit {0}) (Dict (Option ℕ)))
    → Absent j authors
    → Unlisted j (
        authors >>= λ found.
        ok (record relay { remote = pruned found (written found relay.remote) }))
pass-Unlisted j relay (raise e) a = tt
pass-Unlisted j relay (ok found) a = get-pruned found (written found relay.remote) j a

elem-append_right : (j : String) (xs ys : List String) → elem j ys ≡ true → elem j (xs ++ ys) ≡ true
elem-append_right j [] ys h = h
elem-append_right j (x ∷ xs) ys h = ground (arith, elem-append_right j xs ys h)

-- This host's own sessions are not taken for another host's: once a session has registered, then
-- through any calls that register, touch or release sessions or reap, with any change of inboxes
-- and presence files in between, a pass that writes the remote roster does not list it, whatever
-- lanes the clone has, unless it raises, as long as the session's inbox is there at each call. The
-- id and its nick are valid.
pub registered-Unlisted :
    (relay : Relay) (session : String) (now : ℕ) (cwd : String) (calls : List Call) (repo : Repo)
    → is_id session ≡ true
    → is_id (durable_nick session) ≡ true
    → HasSpool session calls (register_agent relay session now cwd)
    → Unlisted session (write_remote_roster repo (run calls (register_agent relay session now cwd)))
unfolding write_remote_roster local_ids
registered-Unlisted relay session now cwd calls repo safe nick_safe spool =
    let last = run calls (register_agent relay session now cwd) in
    pass-Unlisted session last (current (local_ids last) repo.lanes) (
      current-Absent (local_ids last) repo.lanes session (
        elem-append_right session _ (local_session_ids last.agents)
          (registered-local relay session now cwd calls safe nick_safe spool)))
