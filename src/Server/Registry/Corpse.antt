-- ===== src/Server/Registry/Corpse.antt =====
-- server.py, the registry: a session of this host stays known as one of this host for as long as
-- its inbox is there.
use mcp_dispatch.Base.{
  ℕ, String, Bool, true, false, ◌==◌, not, ◌&&◌, ◌||◌, Option, none, some, List, [], ◌∷◌, ◌++◌,
  elem, select, Bool-cases, if◌then◌else◌, inl, inr, ◌≡◌, refl, sym, ap, subst, ◌∙◌, arith, eq_iff,
  eq_refl,
}
use mcp_dispatch.Base.Dict.{Dict, get, has, get-put}
use mcp_dispatch.Ident.{is_id, durable_nick}
use mcp_dispatch.Relay.{Relay, recorded, local_session_ids as known_local_ids, Agent}
use mcp_dispatch.Server.Registry.{
  loaded, local_session_ids, updated, register_agent, fields, touch_record, touch_agent, release_id,
  reap_dead_presence, reap_empty_inboxes,
}
use mcp_dispatch.Server.Registry.Calls.{
  Call, registers, touches, releases, reaps, others, step, run, HasSpool,
}

-- The session stands in the record of a nick.
Recorded : String → String → Relay → Type 0
Recorded nick session relay =
    (rec : Agent) × (get relay.agents nick ≡ some (some rec))
    × (elem session rec.local_sessions ≡ true)

on_equal : (p : String → Bool) (x k : String) → x == k ≡ true → p x ≡ p k
on_equal p x k t = let same : x ≡ k = ground (arith, t, eq_iff x k) in ap p same

elem-select :
    (p : String → Bool) (k : String) (xs : List String)
    → p k ≡ true
    → elem k xs ≡ true
    → elem k (select p xs) ≡ true
elem-select p k [] h e = e
elem-select p k (x ∷ xs) h e =
    ground (arith, h, e, eq_iff x k, elem-select p k xs h, on_equal p x k)

elem-local_session_ids :
    (relay : Relay) (rec : Agent) (agent_id session : String)
    → has relay.inboxes session ≡ true
    → elem session rec.local_sessions ≡ true
    → elem session (local_session_ids relay rec agent_id) ≡ true
unfolding local_session_ids
elem-local_session_ids relay rec agent_id session h e = elim (Bool-cases (session == agent_id)) [
  | inl t ↦ ground (arith, t, eq_iff session agent_id, eq_iff agent_id session)
  | inr f ↦
      let kept =
        elem-select (λ aid. not (aid == agent_id) && has relay.inboxes aid) session
          rec.local_sessions (ground (arith, f, h)) e in
      ground (arith, kept)
]

register-Recorded :
    (relay : Relay) (nick session agent_id : String) (now : ℕ) (cwd : String)
    → has relay.inboxes session ≡ true
    → Recorded nick session relay
    → Recorded nick session (register_agent relay agent_id now cwd)
unfolding register_agent updated Recorded
register-Recorded relay nick session agent_id now cwd h (rec, found, e) =
    let mine = durable_nick agent_id in
    elim (Bool-cases (is_id mine)) [
      | inr f ↦ rw f (rec, found, e)
      | inl t ↦ elim (Bool-cases (mine == nick)) [
        | inr other ↦ rw (t, get-put, other) (rec, found, e)
        | inl own ↦
            let same : nick ≡ mine = ground (arith, own, eq_iff mine nick) in
            let here : get relay.agents mine ≡ some (some rec) =
              subst (λ n. get relay.agents n ≡ some (some rec)) same found in
            rw (t, get-put, own, here)
              (
                updated relay mine agent_id now cwd rec,
                refl,
                elem-local_session_ids relay rec agent_id session h e,
              )
      ]
    ]

kept_fields :
    (given : Option (List String)) (rec : Agent) (session : String)
    → elem session rec.local_sessions ≡ true
    → elem session (fields given rec).local_sessions ≡ true
kept_fields none rec session e = e
kept_fields (some channels) rec session e = e

touch_record-Recorded :
    (relay : Relay) (nick session mine : String) (now : ℕ) (given : Option (List String))
    (o : Option (Option Agent))
    → get relay.agents mine ≡ o
    → Recorded nick session relay
    → Recorded nick session (touch_record relay mine now given o)
unfolding touch_record Recorded
touch_record-Recorded relay nick session mine now given none e r = r
touch_record-Recorded relay nick session mine now given (some none) e r = r
touch_record-Recorded relay nick session mine now given (some (some old)) e (rec, found, kept) =
    elim (Bool-cases (mine == nick)) [
      | inr other ↦ rw (get-put, other) (rec, found, kept)
      | inl own ↦
          let same : mine ≡ nick = ground (arith, own, eq_iff mine nick) in
          let both : Path (Option (Option Agent)) (some (some old)) (some (some rec)) =
            sym e ∙ ap (get relay.agents) same ∙ found in
          let rec_is_old : rec ≡ old = cc in
          rw (get-put, own)
            (
              fields given (record old { last_seen = now }),
              refl,
              kept_fields given (record old { last_seen = now }) session
                  (subst (λ (r : Agent). elem session r.local_sessions ≡ true) rec_is_old kept),
            )
    ]

touch-Recorded :
    (relay : Relay) (nick session agent_id : String) (now : ℕ) (given : Option (List String))
    → Recorded nick session relay
    → Recorded nick session (touch_agent relay agent_id now given)
unfolding touch_agent
touch-Recorded relay nick session agent_id now given r =
    elim (is_id (durable_nick agent_id))
      as (λ b. Recorded nick session (
        if not b
        then relay
        else touch_record relay (durable_nick agent_id) now given
            (get relay.agents (durable_nick agent_id)))) [
              | true ↦
                  touch_record-Recorded relay nick session (durable_nick agent_id) now given _ refl
                    r
              | false ↦ r
            ]

step-Recorded :
    (call : Call) (relay : Relay) (nick session : String)
    → has relay.inboxes session ≡ true
    → Recorded nick session relay
    → Recorded nick session (step call relay)
unfolding step
step-Recorded (registers agent_id now cwd) relay nick session h r =
    register-Recorded relay nick session agent_id now cwd h r
step-Recorded (touches agent_id now given) relay nick session h r =
    touch-Recorded relay nick session agent_id now given r
step-Recorded (releases agent_id now) relay nick session h r =
    unfold release_id Recorded in touch-Recorded relay nick session agent_id now none r
step-Recorded (reaps true) relay nick session h r =
    unfold reap_empty_inboxes reap_dead_presence Recorded in r
step-Recorded (reaps false) relay nick session h r =
    unfold reap_empty_inboxes reap_dead_presence Recorded in r
step-Recorded (others inboxes presence) relay nick session h r = unfold Recorded in r

run-Recorded :
    (calls : List Call) (relay : Relay) (nick session : String)
    → HasSpool session calls relay
    → Recorded nick session relay
    → Recorded nick session (run calls relay)
unfolding run HasSpool
run-Recorded [] relay nick session h r = r
run-Recorded (call ∷ calls) relay nick session h r =
    run-Recorded calls (step call relay) nick session h.1
      (step-Recorded call relay nick session h.0 r)

registered-Recorded :
    (relay : Relay) (session : String) (now : ℕ) (cwd : String)
    → is_id (durable_nick session) ≡ true
    → Recorded (durable_nick session) session (register_agent relay session now cwd)
unfolding register_agent updated local_session_ids Recorded
registered-Recorded relay session now cwd safe =
    rw (safe, get-put, eq_refl (durable_nick session))
      (
        updated relay (durable_nick session) session now cwd
            (loaded (get relay.agents (durable_nick session))),
        refl,
        rw (eq_refl session) refl,
      )

elem-append : (k : String) (xs ys : List String) → elem k (xs ++ ys) ≡ (elem k xs || elem k ys)
elem-append k [] ys = refl
elem-append k (x ∷ xs) ys = ground (arith, elem-append k xs ys)

elem-recorded :
    (agents : Dict (Option Agent)) (nick session : String) (rec : Agent)
    → is_id session ≡ true
    → get agents nick ≡ some (some rec)
    → elem session rec.local_sessions ≡ true
    → elem session (known_local_ids agents) ≡ true
unfolding get known_local_ids
elem-recorded [] nick session rec safe found e = absurd (cc)
elem-recorded ((stem, o) ∷ files) nick session rec safe found e = elim (Bool-cases (stem == nick)) [
  | inl t ↦
      let here : o ≡ some rec = ground (arith, t, found) in
      let listed =
        elem-select is_id session (rec.local_sessions ++ rec.last_session_id ∷ []) safe
          (ground (arith, e, elem-append session rec.local_sessions (rec.last_session_id ∷ []))) in
      elem-append session (select is_id (recorded o)) (known_local_ids files)
      ∙ rw here (ground (arith, listed))
  | inr f ↦
      let rest = elem-recorded files nick session rec safe (ground (arith, f, found)) e in
      elem-append session (select is_id (recorded o)) (known_local_ids files) ∙ ground (arith, rest)
]

of_Recorded :
    (nick session : String) (relay : Relay)
    → is_id session ≡ true
    → Recorded nick session relay
    → elem session (known_local_ids relay.agents) ≡ true
unfolding Recorded
of_Recorded nick session relay safe (rec, found, e) =
    elem-recorded relay.agents nick session rec safe found e

-- A session of this host stays one of this host while its inbox is there: once it has registered,
-- then through any calls that register, touch or release sessions or reap, with any change of the
-- inboxes and the presence files in between, it is among the ids that the git bridge takes for
-- local ones. The id and its nick are valid.
pub registered-local :
    (relay : Relay) (session : String) (now : ℕ) (cwd : String) (calls : List Call)
    → is_id session ≡ true
    → is_id (durable_nick session) ≡ true
    → HasSpool session calls (register_agent relay session now cwd)
    → elem session (known_local_ids (run calls (register_agent relay session now cwd)).agents)
      ≡ true
registered-local relay session now cwd calls safe nick_safe spool =
    let at_end : Recorded (durable_nick session) session
        (run calls (register_agent relay session now cwd)) =
      run-Recorded calls (register_agent relay session now cwd) (durable_nick session) session spool
        (registered-Recorded relay session now cwd nick_safe) in
    of_Recorded (durable_nick session) session _ safe at_end
