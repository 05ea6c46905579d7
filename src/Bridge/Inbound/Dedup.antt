-- ===== src/Bridge/Inbound/Dedup.antt =====
-- git_bridge.py, GitBridge._inbound on records that are in the inboxes already.
use mcp_dispatch.Base.{
  ℕ, String, true, false, ◌==◌, not, ◌&&◌, List, [], ◌∷◌, elem, All, Bool-cases, ◌⊎◌, inl, inr, ◌≡◌,
  refl, sym, subst, ap, ◌∙◌, arith, eq_iff,
}
use mcp_dispatch.Base.Dict.{put, get-put}
use mcp_dispatch.Ident.{is_id}
use mcp_dispatch.Message.{Message}
use mcp_dispatch.Relay.{Relay}
use mcp_dispatch.Transport.{Body, object, other_json, Envelope}
use mcp_dispatch.Bridge.Inbound.{
  recipients, Landing, known, land, land_for, land_env, land_all, inbound,
}

-- A pass that has landed nothing since `st0`, and knows the same ids.
pub record Same (st0 st : Landing) : Type 0 where
  pub relay_same : st.relay ≡ st0.relay
  pub none_landed : st.materialized ≡ st0.materialized
  pub known_same : (rcpt : String) → known st rcpt ≡ known st0 rcpt

-- The recipient's id is not a safe path, or the record has an id that is known in its inbox.
abbrev pub Held : Landing → Message → String → Type 0
Held st body rcpt =
    (is_id rcpt ≡ false) ⊎ ((not (body.id == "") && elem body.id (known st rcpt)) ≡ true)

abbrev pub HeldBody : Landing → List String → Body → Type 0
HeldBody st rcpts other_json = Unit
HeldBody st rcpts (object body) = All (Held st body) rcpts

pub known-put :
    (st : Landing) (rcpt q : String)
    → known (record st { present = put st.present rcpt (known st rcpt) }) q ≡ known st q
unfolding known
known-put st rcpt q = elim (Bool-cases (rcpt == q)) [
  | inl t ↦
      let same : rcpt ≡ q = ground (arith, eq_iff rcpt q) in
      rw (get-put st.present rcpt q (known st rcpt), t) (ap (known st) same)
  | inr f ↦ rw (get-put st.present rcpt q (known st rcpt), f) refl
]

land-Same :
    (stamps : ℕ → String × String) (body : Message) (rcpt : String) (st0 st : Landing)
    → Held st0 body rcpt
    → Same st0 st
    → Same st0 (land stamps body rcpt st)
unfolding land
land-Same stamps body rcpt st0 st (inl bad) same = rw bad same
land-Same stamps body rcpt st0 st (inr held) same =
    let seen : (not (body.id == "") && elem body.id (known st rcpt)) ≡ true =
      subst (λ ids. (not (body.id == "") && elem body.id ids) ≡ true) (sym (same.known_same rcpt))
        held in
    elim (Bool-cases (is_id rcpt)) [
      | inr f ↦ rw f same
      | inl t ↦
          rw (t, seen)
            (record {
              relay_same = same.relay_same;
              none_landed = same.none_landed;
              known_same = λ q. known-put st rcpt q ∙ same.known_same q;
            })
    ]

land_for-Same :
    (stamps : ℕ → String × String) (body : Message) (rcpts : List String) (st0 st : Landing)
    → All (Held st0 body) rcpts
    → Same st0 st
    → Same st0 (land_for stamps body rcpts st)
unfolding land_for
land_for-Same stamps body [] st0 st h same = same
land_for-Same stamps body (rcpt ∷ rcpts) st0 st h same =
    land_for-Same stamps body rcpts st0 (land stamps body rcpt st) h.1
      (land-Same stamps body rcpt st0 st h.0 same)

land_env-Same :
    (stamps : ℕ → String × String) (env : Envelope) (body : Body) (st0 st : Landing)
    → HeldBody st0 (recipients st0.relay env) body
    → Same st0 st
    → Same st0 (land_env stamps env body st)
land_env-Same stamps env other_json st0 st h same = same
land_env-Same stamps env (object body) st0 st h same =
    land_for-Same stamps body (recipients st.relay env) st0 st
      (subst (λ relay. All (Held st0 body) (recipients relay env)) (sym same.relay_same) h) same

pub land_all-Same :
    (stamps : ℕ → String × String) (envs : List Envelope) (st0 st : Landing)
    → All (λ env. HeldBody st0 (recipients st0.relay env) env.body) envs
    → Same st0 st
    → Same st0 (land_all stamps envs st)
unfolding land_all
land_all-Same stamps [] st0 st h same = same
land_all-Same stamps (env ∷ envs) st0 st h same =
    land_all-Same stamps envs st0 (land_env stamps env env.body st) h.1
      (land_env-Same stamps env env.body st0 st h.0 same)

abbrev pub start : Relay → Landing
start relay = record { relay = relay; present = []; materialized = 0 }

-- What came with ids that its recipients' inboxes hold already, or for recipients whose ids are no
-- safe path, is not delivered: the pass writes nothing.
pub inbound-held :
    (stamps : ℕ → String × String) (relay : Relay) (envs : List Envelope)
    → All (λ env. HeldBody (start relay) (recipients relay env) env.body) envs
    → ((inbound stamps relay envs).relay ≡ relay) × ((inbound stamps relay envs).materialized ≡ 0)
unfolding inbound
inbound-held stamps relay envs h =
    let same =
      land_all-Same stamps envs (start relay) (start relay) h
        (record { relay_same = refl; none_landed = refl; known_same = λ q. refl }) in
    (same.relay_same, same.none_landed)
