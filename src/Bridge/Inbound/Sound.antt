-- ===== src/Bridge/Inbound/Sound.antt =====
-- git_bridge.py, GitBridge._inbound: what a pass lands, and that the ids which it knows are in the
-- inboxes.
use mcp_dispatch.Base.{
  ℕ, suc, ◌+◌, ◌≤◌, String, true, false, ◌==◌, ◌||◌, List, [], ◌∷◌, elem, All, Bool-cases,
  if◌then◌else◌, ◌⊎◌, inl, inr, not, ◌&&◌, ◌≡◌, refl, sym, subst, ap, ◌∙◌, arith, eq_iff,
}
use mcp_dispatch.Base.Dict.{get, put, get-put}
use mcp_dispatch.Ident.{is_id}
use mcp_dispatch.Message.{Message}
use mcp_dispatch.Relay.{Relay}
use mcp_dispatch.Relay.Send.{write_message}
use mcp_dispatch.Transport.{Body, object, other_json, Envelope}
use mcp_dispatch.Bridge.Inbound.{
  inbox_ids, recipients, materialize, Landing, known, land, land_for, land_env, land_all,
}
use mcp_dispatch.Bridge.Inbound.Dedup.{known-put, start}
use mcp_dispatch.Bridge.Inbound.Files.{count_files, inbox_ids-materialize_own, count-materialize}

-- What `land` does where it lands.
abbrev pub landed : (ℕ → String × String) → Message → String → Landing → Landing
landed stamps body rcpt st = record {
  relay = materialize (stamps st.materialized) st.relay rcpt body;
  present = put st.present rcpt (body.id ∷ known st rcpt);
  materialized = suc st.materialized;
}

inbox_ids-materialize :
    (stamp : String × String) (relay : Relay) (rcpt : String) (body : Message) (q : String)
    → rcpt == q ≡ false
    → inbox_ids (materialize stamp relay rcpt body) q ≡ inbox_ids relay q
unfolding inbox_ids materialize write_message
inbox_ids-materialize stamp relay rcpt body q h = rw (get-put, h) refl

pub known-landed :
    (stamps : ℕ → String × String) (body : Message) (rcpt : String) (st : Landing) (q : String)
    → known (landed stamps body rcpt st) q
      ≡ (if rcpt == q then body.id ∷ known st rcpt else known st q)
unfolding known
known-landed stamps body rcpt st q = elim (Bool-cases (rcpt == q)) [
  | inl t ↦ rw (get-put st.present rcpt q (body.id ∷ known st rcpt), t) refl
  | inr f ↦
      rw
        (
          get-put st.present rcpt q (body.id ∷ known st rcpt),
          f,
          inbox_ids-materialize (stamps st.materialized) st.relay rcpt body q f,
        )
        refl
]

-- Landing a record that has an id, for one recipient.
pub land-cases :
    (stamps : ℕ → String × String) (body : Message) (rcpt : String) (st : Landing)
    → body.id == "" ≡ false
    → ((is_id rcpt ≡ false) × (land stamps body rcpt st ≡ st))
      ⊎ ((elem body.id (known st rcpt) ≡ true)
          × (land stamps body rcpt st
              ≡ record st { present = put st.present rcpt (known st rcpt) }))
      ⊎ (land stamps body rcpt st ≡ landed stamps body rcpt st)
unfolding land
land-cases stamps body rcpt st e = elim (Bool-cases (is_id rcpt)) [
  | inr f ↦ inl (f, rw f refl)
  | inl t ↦ elim (Bool-cases (elem body.id (known st rcpt))) [
    | inl s ↦ inr (inl (s, rw (t, e, s) refl))
    | inr n ↦ inr (inr (rw (t, e, n) refl))
  ]
]

-- The record is no message, or one with an id.
abbrev pub HasId : Body → Type 0
HasId other_json = Unit
HasId (object body) = body.id == "" ≡ false

-- The ids that a pass knows are in the inboxes.
abbrev pub Sound : Landing → Type 0
Sound st = (q id : String) → elem id (known st q) ≡ true → elem id (inbox_ids st.relay q) ≡ true

pub start-Sound : (relay : Relay) → Sound (start relay)
unfolding known get
start-Sound relay q id h = h

pub known-start :
    (relay : Relay) (q id : String)
    → id == "" ≡ false
    → elem id (inbox_ids relay q) ≡ true
    → (not (id == "") && elem id (known (start relay) q)) ≡ true
unfolding known get
known-start relay q id e h = ground (arith, e, h)

-- A part of a pass. It adds at most as many files as it lands; where it adds as many, what it knows
-- is in the inboxes if it was before.
pub record Lands (st after : Landing) : Type 0 where
  pub grows : count_files after.relay + st.materialized ≤ count_files st.relay + after.materialized
  pub sound :
      count_files st.relay + after.materialized ≤ count_files after.relay + st.materialized
      → Sound st
      → Sound after

Lands-refl : (st : Landing) → Lands st st
Lands-refl st = record { grows = omega arith; sound = λ e s. s }

Lands-trans : (a b c : Landing) → Lands a b → Lands b c → Lands a c
Lands-trans a b c f g = record {
  grows = omega (arith, f.grows, g.grows);
  sound = λ e s. g.sound (omega (arith, e, f.grows)) (f.sound (omega (arith, e, g.grows)) s);
}

landed-Sound :
    (stamps : ℕ → String × String) (body : Message) (rcpt : String) (st : Landing)
    → body.id == "" ≡ false
    → count_files (landed stamps body rcpt st).relay ≡ suc (count_files st.relay)
    → Sound st
    → Sound (landed stamps body rcpt st)
landed-Sound stamps body rcpt st e grown s q id h =
    let knows : elem id (if rcpt == q then body.id ∷ known st rcpt else known st q) ≡ true =
      subst (λ ids. elem id ids ≡ true) (known-landed stamps body rcpt st q) h in
    let stamp = stamps st.materialized in
    elim (Bool-cases (rcpt == q)) [
      | inr f ↦
          let before : elem id (known st q) ≡ true = ground (arith, f, knows) in
          ap (elem id) (inbox_ids-materialize stamp st.relay rcpt body q f) ∙ s q id before
      | inl t ↦
          let same : rcpt ≡ q = ground (arith, t, eq_iff rcpt q) in
          let here : (body.id == id || elem id (known st rcpt)) ≡ true = ground (arith, t, knows) in
          subst (λ owner. elem id (inbox_ids (materialize stamp st.relay rcpt body) owner) ≡ true)
            same
            (inbox_ids-materialize_own stamp st.relay rcpt body id e grown
              ∙ ground (arith, here, s rcpt id))
    ]

land-Lands :
    (stamps : ℕ → String × String) (body : Message) (rcpt : String) (st : Landing)
    → body.id == "" ≡ false
    → Lands st (land stamps body rcpt st)
land-Lands stamps body rcpt st e = elim (land-cases stamps body rcpt st e) [
  | inl (f, same) ↦ subst (Lands st) (sym same) (Lands-refl st)
  | inr (inl (s, same)) ↦ subst (Lands st) (sym same) (record {
    grows = omega arith;
    sound =
        λ k sound q id h. sound q id (subst (λ ids. elem id ids ≡ true) (known-put st rcpt q) h);
  })
  | inr (inr same) ↦
      let most = count-materialize (stamps st.materialized) st.relay rcpt body in
      subst (Lands st) (sym same) (record {
        grows = omega (arith, most);
        sound = λ k. landed-Sound stamps body rcpt st e (omega (arith, k, most));
      })
]

land_for-Lands :
    (stamps : ℕ → String × String) (body : Message) (rcpts : List String) (st : Landing)
    → body.id == "" ≡ false
    → Lands st (land_for stamps body rcpts st)
unfolding land_for
land_for-Lands stamps body [] st e = Lands-refl st
land_for-Lands stamps body (rcpt ∷ rcpts) st e =
    let next = land stamps body rcpt st in
    Lands-trans st next (land_for stamps body rcpts next) (land-Lands stamps body rcpt st e)
      (land_for-Lands stamps body rcpts next e)

land_env-Lands :
    (stamps : ℕ → String × String) (env : Envelope) (body : Body) (st : Landing)
    → HasId body
    → Lands st (land_env stamps env body st)
land_env-Lands stamps env other_json st e = Lands-refl st
land_env-Lands stamps env (object body) st e =
    land_for-Lands stamps body (recipients st.relay env) st e

pub land_all-Lands :
    (stamps : ℕ → String × String) (envs : List Envelope) (st : Landing)
    → All (λ env. HasId env.body) envs
    → Lands st (land_all stamps envs st)
unfolding land_all
land_all-Lands stamps [] st e = Lands-refl st
land_all-Lands stamps (env ∷ envs) st e =
    let next = land_env stamps env env.body st in
    Lands-trans st next (land_all stamps envs next) (land_env-Lands stamps env env.body st e.0)
      (land_all-Lands stamps envs next e.1)
