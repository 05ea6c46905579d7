-- ===== src/Bridge/Inbound/Replay.antt =====
-- git_bridge.py, GitBridge._inbound on records that a drain returns again: a pass over the relay
-- that an earlier pass has left.
use mcp_dispatch.Base.{
  ℕ, ◌+◌, In, All-In, All-and, String, true, false, ◌==◌, List, [], ◌∷◌, elem, All, All-map, inl,
  inr, ◌≡◌, refl, sym, subst, ◌∙◌, arith, eq_iff,
}
use mcp_dispatch.Base.Dict.{put}
use mcp_dispatch.Message.{Message}
use mcp_dispatch.Relay.{Relay, live_presence_files, channel_subscribers}
use mcp_dispatch.Relay.Send.{write_message}
use mcp_dispatch.Transport.{Body, object, other_json, Envelope}
use mcp_dispatch.Bridge.Inbound.{
  recipients, materialize, Landing, known, land, land_for, land_env, land_all, inbound,
}
use mcp_dispatch.Bridge.Inbound.Dedup.{Held, HeldBody, known-put, start, inbound-held}
use mcp_dispatch.Bridge.Inbound.Files.{count_files}
use mcp_dispatch.Bridge.Inbound.Sound.{
  landed, land-cases, known-landed, Sound, land_all-Lands, start-Sound, known-start, HasId,
}

recipients-materialize :
    (stamp : String × String) (relay : Relay) (rcpt : String) (body : Message) (env : Envelope)
    → recipients (materialize stamp relay rcpt body) env ≡ recipients relay env
unfolding recipients materialize write_message channel_subscribers live_presence_files
recipients-materialize stamp relay rcpt body env = refl

-- A pass that has gone on: it knows no fewer ids, and the recipients are the same.
pub record Grown (st after : Landing) : Type 0 where
  pub known_grown : (q id : String) → elem id (known st q) ≡ true → elem id (known after q) ≡ true
  pub recipients_same : (env : Envelope) → recipients after.relay env ≡ recipients st.relay env

Grown-refl : (st : Landing) → Grown st st
Grown-refl st = record { known_grown = λ q id h. h; recipients_same = λ env. refl }

Grown-trans : (a b c : Landing) → Grown a b → Grown b c → Grown a c
Grown-trans a b c g h = record {
  known_grown = λ q id e. h.known_grown q id (g.known_grown q id e);
  recipients_same = λ env. h.recipients_same env ∙ g.recipients_same env;
}

landed-Grown :
    (stamps : ℕ → String × String) (body : Message) (rcpt : String) (st : Landing)
    → Grown st (landed stamps body rcpt st)
landed-Grown stamps body rcpt st = record {
  known_grown =
      λ q id h. rw (known-landed stamps body rcpt st q) (ground (arith, h, eq_iff rcpt q));
  recipients_same = λ env. recipients-materialize (stamps st.materialized) st.relay rcpt body env;
}

looked-Grown :
    (rcpt : String) (st : Landing)
    → Grown st (record st { present = put st.present rcpt (known st rcpt) })
looked-Grown rcpt st = record {
  known_grown = λ q id h. rw (known-put st rcpt q) h;
  recipients_same = λ env. refl;
}

-- After it, the recipient holds the record, and nothing known before is forgotten.
land-Held :
    (stamps : ℕ → String × String) (body : Message) (rcpt : String) (st : Landing)
    → body.id == "" ≡ false
    → Grown st (land stamps body rcpt st) × Held (land stamps body rcpt st) body rcpt
land-Held stamps body rcpt st e =
    let P : Landing → Type 0 = λ after. Grown st after × Held after body rcpt in
    elim (land-cases stamps body rcpt st e) [
      | inl (f, same) ↦ subst P (sym same) (Grown-refl st, inl f)
      | inr (inl (s, same)) ↦
          subst P (sym same)
            (looked-Grown rcpt st, inr (rw (known-put st rcpt rcpt) (ground (arith, e, s))))
      | inr (inr same) ↦ subst P (sym same) (
        landed-Grown stamps body rcpt st,
        inr (
            rw (known-landed stamps body rcpt st rcpt)
              (ground (arith, e, eq_iff rcpt rcpt, eq_iff body.id body.id))),
      )
    ]

Held-Grown :
    (body : Message) (rcpt : String) (st after : Landing)
    → body.id == "" ≡ false
    → Grown st after
    → Held st body rcpt
    → Held after body rcpt
Held-Grown body rcpt st after e g (inl bad) = inl bad
Held-Grown body rcpt st after e g (inr held) =
    let seen : elem body.id (known st rcpt) ≡ true = ground (arith, e, held) in
    let still = g.known_grown rcpt body.id seen in inr (ground (arith, e, still))

land_for-Held :
    (stamps : ℕ → String × String) (body : Message) (rcpts : List String) (st : Landing)
    → body.id == "" ≡ false
    → Grown st (land_for stamps body rcpts st)
      × All (Held (land_for stamps body rcpts st) body) rcpts
unfolding land_for
land_for-Held stamps body [] st e = (Grown-refl st, tt)
land_for-Held stamps body (rcpt ∷ rcpts) st e =
    let next = land stamps body rcpt st in
    let last = land_for stamps body rcpts next in
    let (first, held) = land-Held stamps body rcpt st e in
    let (more, rest) = land_for-Held stamps body rcpts next e in
    (Grown-trans st next last first more, (Held-Grown body rcpt next last e more held, rest))

land_env-Held :
    (stamps : ℕ → String × String) (env : Envelope) (body : Body) (st : Landing)
    → HasId body
    → Grown st (land_env stamps env body st)
      × HeldBody (land_env stamps env body st) (recipients st.relay env) body
land_env-Held stamps env other_json st e = (Grown-refl st, tt)
land_env-Held stamps env (object body) st e =
    land_for-Held stamps body (recipients st.relay env) st e

HeldBody-Grown :
    (body : Body) (rcpts : List String) (st after : Landing)
    → HasId body
    → Grown st after
    → HeldBody st rcpts body
    → HeldBody after rcpts body
HeldBody-Grown other_json rcpts st after e g h = tt
HeldBody-Grown (object body) rcpts st after e g h =
    All-map (Held st body) (Held after body) rcpts
      (λ rcpt held. Held-Grown body rcpt st after e g held) h

land_all-Held :
    (stamps : ℕ → String × String) (envs : List Envelope) (st : Landing)
    → All (λ env. HasId env.body) envs
    → Grown st (land_all stamps envs st)
      × All
          (λ env.
            HeldBody
              (land_all stamps envs st)
              (recipients (land_all stamps envs st).relay env)
              env.body)
          envs
unfolding land_all
land_all-Held stamps [] st e = (Grown-refl st, tt)
land_all-Held stamps (env ∷ envs) st e =
    let next = land_env stamps env env.body st in
    let last = land_all stamps envs next in
    let (first, held) = land_env-Held stamps env env.body st e.0 in
    let (more, rest) = land_all-Held stamps envs next e.1 in
    let g = Grown-trans st next last first more in
    (
      g,
      (
        subst (λ rcpts. HeldBody last rcpts env.body) (sym (g.recipients_same env))
            (HeldBody-Grown env.body (recipients st.relay env) next last e.0 more held),
        rest,
      ),
    )

-- An earlier pass has landed what comes again.
HeldBody-start :
    (last : Landing) (rcpts : List String) (body : Body)
    → Sound last
    → HasId body
    → HeldBody last rcpts body
    → HeldBody (start last.relay) rcpts body
HeldBody-start last rcpts other_json sound e h = tt
HeldBody-start last rcpts (object body) sound e h =
    All-map (Held last body) (Held (start last.relay) body) rcpts
      (λ rcpt held. elim held [
        | inl bad ↦ inl bad
        | inr seen ↦
            let there = sound rcpt body.id (ground (arith, e, seen)) in
            inr (known-start last.relay rcpt body.id e there)
      ])
      h

-- A drain that returns records again, as after a lost cursor, delivers nothing twice. Let a pass
-- land records, of which every message has an id, with no file taking the name of another: the
-- inboxes have as many files more as it has landed. Then another pass, over the relay that it left
-- and any of those records, in any order and number, writes nothing.
pub inbound-replay :
    (stamps stamps' : ℕ → String × String) (relay : Relay) (envs again : List Envelope)
    → All (λ env. HasId env.body) envs
    → count_files (inbound stamps relay envs).relay
      ≡ count_files relay + (inbound stamps relay envs).materialized
    → All (λ env. In env envs) again
    → ((inbound stamps' (inbound stamps relay envs).relay again).relay
        ≡ (inbound stamps relay envs).relay)
      × ((inbound stamps' (inbound stamps relay envs).relay again).materialized ≡ 0)
unfolding inbound
inbound-replay stamps stamps' relay envs again e fresh back =
    let last = land_all stamps envs (start relay) in
    let (g, held) = land_all-Held stamps envs (start relay) e in
    let pass = land_all-Lands stamps envs (start relay) e in
    let sound = pass.sound (omega (arith, fresh)) (start-Sound relay) in
    let still : All (λ env. HeldBody (start last.relay) (recipients last.relay env) env.body) envs =
      All-map _ _ envs
        (λ env (h : HasId env.body × HeldBody last (recipients last.relay env) env.body).
          HeldBody-start last (recipients last.relay env) env.body sound h.0 h.1)
        (All-and _ _ envs e held) in
    inbound-held stamps' last.relay again
      (All-map _ _ again (λ env i. All-In _ env envs still i) back)
