-- ===== src/Bridge/Stuck.antt =====
-- git_bridge.py, GitBridge._outbound at a message that GitBus.publish refuses.
use mcp_dispatch.Base.{
  ℕ, String, Bool, true, false, Option, some, List, [], ◌∷◌, ◌++◌, is_some, ◌≡◌, refl, ap, ◌∙◌,
}
use mcp_dispatch.Base.Result.{raise, raise_if, ◌>>◌}
use mcp_dispatch.Message.{Message, msg_to_publish_kwargs}
use mcp_dispatch.Relay.{Relay, live_agents}
use mcp_dispatch.Transport.{Repo}
use mcp_dispatch.Transport.Publish.{
  PublishError, not_one_target, bad_recipient, bad_channel, newline_in_key, not_one, fails, Post,
  has_newline, check_target, publish,
}
use mcp_dispatch.Bridge.{
  Bridge, Sending, Route, post_of, publish_one, sent, is_done, route, consider, send_all, conclude,
  begin, sending, local_messages, outbound,
}
use mcp_dispatch.Bridge.Covered.{covered, Covered, send_all-Covered, send_all-raised}

last_raises :
    (a b c : Bool) (x y z w : PublishError)
    → (e : PublishError) × ((raise_if a x >> (raise_if b y >> (raise_if c z >> raise_if true w)))
        ≡ raise e)
last_raises true b c x y z w = (x, refl)
last_raises false true c x y z w = (y, refl)
last_raises false false true x y z w = (z, refl)
last_raises false false false x y z w = (w, refl)

check_target-raises :
    (to chan key : Option String)
    → has_newline key ≡ true
    → (e : PublishError) × (check_target to chan key ≡ raise e)
unfolding check_target
check_target-raises to chan key h = rw h (
    last_raises (not_one to chan) (fails to) (fails chan) not_one_target bad_recipient bad_channel
      newline_in_key)

publish-raises :
    (repo : Repo) (agent_id : String) (post : Post)
    → has_newline post.key ≡ true
    → (e : PublishError) × (publish repo agent_id post ≡ raise e)
unfolding publish
publish-raises repo agent_id post h =
    let (e, raised) = check_target-raises post.to post.chan post.key h in (e, rw raised refl)

publish_one-raises :
    (now : ℕ) (uuid12 : String) (repo : Repo) (msg : Message) (way : Route)
    → has_newline msg.thread_id ≡ true
    → (e : PublishError) × (publish_one now uuid12 repo msg (some way) ≡ raise e)
unfolding publish_one post_of msg_to_publish_kwargs
publish_one-raises now uuid12 repo msg way h =
    let (e, raised) = publish-raises repo msg.from (post_of now uuid12 msg way) h in
    (e, rw raised refl)

module _ (mirror_all : Bool) (live_local : List String) (now : ℕ) (uuids : ℕ → String) where
  consider-refused :
      (msg : Message) (st : Sending) (way : Route)
      → is_done st msg ≡ false
      → route mirror_all live_local msg ≡ some way
      → has_newline msg.thread_id ≡ true
      → (e : PublishError) × (consider mirror_all live_local now uuids msg st
          ≡ record st { raised = some e })
  unfolding consider sent
  consider-refused msg st way fresh way_of h =
      let (e, raised) = publish_one-raises now (uuids st.published) st.repo msg way h in
      (e, rw (fresh, way_of, raised) refl)

  send_all-append :
      (xs ys : List Message) (st : Sending)
      → send_all mirror_all live_local now uuids (xs ++ ys) st
        ≡ send_all mirror_all live_local now uuids ys
            (send_all mirror_all live_local now uuids xs st)
  unfolding send_all
  send_all-append [] ys st = refl
  send_all-append (x ∷ xs) ys st =
      send_all-append xs ys (consider mirror_all live_local now uuids x st)

  send_all-refused :
      (settled rest : List Message) (msg : Message) (st : Sending) (way : Route)
      → Covered st.ledger settled
      → is_done st msg ≡ false
      → route mirror_all live_local msg ≡ some way
      → has_newline msg.thread_id ≡ true
      → (e : PublishError) × (send_all mirror_all live_local now uuids (settled ++ msg ∷ rest) st
          ≡ record st { raised = some e })
  unfolding send_all
  send_all-refused settled rest msg st way known fresh way_of h =
      let (e, refused) = consider-refused msg st way fresh way_of h in
      (
        e,
        send_all-append settled (msg ∷ rest) st
            ∙ ap (send_all mirror_all live_local now uuids (msg ∷ rest))
                (send_all-Covered mirror_all live_local now uuids settled st known)
            ∙ ap (send_all mirror_all live_local now uuids rest) refused
            ∙ send_all-raised mirror_all live_local now uuids rest (record st { raised = some e })
                refl,
      )

-- Where the first message that is not in the ledger is one with a route whose thread id has a line
-- break, a pass of _outbound raises and leaves the bridge as it was: neither that message nor one
-- behind it is published or entered in the ledger, so every later pass does the same.
pub outbound-stuck :
    (now : ℕ) (uuids : ℕ → String) (relay : Relay) (bridge : Bridge) (settled rest : List Message)
    (msg : Message) (way : Route)
    → local_messages relay ≡ settled ++ msg ∷ rest
    → Covered bridge.ledger settled
    → covered bridge.ledger msg ≡ false
    → route bridge.mirror_all (live_agents relay) msg ≡ some way
    → has_newline msg.thread_id ≡ true
    → (is_some (sending now uuids relay bridge).raised ≡ true)
      × (outbound now uuids relay bridge ≡ bridge)
unfolding outbound sending conclude
outbound-stuck now uuids relay bridge settled rest msg way scan known fresh way_of h =
    let (e, refused) =
      send_all-refused bridge.mirror_all (live_agents relay) now uuids settled rest msg
        (begin bridge) way known fresh way_of h in
    rw (scan, refused) (refl, refl)
