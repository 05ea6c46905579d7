-- ===== src/Bridge/Tick.antt =====
-- git_bridge.py, GitBridge.tick: the two passes and the pacing of fetches, less the remote roster,
-- which is written last and which neither of them reads. Intervals and readings of
-- time.monotonic() are numbers of microseconds.
pub mod Pacing
use mcp_dispatch.Base.{
  ℕ, ◌+◌, ◌*◌, min, String, Bool, true, false, not, ◌&&◌, ◌||◌, Option, none, some, List, ltb, leb,
  eqb, if◌then◌else◌, is_some,
}
use mcp_dispatch.Relay.{Relay}
use mcp_dispatch.Transport.{Envelope, Repo}
use mcp_dispatch.Transport.Drain.{Reader, drain}
use mcp_dispatch.Bridge.{Bridge, sending, conclude}
use mcp_dispatch.Bridge.Inbound.{Landing, inbound}

-- The fields of a GitBridge that pace its fetches.
pub record Pace : Type 0 where
  pub poll_interval : ℕ
  pub max_fetch_interval : ℕ
  pub fetch_every : ℕ
  pub next_fetch : ℕ

unfoldable pub fetch_due : ℕ → Pace → Bool
fetch_due now pace = eqb pace.max_fetch_interval 0 || leb pace.next_fetch now

unfoldable pub quicken : Pace → Pace
quicken pace = record pace { fetch_every = pace.poll_interval; next_fetch = 0 }

unfoldable pub slow_down : ℕ → Pace → Pace
slow_down now pace =
    let every = min (pace.fetch_every * 2) pace.max_fetch_interval in
    record pace { fetch_every = every; next_fetch = now + every }

-- A host: its relay, and the bridge with its reader.
pub record Host : Type 0 where
  pub relay : Relay
  pub bridge : Bridge
  pub reader : Reader
  pub pace : Pace

-- What a tick gets from outside: the wall clock in seconds, the monotonic clock at its start and
-- when it slows down, the digits it draws, whether its push raises, and what its fetch makes of the
-- clone.
pub record Moment : Type 0 where
  pub wall : ℕ
  pub now : ℕ
  pub later : ℕ
  pub uuids : ℕ → String
  pub stamps : ℕ → String × String
  pub push_raises : Bool
  pub fetch : Repo → Repo

-- A host after a tick, and whether the tick returned (it raised otherwise).
abbrev pub Outcome : Type 0
Outcome = Host × Bool

-- After the inbound pass.
unfoldable pub settle_pace : Moment → Bool → Landing → Host → Outcome
unfolding quicken slow_down
settle_pace moment published landing host =
    let pace =
      if not (eqb landing.materialized 0) || published
      then quicken host.pace
      else slow_down moment.later host.pace in
    (record host { relay = landing.relay; pace = pace }, true)

-- The inbound pass, on what its drain gave.
unfoldable pub take_in : Moment → Bool → Host → Option (List Envelope) → Outcome
unfolding settle_pace
take_in moment published host none = (host, false)
take_in moment published host (some envs) =
    settle_pace moment published (inbound moment.stamps host.relay envs) host

unfoldable pub fetch_half : Moment → Bool → Host → Outcome
unfolding take_in fetch_due
fetch_half moment published host =
    let repo = moment.fetch host.bridge.repo in
    let drained = drain host.reader repo in
    if fetch_due moment.now host.pace
    then take_in moment published
        (record host { bridge = record host.bridge { repo = repo }; reader = drained.1 }) drained.0
    else (host, true)

-- GitBridge.tick
unfoldable pub tick : Moment → Host → Outcome
unfolding fetch_half quicken
tick moment host =
    let st = sending moment.wall moment.uuids host.relay host.bridge in
    let published = not (eqb st.published 0) in
    let sent = record host { bridge = conclude moment.wall host.bridge st } in
    if is_some st.raised || published && moment.push_raises
    then (sent, false)
    else fetch_half moment published
        (record sent { pace = if published then quicken host.pace else host.pace })
