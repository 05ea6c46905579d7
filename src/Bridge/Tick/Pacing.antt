-- ===== src/Bridge/Tick/Pacing.antt =====
-- git_bridge.py, GitBridge.tick: how long the pacing can put a fetch off.
use mcp_dispatch.Base.{
  ℕ, ◌+◌, ◌≤◌, Bool, true, false, not, ◌&&◌, ◌||◌, Option, none, some, List, [], ◌∷◌, eqb,
  if◌then◌else◌, is_some, ◌≡◌, refl, ◌∙◌, arith,
}
use mcp_dispatch.Transport.{Envelope}
use mcp_dispatch.Bridge.{sending, conclude}
use mcp_dispatch.Bridge.Inbound.{Landing, inbound}
use mcp_dispatch.Transport.Drain.{drain}
use mcp_dispatch.Bridge.Tick.{
  Pace, fetch_due, quicken, slow_down, Host, Moment, Outcome, settle_pace, take_in, fetch_half,
  tick,
}

-- At the time `t` the next fetch is at most the longest interval away.
abbrev Paced : ℕ → Pace → Type 0
Paced t pace = pace.next_fetch ≤ t + pace.max_fetch_interval

-- The same for a host that a pass leaves, under the interval that it was configured with.
abbrev Within : ℕ → ℕ → Outcome → Type 0
Within t longest out =
    (out.0.pace.max_fetch_interval ≡ longest) × (out.0.pace.next_fetch ≤ t + longest)

settle_pace-Within :
    (moment : Moment) (published : Bool) (landing : Landing) (host : Host)
    → Within moment.later host.pace.max_fetch_interval (settle_pace moment published landing host)
unfolding settle_pace quicken slow_down
settle_pace-Within moment published landing host =
    elim (not (eqb landing.materialized 0) || published)
      as (λ b.
        ((if b then quicken host.pace else slow_down moment.later host.pace).max_fetch_interval
          ≡ host.pace.max_fetch_interval)
        × ((if b then quicken host.pace else slow_down moment.later host.pace).next_fetch
            ≤ moment.later + host.pace.max_fetch_interval)) [
              | true ↦ (refl, omega arith)
              | false ↦ (refl, omega arith)
            ]

take_in-Within :
    (moment : Moment) (published : Bool) (host : Host) (found : Option (List Envelope))
    → Paced moment.later host.pace
    → Within moment.later host.pace.max_fetch_interval (take_in moment published host found)
unfolding take_in
take_in-Within moment published host none h = (refl, h)
take_in-Within moment published host (some envs) h =
    settle_pace-Within moment published (inbound moment.stamps host.relay envs) host

fetch_half-Within :
    (moment : Moment) (published : Bool) (host : Host)
    → Paced moment.later host.pace
    → Within moment.later host.pace.max_fetch_interval (fetch_half moment published host)
unfolding fetch_half
fetch_half-Within moment published host h =
    let repo = moment.fetch host.bridge.repo in
    let drained = drain host.reader repo in
    let fetched = record host { bridge = record host.bridge { repo = repo }; reader = drained.1 } in
    elim (fetch_due moment.now host.pace)
      as (λ b.
        Within moment.later host.pace.max_fetch_interval
          (if b then take_in moment published fetched drained.0 else (host, true))) [
            | true ↦ take_in-Within moment published fetched drained.0 h
            | false ↦ (refl, h)
          ]

tick-Within :
    (moment : Moment) (host : Host)
    → Paced moment.later host.pace
    → Within moment.later host.pace.max_fetch_interval (tick moment host)
unfolding tick quicken
tick-Within moment host h =
    let st = sending moment.wall moment.uuids host.relay host.bridge in
    let published = not (eqb st.published 0) in
    let sent = record host { bridge = conclude moment.wall host.bridge st } in
    let half : Bool → Outcome = λ b.
      fetch_half moment published
        (record sent { pace = if b then quicken host.pace else host.pace }) in
    let paced : Within moment.later host.pace.max_fetch_interval (half published) =
      elim published as (λ b. Within moment.later host.pace.max_fetch_interval (half b)) [
        | true ↦
            fetch_half-Within moment published (record sent { pace = quicken host.pace })
              (omega arith)
        | false ↦ fetch_half-Within moment published sent h
      ] in
    elim (is_some st.raised || published && moment.push_raises)
      as (λ b.
        Within moment.later host.pace.max_fetch_interval
          (if b then (sent, false) else half published)) [ true ↦ (refl, h) | false ↦ paced ]

-- A run of ticks, each of which may raise, and the last reading of the monotonic clock in it.
abbrev pub ticks : List Moment → Host → Host
ticks [] host = host
ticks (moment ∷ moments) host = ticks moments (tick moment host).0

abbrev pub last_reading : ℕ → List Moment → ℕ
last_reading t [] = t
last_reading t (moment ∷ moments) = last_reading moment.later moments

-- The clock does not go back.
abbrev pub Ordered : ℕ → List Moment → Type 0
Ordered t [] = Unit
Ordered t (moment ∷ moments) = (t ≤ moment.later) × Ordered moment.later moments

ticks-Paced :
    (t : ℕ) (moments : List Moment) (host : Host)
    → Ordered t moments
    → Paced t host.pace
    → ((ticks moments host).pace.max_fetch_interval ≡ host.pace.max_fetch_interval)
      × Paced (last_reading t moments) (ticks moments host).pace
ticks-Paced t [] host order h = (refl, h)
ticks-Paced t (moment ∷ moments) host order h =
    let after = tick-Within moment host (omega (arith, h, order.0)) in
    let rest =
      ticks-Paced moment.later moments (tick moment host).0 order.1
        (omega (arith, after.0, after.1)) in
    (rest.0 ∙ after.0, rest.1)

-- However quiet the bus has been: after any ticks from a host that has not fetched yet, whether
-- they raised or not, a fetch is due at any time that is the longest interval or more after the
-- last of them.
pub ticks-fetch_due :
    (t now : ℕ) (moments : List Moment) (host : Host)
    → host.pace.next_fetch ≡ 0
    → Ordered t moments
    → last_reading t moments + host.pace.max_fetch_interval ≤ now
    → fetch_due now (ticks moments host).pace ≡ true
unfolding fetch_due
ticks-fetch_due t now moments host first order later =
    let paced = ticks-Paced t moments host order (omega (arith, first)) in
    let due : (ticks moments host).pace.next_fetch ≤ now = omega (arith, paced.0, paced.1, later) in
    ground (arith, due)
