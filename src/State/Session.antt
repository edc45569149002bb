-- ===== src/State/Session.antt =====
-- One user's live session and what can be read off it alone (src/state.rs, lines 475 to 919).
use voxloop.Prelude.{
  ℕ, ◌/◌, Bool, true, false, not, ◌&&◌, ◌||◌, Option, none, some, leb, ◌==◌, if◌then◌else◌, is_some,
  List, retain, any, find, contains,
}
use mathlib.Core.Option as Option
use voxloop.Names.{
  Text, SessionId, LoopId, RoleId, UserId, SignInToken, Instant, Duration, nanos_per_second,
  from_secs, since,
}
use voxloop.Configuration.Permission.{emit, carries, Volume, unity}
use voxloop.Configuration.Ladder.{
  Ladder, disconnected as rung_disconnected, unconfirmed as rung_unconfirmed,
}
use voxloop.State.Readings.{
  Connection, confirmed, unconfirmed, disconnected, carries_emission, is_confirmed, MediaPath,
  pessimistically_with, LoopHealth, not_receiving, NotHearing, unreachable, off_console,
  not_subscribed, is_not_receiving, muted, Counting, health,
}
use voxloop.State.Documents.{InReach, Asserted, Presence, Pressed}

-- A priority press that is being held. `at` is the wall clock's reading.
pub record Pressing : Type 0 where
  pub began : Instant
  pub at : Instant
  pub armed_on : List Text

pub record Session : Type 0 where
  pub id : SessionId
  pub sign_in : SignInToken
  pub occupant : UserId
  pub role : RoleId
  pub version : ℕ  -- u64
  pub last : Option Presence
  pub said_by_the_client : MediaPath
  pub seen_by_the_server : MediaPath
  pub heard_from : Instant
  pub the_channel_is_gone : Bool
  pub subscriptions : List LoopId
  pub beacons : List Counting
  pub arms : List LoopId
  pub mutes : List LoopId
  pub volumes : List (LoopId × Volume)
  pub keyed : Bool
  pub pressing : Option Pressing
  pub reach : List InReach
  pub off_console : Bool
  pub last_active : Instant

-- The `match` on how long the session has been unheard.
unfoldable pub connection_after : Ladder → Duration → Connection
connection_after by unheard =
    if leb (rung_disconnected by) unheard
    then disconnected
    else if leb (rung_unconfirmed by) unheard
    then unconfirmed
    else confirmed

unfoldable pub connection : Session → Ladder → Instant → Connection
unfolding connection_after
connection s by now =
    if s.the_channel_is_gone then disconnected else connection_after by (since now s.heard_from)

unfoldable pub is_transmitting : Session → Ladder → Instant → Bool
is_transmitting s by now = s.keyed && carries_emission (connection s by now)

unfoldable pub is_at_priority : Session → Ladder → Instant → Bool
is_at_priority s by now = is_some s.pressing && is_transmitting s by now

pressed_from : Session → Instant → Pressing → Pressed
pressed_from s now pressing = record {
  occupant = s.occupant;
  role = s.role;
  armed_on = pressing.armed_on;
  at = pressing.at;
  lasted = since now pressing.began;
}

-- `Session::let_go`: the session after it, and what the press leaves.
unfoldable pub let_go : Instant → Session → Session × Option Pressed
unfolding pressed_from
let_go now s = (record s { pressing = none }, Option.map (pressed_from s now) s.pressing)

unfoldable pub media_path : Session → MediaPath
media_path s = pessimistically_with s.said_by_the_client s.seen_by_the_server

unfoldable pub asserted : Session → Instant → Option Asserted
asserted s now =
    if s.off_console
    then some (record { last_active = from_secs (since now s.last_active / nanos_per_second) })
    else none

abbrev pub within_reach : List InReach → LoopId → Bool
within_reach reach held_on = any (λ within. within.id == held_on) reach

unfoldable pub hears : Session → LoopId → Bool
hears s held_on =
    contains s.subscriptions held_on
    && not (contains s.mutes held_on)
    && within_reach s.reach held_on

unfoldable pub monitors : Session → LoopId → Bool
monitors s held_on = contains s.subscriptions held_on && within_reach s.reach held_on

unfoldable pub health_of : Session → LoopId → Ladder → Instant → Option LoopHealth
health_of s held_on by now =
    if not (monitors s held_on) || not (is_confirmed (connection s by now))
    then none
    else Option.map (λ counting. health counting now)
        (find (λ counting. counting.held_on == held_on) s.beacons)

-- `== Some(LoopHealth::NotReceiving)`.
abbrev pub is_deaf : Option LoopHealth → Bool
is_deaf (some not_receiving) = true
is_deaf _ = false

abbrev pub is_disconnected : Connection → Bool
is_disconnected disconnected = true
is_disconnected _ = false

unfoldable pub not_hearing : Session → LoopId → Ladder → Instant → Option NotHearing
not_hearing s held_on by now =
    if is_disconnected (connection s by now)
    then some unreachable
    else if s.off_console
    then some off_console
    else if not (monitors s held_on)
    then some not_subscribed
    else if is_deaf (health_of s held_on by now)
    then some is_not_receiving
    else if contains s.mutes held_on
    then some muted
    else none

unfoldable pub volume_of : Session → LoopId → Volume
volume_of s held_on = elim (find (λ set. set.0 == held_on) s.volumes) [
  | none ↦ unity
  | some set ↦ set.1
]

-- Whether a reach lets its holder emit on a loop.
abbrev pub may_emit : List InReach → LoopId → Bool
may_emit reach armed = any (λ within. within.id == armed && carries within.permission emit) reach

unfoldable pub take_the_arms_out_of_reach : Session → Session
take_the_arms_out_of_reach s = record s { arms = retain (may_emit s.reach) s.arms }
