-- ===== src/State/Measures.antt =====
-- What is measured: the connection ladder, the beacons and the media path (src/state.rs, Counting
-- and Session).
use voxloop.Prelude.{
  ℕ, ◌≤◌, ◌<◌, ◌≡◌, ◌≢◌, ◌↔◌, ◌⊎◌, refl, true, false, ltb, ◌==◌, List, [], ◌∷◌, map, All, find,
  none, some, arith, if◌then◌else◌, Option-cases, inl, inr,
}
use voxloop.Names.{LoopId, Instant, since}
use voxloop.Configuration.Ladder.{
  Ladder, Climbs, unconfirmed as rung_unconfirmed, disconnected as rung_disconnected,
}
use voxloop.State.Readings.{
  Connection, confirmed, unconfirmed, disconnected, connection_rank, is_confirmed, path_rank, lost,
  pessimistically_with, receiving, checking, not_receiving, is_not_receiving, Counting, counted,
  again, health, a_beacon_is_lost_after,
}
use voxloop.State.Session.{Session, connection, monitors, hears, health_of, not_hearing, media_path}
use voxloop.State.Live.{Live}
use voxloop.State.Channel.{heard_from_now, nothing_is_carried, unseen}

-- From a heartbeat on, a session under an accepted ladder is confirmed until the unconfirmed rung,
-- unconfirmed until the disconnected one, and disconnected from there, whatever it was before.
pub connection-heard_from_now :
    (by : Ladder) (s : Session) (now later : Instant)
    → Climbs by
    → let after = connection (heard_from_now by now s) by later in
      ((since later now < rung_unconfirmed by) ↔ (after ≡ confirmed))
      × (((rung_unconfirmed by ≤ since later now) × (since later now < rung_disconnected by))
          ↔ (after ≡ unconfirmed))
      × ((rung_disconnected by ≤ since later now) ↔ (after ≡ disconnected))
unfolding connection heard_from_now
connection-heard_from_now by s now later climbs = (
  (λ h. ground arith, λ h. ground arith),
  (λ h. ground arith, λ h. ground arith),
  (λ h. ground arith, λ h. ground arith),
)

-- Unheard from, a connection only gets worse.
pub connection_mono :
    (by : Ladder) (s : Session) (now later : Instant)
    → now ≤ later
    → connection_rank (connection s by now) ≤ connection_rank (connection s by later)
unfolding connection
connection_mono by s now later le = ground arith

checking_again :
    (now : Instant) (beacons : List Counting)
    → All (λ c. health c now ≡ checking) (map (again now) beacons)
unfolding again health
checking_again now [] = tt
checking_again now (c ∷ rest) = (ground arith, checking_again now rest)

not_confirmed : (c : Connection) → c ≢ confirmed → is_confirmed c ≡ false
not_confirmed confirmed h = absurd (h refl)
not_confirmed unconfirmed h = refl
not_confirmed disconnected h = refl

-- A heartbeat on a channel that was not confirmed starts every beacon's measurement again, so that
-- each loop is being checked; on a confirmed channel no measurement moves.
pub beacons-heard_from_now :
    (by : Ladder) (s : Session) (now : Instant)
    → (connection s by now ≡ confirmed → (heard_from_now by now s).beacons ≡ s.beacons)
      × (connection s by now ≢ confirmed
          → All (λ c. health c now ≡ checking) (heard_from_now by now s).beacons)
unfolding heard_from_now
beacons-heard_from_now by s now =
    (λ e. rw e refl, λ ne. rw (not_confirmed _ ne) (checking_again now s.beacons))

-- A reported count is an arrival exactly when it moved and is not zero: then the loop is received
-- from that instant until the beacon is lost, and not received after; any other count leaves the
-- loop's health at every instant as it was.
pub health-counted :
    (c : Counting) (packets : ℕ) (at now : Instant)
    → ((packets ≢ c.count) × (0 < packets)
        → health (counted packets at c) now
          ≡ (if ltb (since now at) a_beacon_is_lost_after then receiving else not_receiving))
      × ((packets ≡ c.count) ⊎ (packets ≡ 0) → health (counted packets at c) now ≡ health c now)
unfolding counted health
health-counted c packets at now = (λ h. ground arith, λ h. ground arith)

-- A session hears a loop, for staffing, exactly when its channel is not gone or timed out, it is at
-- its console, the fan-out reaches it there, and its beacon is not known to be lost.
pub not_hearing-none :
    (s : Session) (held_on : LoopId) (by : Ladder) (now : Instant)
    → (not_hearing s held_on by now ≡ none) ↔ (
        (connection s by now ≢ disconnected)
        × (s.off_console ≡ false)
        × (hears s held_on ≡ true)
        × (health_of s held_on by now ≢ some not_receiving))
unfolding not_hearing hears monitors
not_hearing-none s held_on by now = (λ h. ground arith, λ h. ground arith)

-- Beacon loss is never given as the reason while the connection is in doubt: a session that is said
-- not to receive has a confirmed connection and a beacon that is not being received.
pub not_hearing-is_not_receiving :
    (s : Session) (held_on : LoopId) (by : Ladder) (now : Instant)
    → not_hearing s held_on by now ≡ some is_not_receiving
    → (connection s by now ≡ confirmed)
      × (monitors s held_on ≡ true)
      × (c : Counting) × (find (λ counting. counting.held_on == held_on) s.beacons ≡ some c)
      × (health c now ≡ not_receiving)
unfolding not_hearing health_of
not_hearing-is_not_receiving s held_on by now h =
    elim (Option-cases (find (λ counting. counting.held_on == held_on) s.beacons)) [
      | inl uncounted ↦ absurd (ground arith)
      | inr (c, e) ↦ (ground arith, ground arith, c, e, ground arith)
    ]

pub All-unseen : (xs : List Session) → All (λ s. media_path s ≡ lost) (map unseen xs)
unfolding media_path pessimistically_with
All-unseen [] = tt
All-unseen (x ∷ xs) = (ground arith, All-unseen xs)

-- A session's media path is the worse of what its client says and what the server sees; so where
-- nothing is carried every session's path is lost, whatever its client says.
pub media_path-nothing_is_carried :
    (live : Live) (s : Session)
    → (path_rank s.said_by_the_client ≤ path_rank (media_path s))
      × (path_rank s.seen_by_the_server ≤ path_rank (media_path s))
      × ((media_path s ≡ s.said_by_the_client) ⊎ (media_path s ≡ s.seen_by_the_server))
      × All (λ x. media_path x ≡ lost) (nothing_is_carried live).sessions
unfolding media_path pessimistically_with nothing_is_carried
media_path-nothing_is_carried live s =
    (ground arith, ground arith, ground arith, All-unseen live.sessions)
