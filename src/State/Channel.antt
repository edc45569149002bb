-- ===== src/State/Channel.antt =====
-- What the signalling channel and the media plane report: heartbeats, beacon counts, a channel
-- that closed and the media path (src/state.rs, lines 2122 to 2363).
use voxloop.Prelude.{
  ℕ, true, false, Option, none, some, ◌==◌, if◌then◌else◌, List, [], ◌∷◌, map, update_first,
}
use voxloop.Names.{SessionId, LoopId, Instant}
use voxloop.Configuration.Ladder.{Ladder}
use voxloop.State.Readings.{MediaPath, lost, NotHearing, Counting, is_confirmed, counted, again}
use voxloop.State.Documents.{Pressed}
use voxloop.State.Session.{Session, connection, let_go, not_hearing}
use voxloop.State.Live.{Live}
use voxloop.State.Console.{session_of, change, press_of}

-- A heartbeat: a channel that comes back starts every measurement again.
unfoldable pub heard_from_now : Ladder → Instant → Session → Session
heard_from_now by now held = record held {
  beacons =
      if is_confirmed (connection held by now) then held.beacons else map (again now) held.beacons;
  heard_from = now;
  the_channel_is_gone = false;
}

unfoldable pub the_client_is_there : SessionId → Instant → Live → Live
the_client_is_there session now live = change session (heard_from_now live.ladder now) live

-- The loop over the counts that a client reports; a loop it holds no beacon for is passed over.
unfoldable pub count_each : Instant → List (LoopId × ℕ) → List Counting → List Counting
count_each now [] beacons = beacons
count_each now ((held_on, packets) ∷ rest) beacons =
    count_each now rest
      (update_first (λ counting. counting.held_on == held_on) (counted packets now) beacons)

unfoldable pub the_client_counted : SessionId → List (LoopId × ℕ) → Instant → Live → Live
the_client_counted session counts now =
    change session (λ held. record held { beacons = count_each now counts held.beacons })

unfoldable pub why_not_hearing : Live → SessionId → LoopId → Instant → Option NotHearing
why_not_hearing live session held_on now = elim (session_of live session) [
  | none ↦ none
  | some held ↦ not_hearing held held_on live.ladder now
]

unfoldable pub the_channel_is_gone : SessionId → Instant → Live → Live × Option Pressed
unfolding let_go
the_channel_is_gone session now live = (
  change session (λ held. (let_go now (record held { the_channel_is_gone = true })).0) live,
  press_of now (session_of live session),
)

unfoldable pub the_client_says : SessionId → MediaPath → Live → Live
the_client_says session path = change session (λ held. record held { said_by_the_client = path })

unfoldable pub the_server_sees : SessionId → MediaPath → Live → Live
the_server_sees session path = change session (λ held. record held { seen_by_the_server = path })

abbrev pub unseen : Session → Session
unseen held = record held { seen_by_the_server = lost }

unfoldable pub nothing_is_carried : Live → Live
nothing_is_carried live = record live { sessions = map unseen live.sessions }
