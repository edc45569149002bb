-- ===== src/State/Live.antt =====
-- All live state, and the answers that are projected from it (src/state.rs, lines 872 to 1036 and
-- 2447 to 2632). The mutex is not modelled: `read` and `write` run their closure on the value
-- whether or not the lock is poisoned, so an operation is a function of `Live`, and reads the
-- clock once.
use voxloop.Prelude.{
  ℕ, suc, ◌*◌, Bool, true, false, not, ◌&&◌, Option, none, some, ltb, ◌==◌, if◌then◌else◌, List, [],
  ◌∷◌, ◌++◌, map, flat_map, retain, contains,
}
use voxloop.Names.{
  SessionId, LoopId, RoleId, UserId, SignInToken, Instant, Duration, from_secs, since,
}
use voxloop.Configuration.Ladder.{Ladder}
use voxloop.State.Readings.{
  carries_emission, NotHearing, unreachable, off_console, not_subscribed, is_not_receiving, muted,
}
use voxloop.State.Documents.{
  StaffedBy, Staffing, staffed, away, vacant, Heard, WhoHears, WhoCounts, Pressed,
}
use voxloop.State.Session.{
  Session, connection, is_transmitting, is_at_priority, let_go, hears, not_hearing,
}

abbrev pub tombstones_are_kept_for : Duration
tombstones_are_kept_for = from_secs (15 * 60)

pub data Ended : Type 0 where
  relinquished assumed_elsewhere : Ended

pub record Tombstone : Type 0 where
  pub session : SessionId
  pub occupant : UserId
  pub why : Ended
  pub at : Instant

pub record Live : Type 0 where
  pub ladder : Ladder
  pub sessions : List Session
  pub tombstones : List Tombstone
  pub last_routing : Option (List WhoHears)
  pub last_beacons : Option (List WhoCounts)

-- `StateAuthority::keeping_time_by`.
unfoldable pub keeping_time_by : Ladder → Live
keeping_time_by ladder = record {
  ladder = ladder;
  sessions = [];
  tombstones = [];
  last_routing = none;
  last_beacons = none;
}

pub record Relinquished : Type 0 where
  pub session : SessionId
  pub sign_in : SignInToken
  pub occupant : UserId
  pub role : RoleId
  pub why : Ended
  pub pressed : Option Pressed

unfoldable pub ended : Session → Ended → Instant → Relinquished
ended s why now = record {
  session = s.id;
  sign_in = s.sign_in;
  occupant = s.occupant;
  role = s.role;
  why = why;
  pressed = (let_go now s).1;
}

unfoldable pub forget_the_old_tombstones : Instant → Live → Live
forget_the_old_tombstones now live = record live {
  tombstones =
      retain (λ tombstone. ltb (since now tombstone.at) tombstones_are_kept_for) live.tombstones;
}

unfoldable pub remember : Relinquished → Instant → Live → Live
unfolding forget_the_old_tombstones
remember r now live = record live {
  tombstones =
      (forget_the_old_tombstones now live).tombstones
      ++ record { session = r.session; occupant = r.occupant; why = r.why; at = now } ∷ [];
}

-- Who hears a talker on one armed loop.
abbrev pub heard_on : SessionId → List Session → LoopId → List Heard
heard_on talker sessions armed =
    map (λ listener. record { listener = listener.id; on = armed })
      (retain (λ listener. not (listener.id == talker) && hears listener armed) sessions)

-- The fan-out of one talker: who hears them, and on which of their armed loops.
unfoldable pub who_hears : Live → Session → Instant → List Heard
unfolding flat_map
who_hears live talker now =
    if carries_emission (connection talker live.ladder now)
    then flat_map (heard_on talker.id live.sessions) talker.arms
    else []

unfoldable pub the_loops_being_spoken_on : Live → Instant → List LoopId
unfolding flat_map
the_loops_being_spoken_on live now =
    flat_map (λ held. held.arms)
      (retain (λ held. is_transmitting held live.ladder now) live.sessions)

unfoldable pub the_loops_spoken_on_at_priority : Live → Instant → List LoopId
unfolding flat_map
the_loops_spoken_on_at_priority live now =
    flat_map (λ held. held.arms)
      (retain (λ held. is_at_priority held live.ladder now) live.sessions)

-- The array `counted`, an entry for each reason in the order of `furthest_upstream_first`.
pub record Tally : Type 0 where
  pub on_unreachable : ℕ
  pub on_off_console : ℕ
  pub on_not_subscribed : ℕ
  pub on_not_receiving : ℕ
  pub on_muted : ℕ

abbrev pub no_reasons : Tally
no_reasons = record {
  on_unreachable = 0;
  on_off_console = 0;
  on_not_subscribed = 0;
  on_not_receiving = 0;
  on_muted = 0;
}

-- `counted[at] += 1`.
abbrev pub add_reason : NotHearing → Tally → Tally
add_reason unreachable t = record t { on_unreachable = suc t.on_unreachable }
add_reason off_console t = record t { on_off_console = suc t.on_off_console }
add_reason not_subscribed t = record t { on_not_subscribed = suc t.on_not_subscribed }
add_reason is_not_receiving t = record t { on_not_receiving = suc t.on_not_receiving }
add_reason muted t = record t { on_muted = suc t.on_muted }

-- The reasons that at least one occupant gave, furthest upstream first.
unfoldable pub reasons : Tally → List (NotHearing × ℕ)
reasons t =
    retain (λ entry. ltb 0 entry.1)
      ((unreachable, t.on_unreachable)
        ∷ (off_console, t.on_off_console)
        ∷ (not_subscribed, t.on_not_subscribed)
        ∷ (is_not_receiving, t.on_not_receiving)
        ∷ (muted, t.on_muted)
        ∷ [])

-- The loop over the occupants, with its early return for one who hears.
unfoldable pub staffing_loop : LoopId → Ladder → Instant → Bool → Tally → List Session → Staffing
staffing_loop held_on by now anybody tally [] = if anybody then away (reasons tally) else vacant
staffing_loop held_on by now anybody tally (occupant ∷ rest) =
    elim (not_hearing occupant held_on by now) [
      | none ↦ staffed
      | some reason ↦ staffing_loop held_on by now true (add_reason reason tally) rest
    ]

unfoldable pub staffing_of : Live → StaffedBy → Instant → Staffing
staffing_of live staffing now =
    staffing_loop staffing.held_on live.ladder now false no_reasons
      (retain (λ held. contains staffing.roles held.role) live.sessions)

unfoldable pub the_staffing_of : Live → List StaffedBy → Instant → List (LoopId × Staffing)
the_staffing_of live staffings now =
    map (λ staffing. (staffing.held_on, staffing_of live staffing now)) staffings
