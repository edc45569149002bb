-- ===== src/State/Console.antt =====
-- What a session's own console does to it: subscriptions, mutes, volumes, arms and the two keys
-- (src/state.rs, lines 1548 to 1939).
use voxloop.Prelude.{
  Bool, true, false, not, ◌&&◌, Option, none, some, ◌==◌, if◌then◌else◌, List, [], ◌∷◌, ◌++◌, map,
  retain, any, find, update_first, contains, is_some,
}
use voxloop.Names.{Text, SessionId, LoopId, Instant}
use voxloop.Configuration.Permission.{Volume}
use voxloop.State.Readings.{starting}
use voxloop.State.Documents.{InReach, Pressed}
use voxloop.State.Session.{Session, let_go}
use voxloop.State.Live.{Live}

abbrev pub is_named : SessionId → Session → Bool
is_named session held = held.id == session

-- The first session of that name, if there is one.
abbrev pub session_of : Live → SessionId → Option Session
session_of live session = find (is_named session) live.sessions

-- Each operation looks its session up by `iter_mut().find(..)` and writes through what it finds.
abbrev pub change : SessionId → (Session → Session) → Live → Live
change session f live = record live { sessions = update_first (is_named session) f live.sessions }

-- An operation that answers `false` where the name is no session's, and `true` otherwise.
abbrev pub act_on : SessionId → (Session → Session) → Live → Live × Bool
act_on session f live = (change session f live, any (is_named session) live.sessions)

unfoldable pub subscribed : LoopId → Instant → Session → Session
subscribed to now held = if contains held.subscriptions to then held else record held {
  subscriptions = held.subscriptions ++ to ∷ [];
  beacons = held.beacons ++ starting to now ∷ [];
}

unfoldable pub subscribe : SessionId → LoopId → Instant → Live → Live × Bool
subscribe session to now = act_on session (subscribed to now)

unfoldable pub unsubscribed : LoopId → Session → Session
unsubscribed from held = record held {
  subscriptions = retain (λ held_on. not (held_on == from)) held.subscriptions;
  beacons = retain (λ counting. not (counting.held_on == from)) held.beacons;
  mutes = retain (λ held_on. not (held_on == from)) held.mutes;
}

unfoldable pub unsubscribe : SessionId → LoopId → Live → Live × Bool
unsubscribe session from = act_on session (unsubscribed from)

unfoldable pub muted : LoopId → Session → Session
muted held_on held =
    if contains held.subscriptions held_on && not (contains held.mutes held_on)
    then record held { mutes = held.mutes ++ held_on ∷ [] }
    else held

unfoldable pub mute : SessionId → LoopId → Live → Live × Bool
mute session held_on = act_on session (muted held_on)

unfoldable pub unmuted : LoopId → Session → Session
unmuted held_on held = record held { mutes = retain (λ muted. not (muted == held_on)) held.mutes }

unfoldable pub unmute : SessionId → LoopId → Live → Live × Bool
unmute session held_on = act_on session (unmuted held_on)

unfoldable pub off_console : SessionId → Live → Live × Bool
off_console session = act_on session (λ held. record held { off_console = true })

unfoldable pub a_deliberate_act : SessionId → Instant → Live → Live
a_deliberate_act session now =
    change session (λ held. record held { off_console = false; last_active = now })

-- The entry for the loop is overwritten, or one is pushed.
unfoldable pub with_volume : LoopId → Volume → List (LoopId × Volume) → List (LoopId × Volume)
with_volume held_on volume volumes =
    if any (λ set. set.0 == held_on) volumes
    then update_first (λ set. set.0 == held_on) (λ set. (set.0, volume)) volumes
    else volumes ++ (held_on, volume) ∷ []

unfoldable pub set_the_volume : SessionId → LoopId → Volume → Live → Live × Bool
unfolding with_volume
set_the_volume session held_on volume =
    act_on session (λ held. record held { volumes = with_volume held_on volume held.volumes })

unfoldable pub armed : LoopId → Session → Session
armed to held = if contains held.arms to then held else record held { arms = held.arms ++ to ∷ [] }

unfoldable pub arm : SessionId → LoopId → Live → Live × Bool
arm session to = act_on session (armed to)

unfoldable pub disarm : SessionId → LoopId → Live → Live × Bool
disarm session from =
    act_on session (λ held. record held { arms = retain (λ armed. not (armed == from)) held.arms })

unfoldable pub keying : SessionId → Bool → Live → Live × Bool
keying session now = act_on session (λ held. record held { keyed = now })

unfoldable pub the_client_keys : SessionId → Live → Live × Bool
unfolding keying
the_client_keys session = keying session true

unfoldable pub the_client_unkeys : SessionId → Live → Live × Bool
unfolding keying
the_client_unkeys session = keying session false

unfoldable pub is_keyed : Live → SessionId → Bool
is_keyed live session = any (λ held. held.id == session && held.keyed) live.sessions

-- The name that a loop goes by on a console, or the identifier's own text where it is out of reach.
abbrev pub name_within : List InReach → LoopId → Text
name_within reach armed = elim (find (λ within. within.id == armed) reach) [
  | none ↦ armed
  | some within ↦ within.name
]

-- A press that is already held is not begun again.
unfoldable pub pressed_down : Instant → Instant → Session → Session
pressed_down now wall_clock held = if is_some held.pressing then held else record held {
  pressing =
      some (record {
        began = now;
        at = wall_clock;
        armed_on = map (name_within held.reach) held.arms;
      });
}

unfoldable pub the_client_keys_priority : SessionId → Instant → Instant → Live → Live × Bool
the_client_keys_priority session now wall_clock = act_on session (pressed_down now wall_clock)

abbrev pub press_of : Instant → Option Session → Option Pressed
press_of now none = none
press_of now (some held) = (let_go now held).1

unfoldable pub the_client_unkeys_priority : SessionId → Instant → Live → Live × Option Pressed
unfolding let_go
the_client_unkeys_priority session now live =
    (change session (λ held. (let_go now held).0) live, press_of now (session_of live session))
