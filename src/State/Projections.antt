-- ===== src/State/Projections.antt =====
-- The three answers that are given only as they move: the routing, the beacons and a session's
-- presence document (src/state.rs, lines 1941 to 2121).
use voxloop.Prelude.{
  ℕ, ◌+◌, ◌&&◌, Option, none, some, ◌==◌, if◌then◌else◌, is_the_last, List, map, retain, any, find,
  contains,
}
use mathlib.Core.Option as Option
use voxloop.Names.{SessionId, Instant, u64}
use voxloop.State.Documents.{
  StaffedBy, InReach, Standing, Presence, WhoCounts, WhoHears, Presence-discrete, routing-discrete,
  beacons-discrete,
}
use voxloop.State.Session.{
  Session, connection, is_transmitting, is_at_priority, media_path, asserted, monitors, health_of,
  volume_of, take_the_arms_out_of_reach,
}
use voxloop.State.Live.{
  Live, who_hears, the_loops_being_spoken_on, the_loops_spoken_on_at_priority, the_staffing_of,
}
use voxloop.State.Console.{session_of, change}

-- Who hears each session.
unfoldable pub the_routing : Live → Instant → List WhoHears
the_routing live now =
    map (λ talker. record { talker = talker.id; listeners = who_hears live talker now })
      live.sessions

unfoldable pub the_routing_if_it_moved : Instant → Live → Live × Option (List WhoHears)
the_routing_if_it_moved now live =
    let routing = the_routing live now in
    if is_the_last routing-discrete live.last_routing routing
    then (live, none)
    else (record live { last_routing = some routing }, some routing)

-- Which beacons each session counts.
unfoldable pub the_beacons : Live → List WhoCounts
the_beacons live =
    map
      (λ listener. record {
        listener = listener.id;
        on = retain (λ held_on. monitors listener held_on) listener.subscriptions;
      })
      live.sessions

unfoldable pub the_beacons_if_they_moved : Live → Live × Option (List WhoCounts)
the_beacons_if_they_moved live =
    let counting = the_beacons live in
    if is_the_last beacons-discrete live.last_beacons counting
    then (live, none)
    else (record live { last_beacons = some counting }, some counting)

-- How one loop in reach stands for a session.
unfoldable pub standing : Live → List StaffedBy → Session → Instant → InReach → Standing
standing live staffed held now held_on = record {
  held_on = held_on;
  subscribed = contains held.subscriptions held_on.id;
  armed = contains held.arms held_on.id;
  talking = contains (the_loops_being_spoken_on live now) held_on.id;
  priority = contains (the_loops_spoken_on_at_priority live now) held_on.id;
  muted = contains held.mutes held_on.id;
  volume = volume_of held held_on.id;
  health = health_of held held_on.id live.ladder now;
  staffing =
      Option.map (λ entry. entry.1)
        (find (λ entry. entry.0 == held_on.id) (the_staffing_of live staffed now));
  staffs = any (λ by. by.held_on == held_on.id && contains by.roles held.role) staffed;
}

-- The document of one session.
unfoldable pub document : Live → List StaffedBy → Session → Instant → Presence
document live staffed held now = record {
  session = held.id;
  role = held.role;
  media_path = media_path held;
  connection = connection held live.ladder now;
  keyed = is_transmitting held live.ladder now;
  priority = is_at_priority held live.ladder now;
  off_console = asserted held now;
  loops = map (standing live staffed held now) held.reach;
}

-- The version moves where the document is not the last one.
unfoldable pub published : Presence → Session → Session
published presence held =
    if is_the_last Presence-discrete held.last presence
    then held
    else record held { version = u64 (held.version + 1); last = some presence }

-- The new reach, and the arms that it leaves.
unfoldable pub brought_within : List InReach → Session → Session
brought_within within held = take_the_arms_out_of_reach (record held { reach = within })

-- `StateAuthority::presence`.
unfoldable pub presence :
    SessionId → List InReach → List StaffedBy → Instant → Live → Live × Option (ℕ × Presence)
presence session within staffed now live =
    let narrowed = change session (brought_within within) live in
    elim (session_of narrowed session) [
      | none ↦ (narrowed, none)
      | some held ↦
          let said = document narrowed staffed held now in
          (change session (published said) narrowed, some ((published said held).version, said))
    ]
