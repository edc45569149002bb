-- ===== src/Examples/Sound.antt =====
-- Examples of the routing, the staffing, the documents and the measurements of the state authority.
use voxloop.Prelude.{ℕ, List, refl, ◌≡◌, ◌↔◌, ◌≢◌, [], ◌∷◌, none, some, true, false}
use voxloop.Names.{Instant, from_secs, u64}
use voxloop.Configuration.Permission.{monitor}
use voxloop.Configuration.Ladder.{default}
use voxloop.State.Readings.{disconnected, not_receiving, muted, health}
use voxloop.State.Documents.{away, Presence}
use voxloop.State.Session.{
  Session, connection, connection_after, not_hearing, monitors, hears, health_of,
}
use voxloop.State.Live.{Live, staffing_of, who_hears}
use voxloop.State.Console.{session_of, the_client_keys_priority, the_client_unkeys_priority}
use voxloop.State.Channel.{heard_from_now}
use voxloop.State.Acts.{
  Act, requests, disarms, keys, keys_priority, unkeys_priority, presents, serve,
}
use voxloop.State.History.{run}
use voxloop.State.Projections.{the_routing, standing, presence}
use voxloop.State.Routing.{reaches, reaches-who_hears}
use voxloop.State.Routing.Moves.{the_routing-serve}
use voxloop.State.StaffingLaws.{staffing_of-spec}
use voxloop.State.Versions.{said_of, presence-version, presence-arms}
use voxloop.State.Priority.{the_client_unkeys_priority-press, standing-talking}
use voxloop.State.Measures.{not_hearing-none}
use voxloop.Examples.Deployment.{
  alice, director, flight, noon, reach_of_both, operators_staff_flight, talker, listener, console,
}

reaches-who_hears_example : reaches 2 flight (who_hears console talker noon) ≡ true
unfolding connection connection_after hears
reaches-who_hears_example = reaches-who_hears console talker noon 2 flight

the_routing-serve_example : the_routing (serve 1 noon keys console) noon ≡ the_routing console noon
the_routing-serve_example = the_routing-serve 1 noon noon keys console tt

-- An operator who has muted the loop is the reason that it is away.
abbrev muting : Live
muting = record console { sessions = talker ∷ record listener { mutes = flight ∷ [] } ∷ [] }

staffing_of-spec_example : staffing_of muting operators_staff_flight noon ≡ away ((muted, 1) ∷ [])
unfolding not_hearing connection connection_after monitors health_of health
staffing_of-spec_example = staffing_of-spec muting operators_staff_flight noon

-- The document that Alice is given.
abbrev given : Presence
given = said_of 1 reach_of_both [] noon console talker

presence-version_example :
    let (next, answer) = presence 1 reach_of_both [] noon console in
    (v : ℕ) × (kept : Session) × (answer ≡ some (v, given))
    × (session_of next 1 ≡ some kept)
    × (kept.version ≡ v)
    × (kept.last ≡ some given)
    × (none ≡ some given → v ≡ 4)
    × (none ≢ some given → v ≡ u64 5)
presence-version_example = presence-version 1 reach_of_both [] noon console talker refl

-- A reach of nothing, and then both loops again: the arm is gone, and stays gone.
presence-arms_example :
    (kept : Session) × (session_of
        (presence 1 reach_of_both [] noon (presence 1 [] [] noon console).0).0
        1
      ≡ some kept)
    × (kept.arms ≡ [])
    × (kept.reach ≡ reach_of_both)
    × (kept.subscriptions ≡ flight ∷ [])
    × (kept.mutes ≡ [])
presence-arms_example = presence-arms 1 [] reach_of_both [] noon noon console talker refl

-- Alice holds her priority key for two seconds. Meanwhile she disarms the loop and says again that
-- the key is down, both loops leave her reach, and another session releases its own key.
abbrev while_it_is_held : List (Instant × Act)
while_it_is_held =
    (noon, requests 1 (disarms flight))
    ∷ (from_secs 1001, requests 1 (keys_priority 10))
    ∷ (from_secs 1001, requests 1 (presents [] []))
    ∷ (from_secs 1001, requests 2 unkeys_priority)
    ∷ []

the_client_unkeys_priority-press_example :
    (the_client_unkeys_priority 1
      (from_secs 1002)
      (run while_it_is_held (the_client_keys_priority 1 noon 9 console).0)).1
    ≡ some (record {
      occupant = alice;
      role = director;
      armed_on = 500 ∷ [];
      at = 9;
      lasted = from_secs 2;
    })
the_client_unkeys_priority-press_example =
    (the_client_unkeys_priority-press 1 noon 9 (from_secs 1002) (from_secs 1003) while_it_is_held
      console talker refl refl (tt, (tt, (tt, ((λ e. cc), tt))))).0

standing-talking_example :
    (standing console [] listener noon
      (record { id = flight; name = 500; permission = monitor })).talking
    ≡ true
unfolding connection connection_after
standing-talking_example =
    (standing-talking console [] listener noon
      (record { id = flight; name = 500; permission = monitor })).0

abbrev back_again : Session
back_again = heard_from_now default (from_secs 1100) listener

abbrev reported : ℕ
reported = 5

not_hearing-none_example : (not_hearing listener flight default noon ≡ none) ↔ (
    (connection listener default noon ≢ disconnected)
    × (false ≡ false)
    × (hears listener flight ≡ true)
    × (health_of listener flight default noon ≢ some not_receiving))
not_hearing-none_example = not_hearing-none listener flight default noon

-- Sixteen seconds in, the server hears Bob's client, and his client has heard no beacon.
abbrev deafened : Session
deafened = record listener { heard_from = from_secs 1016 }
