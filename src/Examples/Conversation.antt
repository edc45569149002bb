-- ===== src/Examples/Conversation.antt =====
-- A socket on a small deployment (src/transport/signalling.rs).
use voxloop.Prelude.{
  not, ℕ, map, ◌≢◌, ◌≡◌, ◌⊎◌, refl, true, false, none, some, Option, List, [], ◌∷◌, arith,
}
use voxloop.Names.{Text, RoleId, u64, from_secs, UserId, SignInToken}
use voxloop.Configuration.Ladder.{default}
use voxloop.Configuration.Tables.{UserRow, RoleRow, Tables, a_role}
use voxloop.Configuration.SignIns.{SignIn}
use voxloop.Configuration.Users.{user}
use voxloop.Configuration.Roles.{role}
use voxloop.Configuration.Eligibility.{the_roles_open_to}
use voxloop.Authorisation.{ok, unavailable}
use voxloop.Authorisation.Entitlement.{IsEntitled}
use voxloop.State.Live.{Live, keeping_time_by, assumed_elsewhere}
use voxloop.State.Seats as Seats
use voxloop.State.Seats.{is_held_by, ended_by_its_own_holder}
use voxloop.State.Occupancy.{keeping_time_by-AreSeated}
use voxloop.Transport.Signalling.Messages.{
  Incoming, Outgoing, requirement, open_a_path_for, close_the_path_of,
}
use voxloop.Transport.Signalling.Scene.{Given, Scene, Conversation, Fault, Entry, passed, presented}
use voxloop.Transport.Signalling.Documents.{lobby_of, pushed_presence}
use voxloop.Transport.Signalling.Taking.{take_the_seat, relinquish}
use voxloop.Transport.Signalling.Received.{received}
use voxloop.Transport.Signalling.Standing.{take_the_seat-is_held_by}
use voxloop.Transport.Signalling.Recording.{take_the_seat-log, relinquish-live}
use voxloop.Transport.Signalling.Displaced.{pushed_presence-displaced}
use voxloop.Transport.Signalling.Permitted.{asked_of, received-IsEntitled}
use voxloop.Examples.Deployment.{
  alice, director, listener, flight, noon, talker, console, alice_asks,
}
use voxloop.Examples.Seats.{console-AreSeated}
use voxloop.Examples.Administration.{by_number, controller, configured}

abbrev given : Given
given = record {
  now = noon;
  wall_clock = 1000;
  minted = 9;
  fingerprint = by_number;
  collate = by_number;
}

abbrev in_the_lobby : Conversation
in_the_lobby = record {
  user = 6;
  sign_in = 60;
  session = none;
  sent_presence = none;
  lobby_version = 0;
  sent_lobby = none;
}

abbrev at_the_console : Conversation
at_the_console = record in_the_lobby {
  user = alice;
  sign_in = 71;
  session = some 1;
  sent_presence = some 4;
}

abbrev before_a_seat : List (Option Fault) → Scene
before_a_seat weather = record {
  own = in_the_lobby;
  live = keeping_time_by default;
  tables = configured;
  log = [];
  media = [];
  weather = weather;
}

abbrev in_a_seat : Live → List (Option Fault) → Scene
in_a_seat live weather = record (before_a_seat weather) { own = at_the_console; live = live }

take_the_seat-is_held_by_example :
    let (next, answer) =
      take_the_seat given (a_role controller) [] [] (before_a_seat (some Fault.cannot_run ∷ [])) in
    (answer ≡ unavailable)
    × (next.log ≡ [])
    × (next.own ≡ in_the_lobby)
    × (is_held_by next.live 9 6 ≡ false)
    × ((other : UserId) → not (is_held_by next.live 9 other) ≡ true)
unfolding keeping_time_by
take_the_seat-is_held_by_example =
    take_the_seat-is_held_by given (a_role controller) [] []
      (before_a_seat (some Fault.cannot_run ∷ [])) Fault.cannot_run
      (keeping_time_by-AreSeated default) (record { not_live = refl; not_mourned = tt }) refl refl

-- Alice is at a console, two seconds into a priority press, and takes a seat in another tab.
abbrev alice_row : UserRow
alice_row = record {
  id = alice;
  username = 201;
  password_hash = some 200;
  is_system_administrator = false;
  is_locked = false;
  external = none;
  created_at = 0;
}

abbrev director_row : RoleRow
director_row = record { id = director; name = 210; max_occupants = some 1; created_at = 0 }

abbrev signed_in_at : ℕ → SignIn
signed_in_at last = record {
  fingerprint = 71;
  user_id = alice;
  started_at = 0;
  last_active_at = last;
}

abbrev with_alice : ℕ → Tables
with_alice last = record configured {
  users = alice_row ∷ [];
  roles = director_row ∷ controller ∷ [];
  sign_ins = signed_in_at last ∷ [];
}

abbrev while_pressing : Live
while_pressing = record console {
  sessions =
      record talker {
        pressing = some (record { began = from_secs 998; at = 9; armed_on = 500 ∷ [] });
      }
      ∷ listener
      ∷ [];
}

abbrev in_another_tab : Scene
in_another_tab = record {
  own = record in_the_lobby { user = alice; sign_in = 71 };
  live = while_pressing;
  tables = with_alice 1000;
  log = [];
  media = [];
  weather = [];
}

take_the_seat-log_example :
    let next =
      (take_the_seat
        (record given { wall_clock = 90_000 })
        (a_role controller)
        []
        []
        in_another_tab).0 in
    (next.log
      ≡ Entry.priority_press alice 201 director 210 (500 ∷ []) 9 (from_secs 2)
        ∷ Entry.session_ended alice 201 director 210 assumed_elsewhere
        ∷ Entry.session_started alice 201 2 102
        ∷ [])
    × (next.tables ≡ with_alice 90_000)
    × (next.media ≡ close_the_path_of 1 ∷ open_a_path_for 9 ∷ [])
take_the_seat-log_example =
    take_the_seat-log (record given { wall_clock = 90_000 }) (a_role controller) [] []
      in_another_tab
      (some (record talker {
        pressing = some (record { began = from_secs 998; at = 9; armed_on = 500 ∷ [] });
      }))
      refl refl refl

relinquish-live_example :
    let next = (relinquish given (in_a_seat console (some Fault.cannot_run ∷ []))).0 in
    (next.live ≡ (ended_by_its_own_holder 1 noon console).0)
    × (next.own.session ≡ none)
    × (next.media ≡ close_the_path_of 1 ∷ [])
    × (next.log ≡ [])
relinquish-live_example =
    relinquish-live given (in_a_seat console (some Fault.cannot_run ∷ [])) 1 talker refl refl

abbrev moved : Live
moved = (Seats.assume 3 alice_asks noon console).0

-- The director's role is open to Alice, who holds it from the other tab.
abbrev told_elsewhere : Scene
told_elsewhere = record (in_a_seat moved []) {
  tables = record (with_alice 1000) {
    eligibility = record { user = alice; role = director; granted_at = 0 } ∷ [];
  };
}

pushed_presence-displaced_example :
    let shown = lobby_of given told_elsewhere in
    (version : ℕ) × ((pushed_presence given told_elsewhere).1
      ≡ ok (Outgoing.session_ended (some assumed_elsewhere) ∷ Outgoing.lobby version shown ∷ []))
    × (none ≡ some shown → version ≡ 0)
    × (none ≢ some shown → version ≡ u64 1)
    × (map {B = RoleId × List Text} (λ seat. (seat.id, seat.occupants)) shown.roles
        ≡ (director, 201 ∷ []) ∷ [])
    × ((pushed_presence given told_elsewhere).0.own.session ≡ none)
unfolding the_roles_open_to user role Seats.assume Seats.take_the_seat Seats.displace Seats.seated
pushed_presence-displaced_example =
    pushed_presence-displaced given 3 alice_asks noon console talker told_elsewhere 4
      console-AreSeated (record { not_live = refl; not_mourned = tt }) refl refl (omega arith) refl
      refl refl refl

received-IsEntitled_example :
    let s = in_a_seat console [] in
    ((received given (some (Incoming.arm flight)) s).0 ≡ passed s)
    ⊎ ((id : UserId) × (token : SignInToken) × IsEntitled
          (asked_of given s)
          s.live
          (presented s.own)
          id
          token
          (requirement (Incoming.arm flight)))
received-IsEntitled_example = received-IsEntitled given (Incoming.arm flight) (in_a_seat console [])
