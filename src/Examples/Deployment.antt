-- ===== src/Examples/Deployment.antt =====
-- A small deployment to run the state authority on: a director who talks, and an operator who
-- listens, on two loops.
use voxloop.Prelude.{List, [], ◌∷◌, none, some, true, false}
use voxloop.Names.{LoopId, RoleId, UserId, Instant, from_secs}
use voxloop.Configuration.Permission.{emit, monitor}
use voxloop.Configuration.Ladder.{default}
use voxloop.State.Readings.{connected}
use voxloop.State.Documents.{InReach, StaffedBy}
use voxloop.State.Session.{Session}
use voxloop.State.Live.{Live}
use voxloop.State.Seats.{Assuming}

abbrev pub alice : UserId
alice = 1

abbrev pub bob : UserId
bob = 2

abbrev pub director : RoleId
director = 10

abbrev pub operator : RoleId
operator = 11

abbrev pub flight : LoopId
flight = 100

abbrev pub ground_loop : LoopId
ground_loop = 101

abbrev pub noon : Instant
noon = from_secs 1000

abbrev pub reach_of_both : List InReach
reach_of_both =
    record { id = flight; name = 500; permission = emit }
    ∷ record { id = ground_loop; name = 501; permission = monitor }
    ∷ []

abbrev pub operators_staff_flight : StaffedBy
operators_staff_flight = record { held_on = flight; roles = operator ∷ [] }

-- Alice, who has `flight` armed and her key down.
abbrev pub talker : Session
talker = record {
  id = 1;
  sign_in = 71;
  occupant = alice;
  role = director;
  version = 4;
  last = none;
  said_by_the_client = connected;
  seen_by_the_server = connected;
  heard_from = noon;
  the_channel_is_gone = false;
  subscriptions = flight ∷ [];
  beacons = record { held_on = flight; count = 3; arrived = some noon; started = noon } ∷ [];
  arms = flight ∷ [];
  mutes = [];
  volumes = [];
  keyed = true;
  pressing = none;
  reach = reach_of_both;
  off_console = false;
  last_active = noon;
}

-- Bob, who listens to `flight` and has muted `ground_loop`.
abbrev pub listener : Session
listener = record {
  id = 2;
  sign_in = 72;
  occupant = bob;
  role = operator;
  version = 0;
  last = none;
  said_by_the_client = connected;
  seen_by_the_server = connected;
  heard_from = noon;
  the_channel_is_gone = false;
  subscriptions = flight ∷ ground_loop ∷ [];
  beacons =
      record { held_on = flight; count = 0; arrived = none; started = noon }
      ∷ record { held_on = ground_loop; count = 0; arrived = none; started = noon }
      ∷ [];
  arms = [];
  mutes = ground_loop ∷ [];
  volumes = [];
  keyed = false;
  pressing = none;
  reach = reach_of_both;
  off_console = false;
  last_active = noon;
}

abbrev pub console : Live
console = record {
  ladder = default;
  sessions = talker ∷ listener ∷ [];
  tombstones = [];
  last_routing = none;
  last_beacons = none;
}

-- Alice asks for the director's role, which one user may hold.
abbrev pub alice_asks : Assuming
alice_asks = record {
  sign_in = 73;
  occupant = alice;
  role = director;
  limit = some 1;
  subscribed_to = flight ∷ [];
  volumes = [];
}

-- Bob asks for it too.
abbrev pub bob_asks : Assuming
bob_asks = record {
  sign_in = 74;
  occupant = bob;
  role = director;
  limit = some 1;
  subscribed_to = [];
  volumes = [];
}
