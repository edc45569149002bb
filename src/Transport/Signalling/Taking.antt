-- ===== src/Transport/Signalling/Taking.antt =====
-- Taking a seat and giving it up (src/transport/signalling.rs).
use voxloop.Prelude.{false, Option, none, some, if◌then◌else◌, List, [], ◌∷◌, ◌++◌}
use voxloop.Names.{SessionId, RoleId, LoopId}
use voxloop.Configuration.Permission.{Volume}
use voxloop.Configuration.Tables.{Role, Tables}
use voxloop.Configuration.Roles as Roles
use voxloop.Configuration.Eligibility.{is_eligible}
use voxloop.Configuration.Personalisation.{the_subscriptions_of, the_volumes_of}
use voxloop.Authorisation.{ok, unavailable}
use voxloop.State.Live.{Live, Relinquished}
use voxloop.State.Seats as Seats
use voxloop.State.Seats.{Assuming, Assumed, Seating, ended_by_its_own_holder}
use voxloop.Transport.Signalling.Messages.{
  Outgoing, Instruction, not_a_role_you_may_assume, is_occupied, open_a_path_for, close_the_path_of,
}
use voxloop.Transport.Signalling.Scene.{
  Given, Scene, Turn, Fault, Entry, ◌>>=◌, ◌>>◌, done, reading, writing, forecast, passed,
  name_as_it_stands, the_empty_text, end_entries, the_clock_starts_now,
}
use voxloop.Transport.Signalling.Documents.{presence, pushed_presence, back_to_the_lobby}

-- The role that the user may assume, and what the console last had in it.
unfoldable pub open_seat : RoleId → Scene → Option (Role × List LoopId × List (LoopId × Volume))
open_seat asked s = elim (Roles.role s.tables asked) [
  | none ↦ none
  | some role ↦
      if is_eligible s.tables s.own.user role.id
      then some (
        role,
        the_subscriptions_of s.tables s.own.user role.id,
        the_volumes_of s.tables s.own.user role.id,
      )
      else none
]

-- The end of the session that an assume displaced.
abbrev pub displaced_entries : Tables → Option Relinquished → List Entry
displaced_entries t none = []
displaced_entries t (some displaced) = end_entries t displaced

abbrev pub displaced_clock : Given → Option Relinquished → Tables → Tables
displaced_clock at none t = t
displaced_clock at (some displaced) t = the_clock_starts_now at displaced.sign_in t

abbrev pub start_entry : Scene → Role → Entry
start_entry s role =
    Entry.session_started s.own.user (name_as_it_stands s.tables s.own.user the_empty_text) role.id
      role.name

-- What the transaction of `assume` writes.
unfoldable pub record_the_start : Given → Role → Option Relinquished → Scene → Scene
record_the_start at role displaced s = record s {
  log = (s.log ++ displaced_entries s.tables displaced) ++ start_entry s role ∷ [];
  tables = displaced_clock at displaced s.tables;
}

abbrev pub closings : Option Relinquished → List Instruction
closings none = []
closings (some displaced) = close_the_path_of displaced.session ∷ []

abbrev pub close_the_displaced : Option Relinquished → Scene → Scene
close_the_displaced displaced s = record s { media = s.media ++ closings displaced }

-- The taking of a seat, recorded. A transaction that fails at a statement and is rolled back takes
-- the seat back; one that cannot begin, be rolled back or be committed answers with its error.
unfoldable pub recorded : Given → Role → Assumed → Turn (Unit {0})
unfolding record_the_start
recorded at role assumed s = elim (forecast s.weather).0 [
  | none ↦ (record_the_start at role assumed.displaced (passed s), ok tt)
  | some Fault.cannot_run ↦
      let (live, _) = ended_by_its_own_holder assumed.session at.now s.live in
      (record (passed s) { live = live }, unavailable)
  | some _ ↦ (passed s, unavailable)
]

-- The path is opened, and the socket is at the session's tier.
abbrev pub opened : SessionId → Scene → Scene
opened session s = record s {
  media = s.media ++ open_a_path_for session ∷ [];
  own = record s.own { session = some session; sent_presence = none };
}

-- What follows from the answer of the state authority.
unfoldable pub answered : Given → Role → Live × Seating → Turn (List Outgoing)
unfolding recorded
answered at role (live, Seating.occupied limit) s =
    done (Outgoing.refused (is_occupied role.name limit) ∷ []) (record s { live = live })
answered at role (live, Seating.assumed assumed) s =
    (recorded at role assumed >> λ r. presence false at (opened assumed.session r))
      (close_the_displaced assumed.displaced (record s { live = live }))

abbrev pub asked_by : Scene → Role → List LoopId → List (LoopId × Volume) → Assuming
asked_by s role subscribed_to volumes = record {
  sign_in = s.own.sign_in;
  occupant = s.own.user;
  role = role.id;
  limit = role.max_occupants;
  subscribed_to = subscribed_to;
  volumes = volumes;
}

unfoldable pub take_the_seat :
    Given → Role → List LoopId → List (LoopId × Volume) → Turn (List Outgoing)
unfolding answered
take_the_seat at role subscribed_to volumes s =
    answered at role (Seats.assume at.minted (asked_by s role subscribed_to volumes) at.now s.live)
      s

unfoldable pub assume : Given → RoleId → Turn (List Outgoing)
unfolding take_the_seat open_seat
assume at asked = do
  found ← reading (open_seat asked)
  elim found [
    | none ↦ done (Outgoing.refused not_a_role_you_may_assume ∷ [])
    | some (role, subscribed_to, volumes) ↦ take_the_seat at role subscribed_to volumes
  ]

-- What the transaction of a relinquish writes.
abbrev pub ending : Given → Relinquished → Scene → Scene
ending at ended s = record s {
  log = s.log ++ end_entries s.tables ended;
  tables = the_clock_starts_now at ended.sign_in s.tables;
}

unfoldable pub audit_that_it_ended : Given → Relinquished → Turn (Unit {0})
audit_that_it_ended at ended = writing (ending at ended)

-- The end is audited, where it was this socket that ended the session.
abbrev pub given_up : Given → Option Relinquished → Turn (List Outgoing)
given_up at none s = pushed_presence at s
given_up at (some ended) s =
    (audit_that_it_ended at ended >> back_to_the_lobby (some ended.why) at) s

-- The scene as the seat is given up, before anything is written.
abbrev pub vacated : SessionId → Live → Scene → Scene
vacated session live s = record s {
  own = record s.own { session = none; sent_presence = none };
  media = s.media ++ close_the_path_of session ∷ [];
  live = live;
}

abbrev pub relinquish_from : Given → Option SessionId → Turn (List Outgoing)
relinquish_from at none s = done [] s
relinquish_from at (some session) s =
    let (live, gone) = ended_by_its_own_holder session at.now s.live in
    given_up at gone (vacated session live s)

unfoldable pub relinquish : Given → Turn (List Outgoing)
relinquish at s = relinquish_from at s.own.session s
