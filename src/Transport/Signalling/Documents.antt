-- ===== src/Transport/Signalling/Documents.antt =====
-- The lobby and the presence document, as a socket sends them (src/transport/signalling.rs).
use voxloop.Prelude.{
  ℕ, ◌+◌, Bool, true, false, not, ◌&&◌, ◌||◌, Option, none, some, is_some, is_the_last, ◌==◌,
  if◌then◌else◌, List, [], ◌∷◌, map, find, contains, ℕ_discrete,
}
use voxloop.Names.{Text, SessionId, UserId, RoleId, LoopId, u64}
use voxloop.Configuration.Permission.{monitor}
use voxloop.Configuration.Tables.{Role, Loop, Tables}
use voxloop.Configuration.Roles as Roles
use voxloop.Configuration.Users as Users
use voxloop.Configuration.Eligibility.{the_roles_open_to}
use voxloop.Configuration.Grid.{the_reach_of, the_staffing_roles}
use voxloop.Authorisation.{signed_in}
use voxloop.State.Documents.{StaffedBy, InReach, Staffing, Presence}
use voxloop.State.Live.{Ended, the_staffing_of}
use voxloop.State.Seats.{occupants_of, the_role_of, why_it_ended}
use voxloop.State.Projections as Projections
use voxloop.Transport.Signalling.Messages.{Lobby, Seat, StaffedLoop, Lobby-discrete, Outgoing}
use voxloop.Transport.Signalling.Scene.{
  Given, Conversation, Scene, Turn, ◌>>=◌, done, reading, permitted_to,
}

abbrev pub staffed_by : List (Loop × List RoleId) → List StaffedBy
staffed_by = map (λ entry. record { held_on = entry.0.id; roles = entry.1 })

-- The names of the occupants whom the store still knows.
abbrev pub names_of : Tables → List UserId → List Text
names_of t [] = []
names_of t (id ∷ rest) =
    let others = names_of t rest in
    elim (Users.user t id) [ none ↦ others | some found ↦ found.username ∷ others ]

-- The loops that a role staffs, with how each is staffed.
abbrev pub staffed_loops :
    RoleId → List (LoopId × Staffing) → List (Loop × List RoleId) → List StaffedLoop
staffed_loops role staffing [] = []
staffed_loops role staffing ((on, roles) ∷ rest) =
    let others = staffed_loops role staffing rest in
    if contains roles role
    then (elim (find (λ entry. entry.0 == on.id) staffing) [
      | none ↦ others
      | some entry ↦ record { id = on.id; name = on.name; staffing = entry.1 } ∷ others
    ])
    else others

unfoldable pub seat : Scene → List (Loop × List RoleId) → List (LoopId × Staffing) → Role → Seat
seat s staffed staffing role = record {
  id = role.id;
  name = role.name;
  max_occupants = role.max_occupants;
  occupants = names_of s.tables (occupants_of s.live role.id);
  staffs = staffed_loops role.id staffing staffed;
}

abbrev pub roles_open : Given → Scene → List Role
roles_open at s = elim (the_roles_open_to at.collate s.tables s.own.user) [
  | none ↦ []
  | some (_, roles) ↦ roles
]

-- What the transaction of `lobby` reads.
unfoldable pub lobby_of : Given → Scene → Lobby
unfolding seat
lobby_of at s =
    let staffed = the_staffing_roles s.tables in
    let staffing = the_staffing_of s.live (staffed_by staffed) at.now in
    record { roles = map (seat s staffed staffing) (roles_open at s) }

unfoldable pub lobby : Given → Turn Lobby
lobby at = reading (lobby_of at)

abbrev pub already_sent : Conversation → Lobby → Bool
already_sent own l = is_the_last Lobby-discrete own.sent_lobby l

-- A lobby that differs from the last one takes the next version.
unfoldable pub versioned : Lobby → Turn Outgoing
versioned l s =
    let version = u64 (s.own.lobby_version + 1) in
    done (Outgoing.lobby version l)
      (record s { own = record s.own { lobby_version = version; sent_lobby = some l } })

abbrev pub sent_again : Lobby → Turn Outgoing
sent_again l s =
    if already_sent s.own l then done (Outgoing.lobby s.own.lobby_version l) s else versioned l s

unfoldable pub the_lobby : Given → Turn Outgoing
unfolding lobby versioned
the_lobby at = lobby at >>= sent_again

abbrev pub said_with : Option Ended → Outgoing → Turn (List Outgoing)
said_with why said = done (Outgoing.session_ended why ∷ said ∷ [])

unfoldable pub back_to_the_lobby : Option Ended → Given → Turn (List Outgoing)
unfolding the_lobby
back_to_the_lobby why at = the_lobby at >>= said_with why

-- Why a session ended, where the state authority remembers.
abbrev pub ended_with : Given → Option SessionId → Turn (List Outgoing)
ended_with at none s = back_to_the_lobby none at s
ended_with at (some session) s =
    let (live, why) = why_it_ended session at.now s.live in
    back_to_the_lobby why at (record s { live = live })

-- `self.session.take()`, and the way back to the lobby.
unfoldable pub the_session_ended : Given → Turn (List Outgoing)
the_session_ended at s =
    ended_with at s.own.session
      (record s { own = record s.own { session = none; sent_presence = none } })

-- `Told::OnlyIfItMoved`, as a test.
abbrev pub is_unmoved : Bool → Option ℕ → ℕ → Bool
is_unmoved only_if_it_moved sent version = only_if_it_moved && is_the_last ℕ_discrete sent version

-- What the transaction of `presence` reads for the role.
abbrev pub standing_of : RoleId → Scene → Option Role × List InReach × List StaffedBy
standing_of role s = (
  Roles.role s.tables role,
  map (λ entry. record { id = entry.0.id; name = entry.0.name; permission = entry.1 })
      (the_reach_of s.tables role monitor),
  staffed_by (the_staffing_roles s.tables),
)

-- The document that the state authority hands out, or the end of the session.
abbrev pub shown_as : Bool → Given → Role → Option (ℕ × Presence) → Turn (List Outgoing)
shown_as only_if_it_moved at named none s = the_session_ended at s
shown_as only_if_it_moved at named (some (version, document)) s =
    if is_unmoved only_if_it_moved s.own.sent_presence version
    then done [] s
    else done (Outgoing.presence version named document ∷ [])
        (record s { own = record s.own { sent_presence = some version } })

abbrev pub present :
    Bool → Given → SessionId → Option Role × List InReach × List StaffedBy → Turn (List Outgoing)
present only_if_it_moved at session (none, within, staffed) s = the_session_ended at s
present only_if_it_moved at session (some named, within, staffed) s =
    let (live, shown) = Projections.presence session within staffed at.now s.live in
    shown_as only_if_it_moved at named shown (record s { live = live })

abbrev pub presence_in : Bool → Given → SessionId → Option RoleId → Turn (List Outgoing)
presence_in only_if_it_moved at session none s = the_session_ended at s
presence_in only_if_it_moved at session (some role) s =
    (reading (standing_of role) >>= present only_if_it_moved at session) s

abbrev pub presence_for : Bool → Given → Option SessionId → Turn (List Outgoing)
presence_for only_if_it_moved at none s = done [] s
presence_for only_if_it_moved at (some session) s =
    presence_in only_if_it_moved at session (the_role_of s.live session) s

-- `presence`, only if it moved or whether or not it did.
unfoldable pub presence : Bool → Given → Turn (List Outgoing)
presence only_if_it_moved at s = presence_for only_if_it_moved at s.own.session s

unfoldable pub whatever_this_socket_renders : Given → Turn (List Outgoing)
unfolding presence the_lobby
whatever_this_socket_renders at s =
    if is_some s.own.session
    then presence false at s
    else (the_lobby at >>= λ said. done (said ∷ [])) s

unfoldable pub pushed_presence : Given → Turn (List Outgoing)
unfolding presence
pushed_presence at s =
    if is_some s.own.session && is_some s.own.sent_presence then presence true at s else done [] s

-- The lobby as it moved, for a socket that was greeted and holds no session.
abbrev pub moved_lobby : Given → Turn (List Outgoing)
moved_lobby at = do
  l ← lobby at
  λ s. if already_sent s.own l then done [] s else (versioned l >>= λ said. done (said ∷ [])) s

unfoldable pub pushed_lobby : Given → Turn (List Outgoing)
unfolding lobby versioned
pushed_lobby at = do
  may ← permitted_to at signed_in
  λ s.
      if not may
      then done (Outgoing.closing_the_sign_in_ended ∷ []) s
      else if not (is_some s.own.sent_lobby) || is_some s.own.session
      then done [] s
      else moved_lobby at s
