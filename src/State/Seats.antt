-- ===== src/State/Seats.antt =====
-- Taking a role, giving it up, and who holds what (src/state.rs, lines 952 to 1546 and 2387 to
-- 2419).
use voxloop.Prelude.{
  ℕ, Bool, false, not, ◌&&◌, Option, none, some, leb, ◌==◌, if◌then◌else◌, List, [], ◌∷◌, ◌++◌, map,
  retain, any, find, count, remove_first,
}
use mathlib.Core.Option as Option
use voxloop.Names.{SessionId, LoopId, RoleId, UserId, SignInToken, Instant}
use voxloop.Configuration.Permission.{Volume}
use voxloop.State.Readings.{lost, starting}
use voxloop.State.Session.{Session}
use voxloop.State.Live.{
  Live, Ended, relinquished, assumed_elsewhere, Relinquished, ended, remember,
  forget_the_old_tombstones,
}

pub record Assuming : Type 0 where
  pub sign_in : SignInToken
  pub occupant : UserId
  pub role : RoleId
  pub limit : Option ℕ
  pub subscribed_to : List LoopId
  pub volumes : List (LoopId × Volume)

pub record Assumed : Type 0 where
  pub session : SessionId
  pub displaced : Option Relinquished

-- The answer of `assume`: the seat, or `Occupied` with the limit that refused it.
pub data Seating : Type 0 where
  assumed : Assumed → Seating
  occupied : ℕ → Seating

-- How many of the others hold the role that is asked for.
abbrev pub others_in : RoleId → UserId → List Session → ℕ
others_in role occupant =
    count (λ session. session.role == role && not (session.occupant == occupant))

-- The guard on `max_occupants`.
abbrev pub is_full : Assuming → List Session → Option ℕ
is_full assuming sessions = elim assuming.limit [
  | none ↦ none
  | some limit ↦
      if leb limit (others_in assuming.role assuming.occupant sessions) then some limit else none
]

-- The session that an assume pushes.
unfoldable pub seated : SessionId → Assuming → Instant → Session
seated minted assuming now = record {
  id = minted;
  sign_in = assuming.sign_in;
  occupant = assuming.occupant;
  role = assuming.role;
  version = 0;
  last = none;
  said_by_the_client = lost;
  seen_by_the_server = lost;
  heard_from = now;
  the_channel_is_gone = false;
  subscriptions = assuming.subscribed_to;
  beacons = map (λ held_on. starting held_on now) assuming.subscribed_to;
  arms = [];
  mutes = [];
  volumes = assuming.volumes;
  keyed = false;
  pressing = none;
  reach = [];
  off_console = false;
  last_active = now;
}

-- The caller's tombstones are forgotten, whatever they are.
abbrev pub forget_tombstones_of : UserId → Live → Live
forget_tombstones_of occupant live = record live {
  tombstones = retain (λ tombstone. not (tombstone.occupant == occupant)) live.tombstones;
}

-- The caller's own session is removed and remembered, where they hold one.
unfoldable pub displace : UserId → Instant → Live → Live × Option Relinquished
unfolding ended remember
displace occupant now live = elim (find (λ session. session.occupant == occupant) live.sessions) [
  | none ↦ (live, none)
  | some held ↦
      let gone = ended held assumed_elsewhere now in
      let sessions = remove_first (λ session. session.occupant == occupant) live.sessions in
      (remember gone now (record live { sessions = sessions }), some gone)
]

-- What `assume` does once the limit has let it through.
unfoldable pub take_the_seat : SessionId → Assuming → Instant → Live → Live × Option Relinquished
unfolding seated displace
take_the_seat minted assuming now live =
    let (left, displaced) =
      displace assuming.occupant now (forget_tombstones_of assuming.occupant live) in
    (record left { sessions = left.sessions ++ seated minted assuming now ∷ [] }, displaced)

-- `StateAuthority::assume`. The name that `secrets::unguessable` mints is an argument.
unfoldable pub assume : SessionId → Assuming → Instant → Live → Live × Seating
unfolding take_the_seat
assume minted assuming now live = elim (is_full assuming live.sessions) [
  | some limit ↦ (live, occupied limit)
  | none ↦
      let (next, displaced) = take_the_seat minted assuming now live in
      (next, assumed (record { session = minted; displaced = displaced }))
]

unfoldable pub ended_by_its_own_holder : SessionId → Instant → Live → Live × Option Relinquished
unfolding ended
ended_by_its_own_holder session now live = elim (find (λ held. held.id == session) live.sessions) [
  | none ↦ (live, none)
  | some held ↦ (
    record live { sessions = remove_first (λ other. other.id == session) live.sessions },
    some (ended held relinquished now),
  )
]

unfoldable pub is_held_by : Live → SessionId → UserId → Bool
is_held_by live session occupant =
    any (λ held. held.id == session && held.occupant == occupant) live.sessions

unfoldable pub the_role_of : Live → SessionId → Option RoleId
the_role_of live session =
    Option.map (λ held. held.role) (find (λ held. held.id == session) live.sessions)

unfoldable pub why_it_ended : SessionId → Instant → Live → Live × Option Ended
unfolding forget_the_old_tombstones
why_it_ended session now live =
    let kept = forget_the_old_tombstones now live in
    elim (find (λ tombstone. tombstone.session == session) kept.tombstones) [
      | none ↦ (kept, none)
      | some tombstone ↦ (
        record kept {
          tombstones = remove_first (λ other. other.session == session) kept.tombstones;
        },
        some tombstone.why,
      )
    ]

unfoldable pub occupants_of : Live → RoleId → List UserId
occupants_of live role =
    map (λ session. session.occupant) (retain (λ session. session.role == role) live.sessions)

unfoldable pub sign_ins_holding_a_session : Live → List SignInToken
sign_ins_holding_a_session live = map (λ session. session.sign_in) live.sessions
