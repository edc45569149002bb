-- ===== src/State/Limits.antt =====
-- `max_occupants`: when an assume is refused (src/state.rs, assume).
pub mod Held
use voxloop.Prelude.{
  ℕ, ◌+◌, ◌≤◌, ◌<◌, ◌≡◌, refl, sym, ap, ◌∙◌, ◌↔◌, Bool, false, ◌==◌, List, [], ◌∷◌, ◌++◌, map, All,
  Distinct, Option-cases, none, some, inl, inr, find, count, contains, contains-find, remove_first,
  length, retain, arith, if◌then◌else◌, Bool-cases, eq_of_==, subst,
}
use voxloop.Names.{SessionId, UserId, RoleId, Instant}
use voxloop.Configuration.Ladder.{Ladder}
use voxloop.State.Session.{Session}
use voxloop.State.Live.{Live, keeping_time_by, remember}
use voxloop.State.Seats.{
  Assuming, occupied, seated, displace, take_the_seat, assume, is_full, ended_by_its_own_holder,
  why_it_ended, others_in, occupants_of, forget_tombstones_of,
}
use voxloop.State.Channel.{nothing_is_carried, unseen}
use voxloop.State.Projections.{the_routing_if_it_moved, the_beacons_if_they_moved}
use voxloop.State.Acts.{
  Act, assumes, relinquishes, asks_why, requests, routes, beacons, carries_nothing, serve, step,
}
use voxloop.State.Seating.{seat, seats, serve-LeavesSeats}
use voxloop.State.Occupancy.{occupants}
use voxloop.State.History.{AllFit, run, IsWell, step-IsWell, keeping_time_by-IsWell}

-- How many sessions hold a role.
abbrev pub seated_in : RoleId → Live → ℕ
seated_in role live = count (λ s. s.role == role) live.sessions

pub length-occupants_of :
    (live : Live) (role : RoleId) → length (occupants_of live role) ≡ seated_in role live
unfolding occupants_of
length-occupants_of live role = go live.sessions
  where
    go :
        (xs : List Session)
        → length (map (λ s. s.occupant) (retain (λ s. s.role == role) xs))
          ≡ count (λ s. s.role == role) xs
    go [] = refl
    go (x ∷ xs) = ground (arith, go xs)

-- An assume is refused exactly when its role has a limit and that many others hold the role, and
-- a refused assume changes nothing: the caller's own session stands.
pub assume-occupied :
    (minted : SessionId) (assuming : Assuming) (now : Instant) (live : Live) (limit : ℕ)
    → ((assume minted assuming now live ≡ (live, occupied limit)) ↔ (
        (assuming.limit ≡ some limit)
        × (limit ≤ others_in assuming.role assuming.occupant live.sessions)))
      × ((assume minted assuming now live).1 ≡ occupied limit
          → (assume minted assuming now live).0 ≡ live)
unfolding assume
assume-occupied minted assuming now live limit =
    ((λ h. ground arith, λ h. ground arith), λ h. ground arith)

pub assume-room :
    (minted : SessionId) (assuming : Assuming) (now : Instant) (live : Live)
    → is_full assuming live.sessions ≡ none
    → (assume minted assuming now live).0 ≡ (take_the_seat minted assuming now live).0
unfolding assume
assume-room minted assuming now live room = rw (room, assume)

pub assume-refused :
    (minted : SessionId) (assuming : Assuming) (now : Instant) (live : Live) {limit : ℕ}
    → is_full assuming live.sessions ≡ some limit
    → (assume minted assuming now live).0 ≡ live
unfolding assume
assume-refused minted assuming now live full = rw (full, assume)

pub room_under :
    (n : ℕ) (assuming : Assuming) (xs : List Session)
    → assuming.limit ≡ some n
    → is_full assuming xs ≡ none
    → others_in assuming.role assuming.occupant xs < n
room_under n assuming xs limits room = ground arith
