-- ===== src/State/Occupancy.antt =====
-- Who may sit where: the invariant on sessions and tombstones (src/state.rs, assume).
pub mod Taking
pub mod Leaving
use voxloop.Prelude.{
  Bool, false, ◌==◌, ◌≡◌, sym, subst, List, [], ◌∷◌, ◌++◌, map, retain, find, contains,
  remove_first, Distinct, All, Distinct-push, map-push, All-push, All-retain, All-remove, All-map,
  contains-remove, contains-keep, Distinct-remove, Distinct-keep, contains-find, contains-found,
  contains-removed, contains-retain_others, contains-push, some, Option-cases, inl, inr, arith, ltb,
  eq_of_==, find-passes, find-key-contains,
}
use voxloop.Names.{SessionId, UserId, Instant, since}
use voxloop.Configuration.Ladder.{Ladder}
use voxloop.State.Session.{Session}
use voxloop.State.Live.{
  tombstones_are_kept_for, Live, Tombstone, assumed_elsewhere, ended, remember,
  forget_the_old_tombstones, keeping_time_by,
}
use voxloop.State.Seats.{
  Assuming, seated, displace, take_the_seat, forget_tombstones_of, assume, is_full,
  ended_by_its_own_holder, why_it_ended,
}

abbrev pub ids : Live → List SessionId
ids live = map (λ s. s.id) live.sessions

abbrev pub occupants : Live → List UserId
occupants live = map (λ s. s.occupant) live.sessions

abbrev pub mourned : Live → List UserId
mourned live = map (λ t. t.occupant) live.tombstones

-- A tombstone is of a session that is over.
abbrev pub IsOver : List SessionId → Tombstone → Type 0
IsOver live_ids t = contains live_ids t.session ≡ false

pub record AreSeated (live : Live) : Type 0 where
  pub one_id_each : Distinct (ids live)
  pub one_session_each : Distinct (occupants live)
  pub one_tombstone_each : Distinct (mourned live)
  pub tombstones_over : All (IsOver (ids live)) live.tombstones

-- The name that an assume mints is nobody's, live or mourned: `secrets::unguessable` promises it.
pub record IsFresh (minted : SessionId) (live : Live) : Type 0 where
  pub not_live : contains (ids live) minted ≡ false
  pub not_mourned : All (λ t. (t.session == minted) ≡ false) live.tombstones

pub keeping_time_by-AreSeated : (by : Ladder) → AreSeated (keeping_time_by by)
unfolding keeping_time_by
keeping_time_by-AreSeated by = record {
  one_id_each = tt;
  one_session_each = tt;
  one_tombstone_each = tt;
  tombstones_over = tt;
}

pub forget_tombstones_of-AreSeated :
    (occupant : UserId) (live : Live)
    → AreSeated live
    → AreSeated (forget_tombstones_of occupant live)
forget_tombstones_of-AreSeated occupant live h = record {
  one_id_each = h.one_id_each;
  one_session_each = h.one_session_each;
  one_tombstone_each = Distinct-keep (λ t. t.occupant) _ live.tombstones h.one_tombstone_each;
  tombstones_over = All-retain _ _ live.tombstones h.tombstones_over;
}

pub forget_tombstones_of-IsFresh :
    (minted : SessionId) (occupant : UserId) (live : Live)
    → IsFresh minted live
    → IsFresh minted (forget_tombstones_of occupant live)
forget_tombstones_of-IsFresh minted occupant live h = record {
  not_live = h.not_live;
  not_mourned = All-retain _ _ live.tombstones h.not_mourned;
}

-- A user who holds nothing may be seated under a name that nobody has.
pub record IsReady (minted : SessionId) (occupant : UserId) (live : Live) : Type 0 where
  pub seating : AreSeated live
  pub fresh : IsFresh minted live
  pub unseated : contains (occupants live) occupant ≡ false
