-- ===== src/State/Occupancy/Leaving.antt =====
-- The seats where one is given up, or its end is asked about (src/state.rs,
-- ended_by_its_own_holder and why_it_ended).
use voxloop.Prelude.{
  ◌==◌, find, All-retain, All-remove, All-map, contains-remove, Distinct-remove, Distinct-keep,
  Option-cases, inl, inr,
}
use voxloop.Names.{SessionId, Instant}
use voxloop.State.Live.{Live, forget_the_old_tombstones}
use voxloop.State.Seats.{ended_by_its_own_holder, why_it_ended}
use voxloop.State.Occupancy.{AreSeated, IsOver, ids}

pub ended_by_its_own_holder-AreSeated :
    (session : SessionId) (now : Instant) (live : Live)
    → AreSeated live
    → AreSeated (ended_by_its_own_holder session now live).0
unfolding ended_by_its_own_holder
ended_by_its_own_holder-AreSeated session now live h =
    elim (Option-cases (find (λ s. s.id == session) live.sessions)) [
      | inl nobody ↦ rw (nobody, ended_by_its_own_holder) h
      | inr (held, there) ↦
          rw (there, ended_by_its_own_holder)
            (record {
              one_id_each = Distinct-remove (λ s. s.id) _ live.sessions h.one_id_each;
              one_session_each =
                  Distinct-remove (λ s. s.occupant) _ live.sessions h.one_session_each;
              one_tombstone_each = h.one_tombstone_each;
              tombstones_over =
                  All-map (λ t o. contains-remove (λ s. s.id) _ live.sessions t.session o)
                    live.tombstones h.tombstones_over;
            })
    ]

pub why_it_ended-AreSeated :
    (session : SessionId) (now : Instant) (live : Live)
    → AreSeated live
    → AreSeated (why_it_ended session now live).0
unfolding why_it_ended forget_the_old_tombstones
why_it_ended-AreSeated session now live h =
    let kept = forget_the_old_tombstones now live in
    let one = Distinct-keep (λ t. t.occupant) _ live.tombstones h.one_tombstone_each in
    let over = All-retain (IsOver (ids live)) _ live.tombstones h.tombstones_over in
    elim (Option-cases (find (λ t. t.session == session) kept.tombstones)) [
      | inl nothing ↦
          rw (nothing, why_it_ended)
            (record {
              one_id_each = h.one_id_each;
              one_session_each = h.one_session_each;
              one_tombstone_each = one;
              tombstones_over = over;
            })
      | inr (t, there) ↦
          rw (there, why_it_ended)
            (record {
              one_id_each = h.one_id_each;
              one_session_each = h.one_session_each;
              one_tombstone_each = Distinct-remove (λ t. t.occupant) _ kept.tombstones one;
              tombstones_over = All-remove (IsOver (ids live)) _ kept.tombstones over;
            })
    ]
