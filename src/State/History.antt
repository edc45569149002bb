-- ===== src/State/History.antt =====
-- Histories of operations, from a state authority that has just started, and the invariant over
-- them (src/state.rs).
use mathlib.Core.List.{map-map}
use voxloop.Prelude.{
  ◌≡◌, refl, ◌∙◌, List, [], ◌∷◌, map, All, All-push, All-remove, Distinct, Option-cases, inl, inr,
  find, ◌==◌, ap, subst, sym, arith,
}
use voxloop.Names.{SessionId, UserId, LoopId, Instant}
use voxloop.Configuration.Ladder.{Ladder}
use voxloop.State.Readings.{starting}
use voxloop.State.Session.{Session}
use voxloop.State.Live.{Live, keeping_time_by, remember}
use voxloop.State.Seats.{
  Assuming, seated, displace, take_the_seat, assume, is_full, ended_by_its_own_holder, why_it_ended,
}
use voxloop.State.Channel.{nothing_is_carried, unseen}
use voxloop.State.Projections.{the_routing_if_it_moved, the_beacons_if_they_moved}
use voxloop.State.Acts.{
  Act, assumes, relinquishes, asks_why, requests, routes, beacons, carries_nothing, step,
}
use voxloop.State.Sound.{IsSound, loops_counted, loops_set}
use voxloop.State.Requests.{AllSound, serve-AllSound}
use voxloop.State.Seating.{seat, seats, serve-LeavesSeats}
use voxloop.State.Occupancy.{ids, occupants, AreSeated, IsFresh, keeping_time_by-AreSeated}
use voxloop.State.Occupancy.Taking.{assume-AreSeated}
use voxloop.State.Occupancy.Leaving.{ended_by_its_own_holder-AreSeated, why_it_ended-AreSeated}

-- What a caller owes an operation. An assume brings a name that is nobody's, and a remembered
-- subscription set and volumes that name each loop once.
abbrev pub Fits : Instant × Act → Live → Type 0
Fits (now, assumes minted assuming) live =
    IsFresh minted live × Distinct assuming.subscribed_to × Distinct (loops_set assuming.volumes)
Fits _ live = Unit

unfoldable pub run : List (Instant × Act) → Live → Live
run [] live = live
run (e ∷ es) live = run es (step e live)

abbrev pub AllFit : List (Instant × Act) → Live → Type 0
AllFit [] live = Unit
AllFit (e ∷ es) live = Fits e live × AllFit es (step e live)

pub record IsWell (live : Live) : Type 0 where
  pub seating : AreSeated live
  pub sound : AllSound live

-- The seats decide whether a state is seated.
pub seats-AreSeated :
    (before after : Live)
    → seats after ≡ seats before
    → after.tombstones ≡ before.tombstones
    → AreSeated before
    → AreSeated after
seats-AreSeated before after s t h = record {
  one_id_each = subst Distinct (sym same_ids) h.one_id_each;
  one_session_each = subst Distinct (sym same_occupants) h.one_session_each;
  one_tombstone_each = rw t h.one_tombstone_each;
  tombstones_over = rw (t, same_ids) h.tombstones_over;
}
  where
    same_ids : ids after ≡ ids before
    same_ids =
        sym (map-map (λ k. k.id) seat after.sessions)
        ∙ ap (map (λ k. k.id)) s
        ∙ map-map (λ k. k.id) seat before.sessions

    same_occupants : occupants after ≡ occupants before
    same_occupants =
        sym (map-map (λ k. k.occupant) seat after.sessions)
        ∙ ap (map (λ k. k.occupant)) s
        ∙ map-map (λ k. k.occupant) seat before.sessions

seats-unseen : (xs : List Session) → map seat (map unseen xs) ≡ map seat xs
seats-unseen [] = refl
seats-unseen (x ∷ xs) = ap (◌∷◌ (seat x)) (seats-unseen xs)

IsSound-unseen : (xs : List Session) → All IsSound xs → All IsSound (map unseen xs)
IsSound-unseen [] h = h
IsSound-unseen (x ∷ xs) h = (h.0, IsSound-unseen xs h.1)

loops_counted-starting :
    (now : Instant) (loops : List LoopId) → loops_counted (map (λ l. starting l now) loops) ≡ loops
loops_counted-starting now [] = refl
loops_counted-starting now (l ∷ rest) = ap (◌∷◌ l) (loops_counted-starting now rest)

seated-IsSound :
    (minted : SessionId) (assuming : Assuming) (now : Instant)
    → Distinct assuming.subscribed_to
    → Distinct (loops_set assuming.volumes)
    → IsSound (seated minted assuming now)
unfolding seated
seated-IsSound minted assuming now subscribed volumes = record {
  one_beacon_each = loops_counted-starting now assuming.subscribed_to;
  subscribed_once = subscribed;
  armed_once = tt;
  muted_once = tt;
  mutes_subscribed = λ l m. cc;
  one_volume_each = volumes;
}

displace-AllSound :
    (occupant : UserId) (now : Instant) (live : Live)
    → AllSound live
    → AllSound (displace occupant now live).0
unfolding displace remember
displace-AllSound occupant now live h =
    elim (Option-cases (find (λ s. s.occupant == occupant) live.sessions)) [
      | inl nobody ↦ rw (nobody, displace) h
      | inr (held, there) ↦ rw (there, displace) (All-remove IsSound _ live.sessions h)
    ]

assume-AllSound :
    (minted : SessionId) (assuming : Assuming) (now : Instant) (live : Live)
    → Distinct assuming.subscribed_to
    → Distinct (loops_set assuming.volumes)
    → AllSound live
    → AllSound (assume minted assuming now live).0
unfolding assume take_the_seat
assume-AllSound minted assuming now live subscribed volumes h =
    elim (Option-cases (is_full assuming live.sessions)) [
      | inr (limit, full) ↦ rw (full, assume) h
      | inl room ↦
          rw (room, assume)
            (All-push IsSound _ _ (displace-AllSound assuming.occupant now _ h)
              (seated-IsSound minted assuming now subscribed volumes))
    ]

ended_by_its_own_holder-AllSound :
    (session : SessionId) (now : Instant) (live : Live)
    → AllSound live
    → AllSound (ended_by_its_own_holder session now live).0
unfolding ended_by_its_own_holder
ended_by_its_own_holder-AllSound session now live h =
    elim (Option-cases (find (λ s. s.id == session) live.sessions)) [
      | inl nobody ↦ rw (nobody, ended_by_its_own_holder) h
      | inr (held, there) ↦
          rw (there, ended_by_its_own_holder) (All-remove IsSound _ live.sessions h)
    ]

pub why_it_ended-sessions :
    (session : SessionId) (now : Instant) (live : Live)
    → (why_it_ended session now live).0.sessions ≡ live.sessions
unfolding why_it_ended
why_it_ended-sessions session now live = ground arith

-- A state with the same sessions and tombstones is as well formed.
same-IsWell :
    (before after : Live)
    → after.sessions ≡ before.sessions
    → after.tombstones ≡ before.tombstones
    → IsWell before
    → IsWell after
same-IsWell before after s t h = record {
  seating = seats-AreSeated before after (ap (map seat) s) t h.seating;
  sound = rw s h.sound;
}

-- One operation keeps a well-formed state well formed.
pub step-IsWell :
    (e : Instant × Act) (live : Live) → Fits e live → IsWell live → IsWell (step e live)
unfolding step the_routing_if_it_moved the_beacons_if_they_moved nothing_is_carried
step-IsWell (now, assumes minted assuming) live (fresh, subscribed, volumes) h = record {
  seating = assume-AreSeated minted assuming now live h.seating fresh;
  sound = assume-AllSound minted assuming now live subscribed volumes h.sound;
}
step-IsWell (now, relinquishes session) live fits h = record {
  seating = ended_by_its_own_holder-AreSeated session now live h.seating;
  sound = ended_by_its_own_holder-AllSound session now live h.sound;
}
step-IsWell (now, asks_why session) live fits h = record {
  seating = why_it_ended-AreSeated session now live h.seating;
  sound = rw (why_it_ended-sessions session now live) h.sound;
}
step-IsWell (now, requests session request) live fits h =
    let leaves = serve-LeavesSeats session now request live in
    record {
      seating = seats-AreSeated live _ leaves.same_seats leaves.same_tombstones h.seating;
      sound = serve-AllSound session now request live h.sound;
    }
step-IsWell (now, routes) live fits h = same-IsWell live _ (ground arith) (ground arith) h
step-IsWell (now, beacons) live fits h = same-IsWell live _ (ground arith) (ground arith) h
step-IsWell (now, carries_nothing) live fits h = record {
  seating = seats-AreSeated live _ (seats-unseen live.sessions) refl h.seating;
  sound = IsSound-unseen live.sessions h.sound;
}

pub keeping_time_by-IsWell : (by : Ladder) → IsWell (keeping_time_by by)
unfolding keeping_time_by
keeping_time_by-IsWell by = record { seating = keeping_time_by-AreSeated by; sound = tt }

run_from-IsWell :
    (es : List (Instant × Act)) (live : Live) → AllFit es live → IsWell live → IsWell (run es live)
unfolding run
run_from-IsWell [] live fit h = h
run_from-IsWell (e ∷ es) live fit h =
    run_from-IsWell es (step e live) fit.1 (step-IsWell e live fit.0 h)

-- After any history whose assumes bring fresh names and sets that name each loop once: every user
-- holds at most one session, every session has its own name, at most one tombstone stands for a
-- user and none for a session that is live, and each session counts exactly the beacons of the
-- loops it subscribes to, mutes only those, and names no loop twice.
pub run-IsWell :
    (by : Ladder) (es : List (Instant × Act))
    → AllFit es (keeping_time_by by)
    → IsWell (run es (keeping_time_by by))
run-IsWell by es fit = run_from-IsWell es (keeping_time_by by) fit (keeping_time_by-IsWell by)
