-- ===== src/State/Limits/Held.antt =====
-- How many hold a role, over a history (src/state.rs, assume).
use voxloop.Prelude.{
  ℕ, ◌+◌, ◌≤◌, ◌≡◌, refl, sym, ap, ◌∙◌, Bool, false, ◌==◌, List, [], ◌∷◌, ◌++◌, map, All, Distinct,
  Option-cases, none, some, inl, inr, find, count, contains, contains-find, remove_first, length,
  arith, if◌then◌else◌, Bool-cases, eq_of_==, subst,
}
use voxloop.Names.{SessionId, UserId, RoleId, Instant}
use voxloop.Configuration.Ladder.{Ladder}
use voxloop.State.Session.{Session}
use voxloop.State.Live.{Live, keeping_time_by, remember}
use voxloop.State.Seats.{
  Assuming, seated, displace, take_the_seat, assume, is_full, ended_by_its_own_holder, why_it_ended,
  others_in, occupants_of, forget_tombstones_of,
}
use voxloop.State.Channel.{nothing_is_carried, unseen}
use voxloop.State.Projections.{the_routing_if_it_moved, the_beacons_if_they_moved}
use voxloop.State.Acts.{
  Act, assumes, relinquishes, asks_why, requests, routes, beacons, carries_nothing, serve, step,
}
use voxloop.State.Seating.{seat, seats, serve-LeavesSeats}
use voxloop.State.Occupancy.{occupants}
use voxloop.State.History.{AllFit, run, IsWell, step-IsWell, keeping_time_by-IsWell}
use voxloop.State.Limits.{assume-refused, assume-room, length-occupants_of, room_under, seated_in}

module _ (role : RoleId) where
  count-unseen :
      (xs : List Session)
      → count (λ s. s.role == role) (map unseen xs) ≡ count (λ s. s.role == role) xs
  count-unseen [] = refl
  count-unseen (x ∷ xs) = ground (arith, count-unseen xs)

  counted_without :
      (occupant : UserId) (xs : List Session)
      → contains (map (λ s. s.occupant) xs) occupant ≡ false
      → count (λ s. s.role == role) xs ≡ others_in role occupant xs
  counted_without occupant [] h = refl
  counted_without occupant (x ∷ xs) h = ground (arith, counted_without occupant xs)

  counted_after :
      (occupant : UserId) (xs : List Session)
      → Distinct (map (λ s. s.occupant) xs)
      → count (λ s. s.role == role) (remove_first (λ s. s.occupant == occupant) xs)
        ≡ others_in role occupant xs
  counted_after occupant [] d = refl
  counted_after occupant (x ∷ xs) d = ground (
    arith,
    counted_after occupant xs d.1,
    counted_without x.occupant xs d.0,
    counted_without occupant xs,
  )

  others-le :
      (occupant : UserId) (xs : List Session)
      → others_in role occupant xs ≤ count (λ s. s.role == role) xs
  others-le occupant [] = omega arith
  others-le occupant (x ∷ xs) = ground (arith, others-le occupant xs)

  count-push :
      (xs : List Session) (s : Session)
      → count (λ s. s.role == role) (xs ++ s ∷ [])
        ≡ count (λ s. s.role == role) xs + (if s.role == role then 1 else 0)
  count-push [] s = ground arith
  count-push (x ∷ xs) s = ground (arith, count-push xs s)

  count-remove :
      (p : Session → Bool) (xs : List Session)
      → count (λ s. s.role == role) (remove_first p xs) ≤ count (λ s. s.role == role) xs
  count-remove p [] = omega arith
  count-remove p (x ∷ xs) = ground (arith, count-remove p xs)

  count-seats :
      (xs : List Session)
      → count (λ s. s.role == role) xs ≡ count (λ k. k.role == role) (map seat xs)
  count-seats [] = refl
  count-seats (x ∷ xs) = ground (arith, count-seats xs)

  seated_in-seats :
      (before after : Live)
      → seats after ≡ seats before
      → seated_in role after ≡ seated_in role before
  seated_in-seats before after s =
      count-seats after.sessions
      ∙ ap (count (λ k. k.role == role)) s
      ∙ sym (count-seats before.sessions)

  displace-seated_in :
      (occupant : UserId) (now : Instant) (live : Live)
      → Distinct (occupants live)
      → seated_in role (displace occupant now live).0 ≡ others_in role occupant live.sessions
  unfolding displace remember
  displace-seated_in occupant now live d =
      elim (Option-cases (find (λ s. s.occupant == occupant) live.sessions)) [
        | inl nobody ↦
            rw (nobody, displace)
              (counted_without occupant live.sessions
                (contains-find (λ s. s.occupant) occupant live.sessions nobody))
        | inr (held, there) ↦ rw (there, displace) (counted_after occupant live.sessions d)
      ]

  take_the_seat-seated_in :
      (minted : SessionId) (assuming : Assuming) (now : Instant) (live : Live)
      → Distinct (occupants live)
      → seated_in role (take_the_seat minted assuming now live).0
        ≡ others_in role assuming.occupant live.sessions + (if assuming.role == role then 1 else 0)
  unfolding take_the_seat seated
  take_the_seat-seated_in minted assuming now live d = omega (
    arith,
    count-push
        (displace assuming.occupant now (forget_tombstones_of assuming.occupant live)).0.sessions
        (seated minted assuming now),
    displace-seated_in assuming.occupant now (forget_tombstones_of assuming.occupant live) d,
  )

  abbrev pub Limits : ℕ → Act → Type 0
  Limits n (assumes minted assuming) = assuming.role ≡ role → assuming.limit ≡ some n
  Limits n _ = Unit

  seats_taken-le :
      (n : ℕ) (assuming : Assuming) (live : Live)
      → (assuming.role ≡ role → assuming.limit ≡ some n)
      → is_full assuming live.sessions ≡ none
      → seated_in role live ≤ n
      → others_in role assuming.occupant live.sessions + (if assuming.role == role then 1 else 0)
        ≤ n
  seats_taken-le n assuming live limits room h = elim (Bool-cases (assuming.role == role)) [
    | inr other ↦ rw other (omega (arith, others-le assuming.occupant live.sessions))
    | inl same ↦
        let e = eq_of_== assuming.role role same in
        rw same (
          subst (λ r. others_in r assuming.occupant live.sessions + 1 ≤ n) e
            (omega (arith, room_under n assuming live.sessions (limits e) room)))
  ]

  assume-seated_in :
      (n : ℕ) (minted : SessionId) (assuming : Assuming) (now : Instant) (live : Live)
      → Distinct (occupants live)
      → (assuming.role ≡ role → assuming.limit ≡ some n)
      → seated_in role live ≤ n
      → seated_in role (assume minted assuming now live).0 ≤ n
  assume-seated_in n minted assuming now live d limits h =
      elim (Option-cases (is_full assuming live.sessions)) [
        | inr (limit, full) ↦ rw (assume-refused minted assuming now live full) h
        | inl room ↦ rw (assume-room minted assuming now live room) (
            rw (take_the_seat-seated_in minted assuming now live d)
              (seats_taken-le n assuming live limits room h))
      ]

  step-seated_in :
      (n : ℕ) (e : Instant × Act) (live : Live)
      → IsWell live
      → Limits n e.1
      → seated_in role live ≤ n
      → seated_in role (step e live) ≤ n
  unfolding step the_routing_if_it_moved the_beacons_if_they_moved nothing_is_carried
      ended_by_its_own_holder why_it_ended
  step-seated_in n (now, assumes minted assuming) live well limits h =
      assume-seated_in n minted assuming now live well.seating.one_session_each limits h
  step-seated_in n (now, relinquishes session) live well limits h =
      ground (arith, count-remove (λ s. s.id == session) live.sessions)
  step-seated_in n (now, asks_why session) live well limits h = ground arith
  step-seated_in n (now, requests session request) live well limits h =
      rw
        (seated_in-seats live (serve session now request live)
          (serve-LeavesSeats session now request live).same_seats)
        h
  step-seated_in n (now, routes) live well limits h = ground arith
  step-seated_in n (now, beacons) live well limits h = ground arith
  step-seated_in n (now, carries_nothing) live well limits h = rw (count-unseen live.sessions) h

  run_from-seated_in :
      (n : ℕ) (es : List (Instant × Act)) (live : Live)
      → IsWell live
      → AllFit es live
      → All (λ e. Limits n e.1) es
      → seated_in role live ≤ n
      → seated_in role (run es live) ≤ n
  unfolding run
  run_from-seated_in n [] live well fit limits h = h
  run_from-seated_in n (e ∷ es) live well fit limits h =
      run_from-seated_in n es (step e live) (step-IsWell e live fit.0 well) fit.1 limits.1
        (step-seated_in n e live well limits.0 h)

-- After any history in which every assume of a role brings the same limit, at most that many users
-- occupy the role.
pub run-occupants_of :
    (by : Ladder) (role : RoleId) (n : ℕ) (es : List (Instant × Act))
    → AllFit es (keeping_time_by by)
    → All (λ e. Limits role n e.1) es
    → length (occupants_of (run es (keeping_time_by by)) role) ≤ n
unfolding keeping_time_by
run-occupants_of by role n es fit limits =
    rw (length-occupants_of (run es (keeping_time_by by)) role) (
      run_from-seated_in role n es (keeping_time_by by) (keeping_time_by-IsWell by) fit limits
        (omega arith))
