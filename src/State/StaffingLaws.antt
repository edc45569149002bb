-- ===== src/State/StaffingLaws.antt =====
-- Staffing, beside a count of the occupants that has no accumulator and no early return
-- (src/state.rs, staffing_of).
use voxloop.Prelude.{
  ℕ, ◌+◌, ◌≡◌, refl, sym, ap, ◌∙◌, Bool, true, false, ltb, List, [], ◌∷◌, map, Option, none, some,
  any, count, retain, contains, arith, if◌then◌else◌, length, Option-cases, inl, inr,
}
use voxloop.Names.{LoopId, Instant}
use voxloop.Configuration.Ladder.{Ladder}
use voxloop.State.Readings.{
  NotHearing, unreachable, off_console, not_subscribed, is_not_receiving, muted,
  furthest_upstream_first,
}
use voxloop.State.Documents.{StaffedBy, Staffing, staffed, away, vacant}
use voxloop.State.Session.{Session, not_hearing}
use voxloop.State.Live.{Live, Tally, no_reasons, add_reason, reasons, staffing_loop, staffing_of}

abbrev pub is_hearing : Option NotHearing → Bool
is_hearing none = true
is_hearing (some _) = false

abbrev pub is_for : NotHearing → Option NotHearing → Bool
is_for unreachable (some unreachable) = true
is_for off_console (some off_console) = true
is_for not_subscribed (some not_subscribed) = true
is_for is_not_receiving (some is_not_receiving) = true
is_for muted (some muted) = true
is_for _ _ = false

abbrev pub is_empty {ℓ} : {A : Type ℓ} → List A → Bool
is_empty [] = true
is_empty (x ∷ xs) = false

module _ (held_on : LoopId) (by : Ladder) (now : Instant) where
  -- How many of the occupants give one reason.
  abbrev pub how_many : NotHearing → List Session → ℕ
  how_many reason = count (λ s. is_for reason (not_hearing s held_on by now))

  -- The answer that staffing is meant to give.
  abbrev pub staffing_spec : List Session → Staffing
  staffing_spec occupants =
      if any (λ s. is_hearing (not_hearing s held_on by now)) occupants
      then staffed
      else if is_empty occupants
      then vacant
      else away (
          retain (λ entry. ltb 0 entry.1)
            (map (λ reason. (reason, how_many reason occupants)) furthest_upstream_first))

  tally_with : Tally → List Session → Tally
  tally_with t xs = record {
    on_unreachable = t.on_unreachable + how_many unreachable xs;
    on_off_console = t.on_off_console + how_many off_console xs;
    on_not_subscribed = t.on_not_subscribed + how_many not_subscribed xs;
    on_not_receiving = t.on_not_receiving + how_many is_not_receiving xs;
    on_muted = t.on_muted + how_many muted xs;
  }

  tally_with-add :
      (t : Tally) (reason : NotHearing) (x : Session) (xs : List Session)
      → not_hearing x held_on by now ≡ some reason
      → tally_with (add_reason reason t) xs ≡ tally_with t (x ∷ xs)
  unfolding tally_with
  tally_with-add t unreachable x xs e = ground arith
  tally_with-add t off_console x xs e = ground arith
  tally_with-add t not_subscribed x xs e = ground arith
  tally_with-add t is_not_receiving x xs e = ground arith
  tally_with-add t muted x xs e = ground arith

  tally_with-nil : (t : Tally) → tally_with t [] ≡ t
  unfolding tally_with
  tally_with-nil t = ground arith

  staffing_loop-tally :
      (anybody : Bool) (t : Tally) (xs : List Session)
      → staffing_loop held_on by now anybody t xs ≡ (
          if any (λ s. is_hearing (not_hearing s held_on by now)) xs
          then staffed
          else if anybody
          then away (reasons (tally_with t xs))
          else if is_empty xs
          then vacant
          else away (reasons (tally_with t xs)))
  unfolding staffing_loop
  staffing_loop-tally true t [] = ap (λ tally. away (reasons tally)) (sym (tally_with-nil t))
  staffing_loop-tally false t [] = refl
  staffing_loop-tally anybody t (x ∷ xs) = elim (Option-cases (not_hearing x held_on by now)) [
    | inl hearing ↦ rw (hearing, staffing_loop)
    | inr (reason, e) ↦
        rw (e, staffing_loop)
          (staffing_loop-tally true (add_reason reason t) xs
            ∙ rw (tally_with-add t reason x xs e) (ground arith))
  ]

  staffing_loop-spec :
      (xs : List Session) → staffing_loop held_on by now false no_reasons xs ≡ staffing_spec xs
  unfolding reasons tally_with
  staffing_loop-spec xs = staffing_loop-tally false no_reasons xs ∙ ground arith

-- A loop is staffed where any occupant of its roles hears it, vacant where those roles have no
-- occupant, and away otherwise, with every reason that an occupant gives, furthest upstream first,
-- beside how many give it.
pub staffing_of-spec :
    (live : Live) (staffing : StaffedBy) (now : Instant)
    → staffing_of live staffing now
      ≡ staffing_spec staffing.held_on live.ladder now
          (retain (λ held. contains staffing.roles held.role) live.sessions)
unfolding staffing_of
staffing_of-spec live staffing now = staffing_loop-spec staffing.held_on live.ladder now _

abbrev pub total : List (NotHearing × ℕ) → ℕ
total [] = 0
total ((reason, n) ∷ rest) = n + total rest

total-retain : (rs : List (NotHearing × ℕ)) → total (retain (λ entry. ltb 0 entry.1) rs) ≡ total rs
total-retain [] = refl
total-retain ((reason, n) ∷ rest) = ground (arith, total-retain rest)

module _ (held_on : LoopId) (by : Ladder) (now : Instant) where
  every_reason :
      (xs : List Session)
      → any (λ s. is_hearing (not_hearing s held_on by now)) xs ≡ false
      → total (map (λ reason. (reason, how_many held_on by now reason xs)) furthest_upstream_first)
        ≡ length xs
  every_reason [] h = refl
  every_reason (x ∷ xs) h = ground (arith, every_reason xs)

-- An away loop accounts for every occupant of its roles once: its counts add up to them.
pub staffing_of-total :
    (live : Live) (staffing : StaffedBy) (now : Instant) (rs : List (NotHearing × ℕ))
    → staffing_of live staffing now ≡ away rs
    → total rs ≡ length (retain (λ held. contains staffing.roles held.role) live.sessions)
staffing_of-total live staffing now rs e =
    from_spec _ (sym (staffing_of-spec live staffing now) ∙ e)
  where
    from_spec :
        (xs : List Session)
        → staffing_spec staffing.held_on live.ladder now xs ≡ away rs
        → total rs ≡ length xs
    from_spec xs h = ground (
      arith,
      h,
      every_reason staffing.held_on live.ladder now xs,
      total-retain (
          map (λ reason. (reason, how_many staffing.held_on live.ladder now reason xs))
            furthest_upstream_first),
    )
