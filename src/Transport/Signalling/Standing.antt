-- ===== src/Transport/Signalling/Standing.antt =====
-- What becomes of a seat whose taking cannot be recorded (src/transport/signalling.rs, assume).
use voxloop.Prelude.{
  some≢none, find, ◌==◌, ◌++◌, Option-cases, inl, inr, ◌≡◌, refl, ap, sym, ◌∙◌, Bool, true, false,
  not, ◌||◌, Option, none, some, List,
}
use voxloop.Names.{Instant, SessionId, UserId, LoopId}
use voxloop.Configuration.Permission.{Volume}
use voxloop.Configuration.Tables.{Role}
use voxloop.Authorisation.{unavailable}
use voxloop.State.Live.{Live, Relinquished}
use voxloop.State.Seats as Seats
use voxloop.State.Seats.{
  Assuming, Assumed, Seating, is_full, is_held_by, the_role_of, ended_by_its_own_holder,
}
use voxloop.State.Occupancy.{AreSeated, IsFresh}
use voxloop.State.Occupancy.Taking.{assume-AreSeated}
use voxloop.State.Displacement.{assume-is_held_by, ended_by_its_own_holder-is_held_by}
use voxloop.Transport.Signalling.Messages.{Instruction}
use voxloop.Transport.Signalling.Scene.{Given, Scene, Turn, Fault, carry, ◌>>◌, forecast, passed}
use voxloop.Transport.Signalling.Taking.{
  recorded, closings, close_the_displaced, opened, answered, asked_by, take_the_seat,
}
use voxloop.Transport.Signalling.Documents.{presence}

-- Whether a seat stands where the transaction that records its taking fails.
abbrev pub stands : Fault → Bool
stands Fault.cannot_begin = true
stands Fault.cannot_run = false
stands Fault.cannot_undo = true
stands Fault.cannot_finish = true

-- What a failing record leaves of the live state.
abbrev pub left_by : Fault → SessionId → Given → Live → Live
left_by Fault.cannot_begin minted at live = live
left_by Fault.cannot_run minted at live = (ended_by_its_own_holder minted at.now live).0
left_by Fault.cannot_undo minted at live = live
left_by Fault.cannot_finish minted at live = live

recorded_fails :
    (at : Given) (role : Role) (assumed : Assumed) (s : Scene) (fault : Fault)
    → (forecast s.weather).0 ≡ some fault
    → recorded at role assumed s
      ≡ (record (passed s) { live = left_by fault assumed.session at s.live }, unavailable)
unfolding recorded
recorded_fails at role assumed s Fault.cannot_begin e = rw (e, recorded) refl
recorded_fails at role assumed s Fault.cannot_run e = rw (e, recorded) refl
recorded_fails at role assumed s Fault.cannot_undo e = rw (e, recorded) refl
recorded_fails at role assumed s Fault.cannot_finish e = rw (e, recorded) refl

-- A turn stops where it fails.
stops {ℓ} :
    {B : Type ℓ} (m : Turn (Unit {0})) (k : Turn B) (s next : Scene)
    → m s ≡ (next, unavailable)
    → (m >> k) s ≡ (next, unavailable)
stops m k s next e = ap (carry (λ _. k)) e

-- An assume that the limit lets through.
assume-seated :
    (minted : SessionId) (asked : Assuming) (now : Instant) (live : Live)
    → is_full asked live.sessions ≡ none
    → let next = Seats.assume minted asked now live in
      (displaced : Option Relinquished) × (next
        ≡ (next.0, Seating.assumed (record { session = minted; displaced = displaced })))
unfolding Seats.assume
assume-seated minted asked now live room =
    ((Seats.take_the_seat minted asked now live).1, rw (room, Seats.assume) refl)

-- Where the seat is free, what a failing record leaves is the scene with the live state alone
-- changed, and the path of a displaced session closed.
fails_at :
    (at : Given) (role : Role) (subs : List LoopId) (vols : List (LoopId × Volume)) (s : Scene)
    (fault : Fault)
    → is_full (asked_by s role subs vols) s.live.sessions ≡ none
    → (forecast s.weather).0 ≡ some fault
    → (media : List Instruction) × (take_the_seat at role subs vols s ≡ (
      record (passed s) {
        live =
            left_by fault at.minted at
              (Seats.assume at.minted (asked_by s role subs vols) at.now s.live).0;
        media = media;
      },
      unavailable,
    ))
unfolding take_the_seat answered
fails_at at role subs vols s fault room fails =
    let (displaced, seated) =
      assume-seated at.minted (asked_by s role subs vols) at.now s.live room in
    let live = (Seats.assume at.minted (asked_by s role subs vols) at.now s.live).0 in
    let taken : Assumed = record { session = at.minted; displaced = displaced } in
    let then_on = close_the_displaced displaced (record s { live = live }) in
    (
      s.media ++ closings displaced,
      ap (λ answer. answered at role answer s) seated
          ∙ stops (recorded at role taken) (λ r. presence false at (opened at.minted r)) then_on _
              (recorded_fails at role taken then_on fault fails),
    )

roleless :
    (live : Live) (session : SessionId)
    → find (λ x. x.id == session) live.sessions ≡ none
    → the_role_of live session ≡ none
unfolding the_role_of
roleless live session gone = rw (gone, the_role_of) refl

-- Where the limit leaves room, no user holds two sessions and the minted name is nobody's, the seat
-- that an assume takes stands or falls by where its record fails. A transaction that fails
-- at a statement and is rolled back leaves the minted session to nobody. One that cannot begin,
-- cannot be rolled back or cannot be committed leaves the user in the seat, though the answer is an
-- error, nothing is in the log, and the socket holds no session that it did not hold before.
pub take_the_seat-is_held_by :
    (at : Given) (role : Role) (subs : List LoopId) (vols : List (LoopId × Volume)) (s : Scene)
    (fault : Fault)
    → AreSeated s.live
    → IsFresh at.minted s.live
    → is_full (asked_by s role subs vols) s.live.sessions ≡ none
    → (forecast s.weather).0 ≡ some fault
    → let (next, answer) = take_the_seat at role subs vols s in
      (answer ≡ unavailable)
      × (next.log ≡ s.log)
      × (next.own ≡ s.own)
      × (is_held_by next.live at.minted s.own.user ≡ stands fault)
      × ((other : UserId) → (stands fault || not (is_held_by next.live at.minted other)) ≡ true)
take_the_seat-is_held_by at role subs vols s fault h fresh room fails =
    let (media, e) = fails_at at role subs vols s fault room fails in
    (
      ap (λ p. p.1) e,
      ap (λ p. p.0.log) e,
      ap (λ p. p.0.own) e,
      ap (λ p. is_held_by p.0.live at.minted s.own.user) e ∙ by_fault fault,
      λ other.
          ap (λ p. stands fault || not (is_held_by p.0.live at.minted other)) e
          ∙ to_nobody fault other,
    )
  where
    asked : Assuming
    asked = asked_by s role subs vols

    next : Live
    next = (Seats.assume at.minted asked at.now s.live).0

    held : is_held_by next at.minted s.own.user ≡ true
    held = (assume-is_held_by at.minted asked at.now s.live h fresh room).0

    undone :
        (other : UserId)
        → is_held_by (ended_by_its_own_holder at.minted at.now next).0 at.minted other ≡ false
    undone other = elim (Option-cases (find (λ x. x.id == at.minted) next.sessions)) [
      | inl gone ↦ absurd (
          some≢none (
            sym (assume-is_held_by at.minted asked at.now s.live h fresh room).1
            ∙ roleless next at.minted gone))
      | inr (there, found) ↦
          (ended_by_its_own_holder-is_held_by at.minted at.now at.now next there
              (assume-AreSeated at.minted asked at.now s.live h fresh) found).1
            other
    ]

    to_nobody :
        (f : Fault) (other : UserId)
        → (stands f || not (is_held_by (left_by f at.minted at next) at.minted other)) ≡ true
    to_nobody Fault.cannot_begin other = refl
    to_nobody Fault.cannot_run other = ap not (undone other)
    to_nobody Fault.cannot_undo other = refl
    to_nobody Fault.cannot_finish other = refl

    by_fault :
        (f : Fault) → is_held_by (left_by f at.minted at next) at.minted s.own.user ≡ stands f
    by_fault Fault.cannot_begin = held
    by_fault Fault.cannot_run = undone s.own.user
    by_fault Fault.cannot_undo = held
    by_fault Fault.cannot_finish = held
