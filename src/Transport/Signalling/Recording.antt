-- ===== src/Transport/Signalling/Recording.antt =====
-- What taking a seat and giving it up write (src/transport/signalling.rs, assume and relinquish).
use mathlib.Core.Option as Option
use voxloop.Prelude.{
  ap₂, ◌≡◌, refl, ap, sym, ◌∙◌, false, Option, none, some, List, [], ◌∷◌, ◌++◌, find, ◌==◌,
  Option-cases, inl, inr,
}
use voxloop.Names.{SessionId, LoopId, Instant}
use voxloop.Configuration.Permission.{Volume}
use voxloop.Configuration.Tables.{Role}
use voxloop.Authorisation.{ok, unavailable}
use voxloop.State.Session.{Session}
use voxloop.State.Live.{Live, Relinquished, assumed_elsewhere, ended, relinquished}
use voxloop.State.Seats as Seats
use voxloop.State.Seats.{Seating, is_full, ended_by_its_own_holder}
use voxloop.Transport.Signalling.Messages.{open_a_path_for, close_the_path_of}
use voxloop.Transport.Signalling.Scene.{
  Given, Scene, Fault, Entry, carry, forecast, passed, committed, end_entries,
}
use voxloop.Transport.Signalling.Documents.{presence, back_to_the_lobby}
use voxloop.Transport.Signalling.Taking.{
  recorded, closings, close_the_displaced, displaced_entries, displaced_clock, start_entry, opened,
  answered, asked_by, record_the_start, take_the_seat, audit_that_it_ended, ending, relinquish,
  given_up, vacated, relinquish_from,
}
use voxloop.Transport.Signalling.Ledger.{
  username_in, end_of, end_entries-end_of, end_of_the_displaced, stamped, path_of_the_displaced,
  username_in-name_as_it_stands, assume-displaced, displaced_entries-end_of_the_displaced,
  displaced_clock-stamped, closings-path_of_the_displaced,
}
use voxloop.Transport.Signalling.Keeping.{presence-Keeps, back_to_the_lobby-KeepsLive}

recorded_fair :
    (at : Given) (role : Role) (displaced : Option Relinquished) (minted : SessionId) (s : Scene)
    → (forecast s.weather).0 ≡ none
    → recorded at role (record { session = minted; displaced = displaced }) s
      ≡ (record_the_start at role displaced (passed s), ok tt)
unfolding recorded
recorded_fair at role displaced minted s fair = rw (fair, recorded) refl

-- The log once the end of a session was to be recorded.
abbrev logged : Option Fault → Scene → Relinquished → List Entry
logged none s gone = s.log ++ end_entries s.tables gone
logged (some _) s gone = s.log

take_the_seat-writes :
    (at : Given) (role : Role) (subs : List LoopId) (vols : List (LoopId × Volume)) (s : Scene)
    (displaced : Option Relinquished)
    → (Seats.assume at.minted (asked_by s role subs vols) at.now s.live).1
      ≡ Seating.assumed (record { session = at.minted; displaced = displaced })
    → (forecast s.weather).0 ≡ none
    → let next = (take_the_seat at role subs vols s).0 in
      (next.log ≡ (s.log ++ displaced_entries s.tables displaced) ++ start_entry s role ∷ [])
      × (next.tables ≡ displaced_clock at displaced s.tables)
      × (next.media ≡ (s.media ++ closings displaced) ++ open_a_path_for at.minted ∷ [])
unfolding take_the_seat answered record_the_start
take_the_seat-writes at role subs vols s displaced seated fair =
    let live = (Seats.assume at.minted (asked_by s role subs vols) at.now s.live).0 in
    let start =
      record_the_start at role displaced
        (passed (close_the_displaced displaced (record s { live = live }))) in
    let shown = presence false at (opened at.minted start) in
    let went : recorded at role (record { session = at.minted; displaced = displaced })
          (close_the_displaced displaced (record s { live = live }))
        ≡ (start, ok tt) =
      recorded_fair at role displaced at.minted
        (close_the_displaced displaced (record s { live = live })) fair in
    let whole : take_the_seat at role subs vols s ≡ shown =
      ap (λ seating. answered at role (live, seating) s) seated
      ∙ ap (carry (λ _ r. presence false at (opened at.minted r))) went in
    let kept = presence-Keeps false at (opened at.minted start) in
    (
      ap (λ p. p.0.log) whole ∙ kept.log,
      ap (λ p. p.0.tables) whole ∙ kept.tables,
      ap (λ p. p.0.media) whole ∙ kept.media,
    )

-- Where the limit leaves room and the record is committed, what taking a seat writes. The log has,
-- where the user held a session before, the press that it was holding, if it held one, then its end,
-- for having been assumed elsewhere; and then the start of the new session, and nothing else. The
-- sign-in of the displaced session is stamped with the wall clock, where it was last stamped more
-- than a minute ago, and no other row of the store moves. The media plane is told to close the
-- displaced path and then to open the new one. The document that follows writes nothing more.
pub take_the_seat-log :
    (at : Given) (role : Role) (subs : List LoopId) (vols : List (LoopId × Volume)) (s : Scene)
    (before : Option Session)
    → is_full (asked_by s role subs vols) s.live.sessions ≡ none
    → find (λ x. x.occupant == s.own.user) s.live.sessions ≡ before
    → (forecast s.weather).0 ≡ none
    → let next = (take_the_seat at role subs vols s).0 in
      (next.log
        ≡ (s.log ++ end_of_the_displaced s.tables at.now before)
          ++ Entry.session_started s.own.user (username_in s.tables s.own.user) role.id role.name
            ∷ [])
      × (next.tables ≡ record s.tables { sign_ins = stamped at before s.tables.sign_ins })
      × (next.media ≡ (s.media ++ path_of_the_displaced before) ++ open_a_path_for at.minted ∷ [])
take_the_seat-log at role subs vols s before room there fair =
    let asked = asked_by s role subs vols in
    let displaced = Option.map (λ held. ended held assumed_elsewhere at.now) before in
    let written =
      take_the_seat-writes at role subs vols s displaced
        (assume-displaced at.minted asked at.now s.live before room there) fair in
    (
      written.0
          ∙ ap₂
              (λ ends called.
                (s.log ++ ends) ++ Entry.session_started s.own.user called role.id role.name ∷ [])
              (displaced_entries-end_of_the_displaced s.tables at.now before)
              (username_in-name_as_it_stands s.tables s.own.user),
      written.1 ∙ displaced_clock-stamped at s.tables before,
      written.2
          ∙ ap (λ closed. (s.media ++ closed) ++ open_a_path_for at.minted ∷ [])
              (closings-path_of_the_displaced at.now before),
    )

audited-Keeps :
    (at : Given) (gone : Relinquished) (s : Scene)
    → let next = (given_up at (some gone) s).0 in
      (next.live ≡ s.live)
      × (next.own.session ≡ s.own.session)
      × (next.media ≡ s.media)
      × (next.log ≡ logged (forecast s.weather).0 s gone)
unfolding audit_that_it_ended
audited-Keeps at gone s = elim (Option-cases (forecast s.weather).0) [
  | inl fair ↦
      let written = ending at gone (passed s) in
      let k = back_to_the_lobby-KeepsLive (some gone.why) at written in
      let went : audit_that_it_ended at gone s ≡ (written, ok tt) =
        ap (λ f. committed f (ending at gone) s) fair in
      let whole = ap (carry (λ _. back_to_the_lobby (some gone.why) at)) went in
      (
        ap (λ p. p.0.live) whole ∙ k.live,
        ap (λ p. p.0.own.session) whole ∙ k.session,
        ap (λ p. p.0.media) whole ∙ k.rest.media,
        ap (λ p. p.0.log) whole ∙ k.rest.log ∙ sym (ap (λ f. logged f s gone) fair),
      )
  | inr (fault, fails) ↦
      let went : audit_that_it_ended at gone s ≡ (passed s, unavailable) =
        ap (λ f. committed f (ending at gone) s) fails in
      let whole = ap (carry (λ _. back_to_the_lobby (some gone.why) at)) went in
      (
        ap (λ p. p.0.live) whole,
        ap (λ p. p.0.own.session) whole,
        ap (λ p. p.0.media) whole,
        ap (λ p. p.0.log) whole ∙ sym (ap (λ f. logged f s gone) fails),
      )
]

end-found :
    (session : SessionId) (now : Instant) (live : Live) (held : Session)
    → find (λ other. other.id == session) live.sessions ≡ some held
    → (ended_by_its_own_holder session now live).1 ≡ some (ended held relinquished now)
unfolding ended_by_its_own_holder
end-found session now live held there = rw (there, ended_by_its_own_holder) refl

-- Giving up a role whose session is live ends the session and closes its path whatever becomes of
-- the store, and leaves the socket in the lobby. Where its transaction went through, the log has the
-- press that the session was holding, if it held one, and then its end, for having been
-- relinquished; and where it did not, the log is as it was.
pub relinquish-live :
    (at : Given) (s : Scene) (session : SessionId) (held : Session)
    → s.own.session ≡ some session
    → find (λ other. other.id == session) s.live.sessions ≡ some held
    → let next = (relinquish at s).0 in
      (next.live ≡ (ended_by_its_own_holder session at.now s.live).0)
      × (next.own.session ≡ none)
      × (next.media ≡ s.media ++ close_the_path_of session ∷ [])
      × (next.log ≡ elim (forecast s.weather).0 [
        | none ↦ s.log ++ end_of s.tables at.now relinquished held
        | some _ ↦ s.log
      ])
unfolding relinquish
relinquish-live at s session held has there =
    let live = (ended_by_its_own_holder session at.now s.live).0 in
    let gone = ended held relinquished at.now in
    let whole : relinquish at s ≡ given_up at (some gone) (vacated session live s) =
      ap (λ o. relinquish_from at o s) has
      ∙ ap (λ o. given_up at o (vacated session live s))
          (end-found session at.now s.live held there) in
    let k = audited-Keeps at gone (vacated session live s) in
    (
      ap (λ p. p.0.live) whole ∙ k.0,
      ap (λ p. p.0.own.session) whole ∙ k.1,
      ap (λ p. p.0.media) whole ∙ k.2,
      ap (λ p. p.0.log) whole ∙ k.3 ∙ same_log (forecast s.weather).0,
    )
  where
    same_log :
        (f : Option Fault)
        → logged f
            (vacated session (ended_by_its_own_holder session at.now s.live).0 s)
            (ended held relinquished at.now)
          ≡ elim f [ none ↦ s.log ++ end_of s.tables at.now relinquished held | some _ ↦ s.log ]
    same_log none =
        ap (λ ends. s.log ++ ends) (end_entries-end_of s.tables at.now relinquished held)
    same_log (some f) = refl
