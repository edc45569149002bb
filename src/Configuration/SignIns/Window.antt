-- ===== src/Configuration/SignIns/Window.antt =====
-- What opens a sign-in, what ends it, and the window it stands for
-- (src/configuration/sign_ins.rs).
use voxloop.Prelude.{
  ℕ, ◌+◌, ◌<◌, ◌≤◌, ◌≡◌, ◌≢◌, refl, sym, ap, ◌∙◌, subst, Bool, false, not, ◌&&◌, leb, ltb, Option,
  none, some, ◌==◌, ==-refl, eq_of_==, if◌then◌else◌, List, [], ◌∷◌, ◌++◌, map, retain, any, find,
  contains, Distinct, arith, Option-cases, Bool-cases, inl, inr, find-push, find-push_other,
  any-NoneOf_complete, find-passes,
}
use mathlib.Core.Option as Option
use voxloop.Names.{Text, UserId, SignInToken, Duration}
use voxloop.Configuration.SignIns.{
  to_the_minute, milliseconds, SignIn, is_idle, is_signed_by, open_sign_in, holder_of, end_sign_in,
  note_a_deliberate_act, end_sign_ins_idle_for, end_every_sign_in,
}
use voxloop.Configuration.SignIns.Laws.{
  fingerprints, has, row_of, held_after, find-delete_fingerprint, end_sign_ins_idle_for-holder_of,
}

find-map :
    (f : SignIn → SignIn)
    → ((row : SignIn) → (f row).fingerprint ≡ row.fingerprint)
    → (print : Text) (table : List SignIn)
    → find (has print) (map f table) ≡ Option.map f (find (has print) table)
find-map f same print [] = refl
find-map f same print (row ∷ rest) = elim (Bool-cases (row.fingerprint == print)) [
  | inl own ↦ simp (same row, own)
  | inr other ↦ simp (same row, other, find-map f same print rest)
]

module _ (fingerprint : SignInToken → Text) (token : SignInToken) (at : ℕ) where
  -- One row, as a deliberate act leaves it.
  abbrev noted : SignIn → SignIn
  noted row =
      if is_signed_by fingerprint token row
        && ltb (row.last_active_at + milliseconds to_the_minute) at
      then record row { last_active_at = at }
      else row

  noted-fingerprint : (row : SignIn) → (noted row).fingerprint ≡ row.fingerprint
  noted-fingerprint row = ground arith

  fingerprints-noted : (table : List SignIn) → fingerprints (map noted table) ≡ fingerprints table
  fingerprints-noted [] = refl
  fingerprints-noted (row ∷ rest) = ground (arith, noted-fingerprint row, fingerprints-noted rest)

  find-noted :
      (table : List SignIn)
      → find (has (fingerprint token)) (map noted table)
        ≡ Option.map noted (find (has (fingerprint token)) table)
  find-noted = find-map noted noted-fingerprint (fingerprint token)

  noted-user_id : (row : SignIn) → (noted row).user_id ≡ row.user_id
  noted-user_id row = ground arith

  noted-fresh :
      (row : SignIn)
      → row.fingerprint ≡ fingerprint token
      → at ≤ (noted row).last_active_at + milliseconds to_the_minute
  noted-fresh row e = ground (arith, ==-refl (fingerprint token))

  -- A row that was stamped within a minute is not idle.
  noted-held_after :
      (held : List Text) (window : Duration) (now : ℕ) (row : SignIn)
      → row.fingerprint ≡ fingerprint token
      → now + milliseconds to_the_minute < at + milliseconds window
      → held_after held window now (some (noted row)) ≡ some row.user_id
  noted-held_after held window now row e soon = rw awake (ap some (noted-user_id row))
    where
      awake : is_idle window now (noted row) ≡ false
      awake = awake_at (noted row).last_active_at (noted-fresh row e)
        where
          awake_at :
              (last : ℕ)
              → at ≤ last + milliseconds to_the_minute
              → leb (last + milliseconds window) now ≡ false
          awake_at last fresh = ground arith

-- A deliberate act keeps a sign-in, to the minute: no sweep ends it, whoever it spares, until a
-- minute short of the window has passed since the act.
pub note_a_deliberate_act-holder_of :
    (fingerprint : SignInToken → Text) (token : SignInToken) (user : UserId) (window : Duration)
    (spared : List SignInToken) (at now : ℕ) (table : List SignIn)
    → Distinct (fingerprints table)
    → holder_of fingerprint token table ≡ some user
    → now + milliseconds to_the_minute < at + milliseconds window
    → holder_of fingerprint token
        (end_sign_ins_idle_for fingerprint window spared now
          (note_a_deliberate_act fingerprint token at table)).0
      ≡ some user
unfolding note_a_deliberate_act holder_of
note_a_deliberate_act-holder_of fingerprint token user window spared at now table h held soon =
    let stamped = noted fingerprint token at in
    let distinct = subst Distinct (sym (fingerprints-noted fingerprint token at table)) h in
    let swept =
      end_sign_ins_idle_for-holder_of fingerprint window spared now (map stamped table) token
        distinct in
    elim (Option-cases (row_of fingerprint token table)) [
      | inl nobody ↦ absurd (ground (arith, held, nobody))
      | inr (row, there) ↦
          swept.0
          ∙ ap (held_after (map fingerprint spared) window now)
              (find-noted fingerprint token at table ∙ ap (Option.map stamped) there)
          ∙ noted-held_after fingerprint token at (map fingerprint spared) window now row
              (eq_of_== _ _ (find-passes (has (fingerprint token)) table row there)) soon
          ∙ ground (arith, held, there)
    ]

-- A sign-in that is opened signs in whom it was opened for and nobody else's token otherwise than
-- before, and ending it says whose it was and leaves the token signing nobody in.
pub open_sign_in-holder_of :
    (fingerprint : SignInToken → Text) (token other : SignInToken) (user : UserId) (now : ℕ)
    (table after : List SignIn)
    → open_sign_in fingerprint token user now table ≡ some after
    → fingerprint other ≢ fingerprint token
    → let (ended, answer) = end_sign_in fingerprint token after in
      (holder_of fingerprint token after ≡ some user)
      × (holder_of fingerprint other after ≡ holder_of fingerprint other table)
      × (answer ≡ some user)
      × (holder_of fingerprint token ended ≡ none)
      × (holder_of fingerprint other ended ≡ holder_of fingerprint other table)
unfolding open_sign_in holder_of end_sign_in
open_sign_in-holder_of fingerprint token other user now table after opened apart =
    elim (Bool-cases (any (is_signed_by fingerprint token) table)) [
      | inl taken ↦ absurd (ground (arith, opened, taken))
      | inr free ↦
          let row : SignIn = record {
            fingerprint = fingerprint token;
            user_id = user;
            started_at = now;
            last_active_at = now;
          } in
          let same : table ++ row ∷ [] ≡ after = ground (arith, opened, free) in
          let own : find (has (fingerprint token)) after ≡ some row =
            subst (λ t. find (has (fingerprint token)) t ≡ some row) same
              (find-push (has (fingerprint token)) table row (any-NoneOf_complete _ table free)
                (==-refl (fingerprint token))) in
          let others : find (has (fingerprint other)) after ≡ find (has (fingerprint other)) table =
            subst (λ t. find (has (fingerprint other)) t ≡ find (has (fingerprint other)) table)
              same (find-push_other (has (fingerprint other)) table row (ground (arith, apart))) in
          let distinct : (fingerprint token == fingerprint other) ≡ false = ground (arith, apart) in
          (
            rw own refl,
            rw others refl,
            rw own refl,
            rw
                (
                  find-delete_fingerprint (fingerprint token) (fingerprint token) after,
                  ==-refl (fingerprint token),
                )
                refl,
            rw
                (
                  find-delete_fingerprint (fingerprint other) (fingerprint token) after,
                  distinct,
                  others,
                )
                refl,
          )
    ]

-- Whom a token signs in once a user is signed out everywhere.
abbrev pub unless_is : UserId → Option UserId → Option UserId
unless_is user none = none
unless_is user (some holder) = if holder == user then none else some holder

find-NoneOf_has :
    (print : Text) (p : SignIn → Bool) (table : List SignIn)
    → contains (fingerprints table) print ≡ false
    → find (has print) (retain p table) ≡ none
find-NoneOf_has print p [] h = refl
find-NoneOf_has print p (row ∷ rest) h = ground (arith, find-NoneOf_has print p rest (ground arith))

find-others :
    (user : UserId) (print : Text) (table : List SignIn)
    → Distinct (fingerprints table)
    → Option.map
        (λ row. row.user_id)
        (find (has print) (retain (λ row. not (row.user_id == user)) table))
      ≡ unless_is user (Option.map (λ row. row.user_id) (find (has print) table))
find-others user print [] h = refl
find-others user print (row ∷ rest) h = elim (Bool-cases (row.fingerprint == print)) [
  | inl own ↦
      let gone =
        find-NoneOf_has print (λ r. not (r.user_id == user)) rest
          (subst (λ l. contains (fingerprints rest) l ≡ false) (eq_of_== _ _ own) h.0) in
      elim (Bool-cases (row.user_id == user)) [
        | inl theirs ↦ simp (own, theirs, gone)
        | inr another ↦ simp (own, another)
      ]
  | inr other ↦ elim (Bool-cases (row.user_id == user)) [
    | inl theirs ↦ simp (other, theirs, find-others user print rest h.1)
    | inr another ↦ simp (other, another, find-others user print rest h.1)
  ]
]

-- Signing a user out everywhere leaves none of their tokens signing anybody in, and every other
-- token signing in whom it did.
pub end_every_sign_in-holder_of :
    (fingerprint : SignInToken → Text) (token : SignInToken) (user : UserId) (table : List SignIn)
    → Distinct (fingerprints table)
    → holder_of fingerprint token (end_every_sign_in user table)
      ≡ unless_is user (holder_of fingerprint token table)
unfolding holder_of end_every_sign_in
end_every_sign_in-holder_of fingerprint token user table h =
    find-others user (fingerprint token) table h
