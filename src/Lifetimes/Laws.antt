-- ===== src/Lifetimes/Laws.antt =====
-- Whom the sweep spares, and whom it ends (src/lifetimes.rs).
use voxloop.Prelude.{
  ℕ, ◌≡◌, refl, sym, ap, ◌∙◌, Bool, true, Option, none, some, ◌==◌, ==-refl, List, [], ◌∷◌, ◌++◌,
  map, find, contains, retain, subst, find-passes, eq_of_==, Distinct, arith, Option-cases,
  Bool-cases, inl, inr,
}
use mathlib.Core.Option as Option
use voxloop.Names.{Text, UserId, SignInToken, Duration}
use voxloop.Configuration.SignIns.{SignIn, is_idle, holder_of}
use voxloop.Configuration.SignIns.Laws.{
  fingerprints, has, row_of, held_after, is_abandoned, end_sign_ins_idle_for-holder_of,
}
use voxloop.State.Live.{Live}
use voxloop.State.Seats.{sign_ins_holding_a_session}
use voxloop.Lifetimes.{Durable, end_abandoned_sign_ins, expired}

contains-map :
    (f : SignInToken → Text) (xs : List SignInToken) (t : SignInToken)
    → contains xs t ≡ true
    → contains (map f xs) (f t) ≡ true
contains-map f [] t h = absurd (cc)
contains-map f (x ∷ xs) t h = elim (Bool-cases (x == t)) [
  | inl same ↦ rw (ap f (eq_of_== x t same), ==-refl (f t)) refl
  | inr other ↦ ground (arith, contains-map f xs t (ground arith))
]

spared-held_after :
    (held : List Text) (window : Duration) (now : ℕ) (row : SignIn)
    → contains held row.fingerprint ≡ true
    → held_after held window now (some row) ≡ some row.user_id
spared-held_after held window now row h = rw h (ground arith)

-- Whoever sits in a role is not signed out: a sign-in that holds a session signs in whom it did
-- before the sweep, however long ago the last deliberate act was.
pub end_abandoned_sign_ins-holder_of :
    (fingerprint : SignInToken → Text) (username : UserId → Option Text) (live : Live)
    (window : Duration) (now : ℕ) (durable : Durable) (token : SignInToken)
    → Distinct (fingerprints durable.sign_ins)
    → contains (sign_ins_holding_a_session live) token ≡ true
    → holder_of fingerprint token
        (end_abandoned_sign_ins fingerprint username live window now durable).sign_ins
      ≡ holder_of fingerprint token durable.sign_ins
unfolding end_abandoned_sign_ins holder_of
end_abandoned_sign_ins-holder_of fingerprint username live window now durable token h sits =
    let swept =
      end_sign_ins_idle_for-holder_of fingerprint window (sign_ins_holding_a_session live) now
        durable.sign_ins token h in
    let held = map fingerprint (sign_ins_holding_a_session live) in
    elim (Option-cases (row_of fingerprint token durable.sign_ins)) [
      | inl nobody ↦
          swept.0
          ∙ ap (held_after held window now) nobody
          ∙ sym (ap (Option.map (λ row. row.user_id)) nobody)
      | inr (row, there) ↦
          swept.0
          ∙ ap (held_after held window now) there
          ∙ spared-held_after held window now row (
              subst (λ print. contains held print ≡ true)
                (sym
                  (eq_of_== _ _ (find-passes (has (fingerprint token)) durable.sign_ins row there)))
                (contains-map fingerprint (sign_ins_holding_a_session live) token sits))
          ∙ sym (ap (Option.map (λ row. row.user_id)) there)
    ]

contains-kept :
    (p q r : SignIn → Bool) (xs : List SignIn) (row : SignIn)
    → find p xs ≡ some row
    → q row ≡ true
    → r row ≡ true
    → contains (map (λ x. x.user_id) (retain r (retain q xs))) row.user_id ≡ true
contains-kept p q r [] row there idle alone = absurd (cc)
contains-kept p q r (x ∷ xs) row there idle alone = elim (Bool-cases (p x)) [
  | inl found ↦
      let same : row ≡ x = ground (arith, there, found) in
      simp (ap q (sym same) ∙ idle, ap r (sym same) ∙ alone, same, ==-refl x.user_id)
  | inr other ↦
      let rest = contains-kept p q r xs row (ground (arith, there, other)) idle alone in
      elim (Bool-cases (q x)) [
        | inr awake ↦ rw awake rest
        | inl at_rest ↦ elim (Bool-cases (r x)) [
          | inr spared ↦ rw (at_rest, spared) rest
          | inl left ↦ rw (at_rest, left) (ground (arith, rest))
        ]
      ]
]

-- A sign-in in the lobby that has been idle for the window is ended, and the log says so of its
-- holder: no session's sign-in bears its fingerprint, its token signs nobody in after the sweep, and
-- an entry for its user is added to a log that keeps every entry.
pub end_abandoned_sign_ins-expired :
    (fingerprint : SignInToken → Text) (username : UserId → Option Text) (live : Live)
    (window : Duration) (now : ℕ) (durable : Durable) (token : SignInToken) (row : SignIn)
    → Distinct (fingerprints durable.sign_ins)
    → row_of fingerprint token durable.sign_ins ≡ some row
    → is_abandoned (map fingerprint (sign_ins_holding_a_session live)) window now row ≡ true
    → let after = end_abandoned_sign_ins fingerprint username live window now durable in
      (holder_of fingerprint token after.sign_ins ≡ none)
      × (ended : List UserId) × (after.log ≡ durable.log ++ map (expired username) ended)
      × (contains ended row.user_id ≡ true)
unfolding end_abandoned_sign_ins
end_abandoned_sign_ins-expired fingerprint username live window now durable token row h there gone =
    let held = map fingerprint (sign_ins_holding_a_session live) in
    let swept =
      end_sign_ins_idle_for-holder_of fingerprint window (sign_ins_holding_a_session live) now
        durable.sign_ins token h in
    (
      swept.0 ∙ ap (held_after held window now) there ∙ rw gone refl,
      _,
      refl,
      subst (λ ended. contains ended row.user_id ≡ true) (sym swept.1)
          (contains-kept (has (fingerprint token)) (is_idle window now) _ durable.sign_ins row there
            (ground (arith, gone)) (ground (arith, gone))),
    )
