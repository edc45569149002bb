-- ===== src/Authorisation/Laws.antt =====
-- Whom the evaluator permits, and under which name (src/authorisation.rs).
use voxloop.Prelude.{
  Bool-cases, false, ◌↔◌, ◌≡◌, ◌≢◌, refl, sym, Bool, true, Option, none, some, arith, Option-cases,
  inl, inr, subst,
}
use voxloop.Names.{SessionId, LoopId, SignInToken, UserId}
use voxloop.Configuration.Permission.{Permission}
use voxloop.State.Live.{Live}
use voxloop.State.Seats.{is_held_by}
use voxloop.Authorisation.{
  mixes_credentials, nobody, ok, User, Directory, Requirement, public, signed_in, session,
  system_administration, service_token, grid, Presented, user, permitted, refused, whoever_holds,
  require_session, require_signed_in, require_rung, require, evaluate,
}
use voxloop.Authorisation.Entitlement.{
  SignsIn, Holds, IsEntitled, acting_role_of-ActsIn, acting_role_of_lem,
}
use voxloop.Authorisation.Reads.{
  require-nobody, resolved, signed_in_by, rung_by, permission_through, own_session_by,
}

module _ (store : Directory) (live : Live) (p : Presented) (id : UserId) (token : SignInToken) where
  IsEntitled-by_sign_in :
      (presented : Option SignInToken) (holds : User → Bool)
      → p.sign_in ≡ presented
      → p.service_token ≡ none
      → require_signed_in store presented holds ≡ ok (permitted (user id token))
      → (u : User) × SignsIn store live p token u × (u.id ≡ id) × (holds u ≡ true)
  unfolding require_signed_in
  IsEntitled-by_sign_in none holds e alone h = absurd (cc)
  IsEntitled-by_sign_in (some t) holds e alone h =
      let (u, read, passes, named, same) =
        signed_in_by store.begin store.roll_back _ t token holds id h in
      let (holder, held, found) = resolved store (store.holder_of t) u read in
      (
        u,
        (
          cc,
          alone,
          holder,
          subst (λ k. store.holder_of k ≡ ok (some holder)) (sym same) held,
          found,
        ),
        named,
        passes,
      )

  IsEntitled-by_session :
      (claimed : Option SessionId)
      → p.session ≡ claimed
      → p.service_token ≡ none
      → require_session store live p claimed ≡ ok (permitted (user id token))
      → IsEntitled store live p id token session
  IsEntitled-by_session none e alone h = absurd (cc)
  IsEntitled-by_session (some held) e alone h =
      let (signed, owns) =
        own_session_by live (require_signed_in store p.sign_in (λ u. true)) held h in
      let (u, signs, named, _) = IsEntitled-by_sign_in p.sign_in (λ u. true) refl alone signed in
      (u, signs, named, (held, e, subst (λ k. is_held_by live held k ≡ true) (sym named) owns))

  IsEntitled-by_rung :
      (rung : Permission) (on : LoopId) (presented : Option SignInToken)
      → p.sign_in ≡ presented
      → p.service_token ≡ none
      → require_rung store live p rung on presented ≡ ok (permitted (user id token))
      → IsEntitled store live p id token (grid rung on)
  unfolding require_rung
  IsEntitled-by_rung rung on none e alone h = absurd (cc)
  IsEntitled-by_rung rung on (some t) e alone h =
      let (u, held, read, carried, named, same) =
        rung_by store.begin store.roll_back _ t token rung id h in
      let (role, who, acting, holds) =
        permission_through store live p on (whoever_holds store t) u held read in
      let (holder, by, found) = resolved store (store.holder_of t) u who in
      (
        u,
        (cc, alone, holder, subst (λ k. store.holder_of k ≡ ok (some holder)) (sym same) by, found),
        named,
        (role, held, acting_role_of-ActsIn live p u.id role acting, holds, carried),
      )

  unentitled :
      (requirement : Requirement)
      → p.sign_in ≡ none
      → require store requirement p live ≢ ok (permitted (user id token))
  unfolding require_signed_in require_rung
  unentitled public e h = cc
  unentitled service_token e h = cc
  unentitled signed_in e h = ground arith
  unentitled system_administration e h = ground arith
  unentitled session e h = ground arith
  unentitled (grid rung on) e h = ground arith

  entitled :
      (requirement : Requirement)
      → p.service_token ≡ none
      → require store requirement p live ≡ ok (permitted (user id token))
      → IsEntitled store live p id token requirement
  entitled public alone h = absurd (cc)
  entitled service_token alone h = absurd (cc)
  entitled signed_in alone h =
      let (u, signs, named, _) = IsEntitled-by_sign_in p.sign_in (λ u. true) refl alone h in
      (u, signs, named, tt)
  entitled system_administration alone h =
      let (u, signs, named, holds) = IsEntitled-by_sign_in p.sign_in _ refl alone h in
      (u, signs, named, (ground arith, ground arith))
  entitled session alone h = IsEntitled-by_session p.session refl alone h
  entitled (grid rung on) alone h = IsEntitled-by_rung rung on p.sign_in refl alone h

-- Nobody is permitted as a user whom the rules do not entitle. A permitted user presented a sign-in
-- and no service token, the sign-in is theirs, and they meet what the requirement asks: a session
-- requirement their own session, system administration the flag and no lock, a rung a role of
-- theirs that holds it on the loop, which is the role that was handed over or else that of their own
-- session. A public or a service operation permits nobody by name.
pub evaluate-permitted :
    (store : Directory) (requirement : Requirement) (p : Presented) (live : Live) (id : UserId)
    (token : SignInToken)
    → evaluate store requirement p live ≡ ok (permitted (user id token))
    → IsEntitled store live p id token requirement
unfolding evaluate
evaluate-permitted store requirement p live id token h = elim (Option-cases p.service_token) [
  | inl alone ↦ entitled store live p id token requirement alone (ground (arith, h))
  | inr (t, given) ↦ elim (Option-cases p.sign_in) [
    | inl unsigned ↦
        absurd (unentitled store live p id token requirement unsigned (ground (arith, h)))
    | inr (s, signed) ↦ absurd (ground (arith, h, given, signed))
  ]
]

-- Whoever the rules entitle is permitted: where the store answers, a caller with a sign-in of theirs,
-- no service token and what the requirement asks is let through under their own name.
pub evaluate-entitled :
    (store : Directory) (requirement : Requirement) (p : Presented) (live : Live) (u : User)
    (token : SignInToken)
    → store.begin ≡ ok tt
    → store.roll_back ≡ ok tt
    → SignsIn store live p token u
    → Holds store live requirement p u
    → evaluate store requirement p live ≡ ok (permitted (user u.id token))
unfolding evaluate require_signed_in require_rung
evaluate-entitled store public p live u token begun back signs holds = absurd holds
evaluate-entitled store service_token p live u token begun back signs holds = absurd holds
evaluate-entitled store signed_in p live u token begun back (a, b, i, c, d) holds = ground arith
evaluate-entitled store system_administration p live u token begun back (a, b, i, c, d) holds =
    ground arith
evaluate-entitled store session p live u token begun back (a, b, i, c, d) (held, e, f) =
    ground arith
evaluate-entitled store (grid rung on) p live u token begun back (a, b, i, c, d)
      (role, held, e, f, g) =
    rw (b, a, begun, back, c, d, acting_role_of_lem live p u.id role e, f, g) refl

-- Nobody is let through without a name but on a public operation, where no two credentials are
-- presented at once: there everybody is, and two credentials at once are refused whatever is asked.
pub evaluate-nobody :
    (store : Directory) (requirement : Requirement) (p : Presented) (live : Live)
    → ((evaluate store requirement p live ≡ ok (permitted nobody))
        ↔ ((requirement ≡ public) × (mixes_credentials p ≡ false)))
      × (mixes_credentials p ≡ true → evaluate store requirement p live ≡ ok refused)
unfolding evaluate
evaluate-nobody store requirement p live = elim (Bool-cases (mixes_credentials p)) [
  | inl mixed ↦ rw (mixed, evaluate) ((λ h. absurd (cc), λ h. absurd (cc)), λ h. refl)
  | inr alone ↦
      rw (alone, evaluate)
        (
          (λ h. (require-nobody store requirement p live h, refl), λ h. public_lem (h.0)),
          λ h. absurd (cc),
        )
]
  where
    public_lem : requirement ≡ public → require store requirement p live ≡ ok (permitted nobody)
    public_lem h = rw h refl
