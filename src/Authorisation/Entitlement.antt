-- ===== src/Authorisation/Entitlement.antt =====
-- What entitles a caller, apart from how the evaluator finds it (src/authorisation.rs).
use voxloop.Prelude.{
  ◌≡◌, refl, true, false, none, some, arith, Option-cases, Bool-cases, ◌⊎◌, inl, inr,
}
use voxloop.Names.{SessionId, RoleId, SignInToken, UserId}
use voxloop.Configuration.Permission.{Permission, carries}
use voxloop.State.Live.{Live}
use voxloop.State.Seats.{is_held_by, the_role_of}
use voxloop.Authorisation.{
  ok, User, Directory, Requirement, public, signed_in, session, system_administration,
  service_token, grid, Presented, acting_role_of,
}

-- The role that a user acts in: the one that was handed over, or else that of their own session.
abbrev pub ActsIn : Live → Presented → UserId → RoleId → Type 0
ActsIn live p id role =
    (p.acting_role ≡ some role)
    ⊎ ((p.acting_role ≡ none)
        × (held : SessionId) × (p.session ≡ some held)
        × (is_held_by live held id ≡ true)
        × (the_role_of live held ≡ some role))

pub acting_role_of-ActsIn :
    (live : Live) (p : Presented) (id : UserId) (role : RoleId)
    → acting_role_of live p id ≡ some role
    → ActsIn live p id role
acting_role_of-ActsIn live p id role h = elim (Option-cases p.acting_role) [
  | inr (r, handed) ↦ inl (ground (arith, h, handed))
  | inl none_handed ↦ elim (Option-cases p.session) [
    | inl none_held ↦ absurd (ground (arith, h, none_handed, none_held))
    | inr (held, of_session) ↦ elim (Bool-cases (is_held_by live held id)) [
      | inl own ↦
          inr (none_handed, held, of_session, own, ground (arith, h, none_handed, of_session, own))
      | inr other ↦ absurd (ground (arith, h, none_handed, of_session, other))
    ]
  ]
]

pub acting_role_of_lem :
    (live : Live) (p : Presented) (id : UserId) (role : RoleId)
    → ActsIn live p id role
    → acting_role_of live p id ≡ some role
acting_role_of_lem live p id role (inl handed) = rw handed refl
acting_role_of_lem live p id role (inr (none_handed, held, of_session, own, there)) =
    rw (none_handed, of_session, own) there

module _ (store : Directory) (live : Live) where
  -- What a requirement asks of a signed-in user, beyond being signed in.
  abbrev pub Holds : Requirement → Presented → User → Type 0
  Holds public p u = ⊥
  Holds service_token p u = ⊥
  Holds signed_in p u = Unit
  Holds system_administration p u = (u.is_system_administrator ≡ true) × (u.is_locked ≡ false)
  Holds session p u =
      (held : SessionId) × (p.session ≡ some held) × (is_held_by live held u.id ≡ true)
  Holds (grid rung on) p u =
      (role : RoleId) × (held : Permission) × ActsIn live p u.id role
      × (store.held_by role on ≡ ok held)
      × (carries held rung ≡ true)

  -- The user whom a sign-in presents.
  abbrev pub SignsIn : Presented → SignInToken → User → Type 0
  SignsIn p token u =
      (p.sign_in ≡ some token)
      × (p.service_token ≡ none)
      × (id : UserId) × (store.holder_of token ≡ ok (some id))
      × (store.user id ≡ ok (some u))

  -- A user who is permitted, with what permits them.
  abbrev pub IsEntitled : Presented → UserId → SignInToken → Requirement → Type 0
  IsEntitled p id token requirement =
      (u : User) × SignsIn p token u × (u.id ≡ id) × Holds requirement p u
