-- ===== src/Authorisation.antt =====
-- Whether a caller may perform an operation (src/authorisation.rs). What the evaluator reads of
-- Configuration is the interface `Directory`; the state authority's live state is the model's own.
pub mod Entitlement
pub mod Reads
pub mod Laws
use voxloop.Prelude.{Bool, true, false, not, ◌&&◌, Option, none, some, is_some, if◌then◌else◌}
use voxloop.Names.{Text, SessionId, LoopId, RoleId, UserId, SignInToken}
use voxloop.Configuration.Permission.{Permission, carries}
pub use voxloop.Configuration.Tables.{User}
use voxloop.State.Live.{Live}
use voxloop.State.Seats.{is_held_by, the_role_of}

-- `Result<_, StoreError>`.
pub data Answer {ℓ} (A : Type ℓ) : Type ℓ where
  ok : A → Answer A
  unavailable : Answer A

infixl 5 ◌>>=◌ ◌>>◌
abbrev pub ◌>>=◌ {ℓ κ} : {A : Type ℓ} {B : Type κ} → Answer A → (A → Answer B) → Answer B
ok a >>= f = f a
unavailable >>= f = unavailable

abbrev pub ◌>>◌ {ℓ} : {B : Type ℓ} → Answer (Unit {0}) → Answer B → Answer B
m >> k = m >>= λ _. k

-- What one transaction on the store answers: it is begun, read and rolled back.
pub record Directory : Type 0 where
  pub begin : Answer (Unit {0})
  pub roll_back : Answer (Unit {0})
  pub holder_of : SignInToken → Answer (Option UserId)
  pub user : UserId → Answer (Option User)
  pub held_by : RoleId → LoopId → Answer Permission

pub data Requirement : Type 0 where
  public signed_in session system_administration service_token : Requirement
  grid : Permission → LoopId → Requirement

pub record Presented : Type 0 where
  pub sign_in : Option SignInToken
  pub service_token : Option Text
  pub session : Option SessionId
  pub acting_role : Option RoleId

pub data Caller : Type 0 where
  nobody : Caller
  user : UserId → SignInToken → Caller

pub data Outcome : Type 0 where
  permitted : Caller → Outcome
  refused : Outcome

abbrev pub mixes_credentials : Presented → Bool
mixes_credentials p = is_some p.sign_in && is_some p.service_token

-- A user who passes the test is permitted.
abbrev pub permit_if : SignInToken → (User → Bool) → Option User → Outcome
permit_if token holds none = refused
permit_if token holds (some u) = if holds u then permitted (user u.id token) else refused

-- The acting role: what was handed over, or else the role of the caller's own session.
abbrev pub acting_role_of : Live → Presented → UserId → Option RoleId
acting_role_of live p id = elim p.acting_role [
  | some role ↦ some role
  | none ↦ elim p.session [
    | none ↦ none
    | some held ↦ if is_held_by live held id then the_role_of live held else none
  ]
]

abbrev pub permit_rung : SignInToken → Permission → Option (User × Permission) → Outcome
permit_rung token rung none = refused
permit_rung token rung (some (u, held)) =
    if carries held rung then permitted (user u.id token) else refused

-- A permitted caller keeps the session requirement only if the session is theirs.
abbrev pub own_session : Live → SessionId → Outcome → Outcome
own_session live held (permitted (user id token)) =
    if is_held_by live held id then permitted (user id token) else refused
own_session live held _ = refused

module _ (store : Directory) where
  abbrev pub user_if_held : Option UserId → Answer (Option User)
  user_if_held none = ok none
  user_if_held (some id) = store.user id

  abbrev pub whoever_holds : SignInToken → Answer (Option User)
  whoever_holds token = store.holder_of token >>= user_if_held

  -- The transaction is rolled back before the read's own failure is passed on.
  unfoldable pub require_signed_in : Option SignInToken → (User → Bool) → Answer Outcome
  require_signed_in none holds = ok refused
  require_signed_in (some token) holds = do
    store.begin
    let resolved = whoever_holds token
    store.roll_back
    found ← resolved
    ok (permit_if token holds found)

  abbrev pub held_through : LoopId → User → Option RoleId → Answer (Option (User × Permission))
  held_through on u none = ok none
  held_through on u (some role) = store.held_by role on >>= λ held. ok (some (u, held))

  abbrev pub read_permission :
      Live → Presented → LoopId → Option User → Answer (Option (User × Permission))
  read_permission live p on none = ok none
  read_permission live p on (some u) = held_through on u (acting_role_of live p u.id)

  unfoldable pub require_rung :
      Live → Presented → Permission → LoopId → Option SignInToken → Answer Outcome
  require_rung live p rung on none = ok refused
  require_rung live p rung on (some token) = do
    store.begin
    let read = whoever_holds token >>= read_permission live p on
    store.roll_back
    found ← read
    ok (permit_rung token rung found)

  abbrev pub require_session : Live → Presented → Option SessionId → Answer Outcome
  require_session live p none = ok refused
  require_session live p (some held) =
      require_signed_in p.sign_in (λ u. true) >>= λ outcome. ok (own_session live held outcome)

  abbrev pub require : Requirement → Presented → Live → Answer Outcome
  require public p live = ok (permitted nobody)
  require signed_in p live = require_signed_in p.sign_in (λ u. true)
  require system_administration p live =
      require_signed_in p.sign_in (λ u. u.is_system_administrator && not u.is_locked)
  require session p live = require_session live p p.session
  require (grid rung on) p live = require_rung live p rung on p.sign_in
  require service_token p live = ok refused

  -- `evaluate`.
  unfoldable pub evaluate : Requirement → Presented → Live → Answer Outcome
  evaluate requirement p live =
      if mixes_credentials p then ok refused else require requirement p live
