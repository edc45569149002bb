-- ===== src/Authorisation/Reads.antt =====
-- What a read of the store found, where the answer is a user (src/authorisation.rs).
use voxloop.Prelude.{◌≡◌, ◌≢◌, true, refl, Bool, true, Option, none, some, arith, subst}
use voxloop.Names.{SessionId, LoopId, RoleId, SignInToken, UserId}
use voxloop.Configuration.Permission.{Permission, carries}
use voxloop.State.Live.{Live}
use voxloop.State.Seats.{is_held_by}
use voxloop.Authorisation.{
  Answer, ok, unavailable, ◌>>=◌, User, Directory, Requirement, public, signed_in, session,
  system_administration, service_token, grid, Presented, nobody, user, Outcome, permitted, refused,
  acting_role_of, user_if_held, permit_if, permit_rung, read_permission, held_through,
  whoever_holds, own_session, require_session, require_signed_in, require_rung, require,
}

-- What a successful read of the caller found.
pub resolved :
    (store : Directory) (read : Answer (Option UserId)) (u : User)
    → (read >>= user_if_held store) ≡ ok (some u)
    → (id : UserId) × (read ≡ ok (some id)) × (store.user id ≡ ok (some u))
resolved store unavailable u h = absurd (cc)
resolved store (ok none) u h = absurd (cc)
resolved store (ok (some id)) u h = (id, refl, h)

pub signed_in_by :
    (begun rolled_back : Answer (Unit {0})) (read : Answer (Option User))
    (token as_token : SignInToken) (holds : User → Bool) (id : UserId)
    → (begun >>= λ _. rolled_back >>= λ _. read >>= λ found. ok (permit_if token holds found))
      ≡ ok (permitted (user id as_token))
    → (u : User) × (read ≡ ok (some u)) × (holds u ≡ true) × (u.id ≡ id) × (as_token ≡ token)
signed_in_by unavailable r read token as_token holds id h = absurd (cc)
signed_in_by (ok _) unavailable read token as_token holds id h = absurd (cc)
signed_in_by (ok _) (ok _) unavailable token as_token holds id h = absurd (cc)
signed_in_by (ok _) (ok _) (ok none) token as_token holds id h = absurd (cc)
signed_in_by (ok _) (ok _) (ok (some u)) token as_token holds id h =
    (u, refl, ground arith, ground arith, ground arith)

pub rung_by :
    (begun rolled_back : Answer (Unit {0})) (read : Answer (Option (User × Permission)))
    (token as_token : SignInToken) (rung : Permission) (id : UserId)
    → (begun >>= λ _. rolled_back >>= λ _. read >>= λ found. ok (permit_rung token rung found))
      ≡ ok (permitted (user id as_token))
    → (u : User) × (held : Permission) × (read ≡ ok (some (u, held)))
      × (carries held rung ≡ true)
      × (u.id ≡ id)
      × (as_token ≡ token)
rung_by unavailable r read token as_token rung id h = absurd (cc)
rung_by (ok _) unavailable read token as_token rung id h = absurd (cc)
rung_by (ok _) (ok _) unavailable token as_token rung id h = absurd (cc)
rung_by (ok _) (ok _) (ok none) token as_token rung id h = absurd (cc)
rung_by (ok _) (ok _) (ok (some (u, held))) token as_token rung id h =
    (u, held, refl, ground arith, ground arith, ground arith)

held_through_lem :
    (P : UserId → Type 0) (store : Directory) (on : LoopId) (role : RoleId) {v u : User}
    {held : Permission} (read : Answer Permission)
    → store.held_by role on ≡ read
    → P v.id
    → let answer : Permission → Answer (Option (User × Permission)) =
        λ found. ok (some (v, found)) in
      (read >>= answer) ≡ ok (some (u, held))
      → (ok (some v) ≡ ok (some u)) × P u.id × (store.held_by role on ≡ ok held)
held_through_lem P store on role unavailable e q k = absurd (cc)
held_through_lem P store on role {v} {u} {held} (ok found) e q k =
    let same : v ≡ u = cc in (cc, subst (λ w. P w.id) same q, cc)

-- A permission that was read is one that the acting role holds.
pub permission_through :
    (store : Directory) (live : Live) (p : Presented) (on : LoopId) (read : Answer (Option User))
    (u : User) (held : Permission)
    → (read >>= read_permission store live p on) ≡ ok (some (u, held))
    → (role : RoleId) × (read ≡ ok (some u))
      × (acting_role_of live p u.id ≡ some role)
      × (store.held_by role on ≡ ok held)
permission_through store live p on unavailable u held h = absurd (cc)
permission_through store live p on (ok none) u held h = absurd (cc)
permission_through store live p on (ok (some v)) u held h =
    through (acting_role_of live p v.id) refl h
  where
    through :
        (acting : Option RoleId)
        → acting_role_of live p v.id ≡ acting
        → held_through store on v acting ≡ ok (some (u, held))
        → (role : RoleId) × (ok (some v) ≡ ok (some u))
          × (acting_role_of live p u.id ≡ some role)
          × (store.held_by role on ≡ ok held)
    through none e k = absurd (cc)
    through (some role) e k =
        let r =
          held_through_lem (λ id. acting_role_of live p id ≡ some role) store on role
            (store.held_by role on) refl e k in
        (role, r.0, r.1, r.2)

pub own_session_by :
    (live : Live) {id : UserId} {token : SignInToken} (outcome : Answer Outcome) (held : SessionId)
    → (outcome >>= λ o. ok (own_session live held o)) ≡ ok (permitted (user id token))
    → (outcome ≡ ok (permitted (user id token))) × (is_held_by live held id ≡ true)
own_session_by live unavailable held h = absurd (cc)
own_session_by live (ok refused) held h = absurd (cc)
own_session_by live (ok (permitted nobody)) held h = absurd (cc)
own_session_by live (ok (permitted (user i t))) held h = ground arith

-- A read of the caller permits nobody without a name.
anonymous :
    (begun rolled_back : Answer (Unit {0})) (read : Answer (Option User)) (token : SignInToken)
    (holds : User → Bool)
    → (begun >>= λ _. rolled_back >>= λ _. read >>= λ found. ok (permit_if token holds found))
      ≢ ok (permitted nobody)
anonymous unavailable r read token holds h = cc
anonymous (ok _) unavailable read token holds h = cc
anonymous (ok _) (ok _) unavailable token holds h = cc
anonymous (ok _) (ok _) (ok none) token holds h = cc
anonymous (ok _) (ok _) (ok (some u)) token holds h = ground arith

anonymous_signed_in :
    (store : Directory) (presented : Option SignInToken) (holds : User → Bool)
    → require_signed_in store presented holds ≢ ok (permitted nobody)
unfolding require_signed_in
anonymous_signed_in store none holds h = cc
anonymous_signed_in store (some token) holds h =
    anonymous store.begin store.roll_back (whoever_holds store token) token holds h

anonymous_rung :
    (begun rolled_back : Answer (Unit {0})) (read : Answer (Option (User × Permission)))
    (token : SignInToken) (rung : Permission)
    → (begun >>= λ _. rolled_back >>= λ _. read >>= λ found. ok (permit_rung token rung found))
      ≢ ok (permitted nobody)
anonymous_rung unavailable r read token rung h = cc
anonymous_rung (ok _) unavailable read token rung h = cc
anonymous_rung (ok _) (ok _) unavailable token rung h = cc
anonymous_rung (ok _) (ok _) (ok none) token rung h = cc
anonymous_rung (ok _) (ok _) (ok (some (u, held))) token rung h = ground arith

anonymous_session :
    (live : Live) (outcome : Answer Outcome) (held : SessionId)
    → (outcome >>= λ o. ok (own_session live held o)) ≢ ok (permitted nobody)
anonymous_session live unavailable held h = cc
anonymous_session live (ok refused) held h = cc
anonymous_session live (ok (permitted nobody)) held h = cc
anonymous_session live (ok (permitted (user i t))) held h = ground arith

-- Only a public operation permits without a name.
pub require-nobody :
    (store : Directory) (requirement : Requirement) (p : Presented) (live : Live)
    → require store requirement p live ≡ ok (permitted nobody)
    → requirement ≡ public
unfolding require_rung
require-nobody store public p live h = refl
require-nobody store service_token p live h = absurd (cc)
require-nobody store signed_in p live h = absurd (anonymous_signed_in store p.sign_in _ h)
require-nobody store system_administration p live h =
    absurd (anonymous_signed_in store p.sign_in _ h)
require-nobody store session p live h = by_session p.session h
  where
    by_session :
        (claimed : Option SessionId)
        → require_session store live p claimed ≡ ok (permitted nobody)
        → session ≡ public
    by_session none k = absurd (cc)
    by_session (some held) k =
        absurd (anonymous_session live (require_signed_in store p.sign_in (λ u. true)) held k)
require-nobody store (grid rung on) p live h = by_rung p.sign_in h
  where
    by_rung :
        (presented : Option SignInToken)
        → require_rung store live p rung on presented ≡ ok (permitted nobody)
        → grid rung on ≡ public
    by_rung none k = absurd (cc)
    by_rung (some token) k = absurd (anonymous_rung store.begin store.roll_back _ token rung k)
