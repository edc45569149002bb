-- ===== src/Configuration/Eligibility.antt =====
-- Which users may assume which roles (src/configuration/eligibility.rs).
pub mod Laws
use voxloop.Prelude.{
  ℕ, Bool, not, ◌&&◌, Option, none, some, ◌==◌, if◌then◌else◌, List, [], ◌∷◌, ◌++◌, map, flat_map,
  retain, any, order_by,
}
use mathlib.Core.Option as Option
use voxloop.Names.{Text, UserId, RoleId}
use voxloop.Configuration.Tables.{User, Role, EligibilityRow, Tables, Change, a_user, a_role}
use voxloop.Configuration.Roles.{is_role, role, by_name}
use voxloop.Configuration.Users.{is_user, user, by_username}

pub record Eligibility : Type 0 where
  pub user : User
  pub for_role : Role

abbrev pub pairs : UserId → RoleId → EligibilityRow → Bool
pairs id for_role row = row.user == id && row.role == for_role

unfoldable pub is_eligible : Tables → UserId → RoleId → Bool
is_eligible t id for_role = any (pairs id for_role) t.eligibility

-- The two records that the pair names, whether or not the grant between them is held.
unfoldable pub the_pair : Tables → UserId → RoleId → Option Eligibility
the_pair t id for_role = elim (user t id) [
  | none ↦ none
  | some u ↦ Option.map (λ r. record { user = u; for_role = r }) (role t for_role)
]

unfoldable pub an_eligibility : Tables → UserId → RoleId → Option Eligibility
unfolding is_eligible the_pair
an_eligibility t id for_role = if is_eligible t id for_role then the_pair t id for_role else none

-- `ON CONFLICT (user_id, role_id) DO NOTHING`.
abbrev pub with_grant : UserId → RoleId → ℕ → Tables → Tables
with_grant id for_role now t = record t {
  eligibility =
      if any (pairs id for_role) t.eligibility
      then t.eligibility
      else t.eligibility ++ record { user = id; role = for_role; granted_at = now } ∷ [];
}

unfoldable pub grant_eligibility : UserId → RoleId → ℕ → Tables → Tables × Option Eligibility
unfolding the_pair
grant_eligibility id for_role now t = elim (the_pair t id for_role) [
  | none ↦ (t, none)
  | some _ ↦ let next = with_grant id for_role now t in (next, an_eligibility next id for_role)
]

unfoldable pub revoke_eligibility : UserId → RoleId → Tables → Tables × Option (Change Eligibility)
unfolding an_eligibility
revoke_eligibility id for_role t = elim (an_eligibility t id for_role) [
  | none ↦ (t, none)
  | some before ↦ (
    record t { eligibility = retain (λ row. not (pairs id for_role row)) t.eligibility },
    some (record { before = before; after = none }),
  )
]

module _ (collate : Text → ℕ) where
  -- The join of the grants with the users, in the order of their names.
  unfoldable pub the_users_eligible_for : Tables → RoleId → Option (Role × List User)
  unfolding flat_map role
  the_users_eligible_for t for_role =
      Option.map
        (λ found. (
          found,
          map a_user (
              order_by (by_username collate) (
                flat_map (λ grant. retain (is_user grant.user) t.users)
                  (retain (λ grant. grant.role == found.id) t.eligibility))),
        ))
        (role t for_role)

  unfoldable pub the_roles_open_to : Tables → UserId → Option (User × List Role)
  unfolding flat_map user
  the_roles_open_to t id =
      Option.map
        (λ found. (
          found,
          map a_role (
              order_by (by_name collate) (
                flat_map (λ grant. retain (is_role grant.role) t.roles)
                  (retain (λ grant. grant.user == found.id) t.eligibility))),
        ))
        (user t id)
