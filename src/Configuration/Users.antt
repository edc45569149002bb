-- ===== src/Configuration/Users.antt =====
-- Users, and what an administrator does to one (src/configuration/users.rs). `collate` is the
-- store's order of names without regard to case.
pub mod Last
pub mod Keeping
pub mod Access
pub mod History
use voxloop.Prelude.{
  ℕ, Bool, true, false, not, ◌&&◌, ◌||◌, Option, none, some, is_some, ltb, leb, ◌==◌, if◌then◌else◌,
  List, [], ◌∷◌, ◌++◌, map, retain, any, find, count, update_where, order_by,
}
use mathlib.Core.Option as Option
use voxloop.Names.{Text, UserId, RoleId}
use voxloop.Configuration.Tables.{
  User, UserRow, EligibilityRow, Tables, Change, Ruling, done, refused, name_taken, the_username,
  last_system_administrator, a_user,
}
use voxloop.Configuration.SignIns.{end_every_sign_in}

pub record NewUser : Type 0 where
  pub username : Text
  pub password_hash : Option Text
  pub is_system_administrator : Bool

pub record StoredPassword : Type 0 where
  pub user : UserId
  pub hash : Text

abbrev pub is_user : UserId → UserRow → Bool
is_user id row = row.id == id

unfoldable pub user : Tables → UserId → Option User
user t id = Option.map a_user (find (is_user id) t.users)

abbrev pub update_user : UserId → (UserRow → UserRow) → Tables → Tables
update_user id f t = record t { users = update_where (is_user id) f t.users }

-- The record as it stood, and as it stands now.
abbrev pub changed : User → UserId → Tables → Change User
changed before id after = record { before = before; after = user after id }

-- `SELECT id .. WHERE is_system_administrator = 1 LIMIT 2`.
abbrev pub two_of : List UserId → List UserId
two_of (a ∷ b ∷ _) = a ∷ b ∷ []
two_of few = few

abbrev pub is_just : UserId → List UserId → Bool
is_just id (a ∷ []) = a == id
is_just id _ = false

unfoldable pub is_the_last_administrator : Tables → UserId → Bool
is_the_last_administrator t id =
    is_just id (two_of (map (λ row. row.id) (retain (λ row. row.is_system_administrator) t.users)))

unfoldable pub a_system_administrator_exists : Tables → Bool
a_system_administrator_exists t = ltb 0 (count (λ row. row.is_system_administrator) t.users)

unfoldable pub set_system_administration :
    UserId → Bool → Tables → Tables × Ruling (Option (Change User))
set_system_administration id held t = elim (user t id) [
  | none ↦ (t, done none)
  | some before ↦
      let next = update_user id (λ row. record row { is_system_administrator = held }) t in
      if not held && is_the_last_administrator t id
      then (t, refused last_system_administrator)
      else (next, done (some (changed before id next)))
]

-- Every session that the user is signed in with ends.
abbrev pub sign_out : UserId → Tables → Tables
sign_out id t = record t { sign_ins = end_every_sign_in id t.sign_ins }

unfoldable pub set_account_lock : UserId → Bool → Tables → Tables × Ruling (Option (Change User))
set_account_lock id locked t = elim (user t id) [
  | none ↦ (t, done none)
  | some before ↦
      let marked = update_user id (λ row. record row { is_locked = locked }) t in
      let next = if locked then sign_out id marked else marked in
      if locked && is_the_last_administrator t id
      then (t, refused last_system_administrator)
      else (next, done (some (changed before id next)))
]

unfoldable pub clear_password : UserId → Tables → Tables × Option (Change User)
clear_password id t = elim (user t id) [
  | none ↦ (t, none)
  | some before ↦
      let next = sign_out id (update_user id (λ row. record row { password_hash = none }) t) in
      (next, some (changed before id next))
]

unfoldable pub set_password : UserId → Text → Tables → Tables × Option (Change User)
set_password id hashed t = elim (user t id) [
  | none ↦ (t, none)
  | some before ↦
      let next = update_user id (λ row. record row { password_hash = some hashed }) t in
      (next, some (changed before id next))
]

unfoldable pub password_held_by : Tables → UserId → Option Text
password_held_by t id = elim (find (is_user id) t.users) [
  | none ↦ none
  | some row ↦ row.password_hash
]

-- The foreign keys delete what is only about the user.
abbrev pub without_user : UserId → Tables → Tables
without_user id t = record t {
  users = retain (λ row. not (row.id == id)) t.users;
  eligibility = retain (λ row. not (row.user == id)) t.eligibility;
  subscriptions = retain (λ row. not (row.user == id)) t.subscriptions;
  volumes = retain (λ row. not (row.user == id)) t.volumes;
  sign_ins = retain (λ row. not (row.user_id == id)) t.sign_ins;
  codes = retain (λ row. not (row.user == id)) t.codes;
}

unfoldable pub delete_user : UserId → Tables → Tables × Ruling (Option (Change User))
delete_user id t = elim (user t id) [
  | none ↦ (t, done none)
  | some before ↦
      if is_the_last_administrator t id
      then (t, refused last_system_administrator)
      else (without_user id t, done (some (record { before = before; after = none })))
]

-- `INSERT .. SELECT ?, roles.id, ? FROM roles WHERE roles.name = 'Observer'`.
module _ (collate : Text → ℕ) where
  unfoldable pub seed_observer_eligibility : Text → UserId → ℕ → Tables → Tables
  seed_observer_eligibility observer id now t = record t {
    eligibility =
        t.eligibility
        ++ map (λ row. record { user = id; role = row.id; granted_at = now })
            (retain (λ row. collate row.name == collate observer) t.roles);
  }

  -- The identifier that is minted is an argument; its row's key is unique too.
  unfoldable pub create_user : Text → UserId → NewUser → ℕ → Tables → Tables × Ruling UserId
  unfolding seed_observer_eligibility
  create_user observer minted new now t =
      if any (λ row. row.id == minted || collate row.username == collate new.username) t.users
      then (t, refused (name_taken the_username new.username))
      else (
        seed_observer_eligibility observer minted now (record t {
          users =
              t.users
              ++ record {
                id = minted;
                username = new.username;
                password_hash = new.password_hash;
                is_system_administrator = new.is_system_administrator;
                is_locked = false;
                external = none;
                created_at = now;
              }
                ∷ [];
        }),
        done minted,
      )

  abbrev pub by_username : UserRow → UserRow → Bool
  by_username a b = leb (collate a.username) (collate b.username)

  unfoldable pub user_named : Tables → Text → Option User
  user_named t username =
      Option.map a_user (find (λ row. collate row.username == collate username) t.users)

  unfoldable pub users : Tables → List User
  users t = map a_user (order_by by_username t.users)

  unfoldable pub rename_user : UserId → Text → Tables → Tables × Ruling (Option (Change User))
  rename_user id username t = elim (user t id) [
    | none ↦ (t, done none)
    | some before ↦
        let next = update_user id (λ row. record row { username = username }) t in
        if any (λ row. not (row.id == id) && collate row.username == collate username) t.users
        then (t, refused (name_taken the_username username))
        else (next, done (some (changed before id next)))
  ]

  abbrev pub may_sign_in : Text → UserRow → Bool
  may_sign_in username row =
      collate row.username == collate username && is_some row.password_hash && not row.is_locked

  unfoldable pub stored_password : Tables → Text → Option StoredPassword
  stored_password t username = elim (find (may_sign_in username) t.users) [
    | none ↦ none
    | some row ↦ Option.map (λ hash. record { user = row.id; hash = hash }) row.password_hash
  ]
