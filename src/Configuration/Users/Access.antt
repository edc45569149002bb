-- ===== src/Configuration/Users/Access.antt =====
-- How a user's lock and the end of a user's password shut the user out (src/configuration/users.rs).
use voxloop.Prelude.{
  ◌≡◌, refl, true, false, ◌&&◌, ◌==◌, Option, some, none, List, [], ◌∷◌, find, arith, Bool-cases,
  Option-cases, inl, inr, ℕ, update_where, find-All, find-passes, All,
}
use mathlib.Core.Option as Option
use voxloop.Names.{Text, UserId, SignInToken}
use voxloop.Configuration.Tables.{UserRow, Tables, User}
use voxloop.Configuration.SignIns.{SignIn, holder_of, end_every_sign_in}
use voxloop.Configuration.Users.{
  StoredPassword, is_user, user, set_account_lock, clear_password, stored_password, may_sign_in,
  is_the_last_administrator,
}

-- Nobody is known by what is presented, or it is somebody else.
abbrev pub IsNot : UserId → Option UserId → Type 0
IsNot id none = Unit
IsNot id (some holder) = (holder == id) ≡ false

abbrev pub whose : Option StoredPassword → Option UserId
whose none = none
whose (some stored) = some stored.user

no_sign_in :
    (fingerprint : SignInToken → Text) (id : UserId) (token : SignInToken) (rows : List SignIn)
    → IsNot id (holder_of fingerprint token (end_every_sign_in id rows))
unfolding holder_of end_every_sign_in
no_sign_in fingerprint id token [] = tt
no_sign_in fingerprint id token (row ∷ rows) = elim (Bool-cases (row.user_id == id)) [
  | inl its ↦ rw its (no_sign_in fingerprint id token rows)
  | inr other ↦ elim (Bool-cases (row.fingerprint == fingerprint token)) [
    | inl hit ↦ rw other (rw hit other)
    | inr miss ↦ rw other (rw miss (no_sign_in fingerprint id token rows))
  ]
]

module _ (collate : Text → ℕ) (id : UserId) (username : Text) where
  -- An update after which the user's rows let nobody sign in.
  no_password :
      (f : UserRow → UserRow) (rows : List UserRow)
      → ((row : UserRow) → (f row).id ≡ row.id)
      → ((row : UserRow) → may_sign_in collate username (f row) ≡ false)
      → All
          (λ row. (row.id == id && may_sign_in collate username row) ≡ false)
          (update_where (is_user id) f rows)
  no_password f [] same shut = tt
  no_password f (row ∷ rows) same shut = elim (Bool-cases (row.id == id)) [
    | inl its ↦ rw its (ground (arith, shut row), no_password f rows same shut)
    | inr other ↦ rw other (ground (arith, other), no_password f rows same shut)
  ]

  stored_password-IsNot :
      (t : Tables)
      → All (λ row. (row.id == id && may_sign_in collate username row) ≡ false) t.users
      → IsNot id (whose (stored_password collate t username))
  unfolding stored_password
  stored_password-IsNot t shut = elim (Option-cases (find (may_sign_in collate username) t.users)) [
    | inl nobody ↦ rw (nobody, stored_password) tt
    | inr (row, found) ↦
        let may = find-passes (may_sign_in collate username) t.users row found in
        let kept = find-All _ (may_sign_in collate username) t.users row shut found in
        rw (found, stored_password) (by_hash row (ground (arith, may, kept)) row.password_hash)
  ]
    where
      by_hash :
          (row : UserRow)
          → (row.id == id) ≡ false
          → (hash : Option Text)
          → IsNot id (whose (Option.map (λ h. record { user = row.id; hash = h }) hash))
      by_hash row other none = tt
      by_hash row other (some h) = other

-- No token that the store knows is the user's, and no name has the user's password for it.
pub record IsShutOut (id : UserId) (t : Tables) : Type 0 where
  pub no_token :
      (fingerprint : SignInToken → Text) (token : SignInToken)
      → IsNot id (holder_of fingerprint token t.sign_ins)
  pub no_password_for :
      (collate : Text → ℕ) (username : Text) → IsNot id (whose (stored_password collate t username))

-- Locking a user who is there and is not the last system administrator shuts the user out: of the
-- tokens that are presented from then on none is the user's, whichever was before, and no name is
-- answered with the user's password.
pub set_account_lock-IsShutOut :
    (id : UserId) (t : Tables) (before : User)
    → user t id ≡ some before
    → is_the_last_administrator t id ≡ false
    → IsShutOut id (set_account_lock id true t).0
unfolding set_account_lock
set_account_lock-IsShutOut id t before known not_last =
    rw (known, set_account_lock)
      (rw not_last (record {
        no_token = λ fingerprint token. no_sign_in fingerprint id token t.sign_ins;
        no_password_for = λ collate username. stored_password-IsNot collate id username _ (
            no_password collate id username (λ row. record row { is_locked = true }) t.users
              (λ row. refl) (λ row. ground arith));
      }))

-- Ending a user's password shuts the user out.
pub clear_password-IsShutOut :
    (id : UserId) (t : Tables) (before : User)
    → user t id ≡ some before
    → IsShutOut id (clear_password id t).0
unfolding clear_password
clear_password-IsShutOut id t before known =
    rw (known, clear_password)
      (record {
        no_token = λ fingerprint token. no_sign_in fingerprint id token t.sign_ins;
        no_password_for = λ collate username. stored_password-IsNot collate id username _ (
            no_password collate id username (λ row. record row { password_hash = none }) t.users
              (λ row. refl) (λ row. ground arith));
      })
