-- ===== src/Configuration/Users/History.antt =====
-- The acts that an administrator and a user have on the records of users, in any order
-- (src/configuration/users.rs).
use voxloop.Prelude.{ℕ, Bool, List, [], ◌∷◌}
use voxloop.Names.{Text, UserId}
use voxloop.Configuration.Tables.{Tables}
use voxloop.Configuration.Users.{
  NewUser, create_user, rename_user, set_system_administration, set_account_lock, clear_password,
  set_password, delete_user,
}
use voxloop.Configuration.Users.Keeping.{
  IsAdministered, administer-IsAdministered, lock-IsAdministered, clear-IsAdministered,
  choose-IsAdministered, remove-IsAdministered, rename-IsAdministered, create-IsAdministered,
}

pub data Act : Type 0 where
  create : UserId → NewUser → ℕ → Act
  rename : UserId → Text → Act
  administer : UserId → Bool → Act
  lock : UserId → Bool → Act
  clear : UserId → Act
  choose : UserId → Text → Act
  remove : UserId → Act

module _ (collate : Text → ℕ) where
  abbrev pub after : Text → Act → Tables → Tables
  after observer (create minted new now) t = (create_user collate observer minted new now t).0
  after observer (rename id username) t = (rename_user collate id username t).0
  after observer (administer id held) t = (set_system_administration id held t).0
  after observer (lock id locked) t = (set_account_lock id locked t).0
  after observer (clear id) t = (clear_password id t).0
  after observer (choose id hashed) t = (set_password id hashed t).0
  after observer (remove id) t = (delete_user id t).0

  abbrev pub after_all : Text → List Act → Tables → Tables
  after_all observer [] t = t
  after_all observer (act ∷ acts) t = after_all observer acts (after observer act t)

  after-IsAdministered :
      (observer : Text) (act : Act) (t : Tables)
      → IsAdministered t
      → IsAdministered (after observer act t)
  after-IsAdministered o (create m new now) t h = create-IsAdministered collate o m new now t h
  after-IsAdministered o (rename id username) t h = rename-IsAdministered collate id username t h
  after-IsAdministered o (administer id held) t h = administer-IsAdministered id held t h
  after-IsAdministered o (lock id locked) t h = lock-IsAdministered id locked t h
  after-IsAdministered o (clear id) t h = clear-IsAdministered id t h
  after-IsAdministered o (choose id hashed) t h = choose-IsAdministered id hashed t h
  after-IsAdministered o (remove id) t h = remove-IsAdministered id t h

  -- Whatever is done to the users of a deployment that has a system administrator, in whatever
  -- order and refused or not, it has one afterwards; and no two users share an identifier, where
  -- no two did.
  pub after_all-IsAdministered :
      (observer : Text) (acts : List Act) (t : Tables)
      → IsAdministered t
      → IsAdministered (after_all observer acts t)
  after_all-IsAdministered o [] t h = h
  after_all-IsAdministered o (act ∷ acts) t h =
      after_all-IsAdministered o acts (after o act t) (after-IsAdministered o act t h)
