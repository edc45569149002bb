-- ===== src/Configuration/Users/Keeping.antt =====
-- What each change to a user keeps of the tables (src/configuration/users.rs).
use voxloop.Prelude.{
  ℕ, some, none, ◌≡◌, refl, ap, sym, ◌∙◌, Bool, true, false, not, ◌&&◌, ◌||◌, ◌==◌, List, [], ◌∷◌,
  retain, any, arith, Bool-cases, Option-cases, inl, inr, Distinct, subst, if◌then◌else◌,
  map-update_where, Distinct-keep, update_where, any-append, Distinct-new,
}
use voxloop.Names.{Text, UserId}
use voxloop.Configuration.Tables.{UserRow, Tables}
use voxloop.Configuration.Users.{
  NewUser, is_user, user, update_user, create_user, rename_user, set_system_administration,
  set_account_lock, clear_password, set_password, delete_user, is_the_last_administrator,
  a_system_administrator_exists, sign_out, without_user, seed_observer_eligibility,
}
use voxloop.Configuration.Users.Last.{ids, another_administers, exists-any, another_remains}

-- No two users share an identifier, and one of them at least is a system administrator.
pub record IsAdministered (t : Tables) : Type 0 where
  pub differ : Distinct (ids t.users)
  pub some_one : a_system_administrator_exists t ≡ true

-- An update that keeps who administers.
update_user-IsAdministered :
    (id : UserId) (f : UserRow → UserRow) (t : Tables)
    → ((row : UserRow) → (f row).id ≡ row.id)
    → any (λ row. row.is_system_administrator) (update_where (is_user id) f t.users) ≡ true
    → IsAdministered t
    → IsAdministered (update_user id f t)
update_user-IsAdministered id f t same some_one before = record {
  differ =
      subst Distinct (sym (map-update_where (λ row. row.id) (is_user id) f t.users same))
        before.differ;
  some_one = exists-any (update_user id f t) ∙ some_one;
}

-- Whoever administers beside the user still does after an update of the user's row.
others_still :
    (id : UserId) (f : UserRow → UserRow) (rows : List UserRow)
    → any (another_administers id) rows ≡ true
    → any (λ row. row.is_system_administrator) (update_where (is_user id) f rows) ≡ true
others_still id f [] h = h
others_still id f (row ∷ rows) h = ground (arith, others_still id f rows)

others_left :
    (id : UserId) (rows : List UserRow)
    → any (another_administers id) rows ≡ true
    → any (λ row. row.is_system_administrator) (retain (λ row. not (row.id == id)) rows) ≡ true
others_left id [] h = h
others_left id (row ∷ rows) h = ground (arith, others_left id rows)

-- An update that takes no administration away.
keeps_administration :
    (id : UserId) (f : UserRow → UserRow) (rows : List UserRow)
    → ((row : UserRow)
        → row.is_system_administrator ≡ true
        → (f row).is_system_administrator ≡ true)
    → any (λ row. row.is_system_administrator) rows ≡ true
    → any (λ row. row.is_system_administrator) (update_where (is_user id) f rows) ≡ true
keeps_administration id f [] keeps h = h
keeps_administration id f (row ∷ rows) keeps h =
    ground (arith, keeps row, keeps_administration id f rows keeps)

-- A row whose administration an update sets is one that it takes nothing from, or the user's own.
pub administer-IsAdministered :
    (id : UserId) (held : Bool) (t : Tables)
    → IsAdministered t
    → IsAdministered (set_system_administration id held t).0
unfolding set_system_administration
administer-IsAdministered id held t before = elim (Option-cases (user t id)) [
  | inl unknown ↦ rw (unknown, set_system_administration) before
  | inr (u, known) ↦ elim (Bool-cases (not held && is_the_last_administrator t id)) [
    | inl last ↦ rw (known, set_system_administration) (rw last before)
    | inr may ↦
        rw (known, set_system_administration)
          (rw may (
            update_user-IsAdministered id (λ row. record row { is_system_administrator = held }) t
              (λ row. refl) (still held may) before))
  ]
]
  where
    still :
        (b : Bool)
        → (not b && is_the_last_administrator t id) ≡ false
        → any
            (λ row. row.is_system_administrator)
            (update_where (is_user id) (λ row. record row { is_system_administrator = b }) t.users)
          ≡ true
    still true h =
        keeps_administration id (λ row. record row { is_system_administrator = true }) t.users
          (λ row k. refl) (sym (exists-any t) ∙ before.some_one)
    still false h =
        others_still id (λ row. record row { is_system_administrator = false }) t.users
          (another_remains t id before.differ before.some_one h)

-- A change that leaves every user's administration as it was.
pub quiet-IsAdministered :
    (id : UserId) (f : UserRow → UserRow) (t : Tables)
    → ((row : UserRow) → (f row).id ≡ row.id)
    → ((row : UserRow) → (f row).is_system_administrator ≡ row.is_system_administrator)
    → IsAdministered t
    → IsAdministered (update_user id f t)
quiet-IsAdministered id f t same keeps before =
    update_user-IsAdministered id f t same
      (keeps_administration id f t.users (λ row k. keeps row ∙ k)
        (sym (exists-any t) ∙ before.some_one))
      before

-- The sign-ins are no part of it.
sign_out-IsAdministered :
    (id : UserId) (t : Tables) → IsAdministered t → IsAdministered (sign_out id t)
unfolding a_system_administrator_exists
sign_out-IsAdministered id t before = record { differ = before.differ; some_one = before.some_one }

pub lock-IsAdministered :
    (id : UserId) (locked : Bool) (t : Tables)
    → IsAdministered t
    → IsAdministered (set_account_lock id locked t).0
unfolding set_account_lock
lock-IsAdministered id locked t before = elim (Option-cases (user t id)) [
  | inl unknown ↦ rw (unknown, set_account_lock) before
  | inr (u, known) ↦ elim (Bool-cases (locked && is_the_last_administrator t id)) [
    | inl last ↦ rw (known, set_account_lock) (rw last before)
    | inr may ↦ rw (known, set_account_lock) (rw may (either locked))
  ]
]
  where
    marked : (b : Bool) → IsAdministered (update_user id (λ row. record row { is_locked = b }) t)
    marked b =
        quiet-IsAdministered id (λ row. record row { is_locked = b }) t (λ row. refl) (λ row. refl)
          before

    either :
        (b : Bool)
        → IsAdministered (
            if b
            then sign_out id (update_user id (λ row. record row { is_locked = locked }) t)
            else update_user id (λ row. record row { is_locked = locked }) t)
    either true = sign_out-IsAdministered id _ (marked locked)
    either false = marked locked

pub clear-IsAdministered :
    (id : UserId) (t : Tables) → IsAdministered t → IsAdministered (clear_password id t).0
unfolding clear_password
clear-IsAdministered id t before = elim (Option-cases (user t id)) [
  | inl unknown ↦ rw (unknown, clear_password) before
  | inr (u, known) ↦
      rw (known, clear_password)
        (sign_out-IsAdministered id _ (
          quiet-IsAdministered id (λ row. record row { password_hash = none }) t (λ row. refl)
            (λ row. refl) before))
]

pub choose-IsAdministered :
    (id : UserId) (hashed : Text) (t : Tables)
    → IsAdministered t
    → IsAdministered (set_password id hashed t).0
unfolding set_password
choose-IsAdministered id hashed t before = elim (Option-cases (user t id)) [
  | inl unknown ↦ rw (unknown, set_password) before
  | inr (u, known) ↦
      rw (known, set_password)
        (quiet-IsAdministered id (λ row. record row { password_hash = some hashed }) t (λ row. refl)
          (λ row. refl) before)
]

pub remove-IsAdministered :
    (id : UserId) (t : Tables) → IsAdministered t → IsAdministered (delete_user id t).0
unfolding delete_user
remove-IsAdministered id t before = elim (Option-cases (user t id)) [
  | inl unknown ↦ rw (unknown, delete_user) before
  | inr (u, known) ↦ elim (Bool-cases (is_the_last_administrator t id)) [
    | inl last ↦ rw (known, delete_user) (rw last before)
    | inr may ↦
        rw (known, delete_user)
          (rw may (record {
            differ = Distinct-keep (λ row. row.id) _ t.users before.differ;
            some_one =
                exists-any (without_user id t)
                ∙ others_left id t.users (another_remains t id before.differ before.some_one may);
          }))
  ]
]

module _ (collate : Text → ℕ) where
  pub rename-IsAdministered :
      (id : UserId) (username : Text) (t : Tables)
      → IsAdministered t
      → IsAdministered (rename_user collate id username t).0
  unfolding rename_user
  rename-IsAdministered id username t before = elim (Option-cases (user t id)) [
    | inl unknown ↦ rw (unknown, rename_user) before
    | inr (u, known) ↦
        elim (Bool-cases
          (any (λ row. not (row.id == id) && collate row.username == collate username) t.users)) [
            | inl taken ↦ rw (known, rename_user) (rw taken before)
            | inr free ↦
                rw (known, rename_user)
                  (rw free (
                    quiet-IsAdministered id (λ row. record row { username = username }) t
                      (λ row. refl) (λ row. refl) before))
          ]
  ]

  pub create-IsAdministered :
      (observer : Text) (minted : UserId) (new : NewUser) (now : ℕ) (t : Tables)
      → IsAdministered t
      → IsAdministered (create_user collate observer minted new now t).0
  unfolding create_user seed_observer_eligibility
  create-IsAdministered observer minted new now t before =
      elim (Bool-cases
        (any (λ row. row.id == minted || collate row.username == collate new.username) t.users)) [
          | inl taken ↦ rw (taken, create_user) before
          | inr free ↦
              rw (free, create_user)
                (record {
                  differ =
                      Distinct-new (λ row. row.id)
                        (λ row. collate row.username == collate new.username) t.users _ free
                        before.differ;
                  some_one =
                      exists-any _
                      ∙ any-append (λ row. row.is_system_administrator) t.users _
                      ∙ ap (λ b. b || (new.is_system_administrator || false))
                          (sym (exists-any t) ∙ before.some_one);
                })
        ]
