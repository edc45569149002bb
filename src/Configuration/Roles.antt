-- ===== src/Configuration/Roles.antt =====
-- Roles (src/configuration/roles.rs). `collate` is the order of texts without regard to case, the
-- store's NOCASE: two texts that differ only by case stand at one place in it.
use voxloop.Prelude.{
  ℕ, zero, Bool, true, false, not, ◌&&◌, ◌||◌, Option, none, some, leb, ◌==◌, if◌then◌else◌, List,
  [], ◌∷◌, ◌++◌, map, retain, any, find, update_where, order_by,
}
use mathlib.Core.Option as Option
use voxloop.Names.{Text, RoleId}
use voxloop.Configuration.Tables.{
  Role, RoleRow, Tables, Change, Ruling, done, refused, name_taken, the_role_name,
  nobody_may_occupy, a_role,
}

pub record NewRole : Type 0 where
  pub name : Text
  pub max_occupants : Option ℕ

abbrev pub refuse_an_empty_role : Option ℕ → Bool
refuse_an_empty_role (some zero) = true
refuse_an_empty_role _ = false

abbrev pub is_role : RoleId → RoleRow → Bool
is_role id row = row.id == id

unfoldable pub role : Tables → RoleId → Option Role
role t id = Option.map a_role (find (is_role id) t.roles)

-- `UPDATE roles SET .. WHERE id = ?`.
abbrev pub update_role : RoleId → (RoleRow → RoleRow) → Tables → Tables
update_role id f t = record t { roles = update_where (is_role id) f t.roles }

-- The answer of an operation on one role: it before and after.
abbrev pub role_changed : Option Role → RoleId → Tables → Option (Change Role)
role_changed before id after = Option.map (λ b. record { before = b; after = role after id }) before

unfoldable pub set_max_occupants :
    RoleId → Option ℕ → Tables → Tables × Ruling (Option (Change Role))
set_max_occupants id max_occupants t =
    if refuse_an_empty_role max_occupants
    then (t, refused nobody_may_occupy)
    else let next = update_role id (λ row. record row { max_occupants = max_occupants }) t in
      (next, done (role_changed (role t id) id next))

-- The foreign keys delete what is only about the role.
abbrev pub without_role : RoleId → Tables → Tables
without_role id t = record t {
  roles = retain (λ row. not (row.id == id)) t.roles;
  cells = retain (λ row. not (row.role == id)) t.cells;
  eligibility = retain (λ row. not (row.role == id)) t.eligibility;
  subscriptions = retain (λ row. not (row.role == id)) t.subscriptions;
  volumes = retain (λ row. not (row.role == id)) t.volumes;
}

unfoldable pub delete_role : RoleId → Tables → Tables × Option (Change Role)
delete_role id t = elim (role t id) [
  | none ↦ (t, none)
  | some before ↦ (without_role id t, some (record { before = before; after = none }))
]

module _ (collate : Text → ℕ) where
  abbrev pub by_name : RoleRow → RoleRow → Bool
  by_name a b = leb (collate a.name) (collate b.name)

  unfoldable pub roles : Tables → List Role
  roles t = map a_role (order_by by_name t.roles)

  -- The identifier that is minted is an argument; its row's key is unique too.
  unfoldable pub create_role : RoleId → NewRole → ℕ → Tables → Tables × Ruling RoleId
  create_role minted new now t =
      if refuse_an_empty_role new.max_occupants
      then (t, refused nobody_may_occupy)
      else if any (λ row. row.id == minted || collate row.name == collate new.name) t.roles
      then (t, refused (name_taken the_role_name new.name))
      else (
        record t {
          roles =
              t.roles
              ++ record {
                id = minted;
                name = new.name;
                max_occupants = new.max_occupants;
                created_at = now;
              }
                ∷ [];
        },
        done minted,
      )

  -- A name is taken where another row has it; a role that nobody holds is no change.
  unfoldable pub rename_role : RoleId → Text → Tables → Tables × Ruling (Option (Change Role))
  rename_role id name t =
      if any (is_role id) t.roles
        && any (λ row. not (row.id == id) && collate row.name == collate name) t.roles
      then (t, refused (name_taken the_role_name name))
      else let next = update_role id (λ row. record row { name = name }) t in
        (next, done (role_changed (role t id) id next))
