-- ===== src/Configuration/Grid/Records.antt =====
-- What each write to the roles and to the loops keeps of the tables (src/configuration/roles.rs and
-- loops.rs).
use voxloop.Prelude.{
  Option-cases, ℕ, refl, not, ◌&&◌, ◌||◌, Option, ◌==◌, List, [], ◌∷◌, any, Bool-cases, inl, inr,
  suc, Distinct-new, All-retain, Distinct-keep,
}
use voxloop.Names.{Text, RoleId, LoopId}
use voxloop.Configuration.Tables.{Tables}
use voxloop.Configuration.Roles.{
  role, NewRole, refuse_an_empty_role, create_role, rename_role, set_max_occupants, delete_role,
  is_role,
}
use voxloop.Configuration.Loops.{
  a_loop, is_loop, create_loop, rename_loop, delete_loop, set_positions, set_the_loop_order,
  names_every_loop_once, loops,
}
use voxloop.Configuration.Grid.Sound.{StaffsWhereItEmits, OneEach-retain}
use voxloop.Configuration.Grid.Keeping.{
  GridIsSound, with_loops, with_roles, update_loop-GridIsSound, update_role-GridIsSound,
}

set_positions-GridIsSound :
    (position : ℕ) (order : List LoopId) (t : Tables)
    → GridIsSound t
    → GridIsSound (set_positions position order t)
unfolding set_positions
set_positions-GridIsSound position [] t sound = sound
set_positions-GridIsSound position (id ∷ rest) t sound =
    set_positions-GridIsSound (suc position) rest _
      (update_loop-GridIsSound id (λ row. record row { position = position }) t (λ r. refl) sound)

pub delete_role-GridIsSound :
    (id : RoleId) (t : Tables) → GridIsSound t → GridIsSound (delete_role id t).0
unfolding delete_role
delete_role-GridIsSound id t sound = elim (Option-cases (role t id)) [
  | inl unknown ↦ rw (unknown, delete_role) sound
  | inr (before, known) ↦
      rw (known, delete_role)
        (record {
          roles_differ = Distinct-keep (λ row. row.id) _ t.roles sound.roles_differ;
          loops_differ = sound.loops_differ;
          one_each = OneEach-retain _ t.cells sound.one_each;
          staffing = All-retain StaffsWhereItEmits _ t.cells sound.staffing;
        })
]

pub delete_loop-GridIsSound :
    (id : LoopId) (t : Tables) → GridIsSound t → GridIsSound (delete_loop id t).0
unfolding delete_loop
delete_loop-GridIsSound id t sound = elim (Option-cases (a_loop t id)) [
  | inl unknown ↦ rw (unknown, delete_loop) sound
  | inr (before, known) ↦
      rw (known, delete_loop)
        (record {
          roles_differ = sound.roles_differ;
          loops_differ = Distinct-keep (λ row. row.id) _ t.loops sound.loops_differ;
          one_each = OneEach-retain _ t.cells sound.one_each;
          staffing = All-retain StaffsWhereItEmits _ t.cells sound.staffing;
        })
]

module _ (collate : Text → ℕ) where
  pub create_role-GridIsSound :
      (minted : RoleId) (new : NewRole) (now : ℕ) (t : Tables)
      → GridIsSound t
      → GridIsSound (create_role collate minted new now t).0
  unfolding create_role
  create_role-GridIsSound minted new now t sound =
      elim (Bool-cases (refuse_an_empty_role new.max_occupants)) [
        | inl empty ↦ rw (empty, create_role) sound
        | inr some_may ↦
            elim (Bool-cases
              (any (λ row. row.id == minted || collate row.name == collate new.name) t.roles)) [
                | inl taken ↦ rw (some_may, create_role) (rw taken sound)
                | inr free ↦
                    rw (some_may, create_role)
                      (rw free (
                        with_roles _ t
                          (Distinct-new (λ row. row.id)
                            (λ row. collate row.name == collate new.name) t.roles _ free
                            sound.roles_differ)
                          sound))
              ]
      ]

  pub create_loop-GridIsSound :
      (minted : LoopId) (name : Text) (now : ℕ) (t : Tables)
      → GridIsSound t
      → GridIsSound (create_loop collate minted name now t).0
  unfolding create_loop
  create_loop-GridIsSound minted name now t sound =
      elim (Bool-cases
        (any (λ row. row.id == minted || collate row.name == collate name) t.loops)) [
          | inl taken ↦ rw (taken, create_loop) sound
          | inr free ↦
              rw (free, create_loop)
                (with_loops _ t
                  (Distinct-new (λ row. row.id) (λ row. collate row.name == collate name) t.loops _
                    free sound.loops_differ)
                  sound)
        ]

  pub rename_role-GridIsSound :
      (id : RoleId) (name : Text) (t : Tables)
      → GridIsSound t
      → GridIsSound (rename_role collate id name t).0
  unfolding rename_role
  rename_role-GridIsSound id name t sound =
      elim (Bool-cases (
        any (is_role id) t.roles
        && any (λ row. not (row.id == id) && collate row.name == collate name) t.roles)) [
          | inl taken ↦ rw (taken, rename_role) sound
          | inr free ↦
              rw (free, rename_role)
                (update_role-GridIsSound id (λ row. record row { name = name }) t (λ r. refl) sound)
        ]

  pub rename_loop-GridIsSound :
      (id : LoopId) (name : Text) (t : Tables)
      → GridIsSound t
      → GridIsSound (rename_loop collate id name t).0
  unfolding rename_loop
  rename_loop-GridIsSound id name t sound =
      elim (Bool-cases (
        any (is_loop id) t.loops
        && any (λ row. not (row.id == id) && collate row.name == collate name) t.loops)) [
          | inl taken ↦ rw (taken, rename_loop) sound
          | inr free ↦
              rw (free, rename_loop)
                (update_loop-GridIsSound id (λ row. record row { name = name }) t (λ r. refl) sound)
        ]

pub set_max_occupants-GridIsSound :
    (id : RoleId) (limit : Option ℕ) (t : Tables)
    → GridIsSound t
    → GridIsSound (set_max_occupants id limit t).0
unfolding set_max_occupants
set_max_occupants-GridIsSound id limit t sound = elim (Bool-cases (refuse_an_empty_role limit)) [
  | inl empty ↦ rw (empty, set_max_occupants) sound
  | inr some_may ↦
      rw (some_may, set_max_occupants)
        (update_role-GridIsSound id (λ row. record row { max_occupants = limit }) t (λ r. refl)
          sound)
]

pub set_the_loop_order-GridIsSound :
    (order : List LoopId) (t : Tables) → GridIsSound t → GridIsSound (set_the_loop_order order t).0
unfolding set_the_loop_order
set_the_loop_order-GridIsSound order t sound =
    elim (Bool-cases (names_every_loop_once order (loops t))) [
      | inl every ↦ rw (every, set_the_loop_order) (set_positions-GridIsSound 0 order t sound)
      | inr lacks ↦ rw (lacks, set_the_loop_order) sound
    ]
