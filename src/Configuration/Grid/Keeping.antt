-- ===== src/Configuration/Grid/Keeping.antt =====
-- What each write to the grid keeps of its tables (src/configuration/grid.rs).
use voxloop.Prelude.{
  ℕ, ◌≡◌, refl, sym, ap, Bool, false, not, ◌&&◌, Option, none, some, List, [], ◌∷◌, ◌++◌, map, any,
  arith, Bool-cases, inl, inr, update_where, All, Distinct, subst, Distinct-keep, All-append,
  Option-cases, map-update_where, All-update_where, All-push,
}
use mathlib.Core.Option.{some-injective}
use voxloop.Names.{RoleId, LoopId}
use voxloop.Configuration.Permission.{Permission, emit, carries}
use voxloop.Configuration.Tables.{Role, Loop, CellRow, RoleRow, LoopRow, Tables}
use voxloop.Configuration.Roles.{
  NewRole, create_role, rename_role, set_max_occupants, delete_role, update_role, is_role,
}
use voxloop.Configuration.Roles as Roles
use voxloop.Configuration.Loops.{a_loop, update_loop, is_loop}
use voxloop.Configuration.Grid.{
  read_cell, Cell, is_cell, cell_of, permission_in, a_cell, is_complete, write_cell, set_cell,
  set_staffing, dismiss_unreviewed, rule_on_a_complete_column, unruled_cells, lowered_to, new_cell,
}
use voxloop.Configuration.Grid.Sound.{
  StaffsWhereItEmits, OneEach, OneEach-update_where, OneEach-append, staffing_marked,
  OneEach-denied, denied_apart, staffing_denied,
}

-- One row for each role and for each loop, one cell for a pair of them, and no staffing without
-- `emit`.
pub record GridIsSound (t : Tables) : Type 0 where
  pub roles_differ : Distinct (map (λ row. row.id) t.roles)
  pub loops_differ : Distinct (map (λ row. row.id) t.loops)
  pub one_each : OneEach t.cells
  pub staffing : All StaffsWhereItEmits t.cells

pub with_cells :
    (cells : List CellRow) (t : Tables)
    → OneEach cells
    → All StaffsWhereItEmits cells
    → GridIsSound t
    → GridIsSound (record t { cells = cells })
with_cells cells t one_each staffing sound = record {
  roles_differ = sound.roles_differ;
  loops_differ = sound.loops_differ;
  one_each = one_each;
  staffing = staffing;
}

pub with_loops :
    (rows : List LoopRow) (t : Tables)
    → Distinct (map (λ row. row.id) rows)
    → GridIsSound t
    → GridIsSound (record t { loops = rows })
with_loops rows t differ sound = record {
  roles_differ = sound.roles_differ;
  loops_differ = differ;
  one_each = sound.one_each;
  staffing = sound.staffing;
}

pub with_roles :
    (rows : List RoleRow) (t : Tables)
    → Distinct (map (λ row. row.id) rows)
    → GridIsSound t
    → GridIsSound (record t { roles = rows })
with_roles rows t differ sound = record {
  roles_differ = differ;
  loops_differ = sound.loops_differ;
  one_each = sound.one_each;
  staffing = sound.staffing;
}

pub update_loop-GridIsSound :
    (id : LoopId) (f : LoopRow → LoopRow) (t : Tables)
    → ((row : LoopRow) → (f row).id ≡ row.id)
    → GridIsSound t
    → GridIsSound (update_loop id f t)
update_loop-GridIsSound id f t same sound =
    with_loops (update_where (is_loop id) f t.loops) t
      (subst Distinct (sym (map-update_where (λ row. row.id) (is_loop id) f t.loops same))
        sound.loops_differ)
      sound

pub update_role-GridIsSound :
    (id : RoleId) (f : RoleRow → RoleRow) (t : Tables)
    → ((row : RoleRow) → (f row).id ≡ row.id)
    → GridIsSound t
    → GridIsSound (update_role id f t)
update_role-GridIsSound id f t same sound =
    with_roles (update_where (is_role id) f t.roles) t
      (subst Distinct (sym (map-update_where (λ row. row.id) (is_role id) f t.roles same))
        sound.roles_differ)
      sound

permission_read :
    (r : Option Role) (l : Option Loop) (row : Option CellRow) (before : Cell)
    → read_cell r l row ≡ some before
    → before.permission ≡ permission_in row
permission_read none l row before e = absurd (cc)
permission_read (some r) none row before e = absurd (cc)
permission_read (some r) (some l) row before e = ap (λ c. c.permission) (sym (some-injective _ _ e))

module _ (held_on : LoopId) where
  ruled-GridIsSound :
      (t : Tables) → GridIsSound t → GridIsSound (rule_on_a_complete_column held_on t)
  unfolding rule_on_a_complete_column
  ruled-GridIsSound t sound = elim (Bool-cases (is_complete t held_on)) [
    | inl all ↦ rw all (
        update_loop-GridIsSound held_on (λ row. record row { is_unreviewed = false }) t (λ r. refl)
          sound)
    | inr some_lack ↦ rw some_lack sound
  ]

  write_cell-GridIsSound :
      (role : RoleId) (p : Permission) (now : ℕ) (t : Tables)
      → GridIsSound t
      → GridIsSound (write_cell role held_on p now t)
  unfolding write_cell
  write_cell-GridIsSound role p now t sound =
      elim (Bool-cases (any (is_cell role held_on) t.cells)) [
        | inl there ↦ rw there (
            with_cells (update_where (is_cell role held_on) (lowered_to p now) t.cells) t
              (OneEach-update_where (is_cell role held_on) (lowered_to p now) t.cells (λ r. refl)
                (λ r. refl) sound.one_each)
              (All-update_where StaffsWhereItEmits (is_cell role held_on) (lowered_to p now) t.cells
                (λ r h. ground arith) sound.staffing)
              sound)
        | inr new ↦ rw new (
            with_cells (t.cells ++ new_cell role held_on p now ∷ []) t
              (OneEach-append t.cells (new_cell role held_on p now ∷ []) sound.one_each (refl, tt)
                (new, tt))
              (All-push StaffsWhereItEmits t.cells (new_cell role held_on p now) sound.staffing
                refl)
              sound)
      ]

  pub set_cell-GridIsSound :
      (role : RoleId) (p : Permission) (now : ℕ) (t : Tables)
      → GridIsSound t
      → GridIsSound (set_cell role held_on p now t).0
  unfolding set_cell
  set_cell-GridIsSound role p now t sound = elim (Option-cases (a_cell t role held_on)) [
    | inl unknown ↦ rw (unknown, set_cell) sound
    | inr (before, known) ↦
        rw (known, set_cell)
          (ruled-GridIsSound (write_cell role held_on p now t)
            (write_cell-GridIsSound role p now t sound))
  ]

  a_cell-permission :
      (t : Tables) (role : RoleId) (before : Cell)
      → a_cell t role held_on ≡ some before
      → before.permission ≡ permission_in (cell_of t role held_on)
  unfolding a_cell
  a_cell-permission t role before known =
      permission_read (Roles.role t role) (a_loop t held_on) (cell_of t role held_on) before known

  pub set_staffing-GridIsSound :
      (role : RoleId) (staffs : Bool) (now : ℕ) (t : Tables)
      → GridIsSound t
      → GridIsSound (set_staffing role held_on staffs now t).0
  unfolding set_staffing
  set_staffing-GridIsSound role staffs now t sound = elim (Option-cases (a_cell t role held_on)) [
    | inl unknown ↦ rw (unknown, set_staffing) sound
    | inr (before, known) ↦ elim (Bool-cases (staffs && not (carries before.permission emit))) [
      | inl short ↦ rw (known, set_staffing) (rw short sound)
      | inr may ↦
          rw (known, set_staffing)
            (rw may (
              with_cells
                (update_where (is_cell role held_on)
                  (λ row. record row { staffs = staffs; set_at = now }) t.cells)
                t
                (OneEach-update_where (is_cell role held_on)
                  (λ row. record row { staffs = staffs; set_at = now }) t.cells (λ r. refl)
                  (λ r. refl) sound.one_each)
                (staffing_marked role held_on staffs now t.cells sound.one_each
                  (ground
                    (arith, may, ap (λ q. carries q emit) (a_cell-permission t role before known)))
                  sound.staffing)
                sound))
    ]
  ]

  pub dismiss_unreviewed-GridIsSound :
      (now : ℕ) (t : Tables) → GridIsSound t → GridIsSound (dismiss_unreviewed held_on now t).0
  unfolding dismiss_unreviewed
  dismiss_unreviewed-GridIsSound now t sound = elim (Option-cases (a_loop t held_on)) [
    | inl unknown ↦ rw (unknown, dismiss_unreviewed) sound
    | inr (before, known) ↦
        rw (known, dismiss_unreviewed)
          (ruled-GridIsSound _ (
            with_cells (t.cells ++ unruled_cells held_on now t) t
              (OneEach-append t.cells (unruled_cells held_on now t) sound.one_each
                (OneEach-denied held_on now _
                  (Distinct-keep (λ row. row.id) _ t.roles sound.roles_differ))
                (denied_apart held_on now t.cells t.roles))
              (All-append StaffsWhereItEmits t.cells (unruled_cells held_on now t) sound.staffing
                (staffing_denied held_on now _))
              sound))
  ]
