-- ===== src/Configuration/Grid.antt =====
-- The grid: what each role holds on each loop, and which roles staff it (src/configuration/grid.rs).
pub mod Laws
pub mod Holding
pub mod Sound
pub mod Keeping
pub mod Records
pub mod Staffing
pub mod History
pub mod Reach
pub mod Dismissal
use voxloop.Prelude.{
  ℕ, Bool, true, false, not, ◌&&◌, ◌||◌, Option, none, some, ◌==◌, if◌then◌else◌, List, [], ◌∷◌,
  ◌++◌, map, flat_map, retain, any, find, update_where, order_by,
}
use mathlib.Core.Option as Option
use voxloop.Names.{Text, RoleId, LoopId}
use voxloop.Configuration.Permission.{Permission, nothing, emit, carries}
use voxloop.Configuration.Tables.{
  Role, Loop, RoleRow, LoopRow, CellRow, Tables, Change, Ruling, done, refused, cannot_staff,
  a_role, a_loop_of,
}
use voxloop.Configuration.Roles.{role, roles}
use voxloop.Configuration.Loops.{is_loop, a_loop, loops, in_base_order, update_loop, loop_changed}

pub record Cell : Type 0 where
  pub role : Role
  pub held_on : Loop
  pub permission : Permission
  pub staffs : Bool

abbrev pub is_cell : RoleId → LoopId → CellRow → Bool
is_cell role held_on row = row.role == role && row.held_on == held_on

-- `COALESCE(grid_cells.permission, 'none')`.
abbrev pub permission_in : Option CellRow → Permission
permission_in none = nothing
permission_in (some row) = row.permission

abbrev pub staffs_in : Option CellRow → Bool
staffs_in none = false
staffs_in (some row) = row.staffs

abbrev pub cell_of : Tables → RoleId → LoopId → Option CellRow
cell_of t role held_on = find (is_cell role held_on) t.cells

-- `CASE WHEN loops.is_unreviewed <> 0 THEN 'none' ELSE .. END`, on a loop's row.
abbrev pub enforced : Tables → RoleId → LoopRow → Permission
enforced t role row = if row.is_unreviewed then nothing else permission_in (cell_of t role row.id)

unfoldable pub held_by : Tables → RoleId → LoopId → Permission
held_by t role held_on = elim (find (is_loop held_on) t.loops) [
  | none ↦ nothing
  | some row ↦ enforced t role row
]

-- One row of the join, where the role and the loop are both there.
abbrev pub read_cell : Option Role → Option Loop → Option CellRow → Option Cell
read_cell (some found) (some on) row =
    some (record {
      role = found;
      held_on = on;
      permission = permission_in row;
      staffs = staffs_in row;
    })
read_cell _ _ row = none

unfoldable pub a_cell : Tables → RoleId → LoopId → Option Cell
unfolding role a_loop
a_cell t the_role held_on =
    read_cell (role t the_role) (a_loop t held_on) (cell_of t the_role held_on)

-- The loop's mark is cleared where every role has a cell on it.
abbrev pub is_ruled_on : Tables → LoopId → RoleRow → Bool
is_ruled_on t held_on row = any (is_cell row.id held_on) t.cells

abbrev pub is_complete : Tables → LoopId → Bool
is_complete t held_on = not (any (λ row. not (is_ruled_on t held_on row)) t.roles)

unfoldable pub rule_on_a_complete_column : LoopId → Tables → Tables
rule_on_a_complete_column held_on t =
    if is_complete t held_on
    then update_loop held_on (λ row. record row { is_unreviewed = false }) t
    else t

-- The upsert: a cell that is lowered below `emit` staffs no longer.
abbrev pub lowered_to : Permission → ℕ → CellRow → CellRow
lowered_to permission now row = record row {
  permission = permission;
  staffs = carries permission emit && row.staffs;
  set_at = now;
}

abbrev pub new_cell : RoleId → LoopId → Permission → ℕ → CellRow
new_cell role held_on permission now = record {
  role = role;
  held_on = held_on;
  permission = permission;
  staffs = false;
  set_at = now;
}

unfoldable pub write_cell : RoleId → LoopId → Permission → ℕ → Tables → Tables
write_cell role held_on permission now t = record t {
  cells =
      if any (is_cell role held_on) t.cells
      then update_where (is_cell role held_on) (lowered_to permission now) t.cells
      else t.cells ++ new_cell role held_on permission now ∷ [];
}

unfoldable pub set_cell : RoleId → LoopId → Permission → ℕ → Tables → Tables × Option (Change Cell)
unfolding write_cell rule_on_a_complete_column
set_cell role held_on permission now t = elim (a_cell t role held_on) [
  | none ↦ (t, none)
  | some before ↦
      let next = rule_on_a_complete_column held_on (write_cell role held_on permission now t) in
      (next, some (record { before = before; after = a_cell next role held_on }))
]

unfoldable pub mark_staffing : RoleId → LoopId → Bool → ℕ → Tables → Tables
mark_staffing role held_on staffs now t = record t {
  cells =
      update_where (is_cell role held_on) (λ row. record row { staffs = staffs; set_at = now })
        t.cells;
}

unfoldable pub set_staffing :
    RoleId → LoopId → Bool → ℕ → Tables → Tables × Ruling (Option (Change Cell))
unfolding mark_staffing
set_staffing role held_on staffs now t = elim (a_cell t role held_on) [
  | none ↦ (t, done none)
  | some before ↦
      if staffs && not (carries before.permission emit)
      then (t, refused cannot_staff)
      else let next = mark_staffing role held_on staffs now t in
        (next, done (some (record { before = before; after = a_cell next role held_on })))
]

-- A deliberate `none` for every role that has no cell on the loop.
abbrev pub unruled_cells : LoopId → ℕ → Tables → List CellRow
unruled_cells held_on now t =
    map (λ row. new_cell row.id held_on nothing now)
      (retain (λ row. not (is_ruled_on t held_on row)) t.roles)

unfoldable pub dismiss_unreviewed : LoopId → ℕ → Tables → Tables × Option (Change Loop)
unfolding rule_on_a_complete_column
dismiss_unreviewed held_on now t = elim (a_loop t held_on) [
  | none ↦ (t, none)
  | some before ↦
      let ruled = record t { cells = t.cells ++ unruled_cells held_on now t } in
      let next = rule_on_a_complete_column held_on ruled in
      (next, loop_changed (some before) held_on next)
]

unfoldable pub the_row_of : Tables → RoleId → Option (Role × List Cell)
the_row_of t id =
    Option.map
      (λ found. (
        found,
        map
            (λ row.
              let cell = cell_of t id row.id in
              record {
                role = found;
                held_on = a_loop_of row;
                permission = permission_in cell;
                staffs = staffs_in cell;
              })
            (order_by in_base_order t.loops),
      ))
      (role t id)

unfoldable pub the_reach_of : Tables → RoleId → Permission → List (Loop × Permission)
the_reach_of t role rung =
    retain (λ entry. carries entry.1 rung)
      (map (λ row. (a_loop_of row, enforced t role row)) (order_by in_base_order t.loops))

-- The pairs of a loop and a role that staffs it, in the base order.
unfoldable pub staffing_rows : Tables → List (Loop × RoleId)
unfolding flat_map
staffing_rows t =
    flat_map
      (λ row.
        map (λ cell. (a_loop_of row, cell.role))
          (retain (λ cell. cell.held_on == row.id && cell.staffs) t.cells))
      (retain (λ row. not row.is_unreviewed) (order_by in_base_order t.loops))

-- One row of the answer: onto the last entry where it is the same loop's, or as a new one.
abbrev pub gather_row : Loop × RoleId → List (Loop × List RoleId) → List (Loop × List RoleId)
gather_row (held_on, role) [] = (held_on, role ∷ []) ∷ []
gather_row (held_on, role) ((already, its) ∷ []) =
    if already.id == held_on.id
    then (already, its ++ role ∷ []) ∷ []
    else (already, its) ∷ (held_on, role ∷ []) ∷ []
gather_row row (entry ∷ next ∷ rest) = entry ∷ gather_row row (next ∷ rest)

unfoldable pub gather : List (Loop × List RoleId) → List (Loop × RoleId) → List (Loop × List RoleId)
gather staffed [] = staffed
gather staffed (row ∷ rest) = gather (gather_row row staffed) rest

unfoldable pub the_staffing_roles : Tables → List (Loop × List RoleId)
unfolding staffing_rows gather
the_staffing_roles t = gather [] (staffing_rows t)

abbrev pub the_cell : Tables → Role → Loop → Cell
the_cell t found held_on =
    let cell = cell_of t found.id held_on.id in
    record {
      role = found;
      held_on = held_on;
      permission = permission_in cell;
      staffs = staffs_in cell;
    }

module _ (collate : Text → ℕ) where
  unfoldable pub the_column_of : Tables → LoopId → Option (Loop × List Cell)
  unfolding roles
  the_column_of t id =
      Option.map (λ held_on. (held_on, map (λ found. the_cell t found held_on) (roles collate t)))
        (a_loop t id)

  unfoldable pub the_whole_grid : Tables → List Cell
  unfolding flat_map
  the_whole_grid t = flat_map (λ found. map (the_cell t found) (loops t)) (roles collate t)
