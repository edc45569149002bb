-- ===== src/Configuration/Grid/Laws.antt =====
-- What a write to the grid leaves of every cell (src/configuration/grid.rs).
use voxloop.Prelude.{
  ℕ, ◌≡◌, refl, sym, ap, ◌∙◌, Bool, true, false, not, ◌&&◌, ◌||◌, Option, none, some, ◌==◌, ==-refl,
  if◌then◌else◌, any, find, arith, Bool-cases, Option-cases, inl, inr, find-push, find-push_other,
  any-NoneOf_complete, any-find-some, any-find, is_some, find-update_where_self,
  find-update_where_other,
}
use mathlib.Core.Option as Option
use voxloop.Names.{RoleId, LoopId}
use voxloop.Configuration.Permission.{Permission, nothing, emit, carries}
use voxloop.Configuration.Tables.{LoopRow, CellRow, Tables}
use voxloop.Configuration.Loops.{is_loop}
use voxloop.Configuration.Grid.{
  is_cell, permission_in, staffs_in, cell_of, is_complete, rule_on_a_complete_column, lowered_to,
  new_cell, write_cell, held_by,
}

abbrev pub same_pair : RoleId → LoopId → RoleId → LoopId → Bool
same_pair role held_on role' held_on' = role' == role && held_on' == held_on

-- What a write makes of the pair that it names, and of any other.
abbrev pub written_permission : Bool → Permission → Option CellRow → Permission
written_permission true p before = p
written_permission false p before = permission_in before

abbrev pub written_staffs : Bool → Permission → Option CellRow → Bool
written_staffs true p before = carries p emit && staffs_in before
written_staffs false p before = staffs_in before

pub record IsWritten (same : Bool) (p : Permission) (before after : Option CellRow) : Type 0 where
  pub permission_after : permission_in after ≡ written_permission same p before
  pub staffs_after : staffs_in after ≡ written_staffs same p before
  pub ruled_after : is_some after ≡ same || is_some before

module _ (role : RoleId) (held_on : LoopId) (p : Permission) (now : ℕ) (t : Tables) where
  write_self :
      IsWritten true p
        (cell_of t role held_on)
        (cell_of (write_cell role held_on p now t) role held_on)
  unfolding write_cell
  write_self = elim (Option-cases (cell_of t role held_on)) [
    | inl new ↦
        let none_there = any-find (is_cell role held_on) t.cells new in
        let found =
          find-push (is_cell role held_on) t.cells (new_cell role held_on p now)
            (any-NoneOf_complete _ _ none_there) (ground (arith, ==-refl role, ==-refl held_on)) in
        rw (none_there, write_cell, found, new)
          (record { permission_after = refl; staffs_after = ground arith; ruled_after = refl })
    | inr (row, there) ↦
        let some_there = any-find-some (is_cell role held_on) t.cells row there in
        let found =
          find-update_where_self (is_cell role held_on) (lowered_to p now) t.cells (λ r. refl)
          ∙ ap (Option.map (lowered_to p now)) there in
        rw (some_there, write_cell, found, there)
          (record { permission_after = refl; staffs_after = refl; ruled_after = refl })
  ]

  pub write_other :
      (role' : RoleId) (held_on' : LoopId)
      → same_pair role held_on role' held_on' ≡ false
      → cell_of (write_cell role held_on p now t) role' held_on' ≡ cell_of t role' held_on'
  unfolding write_cell
  write_other role' held_on' apart = elim (Bool-cases (any (is_cell role held_on) t.cells)) [
    | inl there ↦
        rw (there, write_cell)
          (find-update_where_other (is_cell role held_on) (is_cell role' held_on')
            (lowered_to p now) t.cells (λ r h. ground (arith, apart, h)) (λ r. refl))
    | inr new ↦
        rw (new, write_cell)
          (find-push_other (is_cell role' held_on') t.cells (new_cell role held_on p now)
            (ground (arith, apart)))
  ]

  pub write_cell-IsWritten :
      (role' : RoleId) (held_on' : LoopId)
      → IsWritten
          (same_pair role held_on role' held_on')
          p
          (cell_of t role' held_on')
          (cell_of (write_cell role held_on p now t) role' held_on')
  write_cell-IsWritten role' held_on' = elim (Bool-cases (same_pair role held_on role' held_on')) [
    | inl same ↦
        let r : role' ≡ role = ground (arith, same) in
        let l : held_on' ≡ held_on = ground (arith, same) in rw (same, r, l) write_self
    | inr apart ↦
        rw (apart, write_other role' held_on' apart)
          (record { permission_after = refl; staffs_after = refl; ruled_after = refl })
  ]

-- Ruling on a complete column writes no cell, and no role.
pub cells_of_ruled :
    (held_on : LoopId) (t : Tables) → (rule_on_a_complete_column held_on t).cells ≡ t.cells
unfolding rule_on_a_complete_column
cells_of_ruled held_on t = elim (Bool-cases (is_complete t held_on)) [
  | inl all ↦ rw all refl
  | inr some_lack ↦ rw some_lack refl
]

-- A loop as a ruling on its column leaves it.
abbrev pub ruled_loop : Bool → LoopRow → LoopRow
ruled_loop complete row = record row { is_unreviewed = not complete && row.is_unreviewed }

pub loop_of_ruled :
    (held_on : LoopId) (t : Tables)
    → find (is_loop held_on) (rule_on_a_complete_column held_on t).loops
      ≡ Option.map (ruled_loop (is_complete t held_on)) (find (is_loop held_on) t.loops)
unfolding rule_on_a_complete_column
loop_of_ruled held_on t = elim (Bool-cases (is_complete t held_on)) [
  | inl all ↦ rw all (
      find-update_where_self (is_loop held_on) (λ row. record row { is_unreviewed = false }) t.loops
        (λ r. refl))
  | inr some_lack ↦ rw some_lack (sym (unchanged (find (is_loop held_on) t.loops)))
]
  where
    unchanged : (o : Option LoopRow) → Option.map (ruled_loop false) o ≡ o
    unchanged none = refl
    unchanged (some row) = refl

-- What is held on a loop after a ruling on its column.
pub held_by_ruled :
    (t : Tables) (role : RoleId) (held_on : LoopId) (row : LoopRow)
    → find (is_loop held_on) t.loops ≡ some row
    → row.id ≡ held_on
    → held_by (rule_on_a_complete_column held_on t) role held_on ≡ (
        if not (is_complete t held_on) && row.is_unreviewed
        then nothing
        else permission_in (cell_of t role held_on))
unfolding held_by
held_by_ruled t role held_on row there e =
    let found =
      loop_of_ruled held_on t ∙ ap (Option.map (ruled_loop (is_complete t held_on))) there in
    let cells = ap (find (is_cell role held_on)) (cells_of_ruled held_on t) in
    simp (found, held_by, e, cells)
