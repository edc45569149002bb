-- ===== src/Configuration/Grid/Holding.antt =====
-- What the grid enforces after a cell is set and after a loop is dismissed (src/configuration/grid.rs).
use voxloop.Prelude.{
  ℕ, ◌≡◌, refl, ap, ◌∙◌, false, not, ◌&&◌, some, ◌==◌, ==-refl, eq_of_==, if◌then◌else◌, find,
  arith, Bool-cases, inl, inr, find-update_where_other, find-passes, Option-cases,
}
use voxloop.Names.{RoleId, LoopId}
use voxloop.Configuration.Permission.{Permission, nothing}
use voxloop.Configuration.Tables.{LoopRow, Tables}
use voxloop.Configuration.Loops.{is_loop}
use voxloop.Configuration.Grid.{
  Cell, is_cell, cell_of, a_cell, is_complete, rule_on_a_complete_column, write_cell, set_cell,
  held_by,
}
use voxloop.Configuration.Grid.Laws.{
  same_pair, written_permission, write_other, write_cell-IsWritten, cells_of_ruled, held_by_ruled,
}

-- A ruling on one loop's column changes no other loop.
other_loop_of_ruled :
    (held_on held_on' : LoopId) (t : Tables)
    → (held_on' == held_on) ≡ false
    → find (is_loop held_on') (rule_on_a_complete_column held_on t).loops
      ≡ find (is_loop held_on') t.loops
unfolding rule_on_a_complete_column
other_loop_of_ruled held_on held_on' t apart = elim (Bool-cases (is_complete t held_on)) [
  | inl all ↦ rw all (
      find-update_where_other (is_loop held_on) (is_loop held_on')
        (λ row. record row { is_unreviewed = false }) t.loops (λ r h. ground (arith, apart, h))
        (λ r. refl))
  | inr some_lack ↦ rw some_lack refl
]

held_by_ruled_other :
    (held_on held_on' : LoopId) (role : RoleId) (t : Tables)
    → (held_on' == held_on) ≡ false
    → held_by (rule_on_a_complete_column held_on t) role held_on' ≡ held_by t role held_on'
unfolding held_by
held_by_ruled_other held_on held_on' role t apart =
    elim (Option-cases (find (is_loop held_on') t.loops)) [
      | inl lacks ↦
          let found = other_loop_of_ruled held_on held_on' t apart ∙ lacks in
          simp (found, held_by, lacks)
      | inr (row, there) ↦
          let found = other_loop_of_ruled held_on held_on' t apart ∙ there in
          let cells = ap (find (is_cell role row.id)) (cells_of_ruled held_on t) in
          simp (found, held_by, there, cells)
    ]

-- The loops are not what a write changes.
loops_of_written :
    (role : RoleId) (held_on : LoopId) (p : Permission) (now : ℕ) (t : Tables)
    → (write_cell role held_on p now t).loops ≡ t.loops
unfolding write_cell
loops_of_written role held_on p now t = refl

set_cell_known :
    (role : RoleId) (held_on : LoopId) (p : Permission) (now : ℕ) (t : Tables) (before : Cell)
    → a_cell t role held_on ≡ some before
    → (set_cell role held_on p now t).0
      ≡ rule_on_a_complete_column held_on (write_cell role held_on p now t)
unfolding set_cell
set_cell_known role held_on p now t before known = rw (known, set_cell) refl

held_by_written_other :
    (role : RoleId) (held_on : LoopId) (p : Permission) (now : ℕ) (t : Tables) (role' : RoleId)
    (held_on' : LoopId)
    → (held_on' == held_on) ≡ false
    → held_by (write_cell role held_on p now t) role' held_on' ≡ held_by t role' held_on'
unfolding held_by
held_by_written_other role held_on p now t role' held_on' apart =
    let same = loops_of_written role held_on p now t in
    elim (Option-cases (find (is_loop held_on') t.loops)) [
      | inl lacks ↦
          let found = ap (find (is_loop held_on')) same ∙ lacks in simp (found, held_by, lacks)
      | inr (row, there) ↦
          let found = ap (find (is_loop held_on')) same ∙ there in
          let its = eq_of_== row.id held_on' (find-passes (is_loop held_on') t.loops row there) in
          let elsewhere : same_pair role held_on role' row.id ≡ false =
            ground (arith, its, apart) in
          let cells = write_other role held_on p now t role' row.id elsewhere in
          simp (found, held_by, there, cells)
    ]

-- What a role holds on a loop after one role's cell on a loop is set, where that role and that loop
-- are there. On that loop, where every role has a cell once the write is made, or where it had been
-- reviewed already, each role holds what its cell says: the role that was named the permission that
-- was set, and every other what it had. On a loop with a role still to rule on, nobody holds
-- anything. On another loop nothing changes.
pub set_cell-held_by :
    (role : RoleId) (held_on : LoopId) (p : Permission) (now : ℕ) (t : Tables) (row : LoopRow)
    (before : Cell) (role' : RoleId) (held_on' : LoopId)
    → find (is_loop held_on) t.loops ≡ some row
    → a_cell t role held_on ≡ some before
    → held_by (set_cell role held_on p now t).0 role' held_on' ≡ (
        if held_on' == held_on
        then if not (is_complete (write_cell role held_on p now t) held_on) && row.is_unreviewed
          then nothing
          else written_permission (role' == role) p (cell_of t role' held_on)
        else held_by t role' held_on')
set_cell-held_by role held_on p now t row before role' held_on' there known =
    let written = write_cell role held_on p now t in
    ap (λ s. held_by s role' held_on') (set_cell_known role held_on p now t before known)
    ∙ elim (Bool-cases (held_on' == held_on)) [
      | inl same ↦
          let one = write_cell-IsWritten role held_on p now t role' held_on in
          let on_it : same_pair role held_on role' held_on ≡ (role' == role) =
            ground (arith, ==-refl held_on) in
          simp (same) (
            ap (held_by (rule_on_a_complete_column held_on written) role')
              (eq_of_== held_on' held_on same)
            ∙ held_by_ruled written role' held_on row
                (ap (find (is_loop held_on)) (loops_of_written role held_on p now t) ∙ there)
                (eq_of_== row.id held_on (find-passes (is_loop held_on) t.loops row there))
            ∙ ap
                (λ q. if not (is_complete written held_on) && row.is_unreviewed then nothing else q)
                (one.permission_after
                  ∙ ap (λ b. written_permission b p (cell_of t role' held_on)) on_it))
      | inr apart ↦ simp (apart) (
          held_by_ruled_other held_on held_on' role' written apart
          ∙ held_by_written_other role held_on p now t role' held_on' apart)
    ]
