-- ===== src/Configuration/Grid/Dismissal.antt =====
-- Dismissing the mark of a loop that nobody has reviewed (src/configuration/grid.rs).
use voxloop.Prelude.{
  ℕ, ◌≡◌, refl, ap, ap₂, ◌∙◌, Bool, true, false, not, ◌&&◌, some, ◌==◌, ==-refl, eq_of_==,
  if◌then◌else◌, List, [], ◌∷◌, ◌++◌, map, retain, any, find, arith, Bool-cases, inl, inr,
  find-passes, any-append,
}
use mathlib.Core.Option as Option
use voxloop.Names.{RoleId, LoopId}
use voxloop.Configuration.Permission.{nothing}
use voxloop.Configuration.Tables.{LoopRow, CellRow, RoleRow, Tables}
use voxloop.Configuration.Loops.{is_loop, a_loop}
use voxloop.Configuration.Grid.{
  is_cell, permission_in, cell_of, is_ruled_on, is_complete, new_cell, rule_on_a_complete_column,
  held_by, dismiss_unreviewed, unruled_cells,
}
use voxloop.Configuration.Grid.Laws.{cells_of_ruled, loop_of_ruled, ruled_loop, held_by_ruled}

module _ (held_on : LoopId) (now : ℕ) where
  -- The cell that a dismissal writes for a role.
  abbrev denied : RoleRow → CellRow
  denied row = new_cell row.id held_on nothing now

  -- Each role of the list that fails the test has its cell among those that are written.
  covered :
      (ruled : RoleRow → Bool) (cells : List CellRow) (rows : List RoleRow)
      → ((row : RoleRow) → ruled row ≡ any (is_cell row.id held_on) cells)
      → (extra : List CellRow)
      → ((row : RoleRow)
          → ruled row ≡ false
          → any (λ r. r.id == row.id) rows ≡ true
          → any (is_cell row.id held_on) extra ≡ true)
      → any (λ row. not (any (is_cell row.id held_on) (cells ++ extra))) rows ≡ false
  covered ruled cells [] says extra has = refl
  covered ruled cells (row ∷ rows) says extra has = ground (
    arith,
    any-append (is_cell row.id held_on) cells extra,
    says row,
    has row,
    ==-refl row.id,
    covered ruled cells rows says extra (λ r f h. has r f (ground (arith, h))),
  )

  written :
      (ruled : RoleRow → Bool) (rows : List RoleRow) (row : RoleRow)
      → ruled row ≡ false
      → any (λ r. r.id == row.id && not (ruled r)) rows ≡ true
      → any (is_cell row.id held_on) (map denied (retain (λ r. not (ruled r)) rows)) ≡ true
  written ruled [] row f h = absurd (cc)
  written ruled (r ∷ rows) row f h = ground (arith, written ruled rows row f, ==-refl held_on)

  -- The first cell of a pair gives the permission that it gave before the denials were written.
  permission_of_covered :
      (role : RoleId) (on : LoopId) (cells : List CellRow) (rows : List RoleRow)
      → permission_in (find (is_cell role on) (cells ++ map denied rows))
        ≡ permission_in (find (is_cell role on) cells)
  permission_of_covered role on [] [] = refl
  permission_of_covered role on [] (row ∷ rows) =
      ground (arith, permission_of_covered role on [] rows)
  permission_of_covered role on (cell ∷ cells) rows =
      ground (arith, permission_of_covered role on cells rows)

  -- A test on a role's identifier that fails for one row fails for each row of that identifier.
  among_the_denied :
      (holds : RoleId → Bool) (rows : List RoleRow) (row : RoleRow)
      → holds row.id ≡ false
      → any (λ r. r.id == row.id) rows ≡ true
      → any (λ r. r.id == row.id && not (holds r.id)) rows ≡ true
  among_the_denied holds [] row f h = h
  among_the_denied holds (r ∷ rows) row f h = elim (Bool-cases (r.id == row.id)) [
    | inl same ↦
        let e : holds r.id ≡ false = ap holds (eq_of_== r.id row.id same) ∙ f in
        ground (arith, e, same)
    | inr apart ↦ ground (arith, apart, among_the_denied holds rows row f)
  ]

  abbrev dismissed : Tables → Tables
  dismissed t = record t { cells = t.cells ++ unruled_cells held_on now t }

  complete_when_dismissed : (t : Tables) → is_complete (dismissed t) held_on ≡ true
  complete_when_dismissed t = ap not (
      covered (is_ruled_on t held_on) t.cells t.roles (λ row. refl) (unruled_cells held_on now t)
        (λ row f h.
          written (is_ruled_on t held_on) t.roles row f
            (among_the_denied (λ id. any (is_cell id held_on) t.cells) t.roles row f h)))

  dismissed_known :
      (t : Tables) (row : LoopRow)
      → find (is_loop held_on) t.loops ≡ some row
      → (dismiss_unreviewed held_on now t).0 ≡ rule_on_a_complete_column held_on (dismissed t)
  unfolding a_loop dismiss_unreviewed
  dismissed_known t row there = rw (there, dismiss_unreviewed, a_loop) refl

  -- Dismissing the mark of a loop that the store has clears it, whichever roles had a cell on it.
  -- No role's permission in the grid changes by it, on this loop or another, and on this loop each
  -- role holds from then on what its cell said before: nothing where it had none.
  pub dismiss_unreviewed-held_by :
      (t : Tables) (row : LoopRow) (role : RoleId) (on : LoopId)
      → find (is_loop held_on) t.loops ≡ some row
      → let next = (dismiss_unreviewed held_on now t).0 in
        (find (is_loop held_on) next.loops ≡ some (record row { is_unreviewed = false }))
        × (permission_in (cell_of next role on) ≡ permission_in (cell_of t role on))
        × (held_by next role held_on ≡ permission_in (cell_of t role held_on))
  dismiss_unreviewed-held_by t row role on there =
      let next_is = dismissed_known t row there in
      let complete = complete_when_dismissed t in
      let its = eq_of_== row.id held_on (find-passes (is_loop held_on) t.loops row there) in
      let unruled = retain (λ r. not (is_ruled_on t held_on r)) t.roles in
      (
        ap (λ s. find (is_loop held_on) s.loops) next_is
            ∙ loop_of_ruled held_on (dismissed t)
            ∙ ap₂ (λ b o. Option.map (ruled_loop b) o) complete there,
        ap (λ s. permission_in (cell_of s role on)) next_is
            ∙ ap (λ cells. permission_in (find (is_cell role on) cells))
                (cells_of_ruled held_on (dismissed t))
            ∙ permission_of_covered role on t.cells unruled,
        ap (λ s. held_by s role held_on) next_is
            ∙ held_by_ruled (dismissed t) role held_on row there its
            ∙ ap
                (λ b.
                  if not b && row.is_unreviewed
                  then nothing
                  else permission_in (cell_of (dismissed t) role held_on))
                complete
            ∙ permission_of_covered role held_on t.cells unruled,
      )
