-- ===== src/Configuration/Grid/Staffing.antt =====
-- The roles that staff each loop, against what they hold on it (src/configuration/grid.rs).
use voxloop.Prelude.{
  ◌≡◌, sym, ap, ◌∙◌, true, false, not, ◌&&◌, some, ◌==◌, ==-refl, eq_of_==, List, [], ◌∷◌, map,
  retain, find, arith, Bool-cases, inl, inr, All, any-find-some, ◌⊎◌, All-map, All-both,
  All-retain_holds, All-map-retain, All-flat_map, All-order_by, All-push, Distinct, contains,
  contains-any, subst, order_by,
}
use voxloop.Names.{RoleId}
use voxloop.Configuration.Permission.{emit, carries}
use voxloop.Configuration.Tables.{Loop, CellRow, LoopRow, Tables, a_loop_of}
use voxloop.Configuration.Loops.{is_loop, in_base_order}
use voxloop.Configuration.Grid.{
  is_cell, held_by, staffing_rows, gather_row, gather, the_staffing_roles,
}
use voxloop.Configuration.Grid.Sound.{StaffsWhereItEmits, OneEach-find}
use voxloop.Configuration.Grid.Keeping.{GridIsSound}

-- The role may emit on the loop.
abbrev pub MayEmit : Tables → Loop × RoleId → Type 0
MayEmit t (on, role) = carries (held_by t role on.id) emit ≡ true

-- A row is the one that its identifier finds.
found_by_id :
    (rows : List LoopRow)
    → Distinct (map (λ row. row.id) rows)
    → All (λ row. find (is_loop row.id) rows ≡ some row) rows
found_by_id [] d = tt
found_by_id (row ∷ rows) d = (
  ground (arith, ==-refl row.id),
  All-map (λ r found. another r found (Bool-cases (row.id == r.id))) rows (found_by_id rows d.1),
)
  where
    another :
        (r : LoopRow)
        → find (is_loop r.id) rows ≡ some r
        → (row.id == r.id ≡ true) ⊎ (row.id == r.id ≡ false)
        → find (is_loop r.id) (row ∷ rows) ≡ some r
    another r found (inl same) =
        let e : row.id ≡ r.id = eq_of_== _ _ same in
        let there = any-find-some (is_loop r.id) rows r found in
        let its = contains-any (λ x. x.id) in_base_order r.id rows in
        absurd (ground (arith, d.0, there, its, ap (contains (map (λ x. x.id) rows)) e))
    another r found (inr apart) = simp (apart, found)

module _ (t : Tables) (sound : GridIsSound t) where
  -- A cell that staffs a reviewed loop lets its role emit there.
  cell-MayEmit :
      (row : LoopRow)
      → row.is_unreviewed ≡ false
      → find (is_loop row.id) t.loops ≡ some row
      → (cell : CellRow) → (cell.held_on == row.id && cell.staffs) ≡ true
      → find (is_cell cell.role cell.held_on) t.cells ≡ some cell
      → StaffsWhereItEmits cell
      → MayEmit t (a_loop_of row, cell.role)
  unfolding held_by
  cell-MayEmit row reviewed found cell staffs its emits =
      let on : cell.held_on ≡ row.id = ground (arith, staffs) in
      let holds = ap (λ l. find (is_cell cell.role l) t.cells) (sym on) ∙ its in
      let may : carries cell.permission emit ≡ true = ground (arith, staffs, emits) in
      simp (found, held_by, reviewed, holds, may)

  rows-MayEmit : All (MayEmit t) (staffing_rows t)
  unfolding staffing_rows
  rows-MayEmit =
      All-flat_map (MayEmit t)
        (λ row.
          map (λ cell. (a_loop_of row, cell.role))
            (retain (λ cell. cell.held_on == row.id && cell.staffs) t.cells))
        (retain (λ row. not row.is_unreviewed) (order_by in_base_order t.loops))
        (λ row k.
          All-map-retain (MayEmit t) (λ cell. cell.held_on == row.id && cell.staffs)
            (λ cell. (a_loop_of row, cell.role)) t.cells
            (λ cell staffs c. cell-MayEmit row (ground (arith, k.1)) k.0 cell staffs c.0 c.1)
            (All-both _ StaffsWhereItEmits t.cells (OneEach-find t.cells sound.one_each)
              sound.staffing))
        (All-retain_holds (λ row. find (is_loop row.id) t.loops ≡ some row)
          (λ row. not row.is_unreviewed) (order_by in_base_order t.loops)
          (All-order_by _ in_base_order t.loops (found_by_id t.loops sound.loops_differ)))

-- Each role of an entry may emit on the entry's loop.
abbrev pub EachMayEmit : Tables → Loop × List RoleId → Type 0
EachMayEmit t (on, roles) = All (λ role. MayEmit t (on, role)) roles

gather_row-EachMayEmit :
    (t : Tables) (row : Loop × RoleId) (staffed : List (Loop × List RoleId))
    → MayEmit t row
    → All (EachMayEmit t) staffed
    → All (EachMayEmit t) (gather_row row staffed)
gather_row-EachMayEmit t (on, role) [] may h = ((may, tt), tt)
gather_row-EachMayEmit t (on, role) ((already, its) ∷ []) may h =
    elim (Bool-cases (already.id == on.id)) [
      | inl same ↦
          let here : MayEmit t (already, role) =
            subst (λ id. carries (held_by t role id) emit ≡ true) (sym (eq_of_== _ _ same)) may in
          rw same (All-push (λ r. MayEmit t (already, r)) its role h.0 here, tt)
      | inr apart ↦ rw apart (h.0, ((may, tt), tt))
    ]
gather_row-EachMayEmit t (on, role) (entry ∷ next ∷ rest) may h =
    (h.0, gather_row-EachMayEmit t (on, role) (next ∷ rest) may h.1)

gather-EachMayEmit :
    (t : Tables) (staffed : List (Loop × List RoleId)) (rows : List (Loop × RoleId))
    → All (EachMayEmit t) staffed
    → All (MayEmit t) rows
    → All (EachMayEmit t) (gather staffed rows)
unfolding gather
gather-EachMayEmit t staffed [] h k = h
gather-EachMayEmit t staffed (row ∷ rest) h k =
    gather-EachMayEmit t (gather_row row staffed) rest (gather_row-EachMayEmit t row staffed k.0 h)
      k.1

-- Where no two roles and no two loops share an identifier, no two cells are for one role and loop,
-- and a cell staffs only where it carries `emit`, every role that is listed as staffing a loop may
-- emit on that loop.
pub the_staffing_roles-held_by :
    (t : Tables) → GridIsSound t → All (EachMayEmit t) (the_staffing_roles t)
unfolding the_staffing_roles
the_staffing_roles-held_by t sound =
    gather-EachMayEmit t [] (staffing_rows t) tt (rows-MayEmit t sound)
