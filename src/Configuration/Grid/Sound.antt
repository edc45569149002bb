-- ===== src/Configuration/Grid/Sound.antt =====
-- What a table of cells keeps: one cell for a pair, and no staffing without `emit`
-- (src/configuration/grid.rs, migrations/*.sql).
use voxloop.Prelude.{
  ℕ, ◌≡◌, refl, sym, ap, ◌∙◌, Bool, true, false, not, ◌||◌, some, ==-refl, if◌then◌else◌, List, [],
  ◌∷◌, ◌++◌, map, retain, any, find, arith, Bool-cases, inl, inr, update_where, update_where_none,
  any-find-some, ◌⊎◌, ap₂, subst, All, any-append, any-retain, any-update_where, All-map, Distinct,
  contains,
}
use voxloop.Names.{RoleId, LoopId}
use voxloop.Configuration.Permission.{nothing, emit, carries}
use voxloop.Configuration.Tables.{CellRow, RoleRow}
use voxloop.Configuration.Grid.{is_cell, permission_in, new_cell}

-- A cell staffs only where it carries `emit`.
abbrev pub StaffsWhereItEmits : CellRow → Type 0
StaffsWhereItEmits row = (not row.staffs || carries row.permission emit) ≡ true

-- No two cells are for one pair.
abbrev pub OneEach : List CellRow → Type 0
OneEach [] = Unit
OneEach (x ∷ xs) = (any (is_cell x.role x.held_on) xs ≡ false) × OneEach xs

pub OneEach-update_where :
    (p : CellRow → Bool) (f : CellRow → CellRow) (xs : List CellRow)
    → ((x : CellRow) → (f x).role ≡ x.role)
    → ((x : CellRow) → (f x).held_on ≡ x.held_on)
    → OneEach xs
    → OneEach (update_where p f xs)
OneEach-update_where p f [] r l h = h
OneEach-update_where p f (x ∷ xs) r l h = elim (Bool-cases (p x)) [
  | inl hit ↦ simp (hit, r x, l x) (keeps x ∙ h.0, OneEach-update_where p f xs r l h.1)
  | inr miss ↦ simp (miss) (keeps x ∙ h.0, OneEach-update_where p f xs r l h.1)
]
  where
    keeps :
        (x : CellRow)
        → any (is_cell x.role x.held_on) (update_where p f xs) ≡ any (is_cell x.role x.held_on) xs
    keeps x = any-update_where p (is_cell x.role x.held_on) f xs (λ y. ground (arith, r y, l y))

pub OneEach-retain : (p : CellRow → Bool) (xs : List CellRow) → OneEach xs → OneEach (retain p xs)
OneEach-retain p [] h = h
OneEach-retain p (x ∷ xs) h =
    ground (arith, any-retain p (is_cell x.role x.held_on) xs h.0, OneEach-retain p xs h.1)

-- A cell that is in neither of two tables' pairs.
apart_both :
    (x : CellRow) (ys : List CellRow)
    → All (λ y. is_cell y.role y.held_on x ≡ false) ys
    → any (is_cell x.role x.held_on) ys ≡ false
apart_both x [] h = refl
apart_both x (y ∷ ys) h = ground (arith, h.0, apart_both x ys h.1)

pub OneEach-append :
    (xs ys : List CellRow)
    → OneEach xs
    → OneEach ys
    → All (λ y. any (is_cell y.role y.held_on) xs ≡ false) ys
    → OneEach (xs ++ ys)
OneEach-append [] ys h k apart = k
OneEach-append (x ∷ xs) ys h k apart =
    let from_x = apart_both x ys (All-map (λ y a. ground (arith, a)) ys apart) in
    (
      any-append (is_cell x.role x.held_on) xs ys ∙ ground (arith, h.0, from_x),
      OneEach-append xs ys h.1 k (All-map (λ y a. ground (arith, a)) ys apart),
    )

-- The one cell of a pair is the one that is found.
pub OneEach-find :
    (xs : List CellRow) → OneEach xs → All (λ x. find (is_cell x.role x.held_on) xs ≡ some x) xs
OneEach-find [] h = tt
OneEach-find (x ∷ xs) h = (
  ground (arith, ==-refl x.role, ==-refl x.held_on),
  All-map (λ y found. another y found (Bool-cases (is_cell y.role y.held_on x))) xs
      (OneEach-find xs h.1),
)
  where
    another :
        (y : CellRow)
        → find (is_cell y.role y.held_on) xs ≡ some y
        → (is_cell y.role y.held_on x ≡ true) ⊎ (is_cell y.role y.held_on x ≡ false)
        → find (is_cell y.role y.held_on) (x ∷ xs) ≡ some y
    another y found (inl same) =
        let r : x.role ≡ y.role = ground (arith, same) in
        let l : x.held_on ≡ y.held_on = ground (arith, same) in
        let there = any-find-some (is_cell y.role y.held_on) xs y found in
        absurd (ground (arith, h.0, there, ap₂ (λ a b. any (is_cell a b) xs) r l))
    another y found (inr apart) = simp (apart, found)

-- Marking the cell of a pair, where what is found for it carries `emit` or the mark is taken off.
pub staffing_marked :
    (role : RoleId) (on : LoopId) (staffs : Bool) (now : ℕ) (xs : List CellRow)
    → OneEach xs
    → (not staffs || carries (permission_in (find (is_cell role on) xs)) emit) ≡ true
    → All StaffsWhereItEmits xs
    → All StaffsWhereItEmits
        (update_where (is_cell role on) (λ row. record row { staffs = staffs; set_at = now }) xs)
staffing_marked role on staffs now [] one may all = tt
staffing_marked role on staffs now (x ∷ xs) one may all = elim (Bool-cases (is_cell role on x)) [
  | inl hit ↦
      let r : x.role ≡ role = ground (arith, hit) in
      let l : x.held_on ≡ on = ground (arith, hit) in
      let no_other = ap₂ (λ a b. any (is_cell a b) xs) (sym r) (sym l) ∙ one.0 in
      let rest =
        update_where_none (is_cell role on) (λ row. record row { staffs = staffs; set_at = now }) xs
          no_other in
      rw hit (may_here hit, subst (All StaffsWhereItEmits) (sym rest) all.1)
  | inr miss ↦ rw miss (all.0, staffing_marked role on staffs now xs one.1 (may_there miss) all.1)
]
  where
    may_here : is_cell role on x ≡ true → (not staffs || carries x.permission emit) ≡ true
    may_here hit =
        ap
          (λ b.
            not staffs
            || carries (permission_in (if b then some x else find (is_cell role on) xs)) emit)
          (sym hit)
        ∙ may

    may_there :
        is_cell role on x ≡ false
        → (not staffs || carries (permission_in (find (is_cell role on) xs)) emit) ≡ true
    may_there miss =
        ap
          (λ b.
            not staffs
            || carries (permission_in (if b then some x else find (is_cell role on) xs)) emit)
          (sym miss)
        ∙ may

module _ (held_on : LoopId) (now : ℕ) where
  abbrev denied : List RoleRow → List CellRow
  denied = map (λ row. new_cell row.id held_on nothing now)

  any-denied :
      (id : RoleId) (rows : List RoleRow)
      → any (is_cell id held_on) (denied rows) ≡ contains (map (λ row. row.id) rows) id
  any-denied id [] = refl
  any-denied id (row ∷ rows) = ground (arith, ==-refl held_on, any-denied id rows)

  pub OneEach-denied :
      (rows : List RoleRow) → Distinct (map (λ row. row.id) rows) → OneEach (denied rows)
  OneEach-denied [] d = tt
  OneEach-denied (row ∷ rows) d = (any-denied row.id rows ∙ d.0, OneEach-denied rows d.1)

  pub staffing_denied : (rows : List RoleRow) → All StaffsWhereItEmits (denied rows)
  staffing_denied [] = tt
  staffing_denied (row ∷ rows) = (refl, staffing_denied rows)

  pub denied_apart :
      (cells : List CellRow) (rows : List RoleRow)
      → All
          (λ y. any (is_cell y.role y.held_on) cells ≡ false)
          (denied (retain (λ row. not (any (is_cell row.id held_on) cells)) rows))
  denied_apart cells [] = tt
  denied_apart cells (row ∷ rows) = elim (Bool-cases (any (is_cell row.id held_on) cells)) [
    | inl ruled ↦ rw ruled (denied_apart cells rows)
    | inr unruled ↦ rw unruled (unruled, denied_apart cells rows)
  ]
