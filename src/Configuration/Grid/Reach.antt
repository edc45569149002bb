-- ===== src/Configuration/Grid/Reach.antt =====
-- The loops a role reaches, against what it holds on each (src/configuration/grid.rs).
use voxloop.Prelude.{
  ◌≡◌, refl, sym, ap, subst, ◌∙◌, Option, none, some, ◌==◌, if◌then◌else◌, List, [], ◌∷◌, map, find,
  Distinct, Distinct-order_by, find-retain, find-map, find-order_by, order_by, inl, inr, only_if,
  Bool-cases,
}
use mathlib.Core.Option as Option
use voxloop.Names.{RoleId, LoopId}
use voxloop.Configuration.Permission.{Permission, nothing, carries}
use voxloop.Configuration.Tables.{Loop, LoopRow, Tables, a_loop_of}
use voxloop.Configuration.Loops.{is_loop, a_loop, in_base_order}
use voxloop.Configuration.Grid.{enforced, held_by, the_reach_of}

map-map {ℓ κ ι} :
    {A : Type ℓ} {B : Type κ} {C : Type ι} (g : B → C) (f : A → B) (xs : List A)
    → map g (map f xs) ≡ map (λ x. g (f x)) xs
map-map g f [] = refl
map-map g f (x ∷ xs) = ap (◌∷◌ (g (f x))) (map-map g f xs)

-- What is held on a loop, by the row that is found for it.
abbrev held_on_row : Tables → RoleId → Option LoopRow → Permission
held_on_row t role none = nothing
held_on_row t role (some row) = enforced t role row

of_the_row :
    (t : Tables) (role : RoleId) (rung : Permission) (found : Option LoopRow)
    → only_if {A = Loop × Permission}
        (λ e. carries e.1 rung)
        (Option.map (λ row. (a_loop_of row, enforced t role row)) found)
      ≡ (if carries (held_on_row t role found) rung
          then Option.map (λ loop. (loop, held_on_row t role found)) (Option.map a_loop_of found)
          else none)
of_the_row t role rung none = elim (Bool-cases (carries nothing rung)) [
  | inl carried ↦ rw carried refl
  | inr short ↦ rw short refl
]
of_the_row t role rung (some row) = refl

-- Where no two loops have one identifier, the reach of a role names a loop exactly where what the
-- role holds on it carries the rung that is asked for, and says what the role holds on it.
pub the_reach_of-held_by :
    (t : Tables) (role : RoleId) (rung : Permission) (id : LoopId)
    → Distinct (map (λ row. row.id) t.loops)
    → find (λ entry. entry.0.id == id) (the_reach_of t role rung) ≡ (
        if carries (held_by t role id) rung
        then Option.map (λ found. (found, held_by t role id)) (a_loop t id)
        else none)
unfolding the_reach_of a_loop held_by
the_reach_of-held_by t role rung id d =
    let entry : LoopRow → Loop × Permission = λ row. (a_loop_of row, enforced t role row) in
    let ordered = order_by in_base_order t.loops in
    let distinct : Distinct (map (λ e. e.0.id) (map entry ordered)) =
      subst Distinct (sym (map-map (λ e. e.0.id) entry ordered))
        (Distinct-order_by (λ row. row.id) in_base_order t.loops d) in
    find-retain (λ e. e.0.id) (λ e. carries e.1 rung) id (map entry ordered) distinct
    ∙ ap (only_if {A = Loop × Permission} (λ e. carries e.1 rung)) (
        find-map (λ e. e.0.id == id) entry ordered
        ∙ ap (Option.map entry) (find-order_by (λ row. row.id) in_base_order id t.loops d))
    ∙ of_the_row t role rung (find (is_loop id) t.loops)
