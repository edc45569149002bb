-- ===== src/Configuration/Grid/History.antt =====
-- The acts that an administrator has on roles, loops and the grid, in any order
-- (src/configuration/roles.rs, loops.rs and grid.rs).
use voxloop.Prelude.{ℕ, Bool, Option, List, [], ◌∷◌}
use voxloop.Names.{Text, RoleId, LoopId}
use voxloop.Configuration.Permission.{Permission}
use voxloop.Configuration.Tables.{Tables}
use voxloop.Configuration.Roles.{NewRole, create_role, rename_role, set_max_occupants, delete_role}
use voxloop.Configuration.Loops.{create_loop, rename_loop, delete_loop, set_the_loop_order}
use voxloop.Configuration.Grid.{set_cell, set_staffing, dismiss_unreviewed}
use voxloop.Configuration.Grid.Records.{
  delete_role-GridIsSound, delete_loop-GridIsSound, create_role-GridIsSound,
  create_loop-GridIsSound, rename_role-GridIsSound, rename_loop-GridIsSound,
  set_max_occupants-GridIsSound, set_the_loop_order-GridIsSound,
}
use voxloop.Configuration.Grid.Keeping.{
  GridIsSound, set_cell-GridIsSound, set_staffing-GridIsSound, dismiss_unreviewed-GridIsSound,
}

pub data Act : Type 0 where
  set : RoleId → LoopId → Permission → ℕ → Act
  staff : RoleId → LoopId → Bool → ℕ → Act
  dismiss : LoopId → ℕ → Act
  add_role : RoleId → NewRole → ℕ → Act
  name_role : RoleId → Text → Act
  limit_role : RoleId → Option ℕ → Act
  remove_role : RoleId → Act
  add_loop : LoopId → Text → ℕ → Act
  name_loop : LoopId → Text → Act
  remove_loop : LoopId → Act
  order_loops : List LoopId → Act

module _ (collate : Text → ℕ) where
  -- What an act leaves of the tables, refused or not.
  abbrev pub after : Act → Tables → Tables
  after (set role on p now) t = (set_cell role on p now t).0
  after (staff role on staffs now) t = (set_staffing role on staffs now t).0
  after (dismiss on now) t = (dismiss_unreviewed on now t).0
  after (add_role minted new now) t = (create_role collate minted new now t).0
  after (name_role id name) t = (rename_role collate id name t).0
  after (limit_role id limit) t = (set_max_occupants id limit t).0
  after (remove_role id) t = (delete_role id t).0
  after (add_loop minted name now) t = (create_loop collate minted name now t).0
  after (name_loop id name) t = (rename_loop collate id name t).0
  after (remove_loop id) t = (delete_loop id t).0
  after (order_loops ids) t = (set_the_loop_order ids t).0

  abbrev pub after_all : List Act → Tables → Tables
  after_all [] t = t
  after_all (act ∷ acts) t = after_all acts (after act t)

  after-GridIsSound : (act : Act) (t : Tables) → GridIsSound t → GridIsSound (after act t)
  after-GridIsSound (set role on p now) t s = set_cell-GridIsSound on role p now t s
  after-GridIsSound (staff role on b now) t s = set_staffing-GridIsSound on role b now t s
  after-GridIsSound (dismiss on now) t s = dismiss_unreviewed-GridIsSound on now t s
  after-GridIsSound (add_role id new now) t s = create_role-GridIsSound collate id new now t s
  after-GridIsSound (name_role id name) t s = rename_role-GridIsSound collate id name t s
  after-GridIsSound (limit_role id limit) t s = set_max_occupants-GridIsSound id limit t s
  after-GridIsSound (remove_role id) t s = delete_role-GridIsSound id t s
  after-GridIsSound (add_loop id name now) t s = create_loop-GridIsSound collate id name now t s
  after-GridIsSound (name_loop id name) t s = rename_loop-GridIsSound collate id name t s
  after-GridIsSound (remove_loop id) t s = delete_loop-GridIsSound id t s
  after-GridIsSound (order_loops ids) t s = set_the_loop_order-GridIsSound ids t s

  -- Whatever an administrator does to the roles, the loops and the grid, in whatever order and
  -- refused or not, no two roles and no two loops share an identifier, no two cells are for one
  -- role and loop, and a cell staffs its loop only where it carries `emit`, once that is so.
  pub after_all-GridIsSound :
      (acts : List Act) (t : Tables) → GridIsSound t → GridIsSound (after_all acts t)
  after_all-GridIsSound [] t sound = sound
  after_all-GridIsSound (act ∷ acts) t sound =
      after_all-GridIsSound acts (after act t) (after-GridIsSound act t sound)
