-- ===== src/Configuration/Loops.antt =====
-- Loops (src/configuration/loops.rs), and the base order that an administrator gives them.
use voxloop.Prelude.{
  ℕ, suc, Bool, true, not, ◌&&◌, ◌||◌, Option, none, some, none, ltb, leb, ◌==◌, if◌then◌else◌,
  List, [], ◌∷◌, ◌++◌, map, retain, any, find, contains, length, update_where, order_by,
}
use mathlib.Core.Option as Option
use voxloop.Names.{Text, LoopId}
use voxloop.Configuration.Tables.{
  Loop, LoopRow, Tables, Change, Ruling, done, refused, name_taken, the_loop_name, incomplete_order,
  a_loop_of,
}

abbrev pub is_loop : LoopId → LoopRow → Bool
is_loop id row = row.id == id

unfoldable pub a_loop : Tables → LoopId → Option Loop
a_loop t id = Option.map a_loop_of (find (is_loop id) t.loops)

-- `ORDER BY position, created_at, id`.
abbrev pub in_base_order : LoopRow → LoopRow → Bool
in_base_order a b =
    ltb a.position b.position
    || (a.position == b.position
        && (ltb a.created_at b.created_at || (a.created_at == b.created_at && leb a.id b.id)))

unfoldable pub loops : Tables → List Loop
loops t = map a_loop_of (order_by in_base_order t.loops)

-- `COALESCE(MAX(position), -1) + 1`.
abbrev pub next_position : List LoopRow → ℕ
next_position [] = 0
next_position (row ∷ rest) =
    let after = next_position rest in if ltb row.position after then after else suc row.position

abbrev pub update_loop : LoopId → (LoopRow → LoopRow) → Tables → Tables
update_loop id f t = record t { loops = update_where (is_loop id) f t.loops }

abbrev pub loop_changed : Option Loop → LoopId → Tables → Option (Change Loop)
loop_changed before id after =
    Option.map (λ b. record { before = b; after = a_loop after id }) before

-- The foreign keys delete what is only about the loop.
abbrev pub without_loop : LoopId → Tables → Tables
without_loop id t = record t {
  loops = retain (λ row. not (row.id == id)) t.loops;
  cells = retain (λ row. not (row.held_on == id)) t.cells;
  subscriptions = retain (λ row. not (row.held_on == id)) t.subscriptions;
  volumes = retain (λ row. not (row.held_on == id)) t.volumes;
}

unfoldable pub delete_loop : LoopId → Tables → Tables × Option (Change Loop)
delete_loop id t = elim (a_loop t id) [
  | none ↦ (t, none)
  | some before ↦ (without_loop id t, some (record { before = before; after = none }))
]

-- The `HashSet` of the identifiers that are named.
abbrev pub named_once : List LoopId → List LoopId
named_once [] = []
named_once (id ∷ rest) =
    let others = named_once rest in if contains rest id then others else id ∷ others

abbrev pub all_named : List LoopId → List Loop → Bool
all_named named [] = true
all_named named (held ∷ rest) = contains named held.id && all_named named rest

unfoldable pub names_every_loop_once : List LoopId → List Loop → Bool
names_every_loop_once order present =
    let named = named_once order in
    length named == length order && length named == length present && all_named named present

-- The `for` over the order, from a position on.
unfoldable pub set_positions : ℕ → List LoopId → Tables → Tables
set_positions position [] t = t
set_positions position (id ∷ rest) t =
    set_positions (suc position) rest (update_loop id (λ row. record row { position = position }) t)

unfoldable pub set_the_loop_order : List LoopId → Tables → Tables × Ruling (List Loop)
unfolding names_every_loop_once set_positions
set_the_loop_order order t =
    if names_every_loop_once order (loops t)
    then (let next = set_positions 0 order t in (next, done (loops next)))
    else (t, refused incomplete_order)

module _ (collate : Text → ℕ) where
  unfoldable pub create_loop : LoopId → Text → ℕ → Tables → Tables × Ruling LoopId
  create_loop minted name now t =
      if any (λ row. row.id == minted || collate row.name == collate name) t.loops
      then (t, refused (name_taken the_loop_name name))
      else (
        record t {
          loops =
              t.loops
              ++ record {
                id = minted;
                name = name;
                is_unreviewed = true;
                position = next_position t.loops;
                created_at = now;
              }
                ∷ [];
        },
        done minted,
      )

  unfoldable pub rename_loop : LoopId → Text → Tables → Tables × Ruling (Option (Change Loop))
  rename_loop id name t =
      if any (is_loop id) t.loops
        && any (λ row. not (row.id == id) && collate row.name == collate name) t.loops
      then (t, refused (name_taken the_loop_name name))
      else let next = update_loop id (λ row. record row { name = name }) t in
        (next, done (loop_changed (a_loop t id) id next))
