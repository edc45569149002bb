-- ===== src/Configuration/Personalisation.antt =====
-- What the store remembers of a user in a role: the loops subscribed to, and their volumes
-- (src/configuration/personalisation.rs).
use voxloop.Prelude.{
  ℕ, Bool, not, ◌&&◌, none, some, leb, ◌==◌, if◌then◌else◌, List, [], ◌∷◌, ◌++◌, map, flat_map,
  retain, any, update_where, order_by,
}
use voxloop.Names.{UserId, RoleId, LoopId}
use voxloop.Configuration.Permission.{Volume, presented}
use voxloop.Configuration.Tables.{LoopRow, SubscriptionRow, VolumeRow, Tables}
use voxloop.Configuration.Users.{is_user}
use voxloop.Configuration.Roles.{is_role}
use voxloop.Configuration.Loops.{is_loop}

-- `WHERE EXISTS`, once for each of the three.
abbrev pub all_exist : UserId → RoleId → LoopId → Tables → Bool
all_exist id role held_on t =
    any (is_user id) t.users && any (is_role role) t.roles && any (is_loop held_on) t.loops

abbrev pub is_subscription : UserId → RoleId → LoopId → SubscriptionRow → Bool
is_subscription id role held_on row = row.user == id && row.role == role && row.held_on == held_on

abbrev pub is_volume : UserId → RoleId → LoopId → VolumeRow → Bool
is_volume id role held_on row = row.user == id && row.role == role && row.held_on == held_on

-- `JOIN loops ON .. ORDER BY loops.position`.
abbrev pub by_position {ℓ} : {A : Type ℓ} → LoopRow × A → LoopRow × A → Bool
by_position a b = leb a.0.position b.0.position

abbrev pub joined {ℓ} : {A : Type ℓ} → LoopId → A → Tables → List (LoopRow × A)
joined held_on a t = map (λ row. (row, a)) (retain (is_loop held_on) t.loops)

unfoldable pub the_subscriptions_of : Tables → UserId → RoleId → List LoopId
unfolding flat_map
the_subscriptions_of t id role =
    map (λ found. found.1)
      (order_by by_position (
        flat_map (λ row. joined row.held_on row.held_on t)
          (retain (λ row. row.user == id && row.role == role) t.subscriptions)))

unfoldable pub remember_a_subscription : UserId → RoleId → LoopId → ℕ → Tables → Tables
remember_a_subscription id role held_on now t =
    if all_exist id role held_on t && not (any (is_subscription id role held_on) t.subscriptions)
    then record t {
      subscriptions =
          t.subscriptions
          ++ record { user = id; role = role; held_on = held_on; subscribed_at = now } ∷ [];
    }
    else t

unfoldable pub forget_a_subscription : UserId → RoleId → LoopId → Tables → Tables
forget_a_subscription id role held_on t = record t {
  subscriptions = retain (λ row. not (is_subscription id role held_on row)) t.subscriptions;
}

-- `filter_map`: a row whose number is no byte, or no volume, is left out.
abbrev pub volumes_in : List (LoopRow × VolumeRow) → List (LoopId × Volume)
unfolding presented
volumes_in [] = []
volumes_in ((_, row) ∷ rest) =
    let others = volumes_in rest in
    elim (if leb row.volume 255 then presented row.volume else none) [
      | none ↦ others
      | some volume ↦ (row.held_on, volume) ∷ others
    ]

unfoldable pub the_volumes_of : Tables → UserId → RoleId → List (LoopId × Volume)
unfolding flat_map
the_volumes_of t id role = volumes_in (
    order_by by_position (
      flat_map (λ row. joined row.held_on row t)
        (retain (λ row. row.user == id && row.role == role) t.volumes)))

-- The upsert.
abbrev pub with_volume : UserId → RoleId → LoopId → Volume → ℕ → List VolumeRow → List VolumeRow
with_volume id role held_on volume now rows =
    if any (is_volume id role held_on) rows
    then update_where (is_volume id role held_on)
        (λ row. record row { volume = volume; set_at = now }) rows
    else rows
      ++ record { user = id; role = role; held_on = held_on; volume = volume; set_at = now } ∷ []

unfoldable pub remember_a_volume : UserId → RoleId → LoopId → Volume → ℕ → Tables → Tables
remember_a_volume id role held_on volume now t =
    if all_exist id role held_on t
    then record t { volumes = with_volume id role held_on volume now t.volumes }
    else t
