-- ===== src/Configuration/Tables.antt =====
-- The tables of the store (migrations/*.sql), each a list of rows in the order that they were
-- written, and the records that the rows are read as (src/configuration/users.rs, roles.rs,
-- loops.rs, grid.rs and records.rs). An identifier or a text is numbered in the order in which the
-- store compares it.
use voxloop.Prelude.{ℕ, Bool, Option, List, is_some}
use voxloop.Names.{Text, UserId, RoleId, LoopId}
use voxloop.Configuration.Permission.{Permission}
use voxloop.Configuration.SignIns.{SignIn}

pub record User : Type 0 where
  pub id : UserId
  pub username : Text
  pub is_system_administrator : Bool
  pub is_locked : Bool
  pub has_password : Bool
  pub external_identity : Option (Text × Text)

pub record Role : Type 0 where
  pub id : RoleId
  pub name : Text
  pub max_occupants : Option ℕ

pub record Loop : Type 0 where
  pub id : LoopId
  pub name : Text
  pub is_unreviewed : Bool

pub record UserRow : Type 0 where
  pub id : UserId
  pub username : Text
  pub password_hash : Option Text
  pub is_system_administrator : Bool
  pub is_locked : Bool
  pub external : Option (Text × Text)
  pub created_at : ℕ

pub record RoleRow : Type 0 where
  pub id : RoleId
  pub name : Text
  pub max_occupants : Option ℕ
  pub created_at : ℕ

pub record LoopRow : Type 0 where
  pub id : LoopId
  pub name : Text
  pub is_unreviewed : Bool
  pub position : ℕ
  pub created_at : ℕ

pub record CellRow : Type 0 where
  pub role : RoleId
  pub held_on : LoopId
  pub permission : Permission
  pub staffs : Bool
  pub set_at : ℕ

pub record EligibilityRow : Type 0 where
  pub user : UserId
  pub role : RoleId
  pub granted_at : ℕ

pub record SubscriptionRow : Type 0 where
  pub user : UserId
  pub role : RoleId
  pub held_on : LoopId
  pub subscribed_at : ℕ

pub record VolumeRow : Type 0 where
  pub user : UserId
  pub role : RoleId
  pub held_on : LoopId
  pub volume : ℕ
  pub set_at : ℕ

pub record CodeRow : Type 0 where
  pub fingerprint : Text
  pub user : UserId
  pub issued_at : ℕ
  pub expires_at : ℕ

pub record Tables : Type 0 where
  pub users : List UserRow
  pub roles : List RoleRow
  pub loops : List LoopRow
  pub cells : List CellRow
  pub eligibility : List EligibilityRow
  pub subscriptions : List SubscriptionRow
  pub volumes : List VolumeRow
  pub sign_ins : List SignIn
  pub codes : List CodeRow

-- `Change<T>`.
pub record Change {ℓ} (A : Type ℓ) : Type ℓ where
  pub before : A
  pub after : Option A

-- The field that a name was typed into.
pub data What : Type 0 where
  the_username the_role_name the_loop_name : What

-- `AdministrationRefused`, without the store's own failure.
pub data Refusal : Type 0 where
  name_taken : What → Text → Refusal
  last_system_administrator nobody_may_occupy incomplete_order cannot_staff : Refusal

pub data Ruling {ℓ} (A : Type ℓ) : Type ℓ where
  done : A → Ruling A
  refused : Refusal → Ruling A

abbrev pub a_user : UserRow → User
a_user row = record {
  id = row.id;
  username = row.username;
  is_system_administrator = row.is_system_administrator;
  is_locked = row.is_locked;
  has_password = is_some row.password_hash;
  external_identity = row.external;
}

abbrev pub a_role : RoleRow → Role
a_role row = record { id = row.id; name = row.name; max_occupants = row.max_occupants }

abbrev pub a_loop_of : LoopRow → Loop
a_loop_of row = record { id = row.id; name = row.name; is_unreviewed = row.is_unreviewed }
