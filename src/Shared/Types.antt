-- ===== src/Shared/Types.antt =====
-- src/shared/types: records, operations, permissions and table settings. `V` is the type of the
-- payloads, which the program never looks into; a field `x?: T` is an `Option`.
use typescript_tetherdb.Base.{ℕ, Text, Bool, Option, List}

-- records.ts
pub data OperationType : Type 0 where
  put delete : OperationType

pub record ChangeRecord (V : Type 0) : Type 0 where
  pub table : Text
  pub id : Text
  pub op : OperationType
  pub payload : Option V
  pub version : Option ℕ
  pub seq : Option ℕ
  pub timestamp : ℕ
  pub client_id : Option Text
  pub user_name : Option Text
  -- Not in the declared type: the server's resolver attaches it, and its broadcast reads it.
  pub user_id : Option Text

pub record StoredRecord (V : Type 0) : Type 0 where
  pub id : Text
  pub payload : V
  pub version : ℕ
  pub timestamp : ℕ
  pub deleted : Option Bool
  pub client_id : Option Text
  pub user_name : Option Text

pub record SnapshotRecord (V : Type 0) : Type 0 where
  pub table : Text
  pub stored : StoredRecord V

-- permissions.ts
pub data Permission : Type 0 where
  everybody authenticated owner nobody : Permission

pub record TablePermissions : Type 0 where
  pub create : Permission
  pub read : Permission
  pub update : Permission
  pub delete : Permission

abbrev pub user_private_permissions : TablePermissions
user_private_permissions = record {
  create = authenticated;
  read = owner;
  update = owner;
  delete = owner;
}

abbrev pub public_read_permissions : TablePermissions
public_read_permissions = record {
  create = authenticated;
  read = everybody;
  update = owner;
  delete = owner;
}

abbrev pub public_read_write_permissions : TablePermissions
public_read_write_permissions = record {
  create = everybody;
  read = everybody;
  update = everybody;
  delete = everybody;
}

abbrev pub shared_permissions : TablePermissions
shared_permissions = record {
  create = authenticated;
  read = authenticated;
  update = owner;
  delete = owner;
}

abbrev pub default_table_permissions : TablePermissions
default_table_permissions = user_private_permissions

-- tables.ts
pub record TableRow (V : Type 0) : Type 0 where
  pub id : Text
  pub payload : V
  pub user_name : Option Text

pub record TableSettings (V : Type 0) : Type 0 where
  pub permissions : TablePermissions
  pub rows : Option (List (TableRow V))
  pub max_records : Option ℕ
  pub max_record_size_bytes : Option ℕ
  pub max_history_entries : Option ℕ

-- `Partial<TableSettings>`, in which the permissions may be partial too. A field that is absent
-- is `none`.
pub record PartialPermissions : Type 0 where
  pub create : Option Permission
  pub read : Option Permission
  pub update : Option Permission
  pub delete : Option Permission

pub record PartialSettings (V : Type 0) : Type 0 where
  pub permissions : Option PartialPermissions
  pub rows : Option (List (TableRow V))
  pub max_records : Option ℕ
  pub max_record_size_bytes : Option ℕ
  pub max_history_entries : Option ℕ
