-- ===== src/Server/Storage.antt =====
-- src/server/storage/storage.ts: what the storage engines share.
pub mod Applied
pub mod Batch
use typescript_tetherdb.Base.{
  ℕ, ◌*◌, ◌+◌, ◌≡◌, Text, Bool, true, false, ◌&&◌, ◌||◌, not, Option, none, some, List, [], ◌∷◌,
  get_or, ltb, length, if◌then◌else◌,
}
use typescript_tetherdb.Shared.Types.{OperationType, put, delete, ChangeRecord}
use typescript_tetherdb.Server.Errors.{
  Result, ok, throw, not_found, limit_exceeded, ◌>>=◌, ◌>>◌, require,
}
use typescript_tetherdb.Server.User.{User, user_id, is_authenticated, is_admin}
use typescript_tetherdb.Server.Security.{InternalStoredRecord, InternalChangeRecord}
use typescript_tetherdb.Server.Table.{Table}
use typescript_tetherdb.Server.Validate.{
  validate_table_name, validate_record_id, validate_timestamp, validate_client_id,
}

pub record StorageOptions : Type 0 where
  pub max_records : Option ℕ
  pub max_record_size_bytes : Option ℕ
  pub max_batch_changes : Option ℕ
  pub max_history_entries : Option ℕ

-- Whether a client at `from_seq` has to be sent everything.
unfoldable pub is_snapshot_required : ℕ → ℕ → ℕ → Bool
is_snapshot_required from_seq min_seq current_seq =
    (ltb from_seq min_seq && ltb 0 min_seq) || ltb current_seq from_seq

-- `if (change.clientId !== undefined) validateClientId(change.clientId)`
unfoldable pub check_client_id : Option Text → Result (Unit {0})
check_client_id none = ok tt
check_client_id (some id) = do _ ← validate_client_id id; ok tt

-- `is_deleted` is `change.op === OperationType.Delete`.
abbrev pub is_delete : OperationType → Bool
is_delete delete = true
is_delete put = false

-- The owner of a record that a put creates.
abbrev pub author : User → Option Text
author user =
    if is_admin user then none else if is_authenticated user then some (user_id user) else none

module _ {V : Type 0} where
  unfoldable pub found_table : Option (Table V) → Result (Table V)
  found_table none = throw not_found
  found_table (some t) = ok t

  -- The payload's size comes from `calculateByteSize`, which asks the runtime.
  module _ (byte_size : Option V → ℕ) (get_table : Text → Option (Table V)) (now : ℕ) where
    unfoldable pub validate_change : ℕ → ChangeRecord V → Result (Unit {0})
    unfolding check_client_id found_table
    validate_change default_max_record_size change = do
      table_name ← validate_table_name change.table
      _ ← validate_record_id change.id
      _ ← validate_timestamp now change.timestamp
      check_client_id change.client_id
      table ← found_table (get_table table_name)
      require
          (not (
            ltb (get_or table.settings.max_record_size_bytes default_max_record_size)
              (byte_size change.payload)))
          limit_exceeded

    unfoldable pub validate_changes : ℕ → List (ChangeRecord V) → Result (Unit {0})
    validate_changes default_max_record_size [] = ok tt
    validate_changes default_max_record_size (change ∷ changes) = do
      validate_change default_max_record_size change
      validate_changes default_max_record_size changes

    unfoldable pub validate_batch_changes :
        StorageOptions → List (ChangeRecord V) → ℕ → Result (Unit {0})
    validate_batch_changes options changes default_max_record_size =
        if ltb (get_or options.max_batch_changes 1000) (length changes)
        then throw limit_exceeded
        else validate_changes default_max_record_size changes

  abbrev pub existing_owner : Option (InternalStoredRecord V) → Option Text
  existing_owner none = none
  existing_owner (some r) = r.user_id

  abbrev pub put_owner : Option (InternalStoredRecord V) → User → Option Text
  put_owner none user = author user
  put_owner (some r) user = if not r.deleted then r.user_id else author user

  abbrev pub applied_owner : OperationType → Option (InternalStoredRecord V) → User → Option Text
  applied_owner delete existing user = existing_owner existing
  applied_owner put existing user = put_owner existing user

  abbrev pub existing_version : Option (InternalStoredRecord V) → ℕ
  existing_version none = 0
  existing_version (some r) = r.version

  abbrev pub applied_payload : ChangeRecord V → Option V
  applied_payload change = if is_delete change.op then none else change.payload

  -- `null` is the payload that stands for no data. A structured clone equals its original.
  module _ (null : V) where
    unfoldable pub create_applied_records :
        ChangeRecord V
        → Option (InternalStoredRecord V)
        → User
        → ℕ
        → InternalStoredRecord V × InternalChangeRecord V
    create_applied_records change existing user assigned_seq = (
      record {
        id = change.id;
        payload = get_or (applied_payload change) null;
        version = existing_version existing + 1;
        timestamp = change.timestamp;
        deleted = is_delete change.op;
        client_id = change.client_id;
        user_id = applied_owner change.op existing user;
      },
      record {
        table = change.table;
        id = change.id;
        op = change.op;
        payload = applied_payload change;
        version = some (existing_version existing + 1);
        seq = assigned_seq;
        timestamp = change.timestamp;
        client_id = change.client_id;
        user_id = applied_owner change.op existing user;
      },
    )
