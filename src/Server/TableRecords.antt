-- ===== src/Server/TableRecords.antt =====
-- The operations of src/server/storage/table.ts on a table's records, over the in-memory engine. The
-- parameter `find_user_name` is the name of the account that `storage.getUser` finds.
pub mod Reading
use typescript_tetherdb.Base.{
  ℕ, ◌≡◌, Text, text_key, Bool, true, false, not, ◌&&◌, Option, none, some, List, [], ◌∷◌, map,
  filter, length, arith, inl, inr, Option-cases, if◌then◌else◌,
}
use typescript_tetherdb.Shared.Types.{ChangeRecord, StoredRecord, SnapshotRecord, TableRow, put}
use typescript_tetherdb.Server.Errors.{Result, ok, throw}
use typescript_tetherdb.Server.Filter.{includes, is_shown, sanitize_stored_record, snapshot_table}
use typescript_tetherdb.Server.Memory.{MemoryStorage, get_raw_record, get_raw_records, shared_key}
use typescript_tetherdb.Server.Memory.Apply.{apply_changes}
use typescript_tetherdb.Server.Memory.Users.{get_user_by_user_name}
use typescript_tetherdb.Server.Security.{InternalStoredRecord, InternalChangeRecord}
use typescript_tetherdb.Server.Table.{Table, is_private, can_read}
use typescript_tetherdb.Server.User.{User, admin, user_id, is_anonymous, is_authenticated, is_admin}
use typescript_tetherdb.Server.Validate.{TextOps}

module _ {V : Type 0} where
  abbrev pub reading_partition : Table V → User → Text
  reading_partition table user =
      if is_private table && (is_authenticated user && not (is_admin user))
      then user_id user
      else shared_key

  -- The tests before any record is read.
  abbrev pub is_readable : Table V → User → Bool
  is_readable table user = can_read table user none && not (is_private table && is_anonymous user)

  module _ (find_user_name : Text → Option Text) (table : Table V) (user : User) where
    unfoldable pub shown_record : Option (InternalStoredRecord V) → Option (StoredRecord V)
    shown_record none = none
    shown_record (some raw) =
        if is_shown table user raw
        then some (sanitize_stored_record find_user_name raw (some user) []).1
        else none

    unfoldable pub get_record : Text → MemoryStorage V → Option (StoredRecord V)
    unfolding shown_record
    get_record id s =
        if is_readable table user
        then shown_record (get_raw_record table.name (reading_partition table user) id s)
        else none

    unfoldable pub get_all_records : MemoryStorage V → List (SnapshotRecord V)
    get_all_records s =
        if is_readable table user
        then (snapshot_table find_user_name user table
            (get_raw_records table.name (reading_partition table user) s) []).1
        else []

  -- `{...c, table: this.name}`
  abbrev pub to_table : Table V → ChangeRecord V → ChangeRecord V
  to_table table c = record c { table = table.name }

  module _ (null : V) (byte_size : Option V → ℕ) (now : ℕ) (table : Table V) where
    unfoldable pub apply_to_table :
        User
        → List (ChangeRecord V)
        → MemoryStorage V
        → MemoryStorage V × Result (List (InternalChangeRecord V))
    apply_to_table user changes s =
        apply_changes null byte_size now user (map (to_table table) changes) s

    abbrev pub ids_of : List (SnapshotRecord V) → List Text
    ids_of records = map (λ r. r.stored.id) records

    -- The account that the row names, or the administrator.
    abbrev pub row_author : TextOps → Option Text → MemoryStorage V → User
    row_author ops none s = admin
    row_author ops (some []) s = admin
    row_author ops (some (c ∷ name)) s = elim (get_user_by_user_name ops (c ∷ name) s) [
      | none ↦ admin
      | some user ↦ user
    ]

    abbrev pub row_change : TableRow V → ChangeRecord V
    row_change row = record {
      table = table.name;
      id = row.id;
      op = put;
      payload = some row.payload;
      version = none;
      seq = none;
      timestamp = now;
      client_id = none;
      user_name = none;
      user_id = none;
    }

    -- One batch for each row, up to the first that throws.
    unfoldable pub insert_each :
        TextOps → List (TableRow V) → MemoryStorage V → MemoryStorage V × Result (Unit {0})
    unfolding apply_to_table
    insert_each ops [] s = (s, ok tt)
    insert_each ops (row ∷ rows) s =
        let (s', outcome) =
          apply_to_table (row_author ops row.user_name s) (row_change row ∷ []) s in
        elim outcome [ throw e ↦ (s', throw e) | ok entries ↦ insert_each ops rows s' ]

    -- The count, where every row went in.
    abbrev pub counted_rows :
        List (TableRow V) → MemoryStorage V × Result (Unit {0}) → MemoryStorage V × Result ℕ
    counted_rows rows (s, ok u) = (s, ok (length rows))
    counted_rows rows (s, throw e) = (s, throw e)

    unfoldable pub insert_rows :
        (Text → Option Text)
        → TextOps
        → List (TableRow V)
        → MemoryStorage V
        → MemoryStorage V × Result ℕ
    unfolding get_all_records insert_each
    insert_rows find_user_name ops rows s =
        let existing = ids_of (get_all_records find_user_name table admin s) in
        let to_insert = filter (λ row. not (includes existing row.id)) rows in
        counted_rows to_insert (insert_each ops to_insert s)
