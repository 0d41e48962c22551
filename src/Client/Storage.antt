-- ===== src/Client/Storage.antt =====
-- src/client/storage/storage.ts: the records, the outbox and the metadata in the browser's database.
-- `V` is the payloads' type. Calls of registered listeners are left out, and tables are named unlike
-- the two internal stores.
pub mod Reading
pub mod Remote
pub mod Outbox
use typescript_tetherdb.Base.{
  ℕ, zero, suc, ◌+◌, Text, text, text_key, nat_key, Bool, true, false, not, ◌&&◌, Option, none,
  some, List, [], ◌∷◌, ◌++◌, same, get_or, map, take, is_some, ◌==◌, if◌then◌else◌,
}
use typescript_tetherdb.Base.Dict
use typescript_tetherdb.Base.Dict.{Dict}
use typescript_tetherdb.Shared.Clock.{Stamp, should_overwrite}
use typescript_tetherdb.Shared.Types.{
  OperationType, put, delete, ChangeRecord, StoredRecord, SnapshotRecord,
}
use typescript_tetherdb.Client.ObjectStore
use typescript_tetherdb.Client.ObjectStore.{Sequence}

pub record OutboxEntry (V : Type 0) : Type 0 where
  pub change : ChangeRecord V
  pub created_at : ℕ

pub record LocalMutationItem (V : Type 0) : Type 0 where
  pub id : Text
  pub op : OperationType
  pub payload : Option V
  pub change : ChangeRecord V

-- What the metadata store holds: sequence numbers and times, and the session.
pub data MetaValue : Type 0 where
  number : ℕ → MetaValue
  session : Option Text → Option Text → MetaValue

abbrev pub Records : Type 0 → Type 0
Records V = Dict Text (StoredRecord V)

pub record Storage (V : Type 0) : Type 0 where
  pub client_id : Text
  pub active_user_name : Option Text
  pub tables : Dict Text (Records V)
  pub outbox : Sequence (OutboxEntry V)
  pub meta : Dict Text MetaValue

abbrev pub last_sync_seq : Text
last_sync_seq = text "lastSyncSeq"

abbrev pub last_sync_timestamp : Text
last_sync_timestamp = text "lastSyncTimestamp"

-- `op === OperationType.Delete`
abbrev pub is_delete : OperationType → Bool
is_delete delete = true
is_delete put = false

-- `a ?? b` on optional values.
abbrev pub or_else {ℓ} : {A : Type ℓ} → Option A → Option A → Option A
or_else (some a) b = some a
or_else none b = b

-- A batch's key of a record: `${table}:${id}`.
unfoldable pub batch_key : Text → Text → Text
batch_key table id = table ++ text ":" ++ id

module _ {V : Type 0} where
  -- A new database, of a client whose id the runtime made up.
  unfoldable pub new_storage : Text → Storage V
  new_storage client_id = record {
    client_id = client_id;
    active_user_name = none;
    tables = [];
    outbox = ObjectStore.empty;
    meta = [];
  }

  unfoldable pub set_current_user : Option Text → Storage V → Storage V
  set_current_user user_name s = record s { active_user_name = user_name }

  -- The stores that are missing are made, empty.
  unfoldable pub ensure_table : Text → Storage V → Storage V
  ensure_table name s =
      if Dict.has name s.tables then s else record s { tables = Dict.put name [] s.tables }

  abbrev pub records_of : Text → Storage V → Records V
  records_of name s = get_or (Dict.get name s.tables) []

  unfoldable pub get_meta : Text → Storage V → Option MetaValue
  get_meta key s = Dict.get key s.meta

  unfoldable pub set_meta : Text → MetaValue → Storage V → Storage V
  set_meta key value s = record s { meta = ObjectStore.put key value s.meta }

  unfoldable pub delete_meta : Text → Storage V → Storage V
  delete_meta key s = record s { meta = Dict.delete key s.meta }

  -- Reading a table makes it, too.
  unfoldable pub get_record : Text → Text → Storage V → Storage V × Option (StoredRecord V)
  unfolding ensure_table
  get_record table id s = let s' = ensure_table table s in (s', Dict.get id (records_of table s'))

  -- Reading a record into a map: one that is not there is left out.
  abbrev pub set_existing :
      Text → Option (StoredRecord V) → Dict Text (StoredRecord V) → Dict Text (StoredRecord V)
  set_existing key none existing = existing
  set_existing key (some r) existing = Dict.put key r existing

  -- The records found, by their ids.
  unfoldable pub found_records :
      List Text → Records V → Dict Text (StoredRecord V) → Dict Text (StoredRecord V)
  found_records [] records found = found
  found_records (id ∷ ids) records found =
      found_records ids records (set_existing id (Dict.get id records) found)

  unfoldable pub get_records : Text → List Text → Storage V → Storage V × Dict Text (StoredRecord V)
  unfolding ensure_table found_records
  get_records table [] s = (s, [])
  get_records table (id ∷ ids) s =
      let s' = ensure_table table s in (s', found_records (id ∷ ids) (records_of table s') [])

  unfoldable pub get_all_records : Text → Storage V → Storage V × List (StoredRecord V)
  unfolding ensure_table
  get_all_records table s = let s' = ensure_table table s in (s', Dict.values (records_of table s'))

  abbrev pub with_records : Text → Records V → Storage V → Storage V
  with_records table records s = record s { tables = Dict.put table records s.tables }

  module _ (null : V) where
    -- The record of a mutation.
    unfoldable pub local_record : LocalMutationItem V → Storage V → StoredRecord V
    local_record item s = record {
      id = item.id;
      payload = get_or item.payload null;
      version = get_or item.change.version 1;
      timestamp = item.change.timestamp;
      deleted = some (is_delete item.op);
      client_id = item.change.client_id;
      user_name = or_else item.change.user_name s.active_user_name;
    }

    abbrev pub locally_changed : LocalMutationItem V → StoredRecord V → Records V → Records V
    locally_changed item r records =
        if is_delete item.op then Dict.delete item.id records else ObjectStore.put item.id r records

    -- One round of the loop: the data store and the outbox.
    unfoldable pub apply_local_change : Text → ℕ → LocalMutationItem V → Storage V → Storage V
    unfolding local_record
    apply_local_change table now item s =
        record (with_records table (locally_changed item (local_record item s) (records_of table s))
          s) {
            outbox = ObjectStore.add (record { change = item.change; created_at = now }) s.outbox;
          }

    unfoldable pub apply_each_local :
        Text → ℕ → List (LocalMutationItem V) → Storage V → Storage V × List (StoredRecord V)
    apply_each_local table now [] s = (s, [])
    apply_each_local table now (item ∷ items) s =
        let (s', records) =
          apply_each_local table now items (apply_local_change table now item s) in
        (s', local_record item s ∷ records)

    unfoldable pub apply_local_changes :
        Text → ℕ → List (LocalMutationItem V) → Storage V → Storage V × List (StoredRecord V)
    unfolding ensure_table apply_each_local
    apply_local_changes table now [] s = (s, [])
    apply_local_changes table now (item ∷ items) s =
        apply_each_local table now (item ∷ items) (ensure_table table s)

  -- `getAll(null, limit)`: a limit of 0 is none.
  unfoldable pub get_pending_outbox : Option ℕ → Storage V → List (ℕ × OutboxEntry V)
  get_pending_outbox none s = s.outbox.entries
  get_pending_outbox (some zero) s = s.outbox.entries
  get_pending_outbox (some (suc n)) s = take (suc n) s.outbox.entries

  unfoldable pub remove_each : List ℕ → Sequence (OutboxEntry V) → Sequence (OutboxEntry V)
  remove_each [] q = q
  remove_each (id ∷ ids) q = remove_each ids (ObjectStore.remove id q)

  unfoldable pub remove_outbox_entries : List ℕ → Storage V → Storage V
  unfolding remove_each
  remove_outbox_entries ids s = record s { outbox = remove_each ids s.outbox }

  abbrev pub stamp_of : StoredRecord V → Stamp
  stamp_of r = record { timestamp = r.timestamp; client_id = r.client_id }

  abbrev pub existing_stamp : Option (StoredRecord V) → Option Stamp
  existing_stamp none = none
  existing_stamp (some r) = some (stamp_of r)

  -- `item.deleted`
  abbrev pub is_deleted : StoredRecord V → Bool
  is_deleted r = get_or r.deleted false

  -- What a write that wins makes of a table. `deleted` is not among the fields that are stored.
  unfoldable pub remotely_changed : StoredRecord V → Records V → Records V
  remotely_changed r records =
      if is_deleted r
      then Dict.delete r.id records
      else ObjectStore.put r.id (record r { deleted = none }) records

  -- The records that the batch meets, read before its first write.
  unfoldable pub read_existing :
      Storage V → List (SnapshotRecord V) → Dict Text (StoredRecord V) → Dict Text (StoredRecord V)
  read_existing s [] existing = existing
  read_existing s (item ∷ items) existing = read_existing s items (
      set_existing (batch_key item.table item.stored.id)
        (Dict.get item.stored.id (records_of item.table s)) existing)

  -- One write of the batch.
  unfoldable pub apply_item : Dict Text (StoredRecord V) → SnapshotRecord V → Storage V → Storage V
  unfolding remotely_changed
  apply_item existing item s =
      if should_overwrite (stamp_of item.stored)
        (existing_stamp (Dict.get (batch_key item.table item.stored.id) existing))
      then with_records item.table (remotely_changed item.stored (records_of item.table s)) s
      else s

  unfoldable pub apply_each_item :
      Dict Text (StoredRecord V) → List (SnapshotRecord V) → Storage V → Storage V
  unfolding apply_item
  apply_each_item existing [] s = s
  apply_each_item existing (item ∷ items) s =
      apply_each_item existing items (apply_item existing item s)

  unfoldable pub ensure_tables_of : List (SnapshotRecord V) → Storage V → Storage V
  unfolding ensure_table
  ensure_tables_of [] s = s
  ensure_tables_of (item ∷ items) s = ensure_tables_of items (ensure_table item.table s)

  abbrev pub synced : ℕ → ℕ → Storage V → Storage V
  synced seq now s =
      set_meta last_sync_timestamp (number now) (set_meta last_sync_seq (number seq) s)

  -- The reading and the writing are a transaction each, taken here as one step: a local write between
  -- them is out of the model's reach.
  unfoldable pub apply_batch_records : List (SnapshotRecord V) → ℕ → ℕ → Storage V → Storage V
  unfolding ensure_tables_of read_existing apply_each_item set_meta
  apply_batch_records [] seq now s = synced seq now s
  apply_batch_records (item ∷ items) seq now s =
      let before = ensure_tables_of (item ∷ items) s in
      synced seq now
        (apply_each_item (read_existing before (item ∷ items) []) (item ∷ items) before)

  unfoldable pub apply_snapshot_batch : List (SnapshotRecord V) → ℕ → ℕ → Storage V → Storage V
  apply_snapshot_batch snapshot seq now s = apply_batch_records snapshot seq now s

  module _ (undefined : V) where
    -- The item of a change. A put without a payload stores `undefined`.
    unfoldable pub item_of : ChangeRecord V → SnapshotRecord V
    item_of c = record {
      table = c.table;
      stored = record {
        id = c.id;
        payload = get_or c.payload undefined;
        version = get_or c.version 1;
        timestamp = c.timestamp;
        deleted = some (is_delete c.op);
        client_id = c.client_id;
        user_name = c.user_name;
      };
    }

    unfoldable pub apply_remote_changes_batch :
        List (ChangeRecord V) → ℕ → ℕ → Storage V → Storage V
    unfolding item_of set_meta
    apply_remote_changes_batch [] seq now s = set_meta last_sync_seq (number seq) s
    apply_remote_changes_batch (c ∷ cs) seq now s =
        apply_batch_records (map item_of (c ∷ cs)) seq now s

  -- The tables' stores are emptied, and the outbox if it is to be.
  unfoldable pub clear_tables : Bool → Storage V → Storage V
  clear_tables clear_outbox s = record s {
    tables = Dict.map_values (λ records. []) s.tables;
    outbox = if clear_outbox then ObjectStore.clear s.outbox else s.outbox;
  }

  unfoldable pub clear_all_data : Storage V → Storage V
  clear_all_data s = record s {
    tables = Dict.map_values (λ records. []) s.tables;
    outbox = ObjectStore.clear s.outbox;
    meta = [];
  }
