-- ===== src/Server/Filter.antt =====
-- src/server/security/filter.ts: what of the stored records and of the changelog goes to a user. The
-- parameters are the storage's `getUser` (its account's name) and `getRawRecords`, and the look-up
-- of tables that the caller passes.
pub mod Visible
pub mod Audience
pub mod Sent
use typescript_tetherdb.Base.{
  ℕ, Text, text_key, Bool, true, false, not, ◌&&◌, ◌||◌, Option, none, some, List, [], ◌∷◌, ◌++◌,
  same, if◌then◌else◌,
}
use typescript_tetherdb.Base.Dict
use typescript_tetherdb.Base.Dict.{Dict}
use typescript_tetherdb.Shared.Types.{
  OperationType, put, delete, ChangeRecord, SnapshotRecord, StoredRecord,
}
use typescript_tetherdb.Server.Memory.{shared_key}
use typescript_tetherdb.Server.Resolver.{UserCache, resolve_user_name}
use typescript_tetherdb.Server.Security.{
  InternalStoredRecord, InternalChangeRecord, is_permission_allowed, is_owner,
}
use typescript_tetherdb.Server.Storage.{is_delete}
use typescript_tetherdb.Server.Table.{Table, is_private, can_read}
use typescript_tetherdb.Server.User.{User, user_id, is_anonymous, is_authenticated, is_admin}

abbrev pub includes : List Text → Text → Bool
includes [] name = false
includes (n ∷ ns) name = same n name || includes ns name

-- `!(tableFilters && !tableFilters.includes(name))`
abbrev pub is_wanted : Option (List Text) → Text → Bool
is_wanted none name = true
is_wanted (some names) name = includes names name

-- `if (raw.deleted) record.deleted = true`
abbrev pub deleted_flag : Bool → Option Bool
deleted_flag false = none
deleted_flag true = some true

abbrev pub TableCache : Type 0 → Type 0
TableCache V = Dict Text (Option (Table V))

module _ {V : Type 0} where
  abbrev pub public_record : InternalStoredRecord V → Option Text → StoredRecord V
  public_record raw name = record {
    id = raw.id;
    payload = raw.payload;
    version = raw.version;
    timestamp = raw.timestamp;
    deleted = deleted_flag raw.deleted;
    client_id = raw.client_id;
    user_name = name;
  }

  unfoldable pub sanitize_stored_record :
      (Text → Option Text)
      → InternalStoredRecord V
      → Option User
      → UserCache
      → UserCache × StoredRecord V
  sanitize_stored_record find_user_name raw fallback cache =
      let (cache', name) = resolve_user_name find_user_name raw.user_id fallback cache in
      (cache', public_record raw name)

  -- `raw.deleted || !table.canRead(user, raw)` does not hold.
  abbrev pub is_shown : Table V → User → InternalStoredRecord V → Bool
  is_shown table user raw = not raw.deleted && can_read table user (some raw)

  -- A record of the snapshot, where `deleted` is not set.
  abbrev pub snapshot_record : Table V → InternalStoredRecord V → Option Text → SnapshotRecord V
  snapshot_record table raw name = record {
    table = table.name;
    stored = record (public_record raw name) { deleted = none };
  }

  -- The tables that the snapshot passes over are those of which this does not hold.
  abbrev pub is_offered : Option (List Text) → User → Table V → Bool
  is_offered filters user table =
      can_read table user none
      && (is_wanted filters table.name && not (is_private table && is_anonymous user))

  abbrev pub partition_of : Table V → User → Text
  partition_of table user = if is_private table then user_id user else shared_key

  module _ (find_user_name : Text → Option Text) (user : User) where
    unfoldable pub snapshot_table :
        Table V → List (InternalStoredRecord V) → UserCache → UserCache × List (SnapshotRecord V)
    snapshot_table table [] cache = (cache, [])
    snapshot_table table (raw ∷ raws) cache =
        let (cache', name) = resolve_user_name find_user_name raw.user_id (some user) cache in
        let shown = snapshot_table table raws cache' in
        let passed = snapshot_table table raws cache in
        if is_shown table user raw
        then (shown.0, snapshot_record table raw name ∷ shown.1)
        else passed

    unfoldable pub filter_and_sanitize_snapshot :
        (Text → Text → List (InternalStoredRecord V))
        → Option (List Text)
        → List (Table V)
        → UserCache
        → UserCache × List (SnapshotRecord V)
    filter_and_sanitize_snapshot raw_records filters [] cache = (cache, [])
    filter_and_sanitize_snapshot raw_records filters (table ∷ tables) cache =
        let raws = raw_records table.name (partition_of table user) in
        let (cache', items) = snapshot_table table raws cache in
        let offered = filter_and_sanitize_snapshot raw_records filters tables cache' in
        let passed = filter_and_sanitize_snapshot raw_records filters tables cache in
        if is_offered filters user table then (offered.0, items ++ offered.1) else passed

  -- `!isDeleted && raw.data !== undefined`
  abbrev pub sent_payload : OperationType → Option V → Option V
  sent_payload delete payload = none
  sent_payload put payload = payload

  abbrev pub sent_change : InternalChangeRecord V → Option Text → ChangeRecord V
  sent_change raw name = record {
    table = raw.table;
    id = raw.id;
    op = raw.op;
    payload = sent_payload raw.op raw.payload;
    version = raw.version;
    seq = some raw.seq;
    timestamp = raw.timestamp;
    client_id = raw.client_id;
    user_name = name;
    user_id = none;
  }

  -- Whether a change passes the tests on its table. `table.canRead` of a record reads its owner only.
  unfoldable pub is_sent : User → Option (Table V) → InternalChangeRecord V → Bool
  is_sent user none raw = false
  is_sent user (some table) raw =
      can_read table user none
      && (not (
            is_private table
            && (not (is_admin user)
                && (not (is_authenticated user) || not (is_owner raw.user_id user))))
          && is_permission_allowed table.settings.permissions.read user raw.user_id)

  module _ (table_lookup : Text → Option (Table V)) where
    -- What the cache has for the name, or else the look-up, which enters the cache.
    unfoldable pub cached_or_found :
        Text → Option (Option (Table V)) → TableCache V → TableCache V × Option (Table V)
    cached_or_found name (some table) cache = (cache, table)
    cached_or_found name none cache = (Dict.put name (table_lookup name) cache, table_lookup name)

    unfoldable pub cached_table : Text → TableCache V → TableCache V × Option (Table V)
    unfolding cached_or_found
    cached_table name cache = cached_or_found name (Dict.get name cache) cache

    unfoldable pub filter_changes :
        (Text → Option Text)
        → User
        → Option (List Text)
        → List (InternalChangeRecord V)
        → TableCache V
        → UserCache
        → UserCache × List (ChangeRecord V)
    unfolding is_sent cached_table
    filter_changes find_user_name user filters [] tables cache = (cache, [])
    filter_changes find_user_name user filters (raw ∷ raws) tables cache =
        let (tables', table) = cached_table raw.table tables in
        let (cache', name) = resolve_user_name find_user_name raw.user_id (some user) cache in
        let unwanted = filter_changes find_user_name user filters raws tables cache in
        let passed = filter_changes find_user_name user filters raws tables' cache in
        let sent = filter_changes find_user_name user filters raws tables' cache' in
        if is_wanted filters raw.table
        then (if is_sent user table raw then (sent.0, sent_change raw name ∷ sent.1) else passed)
        else unwanted

    unfoldable pub filter_and_sanitize_changes :
        (Text → Option Text)
        → User
        → Option (List Text)
        → List (InternalChangeRecord V)
        → UserCache
        → UserCache × List (ChangeRecord V)
    unfolding filter_changes
    filter_and_sanitize_changes find_user_name user filters raws cache =
        filter_changes find_user_name user filters raws [] cache
