-- ===== src/Examples/Reading.antt =====
-- Access, and what is sent to a user.
use typescript_tetherdb.Base.{
  ℕ, ◌≡◌, ◌↔◌, ◌⊎◌, ◌≤◌, refl, Text, text, text_key, true, false, Option, none, some, List, [], ◌∷◌,
  arith, filter, map, get_or, Text-discrete,
}
use typescript_tetherdb.Base.Dict
use typescript_tetherdb.Shared.Types.{delete, owner}
use typescript_tetherdb.Server.Errors.{ok, throw, forbidden}
use typescript_tetherdb.Server.Filter.{
  is_sent, sanitize_stored_record, filter_and_sanitize_changes, filter_and_sanitize_snapshot,
}
use typescript_tetherdb.Server.Filter.Visible.{is_sent_private}
use typescript_tetherdb.Server.Filter.Audience.{reading_home}
use typescript_tetherdb.Server.Filter.Sent.{
  visible_records, visible_changes, named, sees_record, disclosed_record,
  filter_and_sanitize_snapshot_lem, filter_and_sanitize_changes_lem,
}
use typescript_tetherdb.Server.Memory.{
  MemoryStorage, StatePartition, get_raw_record, get_raw_records, find_partition,
}
use typescript_tetherdb.Server.Resolver.{
  IsCurrent, name_of, resolve_user_name, resolve_user_name_lem,
}
use typescript_tetherdb.Server.Security.{
  InternalStoredRecord, InternalChangeRecord, is_permission_allowed, rule_permits,
}
use typescript_tetherdb.Server.Storage.{validate_batch_changes, create_applied_records}
use typescript_tetherdb.Server.Storage.Batch.{AreAcceptable, validate_batch_changes_iff}
use typescript_tetherdb.Server.Table.{
  Table, is_private, can_apply, can_access, can_read, assert_can_apply_change,
}
use typescript_tetherdb.Server.Table.Access.{
  Admits, subject_of, can_apply_iff, assert_can_apply_change_iff,
}
use typescript_tetherdb.Server.TableRecords.{get_record, get_all_records, shown_record}
use typescript_tetherdb.Server.TableRecords.Reading.{disclosed, get_record_lem, get_all_records_lem}
use typescript_tetherdb.Server.User.{is_authenticated, user_id}
use typescript_tetherdb.Examples.{store, options, news, diary, ann, write_to, byte_size}

abbrev stored : InternalStoredRecord ℕ × InternalChangeRecord ℕ
stored = create_applied_records 0 (write_to (text "diary") 3) none ann 1

assert_can_apply_change_iff_example :
    ((assert_can_apply_change news ann delete none ≡ ok tt) ↔ Admits owner ann none)
    × ((assert_can_apply_change news ann delete none ≡ throw forbidden) ↔ (¬ Admits owner ann none))
assert_can_apply_change_iff_example = assert_can_apply_change_iff news ann delete none

can_apply_iff_example :
    (can_apply owner ann (some stored.0) ≡ true) ↔ Admits owner ann (subject_of (some stored.0))
can_apply_iff_example = can_apply_iff owner ann (some stored.0)

own_sent : is_sent ann (some diary) stored.1 ≡ true
unfolding is_sent is_private can_read can_apply can_access is_permission_allowed rule_permits
    create_applied_records Text-discrete
own_sent = refl

is_sent_private_example :
    (t : Table ℕ) × (some diary ≡ some t)
    × ((is_private t ≡ false)
        ⊎ (is_authenticated ann ≡ true) × (stored.1.user_id ≡ some (user_id ann)))
is_sent_private_example = is_sent_private ann (some diary) stored.1 own_sent refl

abbrev names : Text → Option Text
names id = some (text "ann")

empty-IsCurrent : IsCurrent names (some ann) []
unfolding Dict.get
empty-IsCurrent id name e = ground arith

resolve_user_name_lem_example :
    ((resolve_user_name names (some (text "u2")) (some ann) []).1
      ≡ name_of names (some (text "u2")) (some ann))
    × IsCurrent names (some ann) (resolve_user_name names (some (text "u2")) (some ann) []).0
resolve_user_name_lem_example =
    resolve_user_name_lem names (some (text "u2")) (some ann) [] empty-IsCurrent

abbrev find_table : Text → Option (Table ℕ)
find_table name = Dict.get name store.tables

filter_and_sanitize_changes_lem_example :
    (filter_and_sanitize_changes find_table names ann none (stored.1 ∷ []) []).1
    ≡ visible_changes names ann find_table none (stored.1 ∷ [])
filter_and_sanitize_changes_lem_example =
    filter_and_sanitize_changes_lem names ann find_table none (stored.1 ∷ []) [] empty-IsCurrent

abbrev records : Text → Text → List (InternalStoredRecord ℕ)
records table partition = stored.0 ∷ []

filter_and_sanitize_snapshot_lem_example :
    (filter_and_sanitize_snapshot names ann records none (diary ∷ []) []).1
    ≡ visible_records names ann records none (diary ∷ [])
filter_and_sanitize_snapshot_lem_example =
    filter_and_sanitize_snapshot_lem names ann records none (diary ∷ []) [] empty-IsCurrent

validate_batch_changes_iff_example :
    (validate_batch_changes byte_size find_table 10 options (write_to (text "news") 5 ∷ []) 100
      ≡ ok tt)
    ↔ ((1 ≤ get_or options.max_batch_changes 1000)
        × AreAcceptable byte_size find_table 10 100 (write_to (text "news") 5 ∷ []))
validate_batch_changes_iff_example =
    validate_batch_changes_iff byte_size find_table 10 options (write_to (text "news") 5 ∷ []) 100

-- A store in which `ann` has written to the diary.
abbrev own_partition : StatePartition ℕ
own_partition = record {
  current_seq = 1;
  min_seq = 1;
  tables = (text "diary", (text "a", stored.0) ∷ []) ∷ [];
  changelog = stored.1 ∷ [];
}

abbrev diary_store : MemoryStorage ℕ
diary_store = record store { global_seq = 1; user_states = (text "u1", own_partition) ∷ [] }

get_record_lem_example :
    get_record names diary ann (text "a") diary_store
    ≡ disclosed names diary ann (
        get_raw_record
          (text "diary")
          (reading_home ann diary.settings.permissions.read)
          (text "a")
          diary_store)
get_record_lem_example = get_record_lem names diary ann (text "a") diary_store

get_all_records_lem_example :
    get_all_records names diary ann diary_store
    ≡ map
        (λ raw. disclosed_record (text "diary") (named names ann raw.user_id) raw)
        (filter (sees_record ann diary.settings.permissions.read) (
          get_raw_records
            (text "diary")
            (reading_home ann diary.settings.permissions.read)
            diary_store))
get_all_records_lem_example = get_all_records_lem names diary ann diary_store

-- The account reads its own entry.
own_record :
    get_record names diary ann (text "a") diary_store
    ≡ some (disclosed_record (text "diary") (some (text "ann")) stored.0).stored
unfolding get_record shown_record get_raw_record find_partition Dict.get is_private can_read
    can_apply can_access is_permission_allowed rule_permits create_applied_records Text-discrete
    sanitize_stored_record resolve_user_name
own_record = refl
