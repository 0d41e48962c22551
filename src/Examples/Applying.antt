-- ===== src/Examples/Applying.antt =====
-- Runs of `applyChanges`.
use typescript_tetherdb.Base.{
  ℕ, ◌≡◌, ◌≢◌, ◌≤◌, ◌<◌, ◌++◌, get_or, length, refl, Text, text, text_key, some, List, [], ◌∷◌,
  arith, filter, Text-discrete,
}
use typescript_tetherdb.Base.Dict
use typescript_tetherdb.Shared.Clock.{should_overwrite}
use typescript_tetherdb.Shared.Types.{ChangeRecord}
use typescript_tetherdb.Server.Errors.{Result, ok, throw, not_found}
use typescript_tetherdb.Server.Memory.{
  MemoryStorage, ensure_user_state, user_state, own_id, get_raw_record,
}
use typescript_tetherdb.Server.Memory.Apply.{
  apply_changes, stage_and_commit, conclude, commit, commit_own, commit_partition, compact,
  commit_tables, stage_all, stage_change, stage_found, stage_in_table, stage_write, has_room,
  may_enter, put_target, target_map,
}
use typescript_tetherdb.Server.Memory.Apply.Atomic.{IsUntouched, apply_changes_atomic}
use typescript_tetherdb.Server.Memory.Apply.Isolation.{apply_changes_isolated}
use typescript_tetherdb.Server.Memory.History.{
  later_than, changes_to_send, get_raw_changes_since, raw_changes_own, sort_by_seq, insert_by_seq,
  prune,
}
use typescript_tetherdb.Server.Memory.History.CatchUp.{
  Histories, IsRecorded, own_history, changes_to_send_complete,
}
use typescript_tetherdb.Server.Memory.History.Prune.{prune-IsRecorded, prune_zero}
use typescript_tetherdb.Server.Memory.History.Recorded.{extend, apply_changes-IsRecorded}
use typescript_tetherdb.Server.Memory.Apply.Settled.{IsSettledBy, apply_changes_last_write_wins}
use typescript_tetherdb.Server.Security.{InternalChangeRecord}
use typescript_tetherdb.Server.Storage.{
  is_snapshot_required, validate_batch_changes, validate_changes, validate_change, found_table,
  check_client_id, create_applied_records,
}
use typescript_tetherdb.Server.Table.{
  is_private, can_access, can_apply, can_create, change_permitted, assert_can_apply_change,
}
use typescript_tetherdb.Server.Validate.{
  validate_table_name, is_valid_table_name, matches_safe, all_safe, is_safe_unit,
  validate_record_id, includes_nul, validate_timestamp, validate_keep_count,
}
use typescript_tetherdb.Examples.{store, ann, write_to, byte_size}

abbrev batch : List (ChangeRecord ℕ)
batch = write_to (text "news") 5 ∷ write_to (text "diary") 3 ∷ []

abbrev pub written : MemoryStorage ℕ × Result (List (InternalChangeRecord ℕ))
written = apply_changes 0 byte_size 10 ann batch store

abbrev entries_of : Result (List (InternalChangeRecord ℕ)) → List (InternalChangeRecord ℕ)
entries_of (ok entries) = entries
entries_of (throw e) = []

written_ok : written ≡ (written.0, ok (entries_of written.1))
unfolding apply_changes stage_and_commit conclude commit commit_own commit_partition compact
    commit_tables stage_all stage_change stage_found stage_in_table stage_write has_room may_enter
    put_target target_map ensure_user_state validate_batch_changes validate_changes validate_change
    found_table check_client_id create_applied_records is_private can_access can_apply can_create
    change_permitted assert_can_apply_change validate_table_name is_valid_table_name matches_safe
    all_safe validate_record_id includes_nul validate_timestamp should_overwrite Dict.get Dict.put
    Text-discrete filter is_safe_unit
written_ok = refl

apply_changes_last_write_wins_example : IsSettledBy ann batch store written.0
apply_changes_last_write_wins_example =
    apply_changes_last_write_wins 0 byte_size 10 ann batch store written.0 (entries_of written.1)
      written_ok

-- The second change of this batch names no table.
abbrev bad_batch : List (ChangeRecord ℕ)
bad_batch = write_to (text "news") 5 ∷ write_to (text "nothing") 3 ∷ []

bad_batch_throws : apply_changes 0 byte_size 10 ann bad_batch store ≡ (store, throw not_found)
unfolding apply_changes stage_and_commit conclude commit commit_own commit_partition compact
    commit_tables stage_all stage_change stage_found stage_in_table stage_write has_room may_enter
    put_target target_map ensure_user_state validate_batch_changes validate_changes validate_change
    found_table check_client_id create_applied_records is_private can_access can_apply can_create
    change_permitted assert_can_apply_change validate_table_name is_valid_table_name matches_safe
    all_safe validate_record_id includes_nul validate_timestamp should_overwrite Dict.get Dict.put
    Text-discrete filter is_safe_unit
bad_batch_throws = refl

apply_changes_atomic_example :
    IsUntouched store store
    × ((table partition id : Text)
        → get_raw_record table partition id store ≡ get_raw_record table partition id store)
apply_changes_atomic_example =
    apply_changes_atomic 0 byte_size 10 ann bad_batch store store not_found bad_batch_throws

not_bob : own_id ann ≢ some (text "u2")
not_bob e = ground arith

apply_changes_isolated_example : user_state (text "u2") written.0 ≡ user_state (text "u2") store
apply_changes_isolated_example =
    apply_changes_isolated ann (text "u2") not_bob 0 byte_size 10 batch store

abbrev nothing_yet : Histories ℕ
nothing_yet = record { shared = []; user = λ id. [] }

store-IsRecorded : IsRecorded nothing_yet store
unfolding Dict.get
store-IsRecorded = record {
  shared_ascending = omega arith;
  shared_retained = record { dropped = []; split = refl; announced = tt };
  user_ascending = λ id. omega arith;
  user_retained = λ id. record { dropped = []; split = refl; announced = tt };
}

abbrev pub history : Histories ℕ
history = extend ann store.tables (entries_of written.1) nothing_yet

some_history : 0 < get_or store.options.max_history_entries 1000
some_history = omega arith

apply_changes-IsRecorded_example : IsRecorded history written.0
apply_changes-IsRecorded_example =
    apply_changes-IsRecorded 0 byte_size 10 ann batch store written.0 (entries_of written.1)
      nothing_yet some_history written_ok store-IsRecorded

pub written-IsRecorded : IsRecorded history written.0
written-IsRecorded =
    apply_changes-IsRecorded 0 byte_size 10 ann batch store written.0 (entries_of written.1)
      nothing_yet some_history written_ok store-IsRecorded

abbrev sent_from : ℕ → List (InternalChangeRecord ℕ)
sent_from from_seq = get_or (changes_to_send from_seq ann written.0) []

sent_second : changes_to_send 1 ann written.0 ≡ some (sent_from 1)
unfolding apply_changes stage_and_commit conclude commit commit_own commit_partition compact
    commit_tables stage_all stage_change stage_found stage_in_table stage_write has_room may_enter
    put_target target_map ensure_user_state validate_batch_changes validate_changes validate_change
    found_table check_client_id create_applied_records is_private can_access can_apply can_create
    change_permitted assert_can_apply_change validate_table_name is_valid_table_name matches_safe
    all_safe validate_record_id includes_nul validate_timestamp should_overwrite Dict.get Dict.put
    Text-discrete filter is_safe_unit changes_to_send get_raw_changes_since raw_changes_own
    sort_by_seq insert_by_seq is_snapshot_required
sent_second = refl

changes_to_send_complete_example :
    sent_from 1 ≡ sort_by_seq (filter (later_than 1) (own_history ann history ++ history.shared))
changes_to_send_complete_example =
    changes_to_send_complete history written.0 ann 1 (sent_from 1) written-IsRecorded sent_second

abbrev pruned : ℕ → Result (ℕ × MemoryStorage ℕ)
pruned keep_count = prune (some keep_count) written.0

abbrev pruned_state : Result (ℕ × MemoryStorage ℕ) → ℕ × MemoryStorage ℕ
pruned_state (ok p) = p
pruned_state (throw e) = (0, store)

pruned_ok : (keep_count : ℕ) → pruned keep_count ≡ ok (pruned_state (pruned keep_count))
unfolding prune validate_keep_count
pruned_ok keep_count = refl

prune-IsRecorded_example :
    IsRecorded history (pruned_state (pruned 1)).1
    × (length (pruned_state (pruned 1)).1.shared_state.changelog ≤ 1)
    × ((id : Text) → length (user_state id (pruned_state (pruned 1)).1).changelog ≤ 1)
prune-IsRecorded_example =
    prune-IsRecorded history 1 (pruned_state (pruned 1)).0 written.0 (pruned_state (pruned 1)).1
      (omega arith) (pruned_ok 1) written-IsRecorded

prune_zero_example :
    (length written.0.shared_state.changelog ≤ (pruned_state (pruned 0)).0)
    × ((pruned_state (pruned 0)).1.shared_state.changelog ≡ written.0.shared_state.changelog)
    × ((id : Text)
        → (user_state id (pruned_state (pruned 0)).1).changelog
          ≡ (user_state id written.0).changelog)
prune_zero_example =
    prune_zero (pruned_state (pruned 0)).0 written.0 (pruned_state (pruned 0)).1 (pruned_ok 0)
