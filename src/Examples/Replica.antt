-- ===== src/Examples/Replica.antt =====
-- A client's storage with a note, and a batch from the server.
use typescript_tetherdb.Base.{
  ℕ, ◌≡◌, ◌++◌, refl, text, text_key, nat_key, some, none, false, [], ◌∷◌, arith, drop,
  if◌then◌else◌, Text-discrete, text_le, not, ◌&&◌,
}
use typescript_tetherdb.Base.Dict
use typescript_tetherdb.Examples.{write_to}
use typescript_tetherdb.Client.ObjectStore
use typescript_tetherdb.Client.ObjectStore.{IsOrdered}
use typescript_tetherdb.Client.Storage.{
  Storage, LocalMutationItem, apply_local_change, get_records, new_storage, apply_local_changes,
  apply_batch_records, remove_outbox_entries, get_pending_outbox,
}
use typescript_tetherdb.Client.Storage.Outbox.{
  queued, apply_local_changes-IsOrdered, remove_outbox_entries_acknowledged,
}
use typescript_tetherdb.Client.Storage.Reading.{IsColonFree, lookup}
use typescript_tetherdb.Client.Storage.Remote.{outcome, apply_batch_records_lem}
use typescript_tetherdb.Client.Table.{
  put_all, delete_all, get, create_batch_mutations, is_passed_over,
}
use typescript_tetherdb.Client.Table.Writes.{last_put, put_all_lem}
use typescript_tetherdb.Client.Table.Deletes.{
  AreNewer, is_listed, delete_all_lem, create_batch_mutations-AreNewer,
}
use typescript_tetherdb.Client.Table.Returns.{delete_all_undone}
use typescript_tetherdb.Shared.Types.{put, delete, SnapshotRecord}

abbrev pub device : Storage ℕ
device =
    (put_all (text "notes") 0 ((text "a", 7) ∷ (text "b", 8) ∷ []) 10 11
      (new_storage (text "c1"))).0

abbrev remote : SnapshotRecord ℕ
remote = record {
  table = text "notes";
  stored = record {
    id = text "a";
    payload = 9;
    version = 2;
    timestamp = 5;
    deleted = none;
    client_id = some (text "c2");
    user_name = none;
  };
}

notes-IsColonFree : IsColonFree (text "notes")
notes-IsColonFree = (
  λ e. omega (arith, e),
  (
    λ e. omega (arith, e),
    (λ e. omega (arith, e), (λ e. omega (arith, e), (λ e. omega (arith, e), tt))),
  ),
)

apply_batch_records_lem_example :
    lookup (text "notes") (text "a") (apply_batch_records (remote ∷ []) 3 20 device)
    ≡ outcome
        (text "notes")
        (text "a")
        (lookup (text "notes") (text "a") device)
        (remote ∷ [])
        (lookup (text "notes") (text "a") device)
apply_batch_records_lem_example =
    apply_batch_records_lem (text "notes") (text "a") (remote ∷ []) 3 20 device notes-IsColonFree
      (notes-IsColonFree, tt)

put_all_lem_example :
    (get (text "notes") (text "a") (put_all (text "notes") 0 ((text "a", 5) ∷ []) 12 13 device).0).1
    ≡ last_put (text "a") ((text "a", 5) ∷ []) (get (text "notes") (text "a") device).1
put_all_lem_example = put_all_lem 0 (text "notes") (text "a") ((text "a", 5) ∷ []) 12 13 device

delete_all_lem_example :
    (get (text "notes") (text "a") (delete_all (text "notes") 0 (text "a" ∷ []) 12 13 device).0).1
    ≡ (if is_listed (text "a") (text "a" ∷ [])
          && not (is_passed_over delete (lookup (text "notes") (text "a") device))
        then none
        else (get (text "notes") (text "a") device).1)
delete_all_lem_example = delete_all_lem 0 (text "notes") (text "a") (text "a" ∷ []) 12 13 device

create_batch_mutations-AreNewer_example :
    AreNewer
      (text "notes")
      device
      (create_batch_mutations (text "notes") ((text "a", none) ∷ []) delete 3 device).1
create_batch_mutations-AreNewer_example =
    create_batch_mutations-AreNewer (text "notes") ((text "a", none) ∷ []) delete 3 device

device_has_a : is_passed_over delete (lookup (text "notes") (text "a") device) ≡ false
unfolding put_all apply_local_changes lookup Dict.get Dict.map_values apply_local_change Dict.put
    get_records new_storage Text-discrete ObjectStore.put text_le
device_has_a = refl

delete_all_undone_example :
    lookup (text "notes") (text "a") (
      apply_batch_records
        (remote ∷ [])
        3
        20
        (delete_all (text "notes") 0 (text "a" ∷ []) 12 13 device).0)
    ≡ some (record remote.stored { deleted = none })
delete_all_undone_example =
    delete_all_undone 0 remote 3 20 12 13 device notes-IsColonFree refl device_has_a

abbrev pub edit : LocalMutationItem ℕ
edit = record { id = text "a"; op = put; payload = some 1; change = write_to (text "notes") 4 }

abbrev pub queue : Storage ℕ
queue = (apply_local_changes 0 (text "notes") 5 (edit ∷ edit ∷ []) (new_storage (text "c1"))).0

pub queue-IsOrdered : IsOrdered queue.outbox
unfolding new_storage
queue-IsOrdered =
    apply_local_changes-IsOrdered 0 (text "notes") 5 (edit ∷ edit ∷ []) (new_storage (text "c1"))
      (omega arith)

remove_outbox_entries_acknowledged_example :
    (remove_outbox_entries
      (Dict.keys (get_pending_outbox (some 1) queue))
      (apply_local_changes 0 (text "notes") 6 (edit ∷ []) queue).0).outbox.entries
    ≡ drop 1 queue.outbox.entries ++ queued 6 queue.outbox.next_key (edit ∷ [])
remove_outbox_entries_acknowledged_example =
    remove_outbox_entries_acknowledged 0 (text "notes") 6 0 (edit ∷ []) queue queue-IsOrdered
