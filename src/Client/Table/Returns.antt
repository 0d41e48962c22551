-- ===== src/Client/Table/Returns.antt =====
-- A deletion by src/src/client/table.ts leaves no trace of its time: the storage's next batch is not
-- compared with it.
use typescript_tetherdb.Base.{
  ℕ, ◌≡◌, refl, ◌∙◌, Text, text_key, false, Option, none, some, [], ◌∷◌, arith, same_self,
}
use typescript_tetherdb.Shared.Clock.{should_overwrite}
use typescript_tetherdb.Shared.Types.{delete, StoredRecord, SnapshotRecord}
use typescript_tetherdb.Client.Storage.{Storage, is_deleted, apply_batch_records}
use typescript_tetherdb.Client.Storage.Reading.{IsColonFree, lookup}
use typescript_tetherdb.Client.Storage.Remote.{apply_batch_records_lem}
use typescript_tetherdb.Client.Table.{payload_of, is_passed_over, delete_all}
use typescript_tetherdb.Client.Table.Deletes.{delete_all-payload}

module _ {V : Type 0} where
  payload_of-none : (r : Option (StoredRecord V)) → payload_of r ≡ none → r ≡ none
  payload_of-none none h = refl
  payload_of-none (some r) h = ground arith

  deleted-lookup :
      (null : V) (name id : Text) (now later : ℕ) (s : Storage V)
      → is_passed_over delete (lookup name id s) ≡ false
      → lookup name id (delete_all name null (id ∷ []) now later s).0 ≡ none
  deleted-lookup null name id now later s h =
      payload_of-none _
        (delete_all-payload null name id (id ∷ []) now later s ∙ ground (arith, same_self id))

  -- A record that was stored and is deleted is stored again by a remote write of it, however old the
  -- write is: the deletion's timestamp is forgotten.
  pub delete_all_undone :
      (null : V) (item : SnapshotRecord V) (seq time now later : ℕ) (s : Storage V)
      → IsColonFree item.table
      → is_deleted item.stored ≡ false
      → is_passed_over delete (lookup item.table item.stored.id s) ≡ false
      → lookup item.table item.stored.id (
          apply_batch_records
            (item ∷ [])
            seq
            time
            (delete_all item.table null (item.stored.id ∷ []) now later s).0)
        ≡ some (record item.stored { deleted = none })
  unfolding should_overwrite
  delete_all_undone null item seq time now later s f d h =
      apply_batch_records_lem item.table item.stored.id (item ∷ []) seq time
        (delete_all item.table null (item.stored.id ∷ []) now later s).0 f (f, tt)
      ∙ rw (deleted-lookup null item.table item.stored.id now later s h)
          (ground (arith, same_self item.table, same_self item.stored.id))
