-- ===== src/Server/Storage/Applied.antt =====
-- `create_applied_records`: what a change that wins writes to the store and to the changelog.
use typescript_tetherdb.Base.{ℕ, ◌+◌, ◌≡◌, refl, true, false, Option, none, some, arith, get_or}
use typescript_tetherdb.Shared.Types.{put, delete, ChangeRecord}
use typescript_tetherdb.Server.User.{User}
use typescript_tetherdb.Server.Security.{InternalStoredRecord, InternalChangeRecord}
use typescript_tetherdb.Server.Storage.{is_delete, author, existing_version, create_applied_records}

module _ {V : Type 0} (null : V) where
  -- The record that an entry of the changelog describes.
  abbrev pub record_of_entry : ℕ → InternalChangeRecord V → InternalStoredRecord V
  record_of_entry version entry = record {
    id = entry.id;
    payload = get_or entry.payload null;
    version = version;
    timestamp = entry.timestamp;
    deleted = is_delete entry.op;
    client_id = entry.client_id;
    user_id = entry.user_id;
  }

  -- The changelog entry describes the stored record completely, under a version one above that of
  -- the record it replaces and the sequence number that was assigned.
  pub stored_by_entry :
      (change : ChangeRecord V) (existing : Option (InternalStoredRecord V)) (user : User) (seq : ℕ)
      → ((create_applied_records null change existing user seq).0
          ≡ record_of_entry
              (existing_version existing + 1)
              (create_applied_records null change existing user seq).1)
        × ((create_applied_records null change existing user seq).1.version
            ≡ some (existing_version existing + 1))
        × ((create_applied_records null change existing user seq).1.seq ≡ seq)
  unfolding create_applied_records
  stored_by_entry change existing user seq = (refl, refl, refl)

  -- Whoever changes a live record, it keeps its owner. A put that creates a record, or that
  -- revives a tombstone, makes it its author's. The administrator and a guest own nothing.
  pub applied_ownership :
      (change : ChangeRecord V) (r : InternalStoredRecord V) (user : User) (seq : ℕ)
      → (r.deleted ≡ false
          → (create_applied_records null change (some r) user seq).0.user_id ≡ r.user_id)
        × (change.op ≡ delete
            → (create_applied_records null change (some r) user seq).0.user_id ≡ r.user_id)
        × (change.op ≡ put
            → r.deleted ≡ true
            → (create_applied_records null change (some r) user seq).0.user_id ≡ author user)
        × (change.op ≡ put
            → (create_applied_records null change none user seq).0.user_id ≡ author user)
  unfolding create_applied_records
  applied_ownership change r user seq =
      (λ h. ground arith, λ h. ground arith, λ h k. ground arith, λ h. ground arith)
