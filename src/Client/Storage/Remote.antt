-- ===== src/Client/Storage/Remote.antt =====
-- What a batch from the server makes of each record.
use typescript_tetherdb.Base.{
  ◌≡◌, refl, Text, text_key, ℕ, true, ◌∙◌, ap, Option, none, some, List, [], ◌∷◌, arith, same,
  Bool-cases, inl, inr, if◌then◌else◌, ◌&&◌,
}
use typescript_tetherdb.Base.Dict
use typescript_tetherdb.Base.Dict.{Dict}
use typescript_tetherdb.Shared.Clock.{should_overwrite}
use typescript_tetherdb.Shared.Types.{StoredRecord, SnapshotRecord}
use typescript_tetherdb.Client.ObjectStore
use typescript_tetherdb.Client.Storage.Reading.{
  IsColonFree, AreColonFree, is_about, mentions, lookup, about, read_existing-mentioned,
}
use typescript_tetherdb.Client.Storage.{
  Storage, Records, batch_key, records_of, stamp_of, existing_stamp, is_deleted, remotely_changed,
  apply_item, apply_each_item, read_existing, ensure_table, ensure_tables_of, apply_batch_records,
  with_records, set_meta,
}

module _ {V : Type 0} where
  -- What a write leaves: nothing, or the record without its flag.
  abbrev pub left_by : StoredRecord V → Option (StoredRecord V)
  left_by r = if is_deleted r then none else some (record r { deleted = none })

  -- The record that is stored when a batch is over, if `existing` was stored before it. The last item
  -- that wins against `existing` counts.
  abbrev pub outcome :
      Text
      → Text
      → Option (StoredRecord V)
      → List (SnapshotRecord V)
      → Option (StoredRecord V)
      → Option (StoredRecord V)
  outcome table id existing [] now = now
  outcome table id existing (item ∷ items) now = outcome table id existing items (
      if is_about table id item && should_overwrite (stamp_of item.stored) (existing_stamp existing)
      then left_by item.stored
      else now)

  pub lookup-with_records :
      (table id name : Text) (records : Records V) (s : Storage V)
      → lookup table id (with_records name records s)
        ≡ (if same name table then Dict.get id records else lookup table id s)
  unfolding lookup
  lookup-with_records table id name records s = elim (Bool-cases (same name table)) [
    | inl e ↦ rw (Dict.get-put name table records s.tables, e) refl
    | inr e ↦ rw (Dict.get-put name table records s.tables, e) refl
  ]

  remotely_changed-get :
      (id : Text) (r : StoredRecord V) (records : Records V)
      → Dict.get id (remotely_changed r records)
        ≡ (if same r.id id then left_by r else Dict.get id records)
  unfolding remotely_changed
  remotely_changed-get id r records = ground (
    arith,
    Dict.get-delete r.id id records,
    ObjectStore.get-put r.id id (record r { deleted = none }) records,
  )

  written-lookup :
      (table id : Text) (item : SnapshotRecord V) (s : Storage V)
      → lookup table id
          (with_records item.table (remotely_changed item.stored (records_of item.table s)) s)
        ≡ (if is_about table id item then left_by item.stored else lookup table id s)
  unfolding lookup
  written-lookup table id item s = ground (
    arith,
    lookup-with_records table id item.table (remotely_changed item.stored (records_of item.table s))
        s,
    remotely_changed-get id item.stored (records_of item.table s),
  )

  apply_item-lookup :
      (table id : Text) (existing : Dict Text (StoredRecord V)) (item : SnapshotRecord V)
      (s : Storage V)
      → lookup table id (apply_item existing item s) ≡ (
          if is_about table id item
            && should_overwrite
                (stamp_of item.stored)
                (existing_stamp (Dict.get (batch_key table id) existing))
          then left_by item.stored
          else lookup table id s)
  unfolding apply_item
  apply_item-lookup table id existing item s = elim (Bool-cases (is_about table id item)) [
    | inl a ↦
        let (p, q) = about table id item a in
        rw (p, q) (ground (arith, written-lookup table id item s))
    | inr n ↦ ground (arith, written-lookup table id item s)
  ]

  pub ensure_table-lookup :
      (table id name : Text) (s : Storage V)
      → lookup table id (ensure_table name s) ≡ lookup table id s
  unfolding ensure_table lookup
  ensure_table-lookup table id name s = ground (arith, Dict.get-put name table [] s.tables)

  ensure_tables_of-lookup :
      (table id : Text) (items : List (SnapshotRecord V)) (s : Storage V)
      → lookup table id (ensure_tables_of items s) ≡ lookup table id s
  unfolding ensure_tables_of
  ensure_tables_of-lookup table id [] s = refl
  ensure_tables_of-lookup table id (item ∷ items) s =
      ensure_tables_of-lookup table id items (ensure_table item.table s)
      ∙ ensure_table-lookup table id item.table s

  apply_each_item-lookup :
      (table id : Text) (existing : Dict Text (StoredRecord V)) (before : Option (StoredRecord V))
      (items : List (SnapshotRecord V)) (s : Storage V)
      → (mentions table id items ≡ true → Dict.get (batch_key table id) existing ≡ before)
      → lookup table id (apply_each_item existing items s)
        ≡ outcome table id before items (lookup table id s)
  unfolding apply_each_item
  apply_each_item-lookup table id existing before [] s h = refl
  apply_each_item-lookup table id existing before (item ∷ items) s h =
      apply_each_item-lookup table id existing before items (apply_item existing item s)
        (λ k. h (ground arith))
      ∙ ap (outcome table id before items) (elim (Bool-cases (is_about table id item)) [
        | inl a ↦ ground (arith, apply_item-lookup table id existing item s, h (ground arith))
        | inr n ↦ ground (arith, apply_item-lookup table id existing item s)
      ])

  -- Whatever the order of its items and whatever tables they are of, a batch makes of each record
  -- what its own items make of it, each against the record that was stored before the batch: the last
  -- one that wins is stored, or the record is removed if that one is a deletion. The names of the
  -- tables must be free of colons.
  pub apply_batch_records_lem :
      (table id : Text) (items : List (SnapshotRecord V)) (seq now : ℕ) (s : Storage V)
      → IsColonFree table
      → AreColonFree items
      → lookup table id (apply_batch_records items seq now s)
        ≡ outcome table id (lookup table id s) items (lookup table id s)
  unfolding apply_batch_records lookup set_meta Dict.get
  apply_batch_records_lem table id [] seq now s f g = refl
  apply_batch_records_lem table id (item ∷ items) seq now s f g =
      let before = ensure_tables_of (item ∷ items) s in
      let kept = ensure_tables_of-lookup table id (item ∷ items) s in
      apply_each_item-lookup table id (read_existing before (item ∷ items) []) (lookup table id s)
        (item ∷ items) before
        (λ k. read_existing-mentioned table id (item ∷ items) before [] f g (inl refl) k ∙ kept)
      ∙ ap (outcome table id (lookup table id s) (item ∷ items)) kept
