-- ===== src/Client/Table/Writes.antt =====
-- What a write of src/src/client/table.ts makes of the records.
use typescript_tetherdb.Base.{
  ℕ, ◌≡◌, refl, sym, ap, ◌∙◌, Text, text_key, Option, none, some, List, [], ◌∷◌, get_or,
  if◌then◌else◌, arith, same, same_self,
}
use typescript_tetherdb.Base.Dict
use typescript_tetherdb.Base.Dict.{Dict}
use typescript_tetherdb.Shared.Types.{OperationType, put, StoredRecord}
use typescript_tetherdb.Client.ObjectStore
use typescript_tetherdb.Client.Storage.{
  Storage, LocalMutationItem, is_delete, local_record, locally_changed, apply_local_change,
  apply_each_local, apply_local_changes, get_record, get_records, records_of, ensure_table,
}
use typescript_tetherdb.Client.Storage.Reading.{lookup}
use typescript_tetherdb.Client.Storage.Remote.{lookup-with_records, ensure_table-lookup}
use typescript_tetherdb.Client.Table.{
  payload_of, create_mutation_item, create_each, create_batch_mutations, put_all, get,
}

module _ {V : Type 0} where
  -- What the last mutation of a record leaves of its payload.
  abbrev pub payload_left : V → Text → List (LocalMutationItem V) → Option V → Option V
  payload_left null id [] now = now
  payload_left null id (item ∷ items) now = payload_left null id items (
      if same item.id id
      then (if is_delete item.op then none else some (get_or item.payload null))
      else now)

  apply_local_change-payload :
      (null : V) (name id : Text) (now : ℕ) (item : LocalMutationItem V) (s : Storage V)
      → payload_of (lookup name id (apply_local_change null name now item s)) ≡ (
          if same item.id id
          then (if is_delete item.op then none else some (get_or item.payload null))
          else payload_of (lookup name id s))
  unfolding apply_local_change lookup local_record
  apply_local_change-payload null name id now item s = ground (
    arith,
    same_self name,
    lookup-with_records name id name
        (locally_changed null item (local_record null item s) (records_of name s)) s,
    Dict.get-delete item.id id (records_of name s),
    ObjectStore.get-put item.id id (local_record null item s) (records_of name s),
  )

  apply_each_local-payload :
      (null : V) (name id : Text) (now : ℕ) (items : List (LocalMutationItem V)) (s : Storage V)
      → payload_of (lookup name id (apply_each_local null name now items s).0)
        ≡ payload_left null id items (payload_of (lookup name id s))
  unfolding apply_each_local
  apply_each_local-payload null name id now [] s = refl
  apply_each_local-payload null name id now (item ∷ items) s =
      apply_each_local-payload null name id now items (apply_local_change null name now item s)
      ∙ ap (payload_left null id items) (apply_local_change-payload null name id now item s)

  pub apply_local_changes-payload :
      (null : V) (name id : Text) (now : ℕ) (items : List (LocalMutationItem V)) (s : Storage V)
      → payload_of (lookup name id (apply_local_changes null name now items s).0)
        ≡ payload_left null id items (payload_of (lookup name id s))
  unfolding apply_local_changes
  apply_local_changes-payload null name id now [] s = refl
  apply_local_changes-payload null name id now (item ∷ items) s =
      apply_each_local-payload null name id now (item ∷ items) (ensure_table name s)
      ∙ ap (λ r. payload_left null id (item ∷ items) (payload_of r))
          (ensure_table-lookup name id name s)

  -- The last entry of a record counts.
  abbrev pub last_put : Text → List (Text × V) → Option V → Option V
  last_put id [] now = now
  last_put id ((j, payload) ∷ entries) now =
      last_put id entries (if same j id then some payload else now)

  create_each-payload_left :
      (null : V) (name id : Text) (now : ℕ) (existing : Dict Text (StoredRecord V)) (s : Storage V)
      (entries : List (Text × V)) (before : Option V)
      → payload_left null id
          (Dict.keys (create_each name put now existing s (Dict.map_values some entries)))
          before
        ≡ last_put id entries before
  unfolding create_each create_mutation_item Dict.map_values
  create_each-payload_left null name id now existing s [] before = refl
  create_each-payload_left null name id now existing s ((j, payload) ∷ entries) before =
      create_each-payload_left null name id now existing s entries _

  pub get_records-lookup :
      (name id : Text) (ids : List Text) (s : Storage V)
      → lookup name id (get_records name ids s).0 ≡ lookup name id s
  unfolding get_records
  get_records-lookup name id [] s = refl
  get_records-lookup name id (i ∷ ids) s = ensure_table-lookup name id name s

  pub get_lem : (name id : Text) (s : Storage V) → (get name id s).1 ≡ payload_of (lookup name id s)
  unfolding get get_record lookup
  get_lem name id s = ap payload_of (ensure_table-lookup name id name s)

  -- Storing entries: each record then has the payload of its last entry, and a record without an entry
  -- keeps its own.
  pub put_all_lem :
      (null : V) (name id : Text) (entries : List (Text × V)) (now later : ℕ) (s : Storage V)
      → (get name id (put_all name null entries now later s).0).1
        ≡ last_put id entries (get name id s).1
  unfolding put_all create_batch_mutations
  put_all_lem null name id [] now later s = refl
  put_all_lem null name id (entry ∷ entries) now later s =
      let put = (entry ∷ entries) in
      let read = get_records name (Dict.keys (Dict.map_values some put)) s in
      get_lem name id (put_all name null put now later s).0
      ∙ apply_local_changes-payload null name id later
          (Dict.keys
            (create_each name OperationType.put now read.1 read.0 (Dict.map_values some put)))
          read.0
      ∙ create_each-payload_left null name id now read.1 read.0 put _
      ∙ ap (λ r. last_put id put (payload_of r)) (get_records-lookup name id _ s)
      ∙ ap (last_put id put) (sym (get_lem name id s))
