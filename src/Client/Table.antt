-- ===== src/Client/Table.antt =====
-- src/src/client/table.ts: reading and writing a table of the client. The name passed the test of the
-- constructor. A write takes the two times at which the code asks for the clock: when it makes the
-- mutations, and when the storage applies them. Its events are part of its result.
pub mod Writes
pub mod Deletes
pub mod Returns
use typescript_tetherdb.Base.{
  ℕ, ◌+◌, max, Text, text_key, Bool, true, false, Option, none, some, List, [], ◌∷◌, length, get_or,
  map, if◌then◌else◌,
}
use typescript_tetherdb.Base.Dict
use typescript_tetherdb.Base.Dict.{Dict}
use typescript_tetherdb.Shared.Types.{OperationType, put, delete, ChangeRecord, StoredRecord}
use typescript_tetherdb.Client.Storage.{
  Storage, LocalMutationItem, or_else, is_deleted, get_record, get_records, get_all_records,
  apply_local_changes,
}

pub record TableChangeEvent (V : Type 0) : Type 0 where
  pub id : Text
  pub op : OperationType
  pub payload : Option V
  pub is_remote : Bool

module _ {V : Type 0} where
  abbrev pub version_of : Option (StoredRecord V) → ℕ
  version_of none = 0
  version_of (some r) = r.version

  abbrev pub timestamp_of : Option (StoredRecord V) → ℕ
  timestamp_of none = 0
  timestamp_of (some r) = r.timestamp

  abbrev pub user_name_of : Option (StoredRecord V) → Option Text
  user_name_of none = none
  user_name_of (some r) = r.user_name

  abbrev pub payload_of : Option (StoredRecord V) → Option V
  payload_of none = none
  payload_of (some r) = some r.payload

  -- A deletion passes over records that are not there.
  abbrev pub is_passed_over : OperationType → Option (StoredRecord V) → Bool
  is_passed_over put existing = false
  is_passed_over delete none = true
  is_passed_over delete (some r) = is_deleted r

  abbrev pub payloads : List (StoredRecord V) → List V
  payloads [] = []
  payloads (r ∷ rs) = r.payload ∷ payloads rs

  abbrev pub ids_of : List (StoredRecord V) → List Text
  ids_of [] = []
  ids_of (r ∷ rs) = r.id ∷ ids_of rs

  -- The loop of `getAll(ids)`.
  unfoldable pub found_payloads : Dict Text (StoredRecord V) → List Text → List V
  found_payloads found [] = []
  found_payloads found (id ∷ ids) = elim (Dict.get id found) [
    | none ↦ found_payloads found ids
    | some r ↦ r.payload ∷ found_payloads found ids
  ]

  module _ (name : Text) where
    unfoldable pub get : Text → Storage V → Storage V × Option V
    get id s = let (s', r) = get_record name id s in (s', payload_of r)

    unfoldable pub get_all : Option (List Text) → Storage V → Storage V × List V
    unfolding found_payloads
    get_all none s = let (s', rs) = get_all_records name s in (s', payloads rs)
    get_all (some []) s = (s, [])
    get_all (some (id ∷ ids)) s =
        let (s', found) = get_records name (id ∷ ids) s in (s', found_payloads found (id ∷ ids))

    unfoldable pub create_mutation_item :
        Text
        → OperationType
        → Option (StoredRecord V)
        → ℕ
        → Option V
        → Storage V
        → LocalMutationItem V × TableChangeEvent V
    create_mutation_item id op existing now payload s = (
      record {
        id = id;
        op = op;
        payload = payload;
        change = record {
          table = name;
          id = id;
          op = op;
          payload = payload;
          version = some (version_of existing + 1);
          seq = none;
          timestamp = max now (timestamp_of existing + 1);
          client_id = some s.client_id;
          user_name = or_else (user_name_of existing) s.active_user_name;
          user_id = none;
        };
      },
      record { id = id; op = op; payload = payload; is_remote = false },
    )

    -- The loop over the entries: the mutations, and their events.
    unfoldable pub create_each :
        OperationType
        → ℕ
        → Dict Text (StoredRecord V)
        → Storage V
        → List (Text × Option V)
        → List (LocalMutationItem V × TableChangeEvent V)
    unfolding create_mutation_item
    create_each op now existing s [] = []
    create_each op now existing s ((id, payload) ∷ entries) =
        let rest = create_each op now existing s entries in
        if is_passed_over op (Dict.get id existing)
        then rest
        else create_mutation_item id op (Dict.get id existing) now payload s ∷ rest

    unfoldable pub create_batch_mutations :
        List (Text × Option V)
        → OperationType
        → ℕ
        → Storage V
        → Storage V × List (LocalMutationItem V × TableChangeEvent V)
    unfolding create_each
    create_batch_mutations entries op now s =
        let (s', existing) = get_records name (Dict.keys entries) s in
        (s', create_each op now existing s' entries)

    module _ (null : V) where
      abbrev pub apply_and_publish :
          ℕ
          → List (LocalMutationItem V × TableChangeEvent V)
          → Storage V
          → Storage V × List (TableChangeEvent V)
      apply_and_publish now made s =
          ((apply_local_changes null name now (Dict.keys made) s).0, Dict.values made)

      unfoldable pub put_all :
          List (Text × V) → ℕ → ℕ → Storage V → Storage V × (List (TableChangeEvent V) × List V)
      unfolding create_batch_mutations
      put_all [] now later s = (s, ([], []))
      put_all (entry ∷ entries) now later s =
          let (s', made) =
            create_batch_mutations (Dict.map_values some (entry ∷ entries)) put now s in
          let (s'', events) = apply_and_publish later made s' in
          (s'', (events, Dict.values (entry ∷ entries)))

      abbrev pub with_no_payload : List Text → List (Text × Option V)
      with_no_payload [] = []
      with_no_payload (id ∷ ids) = (id, none) ∷ with_no_payload ids

      -- Without mutations the storage is left alone, and nothing is published.
      unfoldable pub delete_made :
          ℕ
          → List (LocalMutationItem V × TableChangeEvent V)
          → Storage V
          → Storage V × (List (TableChangeEvent V) × ℕ)
      delete_made later [] s = (s, ([], 0))
      delete_made later (m ∷ made) s =
          let (s', events) = apply_and_publish later (m ∷ made) s in
          (s', (events, length (m ∷ made)))

      unfoldable pub delete_all :
          List Text → ℕ → ℕ → Storage V → Storage V × (List (TableChangeEvent V) × ℕ)
      unfolding create_batch_mutations delete_made
      delete_all [] now later s = (s, ([], 0))
      delete_all (id ∷ ids) now later s =
          let (s', made) = create_batch_mutations (with_no_payload (id ∷ ids)) delete now s in
          delete_made later made s'

      unfoldable pub clear : ℕ → ℕ → Storage V → Storage V × (List (TableChangeEvent V) × ℕ)
      unfolding delete_all
      clear now later s =
          let (s', records) = get_all_records name s in delete_all (ids_of records) now later s'
