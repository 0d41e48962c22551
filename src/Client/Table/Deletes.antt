-- ===== src/Client/Table/Deletes.antt =====
-- The mutations that src/src/client/table.ts makes, against the records that they replace, and what
-- deletions leave.
use typescript_tetherdb.Base.{
  ℕ, ◌+◌, ◌≡◌, ◌<◌, refl, ap, subst, ◌∙◌, Text, text_key, Bool, true, false, Option, none, some,
  List, [], ◌∷◌, if◌then◌else◌, arith, same, same_self, eq_of_same, ◌||◌, ◌&&◌, not, Bool-cases,
  inl, inr, Option-cases,
}
use typescript_tetherdb.Base.Dict
use typescript_tetherdb.Base.Dict.{Dict}
use typescript_tetherdb.Shared.Clock.{Stamp, should_overwrite}
use typescript_tetherdb.Shared.Types.{OperationType, delete, ChangeRecord, StoredRecord}
use typescript_tetherdb.Client.Storage.{
  Storage, Records, LocalMutationItem, or_else, get_records, found_records, records_of,
  ensure_table, existing_stamp, set_existing,
}
use typescript_tetherdb.Client.Storage.Reading.{lookup, set_existing-get}
use typescript_tetherdb.Client.Storage.Remote.{ensure_table-lookup}
use typescript_tetherdb.Client.Table.{
  TableChangeEvent, payload_of, version_of, timestamp_of, is_passed_over, with_no_payload,
  create_mutation_item, create_each, create_batch_mutations, delete_made, delete_all, get,
}
use typescript_tetherdb.Client.Table.Writes.{
  payload_left, apply_local_changes-payload, get_records-lookup, get_lem,
}

abbrev pub is_listed : Text → List Text → Bool
is_listed id [] = false
is_listed id (j ∷ ids) = same j id || is_listed id ids

or_else-none : {A : Type 0} (o : Option A) → or_else o none ≡ o
or_else-none none = refl
or_else-none (some a) = refl

module _ {V : Type 0} where
  found_records-get :
      (j : Text) (ids : List Text) (records : Records V) (found : Dict Text (StoredRecord V))
      → Dict.get j (found_records ids records found) ≡ (
          if is_listed j ids
          then or_else (Dict.get j records) (Dict.get j found)
          else Dict.get j found)
  unfolding found_records
  found_records-get j [] records found = refl
  found_records-get j (i ∷ ids) records found =
      found_records-get j ids records (set_existing i (Dict.get i records) found)
      ∙ elim (Bool-cases (same i j)) [
        | inl e ↦ rw (eq_of_same i j e) (elim (Option-cases (Dict.get j records)) [
          | inl n ↦ ground (arith, n, set_existing-get j j (Dict.get j records) found, same_self j)
          | inr (r, m) ↦
              ground (arith, m, set_existing-get j j (Dict.get j records) found, same_self j)
        ])
        | inr n ↦ ground (arith, set_existing-get i j (Dict.get i records) found)
      ]

  get_records-get :
      (name j : Text) (ids : List Text) (s : Storage V)
      → is_listed j ids ≡ true
      → Dict.get j (get_records name ids s).1 ≡ lookup name j s
  unfolding get_records lookup Dict.get
  get_records-get name j [] s h = ground arith
  get_records-get name j (i ∷ ids) s h =
      found_records-get j (i ∷ ids) (records_of name (ensure_table name s)) []
      ∙ rw h (or_else-none _ ∙ ensure_table-lookup name j name s)

  abbrev change_stamp : ChangeRecord V → Stamp
  change_stamp c = record { timestamp = c.timestamp; client_id = c.client_id }

  -- A mutation that is later than the record that it replaces, and one version on.
  abbrev pub IsNewer : Option (StoredRecord V) → ChangeRecord V → Type 0
  IsNewer existing c =
      (should_overwrite (change_stamp c) (existing_stamp existing) ≡ true)
      × (timestamp_of existing < c.timestamp)
      × (c.version ≡ some (version_of existing + 1))

  abbrev pub AreNewer : Text → Storage V → List (LocalMutationItem V × TableChangeEvent V) → Type 0
  AreNewer name s [] = Unit
  AreNewer name s ((m, e) ∷ made) =
      IsNewer (lookup name m.change.id s) m.change × AreNewer name s made

  create_mutation_item-IsNewer :
      (name id : Text) (op : OperationType) (existing : Option (StoredRecord V)) (now : ℕ)
      (payload : Option V) (s : Storage V)
      → IsNewer existing (create_mutation_item name id op existing now payload s).0.change
  unfolding create_mutation_item should_overwrite
  create_mutation_item-IsNewer name id op none now payload s = (refl, omega arith, refl)
  create_mutation_item-IsNewer name id op (some r) now payload s = (ground arith, omega arith, refl)

  create_each-AreNewer :
      (name : Text) (op : OperationType) (now : ℕ) (existing : Dict Text (StoredRecord V))
      (s s' : Storage V) (entries : List (Text × Option V))
      → ((j : Text)
          → is_listed j (Dict.keys entries) ≡ true
          → Dict.get j existing ≡ lookup name j s)
      → AreNewer name s (create_each name op now existing s' entries)
  unfolding create_each
  create_each-AreNewer name op now existing s s' [] h = tt
  create_each-AreNewer name op now existing s s' ((id, payload) ∷ entries) h =
      let later =
        create_each-AreNewer name op now existing s s' entries (λ j k. h j (ground arith)) in
      elim (Bool-cases (is_passed_over op (Dict.get id existing))) [
        | inl e ↦ rw e later
        | inr e ↦ rw e (
          subst
              (λ r.
                IsNewer r
                  (create_mutation_item name id op (Dict.get id existing) now payload s').0.change)
              (h id (rw (same_self id) refl))
              (create_mutation_item-IsNewer name id op (Dict.get id existing) now payload s'),
          later,
        )
      ]

  -- Every mutation that is made for a batch of entries is one version on from the record that is
  -- stored, later than it whatever the clock says, and wins against it.
  pub create_batch_mutations-AreNewer :
      (name : Text) (entries : List (Text × Option V)) (op : OperationType) (now : ℕ)
      (s : Storage V)
      → AreNewer name s (create_batch_mutations name entries op now s).1
  unfolding create_batch_mutations
  create_batch_mutations-AreNewer name entries op now s =
      let read = get_records name (Dict.keys entries) s in
      create_each-AreNewer name op now read.1 s read.0 entries
        (λ j h. get_records-get name j (Dict.keys entries) s h)

  create_each-payload_none :
      (null : V) (name id : Text) (now : ℕ) (existing : Dict Text (StoredRecord V)) (s : Storage V)
      (ids : List Text) (before : Option V)
      → payload_left null id
          (Dict.keys (create_each name delete now existing s (with_no_payload name null ids)))
          before
        ≡ (if is_listed id ids && not (is_passed_over delete (Dict.get id existing))
            then none
            else before)
  unfolding create_each create_mutation_item
  create_each-payload_none null name id now existing s [] before = refl
  create_each-payload_none null name id now existing s (j ∷ ids) before =
      let rest = create_each-payload_none null name id now existing s ids in
      elim (Bool-cases (same j id)) [
        | inl e ↦
            rw (eq_of_same j id e, same_self id)
              (elim (Bool-cases (is_passed_over delete (Dict.get id existing))) [
                | inl p ↦ rw p (ground (arith, rest before))
                | inr p ↦
                    rw p (rest (if same id id then none else before) ∙ ground (arith, same_self id))
              ])
        | inr n ↦ elim (Bool-cases (is_passed_over delete (Dict.get j existing))) [
          | inl p ↦ rw (p, n) (rest before)
          | inr p ↦ rw p (rest (if same j id then none else before) ∙ ground arith)
        ]
      ]

  delete_made-payload :
      (null : V) (name id : Text) (later : ℕ)
      (made : List (LocalMutationItem V × TableChangeEvent V)) (s : Storage V)
      → payload_of (lookup name id (delete_made name null later made s).0)
        ≡ payload_left null id (Dict.keys made) (payload_of (lookup name id s))
  unfolding delete_made
  delete_made-payload null name id later [] s = refl
  delete_made-payload null name id later (m ∷ made) s =
      apply_local_changes-payload null name id later (Dict.keys (m ∷ made)) s

  keys-with_no_payload :
      (null : V) (name : Text) (ids : List Text) → Dict.keys (with_no_payload name null ids) ≡ ids
  keys-with_no_payload null name [] = refl
  keys-with_no_payload null name (id ∷ ids) =
      ap (λ js. id ∷ js) (keys-with_no_payload null name ids)

  pub delete_all-payload :
      (null : V) (name id : Text) (ids : List Text) (now later : ℕ) (s : Storage V)
      → payload_of (lookup name id (delete_all name null ids now later s).0) ≡ (
          if is_listed id ids && not (is_passed_over delete (lookup name id s))
          then none
          else payload_of (lookup name id s))
  unfolding delete_all create_batch_mutations
  delete_all-payload null name id [] now later s = refl
  delete_all-payload null name id (i ∷ ids) now later s =
      let read = get_records name (Dict.keys (with_no_payload name null (i ∷ ids))) s in
      delete_made-payload null name id later
        (create_each name delete now read.1 read.0 (with_no_payload name null (i ∷ ids))) read.0
      ∙ create_each-payload_none null name id now read.1 read.0 (i ∷ ids) _
      ∙ ground (
        arith,
        get_records-lookup name id (Dict.keys (with_no_payload name null (i ∷ ids))) s,
        get_records-get name id (Dict.keys (with_no_payload name null (i ∷ ids))) s,
        keys-with_no_payload null name (i ∷ ids),
      )

  -- Deleting records: a record that is listed is gone, unless it is marked as deleted, which leaves it
  -- as it is; any other record keeps its payload.
  pub delete_all_lem :
      (null : V) (name id : Text) (ids : List Text) (now later : ℕ) (s : Storage V)
      → (get name id (delete_all name null ids now later s).0).1 ≡ (
          if is_listed id ids && not (is_passed_over delete (lookup name id s))
          then none
          else (get name id s).1)
  delete_all_lem null name id ids now later s =
      rw (get_lem name id (delete_all name null ids now later s).0, get_lem name id s)
        (delete_all-payload null name id ids now later s)
