-- ===== src/Server/Storage/Batch.antt =====
-- `validate_batch_changes`: which batches pass.
use typescript_tetherdb.Base.{
  ℕ, ◌+◌, ◌≤◌, ◌<◌, ◌≡◌, ◌↔◌, refl, Text, true, false, Option, none, some, List, [], ◌∷◌, arith,
  get_or, length, inl, inr, Option-cases,
}
use typescript_tetherdb.Shared.Types.{ChangeRecord}
use typescript_tetherdb.Server.Errors.{ok, >>-eq-ok}
use typescript_tetherdb.Server.Table.{Table}
use typescript_tetherdb.Server.Validate.{
  is_valid_table_name, matches_safe, includes_nul, max_future_timestamp_drift_ms,
  validate_table_name, validate_record_id, validate_timestamp, validate_client_id,
  validate_filesystem_safe,
}
use typescript_tetherdb.Server.Storage.{
  StorageOptions, check_client_id, found_table, validate_change, validate_changes,
  validate_batch_changes,
}

abbrev pub IsClientId : Option Text → Type 0
IsClientId none = Unit
IsClientId (some id) = matches_safe 1 64 id ≡ true

module _ {V : Type 0} (byte_size : Option V → ℕ) (get_table : Text → Option (Table V))
    (now : ℕ) where
  -- What a batch asks of each of its changes.
  pub record IsAcceptable (limit : ℕ) (change : ChangeRecord V) : Type 0 where
    pub table : Table V
    pub table_name : is_valid_table_name change.table ≡ true
    pub record_id : (0 < length change.id) × (length change.id ≤ 256)
    pub no_nul : includes_nul change.id ≡ false
    pub timestamp :
        (0 < change.timestamp) × (change.timestamp ≤ now + max_future_timestamp_drift_ms)
    pub client_id : IsClientId change.client_id
    pub found : get_table change.table ≡ some table
    pub fits : byte_size change.payload ≤ get_or table.settings.max_record_size_bytes limit

  IsClientId-checked : (c : Option Text) → (check_client_id c ≡ ok tt) ↔ IsClientId c
  unfolding check_client_id validate_client_id validate_filesystem_safe
  IsClientId-checked none = (λ h. tt, λ h. refl)
  IsClientId-checked (some id) = (λ h. ground arith, λ h. ground arith)

  acceptable :
      (limit : ℕ) (change : ChangeRecord V)
      → validate_change byte_size get_table now limit change ≡ ok tt
      → IsAcceptable limit change
  unfolding validate_change validate_table_name validate_record_id validate_timestamp found_table
  acceptable limit change h = elim (Option-cases (get_table change.table)) [
    | inl missing ↦ absurd (ground arith)
    | inr (t, e) ↦ record {
      table = t;
      table_name = ground arith;
      record_id = ground arith;
      no_nul = ground arith;
      timestamp = ground arith;
      client_id = (IsClientId-checked change.client_id).0 (ground arith);
      found = e;
      fits = ground arith;
    }
  ]

  accepted :
      (limit : ℕ) (change : ChangeRecord V)
      → IsAcceptable limit change
      → validate_change byte_size get_table now limit change ≡ ok tt
  unfolding validate_change validate_table_name validate_record_id validate_timestamp found_table
  accepted limit change a = ground (arith, (IsClientId-checked change.client_id).1 a.client_id)

  abbrev pub AreAcceptable : ℕ → List (ChangeRecord V) → Type 0
  AreAcceptable limit [] = Unit
  AreAcceptable limit (c ∷ cs) = IsAcceptable limit c × AreAcceptable limit cs

  all_acceptable :
      (limit : ℕ) (changes : List (ChangeRecord V))
      → validate_changes byte_size get_table now limit changes ≡ ok tt
      → AreAcceptable limit changes
  unfolding validate_changes
  all_acceptable limit [] h = tt
  all_acceptable limit (c ∷ cs) h =
      let (first, rest) = >>-eq-ok (validate_change byte_size get_table now limit c) _ h in
      (acceptable limit c first, all_acceptable limit cs rest)

  all_accepted :
      (limit : ℕ) (changes : List (ChangeRecord V))
      → AreAcceptable limit changes
      → validate_changes byte_size get_table now limit changes ≡ ok tt
  unfolding validate_changes
  all_accepted limit [] a = refl
  all_accepted limit (c ∷ cs) a = rw (accepted limit c a.0) (all_accepted limit cs a.1)

  -- A batch passes exactly if it is no longer than the limit and each of its changes names an
  -- existing table under a valid name, a record id of 1 to 256 code units with no NUL, a positive
  -- timestamp at most five minutes ahead, a valid client id if any, and a payload that fits.
  pub validate_batch_changes_iff :
      (options : StorageOptions) (changes : List (ChangeRecord V)) (limit : ℕ)
      → (validate_batch_changes byte_size get_table now options changes limit ≡ ok tt)
        ↔ ((length changes ≤ get_or options.max_batch_changes 1000) × AreAcceptable limit changes)
  unfolding validate_batch_changes
  validate_batch_changes_iff options changes limit = (
    λ h. (ground arith, all_acceptable limit changes (ground arith)),
    λ h. ground (arith, all_accepted limit changes h.1),
  )
