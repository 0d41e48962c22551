-- ===== src/Server/Filter/Visible.antt =====
-- What a user is sent, stated without the caches that the loops carry.
use typescript_tetherdb.Base.{
  ◌≡◌, ◌⊎◌, refl, sym, ap, ap₂, ◌∙◌, Text, text_key, Bool, true, false, ◌&&◌, Option, none, some,
  List, [], ◌∷◌, ◌++◌, same, eq_of_same, filter, map, arith, inl, inr, Bool-cases, if◌then◌else◌,
}
use typescript_tetherdb.Base.Dict
use typescript_tetherdb.Base.Dict.{get-put}
use typescript_tetherdb.Shared.Types.{ChangeRecord, SnapshotRecord}
use typescript_tetherdb.Server.Resolver.{UserCache, resolve_user_name_lem, name_of, IsCurrent}
use typescript_tetherdb.Server.Security.{InternalStoredRecord, InternalChangeRecord, is_owner}
use typescript_tetherdb.Server.Filter.{
  is_wanted, is_shown, snapshot_record, is_offered, partition_of, snapshot_table,
  filter_and_sanitize_snapshot, sent_change, is_sent, TableCache, cached_or_found, cached_table,
  filter_changes, filter_and_sanitize_changes,
}
use typescript_tetherdb.Server.Table.{Table, is_private}
use typescript_tetherdb.Server.User.{User, user_id, is_admin, is_authenticated}

is_owner_lem :
    (user : User) (owner : Option Text) → is_owner owner user ≡ true → owner ≡ some (user_id user)
is_owner_lem user none h = ground arith
is_owner_lem user (some id) h = ap some (eq_of_same id (user_id user) h)

module _ {V : Type 0} (find_user_name : Text → Option Text) (user : User) where
  -- The records of one table that the user may read, each with its owner's name.
  unfoldable pub shown_records : Table V → List (InternalStoredRecord V) → List (SnapshotRecord V)
  shown_records table raws =
      map (λ raw. snapshot_record table raw (name_of find_user_name raw.user_id (some user)))
        (filter (is_shown table user) raws)

  -- Those of all the tables offered, in the tables' order.
  unfoldable pub offered_records :
      (Text → Text → List (InternalStoredRecord V))
      → Option (List Text)
      → List (Table V)
      → List (SnapshotRecord V)
  offered_records raw_records filters [] = []
  offered_records raw_records filters (table ∷ tables) =
      let rest = offered_records raw_records filters tables in
      if is_offered filters user table
      then shown_records table (raw_records table.name (partition_of table user)) ++ rest
      else rest

  abbrev pub IsSnapshot : List (SnapshotRecord V) → UserCache × List (SnapshotRecord V) → Type 0
  IsSnapshot items r = IsCurrent find_user_name (some user) r.0 × (r.1 ≡ items)

  pub snapshot_table-IsSnapshot :
      (table : Table V) (raws : List (InternalStoredRecord V)) (cache : UserCache)
      → IsCurrent find_user_name (some user) cache
      → IsSnapshot (shown_records table raws) (snapshot_table find_user_name user table raws cache)
  unfolding snapshot_table shown_records filter
  snapshot_table-IsSnapshot table [] cache h = (h, refl)
  snapshot_table-IsSnapshot table (raw ∷ raws) cache h =
      let (named, h') = resolve_user_name_lem find_user_name raw.user_id (some user) cache h in
      elim (Bool-cases (is_shown table user raw)) [
        | inl shown ↦
            let (current, rest) = snapshot_table-IsSnapshot table raws _ h' in
            rw shown
              (current, ap₂ (λ name items. snapshot_record table raw name ∷ items) named rest)
        | inr passed ↦ rw passed (snapshot_table-IsSnapshot table raws cache h)
      ]

  -- With a cache that is up to date, the snapshot has exactly the records that are not deleted and
  -- that the user may read, of the tables that are offered and wanted, each with its owner's name.
  pub filter_and_sanitize_snapshot-offered_records :
      (raw_records : Text → Text → List (InternalStoredRecord V)) (filters : Option (List Text))
      (tables : List (Table V)) (cache : UserCache)
      → IsCurrent find_user_name (some user) cache
      → IsSnapshot
          (offered_records raw_records filters tables)
          (filter_and_sanitize_snapshot find_user_name user raw_records filters tables cache)
  unfolding filter_and_sanitize_snapshot offered_records
  filter_and_sanitize_snapshot-offered_records raw_records filters [] cache h = (h, refl)
  filter_and_sanitize_snapshot-offered_records raw_records filters (table ∷ tables) cache h =
      elim (Bool-cases (is_offered filters user table)) [
        | inl offered ↦
            let raws = raw_records table.name (partition_of table user) in
            let (h', items) = snapshot_table-IsSnapshot table raws cache h in
            let (current, rest) =
              filter_and_sanitize_snapshot-offered_records raw_records filters tables _ h' in
            rw offered (current, ap₂ (λ a b. a ++ b) items rest)
        | inr passed ↦
            rw passed
              (filter_and_sanitize_snapshot-offered_records raw_records filters tables cache h)
      ]

  module _ (table_lookup : Text → Option (Table V)) where
    abbrev pub IsFaithful : TableCache V → Type 0
    IsFaithful cache =
        (name : Text) (table : Option (Table V))
        → Dict.get name cache ≡ some table
        → table ≡ table_lookup name

    put-IsFaithful :
        (name : Text) (cache : TableCache V)
        → IsFaithful cache
        → IsFaithful (Dict.put name (table_lookup name) cache)
    put-IsFaithful name cache h n table found = elim (Bool-cases (same name n)) [
      | inl hit ↦
          let looked_up : table_lookup name ≡ table =
            ground (arith, get-put name n (table_lookup name) cache) in
          sym looked_up ∙ ap table_lookup (eq_of_same name n hit)
      | inr miss ↦ h n table (ground (arith, get-put name n (table_lookup name) cache))
    ]

    cached_or_found_lem :
        (name : Text) (found : Option (Option (Table V))) (cache : TableCache V)
        → Dict.get name cache ≡ found
        → IsFaithful cache
        → IsFaithful (cached_or_found table_lookup name found cache).0
          × ((cached_or_found table_lookup name found cache).1 ≡ table_lookup name)
    unfolding cached_or_found
    cached_or_found_lem name (some table) cache e h = (h, h name table e)
    cached_or_found_lem name none cache e h = (put-IsFaithful name cache h, refl)

    pub cached_table_lem :
        (name : Text) (cache : TableCache V)
        → IsFaithful cache
        → IsFaithful (cached_table table_lookup name cache).0
          × ((cached_table table_lookup name cache).1 ≡ table_lookup name)
    unfolding cached_table
    cached_table_lem name cache h = cached_or_found_lem name (Dict.get name cache) cache refl h

    -- Whether a change goes to the user.
    abbrev pub goes_out : Option (List Text) → InternalChangeRecord V → Bool
    goes_out filters raw = is_wanted filters raw.table && is_sent user (table_lookup raw.table) raw

    abbrev pub named_change : InternalChangeRecord V → ChangeRecord V
    named_change raw = sent_change raw (name_of find_user_name raw.user_id (some user))

    filter_changes_lem :
        (filters : Option (List Text)) (raws : List (InternalChangeRecord V))
        (tables : TableCache V) (cache : UserCache)
        → IsFaithful tables
        → IsCurrent find_user_name (some user) cache
        → (filter_changes table_lookup find_user_name user filters raws tables cache).1
          ≡ map named_change (filter (goes_out filters) raws)
    unfolding filter_changes filter
    filter_changes_lem filters [] tables cache f h = refl
    filter_changes_lem filters (raw ∷ raws) tables cache f h =
        let (f', found) = cached_table_lem raw.table tables f in
        let (named, h') = resolve_user_name_lem find_user_name raw.user_id (some user) cache h in
        elim (Bool-cases (is_wanted filters raw.table)) [
          | inr unwanted ↦ rw unwanted (filter_changes_lem filters raws tables cache f h)
          | inl wanted ↦ elim (Bool-cases (is_sent user (table_lookup raw.table) raw)) [
            | inl sent ↦
                rw (wanted, found, sent)
                  (ap₂ (λ name changes. sent_change raw name ∷ changes) named
                    (filter_changes_lem filters raws _ _ f' h'))
            | inr passed ↦ rw (wanted, found, passed) (filter_changes_lem filters raws _ cache f' h)
          ]
        ]

    -- With a cache that is up to date, the changes sent are exactly those of the wanted tables that
    -- pass the tests on their table, in their order, each with its author's name and without the
    -- author's id.
    pub filter_and_sanitize_changes-goes_out :
        (filters : Option (List Text)) (raws : List (InternalChangeRecord V)) (cache : UserCache)
        → IsCurrent find_user_name (some user) cache
        → (filter_and_sanitize_changes table_lookup find_user_name user filters raws cache).1
          ≡ map named_change (filter (goes_out filters) raws)
    unfolding filter_and_sanitize_changes Dict.get
    filter_and_sanitize_changes-goes_out filters raws cache h =
        filter_changes_lem filters raws [] cache (λ name table found. ground arith) h

module _ {V : Type 0} (user : User) where
  -- A change of a private table goes to no one but the administrator and the account that wrote it,
  -- and a change of an unknown table to no one.
  pub is_sent_private :
      (table : Option (Table V)) (raw : InternalChangeRecord V)
      → is_sent user table raw ≡ true
      → is_admin user ≡ false
      → (t : Table V) × (table ≡ some t)
        × ((is_private t ≡ false)
            ⊎ (is_authenticated user ≡ true) × (raw.user_id ≡ some (user_id user)))
  unfolding is_sent
  is_sent_private none raw h n = ground arith
  is_sent_private (some t) raw h n = (
    t,
    refl,
    elim (Bool-cases (is_private t)) [
      | inr public ↦ inl public
      | inl private ↦ inr (ground arith, is_owner_lem user raw.user_id (ground arith))
    ],
  )
