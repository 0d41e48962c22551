-- ===== src/Server/Filter/Sent.antt =====
-- What goes to a user, as src/server/security/filter.ts discloses it: the live records and the changes
-- that Audience lets the user see, in their public form.
use typescript_tetherdb.Base.{
  ◌≡◌, refl, ap, ap₂, ◌∙◌, Text, Bool, false, not, ◌&&◌, Option, none, some, List, [], ◌∷◌, ◌++◌,
  filter, map, arith, inl, inr, Bool-cases, if◌then◌else◌, text_key,
}
use mathlib.Core.Path.{fun_ext}
use typescript_tetherdb.Shared.Types.{
  OperationType, put, delete, ChangeRecord, SnapshotRecord, Permission,
}
use typescript_tetherdb.Server.Resolver.{UserCache, name_of, IsCurrent}
use typescript_tetherdb.Server.Security.{InternalStoredRecord, InternalChangeRecord}
use typescript_tetherdb.Server.Filter.{
  is_shown, sent_payload, is_offered, partition_of, is_sent, filter_and_sanitize_snapshot,
  filter_and_sanitize_changes,
}
use typescript_tetherdb.Server.Filter.Visible.{
  shown_records, offered_records, goes_out, named_change, filter_and_sanitize_changes-goes_out,
  filter_and_sanitize_snapshot-offered_records,
}
use typescript_tetherdb.Server.Table.{Table, is_private, can_apply, can_read}
use typescript_tetherdb.Server.User.{User}
use typescript_tetherdb.Server.Filter.Audience.{
  is_asked_for, is_wanted_lem, may_see, snapshot_home, allowed_lem, sent_by_rule, snapshot_by_rule,
}

abbrev pub kept_payload : {V : Type 0} → OperationType → Option V → Option V
kept_payload put payload = payload
kept_payload delete payload = none

kept_payload_lem :
    {V : Type 0} (op : OperationType) (payload : Option V)
    → sent_payload op payload ≡ kept_payload op payload
kept_payload_lem put payload = refl
kept_payload_lem delete payload = refl

abbrev pub named : (Text → Option Text) → User → Option Text → Option Text
named find_user_name user author = name_of find_user_name author (some user)

module _ {V : Type 0} where
  -- A live record, without its owner's id.
  abbrev pub disclosed_record : Text → Option Text → InternalStoredRecord V → SnapshotRecord V
  disclosed_record table name raw = record {
    table = table;
    stored = record {
      id = raw.id;
      payload = raw.payload;
      version = raw.version;
      timestamp = raw.timestamp;
      deleted = none;
      client_id = raw.client_id;
      user_name = name;
    };
  }

  -- A change, without its author's id, and without a payload if it is a deletion.
  abbrev pub disclosed_change : Option Text → InternalChangeRecord V → ChangeRecord V
  disclosed_change name raw = record {
    table = raw.table;
    id = raw.id;
    op = raw.op;
    payload = kept_payload raw.op raw.payload;
    version = raw.version;
    seq = some raw.seq;
    timestamp = raw.timestamp;
    client_id = raw.client_id;
    user_name = name;
    user_id = none;
  }

  abbrev pub sees_record : User → Permission → InternalStoredRecord V → Bool
  sees_record user rule raw = not raw.deleted && may_see user rule raw.user_id

  abbrev pub sees_change : User → Option (Table V) → InternalChangeRecord V → Bool
  sees_change user none raw = false
  sees_change user (some table) raw = may_see user table.settings.permissions.read raw.user_id

  is_sent_lem :
      (user : User) (table : Option (Table V)) (raw : InternalChangeRecord V)
      → is_sent user table raw ≡ sees_change user table raw
  unfolding is_sent can_read can_apply is_private
  is_sent_lem user none raw = refl
  is_sent_lem user (some table) raw = sent_by_rule user table.settings.permissions.read raw.user_id

  pub is_shown_lem :
      (table : Table V) (user : User) (raw : InternalStoredRecord V)
      → is_shown table user raw ≡ sees_record user table.settings.permissions.read raw
  unfolding can_read can_apply
  is_shown_lem table user raw =
      ap (λ b. not raw.deleted && b) (allowed_lem user table.settings.permissions.read raw.user_id)

  pub sees_none :
      (user : User) (rule : Permission) (raws : List (InternalStoredRecord V))
      → ((author : Option Text) → may_see user rule author ≡ false)
      → filter (sees_record user rule) raws ≡ []
  unfolding filter
  sees_none user rule [] h = refl
  sees_none user rule (raw ∷ raws) h = elim (Bool-cases raw.deleted) [
    | inl d ↦ rw d (sees_none user rule raws h)
    | inr d ↦ rw (d, h raw.user_id) (sees_none user rule raws h)
  ]

  module _ (find_user_name : Text → Option Text) (user : User) where
    -- The live records that the user may see, of each table asked for.
    unfoldable pub visible_records :
        (Text → Text → List (InternalStoredRecord V))
        → Option (List Text)
        → List (Table V)
        → List (SnapshotRecord V)
    visible_records raw_records filters [] = []
    visible_records raw_records filters (table ∷ tables) =
        let rest = visible_records raw_records filters tables in
        let rule = table.settings.permissions.read in
        if is_asked_for filters table.name
        then map (λ raw. disclosed_record table.name (named find_user_name user raw.user_id) raw)
            (filter (sees_record user rule) (raw_records table.name (snapshot_home user rule)))
          ++ rest
        else rest

    -- The changes that the user may see, of the tables asked for.
    abbrev pub visible_changes :
        (Text → Option (Table V))
        → Option (List Text)
        → List (InternalChangeRecord V)
        → List (ChangeRecord V)
    visible_changes table_lookup filters raws =
        map (λ raw. disclosed_change (named find_user_name user raw.user_id) raw)
          (filter
            (λ raw. is_asked_for filters raw.table && sees_change user (table_lookup raw.table) raw)
            raws)

    goes_out-visible :
        (table_lookup : Text → Option (Table V)) (filters : Option (List Text))
        (raws : List (InternalChangeRecord V))
        → map
            (named_change find_user_name user table_lookup)
            (filter (goes_out find_user_name user table_lookup filters) raws)
          ≡ visible_changes table_lookup filters raws
    goes_out-visible table_lookup filters raws =
        ap₂ (λ f p. map f (filter p raws))
          (fun_ext (λ raw.
            ap
              (λ payload. record (disclosed_change (named find_user_name user raw.user_id) raw) {
                payload = payload;
              })
              (kept_payload_lem raw.op raw.payload)))
          (fun_ext (λ raw.
            ap₂ (λ a b. a && b) (is_wanted_lem filters raw.table)
              (is_sent_lem user (table_lookup raw.table) raw)))

    -- With a cache that is up to date, the changes sent are, in their order, those of the tables asked
    -- for that the user may see by the user's role, the rule for reading and the change's author: the
    -- administrator every one of a known table, an account what it wrote where the owner's rule holds,
    -- a guest only what everybody may read. Each has its author's name and not the author's id, and a
    -- deletion has no payload.
    pub filter_and_sanitize_changes_lem :
        (table_lookup : Text → Option (Table V)) (filters : Option (List Text))
        (raws : List (InternalChangeRecord V)) (cache : UserCache)
        → IsCurrent find_user_name (some user) cache
        → (filter_and_sanitize_changes table_lookup find_user_name user filters raws cache).1
          ≡ visible_changes table_lookup filters raws
    filter_and_sanitize_changes_lem table_lookup filters raws cache h =
        filter_and_sanitize_changes-goes_out find_user_name user table_lookup filters raws cache h
        ∙ goes_out-visible table_lookup filters raws

    pub shown_records-visible :
        (table : Table V) (raws : List (InternalStoredRecord V))
        → shown_records find_user_name user table raws
          ≡ map
              (λ raw. disclosed_record table.name (named find_user_name user raw.user_id) raw)
              (filter (sees_record user table.settings.permissions.read) raws)
    unfolding shown_records
    shown_records-visible table raws =
        ap
          (λ p.
            map (λ raw. disclosed_record table.name (named find_user_name user raw.user_id) raw)
              (filter p raws))
          (fun_ext (is_shown_lem table user))

    table_visible :
        (table : Table V) (filters : Option (List Text))
        (raws_of : Text → List (InternalStoredRecord V)) (rest : List (SnapshotRecord V))
        → (if is_offered filters user table
            then shown_records find_user_name user table (raws_of (partition_of table user)) ++ rest
            else rest)
          ≡ (if is_asked_for filters table.name
              then map
                  (λ raw. disclosed_record table.name (named find_user_name user raw.user_id) raw)
                  (filter
                    (sees_record user table.settings.permissions.read)
                    (raws_of (snapshot_home user table.settings.permissions.read)))
                ++ rest
              else rest)
    unfolding can_read can_apply is_private
    table_visible table filters raws_of rest = elim (Bool-cases (is_asked_for filters table.name)) [
      | inr a ↦ ground (arith, is_wanted_lem filters table.name)
      | inl a ↦
          rw (is_wanted_lem filters table.name, a, shown_records-visible)
            (snapshot_by_rule
              (λ home.
                map (λ raw. disclosed_record table.name (named find_user_name user raw.user_id) raw)
                  (filter (sees_record user table.settings.permissions.read) (raws_of home))
                ++ rest)
              rest user table.settings.permissions.read
              (λ h home.
                ap
                  (λ raws.
                    map
                      (λ raw.
                        disclosed_record table.name (named find_user_name user raw.user_id) raw)
                      raws
                    ++ rest)
                  (sees_none user table.settings.permissions.read (raws_of home) h)))
    ]

    offered_records-visible :
        (raw_records : Text → Text → List (InternalStoredRecord V)) (filters : Option (List Text))
        (tables : List (Table V))
        → offered_records find_user_name user raw_records filters tables
          ≡ visible_records raw_records filters tables
    unfolding offered_records visible_records
    offered_records-visible raw_records filters [] = refl
    offered_records-visible raw_records filters (table ∷ tables) =
        rw (offered_records-visible raw_records filters tables) (
          table_visible table filters (raw_records table.name)
            (visible_records raw_records filters tables))

    -- With a cache that is up to date, the snapshot has, table by table, the records of the tables asked
    -- for that are not deleted and that the user may see by the user's role, the rule for reading and
    -- the record's owner, each with its owner's name and not the owner's id. They are taken from the
    -- shared partition, or, where the owner's rule holds, from the account's own and for the
    -- administrator from that of the empty id.
    pub filter_and_sanitize_snapshot_lem :
        (raw_records : Text → Text → List (InternalStoredRecord V)) (filters : Option (List Text))
        (tables : List (Table V)) (cache : UserCache)
        → IsCurrent find_user_name (some user) cache
        → (filter_and_sanitize_snapshot find_user_name user raw_records filters tables cache).1
          ≡ visible_records raw_records filters tables
    filter_and_sanitize_snapshot_lem raw_records filters tables cache h =
        (filter_and_sanitize_snapshot-offered_records find_user_name user raw_records filters tables
          cache h).1
        ∙ offered_records-visible raw_records filters tables
