-- ===== src/Server/TableRecords/Reading.antt =====
-- What `getRecord` and `getAllRecords` of src/server/storage/table.ts show a user.
use typescript_tetherdb.Base.{
  ◌≡◌, refl, ap, ◌∙◌, Text, text_key, false, Option, none, some, List, [], filter, map, arith, inl,
  inr, Bool-cases, if◌then◌else◌,
}
use typescript_tetherdb.Base.Dict
use typescript_tetherdb.Shared.Types.{StoredRecord}
use typescript_tetherdb.Server.Filter.{snapshot_table, sanitize_stored_record}
use typescript_tetherdb.Server.Filter.Audience.{may_see, reading_home, reading_by_rule}
use typescript_tetherdb.Server.Filter.Sent.{
  named, sees_record, sees_none, is_shown_lem, disclosed_record, shown_records-visible,
}
use typescript_tetherdb.Server.Filter.Visible.{snapshot_table-IsSnapshot}
use typescript_tetherdb.Server.Memory.{MemoryStorage, get_raw_record, get_raw_records}
use typescript_tetherdb.Server.Resolver.{IsCurrent, resolve_user_name_lem}
use typescript_tetherdb.Server.Security.{InternalStoredRecord}
use typescript_tetherdb.Server.Table.{Table, is_private, can_read, can_apply}
use typescript_tetherdb.Server.TableRecords.{get_record, get_all_records, shown_record}
use typescript_tetherdb.Server.User.{User}

empty-IsCurrent :
    (find_user_name : Text → Option Text) (user : User) → IsCurrent find_user_name (some user) []
unfolding Dict.get
empty-IsCurrent find_user_name user id name e = ground (arith, e)

module _ {V : Type 0} (find_user_name : Text → Option Text) (table : Table V) (user : User) where
  -- A record in its public form, if it is live and the user may see it.
  abbrev pub disclosed : Option (InternalStoredRecord V) → Option (StoredRecord V)
  disclosed none = none
  disclosed (some raw) =
      if sees_record user table.settings.permissions.read raw
      then some (disclosed_record table.name (named find_user_name user raw.user_id) raw).stored
      else none

  shown_record_lem :
      (found : Option (InternalStoredRecord V))
      → shown_record find_user_name table user found ≡ disclosed found
  unfolding shown_record sanitize_stored_record
  shown_record_lem none = refl
  shown_record_lem (some raw) = elim (Bool-cases raw.deleted) [
    | inl d ↦ ground (arith, is_shown_lem table user raw)
    | inr d ↦
        rw
          (
            is_shown_lem table user raw,
            d,
            (resolve_user_name_lem find_user_name raw.user_id (some user) []
                (empty-IsCurrent find_user_name user)).0,
          )
          refl
  ]

  disclosed-none :
      (found : Option (InternalStoredRecord V))
      → ((author : Option Text) → may_see user table.settings.permissions.read author ≡ false)
      → disclosed found ≡ none
  disclosed-none none h = refl
  disclosed-none (some raw) h = ground (arith, h raw.user_id)

  -- A record that is looked up is found exactly if it is there, live, and one that the user may see by
  -- the user's role, the rule for reading and the record's owner. It is looked up in the account's own
  -- partition where the owner's rule holds, and otherwise, and for the administrator, in the shared one.
  -- It has its owner's name and not the owner's id.
  pub get_record_lem :
      (id : Text) (s : MemoryStorage V)
      → get_record find_user_name table user id s
        ≡ disclosed
            (get_raw_record table.name (reading_home user table.settings.permissions.read) id s)
  unfolding get_record can_read can_apply is_private
  get_record_lem id s = rw shown_record_lem (
      reading_by_rule (λ home. disclosed (get_raw_record table.name home id s)) none user
        table.settings.permissions.read
        (λ h home. disclosed-none (get_raw_record table.name home id s) h))

  all_shown :
      (raws : List (InternalStoredRecord V))
      → (snapshot_table find_user_name user table raws []).1
        ≡ map
            (λ raw. disclosed_record table.name (named find_user_name user raw.user_id) raw)
            (filter (sees_record user table.settings.permissions.read) raws)
  all_shown raws =
      (snapshot_table-IsSnapshot find_user_name user table raws []
        (empty-IsCurrent find_user_name user)).1
      ∙ shown_records-visible find_user_name user table raws

  -- Reading a table gives, in their order, its live records that the user may see, from the same
  -- partition as a single record, each with its owner's name and not the owner's id.
  pub get_all_records_lem :
      (s : MemoryStorage V)
      → get_all_records find_user_name table user s
        ≡ map
            (λ raw. disclosed_record table.name (named find_user_name user raw.user_id) raw)
            (filter
              (sees_record user table.settings.permissions.read)
              (get_raw_records table.name (reading_home user table.settings.permissions.read) s))
  unfolding get_all_records can_read can_apply is_private
  get_all_records_lem s = rw all_shown (
      reading_by_rule
        (λ home.
          map (λ raw. disclosed_record table.name (named find_user_name user raw.user_id) raw)
            (filter (sees_record user table.settings.permissions.read)
              (get_raw_records table.name home s)))
        [] user table.settings.permissions.read
        (λ h home.
          ap (map (λ raw. disclosed_record table.name (named find_user_name user raw.user_id) raw))
            (sees_none user table.settings.permissions.read (get_raw_records table.name home s) h)))
