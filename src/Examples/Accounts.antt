-- ===== src/Examples/Accounts.antt =====
-- Accounts.
use typescript_tetherdb.Base.{
  ℕ, ◌≡◌, ◌≢◌, refl, Text, text, text_key, Bool, true, false, none, some, arith, Text-discrete,
}
use typescript_tetherdb.Base.Dict
use typescript_tetherdb.Server.Errors.{Result, ok, throw}
use typescript_tetherdb.Server.Memory.{MemoryStorage}
use typescript_tetherdb.Server.Memory.Users.{
  create_user, create_user_check, create_user_commit, get_user, get_user_by_user_name, rename_user,
  require_user, delete_user,
}
use typescript_tetherdb.Server.Memory.Users.Index.{
  IsIndexed, name_of, create_user-IsIndexed, rename_user-IsIndexed, delete_user-IsIndexed,
  create_user_found,
}
use typescript_tetherdb.Server.Memory.Users.Race.{both_created, create_user_race}
use typescript_tetherdb.Server.User.{User, admin}
use typescript_tetherdb.Server.Validate.{
  TextOps, validate_user_name, validate_password, validate_user_id, validate_filesystem_safe,
  matches_safe, all_safe, is_safe_unit, normalize_user_name, normalize_password,
}
use typescript_tetherdb.Examples.{store}

-- Names that need no trimming and have no capitals.
abbrev plain : TextOps
plain = record { trim = λ s. s; to_lower_case = λ s. s }

abbrev hash : Text → Text
hash password = text "hashed"

abbrev created : Result (User × MemoryStorage ℕ)
created = create_user plain hash (text "u1") 1 (text "ann") (text "secret") store

abbrev outcome : {A : Type 0} → Result (A × MemoryStorage ℕ) → A → A × MemoryStorage ℕ
outcome (ok r) default = r
outcome (throw e) default = (default, store)

abbrev with_ann : User × MemoryStorage ℕ
with_ann = outcome created admin

created_ok : created ≡ ok with_ann
unfolding create_user create_user_check create_user_commit validate_user_name validate_password
    normalize_user_name normalize_password Dict.get Dict.put Text-discrete
created_ok = refl

unused : Dict.get (text "u1") store.users ≡ none
unfolding Dict.get
unused = refl

store-IsIndexed : IsIndexed store
unfolding Dict.get
store-IsIndexed = record { by_id = λ id d e. ground arith; by_name = λ name id e. ground arith }

create_user-IsIndexed_example : IsIndexed with_ann.1
create_user-IsIndexed_example =
    create_user-IsIndexed store plain hash (text "u1") 1 (text "ann") (text "secret") with_ann.0
      with_ann.1 unused created_ok store-IsIndexed

with_ann-IsIndexed : IsIndexed with_ann.1
with_ann-IsIndexed =
    create_user-IsIndexed store plain hash (text "u1") 1 (text "ann") (text "secret") with_ann.0
      with_ann.1 unused created_ok store-IsIndexed

valid_id : matches_safe 1 64 (text "u1") ≡ true
unfolding matches_safe all_safe is_safe_unit
valid_id = refl

create_user_found_example :
    (get_user_by_user_name plain (text "ann") with_ann.1 ≡ some with_ann.0)
    × (get_user (text "u1") with_ann.1 ≡ ok (some with_ann.0))
create_user_found_example =
    create_user_found store plain hash (text "u1") 1 (text "ann") (text "ann") (text "secret")
      with_ann.0 with_ann.1 created_ok refl valid_id

abbrev renamed : Result (User × MemoryStorage ℕ)
renamed = rename_user plain (text "u1") (text "anna") with_ann.1

renamed_ok : renamed ≡ ok (outcome renamed admin)
unfolding rename_user require_user validate_user_id validate_filesystem_safe matches_safe all_safe
    is_safe_unit create_user create_user_check create_user_commit validate_user_name
    validate_password normalize_user_name normalize_password Dict.get Dict.put Dict.delete
    Text-discrete
renamed_ok = refl

rename_user-IsIndexed_example : IsIndexed (outcome renamed admin).1
rename_user-IsIndexed_example =
    rename_user-IsIndexed with_ann.1 plain (text "u1") (text "anna") (outcome renamed admin).0
      (outcome renamed admin).1 renamed_ok with_ann-IsIndexed

abbrev deleted : Result (Bool × MemoryStorage ℕ)
deleted = delete_user 0 5 (text "u1") with_ann.1

deleted_ok : deleted ≡ ok (outcome deleted false)
unfolding delete_user validate_user_id validate_filesystem_safe matches_safe all_safe is_safe_unit
deleted_ok = refl

delete_user-IsIndexed_example : IsIndexed (outcome deleted false).1
delete_user-IsIndexed_example =
    delete_user-IsIndexed with_ann.1 0 5 (text "u1") (outcome deleted false).0
      (outcome deleted false).1 deleted_ok with_ann-IsIndexed

checked :
    create_user_check plain (text "ann") (text "secret") store ≡ ok (text "ann", text "secret")
unfolding create_user_check validate_user_name validate_password normalize_user_name
    normalize_password Dict.get Text-discrete
checked = refl

two_ids : text "u1" ≢ text "u2"
two_ids e = ground arith

create_user_race_example :
    (name_of (
        Dict.get
          (text "u1")
          (both_created store (text "u1") (text "u2") (text "h") (text "k") 1 2 (text "ann")).users)
      ≡ some (text "ann"))
    × (name_of (
          Dict.get
            (text "u2")
            (both_created store
              (text "u1")
              (text "u2")
              (text "h")
              (text "k")
              1
              2
              (text "ann")).users)
        ≡ some (text "ann"))
    × (¬ IsIndexed
        (both_created store (text "u1") (text "u2") (text "h") (text "k") 1 2 (text "ann")))
create_user_race_example =
    create_user_race store (text "u1") (text "u2") (text "h") (text "k") 1 2 (text "ann") plain
      (text "ann") (text "ann") (text "secret") (text "secret") (text "secret") (text "secret")
      checked checked two_ids
