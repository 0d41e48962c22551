-- ===== src/Examples/Deleting.antt =====
-- Deletions of a table and of an account.
use typescript_tetherdb.Base.{
  ◌≡◌, refl, ℕ, text, text_key, Bool, true, false, none, [], ◌∷◌, Text-discrete,
}
use typescript_tetherdb.Base.Dict
use typescript_tetherdb.Server.Errors.{Result, ok, throw}
use typescript_tetherdb.Server.Memory.{MemoryStorage, MemoryUserData}
use typescript_tetherdb.Server.Memory.History.Burial
use typescript_tetherdb.Server.Memory.History.Deletion
use typescript_tetherdb.Server.Memory.History.Burial.{delete_user-IsRecorded}
use typescript_tetherdb.Server.Memory.History.CatchUp.{IsRecorded}
use typescript_tetherdb.Server.Memory.History.Deletion.{delete_table-IsRecorded}
use typescript_tetherdb.Server.Memory.Tables.{delete_table}
use typescript_tetherdb.Server.Memory.Users.{delete_user}
use typescript_tetherdb.Server.Validate.{
  validate_table_name, is_valid_table_name, validate_user_id, validate_filesystem_safe,
  matches_safe, all_safe, is_safe_unit,
}
use typescript_tetherdb.Examples.{store}
use typescript_tetherdb.Examples.Applying.{written, history, written-IsRecorded}

abbrev outcome : Result (Bool × MemoryStorage ℕ) → Bool × MemoryStorage ℕ
outcome (ok r) = r
outcome (throw e) = (false, store)

abbrev without_news : Result (Bool × MemoryStorage ℕ)
without_news = delete_table (text "news") written.0

without_news_ok : without_news ≡ ok (outcome without_news)
unfolding delete_table validate_table_name is_valid_table_name matches_safe all_safe is_safe_unit
without_news_ok = refl

delete_table-IsRecorded_example :
    Deletion.IsDeleted (text "news") history written.0 (outcome without_news).1
delete_table-IsRecorded_example =
    delete_table-IsRecorded history (text "news") (outcome without_news).0 written.0
      (outcome without_news).1 without_news_ok written-IsRecorded

abbrev ann_data : MemoryUserData
ann_data = record {
  user_id = text "u1";
  user_name = text "ann";
  password_hash = none;
  created_at = 1;
}

abbrev peopled : MemoryStorage ℕ
peopled = record written.0 { users = (text "u1", ann_data) ∷ [] }

peopled-IsRecorded : IsRecorded history peopled
peopled-IsRecorded = record {
  shared_ascending = written-IsRecorded.shared_ascending;
  shared_retained = written-IsRecorded.shared_retained;
  user_ascending = written-IsRecorded.user_ascending;
  user_retained = written-IsRecorded.user_retained;
}

abbrev without_ann : Result (Bool × MemoryStorage ℕ)
without_ann = delete_user 0 5 (text "u1") peopled

without_ann_ok : without_ann ≡ ok (true, (outcome without_ann).1)
unfolding delete_user validate_user_id validate_filesystem_safe matches_safe all_safe is_safe_unit
    Dict.get Text-discrete
without_ann_ok = refl

delete_user-IsRecorded_example :
    Burial.IsDeleted 0 (text "u1") 5 history peopled (outcome without_ann).1
delete_user-IsRecorded_example =
    delete_user-IsRecorded 0 5 (text "u1") history peopled (outcome without_ann).1 without_ann_ok
      peopled-IsRecorded
