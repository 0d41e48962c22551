-- ===== src/Server/Validate.antt =====
-- src/server/shared/validate.ts and src/shared/validate.ts: what identifiers, names, timestamps
-- and counts the server accepts.
use typescript_tetherdb.Base.{
  ℕ, ◌*◌, ◌+◌, Text, Bool, true, false, ◌&&◌, ◌||◌, not, [], ◌∷◌, ltb, leb, ◌==◌, length, Option,
  none, some, if◌then◌else◌,
}
use typescript_tetherdb.Server.Errors.{Result, ok, throw, invalid_input}

-- The class `[a-zA-Z0-9_-]`.
unfoldable pub is_safe_unit : ℕ → Bool
is_safe_unit c =
    (leb b'a' c && leb c b'z')
    || (leb b'A' c && leb c b'Z')
    || (leb b'0' c && leb c b'9')
    || c == b'_'
    || c == b'-'

unfoldable pub all_safe : Text → Bool
all_safe [] = true
all_safe (c ∷ s) = is_safe_unit c && all_safe s

-- `/^[a-zA-Z0-9_-]{lo,hi}$/.test(s)`
unfoldable pub matches_safe : ℕ → ℕ → Text → Bool
matches_safe lo hi s = all_safe s && leb lo (length s) && leb (length s) hi

abbrev pub table_name_max_length : ℕ
table_name_max_length = 64

unfoldable pub is_valid_table_name : Text → Bool
is_valid_table_name name =
    ltb 0 (length name)
    && leb (length name) table_name_max_length
    && matches_safe 1 table_name_max_length name

unfoldable pub validate_table_name : Text → Result Text
validate_table_name name = if not (is_valid_table_name name) then throw invalid_input else ok name

unfoldable pub validate_filesystem_safe : Text → Result Text
validate_filesystem_safe id = if not (matches_safe 1 64 id) then throw invalid_input else ok id

unfoldable pub validate_user_id : Text → Result Text
validate_user_id id = validate_filesystem_safe id

unfoldable pub validate_client_id : Text → Result Text
validate_client_id id = validate_filesystem_safe id

unfoldable pub validate_identifier : Text → Result Text
validate_identifier id = if not (matches_safe 2 128 id) then throw invalid_input else ok id

unfoldable pub includes_nul : Text → Bool
includes_nul [] = false
includes_nul (c ∷ s) = c == 0 || includes_nul s

unfoldable pub validate_record_id : Text → Result Text
validate_record_id id =
    if length id == 0 || ltb 256 (length id) || includes_nul id then throw invalid_input else ok id

abbrev pub max_future_timestamp_drift_ms : ℕ
max_future_timestamp_drift_ms = 5 * 60 * 1000

-- `now` is `Date.now()`.
unfoldable pub validate_timestamp : ℕ → ℕ → Result ℕ
validate_timestamp now timestamp =
    if leb timestamp 0
    then throw invalid_input
    else if ltb (now + max_future_timestamp_drift_ms) timestamp
    then throw invalid_input
    else ok timestamp

unfoldable pub validate_keep_count : Option ℕ → ℕ → Result ℕ
validate_keep_count none default_keep = ok default_keep
validate_keep_count (some keep_count) default_keep = ok keep_count

-- `String.prototype.trim` and `toLowerCase` belong to the language's runtime.
pub record TextOps : Type 0 where
  pub trim : Text → Text
  pub to_lower_case : Text → Text

module _ (ops : TextOps) where
  unfoldable pub normalize_user_name : Text → Text
  normalize_user_name user_name = ops.to_lower_case (ops.trim user_name)

  unfoldable pub validate_user_name : Text → Result Text
  validate_user_name user_name =
      let normalized = normalize_user_name user_name in
      if ltb (length normalized) 3 || ltb 128 (length normalized)
      then throw invalid_input
      else ok normalized

  unfoldable pub normalize_password : Text → Text
  normalize_password password = ops.trim password

  unfoldable pub validate_password : Text → Result Text
  validate_password password =
      let normalized = normalize_password password in
      if ltb (length normalized) 4 || ltb 512 (length normalized)
      then throw invalid_input
      else ok normalized
