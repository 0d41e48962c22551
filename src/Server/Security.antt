-- ===== src/Server/Security.antt =====
-- src/server/security: the stored forms with their owner (types.ts), and the permission test of
-- filter.ts.
use typescript_tetherdb.Base.{
  ℕ, Text, Bool, true, false, ◌&&◌, Option, none, some, same, text_key, if◌then◌else◌,
}
use typescript_tetherdb.Shared.Types.{
  OperationType, Permission, everybody, authenticated, owner, nobody,
}
use typescript_tetherdb.Server.User.{User, user_id, is_authenticated, is_admin}

pub record InternalStoredRecord (V : Type 0) : Type 0 where
  pub id : Text
  pub payload : V
  pub version : ℕ
  pub timestamp : ℕ
  pub deleted : Bool
  pub client_id : Option Text
  pub user_id : Option Text

pub record InternalChangeRecord (V : Type 0) : Type 0 where
  pub table : Text
  pub id : Text
  pub op : OperationType
  pub payload : Option V
  pub version : Option ℕ
  pub seq : ℕ
  pub timestamp : ℕ
  pub client_id : Option Text
  pub user_id : Option Text

-- `recordUserId !== undefined && recordUserId === user.userId`
abbrev pub is_owner : Option Text → User → Bool
is_owner none user = false
is_owner (some id) user = same id (user_id user)

-- The `switch` of the test below.
unfoldable pub rule_permits : Permission → User → Option Text → Bool
rule_permits everybody user record_user_id = true
rule_permits authenticated user record_user_id = is_authenticated user
rule_permits owner user record_user_id = is_authenticated user && is_owner record_user_id user
rule_permits nobody user record_user_id = false

unfoldable pub is_permission_allowed : Permission → User → Option Text → Bool
is_permission_allowed permission user record_user_id =
    if is_admin user then true else rule_permits permission user record_user_id
