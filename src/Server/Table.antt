-- ===== src/Server/Table.antt =====
-- src/server/storage/table.ts: a table's settings and its access control.
pub mod Access
use typescript_tetherdb.Base.{
  ℕ, zero, suc, Text, Bool, true, false, ◌&&◌, ◌||◌, not, Option, none, some, get_or, if◌then◌else◌,
}
use typescript_tetherdb.Shared.Types.{
  OperationType, put, delete, Permission, everybody, authenticated, owner, nobody, TablePermissions,
  TableSettings, PartialPermissions, PartialSettings, default_table_permissions,
}
use typescript_tetherdb.Server.Errors.{Result, ok, throw, forbidden}
use typescript_tetherdb.Server.User.{User, is_authenticated, is_admin}
use typescript_tetherdb.Server.Security.{InternalStoredRecord, is_permission_allowed}

pub record Table (V : Type 0) : Type 0 where
  pub name : Text
  pub settings : TableSettings V

-- `{...base, ...given}` on one field.
abbrev pub spread {ℓ} : {A : Type ℓ} → Option A → Option A → Option A
spread (some a) base = some a
spread none base = base

unfoldable pub spread_permissions : Option PartialPermissions → TablePermissions → TablePermissions
spread_permissions none base = base
spread_permissions (some p) base = record {
  create = get_or p.create base.create;
  read = get_or p.read base.read;
  update = get_or p.update base.update;
  delete = get_or p.delete base.delete;
}

-- `delete updated.limit` where the given limit is 0.
unfoldable pub spread_limit : Option ℕ → Option ℕ → Option ℕ
spread_limit none base = base
spread_limit (some zero) base = none
spread_limit (some (suc n)) base = some (suc n)

-- `permissions.read === Permission.Owner`
abbrev pub is_owner_rule : Permission → Bool
is_owner_rule owner = true
is_owner_rule _ = false

module _ {V : Type 0} where
  -- `new Table(name, storage, settings)`
  unfoldable pub new_table : Text → PartialSettings V → Table V
  new_table name given = record {
    name = name;
    settings = record {
      permissions = spread_permissions given.permissions default_table_permissions;
      rows = given.rows;
      max_records = given.max_records;
      max_record_size_bytes = given.max_record_size_bytes;
      max_history_entries = given.max_history_entries;
    };
  }

  unfoldable pub update_settings : Table V → PartialSettings V → Table V
  update_settings t given = record t {
    settings = record {
      permissions = spread_permissions given.permissions t.settings.permissions;
      rows = spread given.rows t.settings.rows;
      max_records = spread_limit given.max_records t.settings.max_records;
      max_record_size_bytes =
          spread_limit given.max_record_size_bytes t.settings.max_record_size_bytes;
      max_history_entries = spread_limit given.max_history_entries t.settings.max_history_entries;
    };
  }

  unfoldable pub is_private : Table V → Bool
  is_private t = is_owner_rule t.settings.permissions.read

abbrev is_everybody : Permission → Bool
is_everybody everybody = true
is_everybody _ = false

abbrev is_nobody : Permission → Bool
is_nobody nobody = true
is_nobody _ = false

unfoldable pub can_access : Permission → User → Bool
can_access permission user =
    if is_admin user
    then true
    else is_everybody permission || (is_authenticated user && not (is_nobody permission))

module _ {V : Type 0} where
  -- `record ? isPermissionAllowed(rule, user, record.userId) : canAccess(rule, user)`
  unfoldable pub can_apply : Permission → User → Option (InternalStoredRecord V) → Bool
  can_apply rule user none = can_access rule user
  can_apply rule user (some r) = is_permission_allowed rule user r.user_id

  unfoldable pub can_create : Table V → User → Bool
  can_create t user = can_access t.settings.permissions.create user

  unfoldable pub can_read : Table V → User → Option (InternalStoredRecord V) → Bool
  unfolding can_apply
  can_read t user r = can_apply t.settings.permissions.read user r

  unfoldable pub can_update : Table V → User → Option (InternalStoredRecord V) → Bool
  unfolding can_apply
  can_update t user r = can_apply t.settings.permissions.update user r

  unfoldable pub can_delete : Table V → User → Option (InternalStoredRecord V) → Bool
  unfolding can_apply
  can_delete t user r = can_apply t.settings.permissions.delete user r

  -- `!existing || existing.deleted`
  abbrev pub is_absent : Option (InternalStoredRecord V) → Bool
  is_absent none = true
  is_absent (some r) = r.deleted

  -- The rule that a change has to meet.
  unfoldable pub change_permitted :
      Table V → User → OperationType → Option (InternalStoredRecord V) → Bool
  change_permitted t user delete existing = can_delete t user existing
  change_permitted t user put existing =
      if is_absent existing then can_create t user else can_update t user existing

  unfoldable pub assert_can_apply_change :
      Table V → User → OperationType → Option (InternalStoredRecord V) → Result (Unit {0})
  assert_can_apply_change t user op existing =
      if is_admin user
      then ok tt
      else if change_permitted t user op existing
      then ok tt
      else throw forbidden
