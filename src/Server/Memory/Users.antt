-- ===== src/Server/Memory/Users.antt =====
-- The accounts of the in-memory engine. `createUser` waits for the password's hash between its
-- test and its writes: other calls may run there, so it is two steps.
pub mod Index
pub mod Race
use typescript_tetherdb.Base.{
  ℕ, ◌+◌, ◌≡◌, Text, text_key, Bool, true, false, not, ◌&&◌, Option, none, some, List, [], ◌∷◌,
  ◌++◌, map, same, filter, arith, if◌then◌else◌,
}
use typescript_tetherdb.Base.Dict
use typescript_tetherdb.Base.Dict.{Dict}
use typescript_tetherdb.Shared.Types.{OperationType}
use typescript_tetherdb.Server.Errors.{
  Result, ok, throw, already_exists, not_found, ErrorCode, ◌>>=◌, ◌>>◌, require,
}
use typescript_tetherdb.Server.Memory.{
  MemoryStorage, MemoryUserData, StatePartition, Records, to_user,
}
use typescript_tetherdb.Server.Security.{InternalStoredRecord, InternalChangeRecord}
use typescript_tetherdb.Server.User.{User}
use typescript_tetherdb.Server.Validate.{
  TextOps, validate_user_id, validate_user_name, validate_password, normalize_user_name,
}

module _ {V : Type 0} (ops : TextOps) where
  -- `createUser` up to `await hashPassword(...)`: the normalized name and password.
  unfoldable pub create_user_check : Text → Text → MemoryStorage V → Result (Text × Text)
  create_user_check user_name password s = do
    safe_user_name ← validate_user_name ops user_name
    valid_password ← validate_password ops password
    if Dict.has safe_user_name s.users_by_user_name
        then throw already_exists
        else ok (safe_user_name, valid_password)

-- The rest of `createUser`, with the id, the hash and the time that the runtime supplies.
unfoldable pub create_user_commit :
    {V : Type 0} → Text → Text → ℕ → Text → MemoryStorage V → User × MemoryStorage V
create_user_commit user_id password_hash now safe_user_name s =
    let user_data : MemoryUserData = record {
      user_id = user_id;
      user_name = safe_user_name;
      password_hash = some password_hash;
      created_at = now;
    } in
    (
      to_user user_data,
      record s {
        users = Dict.put user_id user_data s.users;
        users_by_user_name = Dict.put safe_user_name user_id s.users_by_user_name;
      },
    )

abbrev pub option_user : Option MemoryUserData → Option User
option_user none = none
option_user (some d) = some (to_user d)

module _ {V : Type 0} where
  -- `createUser` when nothing runs between its two steps.
  unfoldable pub create_user :
      TextOps
      → (Text → Text)
      → Text
      → ℕ
      → Text
      → Text
      → MemoryStorage V
      → Result (User × MemoryStorage V)
  create_user ops hash_password uuid now user_name password s = do
    (safe_user_name, valid_password) ← create_user_check ops user_name password s
    ok (create_user_commit uuid (hash_password valid_password) now safe_user_name s)

  unfoldable pub get_user : Text → MemoryStorage V → Result (Option User)
  get_user user_id s = do
    safe_user_id ← validate_user_id user_id
    ok (option_user (Dict.get safe_user_id s.users))

  -- An empty id is falsy.
  abbrev user_of_id : Option Text → MemoryStorage V → Option User
  user_of_id none s = none
  user_of_id (some []) s = none
  user_of_id (some (c ∷ id)) s = option_user (Dict.get (c ∷ id) s.users)

  unfoldable pub get_user_by_user_name : TextOps → Text → MemoryStorage V → Option User
  get_user_by_user_name ops user_name s = elim (normalize_user_name ops user_name) [
    | [] ↦ none
    | c ∷ name ↦ user_of_id (Dict.get (c ∷ name) s.users_by_user_name) s
  ]

  unfoldable pub get_users : MemoryStorage V → List User
  get_users s = map to_user (Dict.values s.users)

  unfoldable pub require_user : Text → MemoryStorage V → Result MemoryUserData
  require_user user_id s = elim (Dict.get user_id s.users) [
    | none ↦ throw not_found
    | some d ↦ ok d
  ]

  unfoldable pub rename_user :
      TextOps → Text → Text → MemoryStorage V → Result (User × MemoryStorage V)
  rename_user ops user_id new_user_name s = do
    safe_user_id ← validate_user_id user_id
    safe_new_name ← validate_user_name ops new_user_name
    d ← require_user safe_user_id s
    let renamed = record d { user_name = safe_new_name }
    if Dict.has safe_new_name s.users_by_user_name && not (same d.user_name safe_new_name)
        then throw already_exists
        else ok (
          to_user renamed,
          record s {
            users = Dict.put safe_user_id renamed s.users;
            users_by_user_name =
                Dict.put safe_new_name safe_user_id (Dict.delete d.user_name s.users_by_user_name);
          },
        )

  unfoldable pub get_user_password_hash : Text → MemoryStorage V → Result (Option (Option Text))
  get_user_password_hash user_id s = do
    safe_user_id ← validate_user_id user_id
    ok (elim (Dict.get safe_user_id s.users) [ none ↦ none | some d ↦ some d.password_hash ])

  unfoldable pub set_user_password_hash : Text → Text → MemoryStorage V → Result (MemoryStorage V)
  set_user_password_hash user_id hash s = do
    safe_user_id ← validate_user_id user_id
    d ← require_user safe_user_id s
    ok (record s { users = Dict.put safe_user_id (record d { password_hash = some hash }) s.users })

-- `deleteUser` turns the account's live shared records into tombstones, each under a sequence
-- number of its own. What the loop carries: the number, and the entries to log.
pub record Burial (V : Type 0) : Type 0 where
  pub seq : ℕ
  pub log : List (InternalChangeRecord V)

module _ {V : Type 0} (null : V) (safe_user_id : Text) (now : ℕ) where
  abbrev pub owned_live : InternalStoredRecord V → Bool
  owned_live rec =
      elim rec.user_id [ none ↦ false | some id ↦ same id safe_user_id ] && not rec.deleted

  abbrev pub tombstone : InternalStoredRecord V → InternalStoredRecord V
  tombstone rec = record rec {
    version = rec.version + 1;
    timestamp = now;
    deleted = true;
    payload = null;
  }

  abbrev burial_entry : Text → Text → ℕ → InternalStoredRecord V → InternalChangeRecord V
  burial_entry table id seq rec = record {
    table = table;
    id = id;
    op = OperationType.delete;
    payload = none;
    version = some (rec.version + 1);
    seq = seq;
    timestamp = now;
    client_id = rec.client_id;
    user_id = some safe_user_id;
  }

  -- The inner loop, over the records of one table.
  unfoldable pub bury_records : Text → Records V → Burial V → Records V × Burial V
  bury_records table [] b = ([], b)
  bury_records table ((id, rec) ∷ rest) b =
      let hit = owned_live rec in
      let b' =
        if hit
        then record { seq = b.seq + 1; log = b.log ++ burial_entry table id (b.seq + 1) rec ∷ [] }
        else b in
      let (rest', b'') = bury_records table rest b' in
      ((id, if hit then tombstone rec else rec) ∷ rest', b'')

  -- The outer loop, over the shared tables.
  unfoldable pub bury_tables : Dict Text (Records V) → Burial V → Dict Text (Records V) × Burial V
  bury_tables [] b = ([], b)
  bury_tables ((table, records) ∷ rest) b =
      let (records', b') = bury_records table records b in
      let (rest', b'') = bury_tables rest b' in ((table, records') ∷ rest', b'')

  unfoldable pub remove_user : MemoryUserData → MemoryStorage V → MemoryStorage V
  remove_user d s =
      let start : Burial V = record { seq = s.global_seq; log = s.shared_state.changelog } in
      let (tables, b) = bury_tables s.shared_state.tables start in
      record s {
        global_seq = b.seq;
        users = Dict.delete safe_user_id s.users;
        users_by_user_name = Dict.delete d.user_name s.users_by_user_name;
        user_states = Dict.delete safe_user_id s.user_states;
        shared_state = record s.shared_state { tables = tables; changelog = b.log };
      }

unfoldable pub delete_user :
    {V : Type 0} → V → ℕ → Text → MemoryStorage V → Result (Bool × MemoryStorage V)
delete_user null now user_id s = do
  safe_user_id ← validate_user_id user_id
  ok (elim (Dict.get safe_user_id s.users) [
    | none ↦ (false, s)
    | some d ↦ (true, remove_user null safe_user_id now d s)
  ])
