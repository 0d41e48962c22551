-- ===== src/Examples.antt =====
-- Concrete inputs of the theorems: a store with a shared and a private table, and its users. A
-- payload is a number, and 0 stands for no data.
mod Applying
mod Deleting
mod Reading
mod Accounts
mod Limits
mod Replica
mod Connecting
mod Syncing
mod Serving
use typescript_tetherdb.Base.{ℕ, Text, text, Option, none, some, List, [], ◌∷◌}
use typescript_tetherdb.Shared.Types.{
  ChangeRecord, put, delete, TablePermissions, public_read_permissions, user_private_permissions,
}
use typescript_tetherdb.Server.Memory.{MemoryStorage, empty_partition}
use typescript_tetherdb.Server.Storage.{StorageOptions}
use typescript_tetherdb.Server.Table.{Table}
use typescript_tetherdb.Server.User.{User, account}

abbrev options : StorageOptions
options = record {
  max_records = none;
  max_record_size_bytes = none;
  max_batch_changes = none;
  max_history_entries = none;
}

abbrev table_of : Text → TablePermissions → Table ℕ
table_of name permissions = record {
  name = name;
  settings = record {
    permissions = permissions;
    rows = none;
    max_records = none;
    max_record_size_bytes = none;
    max_history_entries = none;
  };
}

abbrev news : Table ℕ
news = table_of (text "news") public_read_permissions

abbrev diary : Table ℕ
diary = table_of (text "diary") user_private_permissions

abbrev store : MemoryStorage ℕ
store = record {
  options = options;
  global_seq = 0;
  tables = (text "news", news) ∷ (text "diary", diary) ∷ [];
  users = [];
  users_by_user_name = [];
  user_states = [];
  shared_state = empty_partition;
}

abbrev ann : User
ann = account (text "u1") (text "ann") 1

abbrev write_to : Text → ℕ → ChangeRecord ℕ
write_to table timestamp = record {
  table = table;
  id = text "a";
  op = put;
  payload = some 7;
  version = none;
  seq = none;
  timestamp = timestamp;
  client_id = none;
  user_name = none;
  user_id = none;
}

-- Every payload takes one byte.
abbrev byte_size : Option ℕ → ℕ
byte_size payload = 1
