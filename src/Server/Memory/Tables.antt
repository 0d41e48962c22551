-- ===== src/Server/Memory/Tables.antt =====
-- The tables of the in-memory engine: `createTable`, `getTable`, `getTables` and `deleteTable`.
use typescript_tetherdb.Base.{Text, text_key, Bool, not, Option, List, same, filter, if◌then◌else◌}
use typescript_tetherdb.Base.Dict
use typescript_tetherdb.Base.Dict.{Dict}
use typescript_tetherdb.Shared.Types.{PartialSettings}
use typescript_tetherdb.Server.Errors.{Result, ok, throw, already_exists, ◌>>=◌}
use typescript_tetherdb.Server.Memory.{MemoryStorage, StatePartition}
use typescript_tetherdb.Server.Security.{InternalChangeRecord}
use typescript_tetherdb.Server.Table.{Table, new_table}
use typescript_tetherdb.Server.Validate.{validate_table_name}

module _ {V : Type 0} where
  unfoldable pub create_table :
      Text → PartialSettings V → MemoryStorage V → Result (Table V × MemoryStorage V)
  create_table name settings s = do
    safe_name ← validate_table_name name
    let table = new_table safe_name settings
    if Dict.has safe_name s.tables
        then throw already_exists
        else ok (table, record s { tables = Dict.put safe_name table s.tables })

  unfoldable pub get_table : Text → MemoryStorage V → Result (Option (Table V))
  get_table name s = do safe_name ← validate_table_name name; ok (Dict.get safe_name s.tables)

  unfoldable pub get_tables : MemoryStorage V → List (Table V)
  get_tables s = Dict.values s.tables

  -- The entries of a changelog that name another table.
  abbrev pub without_table : Text → List (InternalChangeRecord V) → List (InternalChangeRecord V)
  without_table name = filter (λ c. not (same c.table name))

  unfoldable pub drop_table : Text → StatePartition V → StatePartition V
  drop_table name p = record p {
    tables = Dict.delete name p.tables;
    changelog = without_table name p.changelog;
  }

  unfoldable pub delete_table : Text → MemoryStorage V → Result (Bool × MemoryStorage V)
  unfolding drop_table
  delete_table name s = do
    safe_name ← validate_table_name name
    ok (
      Dict.has safe_name s.tables,
      record s {
        tables = Dict.delete safe_name s.tables;
        shared_state = drop_table safe_name s.shared_state;
        user_states = Dict.map_values (drop_table safe_name) s.user_states;
      },
    )
