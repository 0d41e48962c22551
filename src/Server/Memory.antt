-- ===== src/Server/Memory.antt =====
-- src/server/storage/memory.ts: the state of the in-memory engine. `V` is the payloads' type. The
-- operations are in the modules below; each takes the state and returns the next one.
pub mod Tables
pub mod Users
pub mod History
pub mod Apply
use typescript_tetherdb.Base.{
  ℕ, Text, text, text_key, Option, none, some, List, [], ◌∷◌, same, get_or, if◌then◌else◌,
}
use typescript_tetherdb.Base.Dict
use typescript_tetherdb.Base.Dict.{Dict}
use typescript_tetherdb.Server.Security.{InternalStoredRecord, InternalChangeRecord}
use typescript_tetherdb.Server.Storage.{StorageOptions}
use typescript_tetherdb.Server.Table.{Table}
use typescript_tetherdb.Server.User.{User, anonymous, admin, account}

abbrev pub Records : Type 0 → Type 0
Records V = Dict Text (InternalStoredRecord V)

pub record StatePartition (V : Type 0) : Type 0 where
  pub current_seq : ℕ
  pub min_seq : ℕ
  pub tables : Dict Text (Records V)
  pub changelog : List (InternalChangeRecord V)

pub record MemoryUserData : Type 0 where
  pub user_id : Text
  pub user_name : Text
  pub password_hash : Option Text
  pub created_at : ℕ

pub record MemoryStorage (V : Type 0) : Type 0 where
  pub options : StorageOptions
  pub global_seq : ℕ
  pub tables : Dict Text (Table V)
  pub users : Dict Text MemoryUserData
  pub users_by_user_name : Dict Text Text
  pub user_states : Dict Text (StatePartition V)
  pub shared_state : StatePartition V

abbrev pub empty_partition : {V : Type 0} → StatePartition V
empty_partition = record { current_seq = 0; min_seq = 0; tables = []; changelog = [] }

abbrev pub shared_key : Text
shared_key = text "__shared__"

-- `createAuthenticatedUser` on a stored account.
abbrev pub to_user : MemoryUserData → User
to_user d = account d.user_id d.user_name d.created_at

-- The id of the partition of `user`: an account with an id has one.
abbrev pub own_id : User → Option Text
own_id (account [] name created_at) = none
own_id (account (c ∷ id) name created_at) = some (c ∷ id)
own_id _ = none

module _ {V : Type 0} where
  -- `new MemoryStorage(options)`
  unfoldable pub new_memory_storage : StorageOptions → MemoryStorage V
  new_memory_storage options = record {
    options = options;
    global_seq = 0;
    tables = [];
    users = [];
    users_by_user_name = [];
    user_states = [];
    shared_state = empty_partition;
  }

  -- `close()`
  unfoldable pub close : MemoryStorage V → MemoryStorage V
  close s = record s {
    global_seq = 0;
    tables = [];
    users = [];
    users_by_user_name = [];
    user_states = [];
    shared_state = empty_partition;
  }

  -- `this.getUserState(id)`, which makes the partition if there is none.
  unfoldable pub ensure_user_state : Text → MemoryStorage V → MemoryStorage V
  ensure_user_state id s = elim (Dict.get id s.user_states) [
    | none ↦ record s { user_states = Dict.put id empty_partition s.user_states }
    | some p ↦ s
  ]

  abbrev pub user_state : Text → MemoryStorage V → StatePartition V
  user_state id s = get_or (Dict.get id s.user_states) empty_partition

  -- `partition === '__shared__' ? this.sharedState : this.userStates.get(partition)`
  unfoldable pub find_partition : Text → MemoryStorage V → Option (StatePartition V)
  find_partition partition s =
      if same partition shared_key then some s.shared_state else Dict.get partition s.user_states

  abbrev pub table_records : Option (StatePartition V) → Text → Records V
  table_records none table = []
  table_records (some p) table = get_or (Dict.get table p.tables) []

  unfoldable pub get_raw_record :
      Text → Text → Text → MemoryStorage V → Option (InternalStoredRecord V)
  get_raw_record table partition id s =
      Dict.get id (table_records (find_partition partition s) table)

  unfoldable pub get_raw_records : Text → Text → MemoryStorage V → List (InternalStoredRecord V)
  get_raw_records table partition s = Dict.values (table_records (find_partition partition s) table)

  -- The first entry's number, if there is an entry.
  abbrev pub first_seq : List (InternalChangeRecord V) → ℕ → ℕ
  first_seq [] min_seq = min_seq
  first_seq (c ∷ cs) min_seq = c.seq
