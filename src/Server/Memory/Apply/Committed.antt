-- ===== src/Server/Memory/Apply/Committed.antt =====
-- What a commit makes of the staged copies of the tables.
use typescript_tetherdb.Base.{
  ℕ, ◌≡◌, ◌∙◌, ap, Text, text_key, some, [], arith, get_or, inl, inr, Option-cases, if◌then◌else◌,
  filter, same_self, ◌++◌,
}
use typescript_tetherdb.Base.Dict
use typescript_tetherdb.Base.Dict.{get-put, HasDistinctKeys}
use typescript_tetherdb.Server.Memory.{MemoryStorage, Records, StatePartition, user_state, own_id}
use typescript_tetherdb.Server.Memory.Apply.{
  Staging, target_map, home_partition, commit_tables, compact, logs_privately, first_min_seq,
  commit_partition, commit_own, commit_all_shared, commit,
}
use typescript_tetherdb.Server.Memory.Apply.Targets.{IsStaged, get-commit_tables}
use typescript_tetherdb.Server.Table.{Table, is_private}
use typescript_tetherdb.Server.User.{User}

module _ {V : Type 0} where
  -- The records of a table that the user's changes meet.
  unfoldable pub stored_records : User → Table V → Text → MemoryStorage V → Records V
  stored_records user table name s =
      if is_private table
      then get_or (Dict.get name (home_partition user s).tables) []
      else get_or (Dict.get name s.shared_state.tables) []

  compact_tables : (n : ℕ) (p : StatePartition V) → (compact n p).tables ≡ p.tables
  unfolding compact
  compact_tables n p = ground arith

  -- The home partition's tables after a commit.
  own_tables :
      (max_history : ℕ) (id name : Text) (s : MemoryStorage V) (g : Staging V)
      → HasDistinctKeys g.user_tables
      → get_or (Dict.get name (user_state id (commit_own max_history id g s)).tables) []
        ≡ get_or (Dict.get name g.user_tables) (get_or (Dict.get name (user_state id s).tables) [])
  unfolding commit_own commit_partition
  own_tables max_history id name s g d = ground (
    arith,
    get-put id id
        (commit_partition max_history g.seq g.user_tables
          (filter (logs_privately s.tables) g.applied) (user_state id s))
        s.user_states,
    same_self id,
    compact_tables max_history (record (user_state id s) {
      current_seq = g.seq;
      min_seq = first_min_seq g.seq (user_state id s).min_seq;
      tables = commit_tables g.user_tables (user_state id s).tables;
      changelog = (user_state id s).changelog ++ filter (logs_privately s.tables) g.applied;
    }),
    get-commit_tables name g.user_tables (user_state id s).tables d,
  )

  shared_tables_own :
      (max_history : ℕ) (id name : Text) (s : MemoryStorage V) (g : Staging V)
      → HasDistinctKeys g.shared_tables
      → get_or (Dict.get name (commit_own max_history id g s).shared_state.tables) []
        ≡ get_or (Dict.get name g.shared_tables) (get_or (Dict.get name s.shared_state.tables) [])
  unfolding commit_own commit_partition
  shared_tables_own max_history id name s g d =
      ap (λ x. get_or (Dict.get name x) []) (compact_tables max_history _)
      ∙ get-commit_tables name g.shared_tables s.shared_state.tables d

  shared_tables_all :
      (max_history : ℕ) (name : Text) (s : MemoryStorage V) (g : Staging V)
      → HasDistinctKeys g.user_tables
      → HasDistinctKeys g.shared_tables
      → get_or (Dict.get name (commit_all_shared max_history g s).shared_state.tables) []
        ≡ get_or
            (Dict.get name g.shared_tables)
            (get_or (Dict.get name g.user_tables) (get_or (Dict.get name s.shared_state.tables) []))
  unfolding commit_all_shared commit_partition
  shared_tables_all max_history name s g d d' =
      ap (λ x. get_or (Dict.get name x) []) (compact_tables max_history _)
      ∙ get-commit_tables name g.shared_tables (commit_tables g.user_tables s.shared_state.tables)
          d'
      ∙ ap (get_or (Dict.get name g.shared_tables))
          (get-commit_tables name g.user_tables s.shared_state.tables d)

  pub commit_records :
      (max_history : ℕ) (user : User) (s : MemoryStorage V) (g : Staging V) (table : Table V)
      (name : Text)
      → Dict.get name s.tables ≡ some table
      → IsStaged s.tables g
      → stored_records user table name (commit max_history user g s)
        ≡ target_map s user table name g
  unfolding stored_records commit target_map
  commit_records max_history user s g table name e v = elim (Option-cases (own_id user)) [
    | inl nobody_own ↦ ground (
      arith,
      shared_tables_all max_history name s g v.user_distinct v.shared_distinct,
      v.shared_public name table e,
      v.user_private name table e,
    )
    | inr (id, owned) ↦ ground (
      arith,
      own_tables max_history id name s g v.user_distinct,
      shared_tables_own max_history id name s g v.shared_distinct,
      v.shared_public name table e,
      v.user_private name table e,
    )
  ]
