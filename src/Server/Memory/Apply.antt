-- ===== src/Server/Memory/Apply.antt =====
-- `applyChanges` of the in-memory engine. Changes are staged on copies of the tables, and the copies
-- replace the tables if no change throws; only the sequence counter is written while staging. Staging
-- and commit run without a wait. The validation before them awaits the look-up of each table, and is
-- taken as one step with them.
pub mod Log
pub mod Counting
pub mod Atomic
pub mod Isolation
pub mod Targets
pub mod LastWriteWins
pub mod Committed
pub mod Settled
use typescript_tetherdb.Base.{
  ℕ, ◌+◌, ◌-◌, ◌*◌, ◌≡◌, Text, text_key, Bool, true, false, not, ◌&&◌, ◌||◌, Option, none, some,
  List, [], ◌∷◌, ◌++◌, leb, ltb, ◌==◌, length, drop, get_or, filter, is_some, if◌then◌else◌,
}
use typescript_tetherdb.Base.Dict
use typescript_tetherdb.Base.Dict.{Dict}
use typescript_tetherdb.Shared.Clock.{Stamp, should_overwrite}
use typescript_tetherdb.Shared.Types.{OperationType, put, delete, ChangeRecord}
use typescript_tetherdb.Server.Errors.{
  Result, ok, throw, ErrorCode, forbidden, limit_exceeded, ◌>>=◌, ◌>>◌, require,
}
use typescript_tetherdb.Server.Memory.{
  MemoryStorage, StatePartition, Records, own_id, ensure_user_state, user_state, empty_partition,
  first_seq,
}
use typescript_tetherdb.Server.Security.{InternalStoredRecord, InternalChangeRecord}
use typescript_tetherdb.Server.Storage.{is_delete, create_applied_records, validate_batch_changes}
use typescript_tetherdb.Server.Table.{Table, is_private, is_absent, assert_can_apply_change}
use typescript_tetherdb.Server.User.{User, is_anonymous}
use typescript_tetherdb.Server.Validate.{validate_table_name, validate_record_id}

-- What staging has gathered so far, and the counter.
pub record Staging (V : Type 0) : Type 0 where
  pub seq : ℕ
  pub user_tables : Dict Text (Records V)
  pub shared_tables : Dict Text (Records V)
  pub applied : List (InternalChangeRecord V)

-- `if (p.minSeq === 0 && seq > 0) p.minSeq = 1`
abbrev pub first_min_seq : ℕ → ℕ → ℕ
first_min_seq seq min_seq = if min_seq == 0 && ltb 0 seq then 1 else min_seq

module _ {V : Type 0} where
  abbrev pub change_stamp : ChangeRecord V → Stamp
  change_stamp c = record { timestamp = c.timestamp; client_id = c.client_id }

  abbrev pub record_stamp : InternalStoredRecord V → Stamp
  record_stamp r = record { timestamp = r.timestamp; client_id = r.client_id }

  abbrev pub existing_stamp : Option (InternalStoredRecord V) → Option Stamp
  existing_stamp none = none
  existing_stamp (some r) = some (record_stamp r)

  -- The partition that private tables are staged from: the user's own if there is one.
  abbrev pub home_partition : User → MemoryStorage V → StatePartition V
  home_partition user s = elim (own_id user) [ none ↦ s.shared_state | some id ↦ user_state id s ]

  -- The copy of the table's records that changes are staged on.
  unfoldable pub target_map : MemoryStorage V → User → Table V → Text → Staging V → Records V
  target_map s user table name g =
      if is_private table
      then get_or (Dict.get name g.user_tables)
          (get_or (Dict.get name (home_partition user s).tables) [])
      else get_or (Dict.get name g.shared_tables) (get_or (Dict.get name s.shared_state.tables) [])

  unfoldable pub put_target : Table V → Text → Records V → Staging V → Staging V
  put_target table name records g =
      if is_private table
      then record g { user_tables = Dict.put name records g.user_tables }
      else record g { shared_tables = Dict.put name records g.shared_tables }

  -- A guest may not write to a private table.
  unfoldable pub may_enter : User → Table V → Bool
  may_enter user table = not (is_private table && is_anonymous user)

  -- The test on the number of records: a put of a record that is not there needs room.
  unfoldable pub has_room :
      ℕ → Table V → ChangeRecord V → Records V → Option (InternalStoredRecord V) → Bool
  has_room default_max_records table change target existing = not (
      not (is_delete change.op)
      && is_absent existing
      && leb (get_or table.settings.max_records default_max_records) (length target))

  module _ (null : V) (s : MemoryStorage V) (user : User) where
    -- A change that passed its tests, against the record that it meets.
    unfoldable pub stage_write :
        Table V
        → Text
        → Text
        → ChangeRecord V
        → Records V
        → Option (InternalStoredRecord V)
        → Staging V
        → Staging V
    stage_write table name id change target existing g =
        if should_overwrite (change_stamp change) (existing_stamp existing)
        then (let (updated, applied) =
              create_applied_records null change existing user (g.seq + 1) in
            put_target table name (Dict.put id updated target)
              (record g { seq = g.seq + 1; applied = g.applied ++ applied ∷ [] }))
        else put_target table name target g

    unfoldable pub stage_in_table :
        ℕ → Table V → Text → Text → ChangeRecord V → Staging V → Result (Staging V)
    unfolding may_enter has_room
    stage_in_table default_max_records table name id change g = do
      require (may_enter user table) forbidden
      let target = target_map s user table name g
      let existing = Dict.get id target
      assert_can_apply_change table user change.op existing
      require (has_room default_max_records table change target existing) limit_exceeded
      ok (stage_write table name id change target existing g)

    -- `if (!table) continue`
    unfoldable pub stage_found :
        ℕ → Option (Table V) → Text → Text → ChangeRecord V → Staging V → Result (Staging V)
    stage_found default_max_records none name id change g = ok g
    stage_found default_max_records (some table) name id change g =
        stage_in_table default_max_records table name id change g

    unfoldable pub stage_change : ℕ → ChangeRecord V → Staging V → Result (Staging V)
    unfolding stage_found
    stage_change default_max_records change g = do
      name ← validate_table_name change.table
      id ← validate_record_id change.id
      stage_found default_max_records (Dict.get name s.tables) name id change g

    -- The staging when the loop ends, by itself or by a throw.
    unfoldable pub stage_all : ℕ → List (ChangeRecord V) → Staging V → Staging V × Result (Unit {0})
    stage_all default_max_records [] g = (g, ok tt)
    stage_all default_max_records (change ∷ changes) g =
        elim (stage_change default_max_records change g) [
          | ok g' ↦ stage_all default_max_records changes g'
          | throw e ↦ (g, throw e)
        ]

  -- `for (const [name, map] of staged) tables.set(name, map)`
  unfoldable pub commit_tables :
      Dict Text (Records V) → Dict Text (Records V) → Dict Text (Records V)
  commit_tables [] tables = tables
  commit_tables ((name, records) ∷ staged) tables =
      commit_tables staged (Dict.put name records tables)

  -- A changelog longer than the limit and 50 more is cut to the limit, from the front.
  unfoldable pub compact : ℕ → StatePartition V → StatePartition V
  compact max_history p =
      if ltb (max_history + 50) (length p.changelog)
      then (let kept = drop (length p.changelog - max_history) p.changelog in
          record p { changelog = kept; min_seq = first_seq kept p.min_seq })
      else p

  -- Whether an entry goes to the user's own changelog.
  abbrev pub logs_privately : Dict Text (Table V) → InternalChangeRecord V → Bool
  logs_privately tables c = elim (Dict.get c.table tables) [ none ↦ false | some t ↦ is_private t ]

  abbrev pub names_table : Dict Text (Table V) → InternalChangeRecord V → Bool
  names_table tables c = is_some (Dict.get c.table tables)

  unfoldable pub commit_partition :
      ℕ
      → ℕ
      → Dict Text (Records V)
      → List (InternalChangeRecord V)
      → StatePartition V
      → StatePartition V
  commit_partition max_history seq staged entries p = compact max_history (record p {
    current_seq = seq;
    min_seq = first_min_seq seq p.min_seq;
    tables = commit_tables staged p.tables;
    changelog = p.changelog ++ entries;
  })

  -- The commit and the compaction where the user has a partition.
  unfoldable pub commit_own : ℕ → Text → Staging V → MemoryStorage V → MemoryStorage V
  unfolding commit_partition
  commit_own max_history id g s = record s {
    user_states =
        Dict.put id
          (commit_partition max_history g.seq g.user_tables
            (filter (logs_privately s.tables) g.applied) (user_state id s))
          s.user_states;
    shared_state =
        commit_partition max_history g.seq g.shared_tables
          (filter (λ c. names_table s.tables c && not (logs_privately s.tables c)) g.applied)
          s.shared_state;
  }

  -- The commit and the compaction where the user has none: private tables go to the shared
  -- partition too.
  unfoldable pub commit_all_shared : ℕ → Staging V → MemoryStorage V → MemoryStorage V
  unfolding commit_partition
  commit_all_shared max_history g s = record s {
    shared_state =
        commit_partition max_history g.seq g.shared_tables (filter (names_table s.tables) g.applied)
          (record s.shared_state { tables = commit_tables g.user_tables s.shared_state.tables });
  }

  unfoldable pub commit : ℕ → User → Staging V → MemoryStorage V → MemoryStorage V
  unfolding commit_own commit_all_shared
  commit max_history user g s = elim (own_id user) [
    | none ↦ commit_all_shared max_history g s
    | some id ↦ commit_own max_history id g s
  ]

  abbrev pub prepare : User → MemoryStorage V → MemoryStorage V
  prepare user s = elim (own_id user) [ none ↦ s | some id ↦ ensure_user_state id s ]

  abbrev pub start_staging : MemoryStorage V → Staging V
  start_staging s = record {
    seq = s.global_seq;
    user_tables = [];
    shared_tables = [];
    applied = [];
  }

  -- What follows the staging, by its outcome. The counter keeps what staging took.
  unfoldable pub conclude :
      User
      → MemoryStorage V
      → Staging V
      → Result (Unit {0})
      → MemoryStorage V × Result (List (InternalChangeRecord V))
  conclude user s g (throw e) = (record s { global_seq = g.seq }, throw e)
  conclude user s g (ok u) = (
    commit (get_or s.options.max_history_entries 1000) user g (record s { global_seq = g.seq }),
    ok g.applied,
  )

  -- Phases 2 to 4: the state, and the entries that were applied.
  unfoldable pub stage_and_commit :
      V
      → User
      → List (ChangeRecord V)
      → MemoryStorage V
      → MemoryStorage V × Result (List (InternalChangeRecord V))
  stage_and_commit null user changes s =
      let s' = prepare user s in
      let (g, outcome) =
        stage_all null s' user (get_or s.options.max_records 10000) changes (start_staging s') in
      conclude user s' g outcome

  -- Phase 1.
  abbrev pub validated :
      (Option V → ℕ) → ℕ → MemoryStorage V → List (ChangeRecord V) → Result (Unit {0})
  validated byte_size now s changes =
      validate_batch_changes byte_size (λ name. Dict.get name s.tables) now s.options changes
        (get_or s.options.max_record_size_bytes (1024 * 1024))

  module _ (null : V) (byte_size : Option V → ℕ) (now : ℕ) where
    -- The whole, up to the entries' publication. No changes are no operation.
    unfoldable pub apply_changes :
        User
        → List (ChangeRecord V)
        → MemoryStorage V
        → MemoryStorage V × Result (List (InternalChangeRecord V))
    apply_changes user [] s = (s, ok [])
    apply_changes user (c ∷ cs) s = elim (validated byte_size now s (c ∷ cs)) [
      | throw e ↦ (s, throw e)
      | ok u ↦ stage_and_commit null user (c ∷ cs) s
    ]
