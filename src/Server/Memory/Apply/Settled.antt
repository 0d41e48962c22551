-- ===== src/Server/Memory/Apply/Settled.antt =====
-- Conflict resolution of `applyChanges` as it shows in the stored records.
use typescript_tetherdb.Base.{
  ℕ, ◌≡◌, refl, sym, ◌∙◌, ap, subst, Text, text_key, Option, none, some, List, [], ◌∷◌, arith,
  get_or, inl, inr, Option-cases,
}
use typescript_tetherdb.Base.Dict
use typescript_tetherdb.Base.Dict.{get-put, HasDistinctKeys}
use typescript_tetherdb.Shared.Clock.{Stamp}
use typescript_tetherdb.Shared.Types.{ChangeRecord}
use typescript_tetherdb.Server.Errors.{Result, ok, throw, Result-cases}
use typescript_tetherdb.Server.Memory.{MemoryStorage}
use typescript_tetherdb.Server.Memory.Apply.{
  Staging, change_stamp, existing_stamp, target_map, stage_all, commit_own, commit_all_shared,
  commit, prepare, start_staging, conclude, stage_and_commit, validated, apply_changes,
}
use typescript_tetherdb.Server.Memory.Apply.Atomic.{prepare-IsUntouched}
use typescript_tetherdb.Server.Memory.Apply.LastWriteWins.{
  NotOlder, staged_stamp, Settles, IsSettled, AreSettled, stage_all-Settles, NotOlder-refl,
}
use typescript_tetherdb.Server.Memory.Apply.Targets.{IsStaged}
use typescript_tetherdb.Server.Security.{InternalChangeRecord}
use typescript_tetherdb.Server.Table.{Table}
use typescript_tetherdb.Server.User.{User, anonymous, admin, account}
use typescript_tetherdb.Server.Memory.Apply.Committed.{stored_records, commit_records}

module _ {V : Type 0} where
  -- The write stored for a record, where its table exists.
  unfoldable pub stored_stamp : User → Text → Text → MemoryStorage V → Option Stamp
  unfolding stored_records
  stored_stamp user name id s = elim (Dict.get name s.tables) [
    | none ↦ none
    | some table ↦ existing_stamp (Dict.get id (stored_records user table name s))
  ]

  -- The change does not beat what is stored for its record, where its table exists.
  abbrev pub IsOutdone : User → MemoryStorage V → ChangeRecord V → Type 0
  IsOutdone user s c = elim (Dict.get c.table s.tables) [
    | none ↦ Unit
    | some table ↦ NotOlder (some (change_stamp c)) (stored_stamp user c.table c.id s)
  ]

  abbrev pub AreOutdone : User → MemoryStorage V → List (ChangeRecord V) → Type 0
  AreOutdone user s [] = Unit
  AreOutdone user s (c ∷ cs) = IsOutdone user s c × AreOutdone user s cs

  prepare_records :
      (user : User) (table : Table V) (name : Text) (s : MemoryStorage V)
      → stored_records user table name (prepare user s) ≡ stored_records user table name s
  unfolding stored_records
  prepare_records anonymous table name s = refl
  prepare_records admin table name s = refl
  prepare_records (account [] user_name created_at) table name s = refl
  prepare_records (account (c ∷ id) user_name created_at) table name s =
      let u = prepare-IsUntouched (account (c ∷ id) user_name created_at) s in
      ground (arith, u.user_states (c ∷ id), u.shared_state)

  commit_keeps_tables :
      (max_history : ℕ) (user : User) (g : Staging V) (s : MemoryStorage V)
      → (commit max_history user g s).tables ≡ s.tables
  unfolding commit commit_own commit_all_shared
  commit_keeps_tables max_history user g s = ground arith

  stored_stamp_table :
      (user : User) (table : Table V) (name id : Text) (s : MemoryStorage V)
      → Dict.get name s.tables ≡ some table
      → stored_stamp user name id s
        ≡ existing_stamp (Dict.get id (stored_records user table name s))
  unfolding stored_stamp
  stored_stamp_table user table name id s e = ground arith

  stored_stamp-none :
      (user : User) (name id : Text) (s : MemoryStorage V)
      → Dict.get name s.tables ≡ none
      → stored_stamp user name id s ≡ none
  unfolding stored_stamp
  stored_stamp-none user name id s e = ground arith

  module _ (null : V) (user : User) (s t : MemoryStorage V) (g : Staging V) (max_history : ℕ)
      (prepared : t ≡ prepare user s) where
    abbrev committed : MemoryStorage V
    committed = commit max_history user g (record t { global_seq = g.seq })

    same_tables : t.tables ≡ s.tables
    same_tables = ap (λ x. x.tables) prepared ∙ (prepare-IsUntouched user s).tables

    kept_tables : committed.tables ≡ s.tables
    kept_tables =
        commit_keeps_tables max_history user g (record t { global_seq = g.seq }) ∙ same_tables

    here :
        (table : Table V) (name : Text)
        → Dict.get name s.tables ≡ some table
        → Dict.get name t.tables ≡ some table
    here table name e = ap (Dict.get name) same_tables ∙ e

    kept :
        (found : Option (Table V)) (name : Text)
        → Dict.get name s.tables ≡ found
        → Dict.get name committed.tables ≡ found
    kept found name e = ap (Dict.get name) kept_tables ∙ e

    stamp_before :
        (table : Table V) (name id : Text)
        → Dict.get name s.tables ≡ some table
        → stored_stamp user name id s ≡ staged_stamp null t user table name id (start_staging t)
    unfolding stored_records target_map Dict.get
    stamp_before table name id e =
        stored_stamp_table user table name id s e
        ∙ ap (λ x. existing_stamp (Dict.get id x))
            (sym (prepare_records user table name s)
              ∙ ap (stored_records user table name) (sym prepared))

    stamp_committed :
        (table : Table V) (name id : Text)
        → Dict.get name s.tables ≡ some table
        → IsStaged t.tables g
        → stored_stamp user name id committed ≡ staged_stamp null t user table name id g
    unfolding target_map
    stamp_committed table name id e v =
        stored_stamp_table user table name id committed (kept (some table) name e)
        ∙ ap (λ x. existing_stamp (Dict.get id x))
            (commit_records max_history user (record t { global_seq = g.seq }) g table name
              (here table name e) v)

    never_older :
        (name id : Text)
        → IsStaged t.tables g
        → Settles null t user (start_staging t) g
        → NotOlder (stored_stamp user name id s) (stored_stamp user name id committed)
    never_older name id v settles = elim (Option-cases (Dict.get name s.tables)) [
      | inl missing ↦ rw (stored_stamp-none user name id s missing) tt
      | inr (table, there) ↦
          rw (stamp_before table name id there, stamp_committed table name id there v)
            (settles.not_older table name id (here table name there))
    ]

    outdone :
        (c : ChangeRecord V)
        → IsStaged t.tables g
        → IsSettled null t user g c
        → IsOutdone user committed c
    outdone c v settled = elim (Option-cases (Dict.get c.table s.tables)) [
      | inl missing ↦ rw (IsOutdone, kept none c.table missing) tt
      | inr (table, there) ↦
          rw
            (IsOutdone, kept (some table) c.table there, stamp_committed table c.table c.id there v)
            (settled table (here table c.table there))
    ]

    all_outdone :
        (changes : List (ChangeRecord V))
        → IsStaged t.tables g
        → AreSettled null t user g changes
        → AreOutdone user committed changes
    all_outdone [] v settled = tt
    all_outdone (c ∷ cs) v settled = (outdone c v settled.0, all_outdone cs v settled.1)

  -- Every write stored for a record before is not older than what is stored after, and no change
  -- of the batch beats what is stored after.
  pub record IsSettledBy (user : User) (changes : List (ChangeRecord V)) (s s' : MemoryStorage V)
      : Type 0 where
    pub never_older :
        (name id : Text) → NotOlder (stored_stamp user name id s) (stored_stamp user name id s')
    pub outdone : AreOutdone user s' changes

  IsStaged-start :
      (tables : Dict.Dict Text (Table V)) (s : MemoryStorage V) → IsStaged tables (start_staging s)
  unfolding Dict.get
  IsStaged-start tables s = record {
    user_distinct = tt;
    shared_distinct = tt;
    user_private = λ name table e p. refl;
    shared_public = λ name table e p. refl;
  }

  conclude_ok :
      (user : User) (s s' : MemoryStorage V) (g : Staging V) (r : Result (Unit {0}))
      (entries : List (InternalChangeRecord V))
      → conclude user s g r ≡ (s', ok entries)
      → (r ≡ ok tt)
        × (commit
              (get_or s.options.max_history_entries 1000)
              user
              g
              (record s { global_seq = g.seq })
            ≡ s')
  unfolding conclude
  conclude_ok user s s' g (ok u) entries h = (refl, ap (λ x. x.0) h)
  conclude_ok user s s' g (throw e) entries h = ground arith

  stage_and_commit_settled :
      (null : V) (user : User) (changes : List (ChangeRecord V)) (s s' : MemoryStorage V)
      (entries : List (InternalChangeRecord V))
      → stage_and_commit null user changes s ≡ (s', ok entries)
      → IsSettledBy user changes s s'
  unfolding stage_and_commit
  stage_and_commit_settled null user changes s s' entries h =
      let t = prepare user s in
      let max_records = get_or s.options.max_records 10000 in
      let out = stage_all null t user max_records changes (start_staging t) in
      let (success, done) = conclude_ok user t s' out.0 out.1 entries h in
      let (settles, settled) =
        stage_all-Settles null t user max_records changes (start_staging t) out.0
          (ap (λ r. (out.0, r)) success) in
      let staged = settles.staged (IsStaged-start t.tables t) in
      let max_history = get_or t.options.max_history_entries 1000 in
      subst (IsSettledBy user changes s) done (record {
        never_older =
            λ name id. never_older null user s t out.0 max_history refl name id staged settles;
        outdone = all_outdone null user s t out.0 max_history refl changes staged settled;
      })

  -- After a batch that succeeds, what is stored for any record, as the batch's user sees it, is not
  -- older than what was stored before, and no change of the batch, in whichever order they came,
  -- beats what is stored for its record, where its table exists.
  pub apply_changes_last_write_wins :
      (null : V) (byte_size : Option V → ℕ) (now : ℕ) (user : User)
      (changes : List (ChangeRecord V)) (s s' : MemoryStorage V)
      (entries : List (InternalChangeRecord V))
      → apply_changes null byte_size now user changes s ≡ (s', ok entries)
      → IsSettledBy user changes s s'
  unfolding apply_changes
  apply_changes_last_write_wins null byte_size now user [] s s' entries h =
      let same_state : s ≡ s' = ap (λ x. x.0) h in
      subst (IsSettledBy user [] s) same_state (record {
        never_older = λ name id. NotOlder-refl (stored_stamp user name id s);
        outdone = tt;
      })
  apply_changes_last_write_wins null byte_size now user (c ∷ cs) s s' entries h =
      elim (Result-cases (validated byte_size now s (c ∷ cs))) [
        | inl (u, passed) ↦
            stage_and_commit_settled null user (c ∷ cs) s s' entries
              (rw (passed, apply_changes) at h)
        | inr (e, failed) ↦ absurd (ground arith)
      ]
