-- ===== src/Server/Memory/Apply/Atomic.antt =====
-- A batch that throws leaves nothing behind but the numbers that it took.
use typescript_tetherdb.Base.{
  ℕ, ◌≤◌, ◌≡◌, refl, Text, text_key, Option, List, [], ◌∷◌, arith, inl, inr, Option-cases, get_or,
  subst, ap,
}
use typescript_tetherdb.Base.Dict
use typescript_tetherdb.Base.Dict.{get-put}
use typescript_tetherdb.Server.Errors.{Result, ok, throw, ErrorCode, Result-cases}
use typescript_tetherdb.Server.Memory.{
  MemoryStorage, ensure_user_state, user_state, empty_partition, find_partition, table_records,
  get_raw_record,
}
use typescript_tetherdb.Server.Memory.Apply.{
  Staging, prepare, start_staging, conclude, validated, stage_all, stage_and_commit, apply_changes,
}
use typescript_tetherdb.Server.Memory.Apply.Counting.{stage_all-Advances}
use typescript_tetherdb.Server.Memory.Apply.Log.{Ascending-le}
use typescript_tetherdb.Server.User.{User, anonymous, admin, account}
use typescript_tetherdb.Shared.Types.{ChangeRecord}

-- Nothing that a reader can see differs, but for the sequence counter, which may have grown.
pub record IsUntouched {V : Type 0} (s s' : MemoryStorage V) : Type 0 where
  pub options : s'.options ≡ s.options
  pub tables : s'.tables ≡ s.tables
  pub users : s'.users ≡ s.users
  pub users_by_user_name : s'.users_by_user_name ≡ s.users_by_user_name
  pub shared_state : s'.shared_state ≡ s.shared_state
  pub user_states : (id : Text) → user_state id s' ≡ user_state id s
  pub global_seq : s.global_seq ≤ s'.global_seq

module _ {V : Type 0} where
  pub ensure_user_state-IsUntouched :
      (id : Text) (s : MemoryStorage V) → IsUntouched s (ensure_user_state id s)
  unfolding ensure_user_state
  ensure_user_state-IsUntouched id s = elim (Option-cases (Dict.get id s.user_states)) [
    | inl missing ↦ record {
      options = ground arith;
      tables = ground arith;
      users = ground arith;
      users_by_user_name = ground arith;
      shared_state = ground arith;
      user_states = λ j. ground (arith, get-put id j empty_partition s.user_states);
      global_seq = ground arith;
    }
    | inr (p, there) ↦ record {
      options = ground arith;
      tables = ground arith;
      users = ground arith;
      users_by_user_name = ground arith;
      shared_state = ground arith;
      user_states = λ j. ground arith;
      global_seq = ground arith;
    }
  ]

  pub IsUntouched-refl : (s : MemoryStorage V) → IsUntouched s s
  IsUntouched-refl s = record {
    options = refl;
    tables = refl;
    users = refl;
    users_by_user_name = refl;
    shared_state = refl;
    user_states = λ id. refl;
    global_seq = omega arith;
  }

  pub prepare-IsUntouched : (user : User) (s : MemoryStorage V) → IsUntouched s (prepare user s)
  prepare-IsUntouched anonymous s = IsUntouched-refl s
  prepare-IsUntouched admin s = IsUntouched-refl s
  prepare-IsUntouched (account [] name created_at) s = IsUntouched-refl s
  prepare-IsUntouched (account (c ∷ id) name created_at) s =
      ensure_user_state-IsUntouched (c ∷ id) s

  records_of_user :
      (id table : Text) (s : MemoryStorage V)
      → table_records (Dict.get id s.user_states) table
        ≡ get_or (Dict.get table (user_state id s).tables) []
  unfolding Dict.get
  records_of_user id table s = ground arith

  records_untouched :
      (s s' : MemoryStorage V) (partition table : Text)
      → IsUntouched s s'
      → table_records (find_partition partition s') table
        ≡ table_records (find_partition partition s) table
  unfolding find_partition
  records_untouched s s' partition table u = ground (
    arith,
    records_of_user partition table s,
    records_of_user partition table s',
    u.user_states partition,
    u.shared_state,
  )

  conclude_throw :
      (user : User) (s s' : MemoryStorage V) (g : Staging V) (r : Result (Unit {0})) (e : ErrorCode)
      → conclude user s g r ≡ (s', throw e)
      → record s { global_seq = g.seq } ≡ s'
  unfolding conclude
  conclude_throw user s s' g (ok u) e h = ground arith
  conclude_throw user s s' g (throw f) e h = cc

  pub counted-IsUntouched :
      (s t : MemoryStorage V) (n : ℕ)
      → IsUntouched s t
      → t.global_seq ≤ n
      → IsUntouched s (record t { global_seq = n })
  counted-IsUntouched s t n u h = record {
    options = u.options;
    tables = u.tables;
    users = u.users;
    users_by_user_name = u.users_by_user_name;
    shared_state = u.shared_state;
    user_states = u.user_states;
    global_seq = omega (arith, u.global_seq);
  }

  stage_and_commit_throw :
      (null : V) (user : User) (changes : List (ChangeRecord V)) (s s' : MemoryStorage V)
      (e : ErrorCode)
      → stage_and_commit null user changes s ≡ (s', throw e)
      → IsUntouched s s'
  unfolding stage_and_commit
  stage_and_commit_throw null user changes s s' e h =
      let t = prepare user s in
      let max_records = get_or s.options.max_records 10000 in
      let out = stage_all null t user max_records changes (start_staging t) in
      let a = stage_all-Advances null t user max_records changes (start_staging t) in
      subst (IsUntouched s) (conclude_throw user t s' out.0 out.1 e h) (
        counted-IsUntouched s t out.0.seq (prepare-IsUntouched user s)
          (Ascending-le t.global_seq out.0.seq a.added a.ascending))

  module _ (null : V) (byte_size : Option V → ℕ) (now : ℕ) where
    apply_changes_throw :
        (user : User) (changes : List (ChangeRecord V)) (s s' : MemoryStorage V) (e : ErrorCode)
        → apply_changes null byte_size now user changes s ≡ (s', throw e)
        → IsUntouched s s'
    unfolding apply_changes
    apply_changes_throw user [] s s' e h = ground arith
    apply_changes_throw user (c ∷ cs) s s' e h =
        elim (Result-cases (validated byte_size now s (c ∷ cs))) [
          | inl (u, passed) ↦
              stage_and_commit_throw null user (c ∷ cs) s s' e (rw (passed, apply_changes) at h)
          | inr (f, failed) ↦
              let same_state : s ≡ s' = ground arith in
              subst (IsUntouched s) same_state (IsUntouched-refl s)
        ]

    -- A batch that is refused, before or while it is staged, leaves the tables, the accounts and
    -- every partition as they were, so that each record reads as before. Only the sequence counter
    -- may have grown.
    pub apply_changes_atomic :
        (user : User) (changes : List (ChangeRecord V)) (s s' : MemoryStorage V) (e : ErrorCode)
        → apply_changes null byte_size now user changes s ≡ (s', throw e)
        → IsUntouched s s'
          × ((table partition id : Text)
              → get_raw_record table partition id s' ≡ get_raw_record table partition id s)
    unfolding get_raw_record
    apply_changes_atomic user changes s s' e h =
        let u = apply_changes_throw user changes s s' e h in
        (u, λ table partition id. ap (Dict.get id) (records_untouched s s' partition table u))
