-- ===== src/Server/Memory/History/Burial.antt =====
-- What deleting an account does to the changelogs.
use typescript_tetherdb.Base.{
  ℕ, ◌≤◌, ◌≡◌, refl, sym, subst, Text, text_key, same, same_self, true, List, [], ◌++◌, arith,
  get_or, inl, inr, Bool-cases, Option-cases, if◌then◌else◌,
}
use typescript_tetherdb.Base.Dict
use typescript_tetherdb.Base.Dict.{Dict, get-delete}
use typescript_tetherdb.Server.Errors.{ok}
use typescript_tetherdb.Server.Memory.{
  MemoryStorage, MemoryUserData, StatePartition, user_state, empty_partition,
}
use typescript_tetherdb.Server.Memory.Apply.Log.{
  Ascending, Ascending-le, Ascending-append, Ascending-mono,
}
use typescript_tetherdb.Server.Memory.History.CatchUp.{Histories, IsRecorded}
use typescript_tetherdb.Server.Memory.History.Retention.{Retains, Retains-append}
use typescript_tetherdb.Server.Memory.Users.{Burial, bury_tables, remove_user, delete_user}
use typescript_tetherdb.Server.Security.{InternalChangeRecord, InternalStoredRecord}
use typescript_tetherdb.Server.Validate.{validate_user_id, validate_filesystem_safe}
use typescript_tetherdb.Server.Memory.History.Buried.{
  deletions, owned_records, buried, Buries, deletions-Ascending, bury_tables-Buries,
  bury_tables-buried,
}

module _ {V : Type 0} where
  -- The shared history goes on with the entries, and the account's own history is over.
  abbrev pub bury_history : Text → List (InternalChangeRecord V) → Histories V → Histories V
  bury_history id entries h = record {
    shared = h.shared ++ entries;
    user = λ j. if same id j then [] else h.user j;
  }

  state_without :
      (id j : Text) (states : Dict Text (StatePartition V))
      → get_or (Dict.get j (Dict.delete id states)) empty_partition
        ≡ (if same id j then empty_partition else get_or (Dict.get j states) empty_partition)
  state_without id j states = ground (arith, get-delete id j states)

  module _ (null : V) (id : Text) (now : ℕ) (d : MemoryUserData) (h : Histories V)
      (s : MemoryStorage V) where
    abbrev start : Burial V
    start = record { seq = s.global_seq; log = s.shared_state.changelog }

    abbrev owned : List (Text × Text × InternalStoredRecord V)
    owned = owned_records id s.shared_state.tables

    burial : Buries id now owned start (bury_tables null id now s.shared_state.tables start).1
    burial = bury_tables-Buries null id now s.shared_state.tables start

    own_retained :
        (j : Text)
        → IsRecorded h s
        → Retains (if same id j then [] else h.user j) (user_state j (remove_user null id now d s))
    unfolding remove_user
    own_retained j r = elim (Bool-cases (same id j)) [
      | inl gone ↦
          rw (state_without id j s.user_states, gone)
            (record { dropped = []; split = refl; announced = tt })
      | inr other ↦ rw (state_without id j s.user_states, other) (r.user_retained j)
    ]

    own-Ascending :
        (j : Text)
        → IsRecorded h s
        → s.global_seq ≤ (remove_user null id now d s).global_seq
        → Ascending 0 (remove_user null id now d s).global_seq (if same id j then [] else h.user j)
    own-Ascending j r le = elim (Bool-cases (same id j)) [
      | inl gone ↦ rw gone (omega arith)
      | inr other ↦
          rw other
            (Ascending-mono 0 0 s.global_seq _ (h.user j) (omega arith) le (r.user_ascending j))
    ]

    remove_user-IsRecorded :
        IsRecorded h s
        → IsRecorded
            (bury_history id (deletions id now s.global_seq owned) h)
            (remove_user null id now d s)
    unfolding remove_user
    remove_user-IsRecorded r =
        let added = deletions id now s.global_seq owned in
        let ascending : Ascending s.global_seq (remove_user null id now d s).global_seq added =
          subst (λ n. Ascending s.global_seq n added) (sym burial.seq)
            (deletions-Ascending id now s.global_seq owned) in
        let grown = Ascending-le s.global_seq _ added ascending in
        record {
          shared_ascending =
              Ascending-append 0 s.global_seq _ h.shared added r.shared_ascending ascending;
          shared_retained =
              Retains-append h.shared added s.shared_state _ r.shared_retained burial.log
                (omega arith);
          user_ascending = λ j. own-Ascending j r grown;
          user_retained = λ j. own_retained j r;
        }

  -- What a state is once an account is deleted.
  abbrev pub IsDeleted : V → Text → ℕ → Histories V → MemoryStorage V → MemoryStorage V → Type 0
  IsDeleted null id now h s s' =
      IsRecorded
        (bury_history id (deletions id now s.global_seq (owned_records id s.shared_state.tables)) h)
        s'
      × (s'.shared_state.tables
          ≡ Dict.map_values (Dict.map_values (buried null id now)) s.shared_state.tables)
      × (user_state id s' ≡ empty_partition)

  remove_user-IsDeleted :
      (null : V) (id : Text) (now : ℕ) (d : MemoryUserData) (h : Histories V) (s : MemoryStorage V)
      → IsRecorded h s
      → IsDeleted null id now h s (remove_user null id now d s)
  unfolding remove_user
  remove_user-IsDeleted null id now d h s r = (
    remove_user-IsRecorded null id now d h s r,
    bury_tables-buried null id now s.shared_state.tables (start null id now d h s),
    ground (arith, state_without id id s.user_states, same_self id),
  )

  -- Deleting an account that exists marks exactly its live records of the shared tables as deleted, each
  -- one version on and without its payload. Their deletions, in the tables' order and under the numbers
  -- that follow the last one given, go on the shared history, the account's own history is over, and the
  -- changelogs remain what is left of the histories. Its partition is gone.
  pub delete_user-IsRecorded :
      (null : V) (now : ℕ) (id : Text) (h : Histories V) (s s' : MemoryStorage V)
      → delete_user null now id s ≡ ok (true, s')
      → IsRecorded h s
      → IsDeleted null id now h s s'
  unfolding delete_user validate_user_id validate_filesystem_safe
  delete_user-IsRecorded null now id h s s' e r = elim (Option-cases (Dict.get id s.users)) [
    | inl missing ↦ absurd (ground arith)
    | inr (d, there) ↦
        let done : remove_user null id now d s ≡ s' = ground arith in
        subst (IsDeleted null id now h s) done (remove_user-IsDeleted null id now d h s r)
  ]
