-- ===== src/Server/Memory/Apply/Isolation.antt =====
-- Which partitions a batch touches.
use typescript_tetherdb.Base.{
  ℕ, ◌≡◌, ◌≢◌, refl, ap, ◌∙◌, Text, text_key, same, eq_of_same, Option, some, List, [], ◌∷◌, arith,
  filter, get_or, inl, inr, Bool-cases, Option-cases, if◌then◌else◌,
}
use typescript_tetherdb.Base.Dict
use typescript_tetherdb.Base.Dict.{get-put}
use typescript_tetherdb.Shared.Types.{ChangeRecord}
use typescript_tetherdb.Server.Errors.{Result, ok, throw, Result-cases}
use typescript_tetherdb.Server.User.{User}
use typescript_tetherdb.Server.Memory.{MemoryStorage, StatePartition, user_state, own_id}
use typescript_tetherdb.Server.Memory.Apply.{
  Staging, commit_partition, commit_own, commit_all_shared, commit, conclude, logs_privately,
  prepare, stage_and_commit, validated, apply_changes,
}
use typescript_tetherdb.Server.Memory.Apply.Atomic.{prepare-IsUntouched}

module _ {V : Type 0} where
  user_state-put :
      (id j : Text) (p : StatePartition V) (s : MemoryStorage V)
      → user_state j (record s { user_states = Dict.put id p s.user_states })
        ≡ (if same id j then p else user_state j s)
  user_state-put id j p s = ground (arith, get-put id j p s.user_states)

  -- The commit of a user's batch writes to the partition of that user alone.
  pub user_state-commit_own :
      (max_history : ℕ) (id j : Text) (g : Staging V) (s : MemoryStorage V)
      → user_state j (commit_own max_history id g s) ≡ (
          if same id j
          then commit_partition max_history g.seq g.user_tables
              (filter (logs_privately s.tables) g.applied)
              (user_state id s)
          else user_state j s)
  unfolding commit_own
  user_state-commit_own max_history id j g s = user_state-put id j _ s

  module _ (user : User) (j : Text) (foreign : own_id user ≢ some j) where
    commit_isolated :
        (max_history : ℕ) (g : Staging V) (s : MemoryStorage V)
        → user_state j (commit max_history user g s) ≡ user_state j s
    unfolding commit commit_all_shared
    commit_isolated max_history g s = elim (Option-cases (own_id user)) [
      | inl nobody_own ↦ rw (commit, nobody_own) refl
      | inr (id, owned) ↦ elim (Bool-cases (same id j)) [
        | inl hit ↦ absurd (foreign (owned ∙ ap some (eq_of_same id j hit)))
        | inr miss ↦ ground (arith, user_state-commit_own max_history id j g s)
      ]
    ]

    conclude_isolated :
        (s : MemoryStorage V) (g : Staging V) (r : Result (Unit {0}))
        → user_state j (conclude user s g r).0 ≡ user_state j s
    unfolding conclude
    conclude_isolated s g (throw e) = refl
    conclude_isolated s g (ok u) =
        commit_isolated (get_or s.options.max_history_entries 1000) g
          (record s { global_seq = g.seq })

    -- Whether a batch succeeds or throws, it changes nothing in the partition of an account other
    -- than the batch's user.
    pub apply_changes_isolated :
        (null : V) (byte_size : Option V → ℕ) (now : ℕ) (changes : List (ChangeRecord V))
        (s : MemoryStorage V)
        → user_state j (apply_changes null byte_size now user changes s).0 ≡ user_state j s
    unfolding apply_changes stage_and_commit
    apply_changes_isolated null byte_size now [] s = refl
    apply_changes_isolated null byte_size now (c ∷ cs) s =
        elim (Result-cases (validated byte_size now s (c ∷ cs))) [
          | inr (e, failed) ↦ rw (apply_changes, failed) refl
          | inl (u, passed) ↦
              rw (apply_changes, passed)
                (conclude_isolated (prepare user s) _ _
                  ∙ (prepare-IsUntouched user s).user_states j)
        ]
