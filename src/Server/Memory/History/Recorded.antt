-- ===== src/Server/Memory/History/Recorded.antt =====
-- The operations that write changelogs keep them in step with the whole histories.
use mathlib.Core.List.{append-nil}
use typescript_tetherdb.Base.{
  ℕ, ◌+◌, ◌-◌, ◌≤◌, ◌<◌, ◌≡◌, refl, sym, subst, Text, text_key, same, eq_of_same, Bool, true, false,
  Option, none, some, List, [], ◌∷◌, ◌++◌, arith, filter, length, ltb, get_or, not, ◌&&◌, inl, inr,
  Bool-cases, if◌then◌else◌,
}
use typescript_tetherdb.Base.Dict.{Dict}
use typescript_tetherdb.Server.Errors.{Result, ok, throw, Result-cases}
use typescript_tetherdb.Server.Memory.{MemoryStorage, StatePartition, Records, own_id, user_state}
use typescript_tetherdb.Server.Memory.Apply.{
  Staging, compact, commit_partition, commit_own, commit_all_shared, commit, commit_tables,
  logs_privately, names_table, prepare, start_staging, conclude, stage_all, stage_and_commit,
  apply_changes, validated,
}
use typescript_tetherdb.Server.Memory.Apply.Atomic.{IsUntouched, prepare-IsUntouched}
use typescript_tetherdb.Server.Memory.Apply.Counting.{stage_all-Advances}
use typescript_tetherdb.Server.Memory.Apply.Isolation.{user_state-commit_own}
use typescript_tetherdb.Server.Memory.Apply.Log.{
  Ascending, Ascending-le, Ascending-append, Ascending-mono, Ascending-filter,
}
use typescript_tetherdb.Server.Memory.History.CatchUp.{Histories, IsRecorded}
use typescript_tetherdb.Server.Memory.History.Retention.{Retains, Retains-drop, Retains-append}
use typescript_tetherdb.Server.Security.{InternalChangeRecord}
use typescript_tetherdb.Server.Table.{Table}
use typescript_tetherdb.Server.User.{User, anonymous, admin, account}
use typescript_tetherdb.Shared.Types.{ChangeRecord}

module _ {V : Type 0} where
  compact-Retains :
      (hi max_history : ℕ) (full : List (InternalChangeRecord V)) (p : StatePartition V)
      → 0 < max_history
      → Ascending 0 hi full
      → Retains full p
      → Retains full (compact max_history p)
  unfolding compact
  compact-Retains hi max_history full p h a r =
      elim (Bool-cases (ltb (max_history + 50) (length p.changelog))) [
        | inl long ↦
            rw long (Retains-drop 0 hi (length p.changelog - max_history) full p (ground arith) a r)
        | inr short ↦ rw short r
      ]

  commit_partition-Retains :
      (hi max_history seq : ℕ) (staged : Dict Text (Records V))
      (full entries : List (InternalChangeRecord V)) (p : StatePartition V)
      → 0 < max_history
      → Ascending 0 hi (full ++ entries)
      → Retains full p
      → Retains (full ++ entries) (commit_partition max_history seq staged entries p)
  unfolding commit_partition
  commit_partition-Retains hi max_history seq staged full entries p h a r =
      compact-Retains hi max_history (full ++ entries) _ h a
        (Retains-append full entries p _ r refl (ground arith))

  -- The same history, for a state that reads the same.
  untouched-IsRecorded :
      (h : Histories V) (s t : MemoryStorage V) → IsUntouched s t → IsRecorded h s → IsRecorded h t
  untouched-IsRecorded h s t u r = record {
    shared_ascending =
        Ascending-mono 0 0 s.global_seq t.global_seq h.shared (omega arith) u.global_seq
          r.shared_ascending;
    shared_retained = subst (Retains h.shared) (sym u.shared_state) r.shared_retained;
    user_ascending = λ id.
        Ascending-mono 0 0 s.global_seq t.global_seq (h.user id) (omega arith) u.global_seq
          (r.user_ascending id);
    user_retained = λ id. subst (Retains (h.user id)) (sym (u.user_states id)) (r.user_retained id);
  }

  -- Where the entries of a batch belong: those of private tables to the user's own partition, if
  -- the user has one, and all others to the shared one.
  abbrev pub extend :
      User → Dict Text (Table V) → List (InternalChangeRecord V) → Histories V → Histories V
  extend user tables entries h = elim (own_id user) [
    | none ↦ record h { shared = h.shared ++ filter (names_table tables) entries }
    | some id ↦ record {
      shared =
          h.shared ++ filter (λ c. names_table tables c && not (logs_privately tables c)) entries;
      user =
          λ j. if same id j then h.user j ++ filter (logs_privately tables) entries else h.user j;
    }
  ]

  extended :
      (lo hi : ℕ) (p : InternalChangeRecord V → Bool) (full entries : List (InternalChangeRecord V))
      → Ascending 0 lo full
      → Ascending lo hi entries
      → Ascending 0 hi (full ++ filter p entries)
  extended lo hi p full entries a b =
      Ascending-append 0 lo hi full (filter p entries) a (Ascending-filter p lo hi entries b)

  commit_all_shared-IsRecorded :
      (lo max_history : ℕ) (g : Staging V) (s : MemoryStorage V) (h : Histories V)
      → 0 < max_history
      → Ascending lo g.seq g.applied
      → lo ≤ g.seq
      → s.global_seq ≡ g.seq
      → Ascending 0 lo h.shared
      → ((id : Text) → Ascending 0 lo (h.user id))
      → Retains h.shared s.shared_state
      → ((id : Text) → Retains (h.user id) (user_state id s))
      → IsRecorded
          (record h { shared = h.shared ++ filter (names_table s.tables) g.applied })
          (commit_all_shared max_history g s)
  unfolding commit_all_shared
  commit_all_shared-IsRecorded lo max_history g s h pos a le e sa ua sr ur = record {
    shared_ascending = rw e (extended lo g.seq (names_table s.tables) h.shared g.applied sa a);
    shared_retained =
        commit_partition-Retains g.seq max_history g.seq g.shared_tables h.shared
          (filter (names_table s.tables) g.applied)
          (record s.shared_state { tables = commit_tables g.user_tables s.shared_state.tables }) pos
          (extended lo g.seq (names_table s.tables) h.shared g.applied sa a)
          (record { dropped = sr.dropped; split = sr.split; announced = sr.announced });
    user_ascending = λ id. rw e (Ascending-mono 0 0 lo g.seq (h.user id) (omega arith) le (ua id));
    user_retained = ur;
  }

  retained_if :
      (b : Bool) {xs ys : List (InternalChangeRecord V)} {p q : StatePartition V}
      → (b ≡ true → Retains xs p)
      → (b ≡ false → Retains ys q)
      → Retains (if b then xs else ys) (if b then p else q)
  retained_if true kx ky = kx refl
  retained_if false kx ky = ky refl

  commit_own-IsRecorded :
      (lo max_history : ℕ) (id : Text) (g : Staging V) (s : MemoryStorage V) (h : Histories V)
      → 0 < max_history
      → Ascending lo g.seq g.applied
      → lo ≤ g.seq
      → s.global_seq ≡ g.seq
      → Ascending 0 lo h.shared
      → ((j : Text) → Ascending 0 lo (h.user j))
      → Retains h.shared s.shared_state
      → ((j : Text) → Retains (h.user j) (user_state j s))
      → IsRecorded
          (record {
            shared =
                h.shared
                ++ filter
                    (λ c. names_table s.tables c && not (logs_privately s.tables c))
                    g.applied;
            user = λ j.
                if same id j
                then h.user j ++ filter (logs_privately s.tables) g.applied
                else h.user j;
          })
          (commit_own max_history id g s)
  unfolding commit_own
  commit_own-IsRecorded lo max_history id g s h pos a le e sa ua sr ur = record {
    shared_ascending = rw e (extended lo g.seq shared_entry h.shared g.applied sa a);
    shared_retained =
        commit_partition-Retains g.seq max_history g.seq g.shared_tables h.shared
          (filter shared_entry g.applied) s.shared_state pos
          (extended lo g.seq shared_entry h.shared g.applied sa a) sr;
    user_ascending = λ j. elim (Bool-cases (same id j)) [
      | inl mine ↦
          rw (mine, e) (extended lo g.seq (logs_privately s.tables) (h.user j) g.applied (ua j) a)
      | inr other ↦ rw (other, e) (Ascending-mono 0 0 lo g.seq (h.user j) (omega arith) le (ua j))
    ];
    user_retained = λ j. rw user_state-commit_own (
        retained_if (same id j)
          (λ mine.
            commit_partition-Retains g.seq max_history g.seq g.user_tables (h.user j)
              (filter (logs_privately s.tables) g.applied) (user_state id s) pos
              (extended lo g.seq (logs_privately s.tables) (h.user j) g.applied (ua j) a)
              (rw (eq_of_same id j mine) (ur j)))
          (λ other. ur j));
  }
    where
      shared_entry : InternalChangeRecord V → Bool
      shared_entry c = names_table s.tables c && not (logs_privately s.tables c)

  commit-IsRecorded :
      (lo max_history : ℕ) (user : User) (g : Staging V) (s : MemoryStorage V) (h : Histories V)
      → 0 < max_history
      → Ascending lo g.seq g.applied
      → lo ≤ g.seq
      → s.global_seq ≤ lo
      → IsRecorded h s
      → IsRecorded
          (extend user s.tables g.applied h)
          (commit max_history user g (record s { global_seq = g.seq }))
  unfolding commit
  commit-IsRecorded lo max_history user g s h pos a le e r = go user
    where
      t : MemoryStorage V
      t = record s { global_seq = g.seq }

      sa : Ascending 0 lo h.shared
      sa = Ascending-mono 0 0 s.global_seq lo h.shared (omega arith) e r.shared_ascending

      ua : (j : Text) → Ascending 0 lo (h.user j)
      ua j = Ascending-mono 0 0 s.global_seq lo (h.user j) (omega arith) e (r.user_ascending j)

      none_own :
          IsRecorded
            (record h { shared = h.shared ++ filter (names_table s.tables) g.applied })
            (commit_all_shared max_history g t)
      none_own =
          commit_all_shared-IsRecorded lo max_history g t h pos a le refl sa ua r.shared_retained
            r.user_retained

      go : (u : User) → IsRecorded (extend u s.tables g.applied h) (commit max_history u g t)
      go anonymous = none_own
      go admin = none_own
      go (account [] name created_at) = none_own
      go (account (c ∷ id) name created_at) =
          commit_own-IsRecorded lo max_history (c ∷ id) g t h pos a le refl sa ua r.shared_retained
            r.user_retained

  conclude_ok :
      (user : User) (s s' : MemoryStorage V) (g : Staging V) (r : Result (Unit {0}))
      (entries : List (InternalChangeRecord V))
      → conclude user s g r ≡ (s', ok entries)
      → (commit (get_or s.options.max_history_entries 1000) user g (record s { global_seq = g.seq })
          ≡ s')
        × (g.applied ≡ entries)
  unfolding conclude
  conclude_ok user s s' g (ok u) entries h = ground arith
  conclude_ok user s s' g (throw e) entries h = ground arith

  stage_and_commit-IsRecorded :
      (null : V) (user : User) (changes : List (ChangeRecord V)) (s s' : MemoryStorage V)
      (entries : List (InternalChangeRecord V)) (h : Histories V)
      → 0 < get_or s.options.max_history_entries 1000
      → stage_and_commit null user changes s ≡ (s', ok entries)
      → IsRecorded h s
      → IsRecorded (extend user s.tables entries h) s'
  unfolding stage_and_commit
  stage_and_commit-IsRecorded null user changes s s' entries h pos e r =
      let t = prepare user s in
      let u = prepare-IsUntouched user s in
      let max_records = get_or s.options.max_records 10000 in
      let out = stage_all null t user max_records changes (start_staging t) in
      let a = stage_all-Advances null t user max_records changes (start_staging t) in
      let (committed, logged) = conclude_ok user t s' out.0 out.1 entries e in
      let all_new : Ascending t.global_seq out.0.seq out.0.applied = rw a.applied a.ascending in
      subst (λ x. IsRecorded (extend user s.tables x h) s') logged
        (subst (IsRecorded (extend user s.tables out.0.applied h)) committed (
          subst
            (λ x. IsRecorded (extend user x out.0.applied h) (
              commit (get_or t.options.max_history_entries 1000) user out.0
                (record t { global_seq = out.0.seq })))
            u.tables
            (commit-IsRecorded t.global_seq (get_or t.options.max_history_entries 1000) user out.0 t
              h (rw u.options pos) all_new
              (Ascending-le t.global_seq out.0.seq out.0.applied all_new) (omega arith)
              (untouched-IsRecorded h s t u r))))

  congr-IsRecorded :
      (h k : Histories V) (s : MemoryStorage V)
      → h.shared ≡ k.shared
      → ((id : Text) → h.user id ≡ k.user id)
      → IsRecorded h s
      → IsRecorded k s
  congr-IsRecorded h k s e f r = record {
    shared_ascending = rw (← e) r.shared_ascending;
    shared_retained = rw (← e) r.shared_retained;
    user_ascending = λ id. rw (← f id) (r.user_ascending id);
    user_retained = λ id. rw (← f id) (r.user_retained id);
  }

  extend_nothing :
      (user : User) (tables : Dict Text (Table V)) (h : Histories V) (s : MemoryStorage V)
      → IsRecorded h s
      → IsRecorded (extend user tables [] h) s
  unfolding filter
  extend_nothing anonymous tables h s r =
      congr-IsRecorded h _ s (sym (append-nil h.shared)) (λ id. refl) r
  extend_nothing admin tables h s r =
      congr-IsRecorded h _ s (sym (append-nil h.shared)) (λ id. refl) r
  extend_nothing (account [] name created_at) tables h s r =
      congr-IsRecorded h _ s (sym (append-nil h.shared)) (λ id. refl) r
  extend_nothing (account (c ∷ id) name created_at) tables h s r =
      congr-IsRecorded h _ s (sym (append-nil h.shared))
        (λ j. ground (arith, append-nil (h.user j))) r

  -- Where the limit on a changelog's entries is not 0, a batch that goes through is added to the
  -- histories, each entry to that of its partition, and the changelogs remain what is left of the
  -- histories.
  pub apply_changes-IsRecorded :
      (null : V) (byte_size : Option V → ℕ) (now : ℕ) (user : User)
      (changes : List (ChangeRecord V)) (s s' : MemoryStorage V)
      (entries : List (InternalChangeRecord V)) (h : Histories V)
      → 0 < get_or s.options.max_history_entries 1000
      → apply_changes null byte_size now user changes s ≡ (s', ok entries)
      → IsRecorded h s
      → IsRecorded (extend user s.tables entries h) s'
  unfolding apply_changes
  apply_changes-IsRecorded null byte_size now user [] s s' entries h pos e r =
      let same_state : s ≡ s' = cc in
      let no_entries : [] ≡ entries = cc in
      subst (λ x. IsRecorded (extend user s.tables x h) s') no_entries
        (subst (IsRecorded (extend user s.tables [] h)) same_state
          (extend_nothing user s.tables h s r))
  apply_changes-IsRecorded null byte_size now user (c ∷ cs) s s' entries h pos e r =
      elim (Result-cases (validated byte_size now s (c ∷ cs))) [
        | inl (u, passed) ↦
            stage_and_commit-IsRecorded null user (c ∷ cs) s s' entries h pos
              (rw (passed, apply_changes) at e) r
        | inr (f, failed) ↦ absurd (ground arith)
      ]
