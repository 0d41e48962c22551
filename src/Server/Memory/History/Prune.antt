-- ===== src/Server/Memory/History/Prune.antt =====
-- `prune`, and how long changelogs get.
use typescript_tetherdb.Base.{
  ℕ, ◌+◌, ◌-◌, ◌≤◌, ◌<◌, ◌≡◌, subst, Text, text_key, some, List, arith, length, length-drop, drop,
  ltb, ◌==◌, get_or, inl, inr, Bool-cases,
}
use typescript_tetherdb.Base.Dict
use typescript_tetherdb.Base.Dict.{Dict, get-map_values}
use typescript_tetherdb.Server.Errors.{ok}
use typescript_tetherdb.Server.Memory.{MemoryStorage, StatePartition, user_state, empty_partition}
use typescript_tetherdb.Server.Memory.Apply.Log.{Ascending}
use typescript_tetherdb.Server.Memory.History.{
  slice_last, prune_log, pruned_count, pruned_counts, prune,
}
use typescript_tetherdb.Server.Memory.History.CatchUp.{Histories, IsRecorded}
use typescript_tetherdb.Server.Memory.History.Retention.{Retains, Retains-drop}
use typescript_tetherdb.Server.Security.{InternalChangeRecord}
use typescript_tetherdb.Server.Validate.{validate_keep_count}

module _ {V : Type 0} where
  -- Pruning acts on each partition by itself.
  user_state-prune :
      (limit : ℕ) (id : Text) (states : Dict Text (StatePartition V))
      → get_or (Dict.get id (Dict.map_values (prune_log limit) states)) empty_partition
        ≡ prune_log limit (get_or (Dict.get id states) empty_partition)
  unfolding prune_log
  user_state-prune limit id states = ground (arith, get-map_values (prune_log limit) id states)

  slice_last-drop :
      (n : ℕ) (log : List (InternalChangeRecord V))
      → n < length log
      → (k : ℕ) × (k < length log) × (slice_last n log ≡ drop k log)
  unfolding slice_last
  slice_last-drop n log h = elim (Bool-cases (n == 0)) [
    | inl whole ↦ (0, omega arith, rw whole)
    | inr part ↦ (length log - n, ground arith, rw part)
  ]

  prune_log-Retains :
      (hi limit : ℕ) (full : List (InternalChangeRecord V)) (p : StatePartition V)
      → Ascending 0 hi full
      → Retains full p
      → Retains full (prune_log limit p)
  unfolding prune_log
  prune_log-Retains hi limit full p a r = elim (Bool-cases (ltb limit (length p.changelog))) [
    | inl long ↦
        let (k, within, e) = slice_last-drop limit p.changelog (ground arith) in
        rw (long, e) (Retains-drop 0 hi k full p within a r)
    | inr short ↦ rw short r
  ]

  prune_log-length :
      (limit : ℕ) (p : StatePartition V) → 0 < limit → length (prune_log limit p).changelog ≤ limit
  unfolding prune_log slice_last
  prune_log-length limit p h = ground (arith, length-drop (length p.changelog - limit) p.changelog)

  -- `slice(-0)` takes the whole log.
  prune_log_zero : (p : StatePartition V) → (prune_log 0 p).changelog ≡ p.changelog
  unfolding prune_log slice_last
  prune_log_zero p = ground arith

  pruned_count_zero : (p : StatePartition V) → pruned_count 0 p ≡ length p.changelog
  unfolding pruned_count
  pruned_count_zero p = ground arith

  -- The state and the count that pruning to a number gives.
  prune_inv :
      (keep_count : ℕ) (n : ℕ) (s s' : MemoryStorage V)
      → prune (some keep_count) s ≡ ok (n, s')
      → (pruned_count keep_count s.shared_state + pruned_counts keep_count s.user_states ≡ n)
        × (record s {
          shared_state = prune_log keep_count s.shared_state;
          user_states = Dict.map_values (prune_log keep_count) s.user_states;
        }
            ≡ s')
  unfolding prune validate_keep_count prune_log pruned_count pruned_counts
  prune_inv keep_count n s s' h = (cc, cc)

  -- Pruning to a positive number leaves no changelog longer than that, and the changelogs remain
  -- what is left of the histories.
  pub prune-IsRecorded :
      (h : Histories V) (keep_count n : ℕ) (s s' : MemoryStorage V)
      → 0 < keep_count
      → prune (some keep_count) s ≡ ok (n, s')
      → IsRecorded h s
      → IsRecorded h s'
        × (length s'.shared_state.changelog ≤ keep_count)
        × ((id : Text) → length (user_state id s').changelog ≤ keep_count)
  prune-IsRecorded h keep_count n s s' pos e r =
      subst
        (λ x.
          IsRecorded h x
          × (length x.shared_state.changelog ≤ keep_count)
          × ((id : Text) → length (user_state id x).changelog ≤ keep_count))
        (prune_inv keep_count n s s' e).1
        (
          record {
            shared_ascending = r.shared_ascending;
            shared_retained =
                prune_log-Retains s.global_seq keep_count h.shared s.shared_state r.shared_ascending
                  r.shared_retained;
            user_ascending = r.user_ascending;
            user_retained = λ id. rw (user_state-prune keep_count id s.user_states) (
                prune_log-Retains s.global_seq keep_count (h.user id) (user_state id s)
                  (r.user_ascending id) (r.user_retained id));
          },
          prune_log-length keep_count s.shared_state pos,
          λ id.
              rw (user_state-prune keep_count id s.user_states)
                (prune_log-length keep_count (user_state id s) pos),
        )

  -- Pruning to 0 reports the entries of the shared changelog as removed, at least, but removes no
  -- entry of any changelog.
  pub prune_zero :
      (n : ℕ) (s s' : MemoryStorage V)
      → prune (some 0) s ≡ ok (n, s')
      → (length s.shared_state.changelog ≤ n)
        × (s'.shared_state.changelog ≡ s.shared_state.changelog)
        × ((id : Text) → (user_state id s').changelog ≡ (user_state id s).changelog)
  prune_zero n s s' e =
      let (counted, done) = prune_inv 0 n s s' e in
      (
        omega (arith, pruned_count_zero s.shared_state),
        subst (λ x. x.shared_state.changelog ≡ s.shared_state.changelog) done
            (prune_log_zero s.shared_state),
        subst (λ x. (id : Text) → (user_state id x).changelog ≡ (user_state id s).changelog) done
            (λ id. rw (user_state-prune 0 id s.user_states) (prune_log_zero (user_state id s))),
      )
