-- ===== src/Server/Memory/History.antt =====
-- The changelogs of the in-memory engine as clients read them: `getRawChangesSince`, the test for
-- a snapshot in `getChangesSince` (src/server/storage/storage.ts), and `prune`.
pub mod Retention
pub mod CatchUp
pub mod Recorded
pub mod Prune
pub mod Deletion
pub mod Buried
pub mod Burial
use typescript_tetherdb.Base.{
  ℕ, ◌+◌, ◌-◌, ◌≡◌, Text, text_key, Bool, true, false, Option, none, some, List, [], ◌∷◌, ◌++◌, leb,
  ltb, ◌==◌, length, drop, get_or, filter, max, if◌then◌else◌,
}
use typescript_tetherdb.Base.Dict
use typescript_tetherdb.Base.Dict.{Dict}
use typescript_tetherdb.Server.Errors.{throw, not_supported, Result, ok, ◌>>=◌}
use typescript_tetherdb.Server.Memory.{
  MemoryStorage, StatePartition, own_id, ensure_user_state, user_state, first_seq,
}
use typescript_tetherdb.Server.Security.{InternalChangeRecord}
use typescript_tetherdb.Server.Storage.{is_snapshot_required}
use typescript_tetherdb.Server.User.{User}
use typescript_tetherdb.Server.Validate.{validate_keep_count}

pub record RawChanges (V : Type 0) : Type 0 where
  pub raw_changes : List (InternalChangeRecord V)
  pub current_seq : ℕ
  pub min_seq : ℕ

-- `checkpoint()` and `vacuum()`, which this engine does not support.
unfoldable pub checkpoint : Result (Unit {0})
checkpoint = throw not_supported

unfoldable pub vacuum : Result (Unit {0})
vacuum = throw not_supported

module _ {V : Type 0} where
  unfoldable pub get_current_seq : User → MemoryStorage V → ℕ
  get_current_seq user s = s.global_seq

  -- `c.seq > fromSeq`
  abbrev pub later_than : ℕ → InternalChangeRecord V → Bool
  later_than from_seq c = ltb from_seq c.seq

  -- `sort((a, b) => a.seq - b.seq)`, which the language defines to be stable.
  unfoldable pub insert_by_seq :
      InternalChangeRecord V → List (InternalChangeRecord V) → List (InternalChangeRecord V)
  insert_by_seq c [] = c ∷ []
  insert_by_seq c (d ∷ ds) =
      let rest = insert_by_seq c ds in if leb c.seq d.seq then c ∷ d ∷ ds else d ∷ rest

  unfoldable pub sort_by_seq : List (InternalChangeRecord V) → List (InternalChangeRecord V)
  sort_by_seq [] = []
  sort_by_seq (c ∷ cs) = insert_by_seq c (sort_by_seq cs)

  -- The answer for a user with a partition, and for one without.
  unfoldable pub raw_changes_own : ℕ → Text → MemoryStorage V → RawChanges V
  raw_changes_own from_seq id s = record {
    raw_changes = sort_by_seq (
        filter (later_than from_seq) (user_state id s).changelog
        ++ filter (later_than from_seq) s.shared_state.changelog);
    current_seq = s.global_seq;
    min_seq = max (user_state id s).min_seq s.shared_state.min_seq;
  }

  unfoldable pub raw_changes_shared : ℕ → MemoryStorage V → RawChanges V
  raw_changes_shared from_seq s = record {
    raw_changes = sort_by_seq (filter (later_than from_seq) s.shared_state.changelog);
    current_seq = s.global_seq;
    min_seq = max 0 s.shared_state.min_seq;
  }

  -- Looking up the user's partition makes it if there is none.
  unfoldable pub get_raw_changes_since : ℕ → User → MemoryStorage V → RawChanges V × MemoryStorage V
  unfolding raw_changes_own raw_changes_shared
  get_raw_changes_since from_seq user s = elim (own_id user) [
    | none ↦ (raw_changes_shared from_seq s, s)
    | some id ↦ (raw_changes_own from_seq id (ensure_user_state id s), ensure_user_state id s)
  ]

  -- What `getChangesSince` passes on for filtering: `none` if the client needs a snapshot.
  unfoldable pub changes_to_send :
      ℕ → User → MemoryStorage V → Option (List (InternalChangeRecord V))
  changes_to_send from_seq user s =
      let (raw, s') = get_raw_changes_since from_seq user s in
      if is_snapshot_required from_seq raw.min_seq raw.current_seq
      then none
      else some raw.raw_changes

  -- `log.slice(-n)`: `slice(-0)` is `slice(0)`, the whole.
  unfoldable pub slice_last : ℕ → List (InternalChangeRecord V) → List (InternalChangeRecord V)
  slice_last n log = if n == 0 then log else drop (length log - n) log

  -- `pruneLog(state)`
  unfoldable pub prune_log : ℕ → StatePartition V → StatePartition V
  prune_log limit p =
      if ltb limit (length p.changelog)
      then record p {
        changelog = slice_last limit p.changelog;
        min_seq = first_seq (slice_last limit p.changelog) p.min_seq;
      }
      else p

  -- What `pruneLog` adds to the reported count.
  unfoldable pub pruned_count : ℕ → StatePartition V → ℕ
  pruned_count limit p = if ltb limit (length p.changelog) then length p.changelog - limit else 0

  unfoldable pub pruned_counts : ℕ → Dict Text (StatePartition V) → ℕ
  pruned_counts limit [] = 0
  pruned_counts limit ((id, p) ∷ ps) = pruned_count limit p + pruned_counts limit ps

  -- The reported count, and the state.
  unfoldable pub prune : Option ℕ → MemoryStorage V → Result (ℕ × MemoryStorage V)
  unfolding prune_log pruned_count pruned_counts
  prune keep_count s = do
    limit ← validate_keep_count keep_count (get_or s.options.max_history_entries 1000)
    ok (
      pruned_count limit s.shared_state + pruned_counts limit s.user_states,
      record s {
        shared_state = prune_log limit s.shared_state;
        user_states = Dict.map_values (prune_log limit) s.user_states;
      },
    )
