-- ===== src/Server/Synchronize.antt =====
-- `performSync` of src/src/server/sync.ts and `getChangesSince` of src/src/server/storage/storage.ts,
-- over the in-memory engine: what a client is sent when it connects. `find_user_name` is the name of
-- the account that `storage.getUser` finds.
use typescript_tetherdb.Base.{
  ℕ, zero, suc, ◌≡◌, ◌⊎◌, inl, inr, refl, ap, ◌∙◌, Text, text_key, Option, none, some, List, [],
  ◌++◌, arith, filter, get_or, Option-cases,
}
use typescript_tetherdb.Base.Dict
use typescript_tetherdb.Server.Filter.{filter_and_sanitize_changes, filter_and_sanitize_snapshot}
use typescript_tetherdb.Server.Filter.Sent.{
  visible_records, visible_changes, filter_and_sanitize_changes_lem,
  filter_and_sanitize_snapshot_lem,
}
use typescript_tetherdb.Server.Memory.{MemoryStorage, get_raw_records}
use typescript_tetherdb.Server.Memory.History.{
  changes_to_send, get_raw_changes_since, get_current_seq, later_than, sort_by_seq,
}
use typescript_tetherdb.Server.Memory.History.CatchUp.{
  Histories, IsRecorded, own_history, changes_to_send_complete,
}
use typescript_tetherdb.Server.Memory.Tables.{get_tables}
use typescript_tetherdb.Server.Resolver.{IsCurrent}
use typescript_tetherdb.Server.Security.{InternalChangeRecord}
use typescript_tetherdb.Server.User.{User}
use typescript_tetherdb.Shared.Messages.{ServerMessage, sync_snapshot, sync_diff}
use typescript_tetherdb.Shared.Types.{ChangeRecord}

empty-IsCurrent :
    (find_user_name : Text → Option Text) (user : User) → IsCurrent find_user_name (some user) []
unfolding Dict.get
empty-IsCurrent find_user_name user id name e = ground (arith, e)

module _ {V : Type 0} (find_user_name : Text → Option Text) (user : User)
    (filters : Option (List Text)) where
  -- `sendSyncSnapshot`
  unfoldable pub snapshot_message : ℕ → MemoryStorage V → ServerMessage V
  snapshot_message current_seq s =
      sync_snapshot current_seq
        (filter_and_sanitize_snapshot find_user_name user
          (λ table partition. get_raw_records table partition s) filters (get_tables s) []).1

  -- `none` requires a snapshot.
  unfoldable pub diff_message :
      ℕ → Option (List (InternalChangeRecord V)) → MemoryStorage V → ServerMessage V
  unfolding snapshot_message
  diff_message seq none s = snapshot_message (get_current_seq user s) s
  diff_message seq (some raws) s =
      sync_diff seq (get_current_seq user s)
        (filter_and_sanitize_changes (λ name. Dict.get name s.tables) find_user_name user filters
          raws []).1

  unfoldable pub sync_from : ℕ → MemoryStorage V → MemoryStorage V × ServerMessage V
  unfolding snapshot_message diff_message
  sync_from zero s = (s, snapshot_message (get_current_seq user s) s)
  sync_from (suc n) s =
      let s' = (get_raw_changes_since (suc n) user s).1 in
      (s', diff_message (suc n) (changes_to_send (suc n) user s) s')

  -- The state, and the message that is handed to `send`.
  unfoldable pub perform_sync : Option ℕ → MemoryStorage V → MemoryStorage V × ServerMessage V
  unfolding sync_from
  perform_sync last_sync_seq s = sync_from (get_or last_sync_seq 0) s

  -- The live records that the user may see, of the tables asked for.
  abbrev pub full_snapshot : MemoryStorage V → ServerMessage V
  full_snapshot s = sync_snapshot (get_current_seq user s) (
      visible_records find_user_name user (λ table partition. get_raw_records table partition s)
        filters (get_tables s))

  -- The changes of the histories above the client's number that the user may see.
  abbrev pub missed : ℕ → Histories V → MemoryStorage V → List (ChangeRecord V)
  missed seq h s =
      visible_changes find_user_name user (λ name. Dict.get name s.tables) filters
        (sort_by_seq (filter (later_than seq) (own_history user h ++ h.shared)))

  snapshot_message_lem :
      (s : MemoryStorage V) → snapshot_message (get_current_seq user s) s ≡ full_snapshot s
  unfolding snapshot_message
  snapshot_message_lem s = ap (sync_snapshot (get_current_seq user s)) (
      filter_and_sanitize_snapshot_lem find_user_name user
        (λ table partition. get_raw_records table partition s) filters (get_tables s) []
        (empty-IsCurrent find_user_name user))

  -- A client without a number, or whose number the changelogs no longer reach, is sent the live records
  -- of the tables it asks for that its user may see, and any other every change of the histories above
  -- its number, in order, of those tables that the user may see. The user's role, a table's rule for
  -- reading and the owner decide: the administrator may see all, an account where the owner's rule
  -- holds its own, a guest what everybody may read. The records are those of the shared partition, or,
  -- where the owner's rule holds, the account's own and for the administrator those of the empty id.
  -- No ids of owners or authors go out. The changelogs have to be what is left of the histories.
  pub perform_sync_complete :
      (h : Histories V) (last_sync_seq : Option ℕ) (s : MemoryStorage V)
      → IsRecorded h s
      → (let seq = get_or last_sync_seq 0 in
          let r = perform_sync last_sync_seq s in
          (((seq ≡ 0) ⊎ (changes_to_send seq user s ≡ none)) × (r.1 ≡ full_snapshot r.0))
          ⊎ (¬ (seq ≡ 0) × (r.1 ≡ sync_diff seq (get_current_seq user r.0) (missed seq h r.0))))
  unfolding perform_sync diff_message
  perform_sync_complete h none s r = inl (inl refl, snapshot_message_lem s)
  perform_sync_complete h (some zero) s r = inl (inl refl, snapshot_message_lem s)
  perform_sync_complete h (some (suc n)) s r =
      let s' = (get_raw_changes_since (suc n) user s).1 in
      elim (Option-cases (changes_to_send (suc n) user s)) [
        | inl e ↦ inl (inr e, ap (λ o. diff_message (suc n) o s') e ∙ snapshot_message_lem s')
        | inr (raws, e) ↦ inr (
          ground arith,
          ap (λ o. diff_message (suc n) o s') e
              ∙ ap (sync_diff (suc n) (get_current_seq user s')) (
                  filter_and_sanitize_changes_lem find_user_name user
                    (λ name. Dict.get name s'.tables) filters raws []
                    (empty-IsCurrent find_user_name user)
                  ∙ ap
                      (visible_changes find_user_name user (λ name. Dict.get name s'.tables)
                        filters)
                      (changes_to_send_complete h s user (suc n) raws r e)),
        )
      ]
