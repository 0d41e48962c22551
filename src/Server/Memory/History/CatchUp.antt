-- ===== src/Server/Memory/History/CatchUp.antt =====
-- What a client that asks for the changes since a number is sent, against the whole history.
use typescript_tetherdb.Base.{
  ℕ, suc, ◌≤◌, ◌≡◌, sym, ◌∙◌, ap, ap₂, subst, Text, text_key, false, Option, none, some, List, [],
  ◌∷◌, ◌++◌, arith, filter, filter-append, max, if◌then◌else◌,
}
use typescript_tetherdb.Server.Memory.{MemoryStorage, own_id, user_state, ensure_user_state}
use typescript_tetherdb.Server.Memory.Apply.Atomic.{IsUntouched, ensure_user_state-IsUntouched}
use typescript_tetherdb.Server.Memory.Apply.Log.{Ascending}
use typescript_tetherdb.Server.Memory.History.{
  RawChanges, later_than, sort_by_seq, raw_changes_own, raw_changes_shared, get_raw_changes_since,
  changes_to_send,
}
use typescript_tetherdb.Server.Memory.History.Retention.{Retains, Retains-later}
use typescript_tetherdb.Server.Security.{InternalChangeRecord}
use typescript_tetherdb.Server.Storage.{is_snapshot_required}
use typescript_tetherdb.Server.User.{User, anonymous, admin, account}

-- All entries that were ever logged, by partition. The program does not keep them.
pub record Histories (V : Type 0) : Type 0 where
  pub shared : List (InternalChangeRecord V)
  pub user : Text → List (InternalChangeRecord V)

-- The state's changelogs are what is left of the histories.
pub record IsRecorded {V : Type 0} (h : Histories V) (s : MemoryStorage V) : Type 0 where
  pub shared_ascending : Ascending 0 s.global_seq h.shared
  pub shared_retained : Retains h.shared s.shared_state
  pub user_ascending : (id : Text) → Ascending 0 s.global_seq (h.user id)
  pub user_retained : (id : Text) → Retains (h.user id) (user_state id s)

-- The history that a user reads beside the shared one.
abbrev pub own_history : {V : Type 0} → User → Histories V → List (InternalChangeRecord V)
own_history user h = elim (own_id user) [ none ↦ [] | some id ↦ h.user id ]

no_snapshot :
    (from_seq min_seq other current_seq : ℕ)
    → is_snapshot_required from_seq (max min_seq other) current_seq ≡ false
    → (min_seq ≤ suc from_seq) × (other ≤ suc from_seq)
unfolding is_snapshot_required
no_snapshot from_seq min_seq other current_seq h = ground arith

module _ {V : Type 0} (h : Histories V) (s : MemoryStorage V) (from_seq : ℕ) where
  own_complete :
      (id : Text) (t : MemoryStorage V)
      → IsUntouched s t
      → IsRecorded h s
      → is_snapshot_required from_seq
          (raw_changes_own from_seq id t).min_seq
          (raw_changes_own from_seq id t).current_seq
        ≡ false
      → (raw_changes_own from_seq id t).raw_changes
        ≡ sort_by_seq (filter (later_than from_seq) (h.user id ++ h.shared))
  unfolding raw_changes_own
  own_complete id t u r e =
      let (own, shared) = no_snapshot from_seq _ _ _ e in
      let kept = subst (Retains (h.user id)) (sym (u.user_states id)) (r.user_retained id) in
      let kept_shared = subst (Retains h.shared) (sym u.shared_state) r.shared_retained in
      ap sort_by_seq (
        sym (
          filter-append (later_than from_seq) (h.user id) h.shared
          ∙ ap₂ ◌++◌ (Retains-later (h.user id) (user_state id t) from_seq kept own)
              (Retains-later h.shared t.shared_state from_seq kept_shared shared)))

  shared_complete :
      IsRecorded h s
      → is_snapshot_required from_seq
          (raw_changes_shared from_seq s).min_seq
          (raw_changes_shared from_seq s).current_seq
        ≡ false
      → (raw_changes_shared from_seq s).raw_changes
        ≡ sort_by_seq (filter (later_than from_seq) h.shared)
  unfolding raw_changes_shared
  shared_complete r e =
      let (own, shared) = no_snapshot from_seq _ _ _ e in
      ap sort_by_seq (sym (Retains-later h.shared s.shared_state from_seq r.shared_retained shared))

-- The changes that are sent, by the answer of the log.
sent_of : {V : Type 0} → ℕ → RawChanges V → Option (List (InternalChangeRecord V))
sent_of from_seq raw =
    if is_snapshot_required from_seq raw.min_seq raw.current_seq then none else some raw.raw_changes

sent_inv :
    {V : Type 0} (from_seq : ℕ) (raw : RawChanges V) (sent : List (InternalChangeRecord V))
    → sent_of from_seq raw ≡ some sent
    → (is_snapshot_required from_seq raw.min_seq raw.current_seq ≡ false) × (raw.raw_changes ≡ sent)
unfolding sent_of
sent_inv from_seq raw sent h = ground arith

module _ {V : Type 0} (h : Histories V) (s : MemoryStorage V) where
  -- In a state whose changelogs are what is left of the histories, a client that is sent changes is
  -- sent every change of the histories, of the shared partition and the user's own, whose number is
  -- above the client's, in the order of the numbers.
  pub changes_to_send_complete :
      (user : User) (from_seq : ℕ) (sent : List (InternalChangeRecord V))
      → IsRecorded h s
      → changes_to_send from_seq user s ≡ some sent
      → sent ≡ sort_by_seq (filter (later_than from_seq) (own_history user h ++ h.shared))
  unfolding changes_to_send get_raw_changes_since sent_of
  changes_to_send_complete anonymous from_seq sent r e =
      let (fresh, same_list) = sent_inv from_seq (raw_changes_shared from_seq s) sent e in
      sym same_list ∙ shared_complete h s from_seq r fresh
  changes_to_send_complete admin from_seq sent r e =
      let (fresh, same_list) = sent_inv from_seq (raw_changes_shared from_seq s) sent e in
      sym same_list ∙ shared_complete h s from_seq r fresh
  changes_to_send_complete (account [] name created_at) from_seq sent r e =
      let (fresh, same_list) = sent_inv from_seq (raw_changes_shared from_seq s) sent e in
      sym same_list ∙ shared_complete h s from_seq r fresh
  changes_to_send_complete (account (c ∷ id) name created_at) from_seq sent r e =
      let t = ensure_user_state (c ∷ id) s in
      let (fresh, same_list) = sent_inv from_seq (raw_changes_own from_seq (c ∷ id) t) sent e in
      sym same_list
      ∙ own_complete h s from_seq (c ∷ id) t (ensure_user_state-IsUntouched (c ∷ id) s) r fresh
