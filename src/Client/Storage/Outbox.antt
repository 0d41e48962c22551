-- ===== src/Client/Storage/Outbox.antt =====
-- The outbox: what of src/src/client/storage/storage.ts adds to it and takes from it.
use typescript_tetherdb.Base.{
  ◌+◌, ◌≡◌, ◌≤◌, refl, sym, Text, text_key, nat_key, ℕ, suc, ◌∙◌, subst, ap, some, List, [], ◌∷◌,
  ◌++◌, arith, same_self, take, drop, take-append-drop,
}
use mathlib.Core.List.{append_assoc, append-nil}
use typescript_tetherdb.Base.Dict
use typescript_tetherdb.Base.Dict.{Dict}
use typescript_tetherdb.Client.ObjectStore
use typescript_tetherdb.Client.ObjectStore.{
  Sequence, Ascending, IsOrdered, add-IsOrdered, remove-IsOrdered,
}
use typescript_tetherdb.Client.Storage.{
  Storage, OutboxEntry, LocalMutationItem, ensure_table, apply_local_change, apply_each_local,
  apply_local_changes, get_pending_outbox, remove_each, remove_outbox_entries,
}

module _ {V : Type 0} where
  -- The entries that a batch of mutations queues: their changes in order, under consecutive numbers.
  abbrev pub queued : ℕ → ℕ → List (LocalMutationItem V) → Dict ℕ (OutboxEntry V)
  queued now next [] = []
  queued now next (item ∷ items) =
      (next, record { change = item.change; created_at = now }) ∷ queued now (next + 1) items

  ensure_table-outbox : (table : Text) (s : Storage V) → (ensure_table table s).outbox ≡ s.outbox
  unfolding ensure_table
  ensure_table-outbox table s = ground arith

  apply_each_local-entries :
      (null : V) (table : Text) (now : ℕ) (items : List (LocalMutationItem V)) (s : Storage V)
      → (apply_each_local null table now items s).0.outbox.entries
        ≡ s.outbox.entries ++ queued now s.outbox.next_key items
  unfolding apply_each_local apply_local_change ObjectStore.add
  apply_each_local-entries null table now [] s = sym (append-nil s.outbox.entries)
  apply_each_local-entries null table now (item ∷ items) s =
      apply_each_local-entries null table now items (apply_local_change null table now item s)
      ∙ append_assoc s.outbox.entries _ _

  -- Applying mutations queues their changes behind what waits, in order, and touches nothing that
  -- waits.
  pub apply_local_changes-entries :
      (null : V) (table : Text) (now : ℕ) (items : List (LocalMutationItem V)) (s : Storage V)
      → (apply_local_changes null table now items s).0.outbox.entries
        ≡ s.outbox.entries ++ queued now s.outbox.next_key items
  unfolding apply_local_changes
  apply_local_changes-entries null table now [] s = sym (append-nil s.outbox.entries)
  apply_local_changes-entries null table now (item ∷ items) s =
      apply_each_local-entries null table now (item ∷ items) (ensure_table table s)
      ∙ ap (λ q. q.entries ++ queued now q.next_key (item ∷ items)) (ensure_table-outbox table s)

  apply_each_local-IsOrdered :
      (null : V) (table : Text) (now : ℕ) (items : List (LocalMutationItem V)) (s : Storage V)
      → IsOrdered s.outbox
      → IsOrdered (apply_each_local null table now items s).0.outbox
  unfolding apply_each_local apply_local_change
  apply_each_local-IsOrdered null table now [] s o = o
  apply_each_local-IsOrdered null table now (item ∷ items) s o =
      apply_each_local-IsOrdered null table now items (apply_local_change null table now item s)
        (add-IsOrdered (record { change = item.change; created_at = now }) s.outbox o)

  pub apply_local_changes-IsOrdered :
      (null : V) (table : Text) (now : ℕ) (items : List (LocalMutationItem V)) (s : Storage V)
      → IsOrdered s.outbox
      → IsOrdered (apply_local_changes null table now items s).0.outbox
  unfolding apply_local_changes
  apply_local_changes-IsOrdered null table now [] s o = o
  apply_local_changes-IsOrdered null table now (item ∷ items) s o =
      apply_each_local-IsOrdered null table now (item ∷ items) (ensure_table table s)
        (rw (ensure_table-outbox table s) o)

  delete_below :
      (k lo hi : ℕ) (m : Dict ℕ (OutboxEntry V))
      → suc k ≤ lo
      → Ascending lo hi m
      → Dict.delete k m ≡ m
  unfolding Dict.delete
  delete_below k lo hi [] h a = refl
  delete_below k lo hi ((j, e) ∷ m) h a = ground (arith, delete_below k (suc j) hi m)

  delete_first :
      (k hi : ℕ) (e : OutboxEntry V) (m : Dict ℕ (OutboxEntry V))
      → Ascending (suc k) hi m
      → Dict.delete k ((k, e) ∷ m) ≡ m
  unfolding Dict.delete
  delete_first k hi e m a = rw (same_self k) (delete_below k (suc k) hi m (omega arith) a)

  -- Removing the keys of the first entries leaves the others.
  remove_each-prefix :
      (first rest : Dict ℕ (OutboxEntry V)) (lo : ℕ) (q : Sequence (OutboxEntry V))
      → q.entries ≡ first ++ rest
      → Ascending lo q.next_key q.entries
      → (remove_each (Dict.keys first) q).entries ≡ rest
  unfolding remove_each ObjectStore.remove
  remove_each-prefix [] rest lo q h a = h
  remove_each-prefix ((k, e) ∷ first) rest lo q h a =
      let later : Ascending (suc k) q.next_key (first ++ rest) =
        (subst (Ascending lo q.next_key) h a).1 in
      let removed : Dict.delete k q.entries ≡ first ++ rest =
        ap (Dict.delete k) h ∙ delete_first k q.next_key e (first ++ rest) later in
      remove_each-prefix first rest (suc k) (ObjectStore.remove k q) removed
        (subst (Ascending (suc k) q.next_key) (sym removed) later)

  -- Acknowledging: while the first entries of the outbox, at most `suc n`, are under way, mutations are
  -- applied. When those entries are then removed, what is left are the entries behind them, and those
  -- of the mutations.
  pub remove_outbox_entries_acknowledged :
      (null : V) (table : Text) (now n : ℕ) (items : List (LocalMutationItem V)) (s : Storage V)
      → IsOrdered s.outbox
      → (remove_outbox_entries
          (Dict.keys (get_pending_outbox (some (suc n)) s))
          (apply_local_changes null table now items s).0).outbox.entries
        ≡ drop (suc n) s.outbox.entries ++ queued now s.outbox.next_key items
  unfolding remove_outbox_entries get_pending_outbox
  remove_outbox_entries_acknowledged null table now n items s o =
      let s' = (apply_local_changes null table now items s).0 in
      remove_each-prefix (take (suc n) s.outbox.entries)
        (drop (suc n) s.outbox.entries ++ queued now s.outbox.next_key items) 0 s'.outbox
        (apply_local_changes-entries null table now items s
          ∙ ap (λ m. m ++ queued now s.outbox.next_key items)
              (sym (take-append-drop (suc n) s.outbox.entries))
          ∙ append_assoc (take (suc n) s.outbox.entries) (drop (suc n) s.outbox.entries) _)
        (apply_local_changes-IsOrdered null table now items s o)
