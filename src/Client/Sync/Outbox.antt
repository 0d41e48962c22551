-- ===== src/Client/Sync/Outbox.antt =====
-- How the outbox changes while src/src/client/sync/sync.ts is at work: it is extended behind its last
-- key, and what was in it stays as it is.
use typescript_tetherdb.Base.{
  ℕ, suc, ◌≤◌, ◌≡◌, refl, sym, ◌∙◌, subst, Text, text_key, nat_key, some, List, [], ◌∷◌, ◌++◌,
  arith,
}
use typescript_tetherdb.Base.Dict
use typescript_tetherdb.Base.Dict.{Dict}
use typescript_tetherdb.Client.ObjectStore
use typescript_tetherdb.Client.ObjectStore.{
  Sequence, Ascending, IsOrdered, add-IsOrdered, remove-IsOrdered,
}
use typescript_tetherdb.Client.Storage.{
  Storage, OutboxEntry, LocalMutationItem, or_else, ensure_table, ensure_tables_of,
  apply_local_change, apply_each_local, apply_local_changes, apply_item, apply_each_item,
  read_existing, apply_batch_records, apply_snapshot_batch, apply_remote_changes_batch, set_meta,
}
use typescript_tetherdb.Shared.Types.{ChangeRecord, SnapshotRecord}

module _ {V : Type 0} where
  -- Below the next key, nothing is in the second outbox that is not in the first.
  abbrev pub IsLater : Sequence (OutboxEntry V) → Sequence (OutboxEntry V) → Type 0
  IsLater q q' =
      (q.next_key ≤ q'.next_key)
      × ((id : ℕ) (e : OutboxEntry V)
          → suc id ≤ q.next_key
          → Dict.get id q'.entries ≡ some e
          → Dict.get id q.entries ≡ some e)

  abbrev pub IsKept : Sequence (OutboxEntry V) → Sequence (OutboxEntry V) → Type 0
  IsKept q q' =
      (id : ℕ) (e : OutboxEntry V)
      → Dict.get id q.entries ≡ some e
      → Dict.get id q'.entries ≡ some e

  pub IsLater-refl : (q : Sequence (OutboxEntry V)) → IsLater q q
  IsLater-refl q = (omega arith, λ id e l h. h)

  pub IsLater-trans : (a b c : Sequence (OutboxEntry V)) → IsLater a b → IsLater b c → IsLater a c
  IsLater-trans a b c h k =
      (omega (arith, h.0, k.0), λ id e l g. h.1 id e l (k.1 id e (omega (arith, h.0, l)) g))

  get-append :
      (id : ℕ) (m n : Dict ℕ (OutboxEntry V))
      → Dict.get id (m ++ n) ≡ or_else (Dict.get id m) (Dict.get id n)
  unfolding Dict.get
  get-append id [] n = refl
  get-append id ((j, e) ∷ m) n = ground (arith, get-append id m n)

  add-IsLater : (e : OutboxEntry V) (q : Sequence (OutboxEntry V)) → IsLater q (ObjectStore.add e q)
  unfolding ObjectStore.add Dict.get
  add-IsLater e q = (
    omega arith,
    λ id x l h. ground (arith, get-append id q.entries ((q.next_key, e) ∷ []), h, l),
  )

  add-IsKept : (e : OutboxEntry V) (q : Sequence (OutboxEntry V)) → IsKept q (ObjectStore.add e q)
  unfolding ObjectStore.add
  add-IsKept e q id x h = get-append id q.entries _ ∙ rw h refl

  -- What a local write and a batch of the server have in common.
  pub record Extends (q q' : Sequence (OutboxEntry V)) : Type 0 where
    pub later : IsLater q q'
    pub kept : IsKept q q'
    pub ordered : IsOrdered q → IsOrdered q'

  pub Extends-refl : (q : Sequence (OutboxEntry V)) → Extends q q
  Extends-refl q = record { later = IsLater-refl q; kept = λ id e h. h; ordered = λ o. o }

  pub Extends-trans : (a b c : Sequence (OutboxEntry V)) → Extends a b → Extends b c → Extends a c
  Extends-trans a b c h k = record {
    later = IsLater-trans a b c h.later k.later;
    kept = λ id e g. k.kept id e (h.kept id e g);
    ordered = λ o. k.ordered (h.ordered o);
  }

  pub Extends-eq : (a b : Sequence (OutboxEntry V)) → b ≡ a → Extends a b
  Extends-eq a b e = subst (λ q. Extends a q) (sym e) (Extends-refl a)

  apply_each_local-Extends :
      (null : V) (table : Text) (now : ℕ) (items : List (LocalMutationItem V)) (s : Storage V)
      → Extends s.outbox (apply_each_local null table now items s).0.outbox
  unfolding apply_each_local apply_local_change
  apply_each_local-Extends null table now [] s = Extends-refl s.outbox
  apply_each_local-Extends null table now (item ∷ items) s =
      let s' = apply_local_change null table now item s in
      let e : OutboxEntry V = record { change = item.change; created_at = now } in
      Extends-trans s.outbox s'.outbox (apply_each_local null table now items s').0.outbox
        (record {
          later = add-IsLater e s.outbox;
          kept = add-IsKept e s.outbox;
          ordered = add-IsOrdered e s.outbox;
        })
        (apply_each_local-Extends null table now items s')

  ensure_table-outbox : (table : Text) (s : Storage V) → (ensure_table table s).outbox ≡ s.outbox
  unfolding ensure_table
  ensure_table-outbox table s = ground arith

  pub apply_local_changes-Extends :
      (null : V) (table : Text) (now : ℕ) (items : List (LocalMutationItem V)) (s : Storage V)
      → Extends s.outbox (apply_local_changes null table now items s).0.outbox
  unfolding apply_local_changes
  apply_local_changes-Extends null table now [] s = Extends-refl s.outbox
  apply_local_changes-Extends null table now (item ∷ items) s =
      Extends-trans s.outbox (ensure_table table s).outbox _
        (Extends-eq s.outbox (ensure_table table s).outbox (ensure_table-outbox table s))
        (apply_each_local-Extends null table now (item ∷ items) (ensure_table table s))

  ensure_tables_of-outbox :
      (items : List (SnapshotRecord V)) (s : Storage V)
      → (ensure_tables_of items s).outbox ≡ s.outbox
  unfolding ensure_tables_of
  ensure_tables_of-outbox [] s = refl
  ensure_tables_of-outbox (item ∷ items) s =
      ensure_tables_of-outbox items (ensure_table item.table s) ∙ ensure_table-outbox item.table s

  apply_each_item-outbox :
      (existing : _) (items : List (SnapshotRecord V)) (s : Storage V)
      → (apply_each_item existing items s).outbox ≡ s.outbox
  unfolding apply_each_item apply_item
  apply_each_item-outbox existing [] s = refl
  apply_each_item-outbox existing (item ∷ items) s =
      apply_each_item-outbox existing items (apply_item existing item s) ∙ ground arith

  apply_batch_records-outbox :
      (items : List (SnapshotRecord V)) (seq now : ℕ) (s : Storage V)
      → (apply_batch_records items seq now s).outbox ≡ s.outbox
  unfolding apply_batch_records set_meta
  apply_batch_records-outbox [] seq now s = refl
  apply_batch_records-outbox (item ∷ items) seq now s =
      let before = ensure_tables_of (item ∷ items) s in
      apply_each_item-outbox (read_existing before (item ∷ items) []) (item ∷ items) before
      ∙ ensure_tables_of-outbox (item ∷ items) s

  pub apply_snapshot_batch-Extends :
      (snapshot : List (SnapshotRecord V)) (seq now : ℕ) (s : Storage V)
      → Extends s.outbox (apply_snapshot_batch snapshot seq now s).outbox
  unfolding apply_snapshot_batch
  apply_snapshot_batch-Extends snapshot seq now s =
      Extends-eq s.outbox _ (apply_batch_records-outbox snapshot seq now s)

  pub apply_remote_changes_batch-Extends :
      (undefined : V) (changes : List (ChangeRecord V)) (seq now : ℕ) (s : Storage V)
      → Extends s.outbox (apply_remote_changes_batch undefined changes seq now s).outbox
  unfolding apply_remote_changes_batch set_meta
  apply_remote_changes_batch-Extends undefined [] seq now s = Extends-refl s.outbox
  apply_remote_changes_batch-Extends undefined (c ∷ cs) seq now s =
      Extends-eq s.outbox _ (apply_batch_records-outbox _ seq now s)
