-- ===== src/Client/Sync/Kept.antt =====
-- No local change is lost by src/src/client/sync/sync.ts: it is in the outbox until a batch that it was
-- sent in is acknowledged.
use typescript_tetherdb.Base.{
  ℕ, suc, ◌≤◌, ◌≡◌, ◌⊎◌, inl, inr, refl, sym, ap, subst, Text, text_key, nat_key, some, List, [],
  ◌∷◌, arith, same, same_self, eq_of_same, Bool-cases, take, zero,
}
use typescript_tetherdb.Base.Dict
use typescript_tetherdb.Base.Dict.{Dict}
use typescript_tetherdb.Client.ObjectStore
use typescript_tetherdb.Client.ObjectStore.{Sequence, Ascending, IsOrdered, remove-IsOrdered}
use typescript_tetherdb.Client.Storage.{OutboxEntry, remove_each}
use typescript_tetherdb.Client.Sync.{Sync, changes_of, is_pushed, pushed}
use typescript_tetherdb.Client.Sync.Outbox.{IsLater-refl, IsLater-trans, IsLater}
use typescript_tetherdb.Shared.Types.{ChangeRecord}
use typescript_tetherdb.Shared.Messages.{ClientMessage, ChangeBatchClientMessage, change_batch}

module _ {V : Type 0} where
  abbrev pub IsIn : ChangeRecord V → List (ChangeRecord V) → Type 0
  IsIn c [] = ⊥
  IsIn c (x ∷ xs) = (x ≡ c) ⊎ IsIn c xs

  -- Whether a message is a batch of that id with the change.
  abbrev pub CarriesIn : Text → ChangeRecord V → ClientMessage V → Type 0
  CarriesIn batch_id c (change_batch m) = (m.batch_id ≡ batch_id) × IsIn c m.changes
  CarriesIn batch_id c _ = ⊥

  -- The change went to the server in a batch of that id.
  abbrev pub WasSentIn : Text → ChangeRecord V → List (ClientMessage V) → Type 0
  WasSentIn batch_id c [] = ⊥
  WasSentIn batch_id c (message ∷ sent) = CarriesIn batch_id c message ⊎ WasSentIn batch_id c sent

  -- What was read of the outbox still holds: the entry of that key is that one, or it is gone.
  abbrev pub IsCurrent : Sequence (OutboxEntry V) → ℕ → OutboxEntry V → Type 0
  IsCurrent q id e =
      (suc id ≤ q.next_key) × ((x : OutboxEntry V) → Dict.get id q.entries ≡ some x → x ≡ e)

  abbrev pub AreCurrent : Sequence (OutboxEntry V) → List (ℕ × OutboxEntry V) → Type 0
  AreCurrent q [] = Unit
  AreCurrent q ((id, e) ∷ entries) = IsCurrent q id e × AreCurrent q entries

  -- The entries of a pending batch, as far as they are still there, went out in it.
  abbrev pub IsOut : Sequence (OutboxEntry V) → Text → List (ClientMessage V) → ℕ → Type 0
  IsOut q batch_id sent id =
      (suc id ≤ q.next_key)
      × ((x : OutboxEntry V) → Dict.get id q.entries ≡ some x → WasSentIn batch_id x.change sent)

  abbrev pub AreOut : Sequence (OutboxEntry V) → Text → List (ClientMessage V) → List ℕ → Type 0
  AreOut q batch_id sent [] = Unit
  AreOut q batch_id sent (id ∷ ids) = IsOut q batch_id sent id × AreOut q batch_id sent ids

  pub AreCurrent-later :
      (q q' : Sequence (OutboxEntry V)) (entries : List (ℕ × OutboxEntry V))
      → IsLater q q'
      → AreCurrent q entries
      → AreCurrent q' entries
  AreCurrent-later q q' [] l h = tt
  AreCurrent-later q q' ((id, e) ∷ entries) l h = (
    (omega (arith, l.0, h.0.0), λ x g. h.0.1 x (l.1 id x h.0.0 g)),
    AreCurrent-later q q' entries l h.1,
  )

  pub AreOut-later :
      (q q' : Sequence (OutboxEntry V)) (batch_id : Text) (sent sent' : List (ClientMessage V))
      (ids : List ℕ)
      → IsLater q q'
      → ((c : ChangeRecord V) → WasSentIn batch_id c sent → WasSentIn batch_id c sent')
      → AreOut q batch_id sent ids
      → AreOut q' batch_id sent' ids
  AreOut-later q q' batch_id sent sent' [] l m h = tt
  AreOut-later q q' batch_id sent sent' (id ∷ ids) l m h = (
    (omega (arith, l.0, h.0.0), λ x g. m x.change (h.0.1 x (l.1 id x h.0.0 g))),
    AreOut-later q q' batch_id sent sent' ids l m h.1,
  )

  Ascending-le : (lo hi : ℕ) (m : Dict ℕ (OutboxEntry V)) → Ascending lo hi m → lo ≤ hi
  Ascending-le lo hi [] a = a
  Ascending-le lo hi ((j, e) ∷ m) a = omega (arith, a.0, Ascending-le (suc j) hi m a.1)

  -- The first entries, over a part of the outbox.
  pub take-AreCurrent :
      (n lo : ℕ) (q : Sequence (OutboxEntry V)) (m : Dict ℕ (OutboxEntry V))
      → Ascending lo q.next_key m
      → ((id : ℕ) → lo ≤ id → Dict.get id q.entries ≡ Dict.get id m)
      → AreCurrent q (take n m)
  unfolding Dict.get
  take-AreCurrent zero lo q m a h = tt
  take-AreCurrent (suc n) lo q [] a h = tt
  take-AreCurrent (suc n) lo q ((j, e) ∷ m) a h = (
    (Ascending-le (suc j) q.next_key m a.1, λ x g. ground (arith, h j a.0, same_self j, g)),
    take-AreCurrent n (suc j) q m a.1 (λ id l. ground (arith, h id (omega (arith, a.0, l)))),
  )

  pub pushed-AreCurrent :
      (s : Sync V) (q : Sequence (OutboxEntry V)) (entries : List (ℕ × OutboxEntry V))
      → AreCurrent q entries
      → AreCurrent q (pushed s entries)
  unfolding pushed
  pushed-AreCurrent s q [] h = tt
  pushed-AreCurrent s q ((id, e) ∷ entries) h = elim (Bool-cases (is_pushed s e)) [
    | inl p ↦ rw p (h.0, pushed-AreCurrent s q entries h.1)
    | inr p ↦ rw p (pushed-AreCurrent s q entries h.1)
  ]

  -- The entries of a batch that is sent are out.
  pub sent-AreOut :
      (q : Sequence (OutboxEntry V)) (m : ChangeBatchClientMessage V)
      (sent : List (ClientMessage V)) (entries : List (ℕ × OutboxEntry V))
      → ((c : ChangeRecord V) → IsIn c (changes_of entries) → IsIn c m.changes)
      → AreCurrent q entries
      → AreOut q m.batch_id (change_batch m ∷ sent) (Dict.keys entries)
  sent-AreOut q m sent [] i h = tt
  sent-AreOut q m sent ((id, e) ∷ entries) i h = (
    (h.0.0, λ x g. inl (refl, i x.change (inl (ap (λ y. y.change) (sym (h.0.1 x g)))))),
    sent-AreOut q m sent entries (λ c k. i c (inr k)) h.1,
  )

  remove-IsLater : (i : ℕ) (q : Sequence (OutboxEntry V)) → IsLater q (ObjectStore.remove i q)
  unfolding ObjectStore.remove
  remove-IsLater i q = (omega arith, λ id x l h. ground (arith, Dict.get-delete i id q.entries, h))

  pub remove_each-IsLater :
      (ids : List ℕ) (q : Sequence (OutboxEntry V)) → IsLater q (remove_each ids q)
  unfolding remove_each
  remove_each-IsLater [] q = IsLater-refl q
  remove_each-IsLater (i ∷ ids) q =
      IsLater-trans q (ObjectStore.remove i q) (remove_each ids (ObjectStore.remove i q))
        (remove-IsLater i q) (remove_each-IsLater ids (ObjectStore.remove i q))

  pub remove_each-IsOrdered :
      (ids : List ℕ) (q : Sequence (OutboxEntry V)) → IsOrdered q → IsOrdered (remove_each ids q)
  unfolding remove_each
  remove_each-IsOrdered [] q o = o
  remove_each-IsOrdered (i ∷ ids) q o =
      remove_each-IsOrdered ids (ObjectStore.remove i q) (remove-IsOrdered i q o)

  -- Removing entries that are out loses nothing that did not go out.
  pub remove_each-KeptOrOut :
      (ids : List ℕ) (q : Sequence (OutboxEntry V)) (batch_id : Text)
      (sent : List (ClientMessage V)) (id : ℕ) (e : OutboxEntry V)
      → AreOut q batch_id sent ids
      → Dict.get id q.entries ≡ some e
      → (Dict.get id (remove_each ids q).entries ≡ some e) ⊎ WasSentIn batch_id e.change sent
  unfolding remove_each ObjectStore.remove
  remove_each-KeptOrOut [] q batch_id sent id e h g = inl g
  remove_each-KeptOrOut (i ∷ ids) q batch_id sent id e h g =
      let q' = ObjectStore.remove i q in
      elim (Bool-cases (same i id)) [
        | inl hit ↦
            inr (h.0.1 e (subst (λ j. Dict.get j q.entries ≡ some e) (sym (eq_of_same i id hit)) g))
        | inr miss ↦
            remove_each-KeptOrOut ids q' batch_id sent id e
              (AreOut-later q q' batch_id sent sent ids (remove-IsLater i q) (λ c k. k) h.1)
              (ground (arith, Dict.get-delete i id q.entries, g))
      ]
