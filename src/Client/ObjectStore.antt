-- ===== src/Client/ObjectStore.antt =====
-- The browser's object stores. A store keeps its entries in the order of their keys: strings by code
-- units, and the numbers that `autoIncrement` gives out by size. Its reads and deletions are those of
-- the list of entries.
use typescript_tetherdb.Base.{
  ℕ, suc, ◌+◌, ◌≤◌, ◌≡◌, refl, Text, text_key, nat_key, same, text_le, some, [], ◌∷◌, ◌++◌, arith,
  if◌then◌else◌, Bool-cases, inl, inr,
}
use typescript_tetherdb.Base.Dict
use typescript_tetherdb.Base.Dict.{Dict}

module _ {ℓ} {V : Type ℓ} where
  -- `store.put(value)` under its `keyPath`.
  unfoldable pub put : Text → V → Dict Text V → Dict Text V
  put k v [] = (k, v) ∷ []
  put k v ((j, w) ∷ m) =
      let rest = put k v m in
      if same j k then (k, v) ∷ m else if text_le k j then (k, v) ∷ (j, w) ∷ m else (j, w) ∷ rest

  pub get-put :
      (k j : Text) (v : V) (m : Dict Text V)
      → Dict.get j (put k v m) ≡ (if same k j then some v else Dict.get j m)
  unfolding Dict.get put
  get-put k j v [] = refl
  get-put k j v ((i, w) ∷ m) = ground (arith, get-put k j v m)

-- A store with `autoIncrement`: its entries, and the next key.
pub record Sequence {ℓ} (V : Type ℓ) : Type ℓ where
  pub next_key : ℕ
  pub entries : Dict ℕ V

module _ {ℓ} {V : Type ℓ} where
  abbrev pub empty : Sequence V
  empty = record { next_key = 1; entries = [] }

  -- `store.add(value)`
  unfoldable pub add : V → Sequence V → Sequence V
  add v s = record { next_key = s.next_key + 1; entries = s.entries ++ (s.next_key, v) ∷ [] }

  unfoldable pub remove : ℕ → Sequence V → Sequence V
  remove k s = record s { entries = Dict.delete k s.entries }

  -- `store.clear()` does not take keys back.
  unfoldable pub clear : Sequence V → Sequence V
  clear s = record s { entries = [] }

  -- Keys ascend from `lo` and stay below `hi`.
  abbrev pub Ascending : ℕ → ℕ → Dict ℕ V → Type 0
  Ascending lo hi [] = lo ≤ hi
  Ascending lo hi ((k, v) ∷ m) = (lo ≤ k) × Ascending (suc k) hi m

  abbrev pub IsOrdered : Sequence V → Type 0
  IsOrdered s = Ascending 0 s.next_key s.entries

  Ascending-lower :
      (lo lo' hi : ℕ) (m : Dict ℕ V) → lo ≤ lo' → Ascending lo' hi m → Ascending lo hi m
  Ascending-lower lo lo' hi [] h a = omega arith
  Ascending-lower lo lo' hi ((k, v) ∷ m) h a = (omega arith, a.1)

  Ascending-add :
      (lo hi : ℕ) (v : V) (m : Dict ℕ V)
      → Ascending lo hi m
      → Ascending lo (hi + 1) (m ++ (hi, v) ∷ [])
  Ascending-add lo hi v [] a = (a, omega arith)
  Ascending-add lo hi v ((k, w) ∷ m) a = (a.0, Ascending-add (suc k) hi v m a.1)

  pub add-IsOrdered : (v : V) (s : Sequence V) → IsOrdered s → IsOrdered (add v s)
  unfolding add
  add-IsOrdered v s a = Ascending-add 0 s.next_key v s.entries a

  Ascending-delete :
      (j lo hi : ℕ) (m : Dict ℕ V) → Ascending lo hi m → Ascending lo hi (Dict.delete j m)
  unfolding Dict.delete
  Ascending-delete j lo hi [] a = a
  Ascending-delete j lo hi ((k, w) ∷ m) a = elim (Bool-cases (same k j)) [
    | inl hit ↦ rw hit (
        Ascending-lower lo (suc k) hi (Dict.delete j m) (omega arith)
          (Ascending-delete j (suc k) hi m a.1))
    | inr miss ↦ rw miss (a.0, Ascending-delete j (suc k) hi m a.1)
  ]

  pub remove-IsOrdered : (k : ℕ) (s : Sequence V) → IsOrdered s → IsOrdered (remove k s)
  unfolding remove
  remove-IsOrdered k s a = Ascending-delete k 0 s.next_key s.entries a
