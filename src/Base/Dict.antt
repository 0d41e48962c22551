-- ===== src/Base/Dict.antt =====
-- JavaScript's `Map`, as the list of its entries in insertion order. Its operations are the
-- language's: a write to a present key keeps the key's place, a new key goes to the end.
use Prim.Native.Nat.{◌+◌, ◌≤◌, ◌<◌}
use mathlib.Core.Bool.{Bool, true}
use mathlib.Core.List.{List, [], ◌∷◌}
use mathlib.Core.Option
use mathlib.Core.Option.{Option, none, some}
use mathlib.Core.Path.{◌≡◌, refl}
use native.Mathlib.Omega.{arith}
use typescript_tetherdb.Base.Lists.{length}
use mathlib.Core.Logic.{inl, inr}
use typescript_tetherdb.Base.Tests.{if◌then◌else◌, is_some, Bool-cases}
use typescript_tetherdb.Base.Strings.{Key, same}

abbrev pub Dict {ℓ κ} : Type ℓ → Type κ → Type (ℓ ⊔ κ)
Dict K V = List (K × V)

module _ {ℓ κ} {K : Type ℓ} {V : Type κ} where
  abbrev pub keys : Dict K V → List K
  keys [] = []
  keys ((j, w) ∷ m) = j ∷ keys m

  abbrev pub values : Dict K V → List V
  values [] = []
  values ((j, w) ∷ m) = w ∷ values m

  -- The entries that a loop over `entries()` keeps.
  unfoldable pub retain : (K → V → Bool) → Dict K V → Dict K V
  retain p [] = []
  retain p ((j, w) ∷ m) = let rest = retain p m in if p j w then (j, w) ∷ rest else rest

  pub size-retain-le : (p : K → V → Bool) (m : Dict K V) → length (retain p m) ≤ length m
  unfolding retain
  size-retain-le p [] = omega arith
  size-retain-le p ((j, w) ∷ m) = ground (arith, size-retain-le p m)

-- A loop over `values()` that changes each value in place.
unfoldable pub map_values {ℓ κ μ} :
    {K : Type ℓ} {V : Type κ} {W : Type μ} → (V → W) → Dict K V → Dict K W
map_values f [] = []
map_values f ((j, w) ∷ m) = (j, f w) ∷ map_values f m

module _ {ℓ κ} {K : Type ℓ} {V : Type κ} ⦃e : Key K⦄ where
  unfoldable pub get : K → Dict K V → Option V
  get k [] = none
  get k ((j, w) ∷ m) = if same j k then some w else get k m

  abbrev pub has : K → Dict K V → Bool
  has k m = is_some (get k m)

  unfoldable pub put : K → V → Dict K V → Dict K V
  put k v [] = (k, v) ∷ []
  put k v ((j, w) ∷ m) = if same j k then (j, v) ∷ m else (j, w) ∷ put k v m

  unfoldable pub delete : K → Dict K V → Dict K V
  delete k [] = []
  delete k ((j, w) ∷ m) = let rest = delete k m in if same j k then rest else (j, w) ∷ rest

  pub get-put :
      (k j : K) (v : V) (m : Dict K V) → get j (put k v m) ≡ (if same k j then some v else get j m)
  unfolding get put
  get-put k j v [] = refl
  get-put k j v ((i, w) ∷ m) = ground (arith, get-put k j v m)

  pub get-delete :
      (k j : K) (m : Dict K V) → get j (delete k m) ≡ (if same k j then none else get j m)
  unfolding get delete
  get-delete k j [] = ground arith
  get-delete k j ((i, w) ∷ m) = ground (arith, get-delete k j m)

  pub size-put :
      (k : K) (v : V) (m : Dict K V)
      → length (put k v m) ≡ (if has k m then length m else length m + 1)
  unfolding get put
  size-put k v [] = refl
  size-put k v ((i, w) ∷ m) = ground (arith, size-put k v m)

  pub size-delete-le : (k : K) (m : Dict K V) → length (delete k m) ≤ length m
  unfolding delete
  size-delete-le k [] = omega arith
  size-delete-le k ((i, w) ∷ m) = ground (arith, size-delete-le k m)

  pub size-delete-lt : (k : K) (m : Dict K V) → has k m ≡ true → length (delete k m) < length m
  unfolding get delete
  size-delete-lt k [] h = ground arith
  size-delete-lt k ((i, w) ∷ m) h = ground (arith, size-delete-lt k m, size-delete-le k m)

  -- No key stands twice.
  abbrev pub HasDistinctKeys : Dict K V → Type κ
  HasDistinctKeys [] = Unit
  HasDistinctKeys ((j, w) ∷ m) = (get j m ≡ none) × HasDistinctKeys m

  pub get-retain :
      (p : K → V → Bool) (k : K) (m : Dict K V)
      → HasDistinctKeys m
      → get k (retain p m)
        ≡ elim (get k m) [ none ↦ none | some v ↦ if p k v then some v else none ]
  unfolding get retain
  get-retain p k [] d = refl
  get-retain p k ((i, w) ∷ m) d = ground (arith, get-retain p k m d.1)

  pub put-HasDistinctKeys :
      (k : K) (v : V) (m : Dict K V) → HasDistinctKeys m → HasDistinctKeys (put k v m)
  unfolding get put
  put-HasDistinctKeys k v [] d = (refl, tt)
  put-HasDistinctKeys k v ((i, w) ∷ m) d = elim (Bool-cases (same i k)) [
    | inl q ↦ rw q d
    | inr q ↦ rw q (ground (arith, get-put k i v m), put-HasDistinctKeys k v m d.1)
  ]

  pub delete-HasDistinctKeys :
      (k : K) (m : Dict K V) → HasDistinctKeys m → HasDistinctKeys (delete k m)
  unfolding get delete
  delete-HasDistinctKeys k [] d = d
  delete-HasDistinctKeys k ((i, w) ∷ m) d = elim (Bool-cases (same i k)) [
    | inl q ↦ rw q (delete-HasDistinctKeys k m d.1)
    | inr q ↦ rw q (ground (arith, get-delete k i m), delete-HasDistinctKeys k m d.1)
  ]

  pub retain-HasDistinctKeys :
      (p : K → V → Bool) (m : Dict K V) → HasDistinctKeys m → HasDistinctKeys (retain p m)
  unfolding get retain
  retain-HasDistinctKeys p [] d = d
  retain-HasDistinctKeys p ((i, w) ∷ m) d = elim (Bool-cases (p i w)) [
    | inl q ↦ rw q (ground (arith, get-retain p i m d.1), retain-HasDistinctKeys p m d.1)
    | inr q ↦ rw q (retain-HasDistinctKeys p m d.1)
  ]

pub get-map_values {ℓ κ μ} :
    {K : Type ℓ} {V : Type κ} {W : Type μ} ⦃e : Key K⦄ (f : V → W) (k : K) (m : Dict K V)
    → get k (map_values f m) ≡ Option.map f (get k m)
unfolding get map_values
get-map_values f k [] = refl
get-map_values f k ((i, w) ∷ m) = ground (arith, get-map_values f k m)
