-- ===== src/Client/Storage/Reading.antt =====
-- What a batch from the server has read before its first write.
use typescript_tetherdb.Base.{
  ◌≡◌, ◌≢◌, ◌⊎◌, ap₂, ◌||◌, ap₂, ◌||◌, refl, is_some, sym, Text, text_key, ℕ, Bool, true, false,
  Option, none, some, List, [], ◌∷◌, arith, same, same_self, Bool-cases, inl, inr, if◌then◌else◌,
  ◌&&◌, eq_of_same,
}
use typescript_tetherdb.Base.Dict
use typescript_tetherdb.Base.Dict.{Dict}
use typescript_tetherdb.Shared.Types.{StoredRecord, SnapshotRecord}
use typescript_tetherdb.Client.Storage.{Storage, batch_key, records_of, read_existing, set_existing}

-- A name that a colon does not stand in.
abbrev pub IsColonFree : Text → Type 0
IsColonFree [] = Unit
IsColonFree (c ∷ cs) = (c ≢ 58) × IsColonFree cs

head_eq : (c d : ℕ) (s t : Text) → ◌≡◌ {A = Text} (c ∷ s) (d ∷ t) → (c ≡ d) × (s ≡ t)
head_eq c d s t h = ground arith

batch_key-injective :
    (t u a b : Text)
    → IsColonFree t
    → IsColonFree u
    → batch_key t a ≡ batch_key u b
    → (t ≡ u) × (a ≡ b)
unfolding batch_key
batch_key-injective [] [] a b f g h = (refl, (head_eq 58 58 a b h).1)
batch_key-injective [] (d ∷ u) a b f g h = absurd (g.0 (sym (head_eq 58 d a _ h).0))
batch_key-injective (c ∷ t) [] a b f g h = absurd (f.0 (head_eq c 58 _ b h).0)
batch_key-injective (c ∷ t) (d ∷ u) a b f g h =
    let e = head_eq c d _ _ h in
    let (p, q) = batch_key-injective t u a b f.1 g.1 e.1 in (ap₂ (λ x xs. x ∷ xs) e.0 p, q)

module _ {V : Type 0} where
  abbrev pub AreColonFree : List (SnapshotRecord V) → Type 0
  AreColonFree [] = Unit
  AreColonFree (item ∷ items) = IsColonFree item.table × AreColonFree items

  -- Whether an item is about the record.
  abbrev pub is_about : Text → Text → SnapshotRecord V → Bool
  is_about table id item = same item.table table && same item.stored.id id

  abbrev pub mentions : Text → Text → List (SnapshotRecord V) → Bool
  mentions table id [] = false
  mentions table id (item ∷ items) = is_about table id item || mentions table id items

  unfoldable pub lookup : Text → Text → Storage V → Option (StoredRecord V)
  lookup table id s = Dict.get id (records_of table s)

  pub about :
      (table id : Text) (item : SnapshotRecord V)
      → is_about table id item ≡ true
      → (item.table ≡ table) × (item.stored.id ≡ id)
  about table id item a = ground arith

  -- What has been read of a record is what is stored.
  abbrev IsRead : Text → Text → Storage V → Dict Text (StoredRecord V) → Type 0
  IsRead table id s existing = Dict.get (batch_key table id) existing ≡ lookup table id s

  abbrev IsSound : Text → Text → Storage V → Dict Text (StoredRecord V) → Type 0
  IsSound table id s existing =
      (Dict.get (batch_key table id) existing ≡ none) ⊎ IsRead table id s existing

  pub set_existing-get :
      (key j : Text) (found : Option (StoredRecord V)) (existing : Dict Text (StoredRecord V))
      → Dict.get j (set_existing key found existing)
        ≡ (if same key j && is_some found then found else Dict.get j existing)
  set_existing-get key j none existing = ground arith
  set_existing-get key j (some r) existing = ground (arith, Dict.get-put key j r existing)

  set_existing-own :
      (table id : Text) (s : Storage V) (existing : Dict Text (StoredRecord V))
      → IsSound table id s existing
      → IsRead table id s (set_existing (batch_key table id) (lookup table id s) existing)
  set_existing-own table id s existing h = ground (
    arith,
    same_self (batch_key table id),
    set_existing-get (batch_key table id) (batch_key table id) (lookup table id s) existing,
  )

  -- Reading an item's record keeps what was read of this one.
  set_existing-IsRead :
      (table id : Text) (item : SnapshotRecord V) (s : Storage V)
      (existing : Dict Text (StoredRecord V))
      → IsColonFree table
      → IsColonFree item.table
      → IsRead table id s existing
      → IsRead table id s (
          set_existing
            (batch_key item.table item.stored.id)
            (lookup item.table item.stored.id s)
            existing)
  set_existing-IsRead table id item s existing f g h =
      let key = batch_key item.table item.stored.id in
      elim (Bool-cases (same key (batch_key table id))) [
        | inl e ↦
            let (p, q) =
              batch_key-injective item.table table item.stored.id id g f (eq_of_same _ _ e) in
            rw (p, q) (set_existing-own table id s existing (inr h))
        | inr n ↦ ground (
          arith,
          set_existing-get key (batch_key table id) (lookup item.table item.stored.id s) existing,
        )
      ]

  set_existing-IsSound :
      (table id : Text) (item : SnapshotRecord V) (s : Storage V)
      (existing : Dict Text (StoredRecord V))
      → IsColonFree table
      → IsColonFree item.table
      → IsSound table id s existing
      → IsSound table id s (
          set_existing
            (batch_key item.table item.stored.id)
            (lookup item.table item.stored.id s)
            existing)
  set_existing-IsSound table id item s existing f g h =
      let key = batch_key item.table item.stored.id in
      elim (Bool-cases (same key (batch_key table id))) [
        | inl e ↦
            let (p, q) =
              batch_key-injective item.table table item.stored.id id g f (eq_of_same _ _ e) in
            rw (p, q) (inr (set_existing-own table id s existing h))
        | inr n ↦ ground (
          arith,
          set_existing-get key (batch_key table id) (lookup item.table item.stored.id s) existing,
        )
      ]

  read_existing-IsRead :
      (table id : Text) (items : List (SnapshotRecord V)) (s : Storage V)
      (existing : Dict Text (StoredRecord V))
      → IsColonFree table
      → AreColonFree items
      → IsRead table id s existing
      → IsRead table id s (read_existing s items existing)
  unfolding read_existing lookup
  read_existing-IsRead table id [] s existing f g h = h
  read_existing-IsRead table id (item ∷ items) s existing f g h =
      read_existing-IsRead table id items s _ f g.1
        (set_existing-IsRead table id item s existing f g.0 h)

  -- Every record that the batch is about has been read.
  pub read_existing-mentioned :
      (table id : Text) (items : List (SnapshotRecord V)) (s : Storage V)
      (existing : Dict Text (StoredRecord V))
      → IsColonFree table
      → AreColonFree items
      → IsSound table id s existing
      → mentions table id items ≡ true
      → IsRead table id s (read_existing s items existing)
  unfolding read_existing lookup
  read_existing-mentioned table id [] s existing f g h k = ground arith
  read_existing-mentioned table id (item ∷ items) s existing f g h k =
      elim (Bool-cases (is_about table id item)) [
        | inl a ↦
            let (p, q) = about table id item a in
            read_existing-IsRead table id items s _ f g.1
              (rw (p, q) (set_existing-own table id s existing h))
        | inr n ↦
            read_existing-mentioned table id items s _ f g.1
              (set_existing-IsSound table id item s existing f g.0 h) (ground arith)
      ]
