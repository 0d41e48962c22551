-- ===== src/Server/Memory/History/Buried.antt =====
-- What the loops of `deleteUser` in src/server/storage/memory.ts do to the tables and to the log, told
-- without the state that they carry.
use typescript_tetherdb.Base.{
  ℕ, suc, Bool, not, ◌&&◌, Option, none, some, ◌+◌, ◌≡◌, refl, sym, ◌∙◌, ap, subst, Text, text_key,
  same, true, false, length, length-append, ap₂, List, [], ◌∷◌, ◌++◌, arith, inl, inr, Bool-cases,
  if◌then◌else◌,
}
use mathlib.Core.List.{append_assoc, append-nil}
use typescript_tetherdb.Base.Dict
use typescript_tetherdb.Base.Dict.{Dict, get-delete}
use typescript_tetherdb.Server.Memory.{Records}
use typescript_tetherdb.Server.Memory.Apply.Log.{Ascending}
use typescript_tetherdb.Server.Memory.Users.{
  Burial, owned_live, tombstone, bury_records, bury_tables,
}
use typescript_tetherdb.Server.Security.{InternalChangeRecord, InternalStoredRecord}
use typescript_tetherdb.Server.Filter.Audience.{is_by}
use typescript_tetherdb.Shared.Types.{OperationType}

live_of_author :
    (id : Text) (author : Option Text) (gone : Bool)
    → (elim author [ none ↦ false | some a ↦ same a id ] && not gone)
      ≡ (if gone then false else is_by id author)
live_of_author id none true = refl
live_of_author id none false = refl
live_of_author id (some a) true = ground arith
live_of_author id (some a) false = ground arith

module _ {V : Type 0} where
  -- A live record of the account.
  abbrev pub is_live_of : Text → InternalStoredRecord V → Bool
  is_live_of id rec = if rec.deleted then false else is_by id rec.user_id

  -- Those of a table, each with the table's name and its own id, in their order.
  abbrev pub owned_in : Text → Text → Records V → List (Text × Text × InternalStoredRecord V)
  owned_in id table [] = []
  owned_in id table ((i, rec) ∷ rest) =
      if is_live_of id rec then (table, i, rec) ∷ owned_in id table rest else owned_in id table rest

  abbrev pub owned_records :
      Text → Dict Text (Records V) → List (Text × Text × InternalStoredRecord V)
  owned_records id [] = []
  owned_records id ((table, records) ∷ rest) = owned_in id table records ++ owned_records id rest

  abbrev pub deletion : Text → ℕ → ℕ → Text → Text → InternalStoredRecord V → InternalChangeRecord V
  deletion id now seq table i rec = record {
    table = table;
    id = i;
    op = OperationType.delete;
    payload = none;
    version = some (rec.version + 1);
    seq = seq;
    timestamp = now;
    client_id = rec.client_id;
    user_id = some id;
  }

  -- Their deletions, under the numbers that follow.
  abbrev pub deletions :
      Text → ℕ → ℕ → List (Text × Text × InternalStoredRecord V) → List (InternalChangeRecord V)
  deletions id now seq [] = []
  deletions id now seq ((table, i, rec) ∷ rest) =
      deletion id now (seq + 1) table i rec ∷ deletions id now (seq + 1) rest

  -- A live record of the account, one version on, is marked as deleted and loses its payload.
  abbrev pub buried : V → Text → ℕ → InternalStoredRecord V → InternalStoredRecord V
  buried null id now rec =
      if is_live_of id rec
      then record rec { version = rec.version + 1; timestamp = now; deleted = true; payload = null }
      else rec

  owned_live_lem :
      (null : V) (id : Text) (now : ℕ) (rec : InternalStoredRecord V)
      → owned_live null id now rec ≡ is_live_of id rec
  owned_live_lem null id now rec = live_of_author id rec.user_id rec.deleted

  deletions-append :
      (id : Text) (now seq : ℕ) (xs ys : List (Text × Text × InternalStoredRecord V))
      → deletions id now seq (xs ++ ys)
        ≡ deletions id now seq xs ++ deletions id now (seq + length xs) ys
  deletions-append id now seq [] ys =
      ap (λ n. deletions id now n ys) (let e : seq ≡ seq + 0 = omega arith in e)
  deletions-append id now seq ((table, i, rec) ∷ xs) ys =
      let shift : (seq + 1) + length xs ≡ seq + suc (length xs) = omega arith in
      ap (λ cs. deletion id now (seq + 1) table i rec ∷ cs)
        (deletions-append id now (seq + 1) xs ys
          ∙ ap (λ n. deletions id now (seq + 1) xs ++ deletions id now n ys) shift)

  pub deletions-Ascending :
      (id : Text) (now seq : ℕ) (xs : List (Text × Text × InternalStoredRecord V))
      → Ascending seq (seq + length xs) (deletions id now seq xs)
  deletions-Ascending id now seq [] = omega arith
  deletions-Ascending id now seq ((table, i, rec) ∷ xs) = (
    omega arith,
    subst (λ n. Ascending (seq + 1) n (deletions id now (seq + 1) xs)) (omega arith)
        (deletions-Ascending id now (seq + 1) xs),
  )

  -- The loops log the deletions of what they are given and bury it.
  pub record Buries (id : Text) (now : ℕ) (owned : List (Text × Text × InternalStoredRecord V))
      (b b' : Burial V) : Type 0 where
    pub seq : b'.seq ≡ b.seq + length owned
    pub log : b'.log ≡ b.log ++ deletions id now b.seq owned

  Buries-refl : (id : Text) (now : ℕ) (b : Burial V) → Buries id now [] b b
  Buries-refl id now b = record { seq = omega arith; log = sym (append-nil b.log) }

  Buries-trans :
      (id : Text) (now : ℕ) (xs ys : List (Text × Text × InternalStoredRecord V)) (a b c : Burial V)
      → Buries id now xs a b
      → Buries id now ys b c
      → Buries id now (xs ++ ys) a c
  Buries-trans id now xs ys a b c x y = record {
    seq = omega (arith, x.seq, y.seq, length-append xs ys);
    log =
        y.log
        ∙ ap₂ (λ l n. l ++ deletions id now n ys) x.log x.seq
        ∙ append_assoc a.log (deletions id now a.seq xs) (deletions id now (a.seq + length xs) ys)
        ∙ ap (λ l. a.log ++ l) (sym (deletions-append id now a.seq xs ys));
  }

  module _ (null : V) (id : Text) (now : ℕ) where
    bury_records-Buries :
        (table : Text) (records : Records V) (b : Burial V)
        → Buries id now (owned_in id table records) b (bury_records null id now table records b).1
    unfolding bury_records
    bury_records-Buries table [] b = Buries-refl id now b
    bury_records-Buries table ((i, rec) ∷ rest) b = elim (Bool-cases (is_live_of id rec)) [
      | inr spared ↦ rw (owned_live_lem null id now rec, spared) (bury_records-Buries table rest b)
      | inl hit ↦
          rw (owned_live_lem null id now rec, hit)
            (Buries-trans id now ((table, i, rec) ∷ []) (owned_in id table rest) b _ _
              (record { seq = refl; log = refl }) (bury_records-Buries table rest _))
    ]

    pub bury_tables-Buries :
        (tables : Dict Text (Records V)) (b : Burial V)
        → Buries id now (owned_records id tables) b (bury_tables null id now tables b).1
    unfolding bury_tables
    bury_tables-Buries [] b = Buries-refl id now b
    bury_tables-Buries ((table, records) ∷ rest) b =
        Buries-trans id now (owned_in id table records) (owned_records id rest) b _ _
          (bury_records-Buries table records b) (bury_tables-Buries rest _)

    bury_records-buried :
        (table : Text) (records : Records V) (b : Burial V)
        → (bury_records null id now table records b).0
          ≡ Dict.map_values (buried null id now) records
    unfolding bury_records Dict.map_values
    bury_records-buried table [] b = refl
    bury_records-buried table ((i, rec) ∷ rest) b =
        ap₂ (λ r l. (i, r) ∷ l)
          (ap (λ hit. if hit then tombstone null id now rec else rec)
            (owned_live_lem null id now rec))
          (bury_records-buried table rest _)

    pub bury_tables-buried :
        (tables : Dict Text (Records V)) (b : Burial V)
        → (bury_tables null id now tables b).0
          ≡ Dict.map_values (Dict.map_values (buried null id now)) tables
    unfolding bury_tables Dict.map_values
    bury_tables-buried [] b = refl
    bury_tables-buried ((table, records) ∷ rest) b =
        ap₂ (λ r l. (table, r) ∷ l) (bury_records-buried table records b)
          (bury_tables-buried rest _)
