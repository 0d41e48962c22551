-- ===== src/Server/Memory/Apply/LastWriteWins.antt =====
-- Conflict resolution over a whole batch: what is stored never loses to what was stored before, nor
-- to any change of the batch.
use typescript_tetherdb.Base.{
  ℕ, ◌+◌, ◌≡◌, refl, sym, ◌∙◌, ap, subst, Text, text_key, same, eq_of_same, same_self, Bool, true,
  false, ◌&&◌, Option, none, some, List, [], ◌∷◌, ◌++◌, arith, inl, inr, Bool-cases, if◌then◌else◌,
}
use typescript_tetherdb.Base.Dict
use typescript_tetherdb.Base.Dict.{Dict, get-put}
use typescript_tetherdb.Shared.Clock.{Stamp, should_overwrite}
use typescript_tetherdb.Shared.Clock.Order.{Wins, Wins-refl, Wins-total, Wins-trans}
use typescript_tetherdb.Shared.Types.{ChangeRecord}
use typescript_tetherdb.Server.Errors.{ok, >>=-eq-ok, Result-cases}
use typescript_tetherdb.Server.Memory.{MemoryStorage}
use typescript_tetherdb.Server.Memory.Apply.{
  Staging, change_stamp, record_stamp, existing_stamp, target_map, put_target, stage_write,
  stage_in_table, stage_found, stage_change, stage_all,
}
use typescript_tetherdb.Server.Memory.Apply.Counting.{stage_in_table_inv}
use typescript_tetherdb.Server.Memory.Apply.Targets.{
  IsStaged, put_target-IsStaged, target_map-put_target,
}
use typescript_tetherdb.Server.Security.{InternalStoredRecord, InternalChangeRecord}
use typescript_tetherdb.Server.Storage.{create_applied_records}
use typescript_tetherdb.Server.Table.{Table}
use typescript_tetherdb.Server.User.{User}
use typescript_tetherdb.Server.Validate.{validate_table_name, validate_record_id}

-- The write `b`, if any, is not beaten by the write `a`, if any.
abbrev pub NotOlder : Option Stamp → Option Stamp → Type 0
NotOlder none b = Unit
NotOlder (some a) none = ⊥
NotOlder (some a) (some b) = Wins b a

pub NotOlder-refl : (a : Option Stamp) → NotOlder a a
NotOlder-refl none = tt
NotOlder-refl (some a) = Wins-refl a

pub NotOlder-trans : (a b c : Option Stamp) → NotOlder a b → NotOlder b c → NotOlder a c
NotOlder-trans none b c h k = tt
NotOlder-trans (some a) none c h k = absurd h
NotOlder-trans (some a) (some b) none h k = absurd k
NotOlder-trans (some a) (some b) (some c) h k = Wins-trans c b a k h

NotOlder-of_win : (a : Stamp) (b : Option Stamp) → should_overwrite a b ≡ true → NotOlder b (some a)
NotOlder-of_win a none h = tt
NotOlder-of_win a (some b) h = h

NotOlder-of_loss :
    (a : Stamp) (b : Option Stamp) → should_overwrite a b ≡ false → NotOlder (some a) b
unfolding should_overwrite
NotOlder-of_loss a none h = ground arith
NotOlder-of_loss a (some b) h = grind (arith, Wins-total a b)

validate_table_name_same : (name valid : Text) → validate_table_name name ≡ ok valid → valid ≡ name
unfolding validate_table_name
validate_table_name_same name valid h = ground arith

validate_record_id_same : (id valid : Text) → validate_record_id id ≡ ok valid → valid ≡ id
unfolding validate_record_id
validate_record_id_same id valid h = ground arith

module _ {V : Type 0} (null : V) (s : MemoryStorage V) (user : User) where
  -- The write stored for a record, as staging sees it.
  abbrev pub staged_stamp : Table V → Text → Text → Staging V → Option Stamp
  staged_stamp table name id g = existing_stamp (Dict.get id (target_map s user table name g))

  module _ (table : Table V) (name id : Text) (change : ChangeRecord V) (g : Staging V)
      (here : Dict.get name s.tables ≡ some table) where
    abbrev after : Staging V
    after =
        stage_write null s user table name id change (target_map s user table name g)
          (Dict.get id (target_map s user table name g)) g

    abbrev won : Bool
    won = should_overwrite (change_stamp change) (staged_stamp table name id g)

    after-IsStaged : IsStaged s.tables g → IsStaged s.tables after
    unfolding stage_write
    after-IsStaged v = elim (Bool-cases won) [
      | inl yes_won ↦ rw yes_won (
          put_target-IsStaged s user table name _ _ here (record {
            user_distinct = v.user_distinct;
            shared_distinct = v.shared_distinct;
            user_private = v.user_private;
            shared_public = v.shared_public;
          }))
      | inr lost ↦ rw lost (put_target-IsStaged s user table name _ g here v)
    ]

    abbrev winner : InternalStoredRecord V × InternalChangeRecord V
    winner =
        create_applied_records null change (Dict.get id (target_map s user table name g)) user
          (g.seq + 1)

    abbrev counted : Staging V
    counted = record g { seq = g.seq + 1; applied = g.applied ++ winner.1 ∷ [] }

    winner_stamp : record_stamp winner.0 ≡ change_stamp change
    unfolding create_applied_records
    winner_stamp = refl

    target-counted :
        (t : Table V) (n : Text) → target_map s user t n counted ≡ target_map s user t n g
    unfolding target_map
    target-counted t n = refl

    stamp-written :
        (t : Table V) (n i : Text)
        → Dict.get n s.tables ≡ some t
        → staged_stamp t n i
            (put_target table name (Dict.put id winner.0 (target_map s user table name g)) counted)
          ≡ (if same name n && same id i then some (change_stamp change) else staged_stamp t n i g)
    stamp-written t n i there = ground (
      arith,
      target_map-put_target s user table t name n
          (Dict.put id winner.0 (target_map s user table name g)) counted here there,
      target-counted t n,
      get-put id i winner.0 (target_map s user table name g),
      winner_stamp,
    )

    -- The stamp of each record after the write.
    stamp-after :
        (t : Table V) (n i : Text)
        → Dict.get n s.tables ≡ some t
        → staged_stamp t n i after ≡ (
            if same name n && (same id i && won)
            then some (change_stamp change)
            else staged_stamp t n i g)
    unfolding stage_write
    stamp-after t n i there = elim (Bool-cases won) [
      | inl yes_won ↦ rw yes_won (stamp-written t n i there ∙ ground arith)
      | inr lost ↦
          rw
            (
              lost,
              target_map-put_target s user table t name n (target_map s user table name g) g here
                  there,
            )
            (ground arith)
    ]

    NotOlder-after :
        (t : Table V) (n i : Text)
        → Dict.get n s.tables ≡ some t
        → NotOlder (staged_stamp t n i g) (staged_stamp t n i after)
    NotOlder-after t n i there = elim (Bool-cases (same name n && (same id i && won))) [
      | inl hit ↦
          let here_name : name ≡ n = eq_of_same name n (ground arith) in
          let here_id : id ≡ i = eq_of_same id i (ground arith) in
          let same_table : table ≡ t = ground arith in
          rw (stamp-after t n i there, hit)
            (subst (λ x. NotOlder x (some (change_stamp change)))
              (ap (λ x. staged_stamp x name id g) same_table
                ∙ ap (λ x. staged_stamp t x id g) here_name
                ∙ ap (λ x. staged_stamp t n x g) here_id)
              (NotOlder-of_win (change_stamp change) _ (ground arith)))
      | inr miss ↦ rw (stamp-after t n i there, miss) (NotOlder-refl (staged_stamp t n i g))
    ]

    settled-after : NotOlder (some (change_stamp change)) (staged_stamp table name id after)
    settled-after = elim (Bool-cases won) [
      | inl yes_won ↦
          rw (stamp-after table name id here, same_self name, same_self id, yes_won)
            (Wins-refl (change_stamp change))
      | inr lost ↦
          rw (stamp-after table name id here, same_self name, same_self id, lost)
            (NotOlder-of_loss (change_stamp change) _ lost)
    ]

  -- From `g` to `g'` no stored write was replaced by an older one.
  pub record Settles (g g' : Staging V) : Type 0 where
    pub staged : IsStaged s.tables g → IsStaged s.tables g'
    pub not_older :
        (t : Table V) (n i : Text)
        → Dict.get n s.tables ≡ some t
        → NotOlder (staged_stamp t n i g) (staged_stamp t n i g')

  Settles-refl : (g : Staging V) → Settles g g
  Settles-refl g = record {
    staged = λ v. v;
    not_older = λ t n i there. NotOlder-refl (staged_stamp t n i g);
  }

  Settles-trans : (f g h : Staging V) → Settles f g → Settles g h → Settles f h
  Settles-trans f g h a b = record {
    staged = λ v. b.staged (a.staged v);
    not_older = λ t n i there.
        NotOlder-trans (staged_stamp t n i f) (staged_stamp t n i g) (staged_stamp t n i h)
          (a.not_older t n i there) (b.not_older t n i there);
  }

  -- The change does not beat what is stored for its record.
  abbrev pub IsSettled : Staging V → ChangeRecord V → Type 0
  IsSettled g c =
      (t : Table V)
      → Dict.get c.table s.tables ≡ some t
      → NotOlder (some (change_stamp c)) (staged_stamp t c.table c.id g)

  abbrev pub AreSettled : Staging V → List (ChangeRecord V) → Type 0
  AreSettled g [] = Unit
  AreSettled g (c ∷ cs) = IsSettled g c × AreSettled g cs

  stage_in_table-Settles :
      (max_records : ℕ) (table : Table V) (name id : Text) (c : ChangeRecord V) (g g' : Staging V)
      → Dict.get name s.tables ≡ some table
      → stage_in_table null s user max_records table name id c g ≡ ok g'
      → Settles g g' × NotOlder (some (change_stamp c)) (staged_stamp table name id g')
  stage_in_table-Settles max_records table name id c g g' here h =
      let (_, _, _, done) = stage_in_table_inv null s user max_records table name id c g g' h in
      subst (λ x. Settles g x × NotOlder (some (change_stamp c)) (staged_stamp table name id x))
        done
        (
          record {
            staged = after-IsStaged table name id c g here;
            not_older = NotOlder-after table name id c g here;
          },
          settled-after table name id c g here,
        )

  stage_found-Settles :
      (max_records : ℕ) (found : Option (Table V)) (name id : Text) (c : ChangeRecord V)
      (g g' : Staging V)
      → found ≡ Dict.get name s.tables
      → stage_found null s user max_records found name id c g ≡ ok g'
      → Settles g g'
        × ((t : Table V)
            → Dict.get name s.tables ≡ some t
            → NotOlder (some (change_stamp c)) (staged_stamp t name id g'))
  unfolding stage_found
  stage_found-Settles max_records none name id c g g' e h =
      (subst (Settles g) (ground arith) (Settles-refl g), λ t there. absurd (ground arith))
  stage_found-Settles max_records (some table) name id c g g' e h =
      let (settles, settled) = stage_in_table-Settles max_records table name id c g g' (sym e) h in
      (
        settles,
        λ t there.
            subst (λ x. NotOlder (some (change_stamp c)) (staged_stamp x name id g')) (ground arith)
              settled,
      )

  stage_change-Settles :
      (max_records : ℕ) (c : ChangeRecord V) (g g' : Staging V)
      → stage_change null s user max_records c g ≡ ok g'
      → Settles g g' × IsSettled g' c
  unfolding stage_change
  stage_change-Settles max_records c g g' h =
      let (name, valid_name, rest) = >>=-eq-ok (validate_table_name c.table) _ h in
      let (id, valid_id, found) = >>=-eq-ok (validate_record_id c.id) _ rest in
      let same_name : name ≡ c.table = validate_table_name_same c.table name valid_name in
      let same_id : id ≡ c.id = validate_record_id_same c.id id valid_id in
      subst
        (λ x.
          Settles g g'
          × ((t : Table V)
              → Dict.get x s.tables ≡ some t
              → NotOlder (some (change_stamp c)) (staged_stamp t x c.id g')))
        same_name
        (subst
          (λ x.
            Settles g g'
            × ((t : Table V)
                → Dict.get name s.tables ≡ some t
                → NotOlder (some (change_stamp c)) (staged_stamp t name x g')))
          same_id
          (stage_found-Settles max_records (Dict.get name s.tables) name id c g g' refl found))

  AreSettled_later :
      (g g' : Staging V) (c : ChangeRecord V) → Settles g g' → IsSettled g c → IsSettled g' c
  AreSettled_later g g' c v settled t there =
      NotOlder-trans (some (change_stamp c)) (staged_stamp t c.table c.id g)
        (staged_stamp t c.table c.id g') (settled t there) (v.not_older t c.table c.id there)

  -- When every change of a batch is staged, no record has lost to what was stored for it before,
  -- and no change of the batch, in whichever order they came, beats what is now stored for its
  -- record.
  pub stage_all-Settles :
      (max_records : ℕ) (changes : List (ChangeRecord V)) (g g' : Staging V)
      → stage_all null s user max_records changes g ≡ (g', ok tt)
      → Settles g g' × AreSettled g' changes
  unfolding stage_all
  stage_all-Settles max_records [] g g' h =
      (subst (Settles g) (ap (λ x. x.0) h) (Settles-refl g), tt)
  stage_all-Settles max_records (c ∷ cs) g g' h =
      elim (Result-cases (stage_change null s user max_records c g)) [
        | inl (f, staged) ↦
            let (first, settled) = stage_change-Settles max_records c g f staged in
            let (rest, others) =
              stage_all-Settles max_records cs f g' (rw (staged, stage_all) at h) in
            (Settles-trans g f g' first rest, (AreSettled_later f g' c rest settled, others))
        | inr (e, failed) ↦ absurd (ground arith)
      ]
