-- ===== src/Server/Memory/Apply/Counting.antt =====
-- What staging does to the counter and to the entries.
use mathlib.Core.List.{append-nil, append_assoc}
use typescript_tetherdb.Base.{
  ℕ, ◌+◌, ◌≡◌, sym, Text, text_key, true, Option, none, some, List, [], ◌∷◌, ◌++◌, arith, length,
  length-append, subst, inl, inr, Bool-cases,
}
use typescript_tetherdb.Base.Dict
use typescript_tetherdb.Server.Errors.{
  Result, ok, ◌>>◌, >>=-eq-ok, >>-eq-ok, require-eq-ok, Result-cases, require, forbidden,
  limit_exceeded,
}
use typescript_tetherdb.Server.Memory.{MemoryStorage, Records}
use typescript_tetherdb.Server.Memory.Apply.{
  Staging, put_target, target_map, stage_write, stage_in_table, stage_found, stage_change,
  stage_all, change_stamp, existing_stamp, may_enter, has_room,
}
use typescript_tetherdb.Server.Memory.Apply.Log.{Ascending, Ascending-append}
use typescript_tetherdb.Server.Security.{InternalStoredRecord, InternalChangeRecord}
use typescript_tetherdb.Server.Storage.{create_applied_records}
use typescript_tetherdb.Server.Table.{Table, assert_can_apply_change}
use typescript_tetherdb.Server.User.{User}
use typescript_tetherdb.Server.Validate.{validate_table_name, validate_record_id}
use typescript_tetherdb.Shared.Clock.{should_overwrite}
use typescript_tetherdb.Shared.Types.{ChangeRecord}

-- From `g` to `g'` the entries `added` were appended, and they took the next numbers one by one.
pub record Advances {V : Type 0} (g g' : Staging V) : Type 0 where
  pub added : List (InternalChangeRecord V)
  pub applied : g'.applied ≡ g.applied ++ added
  pub ascending : Ascending g.seq g'.seq added
  pub counted : g'.seq ≡ g.seq + length added

module _ {V : Type 0} where
  pub Advances-refl : (g : Staging V) → Advances g g
  Advances-refl g = record {
    added = [];
    applied = sym (append-nil g.applied);
    ascending = omega arith;
    counted = omega arith;
  }

  pub Advances-trans : (f g h : Staging V) → Advances f g → Advances g h → Advances f h
  Advances-trans f g h a b = record {
    added = a.added ++ b.added;
    applied = rw (b.applied, a.applied) (append_assoc f.applied a.added b.added);
    ascending = Ascending-append f.seq g.seq h.seq a.added b.added a.ascending b.ascending;
    counted = omega (arith, length-append a.added b.added, a.counted, b.counted);
  }

  module _ (null : V) (s : MemoryStorage V) (user : User) where
    stage_write-Advances :
        (table : Table V) (name id : Text) (change : ChangeRecord V) (target : Records V)
        (existing : Option (InternalStoredRecord V)) (g : Staging V)
        → Advances g (stage_write null s user table name id change target existing g)
    unfolding stage_write put_target create_applied_records
    stage_write-Advances table name id change target existing g =
        elim (Bool-cases (should_overwrite (change_stamp change) (existing_stamp existing))) [
          | inl won ↦ record {
            added = (create_applied_records null change existing user (g.seq + 1)).1 ∷ [];
            applied = ground arith;
            ascending = ground arith;
            counted = ground arith;
          }
          | inr lost ↦ record {
            added = [];
            applied = ground (arith, append-nil g.applied);
            ascending = ground arith;
            counted = ground arith;
          }
        ]

    -- A change that is not refused has passed its three tests, and is written.
    pub stage_in_table_inv :
        (max_records : ℕ) (table : Table V) (name id : Text) (change : ChangeRecord V)
        (g g' : Staging V)
        → stage_in_table null s user max_records table name id change g ≡ ok g'
        → (may_enter user table ≡ true)
          × (assert_can_apply_change table user change.op
                (Dict.get id (target_map s user table name g))
              ≡ ok tt)
          × (has_room max_records table change
                (target_map s user table name g)
                (Dict.get id (target_map s user table name g))
              ≡ true)
          × (stage_write null s user table name id change
                (target_map s user table name g)
                (Dict.get id (target_map s user table name g))
                g
              ≡ g')
    unfolding stage_in_table may_enter has_room
    stage_in_table_inv max_records table name id change g g' h =
        let target = target_map s user table name g in
        let existing = Dict.get id target in
        let w = stage_write null s user table name id change target existing g in
        let room = has_room max_records table change target existing in
        let k2 : Result (Staging V) = require room limit_exceeded >> ok w in
        let k1 : Result (Staging V) = assert_can_apply_change table user change.op existing >> k2 in
        let (entered, h1) = require-eq-ok (may_enter user table) forbidden k1 h in
        let (allowed, h2) =
          >>-eq-ok (assert_can_apply_change table user change.op existing) k2 h1 in
        let (fits, h3) = require-eq-ok room limit_exceeded (ok w) h2 in (entered, allowed, fits, cc)

    stage_found-Advances :
        (max_records : ℕ) (table : Option (Table V)) (name id : Text) (change : ChangeRecord V)
        (g g' : Staging V)
        → stage_found null s user max_records table name id change g ≡ ok g'
        → Advances g g'
    unfolding stage_found
    stage_found-Advances max_records none name id change g g' h =
        let e : g ≡ g' = cc in subst (Advances g) e (Advances-refl g)
    stage_found-Advances max_records (some table) name id change g g' h =
        subst (Advances g) (stage_in_table_inv max_records table name id change g g' h).3
          (stage_write-Advances table name id change _ _ g)

    pub stage_change-Advances :
        (max_records : ℕ) (change : ChangeRecord V) (g g' : Staging V)
        → stage_change null s user max_records change g ≡ ok g'
        → Advances g g'
    unfolding stage_change
    stage_change-Advances max_records change g g' h =
        let (name, _, h1) = >>=-eq-ok (validate_table_name change.table) _ h in
        let (id, _, h2) = >>=-eq-ok (validate_record_id change.id) _ h1 in
        stage_found-Advances max_records (Dict.get name s.tables) name id change g g' h2

    -- However staging ends, the counter has moved by one for each entry that was added.
    pub stage_all-Advances :
        (max_records : ℕ) (changes : List (ChangeRecord V)) (g : Staging V)
        → Advances g (stage_all null s user max_records changes g).0
    unfolding stage_all
    stage_all-Advances max_records [] g = Advances-refl g
    stage_all-Advances max_records (change ∷ changes) g =
        elim (Result-cases (stage_change null s user max_records change g)) [
          | inl (g', e) ↦
              rw (e, stage_all)
                (Advances-trans g g' _ (stage_change-Advances max_records change g g' e)
                  (stage_all-Advances max_records changes g'))
          | inr (err, e) ↦ rw (e, stage_all) (Advances-refl g)
        ]
