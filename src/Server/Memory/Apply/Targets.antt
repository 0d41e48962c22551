-- ===== src/Server/Memory/Apply/Targets.antt =====
-- The staged copies: what a write to one does to the others, and to the tables on commit.
use typescript_tetherdb.Base.{
  ◌≡◌, refl, Text, text_key, same, true, false, none, some, [], ◌∷◌, arith, get_or, inl, inr,
  Bool-cases, if◌then◌else◌,
}
use typescript_tetherdb.Base.Dict
use typescript_tetherdb.Base.Dict.{Dict, get-put, HasDistinctKeys, put-HasDistinctKeys}
use typescript_tetherdb.Server.Memory.{MemoryStorage, Records}
use typescript_tetherdb.Server.Memory.Apply.{Staging, target_map, put_target, commit_tables}
use typescript_tetherdb.Server.Table.{Table, is_private}
use typescript_tetherdb.Server.User.{User}

module _ {V : Type 0} where
  -- Each name is staged once, private tables on one side and the others on the other.
  pub record IsStaged (tables : Dict Text (Table V)) (g : Staging V) : Type 0 where
    pub user_distinct : HasDistinctKeys g.user_tables
    pub shared_distinct : HasDistinctKeys g.shared_tables
    pub user_private :
        (name : Text) (table : Table V)
        → Dict.get name tables ≡ some table
        → is_private table ≡ false
        → Dict.get name g.user_tables ≡ none
    pub shared_public :
        (name : Text) (table : Table V)
        → Dict.get name tables ≡ some table
        → is_private table ≡ true
        → Dict.get name g.shared_tables ≡ none

  module _ (s : MemoryStorage V) (user : User) where
    pub put_target-IsStaged :
        (table : Table V) (name : Text) (records : Records V) (g : Staging V)
        → Dict.get name s.tables ≡ some table
        → IsStaged s.tables g
        → IsStaged s.tables (put_target table name records g)
    unfolding put_target
    put_target-IsStaged table name records g e v = elim (Bool-cases (is_private table)) [
      | inl private ↦ rw private (record {
        user_distinct = put-HasDistinctKeys name records g.user_tables v.user_distinct;
        shared_distinct = v.shared_distinct;
        user_private =
            λ n t h p. ground (arith, get-put name n records g.user_tables, v.user_private n t);
        shared_public = v.shared_public;
      })
      | inr public ↦ rw public (record {
        user_distinct = v.user_distinct;
        shared_distinct = put-HasDistinctKeys name records g.shared_tables v.shared_distinct;
        user_private = v.user_private;
        shared_public =
            λ n t h p. ground (arith, get-put name n records g.shared_tables, v.shared_public n t);
      })
    ]

    -- A write to a staged table is read back, and shows in no other.
    pub target_map-put_target :
        (table t : Table V) (name n : Text) (records : Records V) (g : Staging V)
        → Dict.get name s.tables ≡ some table
        → Dict.get n s.tables ≡ some t
        → target_map s user t n (put_target table name records g)
          ≡ (if same name n then records else target_map s user t n g)
    unfolding target_map put_target
    target_map-put_target table t name n records g e f =
        ground (arith, get-put name n records g.user_tables, get-put name n records g.shared_tables)

  -- On commit a staged table replaces the stored one.
  pub get-commit_tables :
      (name : Text) (staged tables : Dict Text (Records V))
      → HasDistinctKeys staged
      → get_or (Dict.get name (commit_tables staged tables)) []
        ≡ get_or (Dict.get name staged) (get_or (Dict.get name tables) [])
  unfolding commit_tables Dict.get
  get-commit_tables name [] tables d = refl
  get-commit_tables name ((n, records) ∷ staged) tables d = ground (
    arith,
    get-commit_tables name staged (Dict.put n records tables) d.1,
    get-put n name records tables,
  )
