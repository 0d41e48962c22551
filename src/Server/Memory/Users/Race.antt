-- ===== src/Server/Memory/Users/Race.antt =====
-- Two calls of `createUser` for one name, both past their test before either writes.
use typescript_tetherdb.Base.{ℕ, ◌≡◌, ◌≢◌, Text, text_key, some, arith}
use typescript_tetherdb.Base.Dict
use typescript_tetherdb.Base.Dict.{get-put}
use typescript_tetherdb.Server.Errors.{ok}
use typescript_tetherdb.Server.Memory.{MemoryStorage, MemoryUserData}
use typescript_tetherdb.Server.Memory.Users.{create_user_check, create_user_commit}
use typescript_tetherdb.Server.Memory.Users.Index.{IsIndexed, name_of, names_distinct}
use typescript_tetherdb.Server.Validate.{TextOps}

module _ {V : Type 0} (s : MemoryStorage V) (i j h k : Text) (now later : ℕ) (name : Text) where
  abbrev pub both_created : MemoryStorage V
  both_created = (create_user_commit j k later name (create_user_commit i h now name s).1).1

  both_named :
      i ≢ j
      → (name_of (Dict.get i both_created.users) ≡ some name)
        × (name_of (Dict.get j both_created.users) ≡ some name)
  unfolding create_user_commit
  both_named distinct = (
    ground (arith, get-put j i second (Dict.put i first s.users), get-put i i first s.users),
    ground (arith, get-put j j second (Dict.put i first s.users)),
  )
    where
      first : MemoryUserData
      first = record { user_id = i; user_name = name; password_hash = some h; created_at = now }

      second : MemoryUserData
      second = record { user_id = j; user_name = name; password_hash = some k; created_at = later }

  name_of_inv :
      (id : Text)
      → name_of (Dict.get id both_created.users) ≡ some name
      → (d : MemoryUserData) × (Dict.get id both_created.users ≡ some d) × (d.user_name ≡ name)
  name_of_inv id e = ground arith

  -- Two calls of `createUser` for the same normalized name that both pass the test before either
  -- of them writes both succeed: the two accounts share the name, and the maps are no longer
  -- inverse.
  pub create_user_race :
      (ops : TextOps) (n m p q x y : Text)
      → create_user_check ops n p s ≡ ok (name, x)
      → create_user_check ops m q s ≡ ok (name, y)
      → i ≢ j
      → (name_of (Dict.get i both_created.users) ≡ some name)
        × (name_of (Dict.get j both_created.users) ≡ some name)
        × (¬ IsIndexed both_created)
  create_user_race ops n m p q x y first second distinct =
      let (ei, ej) = both_named distinct in
      let (d, hd, nd) = name_of_inv i ei in
      let (e, he, ne) = name_of_inv j ej in
      (ei, ej, λ v. distinct (names_distinct both_created i j d e v hd he (cc)))
