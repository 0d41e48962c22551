-- ===== src/Server/User.antt =====
-- src/server/storage/user.ts: who performs an operation.
use typescript_tetherdb.Base.{ℕ, Text, [], Bool, true, false}

-- The three classes that implement `User`.
pub data User : Type 0 where
  anonymous admin : User
  -- Its id, its name and when it was created.
  account : Text → Text → ℕ → User

abbrev pub user_id : User → Text
user_id (account id name created_at) = id
user_id _ = []

abbrev pub user_name : User → Text
user_name (account id name created_at) = name
user_name _ = []

abbrev pub is_authenticated : User → Bool
is_authenticated anonymous = false
is_authenticated _ = true

abbrev pub is_admin : User → Bool
is_admin admin = true
is_admin _ = false

abbrev pub is_anonymous : User → Bool
is_anonymous anonymous = true
is_anonymous _ = false
