-- ===== src/Server/Memory/Users/Index.antt =====
-- The two maps of accounts, by id and by name, are inverse to each other.
use typescript_tetherdb.Base.{
  ℕ, ◌≡◌, ◌≢◌, refl, sym, ◌∙◌, ◌⊎◌, subst, Text, text_key, Bool, true, Option, none, some, [], ◌∷◌,
  arith, inl, inr, Option-cases,
}
use typescript_tetherdb.Base.Dict
use typescript_tetherdb.Base.Dict.{Dict, get-put, get-delete}
use typescript_tetherdb.Server.Errors.{ok, >>=-eq-ok}
use typescript_tetherdb.Server.Memory.{MemoryStorage, MemoryUserData}
use typescript_tetherdb.Server.Memory.Users.{
  create_user_check, create_user_commit, create_user, get_user, get_user_by_user_name, rename_user,
  require_user, remove_user, delete_user,
}
use typescript_tetherdb.Server.User.{User}
use typescript_tetherdb.Server.Validate.{
  TextOps, matches_safe, validate_filesystem_safe, validate_user_id, validate_user_name,
  validate_password, normalize_user_name,
}

abbrev pub name_of : Option MemoryUserData → Option Text
name_of none = none
name_of (some d) = some d.user_name

pub record IsIndexed {V : Type 0} (s : MemoryStorage V) : Type 0 where
  -- An account is filed under its own id, and its name leads back to it.
  pub by_id :
      (id : Text) (d : MemoryUserData)
      → Dict.get id s.users ≡ some d
      → (d.user_id ≡ id) × (Dict.get d.user_name s.users_by_user_name ≡ some id)
  -- A name leads to an account of that name.
  pub by_name :
      (name id : Text)
      → Dict.get name s.users_by_user_name ≡ some id
      → name_of (Dict.get id s.users) ≡ some name

module _ {V : Type 0} (s : MemoryStorage V) where
  create_user_commit-IsIndexed :
      (uuid hash : Text) (now : ℕ) (name : Text)
      → Dict.get uuid s.users ≡ none
      → Dict.get name s.users_by_user_name ≡ none
      → IsIndexed s
      → IsIndexed (create_user_commit uuid hash now name s).1
  unfolding create_user_commit
  create_user_commit-IsIndexed uuid hash now name fresh free v = record {
    by_id = λ id d h. ground (
      arith,
      get-put uuid id account s.users,
      get-put name d.user_name uuid s.users_by_user_name,
      v.by_id id d,
    );
    by_name = λ n id h. ground (
      arith,
      get-put uuid id account s.users,
      get-put name n uuid s.users_by_user_name,
      v.by_name n id,
    );
  }
    where
      account : MemoryUserData
      account = record {
        user_id = uuid;
        user_name = name;
        password_hash = some hash;
        created_at = now;
      }

  name_free :
      (ops : TextOps) (name password safe_name valid_password : Text)
      → create_user_check ops name password s ≡ ok (safe_name, valid_password)
      → Dict.get safe_name s.users_by_user_name ≡ none
  unfolding create_user_check
  name_free ops name password safe_name valid_password h =
      let (n, named, h') = >>=-eq-ok (validate_user_name ops name) _ h in
      let (p, _, h'') = >>=-eq-ok (validate_password ops password) _ h' in ground arith

  -- A call of `createUser` that nothing interrupts keeps the two maps inverse, if the new id is
  -- not in use.
  pub create_user-IsIndexed :
      (ops : TextOps) (hash_password : Text → Text) (uuid : Text) (now : ℕ) (name password : Text)
      (user : User) (s' : MemoryStorage V)
      → Dict.get uuid s.users ≡ none
      → create_user ops hash_password uuid now name password s ≡ ok (user, s')
      → IsIndexed s
      → IsIndexed s'
  unfolding create_user
  create_user-IsIndexed ops hash_password uuid now name password user s' fresh h v =
      let ((n, p), checked, done) = >>=-eq-ok (create_user_check ops name password s) _ h in
      let e : (create_user_commit uuid (hash_password p) now n s).1 ≡ s' = cc in
      subst IsIndexed e (
        create_user_commit-IsIndexed uuid (hash_password p) now n fresh
          (name_free ops name password n p checked) v)

  renamed_state : Text → MemoryUserData → Text → MemoryStorage V
  renamed_state id d name = record s {
    users = Dict.put id (record d { user_name = name }) s.users;
    users_by_user_name = Dict.put name id (Dict.delete d.user_name s.users_by_user_name);
  }

  renamed_state-IsIndexed :
      (id : Text) (d : MemoryUserData) (name : Text)
      → Dict.get id s.users ≡ some d
      → (Dict.get name s.users_by_user_name ≡ none) ⊎ (d.user_name ≡ name)
      → IsIndexed s
      → IsIndexed (renamed_state id d name)
  unfolding renamed_state
  renamed_state-IsIndexed id d name e free v = record {
    by_id = λ j x h. ground (
      arith,
      get-put id j (record d { user_name = name }) s.users,
      get-put name x.user_name id (Dict.delete d.user_name s.users_by_user_name),
      get-delete d.user_name x.user_name s.users_by_user_name,
      v.by_id j x,
      v.by_id id d,
    );
    by_name = λ n j h. ground (
      arith,
      get-put id j (record d { user_name = name }) s.users,
      get-put name n id (Dict.delete d.user_name s.users_by_user_name),
      get-delete d.user_name n s.users_by_user_name,
      v.by_name n j,
      v.by_id id d,
    );
  }

  rename_user_inv :
      (ops : TextOps) (id new_name : Text) (user : User) (s' : MemoryStorage V)
      → rename_user ops id new_name s ≡ ok (user, s')
      → (safe_id name : Text) × (d : MemoryUserData) × (Dict.get safe_id s.users ≡ some d)
        × ((Dict.get name s.users_by_user_name ≡ none) ⊎ (d.user_name ≡ name))
        × (renamed_state safe_id d name ≡ s')
  unfolding rename_user require_user renamed_state
  rename_user_inv ops id new_name user s' h =
      let (i, _, h1) = >>=-eq-ok (validate_user_id id) _ h in
      let (n, _, h2) = >>=-eq-ok (validate_user_name ops new_name) _ h1 in
      elim (Option-cases (Dict.get i s.users)) [
        | inl missing ↦ absurd (ground arith)
        | inr (d, e) ↦ (i, n, d, e, ground arith, ground arith)
      ]

  -- Renaming an account keeps the two maps inverse.
  pub rename_user-IsIndexed :
      (ops : TextOps) (id new_name : Text) (user : User) (s' : MemoryStorage V)
      → rename_user ops id new_name s ≡ ok (user, s')
      → IsIndexed s
      → IsIndexed s'
  rename_user-IsIndexed ops id new_name user s' h v =
      let (i, n, d, e, free, done) = rename_user_inv ops id new_name user s' h in
      subst IsIndexed done (renamed_state-IsIndexed i d n e free v)

  remove_user-IsIndexed :
      (null : V) (id : Text) (now : ℕ) (d : MemoryUserData)
      → Dict.get id s.users ≡ some d
      → IsIndexed s
      → IsIndexed (remove_user null id now d s)
  unfolding remove_user
  remove_user-IsIndexed null id now d e v = record {
    by_id = λ j x h. ground (
      arith,
      get-delete id j s.users,
      get-delete d.user_name x.user_name s.users_by_user_name,
      v.by_id j x,
      v.by_id id d,
    );
    by_name = λ n j h. ground (
      arith,
      get-delete id j s.users,
      get-delete d.user_name n s.users_by_user_name,
      v.by_name n j,
      v.by_id id d,
    );
  }

  -- Deleting an account, with all that it takes along, keeps the two maps inverse.
  pub delete_user-IsIndexed :
      (null : V) (now : ℕ) (id : Text) (found : Bool) (s' : MemoryStorage V)
      → delete_user null now id s ≡ ok (found, s')
      → IsIndexed s
      → IsIndexed s'
  unfolding delete_user
  delete_user-IsIndexed null now id found s' h v =
      let (i, _, h1) = >>=-eq-ok (validate_user_id id) _ h in
      elim (Option-cases (Dict.get i s.users)) [
        | inl missing ↦ let e : s ≡ s' = ground arith in subst IsIndexed e v
        | inr (d, e) ↦
            let done : remove_user null i now d s ≡ s' = ground arith in
            subst IsIndexed done (remove_user-IsIndexed null i now d e v)
      ]

  -- In a state whose maps are inverse, two accounts never share a name.
  pub names_distinct :
      (i j : Text) (d e : MemoryUserData)
      → IsIndexed s
      → Dict.get i s.users ≡ some d
      → Dict.get j s.users ≡ some e
      → d.user_name ≡ e.user_name
      → i ≡ j
  names_distinct i j d e v hi hj same_name = ground (arith, v.by_id i d, v.by_id j e)

  named :
      (ops : TextOps) (name n : Text)
      → validate_user_name ops name ≡ ok n
      → (n ≡ normalize_user_name ops name) × (n ≢ [])
  unfolding validate_user_name
  named ops name n h = ground arith

  commit_found :
      (ops : TextOps) (uuid hash : Text) (now : ℕ) (spelling n : Text)
      → normalize_user_name ops spelling ≡ n
      → n ≢ []
      → matches_safe 1 64 uuid ≡ true
      → (get_user_by_user_name ops spelling (create_user_commit uuid hash now n s).1
          ≡ some (create_user_commit uuid hash now n s).0)
        × (get_user uuid (create_user_commit uuid hash now n s).1
            ≡ ok (some (create_user_commit uuid hash now n s).0))
  unfolding create_user_commit get_user_by_user_name get_user validate_user_id
      validate_filesystem_safe matches_safe
  commit_found ops [] hash now spelling n e named valid = ground arith
  commit_found ops (u ∷ us) hash now spelling [] e named valid = absurd (named refl)
  commit_found ops (u ∷ us) hash now spelling (c ∷ n) e named valid = (
    rw (e, get_user_by_user_name)
        (ground (
          arith,
          get-put (u ∷ us) (u ∷ us) account s.users,
          get-put (c ∷ n) (c ∷ n) (u ∷ us) s.users_by_user_name,
        )),
    ground (arith, get-put (u ∷ us) (u ∷ us) account s.users),
  )
    where
      account : MemoryUserData
      account = record {
        user_id = u ∷ us;
        user_name = c ∷ n;
        password_hash = some hash;
        created_at = now;
      }

  -- A new account is found by its id, if that has a valid form, and by any spelling of its name
  -- that normalizes alike.
  pub create_user_found :
      (ops : TextOps) (hash_password : Text → Text) (uuid : Text) (now : ℕ)
      (name spelling password : Text) (user : User) (s' : MemoryStorage V)
      → create_user ops hash_password uuid now name password s ≡ ok (user, s')
      → normalize_user_name ops spelling ≡ normalize_user_name ops name
      → matches_safe 1 64 uuid ≡ true
      → (get_user_by_user_name ops spelling s' ≡ some user) × (get_user uuid s' ≡ ok (some user))
  unfolding create_user create_user_check
  create_user_found ops hash_password uuid now name spelling password user s' h alike valid =
      let ((n, p), checked, done) = >>=-eq-ok (create_user_check ops name password s) _ h in
      let (m, is_named, rest) = >>=-eq-ok (validate_user_name ops name) _ checked in
      let (q, _, rest') = >>=-eq-ok (validate_password ops password) _ rest in
      let same_name : m ≡ n = ground arith in
      let (e, nonempty) = named ops name m is_named in
      let committed : create_user_commit uuid (hash_password p) now n s ≡ (user, s') = cc in
      subst
        (λ r.
          (get_user_by_user_name ops spelling r.1 ≡ some r.0) × (get_user uuid r.1 ≡ ok (some r.0)))
        committed
        (commit_found ops uuid (hash_password p) now spelling n (alike ∙ sym e ∙ same_name)
          (subst (λ x. x ≢ []) same_name nonempty) valid)
