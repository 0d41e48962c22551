-- ===== src/Server/Resolver.antt =====
-- src/server/security/resolver.ts: user names by user id, with a cache. `find_user_name` is the name
-- of the account that `storage.getUser` finds.
use typescript_tetherdb.Base.{
  ℕ, ◌≡◌, refl, sym, ap, ◌∙◌, Bool-cases, eq_of_same, Text, text_key, Bool, false, Option, none,
  some, List, [], ◌∷◌, same, arith, inl, inr, if◌then◌else◌,
}
use typescript_tetherdb.Base.Dict
use typescript_tetherdb.Base.Dict.{Dict, get-put}
use typescript_tetherdb.Shared.Types.{ChangeRecord}
use typescript_tetherdb.Server.Security.{InternalChangeRecord}
use typescript_tetherdb.Server.User.{User, user_id, user_name}

abbrev pub UserCache : Type 0
UserCache = Dict Text Text

unfoldable pub prime : Text → Text → UserCache → UserCache
prime id name cache = Dict.put id name cache

-- `fallbackUser && fallbackUser.userId === userId`
abbrev pub is_fallback : Option User → Text → Bool
is_fallback none id = false
is_fallback (some user) id = same (user_id user) id

abbrev pub fallback_name : Option User → Text
fallback_name none = []
fallback_name (some user) = user_name user

module _ (find_user_name : Text → Option Text) where
  -- The answer from the storage, which enters the cache.
  unfoldable pub look_up : Text → Option Text → UserCache → UserCache × Option Text
  look_up id none cache = (cache, none)
  look_up id (some name) cache = (Dict.put id name cache, some name)

  unfoldable pub resolve_cached : Text → Option Text → UserCache → UserCache × Option Text
  unfolding look_up
  resolve_cached id (some name) cache = (cache, some name)
  resolve_cached id none cache = look_up id (find_user_name id) cache

  unfoldable pub resolve_known : Text → Option User → UserCache → UserCache × Option Text
  unfolding resolve_cached
  resolve_known id fallback cache =
      if is_fallback fallback id
      then (Dict.put id (fallback_name fallback) cache, some (fallback_name fallback))
      else resolve_cached id (Dict.get id cache) cache

  -- No id and an empty one have no name.
  unfoldable pub resolve_user_name : Option Text → Option User → UserCache → UserCache × Option Text
  unfolding resolve_known
  resolve_user_name none fallback cache = (cache, none)
  resolve_user_name (some []) fallback cache = (cache, none)
  resolve_user_name (some (c ∷ id)) fallback cache = resolve_known (c ∷ id) fallback cache

  module _ {V : Type 0} where
    abbrev pub public_change : InternalChangeRecord V → Option Text → ChangeRecord V
    public_change c name = record {
      table = c.table;
      id = c.id;
      op = c.op;
      payload = c.payload;
      version = c.version;
      seq = some c.seq;
      timestamp = c.timestamp;
      client_id = c.client_id;
      user_name = name;
      user_id = c.user_id;
    }

    unfoldable pub resolve_public_changes :
        List (InternalChangeRecord V) → Option User → UserCache → UserCache × List (ChangeRecord V)
    resolve_public_changes [] fallback cache = (cache, [])
    resolve_public_changes (c ∷ cs) fallback cache =
        let (cache', name) = resolve_user_name c.user_id fallback cache in
        let (cache'', rest) = resolve_public_changes cs fallback cache' in
        (cache'', public_change c name ∷ rest)

  -- The name that an id has: the fallback user's own, or the storage's.
  unfoldable pub name_of : Option Text → Option User → Option Text
  name_of none fallback = none
  name_of (some []) fallback = none
  name_of (some (c ∷ id)) fallback =
      if is_fallback fallback (c ∷ id)
      then some (fallback_name fallback)
      else find_user_name (c ∷ id)

  -- What is cached is what resolving without the cache gives.
  abbrev pub IsCurrent : Option User → UserCache → Type 0
  IsCurrent fallback cache =
      (id name : Text) → Dict.get id cache ≡ some name → name_of (some id) fallback ≡ some name

  put-IsCurrent :
      (id name : Text) (fallback : Option User) (cache : UserCache)
      → name_of (some id) fallback ≡ some name
      → IsCurrent fallback cache
      → IsCurrent fallback (Dict.put id name cache)
  put-IsCurrent id name fallback cache e h id' name' found = elim (Bool-cases (same id id')) [
    | inl hit ↦
        let same_id : id ≡ id' = eq_of_same id id' hit in
        ap (λ x. name_of (some x) fallback) (sym same_id)
        ∙ e
        ∙ ground (arith, get-put id id' name cache)
    | inr miss ↦ h id' name' (ground (arith, get-put id id' name cache))
  ]

  abbrev IsResolved : Text → Option User → UserCache × Option Text → Type 0
  IsResolved id fallback r = (r.1 ≡ name_of (some id) fallback) × IsCurrent fallback r.0

  look_up-IsResolved :
      (c : ℕ) (id : Text) (fallback : Option User) (cache : UserCache) (found : Option Text)
      → name_of (some (c ∷ id)) fallback ≡ found
      → IsCurrent fallback cache
      → IsResolved (c ∷ id) fallback (look_up (c ∷ id) found cache)
  unfolding look_up
  look_up-IsResolved c id fallback cache none e h = (sym e, h)
  look_up-IsResolved c id fallback cache (some name) e h =
      (sym e, put-IsCurrent (c ∷ id) name fallback cache e h)

  resolve_cached-IsResolved :
      (c : ℕ) (id : Text) (fallback : Option User) (cache : UserCache) (found : Option Text)
      → Dict.get (c ∷ id) cache ≡ found
      → name_of (some (c ∷ id)) fallback ≡ find_user_name (c ∷ id)
      → IsCurrent fallback cache
      → IsResolved (c ∷ id) fallback (resolve_cached (c ∷ id) found cache)
  unfolding resolve_cached
  resolve_cached-IsResolved c id fallback cache none missing e h =
      look_up-IsResolved c id fallback cache (find_user_name (c ∷ id)) e h
  resolve_cached-IsResolved c id fallback cache (some name) cached e h =
      (sym (h (c ∷ id) name cached), h)

  name_of_known :
      (c : ℕ) (id : Text) (fallback : Option User)
      → name_of (some (c ∷ id)) fallback ≡ (
          if is_fallback fallback (c ∷ id)
          then some (fallback_name fallback)
          else find_user_name (c ∷ id))
  unfolding name_of
  name_of_known c id fallback = refl

  resolve_known-IsResolved :
      (c : ℕ) (id : Text) (fallback : Option User) (cache : UserCache)
      → IsCurrent fallback cache
      → IsResolved (c ∷ id) fallback (resolve_known (c ∷ id) fallback cache)
  unfolding resolve_known
  resolve_known-IsResolved c id fallback cache h =
      let e = name_of_known c id fallback in
      elim (Bool-cases (is_fallback fallback (c ∷ id))) [
        | inl own ↦
            let known = rw own at e in
            rw own
              (sym known, put-IsCurrent (c ∷ id) (fallback_name fallback) fallback cache known h)
        | inr other ↦
            let known = rw other at e in
            rw other
              (resolve_cached-IsResolved c id fallback cache (Dict.get (c ∷ id) cache) refl known h)
      ]

  -- Resolving through a cache that is up to date gives the name that the id has, the caller's own or
  -- the stored account's, and leaves the cache up to date.
  pub resolve_user_name_lem :
      (id : Option Text) (fallback : Option User) (cache : UserCache)
      → IsCurrent fallback cache
      → ((resolve_user_name id fallback cache).1 ≡ name_of id fallback)
        × IsCurrent fallback (resolve_user_name id fallback cache).0
  unfolding resolve_user_name name_of
  resolve_user_name_lem none fallback cache h = (refl, h)
  resolve_user_name_lem (some []) fallback cache h = (refl, h)
  resolve_user_name_lem (some (c ∷ id)) fallback cache h =
      resolve_known-IsResolved c id fallback cache h
