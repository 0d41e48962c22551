-- ===== src/Server/Filter/Audience.antt =====
-- Who is sent what, told by the user and the table's rule for reading alone, without the order of
-- tests of src/server/security/filter.ts and src/server/storage/table.ts.
use typescript_tetherdb.Base.{
  ◌≡◌, refl, sym, Text, text, Bool, true, false, not, ◌&&◌, ◌||◌, Option, none, some, List, [], ◌∷◌,
  same, arith, if◌then◌else◌, text_key,
}
use typescript_tetherdb.Shared.Types.{Permission, everybody, authenticated, owner, nobody}
use typescript_tetherdb.Server.Security.{is_owner, is_permission_allowed, rule_permits}
use typescript_tetherdb.Server.Filter.{is_wanted}
use typescript_tetherdb.Server.Table.{is_owner_rule, can_access}
use typescript_tetherdb.Server.User.{
  User, anonymous, admin, account, user_id, is_admin, is_authenticated, is_anonymous,
}

abbrev pub is_by : Text → Option Text → Bool
is_by id none = false
is_by id (some author) = same author id

-- Whether a user may see what an author wrote to a table with the rule.
abbrev pub may_see : User → Permission → Option Text → Bool
may_see admin rule author = true
may_see anonymous everybody author = true
may_see anonymous authenticated author = false
may_see anonymous owner author = false
may_see anonymous nobody author = false
may_see (account id name created_at) everybody author = true
may_see (account id name created_at) authenticated author = true
may_see (account id name created_at) owner author = is_by id author
may_see (account id name created_at) nobody author = false

-- The partition that a snapshot takes a table's records from: where the owner's rule holds, the
-- account's own, or the one without a name for the administrator.
abbrev pub snapshot_home : User → Permission → Text
snapshot_home (account id name created_at) owner = id
snapshot_home admin owner = []
snapshot_home user rule = text "__shared__"

-- The one that reading a table takes them from: the administrator reads the shared one.
abbrev pub reading_home : User → Permission → Text
reading_home (account id name created_at) owner = id
reading_home user rule = text "__shared__"

abbrev pub is_among : Text → List Text → Bool
is_among name [] = false
is_among name (n ∷ ns) = if same n name then true else is_among name ns

-- Without a list of tables, all are asked for.
abbrev pub is_asked_for : Option (List Text) → Text → Bool
is_asked_for none name = true
is_asked_for (some names) name = is_among name names

pub is_wanted_lem :
    (filters : Option (List Text)) (name : Text)
    → is_wanted filters name ≡ is_asked_for filters name
is_wanted_lem none name = refl
is_wanted_lem (some []) name = refl
is_wanted_lem (some (n ∷ ns)) name = ground (arith, is_wanted_lem (some ns) name)

is_by_lem :
    (user : User) (author : Option Text) → is_owner author user ≡ is_by (user_id user) author
is_by_lem user none = refl
is_by_lem user (some id) = refl

pub allowed_lem :
    (user : User) (rule : Permission) (author : Option Text)
    → is_permission_allowed rule user author ≡ may_see user rule author
unfolding is_permission_allowed rule_permits
allowed_lem admin rule author = refl
allowed_lem anonymous everybody author = refl
allowed_lem anonymous authenticated author = refl
allowed_lem anonymous owner author = refl
allowed_lem anonymous nobody author = refl
allowed_lem (account i n c) everybody author = refl
allowed_lem (account i n c) authenticated author = refl
allowed_lem (account i n c) owner author = is_by_lem (account i n c) author
allowed_lem (account i n c) nobody author = refl

-- The tests on a changelog's entry come to the same.
pub sent_by_rule :
    (user : User) (rule : Permission) (author : Option Text)
    → (can_access rule user
        && (not (
              is_owner_rule rule
              && (not (is_admin user)
                  && (not (is_authenticated user) || not (is_owner author user))))
            && is_permission_allowed rule user author))
      ≡ may_see user rule author
unfolding can_access is_permission_allowed rule_permits
sent_by_rule admin everybody author = refl
sent_by_rule admin authenticated author = refl
sent_by_rule admin owner author = refl
sent_by_rule admin nobody author = refl
sent_by_rule anonymous everybody author = refl
sent_by_rule anonymous authenticated author = refl
sent_by_rule anonymous owner author = refl
sent_by_rule anonymous nobody author = refl
sent_by_rule (account i n c) everybody author = refl
sent_by_rule (account i n c) authenticated author = refl
sent_by_rule (account i n c) owner author = ground (arith, is_by_lem (account i n c) author)
sent_by_rule (account i n c) nobody author = refl

-- A table that is passed over has nothing to see.
module _ {ℓ} {A : Type ℓ} (items : Text → A) (nothing : A) where
  abbrev pub IsEmptyFor : User → Permission → Type ℓ
  IsEmptyFor user rule =
      ((author : Option Text) → may_see user rule author ≡ false)
      → (home : Text) → items home ≡ nothing

  pub snapshot_by_rule :
      (user : User) (rule : Permission)
      → IsEmptyFor user rule
      → (if can_access rule user && not (is_owner_rule rule && is_anonymous user)
          then items (if is_owner_rule rule then user_id user else text "__shared__")
          else nothing)
        ≡ items (snapshot_home user rule)
  unfolding can_access
  snapshot_by_rule admin everybody h = refl
  snapshot_by_rule admin authenticated h = refl
  snapshot_by_rule admin owner h = refl
  snapshot_by_rule admin nobody h = refl
  snapshot_by_rule anonymous everybody h = refl
  snapshot_by_rule anonymous authenticated h = sym (h (λ a. refl) _)
  snapshot_by_rule anonymous owner h = sym (h (λ a. refl) _)
  snapshot_by_rule anonymous nobody h = sym (h (λ a. refl) _)
  snapshot_by_rule (account i n c) everybody h = refl
  snapshot_by_rule (account i n c) authenticated h = refl
  snapshot_by_rule (account i n c) owner h = refl
  snapshot_by_rule (account i n c) nobody h = sym (h (λ a. refl) _)

  pub reading_by_rule :
      (user : User) (rule : Permission)
      → IsEmptyFor user rule
      → (if can_access rule user && not (is_owner_rule rule && is_anonymous user)
          then items (
              if is_owner_rule rule && (is_authenticated user && not (is_admin user))
              then user_id user
              else text "__shared__")
          else nothing)
        ≡ items (reading_home user rule)
  unfolding can_access
  reading_by_rule admin everybody h = refl
  reading_by_rule admin authenticated h = refl
  reading_by_rule admin owner h = refl
  reading_by_rule admin nobody h = refl
  reading_by_rule anonymous everybody h = refl
  reading_by_rule anonymous authenticated h = sym (h (λ a. refl) _)
  reading_by_rule anonymous owner h = sym (h (λ a. refl) _)
  reading_by_rule anonymous nobody h = sym (h (λ a. refl) _)
  reading_by_rule (account i n c) everybody h = refl
  reading_by_rule (account i n c) authenticated h = refl
  reading_by_rule (account i n c) owner h = refl
  reading_by_rule (account i n c) nobody h = sym (h (λ a. refl) _)
