-- ===== src/Server/Broadcast/Disclosure.antt =====
-- A broadcast discloses what a later catch-up would: the tests of src/src/server/sync.ts and those of
-- src/src/server/security/filter.ts agree.
use typescript_tetherdb.Base.{
  ℕ, Bool, ◌≡◌, refl, ap, ◌∙◌, Text, text_key, nat_key, not, ◌&&◌, ◌||◌, Option, none, some, List,
  [], ◌∷◌, ◌++◌, same, filter, map, arith, inl, inr, Bool-cases, if◌then◌else◌, ap₂,
}
use typescript_tetherdb.Base.Dict
use typescript_tetherdb.Shared.Messages.{ServerMessage}
use typescript_tetherdb.Shared.Types.{
  ChangeRecord, Permission, everybody, authenticated, owner, nobody,
}
use typescript_tetherdb.Server.Broadcast.{
  ActiveClient, can_read_of, is_broadcast, client_changes, message_for, broadcast,
}
use typescript_tetherdb.Server.Filter.{is_wanted, is_sent, sent_change, TableCache}
use typescript_tetherdb.Server.Filter.Visible.{IsFaithful, cached_table_lem}
use typescript_tetherdb.Server.Resolver.{public_change}
use typescript_tetherdb.Server.Security.{
  InternalChangeRecord, is_permission_allowed, rule_permits, is_owner,
}
use typescript_tetherdb.Server.Table.{
  Table, is_private, can_read, can_access, can_apply, is_owner_rule,
}
use typescript_tetherdb.Server.User.{User, is_admin, is_authenticated}

rule_agrees :
    (rule : Permission) (user : User) (author : Option Text)
    → (can_access rule user
        && (not (
              is_owner_rule rule
              && (not (is_admin user)
                  && (not (is_authenticated user) || not (is_owner author user))))
            && can_access rule user))
      ≡ (can_access rule user
          && (not (
                is_owner_rule rule
                && (not (is_admin user)
                    && (not (is_authenticated user) || not (is_owner author user))))
              && is_permission_allowed rule user author))
unfolding can_access is_permission_allowed rule_permits
rule_agrees everybody user author = ground arith
rule_agrees authenticated user author = ground arith
rule_agrees owner user author = ground arith
rule_agrees nobody user author = ground arith

module _ {V : Type 0} (find_user_name : Text → Option Text) where
  record_test_agrees :
      (table : Table V) (user : User) (author : Option Text)
      → (let rule = table.settings.permissions.read in
          let kept = not (
            is_owner_rule rule
            && (not (is_admin user)
                && (not (is_authenticated user) || not (is_owner author user)))) in
          (can_access rule user && (kept && can_read_of table user author))
          ≡ (can_access rule user && (kept && is_permission_allowed rule user author)))
  record_test_agrees table user none = rule_agrees table.settings.permissions.read user none
  record_test_agrees table user (some []) =
      rule_agrees table.settings.permissions.read user (some [])
  record_test_agrees table user (some (x ∷ xs)) = refl

  is_broadcast-is_sent :
      (user : User) (table : Option (Table V)) (raw : InternalChangeRecord V) (name : Option Text)
      → is_broadcast user table (public_change find_user_name raw name) ≡ is_sent user table raw
  unfolding is_broadcast is_sent can_read can_apply is_private
  is_broadcast-is_sent user none raw name = refl
  is_broadcast-is_sent user (some table) raw name = record_test_agrees table user raw.user_id

  module _ (table_lookup : Text → Option (Table V))
      (name : InternalChangeRecord V → Option Text) where
    -- What a catch-up of the user would have of the entries.
    abbrev pub caught_up :
        User → Option (List Text) → List (InternalChangeRecord V) → List (ChangeRecord V)
    caught_up user filters raws =
        map (λ raw. sent_change raw (name raw))
          (filter (λ raw. is_wanted filters raw.table && is_sent user (table_lookup raw.table) raw)
            raws)

    abbrev pub published : List (InternalChangeRecord V) → List (ChangeRecord V)
    published raws = map (λ raw. public_change find_user_name raw (name raw)) raws

    client_changes-caught_up :
        (user : User) (filters : Option (List Text)) (raws : List (InternalChangeRecord V))
        (cache : TableCache V)
        → IsFaithful find_user_name user table_lookup cache
        → IsFaithful find_user_name user table_lookup
            (client_changes table_lookup user filters (published raws) cache).0
          × ((client_changes table_lookup user filters (published raws) cache).1
              ≡ caught_up user filters raws)
    unfolding client_changes filter
    client_changes-caught_up user filters [] cache f = (f, refl)
    client_changes-caught_up user filters (raw ∷ raws) cache f =
        let (f', found) = cached_table_lem find_user_name user table_lookup raw.table cache f in
        let unwanted = client_changes-caught_up user filters raws cache f in
        let looked_up = client_changes-caught_up user filters raws _ f' in
        elim (Bool-cases (is_wanted filters raw.table)) [
          | inl w ↦
              let agrees =
                ap (λ t. is_broadcast user t (public_change find_user_name raw (name raw))) found
                ∙ is_broadcast-is_sent user (table_lookup raw.table) raw (name raw) in
              elim (Bool-cases (is_sent user (table_lookup raw.table) raw)) [
                | inl s ↦
                    rw (w, agrees, s)
                      (looked_up.0, ap (λ cs. sent_change raw (name raw) ∷ cs) looked_up.1)
                | inr s ↦ rw (w, agrees, s) looked_up
              ]
          | inr w ↦ rw w unwanted
        ]

    -- A message to each client with an open socket but the sender that has something to catch up with.
    abbrev pub caught_up_messages :
        (ℕ → Bool)
        → ℕ
        → Text
        → ℕ
        → List (InternalChangeRecord V)
        → List ActiveClient
        → List (ℕ × ServerMessage V)
    caught_up_messages is_open socket sender seq raws [] = []
    caught_up_messages is_open socket sender seq raws (client ∷ clients) =
        let rest = caught_up_messages is_open socket sender seq raws clients in
        if same client.web_socket socket
        then rest
        else message_for is_open client sender seq (caught_up client.user client.tables raws)
          ++ rest

    broadcast-caught_up :
        (is_open : ℕ → Bool) (socket : ℕ) (sender : Text) (seq : ℕ)
        (raws : List (InternalChangeRecord V)) (clients : List ActiveClient) (cache : TableCache V)
        → ((user : User) → IsFaithful find_user_name user table_lookup cache)
        → broadcast table_lookup is_open socket sender seq (published raws) clients cache
          ≡ caught_up_messages is_open socket sender seq raws clients
    unfolding broadcast
    broadcast-caught_up is_open socket sender seq raws [] cache f = refl
    broadcast-caught_up is_open socket sender seq raws (client ∷ clients) cache f =
        let (f', cs) =
          client_changes-caught_up client.user client.tables raws cache (f client.user) in
        elim (Bool-cases (same client.web_socket socket)) [
          | inl e ↦ rw e (broadcast-caught_up is_open socket sender seq raws clients cache f)
          | inr e ↦ rw e (
              ap₂ (λ xs ys. xs ++ ys) (ap (message_for is_open client sender seq) cs)
                (broadcast-caught_up is_open socket sender seq raws clients _ (λ user. f')))
        ]

    -- The broadcast of the entries of a batch gives each client with an open socket but the sender exactly the changes, in
    -- order, that it wants and that the tests of a catch-up let through, and no message if there are
    -- none.
    pub broadcast_lem :
        (is_open : ℕ → Bool) (socket : ℕ) (sender : Text) (seq : ℕ)
        (raws : List (InternalChangeRecord V)) (clients : List ActiveClient)
        → broadcast table_lookup is_open socket sender seq (published raws) clients []
          ≡ caught_up_messages is_open socket sender seq raws clients
    unfolding Dict.get
    broadcast_lem is_open socket sender seq raws clients =
        broadcast-caught_up is_open socket sender seq raws clients []
          (λ user name table e. ground (arith, e))
