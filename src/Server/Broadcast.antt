-- ===== src/Server/Broadcast.antt =====
-- `broadcastChanges` of src/src/server/sync.ts: what of a batch that was applied goes to the other
-- clients. The changes are those of `applyChanges`, with their authors' ids and names.
pub mod Disclosure
use typescript_tetherdb.Base.{
  ℕ, Text, nat_key, ◌++◌, Bool, true, false, not, ◌&&◌, ◌||◌, Option, none, some, List, [], ◌∷◌,
  same, if◌then◌else◌,
}
use typescript_tetherdb.Shared.Messages.{ServerMessage, broadcast_changes}
use typescript_tetherdb.Shared.Types.{ChangeRecord}
use typescript_tetherdb.Server.Filter.{is_wanted, TableCache, cached_table, sent_payload}
use typescript_tetherdb.Server.Security.{is_permission_allowed, is_owner}
use typescript_tetherdb.Server.Table.{Table, is_private, can_read, can_access}
use typescript_tetherdb.Server.User.{User, is_admin, is_authenticated}

pub record ActiveClient : Type 0 where
  pub web_socket : ℕ
  pub client_id : Text
  pub user : User
  pub tables : Option (List Text)

module _ {V : Type 0} where
  -- `table.canRead(user, recordContext)`: no author and an empty one are no record.
  abbrev pub can_read_of : Table V → User → Option Text → Bool
  can_read_of table user none = can_access table.settings.permissions.read user
  can_read_of table user (some []) = can_access table.settings.permissions.read user
  can_read_of table user (some (x ∷ xs)) =
      is_permission_allowed table.settings.permissions.read user (some (x ∷ xs))

  -- Whether a change passes the tests on its table.
  unfoldable pub is_broadcast : User → Option (Table V) → ChangeRecord V → Bool
  is_broadcast user none c = false
  is_broadcast user (some table) c =
      can_read table user none
      && (not (
            is_private table
            && (not (is_admin user)
                && (not (is_authenticated user) || not (is_owner c.user_id user))))
          && can_read_of table user c.user_id)

  abbrev pub broadcast_change : ChangeRecord V → ChangeRecord V
  broadcast_change c = record c { payload = sent_payload c.op c.payload; user_id = none }

  -- A message with at least one change, to a socket that is open.
  abbrev pub message_for :
      (ℕ → Bool) → ActiveClient → Text → ℕ → List (ChangeRecord V) → List (ℕ × ServerMessage V)
  message_for is_open client sender seq [] = []
  message_for is_open client sender seq (c ∷ cs) =
      if is_open client.web_socket
      then (client.web_socket, broadcast_changes seq sender (c ∷ cs)) ∷ []
      else []

  module _ (table_lookup : Text → Option (Table V)) where
    -- The changes for one client, and the cache of tables.
    unfoldable pub client_changes :
        User
        → Option (List Text)
        → List (ChangeRecord V)
        → TableCache V
        → TableCache V × List (ChangeRecord V)
    unfolding is_broadcast cached_table
    client_changes user filters [] cache = (cache, [])
    client_changes user filters (c ∷ cs) cache =
        let (cache', table) = cached_table table_lookup c.table cache in
        let unwanted = client_changes user filters cs cache in
        let looked_up = client_changes user filters cs cache' in
        if is_wanted filters c.table
        then (if is_broadcast user table c
            then (looked_up.0, broadcast_change c ∷ looked_up.1)
            else looked_up)
        else unwanted

    -- The messages, each with the socket that it goes to. The loop's waits for `getTable` are left out:
    -- the clients, the tables and the sockets stay as they are meanwhile.
    unfoldable pub broadcast :
        (ℕ → Bool)
        → ℕ
        → Text
        → ℕ
        → List (ChangeRecord V)
        → List ActiveClient
        → TableCache V
        → List (ℕ × ServerMessage V)
    unfolding client_changes
    broadcast is_open sender_socket sender seq changes [] cache = []
    broadcast is_open sender_socket sender seq changes (client ∷ clients) cache =
        let (cache', cs) = client_changes client.user client.tables changes cache in
        let passed = broadcast is_open sender_socket sender seq changes clients cache in
        let rest = broadcast is_open sender_socket sender seq changes clients cache' in
        if same client.web_socket sender_socket
        then passed
        else message_for is_open client sender seq cs ++ rest
