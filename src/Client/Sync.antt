-- ===== src/Client/Sync.antt =====
-- src/src/client/sync/sync.ts: the synchronisation of the storage with a server. The handler of a
-- message runs as one step, up to the push that it ends with. A push is three: its start, the reading
-- of the outbox, and the sending. `sent` gathers the messages that went to the socket, and `log` what
-- the listeners and the callers of requests are told, both the latest first. A timer is set if its
-- delay is there; the time-out of a request is not modelled.
pub mod Steps
pub mod Single
pub mod Outbox
pub mod Kept
pub mod Lossless
pub mod Quiet
pub mod Delivery
use typescript_tetherdb.Base.{
  ℕ, ◌+◌, Text, text, text_key, nat_key, same, Bool, true, false, not, ◌&&◌, ◌||◌, Option, none,
  some, List, [], ◌∷◌, ◌++◌, get_or, is_some, if◌then◌else◌, map,
}
use typescript_tetherdb.Base.Dict
use typescript_tetherdb.Base.Dict.{Dict}
use typescript_tetherdb.Shared.Types.{OperationType, put, delete, ChangeRecord, SnapshotRecord}
use typescript_tetherdb.Shared.Messages.{
  ClientMessage, auth, register, login, logout, change_batch, ServerMessage, pong, error,
  auth_success, auth_error, sync_snapshot, sync_diff, change_ack, broadcast_changes,
  AuthSuccessServerMessage, protocol_version,
}
use typescript_tetherdb.Client.Connection
use typescript_tetherdb.Client.Connection.{
  ConnectionManager, SyncStatus, is_open, connected, same_status,
}
use typescript_tetherdb.Client.Storage.{
  Storage, OutboxEntry, MetaValue, number, session, last_sync_seq, get_meta, set_meta,
  get_pending_outbox, remove_outbox_entries, apply_snapshot_batch, apply_remote_changes_batch,
}

pub data Notice : Type 0 where
  resolved : Text → Option Text → Option Text → Notice
  rejected : Text → Notice
  token_refreshed : Text → Notice
  failed : Notice

pub record Sync (V : Type 0) : Type 0 where
  pub client_id : Text
  pub token : Option Text
  pub tables : Option (List Text)
  pub storage : Storage V
  pub connection : ConnectionManager
  pub push_timer : Option ℕ
  pub is_pushing : Bool
  -- What a push has read.
  pub fetched : Option (List (ℕ × OutboxEntry V))
  pub accessible_tables : Option (List Text)
  pub pending_batches : Dict Text (List ℕ)
  pub pending_requests : List Text
  pub sent : List (ClientMessage V)
  pub log : List Notice

-- `!token`
abbrev pub is_blank : Option Text → Bool
is_blank none = true
is_blank (some []) = true
is_blank (some (x ∷ xs)) = false

-- `this.pendingBatches.size > 0`
abbrev pub has_pending : Dict Text (List ℕ) → Bool
has_pending [] = false
has_pending (batch ∷ batches) = true

abbrev pub contains : Text → List Text → Bool
contains name [] = false
contains name (x ∷ xs) = same x name || contains name xs

-- A list that is not there lets every table through.
abbrev pub is_let_through : Text → Option (List Text) → Bool
is_let_through name none = true
is_let_through name (some names) = contains name names

abbrev pub without : Text → List Text → List Text
without id [] = []
without id (x ∷ xs) = if same x id then without id xs else x ∷ without id xs

abbrev pub rejections : List Text → List Notice → List Notice
rejections [] log = log
rejections (id ∷ ids) log = rejections ids (rejected id ∷ log)

module _ {V : Type 0} where
  -- Whether a push takes the entry.
  unfoldable pub is_pushed : Sync V → OutboxEntry V → Bool
  is_pushed s e =
      (not (is_blank s.token) || is_let_through e.change.table s.accessible_tables)
      && is_let_through e.change.table s.tables

  -- The entries that a push sends, of those that it has read.
  unfoldable pub pushed : Sync V → List (ℕ × OutboxEntry V) → List (ℕ × OutboxEntry V)
  unfolding is_pushed
  pushed s [] = []
  pushed s ((id, e) ∷ entries) =
      let rest = pushed s entries in if is_pushed s e then (id, e) ∷ rest else rest

  abbrev pub changes_of : List (ℕ × OutboxEntry V) → List (ChangeRecord V)
  changes_of [] = []
  changes_of ((id, e) ∷ entries) = e.change ∷ changes_of entries

  unfoldable pub schedule_push : ℕ → Sync V → Sync V
  schedule_push delay s = record s { push_timer = some delay }

  abbrev pub may_push : Sync V → Bool
  may_push s = not (
      s.is_pushing
      || has_pending s.pending_batches
      || not (same_status s.connection.current_status connected)
      || not (is_open s.connection))

  -- The start of `pushOutbox`.
  unfoldable pub start_push : Sync V → Sync V
  start_push s = if may_push s then record s { is_pushing = true; fetched = none } else s

  unfoldable pub read_outbox : Sync V → Sync V
  read_outbox s = record s { fetched = some (get_pending_outbox (some 500) s.storage) }

  -- The outbox cannot be read.
  unfoldable pub fail_push : Sync V → Sync V
  fail_push s = record s { is_pushing = false; fetched = none; log = failed ∷ s.log }

  unfoldable pub push_timer_fires : Sync V → Sync V
  unfolding start_push
  push_timer_fires s = start_push (record s { push_timer = none })

  -- JSON, which the runtime writes.
  module _ (encode : ClientMessage V → Text) where
    -- `this.connection.send(...)`
    unfoldable pub send_message : ClientMessage V → Sync V → Sync V × Bool
    send_message message s =
        let (connection, ok) = Connection.send (encode message) s.connection in
        (record s { connection = connection; sent = if ok then message ∷ s.sent else s.sent }, ok)

    -- The batch was registered as pending before; it is taken back if it cannot be sent.
    unfoldable pub conclude_push : Text → Sync V × Bool → Sync V
    unfolding schedule_push
    conclude_push batch_id (s, ok) =
        if ok
        then s
        else schedule_push 200
            (record s { pending_batches = Dict.delete batch_id s.pending_batches })

    unfoldable pub send_batch : Text → List (ℕ × OutboxEntry V) → Sync V → Sync V
    unfolding send_message conclude_push
    send_batch batch_id [] s = s
    send_batch batch_id (entry ∷ entries) s = conclude_push batch_id (
        send_message
          (change_batch (record {
            batch_id = batch_id;
            client_id = s.client_id;
            changes = changes_of (entry ∷ entries);
          }))
          (record s {
            pending_batches = Dict.put batch_id (Dict.keys (entry ∷ entries)) s.pending_batches;
          }))

    unfoldable pub send_fetched : Text → Option (List (ℕ × OutboxEntry V)) → Sync V → Sync V
    unfolding send_batch pushed
    send_fetched batch_id none s = s
    send_fetched batch_id (some entries) s = record (send_batch batch_id (pushed s entries) s) {
      is_pushing = false;
      fetched = none;
    }

    -- The rest of `pushOutbox`, with the id that it makes up.
    unfoldable pub finish_push : Text → Sync V → Sync V
    unfolding send_fetched
    finish_push batch_id s = send_fetched batch_id s.fetched s

    abbrev pub number_of : Option MetaValue → Option ℕ
    number_of (some (number n)) = some n
    number_of _ = none

    -- `send`: nothing goes out if the socket is not open.
    unfoldable pub send_auth : Sync V → Sync V
    unfolding send_message
    send_auth s =
        (send_message
          (auth (record {
            version = protocol_version;
            client_id = some s.client_id;
            token = s.token;
            last_sync_seq = number_of (get_meta last_sync_seq s.storage);
            tables = s.tables;
          }))
          s).0

    -- A request, under the id that it makes up.
    unfoldable pub send_request : Text → (Text → ClientMessage V) → Sync V → Sync V
    unfolding send_message
    send_request request_id create_message s =
        (send_message (create_message request_id)
          (record s { pending_requests = request_id ∷ s.pending_requests })).0

    unfoldable pub register_user : Text → Text → Text → Sync V → Sync V
    unfolding send_request
    register_user request_id user_name password s =
        send_request request_id (λ id. register id user_name password) s

    unfoldable pub login_user : Text → Option Text → Option Text → Option Text → Sync V → Sync V
    unfolding send_request
    login_user request_id user_name password token s =
        send_request request_id (λ id. login id user_name password token) s

    unfoldable pub logout_user : Text → Sync V → Sync V
    unfolding send_request
    logout_user request_id s = send_request request_id (λ id. logout id) (record s { token = none })

  unfoldable pub reject_pending_requests : Sync V → Sync V
  reject_pending_requests s = record s {
    pending_requests = [];
    log = rejections s.pending_requests s.log;
  }

  abbrev pub forget_session : Sync V → Sync V
  forget_session s =
      reject_pending_requests (record s { accessible_tables = none; pending_batches = [] })

  unfoldable pub handle_connection_error : Sync V → Sync V
  unfolding reject_pending_requests
  handle_connection_error s =
      let s' = reject_pending_requests s in record s' { log = failed ∷ s'.log }

  unfoldable pub handle_connection_close : Sync V → Sync V
  unfolding reject_pending_requests
  handle_connection_close s = forget_session s

  unfoldable pub disconnect : Sync V → Sync V
  unfolding reject_pending_requests
  disconnect s =
      let s' = forget_session s in record s' { connection = Connection.disconnect s'.connection }

  unfoldable pub destroy : Sync V → Sync V
  unfolding disconnect
  destroy s = disconnect (record s { connection = Connection.destroy s.connection })

  -- An answer to a request that still waits.
  unfoldable pub settle : Option Text → (Text → Notice) → Sync V → Sync V
  settle none notice s = s
  settle (some []) notice s = s
  settle (some (x ∷ xs)) notice s =
      if contains (x ∷ xs) s.pending_requests
      then record s {
        pending_requests = without (x ∷ xs) s.pending_requests;
        log = notice (x ∷ xs) ∷ s.log;
      }
      else s

  unfoldable pub refresh_token : Option Text → Sync V → Sync V
  refresh_token none s = s
  refresh_token (some []) s = s
  refresh_token (some (x ∷ xs)) s = record s {
    token = some (x ∷ xs);
    log = token_refreshed (x ∷ xs) ∷ s.log;
  }

  -- An acknowledged batch leaves the outbox if it is still pending.
  unfoldable pub acknowledge : Text → Option (List ℕ) → Sync V → Sync V
  acknowledge batch_id none s = s
  acknowledge batch_id (some ids) s = record s {
    pending_batches = Dict.delete batch_id s.pending_batches;
    storage = remove_outbox_entries ids s.storage;
  }

  unfoldable pub note_applied : Option ℕ → Sync V → Sync V
  unfolding set_meta
  note_applied none s = s
  note_applied (some seq) s = record s { storage = set_meta last_sync_seq (number seq) s.storage }

  unfoldable pub give_up : Option Text → Sync V → Sync V
  give_up none s = record s { pending_batches = []; log = failed ∷ s.log }
  give_up (some []) s = record s { pending_batches = []; log = failed ∷ s.log }
  give_up (some (x ∷ xs)) s = record s {
    pending_batches = Dict.delete (x ∷ xs) s.pending_batches;
    log = failed ∷ s.log;
  }

  module _ (options : Connection.SyncOptions) where
    unfoldable pub welcome : AuthSuccessServerMessage → Sync V → Sync V
    unfolding refresh_token settle
    welcome m s =
        let s' = refresh_token m.token (record s {
          connection = Connection.set_status connected s.connection;
          accessible_tables = m.tables;
        }) in
        let s'' = settle m.request_id (λ id. resolved id m.user_name m.token) s' in
        record s'' { connection = Connection.start_ping options s''.connection }

    module _ (undefined : V) (now : ℕ) where
      unfoldable pub handle_server_message : ServerMessage V → Sync V → Sync V
      unfolding welcome settle disconnect acknowledge note_applied give_up start_push
      handle_server_message pong s = s
      handle_server_message (error batch_id) s = give_up batch_id s
      handle_server_message (auth_success m) s = start_push (welcome m s)
      handle_server_message (auth_error request_id) s =
          let s' = disconnect (
            settle request_id rejected (record s {
              accessible_tables = none;
              connection = Connection.set_status Connection.error s.connection;
            })) in
          record s' { log = failed ∷ s'.log }
      handle_server_message (sync_snapshot seq snapshot) s =
          start_push (record s { storage = apply_snapshot_batch snapshot seq now s.storage })
      handle_server_message (sync_diff from_seq to_seq changes) s =
          start_push (record s {
            storage = apply_remote_changes_batch undefined changes to_seq now s.storage;
          })
      handle_server_message (change_ack batch_id applied_seq) s =
          start_push (
            note_applied applied_seq (acknowledge batch_id (Dict.get batch_id s.pending_batches) s))
      handle_server_message (broadcast_changes seq from_client_id changes) s = record s {
        storage = apply_remote_changes_batch undefined changes seq now s.storage;
      }
