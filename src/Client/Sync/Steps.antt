-- ===== src/Client/Sync/Steps.antt =====
-- The steps of src/src/client/sync/sync.ts, in any order: pushes stage by stage, messages of the
-- server, local writes, requests, and what the connection goes through. Only the clearing of the
-- storage is not among them.
use typescript_tetherdb.Base.{ℕ, Text, Bool, true, Option, List, ◌≡◌}
use typescript_tetherdb.Client.Connection
use typescript_tetherdb.Client.Connection.{ConnectionManager}
use typescript_tetherdb.Client.Connection.Steps
use typescript_tetherdb.Client.Storage.{LocalMutationItem, apply_local_changes}
use typescript_tetherdb.Client.Sync.{
  Sync, schedule_push, push_timer_fires, start_push, read_outbox, finish_push, fail_push, send_auth,
  register_user, login_user, logout_user, handle_connection_error, handle_connection_close,
  disconnect, destroy, handle_server_message,
}
use typescript_tetherdb.Shared.Messages.{ClientMessage, ServerMessage}

module _ {V : Type 0} (null undefined : V) (encode : ClientMessage V → Text)
    (options : Connection.SyncOptions) (constructs : Text → Bool) where
  pub data Step : Sync V → Sync V → Type 0 where
    schedule_step : (delay : ℕ) (s : Sync V) → Step s (schedule_push delay s)
    timer_step : (s : Sync V) → Step s (push_timer_fires s)
    push_step : (s : Sync V) → Step s (start_push s)
    read_step : (s : Sync V) → s.is_pushing ≡ true → Step s (read_outbox s)
    finish_step :
        (batch_id : Text) (s : Sync V)
        → s.is_pushing ≡ true
        → Step s (finish_push encode batch_id s)
    fail_step : (s : Sync V) → s.is_pushing ≡ true → Step s (fail_push s)
    auth_step : (s : Sync V) → Step s (send_auth encode s)
    register_step :
        (request_id user_name password : Text) (s : Sync V)
        → Step s (register_user encode request_id user_name password s)
    login_step :
        (request_id : Text) (user_name password token : Option Text) (s : Sync V)
        → Step s (login_user encode request_id user_name password token s)
    logout_step : (request_id : Text) (s : Sync V) → Step s (logout_user encode request_id s)
    message_step :
        (now : ℕ) (message : ServerMessage V) (s : Sync V)
        → Step s (handle_server_message options undefined now message s)
    write_step :
        (table : Text) (now : ℕ) (items : List (LocalMutationItem V)) (s : Sync V)
        → Step s (record s { storage = (apply_local_changes null table now items s.storage).0 })
    connection_step :
        (c : ConnectionManager) (token : Option Text) (s : Sync V)
        → Connection.Steps.Step options constructs s.connection c
        → Step s (record s { connection = c; token = token })
    error_step : (s : Sync V) → Step s (handle_connection_error s)
    close_step :
        (c : ConnectionManager) (s : Sync V)
        → Connection.Steps.Step options constructs s.connection c
        → Step s (handle_connection_close (record s { connection = c }))
    disconnect_step : (s : Sync V) → Step s (disconnect s)
    destroy_step : (s : Sync V) → Step s (destroy s)

  pub data Reach : Sync V → Sync V → Type 0 where
    start : (s : Sync V) → Reach s s
    next : (a b c : Sync V) → Reach a b → Step b c → Reach a c
