-- ===== src/Server/Sessions/Steps.antt =====
-- The steps of the connections of src/src/server/sync.ts.
use typescript_tetherdb.Base.{ℕ, Bool, ◌≡◌, Text, text_key, nat_key, Option}
use typescript_tetherdb.Server.Sessions.{
  Sessions, handle_connection, auth_times_out, handle_auth_message, finish_login,
  finish_registration, handle_logout_message, cleanup_connection,
}
use typescript_tetherdb.Server.Errors.{ok, throw, ErrorCode}
use typescript_tetherdb.Shared.Messages.{AuthClientMessage}
use typescript_tetherdb.Server.User.{User, user_id}
use typescript_tetherdb.Server.Sessions.Counting.{connections}

-- The handlers, in any order, and changes of the sockets' `readyState`. A registration gives an account that has no connection yet.
pub data Step : Sessions → Sessions → Type 0 where
  readiness_step : (is_open : ℕ → Bool) (s : Sessions) → Step s (record s { is_open = is_open })
  connect_step :
      (socket : ℕ) (ip : Text) (now : ℕ) (s : Sessions) → Step s (handle_connection socket ip now s)
  timeout_step : (socket : ℕ) (s : Sessions) → Step s (auth_times_out socket s)
  auth_step :
      (socket : ℕ) (msg : AuthClientMessage) (resolved : Option User) (now : ℕ) (s : Sessions)
      → Step s (handle_auth_message socket msg resolved now s).0
  login_step :
      (socket : ℕ) (user : User) (new_id : Text) (request_id : Option Text) (s : Sessions)
      → Step s (finish_login socket user new_id request_id s)
  registration_step :
      (socket : ℕ) (user : User) (new_id : Text) (request_id : Option Text) (s : Sessions)
      → connections (user_id user) s.clients ≡ 0
      → Step s (finish_registration socket (ok user) new_id request_id s)
  refusal_step :
      (socket : ℕ) (e : ErrorCode) (new_id : Text) (request_id : Option Text) (s : Sessions)
      → Step s (finish_registration socket (throw e) new_id request_id s)
  logout_step :
      (socket : ℕ) (request_id : Option Text) (s : Sessions)
      → Step s (handle_logout_message socket request_id s)
  close_step : (socket : ℕ) (s : Sessions) → Step s (cleanup_connection socket s)

pub data Reach : Sessions → Sessions → Type 0 where
  start : (s : Sessions) → Reach s s
  next : (a b c : Sessions) → Reach a b → Step b c → Reach a c
