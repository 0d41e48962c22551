-- ===== src/Shared/Messages.antt =====
-- src/src/shared/types/client-messages.ts, server-messages.ts and protocol.ts: what goes over the wire.
use typescript_tetherdb.Base.{ℕ, Text, Option, List}
use typescript_tetherdb.Shared.Types.{ChangeRecord, SnapshotRecord}

abbrev pub protocol_version : ℕ
protocol_version = 1

-- A client that does not say its id is let through as an unknown one.
pub record AuthClientMessage : Type 0 where
  pub version : ℕ
  pub client_id : Option Text
  pub token : Option Text
  pub last_sync_seq : Option ℕ
  pub tables : Option (List Text)

pub record ChangeBatchClientMessage (V : Type 0) : Type 0 where
  pub batch_id : Text
  pub client_id : Text
  pub changes : List (ChangeRecord V)

-- A registration has a user name and a password, a login any of a name, a password and a token.
pub data ClientMessage (V : Type 0) : Type 0 where
  ping : ClientMessage V
  auth : AuthClientMessage → ClientMessage V
  register : Text → Text → Text → ClientMessage V
  login : Text → Option Text → Option Text → Option Text → ClientMessage V
  logout : Text → ClientMessage V
  change_batch : ChangeBatchClientMessage V → ClientMessage V

pub record AuthSuccessServerMessage : Type 0 where
  pub request_id : Option Text
  pub version : ℕ
  pub user_name : Option Text
  pub token : Option Text
  pub current_seq : ℕ
  pub tables : Option (List Text)

-- The texts of errors are left out.
pub data ServerMessage (V : Type 0) : Type 0 where
  pong : ServerMessage V
  error : Option Text → ServerMessage V
  auth_success : AuthSuccessServerMessage → ServerMessage V
  auth_error : Option Text → ServerMessage V
  sync_snapshot : ℕ → List (SnapshotRecord V) → ServerMessage V
  sync_diff : ℕ → ℕ → List (ChangeRecord V) → ServerMessage V
  change_ack : Text → Option ℕ → ServerMessage V
  broadcast_changes : ℕ → Text → List (ChangeRecord V) → ServerMessage V
