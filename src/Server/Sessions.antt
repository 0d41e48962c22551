-- ===== src/Server/Sessions.antt =====
-- The connections of src/src/server/sync.ts and their users: a handler is taken from the last answer of
-- the storage that it waits for, and what it waited for is an argument. The set of clients and the map
-- from sockets to them are one map. `answers` gathers what goes to the sockets, the latest first; the
-- first synchronisation after it and the logger are left out.
pub mod Counting
pub mod Steps
pub mod Limit
use typescript_tetherdb.Base.{
  ℕ, ◌+◌, Text, text, text_key, nat_key, Bool, true, false, not, ◌&&◌, ◌||◌, Option, none, some,
  List, [], ◌∷◌, ◌==◌, leb, ltb, get_or, is_some, same, if◌then◌else◌,
}
use typescript_tetherdb.Base.Dict
use typescript_tetherdb.Base.Dict.{Dict}
use typescript_tetherdb.Shared.Messages.{AuthClientMessage, protocol_version}
use typescript_tetherdb.Server.Broadcast.{ActiveClient}
use typescript_tetherdb.Server.Errors.{Result, ok, throw}
use typescript_tetherdb.Server.RateLimiter
use typescript_tetherdb.Server.RateLimiter.{RateLimiter, consume, record_failure}
use typescript_tetherdb.Server.User.{User, anonymous, user_id, is_authenticated}
use typescript_tetherdb.Server.Validate.{validate_identifier}

-- What goes to a socket.
pub data Answer : Type 0 where
  auth_error auth_success : Option Text → Answer
  close_socket : Answer

pub record Sessions : Type 0 where
  pub max_connections : ℕ
  pub auth_timeout_ms : ℕ
  pub rate_limiter : Option RateLimiter
  pub clients : Dict ℕ ActiveClient
  pub pending_auth_timers : Dict ℕ ℕ
  pub socket_ips : Dict ℕ Text
  pub answers : List (ℕ × Answer)
  -- The sockets whose `readyState` is `OPEN`.
  pub is_open : ℕ → Bool

abbrev pub new_sessions : Option ℕ → Option ℕ → Option RateLimiter → (ℕ → Bool) → Sessions
new_sessions max_connections auth_timeout_ms rate_limiter is_open = record {
  max_connections = get_or max_connections 20;
  auth_timeout_ms = get_or auth_timeout_ms 10000;
  rate_limiter = rate_limiter;
  clients = [];
  pending_auth_timers = [];
  socket_ips = [];
  answers = [];
  is_open = is_open;
}

-- `send`: nothing goes to a socket that is not open.
abbrev pub answer : ℕ → Answer → Sessions → Sessions
answer socket a s = record s {
  answers = if s.is_open socket then (socket, a) ∷ s.answers else s.answers;
}

abbrev pub close_web_socket : ℕ → Sessions → Sessions
close_web_socket socket s = record s { answers = (socket, close_socket) ∷ s.answers }

-- An error, and the end of the connection.
abbrev pub turn_away : ℕ → Sessions → Sessions
turn_away socket s = close_web_socket socket (answer socket (auth_error none) s)

abbrev pub ip_of : ℕ → Sessions → Text
ip_of socket s = get_or (Dict.get socket s.socket_ips) (text "127.0.0.1")

unfoldable pub note_failure : Text → ℕ → Option RateLimiter → Option RateLimiter
note_failure key now none = none
note_failure key now (some l) = some (record_failure key now l).0

unfoldable pub forgive : Text → Option RateLimiter → Option RateLimiter
forgive key none = none
forgive key (some l) = some (RateLimiter.reset key l)

-- Without a limiter every attempt is granted.
unfoldable pub consume_from : Text → ℕ → Option RateLimiter → Option RateLimiter × Bool
consume_from key now none = (none, true)
consume_from key now (some l) = let (l', granted) = consume key now l in (some l', granted)

unfoldable pub handle_connection : ℕ → Text → ℕ → Sessions → Sessions
unfolding consume_from
handle_connection socket ip now s =
    let (limiter, granted) = consume_from ip now s.rate_limiter in
    let s' = record s { socket_ips = Dict.put socket ip s.socket_ips; rate_limiter = limiter } in
    if not granted
    then turn_away socket s'
    else if ltb 0 s.auth_timeout_ms
    then record s' { pending_auth_timers = Dict.put socket s.auth_timeout_ms s.pending_auth_timers }
    else s'

unfoldable pub auth_times_out : ℕ → Sessions → Sessions
auth_times_out socket s = if Dict.has socket s.clients then s else turn_away socket s

unfoldable pub clear_pending_auth_timer : ℕ → Sessions → Sessions
clear_pending_auth_timer socket s = record s {
  pending_auth_timers = Dict.delete socket s.pending_auth_timers;
}

-- The connections of a user but one.
unfoldable pub count_user_connections : Text → ℕ → Dict ℕ ActiveClient → ℕ
count_user_connections id exclude [] = 0
count_user_connections id exclude ((socket, c) ∷ clients) =
    let rest = count_user_connections id exclude clients in
    if is_authenticated c.user && (same (user_id c.user) id && not (same socket exclude))
    then rest + 1
    else rest

abbrev pub is_full : User → ℕ → Sessions → Bool
is_full user socket s =
    leb s.max_connections (count_user_connections (user_id user) socket s.clients)

-- The client that takes the place of the one that the socket had.
abbrev pub replace_client : ℕ → Text → User → Option (List Text) → Sessions → Sessions
replace_client socket client_id user tables s = record s {
  clients =
      Dict.put socket
        (record { web_socket = socket; client_id = client_id; user = user; tables = tables })
        (Dict.delete socket s.clients);
}

unfoldable pub enter :
    ℕ → User → Option (List Text) → Result Text → Sessions → Sessions × Result (Unit {0})
unfolding clear_pending_auth_timer
enter socket user tables (throw e) s = (s, throw e)
enter socket user tables (ok client_id) s = (
  answer socket (auth_success none)
      (clear_pending_auth_timer socket (replace_client socket client_id user tables s)),
  ok tt,
)

-- The rest of `handleAuthMessage` once the user is known.
unfoldable pub admit : ℕ → AuthClientMessage → User → Sessions → Sessions × Result (Unit {0})
unfolding enter
admit socket msg user s =
    if is_authenticated user && is_full user socket s
    then (turn_away socket s, ok tt)
    else enter socket user msg.tables
        (validate_identifier (get_or msg.client_id (text "client_anon")))
        (record s { rate_limiter = forgive (ip_of socket s) s.rate_limiter })

abbrev pub fail_auth : ℕ → ℕ → Sessions → Sessions
fail_auth socket now s =
    turn_away socket (record s { rate_limiter = note_failure (ip_of socket s) now s.rate_limiter })

-- The user of the socket's client, if it has one.
abbrev pub user_of : Option ActiveClient → User
user_of none = anonymous
user_of (some c) = c.user

unfoldable pub identify :
    ℕ → AuthClientMessage → Option Text → Option User → ℕ → Sessions → Sessions × Result (Unit {0})
unfolding admit
identify socket msg none resolved now s = admit socket msg (user_of (Dict.get socket s.clients)) s
identify socket msg (some []) resolved now s =
    admit socket msg (user_of (Dict.get socket s.clients)) s
identify socket msg (some (x ∷ xs)) none now s = (fail_auth socket now s, ok tt)
identify socket msg (some (x ∷ xs)) (some user) now s = admit socket msg user s

-- With the user that `getUserByToken` gives for the token.
unfoldable pub handle_auth_message :
    ℕ → AuthClientMessage → Option User → ℕ → Sessions → Sessions × Result (Unit {0})
unfolding identify
handle_auth_message socket msg resolved now s =
    if not (msg.version == protocol_version)
    then (fail_auth socket now s, ok tt)
    else identify socket msg msg.token resolved now s

-- A client that is there takes the user; a new one has the id that the runtime makes up.
unfoldable pub with_user : ℕ → User → Text → Option ActiveClient → Sessions → Sessions
with_user socket user new_id none s = record s {
  clients =
      Dict.put socket
        (record { web_socket = socket; client_id = new_id; user = user; tables = none }) s.clients;
}
with_user socket user new_id (some c) s = record s {
  clients = Dict.put socket (record c { user = user }) s.clients;
}

unfoldable pub complete_authentication : ℕ → User → Text → Option Text → Sessions → Sessions
unfolding with_user clear_pending_auth_timer
complete_authentication socket user new_id request_id s =
    answer socket (auth_success request_id)
      (clear_pending_auth_timer socket (with_user socket user new_id (Dict.get socket s.clients) s))

-- The end of `handleLoginMessage`, once the credentials are found to be those of the user.
unfoldable pub finish_login : ℕ → User → Text → Option Text → Sessions → Sessions
unfolding complete_authentication
finish_login socket user new_id request_id s =
    if is_full user socket s
    then answer socket (auth_error request_id) s
    else complete_authentication socket user new_id request_id s

-- The end of `handleRegisterMessage`, with what `createUser` gave.
unfoldable pub finish_registration : ℕ → Result User → Text → Option Text → Sessions → Sessions
unfolding complete_authentication
finish_registration socket (throw e) new_id request_id s = answer socket (auth_error request_id) s
finish_registration socket (ok user) new_id request_id s =
    complete_authentication socket user new_id request_id s

unfoldable pub sign_out : Option ActiveClient → ℕ → Sessions → Sessions
sign_out none socket s = s
sign_out (some c) socket s = record s {
  clients = Dict.put socket (record c { user = anonymous }) s.clients;
}

unfoldable pub handle_logout_message : ℕ → Option Text → Sessions → Sessions
unfolding sign_out
handle_logout_message socket request_id s =
    answer socket (auth_success request_id) (sign_out (Dict.get socket s.clients) socket s)

unfoldable pub cleanup_connection : ℕ → Sessions → Sessions
unfolding clear_pending_auth_timer
cleanup_connection socket s = record (clear_pending_auth_timer socket s) {
  socket_ips = Dict.delete socket s.socket_ips;
  clients = Dict.delete socket s.clients;
}
