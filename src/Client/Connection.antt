-- ===== src/Client/Connection.antt =====
-- src/src/client/sync/connection.ts: the connection manager. The state holds the sockets that it made,
-- too, which the browser moves from one ready state to the next; `handled` says whether a socket still
-- has its handlers. `log` gathers the calls of the callbacks and listeners, and what is sent, the
-- latest first. An error event and its message do not differ.
pub mod Steps
pub mod Sound
pub mod Backoff
pub mod Orphan
use typescript_tetherdb.Base.{
  ℕ, ◌+◌, ◌*◌, ◌^◌, min, Text, text, nat_key, Bool, true, false, not, ◌&&◌, ◌||◌, Option, none,
  some, List, [], ◌∷◌, get_or, is_some, if◌then◌else◌, ◌==◌, ltb,
}
use typescript_tetherdb.Base.Dict
use typescript_tetherdb.Base.Dict.{Dict}

pub data SyncStatus : Type 0 where
  disconnected connecting connected error : SyncStatus

-- `readyState`
pub data ReadyState : Type 0 where
  starting open_state closing closed : ReadyState

pub record Socket : Type 0 where
  pub ready : ReadyState
  pub handled : Bool

pub data Effect : Type 0 where
  status_changed : SyncStatus → Effect
  on_open on_error : Effect
  on_message : Text → Effect
  on_close : ℕ → Effect
  sent : ℕ → Text → Effect

pub record SyncOptions : Type 0 where
  pub reconnect_interval_ms : Option ℕ
  pub max_reconnect_interval_ms : Option ℕ
  pub ping_interval_ms : Option ℕ

pub record ConnectionManager : Type 0 where
  pub url : Option Text
  pub web_socket : Option ℕ
  pub current_status : SyncStatus
  -- The delay of the timer that is set.
  pub reconnect_timer : Option ℕ
  pub reconnect_attempts : ℕ
  pub is_pinging : Bool
  pub is_destroyed : Bool
  pub sockets : Dict ℕ Socket
  pub next_socket : ℕ
  pub is_online : Bool
  pub log : List Effect

abbrev pub new_connection_manager : Option Text → Bool → ConnectionManager
new_connection_manager url is_online = record {
  url = url;
  web_socket = none;
  current_status = disconnected;
  reconnect_timer = none;
  reconnect_attempts = 0;
  is_pinging = false;
  is_destroyed = false;
  sockets = [];
  next_socket = 0;
  is_online = is_online;
  log = [];
}

abbrev pub emit : Effect → ConnectionManager → ConnectionManager
emit e c = record c { log = e ∷ c.log }

abbrev pub same_status : SyncStatus → SyncStatus → Bool
same_status disconnected disconnected = true
same_status connecting connecting = true
same_status connected connected = true
same_status error error = true
same_status _ _ = false

unfoldable pub set_status : SyncStatus → ConnectionManager → ConnectionManager
set_status new_status c =
    if same_status c.current_status new_status
    then c
    else emit (status_changed new_status) (record c { current_status = new_status })

abbrev pub ready_of : Option Socket → Option ReadyState
ready_of none = none
ready_of (some s) = some s.ready

-- The ready state of the socket in use.
abbrev pub ready_state : Option ℕ → Dict ℕ Socket → Option ReadyState
ready_state none sockets = none
ready_state (some i) sockets = ready_of (Dict.get i sockets)

abbrev pub is_open_state : Option ReadyState → Bool
is_open_state (some open_state) = true
is_open_state _ = false

abbrev pub is_starting_state : Option ReadyState → Bool
is_starting_state (some starting) = true
is_starting_state _ = false

abbrev pub is_open : ConnectionManager → Bool
is_open c = is_open_state (ready_state c.web_socket c.sockets)

abbrev pub is_connecting : ConnectionManager → Bool
is_connecting c = is_starting_state (ready_state c.web_socket c.sockets)

unfoldable pub stop_ping : ConnectionManager → ConnectionManager
stop_ping c = record c { is_pinging = false }

-- `clearTimeout(this.reconnectTimer)`, if it is set.
unfoldable pub clear_timer : ConnectionManager → ConnectionManager
clear_timer c = record c { reconnect_timer = none }

-- `terminate()` or `close()` of a socket whose handlers are taken off.
abbrev pub shut : Socket → Socket
shut s = record {
  ready =
      if is_open_state (some s.ready) || is_starting_state (some s.ready) then closing else s.ready;
  handled = false;
}

abbrev pub shut_socket : Option ℕ → Dict ℕ Socket → Dict ℕ Socket
shut_socket none sockets = sockets
shut_socket (some i) sockets = elim (Dict.get i sockets) [
  | none ↦ sockets
  | some s ↦ Dict.put i (shut s) sockets
]

-- What `disconnect` does before it sets the status.
abbrev pub cut_off : ConnectionManager → ConnectionManager
cut_off c = record c {
  is_pinging = false;
  reconnect_timer = none;
  web_socket = none;
  sockets = shut_socket c.web_socket c.sockets;
}

unfoldable pub disconnect : ConnectionManager → ConnectionManager
unfolding set_status
disconnect c = set_status disconnected (cut_off c)

unfoldable pub destroy : ConnectionManager → ConnectionManager
destroy c = disconnect (record c { is_destroyed = true })

unfoldable pub send_over : Option ℕ → Text → ConnectionManager → ConnectionManager × Bool
send_over none message c = (c, false)
send_over (some i) message c = (if is_open c then emit (sent i message) c else c, is_open c)

unfoldable pub send : Text → ConnectionManager → ConnectionManager × Bool
unfolding send_over
send message c = send_over c.web_socket message c

unfoldable pub ping_fires : ConnectionManager → ConnectionManager
unfolding send
ping_fires c = (send (text "{\"type\":\"ping\"}") c).0

unfoldable pub handle_offline : ConnectionManager → ConnectionManager
unfolding disconnect
handle_offline c =
    if c.is_destroyed
    then c
    else let c' = clear_timer c in if is_some c.web_socket then disconnect c' else c'

-- `if (url) this.url = url`: an empty text is none.
abbrev pub chosen_url : Option Text → Option Text → Option Text
chosen_url none old = old
chosen_url (some []) old = old
chosen_url (some (x ∷ xs)) old = some (x ∷ xs)

-- An open socket that is not yet authenticated sends its authentication again.
unfoldable pub use_open_socket : ConnectionManager → ConnectionManager
unfolding set_status
use_open_socket c =
    if same_status c.current_status connected then c else emit on_open (set_status connecting c)

module _ (options : SyncOptions) where
  -- An interval of 0 is no interval.
  unfoldable pub start_ping : ConnectionManager → ConnectionManager
  start_ping c = record c { is_pinging = ltb 0 (get_or options.ping_interval_ms 30000) }

  abbrev pub backoff_delay : ℕ → ℕ
  backoff_delay attempts =
      min (get_or options.reconnect_interval_ms 1000 * 2 ^ attempts)
        (get_or options.max_reconnect_interval_ms 30000)

  unfoldable pub schedule_reconnect : ConnectionManager → ConnectionManager
  schedule_reconnect c =
      if is_some c.reconnect_timer || c.is_destroyed || not c.is_online then c else record c {
        reconnect_timer = some (backoff_delay c.reconnect_attempts);
        reconnect_attempts = c.reconnect_attempts + 1;
      }

  -- The handlers of a socket.
  unfoldable pub handle_open : ConnectionManager → ConnectionManager
  unfolding start_ping
  handle_open c = emit on_open (start_ping (record c { reconnect_attempts = 0 }))

  unfoldable pub handle_close : ℕ → ConnectionManager → ConnectionManager
  unfolding stop_ping set_status schedule_reconnect
  handle_close code c =
      let c' = record (stop_ping c) { web_socket = none } in
      if c.is_destroyed
      then c'
      else let c'' = emit (on_close code) (set_status disconnected c') in
        if code == 1000 || code == 1005 then c'' else schedule_reconnect c''

  -- Whether `new WebSocketClass(url)` gives a socket; it throws if there is no class or the URL is bad.
  module _ (constructs : Text → Bool) where
    -- The rest of `connect` once no socket is in the way.
    unfoldable pub open_socket : Text → ConnectionManager → ConnectionManager
    unfolding set_status schedule_reconnect
    open_socket url c =
        let c' = set_status connecting c in
        if constructs url
        then record c' {
          web_socket = some c'.next_socket;
          sockets =
              Dict.put c'.next_socket (record { ready = starting; handled = true }) c'.sockets;
          next_socket = c'.next_socket + 1;
        }
        else schedule_reconnect (emit on_error (set_status error c'))

    unfoldable pub connect_to : Text → ConnectionManager → ConnectionManager
    unfolding open_socket use_open_socket
    connect_to url c =
        let c' = clear_timer c in
        if is_open c'
        then use_open_socket c'
        else if is_connecting c'
        then set_status connecting c'
        else open_socket url c'

    unfoldable pub connect_chosen : Option Text → ConnectionManager → ConnectionManager
    unfolding connect_to
    connect_chosen none c = c
    connect_chosen (some []) c = c
    connect_chosen (some (x ∷ xs)) c = if c.is_destroyed then c else connect_to (x ∷ xs) c

    unfoldable pub connect : Option Text → ConnectionManager → ConnectionManager
    unfolding connect_chosen
    connect url c =
        let chosen = chosen_url url c.url in connect_chosen chosen (record c { url = chosen })

    unfoldable pub timer_fires : ConnectionManager → ConnectionManager
    unfolding connect
    timer_fires c = connect none (record c { reconnect_timer = none })

    unfoldable pub handle_online : ConnectionManager → ConnectionManager
    unfolding connect
    handle_online c =
        if c.is_destroyed || not (is_some c.url)
        then c
        else connect none (record c { reconnect_attempts = 0; reconnect_timer = none })
