-- ===== src/Client/Connection/Steps.antt =====
-- The steps of the connection manager of src/src/client/sync/connection.ts: the calls of its methods,
-- its timers, and what the browser does with sockets and the network, in any order. The listeners for
-- the network's state are taken off by `destroy`.
use typescript_tetherdb.Base.{ℕ, ◌≡◌, Text, nat_key, Bool, true, false, Option, none, some}
use typescript_tetherdb.Base.Dict
use typescript_tetherdb.Base.Dict.{Dict}
use typescript_tetherdb.Client.Connection.{
  SyncStatus, ReadyState, open_state, closing, closed, Socket, on_error, on_message, SyncOptions,
  ConnectionManager, emit, set_status, disconnect, destroy, send, start_ping, connect, handle_open,
  handle_close, timer_fires, ping_fires, handle_online, handle_offline,
}

-- The browser moves a socket to a ready state.
abbrev pub with_ready : Option Socket → ℕ → ReadyState → ConnectionManager → ConnectionManager
with_ready none i ready c = c
with_ready (some s) i ready c = record c {
  sockets = Dict.put i (record s { ready = ready }) c.sockets;
}

abbrev pub move_socket : ℕ → ReadyState → ConnectionManager → ConnectionManager
move_socket i ready c = with_ready (Dict.get i c.sockets) i ready c

abbrev pub is_handled : ℕ → ConnectionManager → Bool
is_handled i c = elim (Dict.get i c.sockets) [ none ↦ false | some s ↦ s.handled ]

module _ (options : SyncOptions) (constructs : Text → Bool) where
  pub data Step : ConnectionManager → ConnectionManager → Type 0 where
    connect_step :
        (url : Option Text) (c : ConnectionManager) → Step c (connect options constructs url c)
    send_step : (message : Text) (c : ConnectionManager) → Step c (send message c).0
    disconnect_step : (c : ConnectionManager) → Step c (disconnect c)
    destroy_step : (c : ConnectionManager) → Step c (destroy c)
    status_step : (status : SyncStatus) (c : ConnectionManager) → Step c (set_status status c)
    start_ping_step : (c : ConnectionManager) → Step c (start_ping options c)
    timer_step :
        (delay : ℕ) (c : ConnectionManager)
        → c.reconnect_timer ≡ some delay
        → Step c (timer_fires options constructs c)
    ping_step : (c : ConnectionManager) → c.is_pinging ≡ true → Step c (ping_fires c)
    open_step :
        (i : ℕ) (c : ConnectionManager)
        → is_handled i c ≡ true
        → Step c (handle_open options (move_socket i open_state c))
    message_step :
        (i : ℕ) (message : Text) (c : ConnectionManager)
        → is_handled i c ≡ true
        → Step c (emit (on_message message) c)
    error_step : (i : ℕ) (c : ConnectionManager) → is_handled i c ≡ true → Step c (emit on_error c)
    closing_step : (i : ℕ) (c : ConnectionManager) → Step c (move_socket i closing c)
    close_step :
        (i code : ℕ) (c : ConnectionManager)
        → is_handled i c ≡ true
        → Step c (handle_close options code (move_socket i closed c))
    -- A socket without handlers.
    unhandled_step :
        (i : ℕ) (ready : ReadyState) (c : ConnectionManager)
        → is_handled i c ≡ false
        → Step c (move_socket i ready c)
    online_step :
        (c : ConnectionManager)
        → Step c (handle_online options constructs (record c { is_online = true }))
    offline_step :
        (c : ConnectionManager) → Step c (handle_offline (record c { is_online = false }))

  pub data Reach : ConnectionManager → ConnectionManager → Type 0 where
    start : (c : ConnectionManager) → Reach c c
    next : (a b c : ConnectionManager) → Reach a b → Step b c → Reach a c
