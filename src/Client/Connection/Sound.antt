-- ===== src/Client/Connection/Sound.antt =====
-- The delays of the reconnections of src/src/client/sync/connection.ts, and what no step breaks.
use typescript_tetherdb.Base.{
  ℕ, zero, suc, ◌*◌, ◌^◌, ◌≤◌, min, ◌≡◌, inl, inr, refl, text, ◌∙◌, [], ◌∷◌, Text, nat_key, Bool,
  true, false, not, ◌||◌, Option, none, some, arith, get_or, is_some, if◌then◌else◌, ◌==◌,
  Bool-cases,
}
use typescript_tetherdb.Base.Dict
use typescript_tetherdb.Base.Dict.{Dict}
use typescript_tetherdb.Client.Connection.{
  connected, sent, send_over, status_changed, is_open, is_connecting, SyncStatus, disconnected,
  connecting, error, ReadyState, open_state, closing, closed, Socket, on_open, on_error, on_close,
  SyncOptions, same_status, ConnectionManager, new_connection_manager, emit, set_status, cut_off,
  stop_ping, clear_timer, disconnect, destroy, send, start_ping, backoff_delay, schedule_reconnect,
  open_socket, use_open_socket, connect_to, connect_chosen, chosen_url, connect, handle_open,
  handle_close, timer_fires, ping_fires, handle_online, handle_offline,
}
use typescript_tetherdb.Client.Connection.Steps.{Step, Reach, move_socket, with_ready}

module _ (options : SyncOptions) where
  abbrev pub shortest_delay : ℕ
  shortest_delay =
      min (get_or options.reconnect_interval_ms 1000)
        (get_or options.max_reconnect_interval_ms 30000)

  abbrev pub longest_delay : ℕ
  longest_delay = get_or options.max_reconnect_interval_ms 30000

  abbrev pub IsTimerSound : Option ℕ → Bool → Bool → Type 0
  IsTimerSound none is_online is_destroyed = Unit
  IsTimerSound (some d) is_online is_destroyed =
      (shortest_delay ≤ d) × (d ≤ longest_delay) × (is_online ≡ true) × (is_destroyed ≡ false)

  abbrev pub IsSocketSound : Option ℕ → Bool → Type 0
  IsSocketSound none is_destroyed = Unit
  IsSocketSound (some i) is_destroyed = is_destroyed ≡ false

  -- A reconnection is only waited for by a manager that is online and not destroyed, and for a bounded
  -- time; a destroyed manager has no socket.
  abbrev pub IsSound : ConnectionManager → Type 0
  IsSound c =
      IsTimerSound c.reconnect_timer c.is_online c.is_destroyed
      × IsSocketSound c.web_socket c.is_destroyed

  one_le_pow : (k : ℕ) → 1 ≤ 2 ^ k
  one_le_pow zero = omega arith
  one_le_pow (suc k) = omega (arith, one_le_pow k)

  le_times : (a m : ℕ) → 1 ≤ m → a ≤ a * m
  le_times zero m h = omega arith
  le_times (suc a) m h = omega (arith, le_times a m h)

  backoff_delay-bounded :
      (k : ℕ)
      → (shortest_delay ≤ backoff_delay options k) × (backoff_delay options k ≤ longest_delay)
  backoff_delay-bounded k =
      let longer = le_times (get_or options.reconnect_interval_ms 1000) (2 ^ k) (one_le_pow k) in
      (omega (arith, longer), omega arith)

  -- Either branch of a test is sound.
  branch-IsSound :
      (b : Bool) (x y : ConnectionManager)
      → (b ≡ true → IsSound x)
      → (b ≡ false → IsSound y)
      → IsSound (if b then x else y)
  branch-IsSound true x y f g = f refl
  branch-IsSound false x y f g = g refl

  set_status-IsSound :
      (status : SyncStatus) (c : ConnectionManager) → IsSound c → IsSound (set_status status c)
  unfolding set_status
  set_status-IsSound status c h =
      branch-IsSound (same_status c.current_status status) c
        (emit (status_changed status) (record c { current_status = status })) (λ e. h) (λ e. h)

  set_status-is_destroyed :
      (status : SyncStatus) (c : ConnectionManager)
      → (set_status status c).is_destroyed ≡ c.is_destroyed
  unfolding set_status
  set_status-is_destroyed status c = ground arith

  schedule_reconnect-IsSound :
      (c : ConnectionManager) → IsSound c → IsSound (schedule_reconnect options c)
  unfolding schedule_reconnect
  schedule_reconnect-IsSound c h = ground (arith, backoff_delay-bounded c.reconnect_attempts)

  disconnect-IsSound : (c : ConnectionManager) → IsSound (disconnect c)
  unfolding disconnect
  disconnect-IsSound c = set_status-IsSound disconnected (cut_off c) (tt, tt)

  clear_timer-IsSound : (c : ConnectionManager) → IsSound c → IsSound (clear_timer c)
  unfolding clear_timer
  clear_timer-IsSound c h = (tt, h.1)

  clear_timer-is_destroyed : (c : ConnectionManager) → (clear_timer c).is_destroyed ≡ c.is_destroyed
  unfolding clear_timer
  clear_timer-is_destroyed c = refl

  use_open_socket-IsSound : (c : ConnectionManager) → IsSound c → IsSound (use_open_socket c)
  unfolding use_open_socket
  use_open_socket-IsSound c h =
      branch-IsSound (same_status c.current_status connected) c
        (emit on_open (set_status connecting c)) (λ e. h) (λ e. set_status-IsSound connecting c h)

  handle_open-IsSound : (c : ConnectionManager) → IsSound c → IsSound (handle_open options c)
  unfolding handle_open start_ping
  handle_open-IsSound c h = h

  handle_close-IsSound :
      (code : ℕ) (c : ConnectionManager) → IsSound c → IsSound (handle_close options code c)
  unfolding handle_close stop_ping
  handle_close-IsSound code c h =
      let gone = record (stop_ping c) { web_socket = none } in
      let told = emit (on_close code) (set_status disconnected gone) in
      let told_sound = set_status-IsSound disconnected gone (h.0, tt) in
      branch-IsSound c.is_destroyed gone
        (if code == 1000 || code == 1005 then told else schedule_reconnect options told)
        (λ e. (h.0, tt))
        (λ e.
          branch-IsSound (code == 1000 || code == 1005) told (schedule_reconnect options told)
            (λ k. told_sound) (λ k. schedule_reconnect-IsSound told told_sound))

  offline-IsTimerSound :
      (t : Option ℕ) (online destroyed : Bool)
      → destroyed ≡ true
      → IsTimerSound t online destroyed
      → IsTimerSound t false destroyed
  offline-IsTimerSound none online destroyed d h = tt
  offline-IsTimerSound (some t) online destroyed d h = ground arith

  handle_offline-IsSound :
      (c : ConnectionManager)
      → IsSound c
      → IsSound (handle_offline (record c { is_online = false }))
  unfolding handle_offline clear_timer
  handle_offline-IsSound c h =
      let off = record c { is_online = false } in
      branch-IsSound c.is_destroyed off
        (if is_some c.web_socket then disconnect (clear_timer off) else clear_timer off)
        (λ d. (offline-IsTimerSound c.reconnect_timer c.is_online c.is_destroyed d h.0, h.1))
        (λ d.
          branch-IsSound (is_some c.web_socket) (disconnect (clear_timer off)) (clear_timer off)
            (λ e. disconnect-IsSound (clear_timer off)) (λ e. (tt, h.1)))

  send_over-IsSound :
      (i : Option ℕ) (message : Text) (c : ConnectionManager)
      → IsSound c
      → IsSound (send_over i message c).0
  unfolding send_over
  send_over-IsSound none message c h = h
  send_over-IsSound (some i) message c h =
      branch-IsSound (is_open c) (emit (sent i message) c) c (λ e. h) (λ e. h)

  send-IsSound : (message : Text) (c : ConnectionManager) → IsSound c → IsSound (send message c).0
  unfolding send
  send-IsSound message c h = send_over-IsSound c.web_socket message c h

  with_ready-IsSound :
      (s : Option Socket) (i : ℕ) (ready : ReadyState) (c : ConnectionManager)
      → IsSound c
      → IsSound (with_ready s i ready c)
  with_ready-IsSound none i ready c h = h
  with_ready-IsSound (some s) i ready c h = h

  move_socket-IsSound :
      (i : ℕ) (ready : ReadyState) (c : ConnectionManager)
      → IsSound c
      → IsSound (move_socket i ready c)
  move_socket-IsSound i ready c h = with_ready-IsSound (Dict.get i c.sockets) i ready c h

  module _ (constructs : Text → Bool) where
    open_socket-IsSound :
        (url : Text) (c : ConnectionManager)
        → c.is_destroyed ≡ false
        → IsSound c
        → IsSound (open_socket options constructs url c)
    unfolding open_socket
    open_socket-IsSound url c n h =
        let h' = set_status-IsSound connecting c h in
        elim (Bool-cases (constructs url)) [
          | inl e ↦ rw e (h'.0, set_status-is_destroyed connecting c ∙ n)
          | inr e ↦ rw e (
              schedule_reconnect-IsSound
                (emit on_error (set_status error (set_status connecting c)))
                (set_status-IsSound error (set_status connecting c) h'))
        ]

    connect_to-IsSound :
        (url : Text) (c : ConnectionManager)
        → c.is_destroyed ≡ false
        → IsSound c
        → IsSound (connect_to options constructs url c)
    unfolding connect_to
    connect_to-IsSound url c n h =
        let c' = clear_timer c in
        let h' : IsSound (clear_timer c) = clear_timer-IsSound c h in
        branch-IsSound (is_open c') (use_open_socket c')
          (if is_connecting c'
            then set_status connecting c'
            else open_socket options constructs url c')
          (λ e. use_open_socket-IsSound c' h')
          (λ e.
            branch-IsSound (is_connecting c') (set_status connecting c')
              (open_socket options constructs url c') (λ k. set_status-IsSound connecting c' h')
              (λ k. open_socket-IsSound url c' (clear_timer-is_destroyed c ∙ n) h'))

    connect_chosen-IsSound :
        (url : Option Text) (c : ConnectionManager)
        → IsSound c
        → IsSound (connect_chosen options constructs url c)
    unfolding connect_chosen
    connect_chosen-IsSound none c h = h
    connect_chosen-IsSound (some []) c h = h
    connect_chosen-IsSound (some (x ∷ xs)) c h =
        branch-IsSound c.is_destroyed c (connect_to options constructs (x ∷ xs) c) (λ e. h)
          (λ e. connect_to-IsSound (x ∷ xs) c e h)

    connect-IsSound :
        (url : Option Text) (c : ConnectionManager)
        → IsSound c
        → IsSound (connect options constructs url c)
    unfolding connect
    connect-IsSound url c h =
        connect_chosen-IsSound (chosen_url url c.url) (record c { url = chosen_url url c.url }) h

    online-IsTimerSound :
        (t : Option ℕ) (online destroyed : Bool)
        → IsTimerSound t online destroyed
        → IsTimerSound t true destroyed
    online-IsTimerSound none online destroyed h = tt
    online-IsTimerSound (some d) online destroyed h = ground arith

    handle_online-IsSound :
        (c : ConnectionManager)
        → IsSound c
        → IsSound (handle_online options constructs (record c { is_online = true }))
    unfolding handle_online
    handle_online-IsSound c h =
        let on = record c { is_online = true } in
        branch-IsSound (c.is_destroyed || not (is_some c.url)) on
          (connect options constructs none
            (record on { reconnect_attempts = 0; reconnect_timer = none }))
          (λ e. (online-IsTimerSound c.reconnect_timer c.is_online c.is_destroyed h.0, h.1))
          (λ e.
            connect-IsSound none (record on { reconnect_attempts = 0; reconnect_timer = none })
              (tt, h.1))

    Step-IsSound :
        (c c' : ConnectionManager) → Step options constructs c c' → IsSound c → IsSound c'
    unfolding timer_fires ping_fires destroy start_ping
    Step-IsSound c c' (Step.connect_step url _) h = connect-IsSound url c h
    Step-IsSound c c' (Step.send_step message _) h = send-IsSound message c h
    Step-IsSound c c' (Step.disconnect_step _) h = disconnect-IsSound c
    Step-IsSound c c' (Step.destroy_step _) h =
        disconnect-IsSound (record c { is_destroyed = true })
    Step-IsSound c c' (Step.status_step status _) h = set_status-IsSound status c h
    Step-IsSound c c' (Step.start_ping_step _) h = h
    Step-IsSound c c' (Step.timer_step delay _ e) h =
        connect-IsSound none (record c { reconnect_timer = none }) (tt, h.1)
    Step-IsSound c c' (Step.ping_step _ e) h = send-IsSound (text "{\"type\":\"ping\"}") c h
    Step-IsSound c c' (Step.open_step i _ e) h =
        handle_open-IsSound (move_socket i open_state c) (move_socket-IsSound i open_state c h)
    Step-IsSound c c' (Step.message_step i message _ e) h = h
    Step-IsSound c c' (Step.error_step i _ e) h = h
    Step-IsSound c c' (Step.closing_step i _) h = move_socket-IsSound i closing c h
    Step-IsSound c c' (Step.close_step i code _ e) h =
        handle_close-IsSound code (move_socket i closed c) (move_socket-IsSound i closed c h)
    Step-IsSound c c' (Step.unhandled_step i ready _ e) h = move_socket-IsSound i ready c h
    Step-IsSound c c' (Step.online_step _) h = handle_online-IsSound c h
    Step-IsSound c c' (Step.offline_step _) h = handle_offline-IsSound c h

    -- Whatever a new manager goes through, it waits for a reconnection only while it is online and not
    -- destroyed, and never for less than the shortest or for more than the longest delay of its
    -- options; once destroyed it has no socket.
    pub reach-IsSound :
        (url : Option Text) (is_online : Bool) (c : ConnectionManager)
        → Reach options constructs (new_connection_manager url is_online) c
        → IsSound c
    reach-IsSound url is_online c (Reach.start _) = (tt, tt)
    reach-IsSound url is_online c (Reach.next _ b _ r s) =
        Step-IsSound b c s (reach-IsSound url is_online b r)
