-- ===== src/Client/Connection/Backoff.antt =====
-- A connection that was lost: src/src/client/sync/connection.ts tries again, ever more slowly, until it
-- has a socket.
use typescript_tetherdb.Base.{
  ℕ, zero, suc, ◌+◌, ◌*◌, ◌^◌, min, get_or, ◌≡◌, refl, ap, ◌∙◌, subst, Text, nat_key, true, false,
  ◌||◌, ◌==◌, none, some, ◌∷◌, arith, is_some, same_self,
}
use native.Mathlib.Nat.{pow-suc}
use typescript_tetherdb.Base.Dict
use typescript_tetherdb.Base.Dict.{Dict}
use typescript_tetherdb.Client.Connection.{
  Socket, starting, ready_of, ready_state, is_starting_state, connecting, SyncOptions,
  ConnectionManager, set_status, stop_ping, clear_timer, schedule_reconnect, backoff_delay,
  open_socket, connect_to, connect_chosen, connect, handle_close, timer_fires, is_connecting,
}

-- A socket that is stored is found.
ready_state-put :
    (i : ℕ) (s : Socket) (sockets : Dict ℕ Socket)
    → ready_state (some i) (Dict.put i s sockets) ≡ some s.ready
ready_state-put i s sockets =
    ap ready_of {y = some s} (Dict.get-put i i s sockets ∙ rw (same_self i) refl)

-- A manager that has a URL and no socket, is online and not destroyed.
abbrev pub stranded : ℕ → Text → ConnectionManager → ConnectionManager
stranded x xs c = record c {
  url = some (x ∷ xs);
  web_socket = none;
  is_destroyed = false;
  is_online = true;
}

abbrev pub doubled : ℕ → ℕ → ℕ
doubled zero d = d
doubled (suc n) d = doubled n d + doubled n d

power_doubled : (d n : ℕ) → d * 2 ^ n ≡ doubled n d
power_doubled d zero = omega arith
power_doubled d (suc n) = rw (pow-suc 2 n) (omega (arith, power_doubled d n))

module _ (options : SyncOptions) where
  -- The timer fires, and no socket can be made.
  abbrev pub attempt_fails : ConnectionManager → ConnectionManager
  attempt_fails c = timer_fires options (λ url. false) c

  attempt_fails-timer :
      (x : ℕ) (xs : Text) (c : ConnectionManager)
      → (attempt_fails (stranded x xs c)).reconnect_timer
        ≡ some (backoff_delay options c.reconnect_attempts)
  unfolding timer_fires connect connect_chosen connect_to clear_timer open_socket set_status
      schedule_reconnect
  attempt_fails-timer x xs c = ground arith

  attempt_fails-attempts :
      (x : ℕ) (xs : Text) (c : ConnectionManager)
      → (attempt_fails (stranded x xs c)).reconnect_attempts ≡ c.reconnect_attempts + 1
  unfolding timer_fires connect connect_chosen connect_to clear_timer open_socket set_status
      schedule_reconnect
  attempt_fails-attempts x xs c = ground arith

  attempt_fails-stranded :
      (x : ℕ) (xs : Text) (c : ConnectionManager)
      → stranded x xs (attempt_fails (stranded x xs c)) ≡ attempt_fails (stranded x xs c)
  unfolding timer_fires connect connect_chosen connect_to clear_timer open_socket set_status
      schedule_reconnect
  attempt_fails-stranded x xs c = ground arith

  abbrev pub attempts_fail : ℕ → ConnectionManager → ConnectionManager
  attempts_fail zero c = c
  attempts_fail (suc n) c = attempts_fail n (attempt_fails c)

  attempts_fail-backoff :
      (x : ℕ) (xs : Text) (n : ℕ) (c : ConnectionManager)
      → (attempts_fail (suc n) (stranded x xs c)).reconnect_timer
        ≡ some (backoff_delay options (c.reconnect_attempts + n))
  attempts_fail-backoff x xs zero c =
      subst
        (λ k. (attempt_fails (stranded x xs c)).reconnect_timer ≡ some (backoff_delay options k))
        (omega arith) (attempt_fails-timer x xs c)
  attempts_fail-backoff x xs (suc n) c =
      let c' = attempt_fails (stranded x xs c) in
      let attempts : c'.reconnect_attempts + n ≡ c.reconnect_attempts + suc n =
        omega (arith, attempt_fails-attempts x xs c) in
      subst (λ k. (attempts_fail (suc n) c').reconnect_timer ≡ some (backoff_delay options k))
        attempts
        (subst
          (λ s.
            (attempts_fail (suc n) s).reconnect_timer
            ≡ some (backoff_delay options (c'.reconnect_attempts + n)))
          (attempt_fails-stranded x xs c) (attempts_fail-backoff x xs n c'))

  -- The delay after so many doublings, up to the longest one.
  abbrev pub delay_after : ℕ → ℕ
  delay_after n =
      min (doubled n (get_or options.reconnect_interval_ms 1000))
        (get_or options.max_reconnect_interval_ms 30000)

  -- However often no socket can be made, the next attempt is waited for. The delay is the shortest one,
  -- 1000 unless the options say otherwise, doubled for every attempt that went before, and at most the
  -- longest one, which is 30000 unless the options say otherwise.
  pub attempts_fail-timer :
      (x : ℕ) (xs : Text) (n : ℕ) (c : ConnectionManager)
      → (attempts_fail (suc n) (stranded x xs c)).reconnect_timer
        ≡ some (delay_after (c.reconnect_attempts + n))
  attempts_fail-timer x xs n c =
      attempts_fail-backoff x xs n c
      ∙ ap (λ d. some (min d (get_or options.max_reconnect_interval_ms 30000)))
          (power_doubled (get_or options.reconnect_interval_ms 1000) (c.reconnect_attempts + n))

  -- The timer fires, and a socket is made.
  abbrev pub attempt_succeeds : ConnectionManager → ConnectionManager
  attempt_succeeds c = timer_fires options (λ url. true) c

  attempt_succeeds-is_connecting :
      (x : ℕ) (xs : Text) (c : ConnectionManager)
      → is_connecting (attempt_succeeds (stranded x xs c)) ≡ true
  unfolding timer_fires connect connect_chosen connect_to clear_timer open_socket set_status
  attempt_succeeds-is_connecting x xs c =
      let c' =
        set_status connecting (clear_timer (record (stranded x xs c) { reconnect_timer = none })) in
      ap is_starting_state
        (ready_state-put c'.next_socket (record { ready = starting; handled = true }) c'.sockets)

  -- The manager recovers if it is stranded with a timer: the timer's firing makes a socket.
  abbrev IsRecovering : ConnectionManager → Type 0
  IsRecovering c = (is_some c.reconnect_timer ≡ true) × (is_connecting (attempt_succeeds c) ≡ true)

  stranded-IsRecovering :
      (x : ℕ) (xs : Text) (n : ℕ) (c : ConnectionManager)
      → is_some c.reconnect_timer ≡ true
      → IsRecovering (attempts_fail n (stranded x xs c))
  stranded-IsRecovering x xs zero c h = (h, attempt_succeeds-is_connecting x xs c)
  stranded-IsRecovering x xs (suc n) c h =
      subst (λ s. IsRecovering (attempts_fail n s)) (attempt_fails-stranded x xs c)
        (stranded-IsRecovering x xs n (attempt_fails (stranded x xs c))
          (ap is_some (attempt_fails-timer x xs c)))

  -- The socket in use closes, while the manager has a URL, is online and not destroyed.
  abbrev pub lost : ℕ → Text → ℕ → ConnectionManager → ConnectionManager
  lost x xs code c =
      handle_close options code
        (record c { url = some (x ∷ xs); is_destroyed = false; is_online = true })

  lost-stranded :
      (x : ℕ) (xs : Text) (code : ℕ) (c : ConnectionManager)
      → stranded x xs (lost x xs code c) ≡ lost x xs code c
  unfolding handle_close stop_ping set_status schedule_reconnect
  lost-stranded x xs code c = ground arith

  lost-timer :
      (x : ℕ) (xs : Text) (code : ℕ) (c : ConnectionManager)
      → (code == 1000 || code == 1005) ≡ false
      → is_some (lost x xs code c).reconnect_timer ≡ true
  unfolding handle_close stop_ping set_status schedule_reconnect
  lost-timer x xs code c h = ground arith

  -- After a socket closed with a code other than 1000 and 1005, and after any number of attempts that
  -- made no socket, the manager waits for a next attempt, and an attempt that makes a socket has it
  -- connecting.
  pub lost-IsRecovering :
      (x : ℕ) (xs : Text) (code n : ℕ) (c : ConnectionManager)
      → (code == 1000 || code == 1005) ≡ false
      → (is_some (attempts_fail n (lost x xs code c)).reconnect_timer ≡ true)
        × (is_connecting (attempt_succeeds (attempts_fail n (lost x xs code c))) ≡ true)
  lost-IsRecovering x xs code n c h =
      subst (λ s. IsRecovering (attempts_fail n s)) (lost-stranded x xs code c)
        (stranded-IsRecovering x xs n (lost x xs code c) (lost-timer x xs code c h))
