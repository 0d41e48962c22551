-- ===== src/Examples/Connecting.antt =====
-- A connection that is made, lost and made again.
use typescript_tetherdb.Base.{
  ℕ_discrete, ◌+◌, ◌≡◌, ◌<◌, refl, text, nat_key, some, none, true, arith, is_some,
}
use typescript_tetherdb.Base.Dict
use typescript_tetherdb.Client.Connection.{
  ConnectionManager, clear_timer, new_connection_manager, SyncOptions, connect, handle_open,
  handle_close, is_connecting, open_state, closing, closed, starting,
}
use typescript_tetherdb.Client.Connection.Steps
use typescript_tetherdb.Client.Connection.Steps.{Step, Reach, move_socket}
use typescript_tetherdb.Client.Connection.Sound.{IsSound, reach-IsSound}
use typescript_tetherdb.Client.Connection.Backoff.{
  delay_after, stranded, lost, attempts_fail, attempt_succeeds, attempts_fail-timer,
  lost-IsRecovering,
}
use typescript_tetherdb.Client.Connection.Orphan.{connected_again, handle_close_orphans}

abbrev pub sync_options : SyncOptions
sync_options = record {
  reconnect_interval_ms = none;
  max_reconnect_interval_ms = none;
  ping_interval_ms = none;
}

abbrev fresh : ConnectionManager
fresh = new_connection_manager (some (text "ws://a")) true

abbrev opening : ConnectionManager
opening = connect sync_options (λ url. true) none fresh

abbrev pub opened : ConnectionManager
opened = handle_open sync_options (move_socket 0 open_state opening)

abbrev closed_again : ConnectionManager
closed_again = handle_close sync_options 1006 (move_socket 0 closed opened)

opening_handled : Steps.is_handled 0 opening ≡ true
unfolding connect Dict.get clear_timer Dict.put ℕ_discrete
opening_handled = refl

opened_handled : Steps.is_handled 0 opened ≡ true
unfolding connect handle_open Dict.get clear_timer Dict.put ℕ_discrete
opened_handled = refl

path : Reach sync_options (λ url. true) fresh closed_again
path =
    Reach.next fresh opened closed_again
      (Reach.next fresh opening opened
        (Reach.next fresh fresh opening (Reach.start fresh) (Step.connect_step none fresh))
        (Step.open_step 0 opening opening_handled))
      (Step.close_step 0 1006 opened opened_handled)

reach-IsSound_example : IsSound sync_options closed_again
reach-IsSound_example =
    reach-IsSound sync_options (λ url. true) (some (text "ws://a")) true closed_again path

attempts_fail-timer_example :
    (attempts_fail sync_options 4 (stranded 119 (text "s://a") closed_again)).reconnect_timer
    ≡ some (delay_after sync_options (closed_again.reconnect_attempts + 3))
attempts_fail-timer_example = attempts_fail-timer sync_options 119 (text "s://a") 3 closed_again

lost-IsRecovering_example :
    (is_some
        (attempts_fail sync_options 2
          (lost sync_options 119 (text "s://a") 1006 opened)).reconnect_timer
      ≡ true)
    × (is_connecting (
          attempt_succeeds sync_options
            (attempts_fail sync_options 2 (lost sync_options 119 (text "s://a") 1006 opened)))
        ≡ true)
lost-IsRecovering_example = lost-IsRecovering sync_options 119 (text "s://a") 1006 2 opened refl

abbrev half_closed : ConnectionManager
half_closed = move_socket 0 closing opened

half_closing : Dict.get 0 half_closed.sockets ≡ some (record { ready = closing; handled = true })
unfolding connect handle_open Dict.get clear_timer Dict.put ℕ_discrete
half_closing = refl

one_made : 0 < half_closed.next_socket
unfolding connect handle_open Dict.get clear_timer Dict.put ℕ_discrete
one_made = omega arith

handle_close_orphans_example :
    (let after =
        handle_close sync_options 1006
          (move_socket 0 closed (connected_again sync_options 0 119 (text "s://a") half_closed)) in
      (after.web_socket ≡ none)
      × (Dict.get half_closed.next_socket after.sockets
          ≡ some (record { ready = starting; handled = true })))
handle_close_orphans_example =
    handle_close_orphans sync_options 0 119 1006 (text "s://a") half_closed half_closing one_made
