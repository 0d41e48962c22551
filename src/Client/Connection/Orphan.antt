-- ===== src/Client/Connection/Orphan.antt =====
-- A socket of src/src/client/sync/connection.ts whose close is still under way.
use typescript_tetherdb.Base.{
  ℕ, ◌≡◌, ◌<◌, refl, ap, ◌∙◌, Text, nat_key, true, false, Option, none, some, ◌∷◌, arith, same,
  same_self,
}
use typescript_tetherdb.Base.Dict
use typescript_tetherdb.Base.Dict.{Dict}
use typescript_tetherdb.Client.Connection.{
  ReadyState, Socket, starting, closing, closed, SyncOptions, ConnectionManager, set_status,
  stop_ping, clear_timer, schedule_reconnect, open_socket, connect_to, connect_chosen, connect,
  handle_close,
}
use typescript_tetherdb.Client.Connection.Steps.{move_socket, with_ready}

-- A manager in use whose socket is closing.
abbrev pub closing_at : ℕ → ℕ → Text → ConnectionManager → ConnectionManager
closing_at i x xs c = record c { url = some (x ∷ xs); web_socket = some i; is_destroyed = false }

module _ (options : SyncOptions) where
  abbrev pub connected_again : ℕ → ℕ → Text → ConnectionManager → ConnectionManager
  connected_again i x xs c = connect options (λ url. true) none (closing_at i x xs c)

  connected_again-sockets :
      (i x : ℕ) (xs : Text) (c : ConnectionManager)
      → Dict.get i c.sockets ≡ some (record { ready = closing; handled = true })
      → (connected_again i x xs c).sockets
        ≡ Dict.put c.next_socket (record { ready = starting; handled = true }) c.sockets
  unfolding connect connect_chosen connect_to clear_timer open_socket set_status
  connected_again-sockets i x xs c h = ground arith

  handle_close-web_socket :
      (code : ℕ) (c : ConnectionManager) → (handle_close options code c).web_socket ≡ none
  unfolding handle_close stop_ping set_status schedule_reconnect
  handle_close-web_socket code c = ground arith

  handle_close-sockets :
      (code : ℕ) (c : ConnectionManager) → (handle_close options code c).sockets ≡ c.sockets
  unfolding handle_close stop_ping set_status schedule_reconnect
  handle_close-sockets code c = ground arith

  with_ready-other :
      (s : Option Socket) (i j : ℕ) (ready : ReadyState) (c : ConnectionManager)
      → same i j ≡ false
      → Dict.get j (with_ready s i ready c).sockets ≡ Dict.get j c.sockets
  with_ready-other none i j ready c h = refl
  with_ready-other (some s) i j ready c h =
      rw (Dict.get-put i j (record s { ready = ready }) c.sockets, h) refl

  -- If `connect` is called while the socket in use is closing, a new socket is made and used. When the
  -- old one has closed, the manager has no socket, while the new one goes on with its handlers.
  pub handle_close_orphans :
      (i x code : ℕ) (xs : Text) (c : ConnectionManager)
      → Dict.get i c.sockets ≡ some (record { ready = closing; handled = true })
      → i < c.next_socket
      → (let after = handle_close options code (move_socket i closed (connected_again i x xs c)) in
          (after.web_socket ≡ none)
          × (Dict.get c.next_socket after.sockets
              ≡ some (record { ready = starting; handled = true })))
  handle_close_orphans i x code xs c h l =
      let again = connected_again i x xs c in
      let moved = move_socket i closed again in
      (
        handle_close-web_socket code moved,
        ap (Dict.get c.next_socket) (handle_close-sockets code moved)
            ∙ with_ready-other (Dict.get i again.sockets) i c.next_socket closed again
                (ground arith)
            ∙ ap (Dict.get c.next_socket) (connected_again-sockets i x xs c h)
            ∙ rw
                (
                  Dict.get-put c.next_socket c.next_socket
                      (record { ready = starting; handled = true }) c.sockets,
                  same_self c.next_socket,
                )
                refl,
      )
