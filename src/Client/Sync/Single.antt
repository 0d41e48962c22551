-- ===== src/Client/Sync/Single.antt =====
-- The guard of `pushOutbox` in src/src/client/sync/sync.ts: one batch at a time.
use typescript_tetherdb.Base.{
  ℕ, ◌≤◌, ◌≡◌, refl, ap, Text, text_key, Bool, true, false, Option, none, some, List, [], ◌∷◌,
  arith, length, Bool-cases, inl, inr,
}
use typescript_tetherdb.Base.Dict
use typescript_tetherdb.Base.Dict.{Dict}
use typescript_tetherdb.Client.Connection
use typescript_tetherdb.Client.Connection.{is_open, connected, same_status}
use typescript_tetherdb.Client.Storage.{OutboxEntry}
use typescript_tetherdb.Client.Sync.{
  Sync, changes_of, contains, schedule_push, push_timer_fires, may_push, has_pending, start_push,
  read_outbox, finish_push, send_fetched, send_batch, conclude_push, send_message, pushed,
  fail_push, send_auth, send_request, register_user, login_user, logout_user,
  handle_connection_error, give_up, settle, refresh_token, welcome, acknowledge, note_applied,
  handle_connection_close, disconnect, destroy, handle_server_message, reject_pending_requests,
  Notice, rejected, resolved,
}
use typescript_tetherdb.Client.Sync.Steps.{Step, Reach}
use typescript_tetherdb.Shared.Messages.{
  ClientMessage, ServerMessage, pong, error, auth_success, auth_error, sync_snapshot, sync_diff,
  change_ack, broadcast_changes, change_batch,
}

-- No batch is pending while a push is under way, and at most one ever.
abbrev pub IsSingleState : Bool → Dict Text (List ℕ) → Type 0
IsSingleState is_pushing pending = (is_pushing ≡ true → pending ≡ []) × (length pending ≤ 1)

has_pending-none : (pending : Dict Text (List ℕ)) → has_pending pending ≡ false → pending ≡ []
has_pending-none [] h = refl
has_pending-none (b ∷ pending) h = ground arith

empty-IsSingle : (b : Bool) → IsSingleState b []
empty-IsSingle b = (λ e. refl, omega arith)

delete-IsSingle :
    (b : Bool) (id : Text) (pending : Dict Text (List ℕ))
    → IsSingleState b pending
    → IsSingleState b (Dict.delete id pending)
unfolding Dict.delete
delete-IsSingle b id pending h =
    (λ e. ap (Dict.delete id) (h.0 e), omega (arith, Dict.size-delete-le id pending, h.1))

module _ {V : Type 0} where
  abbrev pub IsSingle : Sync V → Type 0
  IsSingle s = IsSingleState s.is_pushing s.pending_batches

  start_push-IsSingle : (s : Sync V) → IsSingle s → IsSingle (start_push s)
  unfolding start_push
  start_push-IsSingle s h = elim (Bool-cases (may_push s)) [
    | inl e ↦ rw e (λ k. has_pending-none s.pending_batches (ground arith), h.1)
    | inr e ↦ rw e h
  ]

  module _ (encode : ClientMessage V → Text) where
    conclude_push-IsSingle :
        (batch_id : Text) (s : Sync V) (ok : Bool)
        → length s.pending_batches ≤ 1
        → length (conclude_push encode batch_id (s, ok)).pending_batches ≤ 1
    unfolding conclude_push schedule_push
    conclude_push-IsSingle batch_id s true h = h
    conclude_push-IsSingle batch_id s false h =
        omega (arith, h, Dict.size-delete-le batch_id s.pending_batches)

    send_batch-length :
        (batch_id : Text) (entries : List (ℕ × OutboxEntry V)) (s : Sync V)
        → s.pending_batches ≡ []
        → length (send_batch encode batch_id entries s).pending_batches ≤ 1
    unfolding send_batch send_message Dict.put
    send_batch-length batch_id [] s h = omega (arith, ap length h)
    send_batch-length batch_id (entry ∷ entries) s h =
        let message = change_batch (record {
          batch_id = batch_id;
          client_id = s.client_id;
          changes = changes_of (entry ∷ entries);
        }) in
        let s' = record s {
          pending_batches = Dict.put batch_id (Dict.keys (entry ∷ entries)) s.pending_batches;
        } in
        conclude_push-IsSingle batch_id (send_message encode message s').0
          (send_message encode message s').1
          (omega (arith, ap (λ p. length (Dict.put batch_id (Dict.keys (entry ∷ entries)) p)) h))

    send_fetched-IsSingle :
        (batch_id : Text) (fetched : Option (List (ℕ × OutboxEntry V))) (s : Sync V)
        → s.is_pushing ≡ true
        → IsSingle s
        → IsSingle (send_fetched encode batch_id fetched s)
    unfolding send_fetched
    send_fetched-IsSingle batch_id none s p h = h
    send_fetched-IsSingle batch_id (some entries) s p h =
        (λ e. ground arith, send_batch-length batch_id (pushed s entries) s (h.0 p))

  settle-IsSingle :
      (request_id : Option Text) (notice : Text → Notice) (s : Sync V)
      → IsSingle s
      → IsSingle (settle request_id notice s)
  unfolding settle
  settle-IsSingle none notice s h = h
  settle-IsSingle (some []) notice s h = h
  settle-IsSingle (some (x ∷ xs)) notice s h =
      elim (Bool-cases (contains (x ∷ xs) s.pending_requests)) [ inl e ↦ rw e h | inr e ↦ rw e h ]

  refresh_token-IsSingle :
      (token : Option Text) (s : Sync V) → IsSingle s → IsSingle (refresh_token token s)
  unfolding refresh_token
  refresh_token-IsSingle none s h = h
  refresh_token-IsSingle (some []) s h = h
  refresh_token-IsSingle (some (x ∷ xs)) s h = h

  give_up-IsSingle :
      (batch_id : Option Text) (s : Sync V) → IsSingle s → IsSingle (give_up batch_id s)
  unfolding give_up
  give_up-IsSingle none s h = empty-IsSingle s.is_pushing
  give_up-IsSingle (some []) s h = empty-IsSingle s.is_pushing
  give_up-IsSingle (some (x ∷ xs)) s h = delete-IsSingle s.is_pushing (x ∷ xs) s.pending_batches h

  acknowledge-IsSingle :
      (batch_id : Text) (ids : Option (List ℕ)) (s : Sync V)
      → IsSingle s
      → IsSingle (acknowledge batch_id ids s)
  unfolding acknowledge
  acknowledge-IsSingle batch_id none s h = h
  acknowledge-IsSingle batch_id (some ids) s h =
      delete-IsSingle s.is_pushing batch_id s.pending_batches h

  note_applied-IsSingle : (seq : Option ℕ) (s : Sync V) → IsSingle s → IsSingle (note_applied seq s)
  unfolding note_applied
  note_applied-IsSingle none s h = h
  note_applied-IsSingle (some seq) s h = h

  handle_server_message-IsSingle :
      (options : Connection.SyncOptions) (undefined : V) (now : ℕ) (message : ServerMessage V)
      (s : Sync V)
      → IsSingle s
      → IsSingle (handle_server_message options undefined now message s)
  unfolding handle_server_message welcome disconnect reject_pending_requests
  handle_server_message-IsSingle options undefined now pong s h = h
  handle_server_message-IsSingle options undefined now (error batch_id) s h =
      give_up-IsSingle batch_id s h
  handle_server_message-IsSingle options undefined now (auth_success m) s h =
      let s' = refresh_token m.token (record s {
        connection = Connection.set_status connected s.connection;
        accessible_tables = m.tables;
      }) in
      start_push-IsSingle (welcome options m s) (
        settle-IsSingle m.request_id (λ id. resolved id m.user_name m.token) s'
          (refresh_token-IsSingle m.token _ h))
  handle_server_message-IsSingle options undefined now (auth_error request_id) s h =
      empty-IsSingle
        (settle request_id rejected (record s {
          accessible_tables = none;
          connection = Connection.set_status Connection.error s.connection;
        })).is_pushing
  handle_server_message-IsSingle options undefined now (sync_snapshot seq snapshot) s h =
      start_push-IsSingle _ h
  handle_server_message-IsSingle options undefined now (sync_diff from_seq to_seq changes) s h =
      start_push-IsSingle _ h
  handle_server_message-IsSingle options undefined now (change_ack batch_id applied_seq) s h =
      let found = Dict.get batch_id s.pending_batches in
      start_push-IsSingle _ (
        note_applied-IsSingle applied_seq (acknowledge batch_id found s)
          (acknowledge-IsSingle batch_id found s h))
  handle_server_message-IsSingle options undefined now
        (broadcast_changes seq from_client_id changes) s h =
      h

  module _ (null undefined : V) (encode : ClientMessage V → Text) (options : Connection.SyncOptions)
      (constructs : Text → Bool) where
    Step-IsSingle :
        (s s' : Sync V)
        → Step null undefined encode options constructs s s'
        → IsSingle s
        → IsSingle s'
    unfolding schedule_push push_timer_fires read_outbox finish_push fail_push send_auth
        send_request send_message register_user login_user logout_user handle_connection_error
        handle_connection_close disconnect destroy reject_pending_requests
    Step-IsSingle s s' (Step.schedule_step delay _) h = h
    Step-IsSingle s s' (Step.timer_step _) h =
        start_push-IsSingle (record s { push_timer = none }) h
    Step-IsSingle s s' (Step.push_step _) h = start_push-IsSingle s h
    Step-IsSingle s s' (Step.read_step _ p) h = h
    Step-IsSingle s s' (Step.finish_step batch_id _ p) h =
        send_fetched-IsSingle encode batch_id s.fetched s p h
    Step-IsSingle s s' (Step.fail_step _ p) h = (λ e. ground arith, h.1)
    Step-IsSingle s s' (Step.auth_step _) h = h
    Step-IsSingle s s' (Step.register_step request_id user_name password _) h = h
    Step-IsSingle s s' (Step.login_step request_id user_name password token _) h = h
    Step-IsSingle s s' (Step.logout_step request_id _) h = h
    Step-IsSingle s s' (Step.message_step now message _) h =
        handle_server_message-IsSingle options undefined now message s h
    Step-IsSingle s s' (Step.write_step table now items _) h = h
    Step-IsSingle s s' (Step.connection_step c token _ k) h = h
    Step-IsSingle s s' (Step.error_step _) h = h
    Step-IsSingle s s' (Step.close_step c _ k) h = empty-IsSingle s.is_pushing
    Step-IsSingle s s' (Step.disconnect_step _) h = empty-IsSingle s.is_pushing
    Step-IsSingle s s' (Step.destroy_step _) h = empty-IsSingle s.is_pushing

    -- Whatever happens after a state without pending batches, at most one batch waits for its
    -- acknowledgement, and none does while a push is under way.
    pub reach-IsSingle :
        (s s' : Sync V)
        → s.pending_batches ≡ []
        → Reach null undefined encode options constructs s s'
        → IsSingle s'
    reach-IsSingle s s' e (Reach.start _) = (λ p. e, omega (arith, ap length e))
    reach-IsSingle s s' e (Reach.next _ b _ r k) = Step-IsSingle b s' k (reach-IsSingle s b e r)
