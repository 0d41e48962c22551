-- ===== src/Client/Sync/Delivery.antt =====
-- The pushes and acknowledgements of src/src/client/sync/sync.ts lose no local change.
use typescript_tetherdb.Base.{
  ℕ, ◌≡◌, inl, inr, refl, ap, subst, Text, text_key, nat_key, Bool, true, false, Option, none, some,
  List, [], ◌∷◌, arith, get_or, if◌then◌else◌, same, eq_of_same, Bool-cases,
}
use typescript_tetherdb.Base.Dict
use typescript_tetherdb.Base.Dict.{Dict}
use typescript_tetherdb.Client.Connection
use typescript_tetherdb.Client.Connection.{connected}
use typescript_tetherdb.Client.Storage.{
  OutboxEntry, get_pending_outbox, remove_each, remove_outbox_entries, apply_local_changes,
  apply_snapshot_batch, apply_remote_changes_batch,
}
use typescript_tetherdb.Client.Sync.{
  Sync, changes_of, pushed, schedule_push, push_timer_fires, read_outbox, finish_push, send_fetched,
  send_batch, conclude_push, send_message, fail_push, send_auth, send_request, register_user,
  login_user, logout_user, handle_connection_error, settle, refresh_token, welcome, acknowledge,
  disconnect, destroy, handle_server_message, reject_pending_requests, rejected, resolved,
}
use typescript_tetherdb.Client.Sync.Outbox.{
  IsLater-refl, Extends-refl, apply_local_changes-Extends, apply_snapshot_batch-Extends,
  apply_remote_changes_batch-Extends,
}
use typescript_tetherdb.Client.Sync.Kept.{
  AreCurrent, AreOut, AreCurrent-later, AreOut-later, take-AreCurrent, pushed-AreCurrent,
  sent-AreOut, remove_each-IsLater, remove_each-IsOrdered, remove_each-KeptOrOut,
}
use typescript_tetherdb.Client.Sync.Steps.{Step, Reach}
use typescript_tetherdb.Shared.Messages.{
  ClientMessage, register, login, logout, ChangeBatchClientMessage, ServerMessage, pong, error,
  auth_success, auth_error, sync_snapshot, sync_diff, change_ack, broadcast_changes, change_batch,
}
use typescript_tetherdb.Client.Sync.Lossless.{
  IsFaithful, IsQuiet, IsLossless, quiet-IsLossless, IsLossless-trans, IsQuiet-trans, IsQuiet-refl,
  alike, unfetched-IsQuiet, start_push-IsQuiet,
}
use typescript_tetherdb.Client.Sync.Quiet.{
  settle-IsQuiet, refresh_token-IsQuiet, give_up-IsQuiet, note_applied-IsQuiet, storage-IsQuiet,
  forget_session-IsQuiet, disconnect-IsQuiet, request-IsQuiet, sent-IsQuiet,
}

module _ {V : Type 0} where
  then_quiet : (a b c : Sync V) → IsLossless a b → IsQuiet b c → IsLossless a c
  then_quiet a b c h q = IsLossless-trans a b c h (quiet-IsLossless b c q h.faithful)

  acknowledge-IsLossless :
      (batch_id : Text) (ids : Option (List ℕ)) (s : Sync V)
      → Dict.get batch_id s.pending_batches ≡ ids
      → IsFaithful s
      → IsLossless s (acknowledge batch_id ids s)
  unfolding acknowledge remove_outbox_entries
  acknowledge-IsLossless batch_id none s h f = quiet-IsLossless s s (IsQuiet-refl s) f
  acknowledge-IsLossless batch_id (some ids) s h f =
      let q = s.storage.outbox in
      let later = remove_each-IsLater ids q in
      record {
        faithful = record {
          ordered = remove_each-IsOrdered ids q f.ordered;
          fetched = λ entries g.
              AreCurrent-later q (remove_each ids q) entries later (f.fetched entries g);
          pending = λ other js g.
              AreOut-later q (remove_each ids q) other s.sent s.sent js later (λ c w. w)
                (f.pending other js
                  (ground (arith, Dict.get-delete batch_id other s.pending_batches, g)));
        };
        sent = λ id c w. w;
        kept = λ id e g.
            elim (remove_each-KeptOrOut ids q batch_id s.sent id e (f.pending batch_id ids h) g) [
              | inl there ↦ inl there
              | inr w ↦ inr (batch_id, w)
            ];
      }

  module _ (encode : ClientMessage V → Text) where
    -- The batch is pending before it is sent, and if it is sent.
    conclude_push-IsLossless :
        (m : ChangeBatchClientMessage V) (entries : List (ℕ × OutboxEntry V)) (s : Sync V)
        (c : Connection.ConnectionManager) (ok : Bool)
        → m.changes ≡ changes_of entries
        → AreCurrent s.storage.outbox entries
        → IsFaithful s
        → IsLossless s (
            conclude_push encode m.batch_id (
              record s {
                pending_batches = Dict.put m.batch_id (Dict.keys entries) s.pending_batches;
                connection = c;
                sent = if ok then change_batch m ∷ s.sent else s.sent;
              },
              ok,
            ))
    unfolding conclude_push schedule_push
    conclude_push-IsLossless m entries s c true e a f = record {
      faithful = record {
        ordered = f.ordered;
        fetched = f.fetched;
        pending = λ id ids g. elim (Bool-cases (same m.batch_id id)) [
          | inl hit ↦
              subst (λ x. AreOut s.storage.outbox x (change_batch m ∷ s.sent) ids)
                (eq_of_same m.batch_id id hit)
                (subst (λ js. AreOut s.storage.outbox m.batch_id (change_batch m ∷ s.sent) js)
                  (ground
                    (arith, Dict.get-put m.batch_id id (Dict.keys entries) s.pending_batches, g))
                  (sent-AreOut s.storage.outbox m s.sent entries (λ x k. rw e k) a))
          | inr miss ↦
              AreOut-later s.storage.outbox s.storage.outbox id s.sent (change_batch m ∷ s.sent) ids
                (IsLater-refl s.storage.outbox) (λ x w. inr w)
                (f.pending id ids (
                  ground
                    (arith, Dict.get-put m.batch_id id (Dict.keys entries) s.pending_batches, g)))
        ];
      };
      sent = λ id x w. inr w;
      kept = λ id x g. inl g;
    }
    conclude_push-IsLossless m entries s c false e a f =
        quiet-IsLossless s _
          (record {
            outbox = Extends-refl s.storage.outbox;
            sent = λ id x w. w;
            fetched = λ es g. g;
            pending = λ id ids g. ground (
              arith,
              g,
              Dict.get-put m.batch_id id (Dict.keys entries) s.pending_batches,
              Dict.get-delete m.batch_id id
                  (Dict.put m.batch_id (Dict.keys entries) s.pending_batches),
            );
          })
          f

    send_batch-IsLossless :
        (batch_id : Text) (entries : List (ℕ × OutboxEntry V)) (s : Sync V)
        → AreCurrent s.storage.outbox entries
        → IsFaithful s
        → IsLossless s (send_batch encode batch_id entries s)
    unfolding send_batch send_message
    send_batch-IsLossless batch_id [] s a f = quiet-IsLossless s s (IsQuiet-refl s) f
    send_batch-IsLossless batch_id (entry ∷ entries) s a f =
        let m : ChangeBatchClientMessage V = record {
          batch_id = batch_id;
          client_id = s.client_id;
          changes = changes_of (entry ∷ entries);
        } in
        let out = Connection.send (encode (change_batch m)) s.connection in
        conclude_push-IsLossless m (entry ∷ entries) s out.0 out.1 refl a f

    send_fetched-IsLossless :
        (batch_id : Text) (fetched : Option (List (ℕ × OutboxEntry V))) (s : Sync V)
        → s.fetched ≡ fetched
        → IsFaithful s
        → IsLossless s (send_fetched encode batch_id fetched s)
    unfolding send_fetched
    send_fetched-IsLossless batch_id none s h f = quiet-IsLossless s s (IsQuiet-refl s) f
    send_fetched-IsLossless batch_id (some entries) s h f =
        let s' = send_batch encode batch_id (pushed s entries) s in
        then_quiet s s' _
          (send_batch-IsLossless batch_id (pushed s entries) s
            (pushed-AreCurrent s s.storage.outbox entries (f.fetched entries h)) f)
          (unfetched-IsQuiet s' false)

  read_outbox-IsLossless : (s : Sync V) → IsFaithful s → IsLossless s (read_outbox s)
  unfolding read_outbox get_pending_outbox
  read_outbox-IsLossless s f = record {
    faithful = record {
      ordered = f.ordered;
      fetched = λ entries g. subst (AreCurrent s.storage.outbox) (ap (λ o. get_or o []) g) (
          take-AreCurrent 500 0 s.storage.outbox s.storage.outbox.entries f.ordered (λ id l. refl));
      pending = f.pending;
    };
    sent = λ id x w. w;
    kept = λ id x g. inl g;
  }

  handle_server_message-IsLossless :
      (options : Connection.SyncOptions) (undefined : V) (now : ℕ) (message : ServerMessage V)
      (s : Sync V)
      → IsFaithful s
      → IsLossless s (handle_server_message options undefined now message s)
  unfolding handle_server_message welcome
  handle_server_message-IsLossless options undefined now pong s f =
      quiet-IsLossless s s (IsQuiet-refl s) f
  handle_server_message-IsLossless options undefined now (error batch_id) s f =
      quiet-IsLossless s _ (give_up-IsQuiet batch_id s) f
  handle_server_message-IsLossless options undefined now (auth_success m) s f =
      let s' = record s {
        connection = Connection.set_status connected s.connection;
        accessible_tables = m.tables;
      } in
      let s'' = refresh_token m.token s' in
      let settled = settle m.request_id (λ id. resolved id m.user_name m.token) s'' in
      quiet-IsLossless s _
        (IsQuiet-trans s s' _ (alike s s' refl refl refl refl) (
          IsQuiet-trans s' s'' _ (refresh_token-IsQuiet m.token s') (
            IsQuiet-trans s'' settled _ (settle-IsQuiet m.request_id _ s'') (
              IsQuiet-trans settled (welcome options m s) _ (alike settled _ refl refl refl refl)
                (start_push-IsQuiet (welcome options m s))))))
        f
  handle_server_message-IsLossless options undefined now (auth_error request_id) s f =
      let s' = record s {
        accessible_tables = none;
        connection = Connection.set_status Connection.error s.connection;
      } in
      let settled = settle request_id rejected s' in
      quiet-IsLossless s _
        (IsQuiet-trans s s' _ (alike s s' refl refl refl refl) (
          IsQuiet-trans s' settled _ (settle-IsQuiet request_id rejected s') (
            IsQuiet-trans settled (disconnect settled) _ (disconnect-IsQuiet settled)
              (alike (disconnect settled) _ refl refl refl refl))))
        f
  handle_server_message-IsLossless options undefined now (sync_snapshot seq snapshot) s f =
      quiet-IsLossless s _
        (IsQuiet-trans s _ _
          (storage-IsQuiet (apply_snapshot_batch snapshot seq now s.storage) s
            (apply_snapshot_batch-Extends snapshot seq now s.storage))
          (start_push-IsQuiet _))
        f
  handle_server_message-IsLossless options undefined now (sync_diff from_seq to_seq changes) s f =
      quiet-IsLossless s _
        (IsQuiet-trans s _ _
          (storage-IsQuiet (apply_remote_changes_batch undefined changes to_seq now s.storage) s
            (apply_remote_changes_batch-Extends undefined changes to_seq now s.storage))
          (start_push-IsQuiet _))
        f
  handle_server_message-IsLossless options undefined now (change_ack batch_id applied_seq) s f =
      let found = Dict.get batch_id s.pending_batches in
      let s' = acknowledge batch_id found s in
      then_quiet s s' _ (acknowledge-IsLossless batch_id found s refl f)
        (IsQuiet-trans s' _ _ (note_applied-IsQuiet applied_seq s') (start_push-IsQuiet _))
  handle_server_message-IsLossless options undefined now
        (broadcast_changes seq from_client_id changes) s f =
      quiet-IsLossless s _
        (storage-IsQuiet (apply_remote_changes_batch undefined changes seq now s.storage) s
          (apply_remote_changes_batch-Extends undefined changes seq now s.storage))
        f

  module _ (null undefined : V) (encode : ClientMessage V → Text) (options : Connection.SyncOptions)
      (constructs : Text → Bool) where
    Step-IsLossless :
        (s s' : Sync V)
        → Step null undefined encode options constructs s s'
        → IsFaithful s
        → IsLossless s s'
    unfolding schedule_push push_timer_fires finish_push fail_push send_auth send_request
        send_message register_user login_user logout_user handle_connection_error disconnect destroy
        reject_pending_requests
    Step-IsLossless s s' (Step.schedule_step delay _) f =
        quiet-IsLossless s s' (alike s s' refl refl refl refl) f
    Step-IsLossless s s' (Step.timer_step _) f =
        quiet-IsLossless s s'
          (IsQuiet-trans s (record s { push_timer = none }) s' (alike s _ refl refl refl refl)
            (start_push-IsQuiet (record s { push_timer = none })))
          f
    Step-IsLossless s s' (Step.push_step _) f = quiet-IsLossless s s' (start_push-IsQuiet s) f
    Step-IsLossless s s' (Step.read_step _ p) f = read_outbox-IsLossless s f
    Step-IsLossless s s' (Step.finish_step batch_id _ p) f =
        send_fetched-IsLossless encode batch_id s.fetched s refl f
    Step-IsLossless s s' (Step.fail_step _ p) f =
        quiet-IsLossless s s'
          (IsQuiet-trans s (record s { is_pushing = false; fetched = none }) s'
            (unfetched-IsQuiet s false) (alike _ s' refl refl refl refl))
          f
    Step-IsLossless s s' (Step.auth_step _) f = quiet-IsLossless s s' (sent-IsQuiet encode _ s) f
    Step-IsLossless s s' (Step.register_step request_id user_name password _) f =
        quiet-IsLossless s s'
          (request-IsQuiet encode request_id (λ id. register id user_name password) s.token s) f
    Step-IsLossless s s' (Step.login_step request_id user_name password token _) f =
        quiet-IsLossless s s'
          (request-IsQuiet encode request_id (λ id. login id user_name password token) s.token s) f
    Step-IsLossless s s' (Step.logout_step request_id _) f =
        quiet-IsLossless s s' (request-IsQuiet encode request_id (λ id. logout id) none s) f
    Step-IsLossless s s' (Step.message_step now message _) f =
        handle_server_message-IsLossless options undefined now message s f
    Step-IsLossless s s' (Step.write_step table now items _) f =
        quiet-IsLossless s s'
          (storage-IsQuiet (apply_local_changes null table now items s.storage).0 s
            (apply_local_changes-Extends null table now items s.storage))
          f
    Step-IsLossless s s' (Step.connection_step c token _ k) f =
        quiet-IsLossless s s' (alike s s' refl refl refl refl) f
    Step-IsLossless s s' (Step.error_step _) f =
        quiet-IsLossless s s' (alike s s' refl refl refl refl) f
    Step-IsLossless s s' (Step.close_step c _ k) f =
        quiet-IsLossless s s' (forget_session-IsQuiet c s) f
    Step-IsLossless s s' (Step.disconnect_step _) f = quiet-IsLossless s s' (disconnect-IsQuiet s) f
    Step-IsLossless s s' (Step.destroy_step _) f =
        let s'' = record s { connection = Connection.destroy s.connection } in
        quiet-IsLossless s s'
          (IsQuiet-trans s s'' s' (alike s s'' refl refl refl refl) (disconnect-IsQuiet s'')) f

    -- Whatever happens after a faithful state, short of clearing the storage: each entry that was in the
    -- outbox is in it still, or its change went to the server in a batch.
    pub reach-IsLossless :
        (s s' : Sync V)
        → IsFaithful s
        → Reach null undefined encode options constructs s s'
        → IsLossless s s'
    reach-IsLossless s s' f (Reach.start _) = quiet-IsLossless s s (IsQuiet-refl s) f
    reach-IsLossless s s' f (Reach.next _ b _ r k) =
        let h = reach-IsLossless s b f r in
        IsLossless-trans s b s' h (Step-IsLossless b s' k h.faithful)
