-- ===== src/Examples/Syncing.antt =====
-- A push, its acknowledgement, and a local write in between.
use typescript_tetherdb.Base.{
  ℕ, ℕ_discrete, ◌≡◌, refl, Text, text, text_key, nat_key, some, none, true, false, [], ◌∷◌, arith,
}
use typescript_tetherdb.Base.Dict
use typescript_tetherdb.Client.Connection.{connect, handle_open, clear_timer, connected}
use typescript_tetherdb.Client.Storage.{apply_local_changes}
use typescript_tetherdb.Client.Sync.{
  Sync, start_push, read_outbox, finish_push, handle_server_message,
}
use typescript_tetherdb.Client.Sync.Steps.{Step, Reach}
use typescript_tetherdb.Client.Sync.Single.{IsSingle, reach-IsSingle}
use typescript_tetherdb.Client.Sync.Lossless.{IsFaithful, IsLossless}
use typescript_tetherdb.Client.Sync.Delivery.{reach-IsLossless}
use typescript_tetherdb.Shared.Messages.{ClientMessage, change_ack}
use typescript_tetherdb.Examples.Connecting.{opened, sync_options}
use typescript_tetherdb.Examples.Replica.{queue, queue-IsOrdered, edit}

abbrev encode : ClientMessage ℕ → Text
encode message = text "message"

abbrev idle : Sync ℕ
idle = record {
  client_id = text "c1";
  token = some (text "t");
  tables = none;
  storage = queue;
  connection = record opened { current_status = connected };
  push_timer = none;
  is_pushing = false;
  fetched = none;
  accessible_tables = none;
  pending_batches = [];
  pending_requests = [];
  sent = [];
  log = [];
}

abbrev started : Sync ℕ
started = start_push idle

abbrev read : Sync ℕ
read = read_outbox started

abbrev sent_out : Sync ℕ
sent_out = finish_push encode (text "b1") read

abbrev written : Sync ℕ
written = record sent_out {
  storage = (apply_local_changes 0 (text "notes") 9 (edit ∷ []) sent_out.storage).0;
}

abbrev acknowledged : Sync ℕ
acknowledged = handle_server_message sync_options 0 10 (change_ack (text "b1") (some 4)) written

started_pushing : started.is_pushing ≡ true
unfolding start_push connect handle_open clear_timer Dict.get Dict.put ℕ_discrete
started_pushing = refl

read_pushing : read.is_pushing ≡ true
unfolding read_outbox
read_pushing = started_pushing

path : Reach 0 0 encode sync_options (λ url. true) idle acknowledged
path =
    Reach.next idle written acknowledged
      (Reach.next idle sent_out written
        (Reach.next idle read sent_out
          (Reach.next idle started read
            (Reach.next idle idle started (Reach.start idle) (Step.push_step idle))
            (Step.read_step started started_pushing))
          (Step.finish_step (text "b1") read read_pushing))
        (Step.write_step (text "notes") 9 (edit ∷ []) sent_out))
      (Step.message_step 10 (change_ack (text "b1") (some 4)) written)

reach-IsSingle_example : IsSingle acknowledged
reach-IsSingle_example =
    reach-IsSingle 0 0 encode sync_options (λ url. true) idle acknowledged refl path

idle-IsFaithful : IsFaithful idle
unfolding Dict.get
idle-IsFaithful = record {
  ordered = queue-IsOrdered;
  fetched = λ entries e. ground (arith, e);
  pending = λ batch_id ids e. ground (arith, e);
}

reach-IsLossless_example : IsLossless idle acknowledged
reach-IsLossless_example =
    reach-IsLossless 0 0 encode sync_options (λ url. true) idle acknowledged idle-IsFaithful path
