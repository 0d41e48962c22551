-- ===== src/Client/Sync/Quiet.antt =====
-- The parts of src/src/client/sync/sync.ts that neither push nor acknowledge.
use typescript_tetherdb.Base.{
  ℕ, inl, inr, refl, Text, text_key, nat_key, Option, none, some, [], ◌∷◌, Bool-cases,
}
use typescript_tetherdb.Client.Connection
use typescript_tetherdb.Client.Connection.{connected}
use typescript_tetherdb.Client.Storage.{Storage, set_meta}
use typescript_tetherdb.Client.Sync.{
  Sync, contains, send_message, send_request, give_up, settle, refresh_token, note_applied,
  handle_connection_close, disconnect, reject_pending_requests, Notice,
}
use typescript_tetherdb.Client.Sync.Outbox.{Extends, Extends-refl}
use typescript_tetherdb.Shared.Messages.{ClientMessage}
use typescript_tetherdb.Client.Sync.Lossless.{
  IsQuiet, IsQuiet-trans, IsQuiet-refl, alike, delete-IsQuiet, forget-IsQuiet,
}

module _ {V : Type 0} where
  pub settle-IsQuiet :
      (id : Option Text) (notice : Text → Notice) (s : Sync V) → IsQuiet s (settle id notice s)
  unfolding settle
  settle-IsQuiet none notice s = IsQuiet-refl s
  settle-IsQuiet (some []) notice s = IsQuiet-refl s
  settle-IsQuiet (some (x ∷ xs)) notice s =
      elim (Bool-cases (contains (x ∷ xs) s.pending_requests)) [
        | inl e ↦ rw e (alike s _ refl refl refl refl)
        | inr e ↦ rw e (IsQuiet-refl s)
      ]

  pub refresh_token-IsQuiet : (token : Option Text) (s : Sync V) → IsQuiet s (refresh_token token s)
  unfolding refresh_token
  refresh_token-IsQuiet none s = IsQuiet-refl s
  refresh_token-IsQuiet (some []) s = IsQuiet-refl s
  refresh_token-IsQuiet (some (x ∷ xs)) s = alike s _ refl refl refl refl

  pub give_up-IsQuiet : (batch_id : Option Text) (s : Sync V) → IsQuiet s (give_up batch_id s)
  unfolding give_up
  give_up-IsQuiet none s = IsQuiet-trans s _ _ (forget-IsQuiet s) (alike _ _ refl refl refl refl)
  give_up-IsQuiet (some []) s =
      IsQuiet-trans s _ _ (forget-IsQuiet s) (alike _ _ refl refl refl refl)
  give_up-IsQuiet (some (x ∷ xs)) s =
      IsQuiet-trans s _ _ (delete-IsQuiet s (x ∷ xs)) (alike _ _ refl refl refl refl)

  pub note_applied-IsQuiet : (seq : Option ℕ) (s : Sync V) → IsQuiet s (note_applied seq s)
  unfolding note_applied set_meta
  note_applied-IsQuiet none s = IsQuiet-refl s
  note_applied-IsQuiet (some seq) s = alike s _ refl refl refl refl

  pub storage-IsQuiet :
      (storage : Storage V) (s : Sync V)
      → Extends s.storage.outbox storage.outbox
      → IsQuiet s (record s { storage = storage })
  storage-IsQuiet storage s x = record {
    outbox = x;
    sent = λ id c g. g;
    fetched = λ es g. g;
    pending = λ id ids g. g;
  }

  pub forget_session-IsQuiet :
      (c : Connection.ConnectionManager) (s : Sync V)
      → IsQuiet s (handle_connection_close (record s { connection = c }))
  unfolding handle_connection_close reject_pending_requests
  forget_session-IsQuiet c s =
      IsQuiet-trans s _ _ (forget-IsQuiet s) (alike _ _ refl refl refl refl)

  pub disconnect-IsQuiet : (s : Sync V) → IsQuiet s (disconnect s)
  unfolding disconnect reject_pending_requests
  disconnect-IsQuiet s = IsQuiet-trans s _ _ (forget-IsQuiet s) (alike _ _ refl refl refl refl)

  module _ (encode : ClientMessage V → Text) where
    -- A message that is no batch.
    pub sent-IsQuiet :
        (message : ClientMessage V) (s : Sync V) → IsQuiet s (send_message encode message s).0
    unfolding send_message
    sent-IsQuiet message s = record {
      outbox = Extends-refl s.storage.outbox;
      sent = λ id x w. elim (Bool-cases (Connection.send (encode message) s.connection).1) [
        | inl e ↦ rw e (inr w)
        | inr e ↦ rw e w
      ];
      fetched = λ es g. g;
      pending = λ id ids g. g;
    }

    pub request-IsQuiet :
        (request_id : Text) (create_message : Text → ClientMessage V) (token : Option Text)
        (s : Sync V)
        → IsQuiet s (send_request encode request_id create_message (record s { token = token }))
    unfolding send_request
    request-IsQuiet request_id create_message token s =
        let s' = record s { token = token; pending_requests = request_id ∷ s.pending_requests } in
        IsQuiet-trans s s' _ (alike s s' refl refl refl refl)
          (sent-IsQuiet (create_message request_id) s')
