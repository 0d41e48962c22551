-- ===== src/Examples/Serving.antt =====
-- Two clients of a server, and one that connects again.
use typescript_tetherdb.Base.{
  ℕ, true, text_key, ◌≡◌, ◌⊎◌, Text, text, some, none, [], ◌∷◌, arith, Option,
}
use typescript_tetherdb.Base.Dict
use typescript_tetherdb.Server.Broadcast.{ActiveClient, broadcast}
use typescript_tetherdb.Server.Broadcast.Disclosure.{published, caught_up_messages, broadcast_lem}
use typescript_tetherdb.Server.Security.{InternalChangeRecord}
use typescript_tetherdb.Server.Sessions.{
  Sessions, new_sessions, handle_connection, handle_auth_message, finish_login,
}
use typescript_tetherdb.Server.Sessions.Limit.{IsLimited, reached-IsLimited}
use typescript_tetherdb.Server.Sessions.Steps.{Step, Reach}
use typescript_tetherdb.Server.Memory.{MemoryStorage}
use typescript_tetherdb.Server.Memory.History.{changes_to_send, get_current_seq}
use typescript_tetherdb.Server.Synchronize.{
  perform_sync, full_snapshot, missed, perform_sync_complete,
}
use typescript_tetherdb.Server.User.{User, anonymous}
use typescript_tetherdb.Shared.Messages.{ServerMessage, sync_diff, AuthClientMessage}
use typescript_tetherdb.Shared.Types.{put}
use typescript_tetherdb.Examples.Applying.{history, written, written-IsRecorded}
use typescript_tetherdb.Examples.{store, ann}

abbrev entry : Text → InternalChangeRecord ℕ
entry table = record {
  table = table;
  id = text "a";
  op = put;
  payload = some 1;
  version = some 1;
  seq = 1;
  timestamp = 5;
  client_id = none;
  user_id = some (text "u1");
}

abbrev client_of : ℕ → User → ActiveClient
client_of socket user = record {
  web_socket = socket;
  client_id = text "c";
  user = user;
  tables = none;
}

abbrev no_name : Text → Option Text
no_name id = none

broadcast_lem_example :
    broadcast
      (λ name. Dict.get name store.tables)
      (λ socket. true)
      1
      (text "c")
      4
      (published no_name
        (λ name. Dict.get name store.tables)
        (λ raw. raw.user_id)
        (entry (text "news") ∷ entry (text "diary") ∷ []))
      (client_of 1 ann ∷ client_of 2 anonymous ∷ client_of 3 ann ∷ [])
      []
    ≡ caught_up_messages no_name
        (λ name. Dict.get name store.tables)
        (λ raw. raw.user_id)
        (λ socket. true)
        1
        (text "c")
        4
        (entry (text "news") ∷ entry (text "diary") ∷ [])
        (client_of 1 ann ∷ client_of 2 anonymous ∷ client_of 3 ann ∷ [])
broadcast_lem_example =
    broadcast_lem no_name (λ name. Dict.get name store.tables) (λ raw. raw.user_id) (λ socket. true)
      1 (text "c") 4 (entry (text "news") ∷ entry (text "diary") ∷ [])
      (client_of 1 ann ∷ client_of 2 anonymous ∷ client_of 3 ann ∷ [])

abbrev hello : AuthClientMessage
hello = record {
  version = 1;
  client_id = some (text "c1");
  token = some (text "t");
  last_sync_seq = none;
  tables = none;
}

abbrev empty : Sessions
empty = new_sessions (some 1) none none (λ socket. true)

abbrev met : Sessions
met = handle_connection 1 (text "::1") 5 empty

abbrev known : Sessions
known = (handle_auth_message 1 hello (some ann) 6 met).0

-- The second connection of the user is refused.
abbrev refused : Sessions
refused = finish_login 2 ann (text "c2") none known

path : Reach empty refused
path =
    Reach.next empty known refused
      (Reach.next empty met known
        (Reach.next empty empty met (Reach.start empty) (Step.connect_step 1 (text "::1") 5 empty))
        (Step.auth_step 1 hello (some ann) 6 met))
      (Step.login_step 2 ann (text "c2") none known)

reached-IsLimited_example : IsLimited refused
reached-IsLimited_example =
    reached-IsLimited (some 1) none none (λ socket. true) refused (omega arith) path

abbrev had : ℕ
had = 1

abbrev synchronized : MemoryStorage ℕ × ServerMessage ℕ
synchronized = perform_sync no_name ann none (some had) written.0

perform_sync_complete_example :
    (((had ≡ 0) ⊎ (changes_to_send had ann written.0 ≡ none))
      × (synchronized.1 ≡ full_snapshot no_name ann none synchronized.0))
    ⊎ (¬ (had ≡ 0)
        × (synchronized.1
            ≡ sync_diff had
                (get_current_seq ann synchronized.0)
                (missed no_name ann none had history synchronized.0)))
perform_sync_complete_example =
    perform_sync_complete no_name ann none history (some had) written.0 written-IsRecorded
