-- ===== src/Server/Sessions/Limit.antt =====
-- No user has more connections than src/src/server/sync.ts allows.
use typescript_tetherdb.Base.{
  ℕ, text, get_or, get_or, ltb, ◌==◌, ◌≤◌, ◌<◌, ◌≡◌, refl, subst, Text, text_key, nat_key, Bool,
  true, false, not, ◌&&◌, Option, none, some, List, [], ◌∷◌, arith, same, eq_of_same, if◌then◌else◌,
  Bool-cases, inl, inr,
}
use typescript_tetherdb.Base.Dict
use typescript_tetherdb.Base.Dict.{Dict, HasDistinctKeys}
use typescript_tetherdb.Server.Broadcast.{ActiveClient}
use typescript_tetherdb.Server.Sessions.{
  Sessions, answer, auth_error, count_user_connections, is_full, enter, clear_pending_auth_timer,
  admit, forgive, ip_of, identify, user_of, with_user, sign_out, turn_away, handle_connection,
  consume_from, auth_times_out, handle_auth_message, finish_login, finish_registration,
  complete_authentication, handle_logout_message, cleanup_connection, new_sessions,
}
use typescript_tetherdb.Server.Errors.{Result, ok, throw}
use typescript_tetherdb.Server.RateLimiter.{RateLimiter}
use typescript_tetherdb.Server.Validate.{validate_identifier}
use typescript_tetherdb.Shared.Messages.{AuthClientMessage, protocol_version}
use typescript_tetherdb.Server.User.{User, anonymous, user_id, is_authenticated}
use typescript_tetherdb.Server.Sessions.Steps.{Step, Reach}
use typescript_tetherdb.Server.Sessions.Counting.{
  connections, count-le, connections-put-le, connections-delete-le, count-delete,
}

-- Every socket stands once, no user has more connections than the limit, and the limit is not 0.
abbrev pub IsLimited : Sessions → Type 0
IsLimited s =
    HasDistinctKeys s.clients
    × ((id : Text) → connections id s.clients ≤ s.max_connections)
    × (1 ≤ s.max_connections)

-- A client is put for a user that has room for it.
put-IsLimited :
    (socket : ℕ) (c : ActiveClient) (s : Sessions)
    → IsLimited s
    → (is_authenticated c.user ≡ true
        → count_user_connections (user_id c.user) socket s.clients < s.max_connections)
    → IsLimited (record s { clients = Dict.put socket c s.clients })
put-IsLimited socket c s h room = (
  Dict.put-HasDistinctKeys socket c s.clients h.0,
  λ id. elim (Bool-cases (is_authenticated c.user && same (user_id c.user) id)) [
    | inl e ↦
        let here : user_id c.user ≡ id = eq_of_same (user_id c.user) id (ground (arith, e)) in
        let below : count_user_connections id socket s.clients < s.max_connections =
          subst (λ i. count_user_connections i socket s.clients < s.max_connections) here
            (room (ground (arith, e))) in
        ground (arith, connections-put-le id socket c s.clients h.0, below, e)
    | inr e ↦ ground (
      arith,
      connections-put-le id socket c s.clients h.0,
      count-le id socket s.clients,
      h.1 id,
      e,
    )
  ],
  h.2,
)

delete-IsLimited :
    (socket : ℕ) (s : Sessions)
    → IsLimited s
    → IsLimited (record s { clients = Dict.delete socket s.clients })
delete-IsLimited socket s h = (
  Dict.delete-HasDistinctKeys socket s.clients h.0,
  λ id. omega (arith, connections-delete-le id socket s.clients, h.1 id),
  h.2,
)

not_full :
    (user : User) (socket : ℕ) (s : Sessions)
    → is_full user socket s ≡ false
    → count_user_connections (user_id user) socket s.clients < s.max_connections
not_full user socket s h = ground (arith, h)

enter-IsLimited :
    (socket : ℕ) (user : User) (tables : Option (List Text)) (client_id : Result Text)
    (s : Sessions)
    → (is_authenticated user ≡ true
        → count_user_connections (user_id user) socket s.clients < s.max_connections)
    → IsLimited s
    → IsLimited (enter socket user tables client_id s).0
unfolding enter clear_pending_auth_timer
enter-IsLimited socket user tables (throw e) s room h = h
enter-IsLimited socket user tables (ok client_id) s room h =
    put-IsLimited socket
      (record { web_socket = socket; client_id = client_id; user = user; tables = tables })
      (record s { clients = Dict.delete socket s.clients }) (delete-IsLimited socket s h)
      (λ a. omega (arith, count-delete (user_id user) socket s.clients, room a))

admit-IsLimited :
    (socket : ℕ) (msg : AuthClientMessage) (user : User) (s : Sessions)
    → IsLimited s
    → IsLimited (admit socket msg user s).0
unfolding admit
admit-IsLimited socket msg user s h =
    elim (Bool-cases (is_authenticated user && is_full user socket s)) [
      | inl e ↦ rw e h
      | inr e ↦ rw e (
          enter-IsLimited socket user msg.tables
            (validate_identifier (get_or msg.client_id (text "client_anon")))
            (record s { rate_limiter = forgive (ip_of socket s) s.rate_limiter })
            (λ a. not_full user socket s (ground (arith, e, a))) h)
    ]

identify-IsLimited :
    (socket : ℕ) (msg : AuthClientMessage) (token : Option Text) (resolved : Option User) (now : ℕ)
    (s : Sessions)
    → IsLimited s
    → IsLimited (identify socket msg token resolved now s).0
unfolding identify
identify-IsLimited socket msg none resolved now s h =
    admit-IsLimited socket msg (user_of (Dict.get socket s.clients)) s h
identify-IsLimited socket msg (some []) resolved now s h =
    admit-IsLimited socket msg (user_of (Dict.get socket s.clients)) s h
identify-IsLimited socket msg (some (x ∷ xs)) none now s h = h
identify-IsLimited socket msg (some (x ∷ xs)) (some user) now s h =
    admit-IsLimited socket msg user s h

with_user-IsLimited :
    (socket : ℕ) (user : User) (new_id : Text) (c : Option ActiveClient) (s : Sessions)
    → count_user_connections (user_id user) socket s.clients < s.max_connections
    → IsLimited s
    → IsLimited (with_user socket user new_id c s)
unfolding with_user
with_user-IsLimited socket user new_id none s room h =
    put-IsLimited socket
      (record { web_socket = socket; client_id = new_id; user = user; tables = none }) s h
      (λ a. room)
with_user-IsLimited socket user new_id (some c) s room h =
    put-IsLimited socket (record c { user = user }) s h (λ a. room)

sign_out-IsLimited :
    (c : Option ActiveClient) (socket : ℕ) (s : Sessions)
    → IsLimited s
    → IsLimited (sign_out c socket s)
unfolding sign_out
sign_out-IsLimited none socket s h = h
sign_out-IsLimited (some c) socket s h =
    put-IsLimited socket (record c { user = anonymous }) s h (λ a. ground (arith, a))

branch-IsLimited :
    (b : Bool) (x y : Sessions)
    → (b ≡ true → IsLimited x)
    → (b ≡ false → IsLimited y)
    → IsLimited (if b then x else y)
branch-IsLimited true x y f g = f refl
branch-IsLimited false x y f g = g refl

handle_connection-IsLimited :
    (socket : ℕ) (ip : Text) (now : ℕ) (s : Sessions)
    → IsLimited s
    → IsLimited (handle_connection socket ip now s)
unfolding handle_connection
handle_connection-IsLimited socket ip now s h =
    let granted = consume_from ip now s.rate_limiter in
    let s' = record s { socket_ips = Dict.put socket ip s.socket_ips; rate_limiter = granted.0 } in
    let waiting = record s' {
      pending_auth_timers = Dict.put socket s.auth_timeout_ms s.pending_auth_timers;
    } in
    branch-IsLimited (not granted.1) (turn_away socket s')
      (if ltb 0 s.auth_timeout_ms then waiting else s') (λ e. h)
      (λ e. branch-IsLimited (ltb 0 s.auth_timeout_ms) waiting s' (λ k. h) (λ k. h))

handle_auth_message-IsLimited :
    (socket : ℕ) (msg : AuthClientMessage) (resolved : Option User) (now : ℕ) (s : Sessions)
    → IsLimited s
    → IsLimited (handle_auth_message socket msg resolved now s).0
unfolding handle_auth_message
handle_auth_message-IsLimited socket msg resolved now s h =
    elim (Bool-cases (not (msg.version == protocol_version))) [
      | inl e ↦ rw e h
      | inr e ↦ rw e (identify-IsLimited socket msg msg.token resolved now s h)
    ]

Step-IsLimited : (s s' : Sessions) → Step s s' → IsLimited s → IsLimited s'
unfolding auth_times_out finish_login finish_registration complete_authentication
    clear_pending_auth_timer handle_logout_message cleanup_connection
Step-IsLimited s s' (Step.readiness_step is_open _) h = h
Step-IsLimited s s' (Step.connect_step socket ip now _) h =
    handle_connection-IsLimited socket ip now s h
Step-IsLimited s s' (Step.timeout_step socket _) h =
    branch-IsLimited (Dict.has socket s.clients) s (turn_away socket s) (λ e. h) (λ e. h)
Step-IsLimited s s' (Step.auth_step socket msg resolved now _) h =
    handle_auth_message-IsLimited socket msg resolved now s h
Step-IsLimited s s' (Step.login_step socket user new_id request_id _) h =
    branch-IsLimited (is_full user socket s) (answer socket (auth_error request_id) s)
      (complete_authentication socket user new_id request_id s) (λ e. h)
      (λ e.
        with_user-IsLimited socket user new_id (Dict.get socket s.clients) s
          (not_full user socket s e) h)
Step-IsLimited s s' (Step.registration_step socket user new_id request_id _ none_yet) h =
    with_user-IsLimited socket user new_id (Dict.get socket s.clients) s
      (omega (arith, count-le (user_id user) socket s.clients, none_yet, h.2)) h
Step-IsLimited s s' (Step.refusal_step socket e new_id request_id _) h = h
Step-IsLimited s s' (Step.logout_step socket request_id _) h =
    sign_out-IsLimited (Dict.get socket s.clients) socket s h
Step-IsLimited s s' (Step.close_step socket _) h = delete-IsLimited socket s h

Reach-IsLimited : (s s' : Sessions) → Reach s s' → IsLimited s → IsLimited s'
Reach-IsLimited s s' (Reach.start _) h = h
Reach-IsLimited s s' (Reach.next _ b _ r k) h = Step-IsLimited b s' k (Reach-IsLimited s b r h)

-- Whatever connections are made, authenticated, logged in and out, registered and closed, in any order,
-- no user ever has more connections than the limit, if the limit is not 0.
pub reached-IsLimited :
    (max_connections auth_timeout_ms : Option ℕ) (limiter : Option RateLimiter) (is_open : ℕ → Bool)
    (s : Sessions)
    → 1 ≤ get_or max_connections 20
    → Reach (new_sessions max_connections auth_timeout_ms limiter is_open) s
    → IsLimited s
reached-IsLimited max_connections auth_timeout_ms limiter is_open s p r =
    Reach-IsLimited (new_sessions max_connections auth_timeout_ms limiter is_open) s r
      (tt, λ id. omega arith, p)
