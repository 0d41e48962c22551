-- ===== src/Server/RateLimiter/Window.antt =====
-- How many attempts a window grants.
use typescript_tetherdb.Base.{
  ℕ, ◌+◌, ◌-◌, ◌≤◌, ◌<◌, ◌≡◌, Text, text_key, true, false, none, some, List, [], ◌∷◌, arith, leb,
  ltb, ◌==◌, inl, inr, Bool-cases, if◌then◌else◌, same_self,
}
use typescript_tetherdb.Base.Dict
use typescript_tetherdb.Base.Dict.{get-put}
use typescript_tetherdb.Server.RateLimiter.{
  RateLimiter, RateLimitEntry, check_entry, is_limited, set_entry, new_entry, consume_entry,
  consume, make_room, cleanup, evict_oldest,
}

-- All the times are before the end.
abbrev pub AllBefore : ℕ → List ℕ → Type 0
AllBefore end [] = Unit
AllBefore end (t ∷ ts) = (t < end) × AllBefore end ts

-- The number of attempts granted to `key` at those times, one after the other.
unfoldable pub granted : Text → List ℕ → RateLimiter → ℕ
unfolding consume
granted key [] l = 0
granted key (t ∷ ts) l =
    let (l', allowed) = consume key t l in
    let rest = granted key ts l' in if allowed then rest + 1 else rest

-- An attempt while the window of the entry is open.
consume_in_window :
    (key : Text) (now : ℕ) (entry : RateLimitEntry) (l : RateLimiter)
    → Dict.get key l.store ≡ some entry
    → now < entry.reset_at
    → consume key now l ≡ (
        if ltb now entry.blocked_until
        then (l, false)
        else if leb l.max_requests entry.count
        then (l, false)
        else (
          record l { store = Dict.put key (record entry { count = entry.count + 1 }) l.store },
          true,
        ))
unfolding consume is_limited check_entry consume_entry
consume_in_window key now entry l e h = ground arith

granted_in_window :
    (key : Text) (times : List ℕ) (entry : RateLimitEntry) (l : RateLimiter)
    → Dict.get key l.store ≡ some entry
    → AllBefore entry.reset_at times
    → granted key times l ≤ l.max_requests - entry.count
unfolding granted
granted_in_window key [] entry l e h = ground arith
granted_in_window key (t ∷ ts) entry l e h = elim (Bool-cases (ltb t entry.blocked_until)) [
  | inl blocked ↦
      rw (consume_in_window key t entry l e h.0, blocked) (granted_in_window key ts entry l e h.1)
  | inr unblocked ↦ elim (Bool-cases (leb l.max_requests entry.count)) [
    | inl spent ↦
        rw (consume_in_window key t entry l e h.0, unblocked, spent)
          (granted_in_window key ts entry l e h.1)
    | inr left ↦
        let counted = record entry { count = entry.count + 1 } in
        let stored : Dict.get key (Dict.put key counted l.store) ≡ some counted =
          ground (arith, get-put key key counted l.store, same_self key) in
        let later =
          granted_in_window key ts counted (record l { store = Dict.put key counted l.store })
            stored h.1 in
        rw (consume_in_window key t entry l e h.0, unblocked, left) (ground (arith, later))
  ]
]

-- The first attempt of a key that is not tracked.
consume_first :
    (key : Text) (now : ℕ) (l : RateLimiter)
    → Dict.get key l.store ≡ none
    → consume key now l ≡ (set_entry key (new_entry now l.window_ms) now l, true)
unfolding consume is_limited check_entry consume_entry
consume_first key now l e = ground arith

set_entry_found :
    (key : Text) (entry : RateLimitEntry) (now : ℕ) (l : RateLimiter)
    → Dict.get key (set_entry key entry now l).store ≡ some entry
unfolding set_entry
set_entry_found key entry now l =
    ground (arith, get-put key key entry (make_room key now l).store, same_self key)

set_entry_requests :
    (key : Text) (entry : RateLimitEntry) (now : ℕ) (l : RateLimiter)
    → (set_entry key entry now l).max_requests ≡ l.max_requests
unfolding set_entry make_room cleanup evict_oldest
set_entry_requests key entry now l = ground arith

-- Where a key is not tracked yet, its first attempt is granted and opens a window. If only that key's
-- attempts follow, at any times before the window's end, all of them together are granted at most as
-- often as the limit on requests allows, or once if that is 0.
pub granted_window :
    (key : Text) (now : ℕ) (times : List ℕ) (l : RateLimiter)
    → Dict.get key l.store ≡ none
    → AllBefore (now + l.window_ms) times
    → (0 < granted key (now ∷ times) l)
      × (granted key (now ∷ times) l ≤ (if l.max_requests == 0 then 1 else l.max_requests))
unfolding granted
granted_window key now times l e h =
    let first = new_entry now l.window_ms in
    let later =
      granted_in_window key times first (set_entry key first now l)
        (set_entry_found key first now l) h in
    rw (consume_first key now l e)
      (ground arith, ground (arith, later, set_entry_requests key first now l))
