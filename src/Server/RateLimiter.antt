-- ===== src/Server/RateLimiter.antt =====
-- src/server/shared/rate-limiter.ts: a limit on the attempts of each key within a time window, with
-- an exponential backoff after failures. `now` is the clock, in milliseconds.
pub mod Bounds
pub mod Window
pub mod Backoff
use typescript_tetherdb.Base.{
  ℕ, ◌+◌, ◌-◌, ◌*◌, ◌^◌, Text, text_key, Bool, true, false, not, ◌&&◌, ◌||◌, Option, none, some,
  List, [], ◌∷◌, leb, ltb, ◌==◌, length, get_or, if◌then◌else◌,
}
use typescript_tetherdb.Base.Dict
use typescript_tetherdb.Base.Dict.{Dict}

pub record RateLimiterOptions : Type 0 where
  pub window_ms : Option ℕ
  pub max_requests : Option ℕ
  pub max_failures : Option ℕ
  pub initial_backoff_ms : Option ℕ
  pub max_backoff_ms : Option ℕ
  pub max_entries : Option ℕ

pub record RateLimitEntry : Type 0 where
  pub count : ℕ
  pub reset_at : ℕ
  pub failures : ℕ
  pub blocked_until : ℕ
  pub last_failure_at : ℕ

pub record RateLimiter : Type 0 where
  pub store : Dict Text RateLimitEntry
  pub window_ms : ℕ
  pub max_requests : ℕ
  pub max_failures : ℕ
  pub initial_backoff_ms : ℕ
  pub max_backoff_ms : ℕ
  pub max_entries : ℕ

unfoldable pub new_rate_limiter : RateLimiterOptions → RateLimiter
new_rate_limiter options = record {
  store = [];
  window_ms = get_or options.window_ms 60000;
  max_requests = get_or options.max_requests 60;
  max_failures = get_or options.max_failures 3;
  initial_backoff_ms = get_or options.initial_backoff_ms 1000;
  max_backoff_ms = get_or options.max_backoff_ms 900000;
  max_entries = get_or options.max_entries 10000;
}

abbrev pub size : RateLimiter → ℕ
size l = length l.store

abbrev pub new_entry : ℕ → ℕ → RateLimitEntry
new_entry now window_ms = record {
  count = 1;
  reset_at = now + window_ms;
  failures = 0;
  blocked_until = 0;
  last_failure_at = 0;
}

-- `now - entry.lastFailureAt > this.maxBackoffMs`. A failure in the future is not long ago.
abbrev pub is_forgiven : ℕ → ℕ → RateLimitEntry → Bool
is_forgiven max_backoff_ms now entry = ltb max_backoff_ms (now - entry.last_failure_at)

-- The entry with a new window.
abbrev pub renewed : ℕ → ℕ → ℕ → RateLimitEntry → RateLimitEntry
renewed count now window_ms entry = record entry { count = count; reset_at = now + window_ms }

-- What `isLimited` does with the key's entry.
unfoldable pub check_entry : Text → ℕ → Option RateLimitEntry → RateLimiter → RateLimiter × Bool
check_entry key now none l = (l, false)
check_entry key now (some entry) l =
    if ltb now entry.blocked_until
    then (l, true)
    else if leb entry.reset_at now
    then (if entry.failures == 0 || is_forgiven l.max_backoff_ms now entry
        then (record l { store = Dict.delete key l.store }, false)
        else (
          record l { store = Dict.put key (renewed 0 now l.window_ms entry) l.store },
          leb l.max_requests 0,
        ))
    else (l, leb l.max_requests entry.count)

unfoldable pub is_limited : Text → ℕ → RateLimiter → RateLimiter × Bool
unfolding check_entry
is_limited key now l = check_entry key now (Dict.get key l.store) l

-- `entry.resetAt <= now && entry.blockedUntil <= now && (...)`
abbrev pub is_expired : ℕ → ℕ → RateLimitEntry → Bool
is_expired max_backoff_ms now entry =
    leb entry.reset_at now
    && (leb entry.blocked_until now
        && (entry.failures == 0 || is_forgiven max_backoff_ms now entry))

unfoldable pub cleanup : ℕ → RateLimiter → RateLimiter
cleanup now l = record l {
  store = Dict.retain (λ key entry. not (is_expired l.max_backoff_ms now entry)) l.store;
}

-- The store without the key that was inserted first.
unfoldable pub without_oldest : Dict Text RateLimitEntry → Dict Text RateLimitEntry
without_oldest [] = []
without_oldest ((key, entry) ∷ rest) = Dict.delete key ((key, entry) ∷ rest)

unfoldable pub evict_oldest : RateLimiter → RateLimiter
unfolding without_oldest
evict_oldest l = record l { store = without_oldest l.store }

-- The entries that make room for a new one.
unfoldable pub make_room : Text → ℕ → RateLimiter → RateLimiter
unfolding cleanup evict_oldest
make_room key now l =
    if leb l.max_entries (length l.store) && not (Dict.has key l.store)
    then (let cleaned = cleanup now l in
        if leb cleaned.max_entries (length cleaned.store) then evict_oldest cleaned else cleaned)
    else l

unfoldable pub set_entry : Text → RateLimitEntry → ℕ → RateLimiter → RateLimiter
unfolding make_room
set_entry key entry now l =
    let room = make_room key now l in record room { store = Dict.put key entry room.store }

-- What `consume` does after the test, with the key's entry.
unfoldable pub consume_entry : Text → ℕ → Option RateLimitEntry → RateLimiter → RateLimiter
unfolding set_entry
consume_entry key now none l = set_entry key (new_entry now l.window_ms) now l
consume_entry key now (some entry) l = record l {
  store =
      Dict.put key
        (if leb entry.reset_at now
          then renewed 1 now l.window_ms entry
          else record entry { count = entry.count + 1 })
        l.store;
}

unfoldable pub consume : Text → ℕ → RateLimiter → RateLimiter × Bool
unfolding is_limited consume_entry
consume key now l =
    let (checked, limited) = is_limited key now l in
    if limited
    then (checked, false)
    else (consume_entry key now (Dict.get key checked.store) checked, true)

-- The entry before the failure is counted.
unfoldable pub failing_entry : ℕ → RateLimiter → Option RateLimitEntry → RateLimitEntry
failing_entry now l none = new_entry now l.window_ms
failing_entry now l (some entry) =
    if leb entry.reset_at now && leb entry.blocked_until now
    then record entry {
      count = 1;
      reset_at = now + l.window_ms;
      failures = if is_forgiven l.max_backoff_ms now entry then 0 else entry.failures;
    }
    else entry

-- The pause after that many failures.
unfoldable pub backoff_ms : RateLimiter → ℕ → ℕ
backoff_ms l failures =
    let backoff = l.initial_backoff_ms * 2 ^ (failures - l.max_failures) in
    if leb backoff l.max_backoff_ms then backoff else l.max_backoff_ms

-- The entry with the failure counted, and the pause.
unfoldable pub count_failure : ℕ → RateLimiter → RateLimitEntry → RateLimitEntry × ℕ
unfolding backoff_ms
count_failure now l entry =
    let failures = entry.failures + 1 in
    let counted = record entry { failures = failures; last_failure_at = now } in
    let backoff = backoff_ms l failures in
    if leb l.max_failures failures
    then (record counted { blocked_until = now + backoff }, backoff)
    else (counted, 0)

unfoldable pub place_failure :
    Text → ℕ → Option RateLimitEntry → RateLimitEntry → RateLimiter → RateLimiter
unfolding set_entry
place_failure key now none entry l = set_entry key entry now l
place_failure key now (some before) entry l = record l { store = Dict.put key entry l.store }

-- The failure is counted on the entry in the store, so a new entry is stored as it is in the end.
unfoldable pub record_failure : Text → ℕ → RateLimiter → RateLimiter × ℕ
unfolding failing_entry count_failure place_failure
record_failure key now l =
    let found = Dict.get key l.store in
    let (entry, backoff) = count_failure now l (failing_entry now l found) in
    (place_failure key now found entry l, backoff)

unfoldable pub reset : Text → RateLimiter → RateLimiter
reset key l = record l { store = Dict.delete key l.store }

unfoldable pub clear : RateLimiter → RateLimiter
clear l = record l { store = [] }
