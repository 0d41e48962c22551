-- ===== src/Server/RateLimiter/Backoff.antt =====
-- The pause that follows failures.
use typescript_tetherdb.Base.{
  ℕ, ◌+◌, ◌≤◌, ◌<◌, ◌≡◌, Text, text_key, false, Option, none, some, arith, same_self,
}
use typescript_tetherdb.Base.Dict
use typescript_tetherdb.Base.Dict.{get-put}
use typescript_tetherdb.Server.RateLimiter.{
  RateLimiter, RateLimitEntry, check_entry, is_limited, set_entry, consume, backoff_ms,
  count_failure, place_failure, failing_entry, record_failure, make_room,
}

backoff_ms-le : (l : RateLimiter) (failures : ℕ) → backoff_ms l failures ≤ l.max_backoff_ms
unfolding backoff_ms
backoff_ms-le l failures = ground arith

count_failure-le :
    (now : ℕ) (l : RateLimiter) (entry : RateLimitEntry)
    → (count_failure now l entry).1 ≤ l.max_backoff_ms
unfolding count_failure
count_failure-le now l entry = ground (arith, backoff_ms-le l (entry.failures + 1))

-- A pause is entered in the entry.
count_failure_blocked :
    (now : ℕ) (l : RateLimiter) (entry : RateLimitEntry)
    → 0 < (count_failure now l entry).1
    → (count_failure now l entry).0.blocked_until ≡ now + (count_failure now l entry).1
unfolding count_failure
count_failure_blocked now l entry h = ground arith

-- The entry is in the store afterwards.
place_failure_found :
    (key : Text) (now : ℕ) (found : Option RateLimitEntry) (entry : RateLimitEntry)
    (l : RateLimiter)
    → Dict.get key (place_failure key now found entry l).store ≡ some entry
unfolding place_failure set_entry
place_failure_found key now none entry l =
    ground (arith, get-put key key entry (make_room key now l).store, same_self key)
place_failure_found key now (some before) entry l =
    ground (arith, get-put key key entry l.store, same_self key)

blocked_is_limited :
    (key : Text) (later : ℕ) (entry : RateLimitEntry) (l : RateLimiter)
    → Dict.get key l.store ≡ some entry
    → later < entry.blocked_until
    → consume key later l ≡ (l, false)
unfolding consume is_limited check_entry
blocked_is_limited key later entry l e h = ground arith

-- The pause that a failure returns is at most the limit on pauses, and from the failure until the
-- pause is over every attempt of the key is refused and changes nothing.
pub record_failure_blocks :
    (key : Text) (now later : ℕ) (l : RateLimiter)
    → now ≤ later
    → later < now + (record_failure key now l).1
    → ((record_failure key now l).1 ≤ l.max_backoff_ms)
      × (consume key later (record_failure key now l).0 ≡ ((record_failure key now l).0, false))
unfolding record_failure
record_failure_blocks key now later l from soon =
    let before = Dict.get key l.store in
    let counted = count_failure now l (failing_entry now l before) in
    (
      count_failure-le now l (failing_entry now l before),
      blocked_is_limited key later counted.0 (record_failure key now l).0
          (place_failure_found key now before counted.0 l)
          (ground (arith, count_failure_blocked now l (failing_entry now l before))),
    )
