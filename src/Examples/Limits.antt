-- ===== src/Examples/Limits.antt =====
-- Rate limiting.
use typescript_tetherdb.Base.{
  ◌+◌, ◌≡◌, ◌≤◌, ◌<◌, ◌==◌, refl, text, text_key, false, none, some, List, [], ◌∷◌, arith,
  if◌then◌else◌,
}
use typescript_tetherdb.Base.Dict
use typescript_tetherdb.Server.RateLimiter.{
  RateLimiter, RateLimiterOptions, new_rate_limiter, consume, record_failure, failing_entry,
  count_failure, backoff_ms,
}
use typescript_tetherdb.Server.RateLimiter.Backoff.{record_failure_blocks}
use typescript_tetherdb.Server.RateLimiter.Bounds.{
  IsBounded, Call, attempt, failure, purge, perform_all, perform_all-IsBounded,
}
use typescript_tetherdb.Server.RateLimiter.Window.{AllBefore, granted, granted_window}

-- One failure blocks.
abbrev strict : RateLimiterOptions
strict = record {
  window_ms = none;
  max_requests = some 2;
  max_failures = some 1;
  initial_backoff_ms = none;
  max_backoff_ms = none;
  max_entries = some 1;
}

abbrev limiter : RateLimiter
limiter = new_rate_limiter strict

limiter-IsBounded : IsBounded limiter
unfolding new_rate_limiter
limiter-IsBounded = record { bounded = omega arith; distinct = tt }

abbrev calls : List Call
calls = attempt (text "a") 1 ∷ failure (text "b") 2 ∷ purge 3 ∷ []

some_room : 0 < limiter.max_entries
unfolding new_rate_limiter
some_room = omega arith

perform_all-IsBounded_example : IsBounded (perform_all calls limiter)
perform_all-IsBounded_example = perform_all-IsBounded calls limiter some_room limiter-IsBounded

untracked : Dict.get (text "a") limiter.store ≡ none
unfolding new_rate_limiter Dict.get
untracked = refl

soon : AllBefore (1 + limiter.window_ms) (2 ∷ 3 ∷ 4 ∷ [])
unfolding new_rate_limiter
soon = (omega arith, (omega arith, (omega arith, tt)))

granted_window_example :
    (0 < granted (text "a") (1 ∷ 2 ∷ 3 ∷ 4 ∷ []) limiter)
    × (granted (text "a") (1 ∷ 2 ∷ 3 ∷ 4 ∷ []) limiter
        ≤ (if limiter.max_requests == 0 then 1 else limiter.max_requests))
granted_window_example = granted_window (text "a") 1 (2 ∷ 3 ∷ 4 ∷ []) limiter untracked soon

paused : 3 < 1 + (record_failure (text "a") 1 limiter).1
unfolding record_failure failing_entry count_failure backoff_ms new_rate_limiter Dict.get
paused = omega arith

record_failure_blocks_example :
    ((record_failure (text "a") 1 limiter).1 ≤ limiter.max_backoff_ms)
    × (consume (text "a") 3 (record_failure (text "a") 1 limiter).0
        ≡ ((record_failure (text "a") 1 limiter).0, false))
record_failure_blocks_example = record_failure_blocks (text "a") 1 3 limiter (omega arith) paused
