-- ===== src/Server/RateLimiter/Bounds.antt =====
-- The number of tracked keys stays within its limit.
use typescript_tetherdb.Base.{
  ℕ, ◌≤◌, ◌<◌, ◌≡◌, refl, Text, text_key, true, false, Option, none, some, List, [], ◌∷◌, arith,
  leb, ltb, ◌==◌, ◌||◌, length, inl, inr, Bool-cases, same_self,
}
use typescript_tetherdb.Base.Dict
use typescript_tetherdb.Base.Dict.{
  Dict, get-put, size-put, size-retain-le, size-delete-le, size-delete-lt, HasDistinctKeys,
  put-HasDistinctKeys, delete-HasDistinctKeys, retain-HasDistinctKeys, get-retain,
}
use typescript_tetherdb.Server.RateLimiter.{
  RateLimiter, RateLimitEntry, size, is_forgiven, check_entry, is_limited, cleanup, evict_oldest,
  without_oldest, make_room, set_entry, consume_entry, consume, place_failure, record_failure,
  reset, clear,
}

-- The store has each key once and no more keys than the limit.
pub record IsBounded (l : RateLimiter) : Type 0 where
  pub bounded : size l ≤ l.max_entries
  pub distinct : HasDistinctKeys l.store

-- What an operation keeps.
record Keeps (l l' : RateLimiter) : Type 0 where
  limit : l'.max_entries ≡ l.max_entries
  kept : IsBounded l'

-- A write to a key that is there takes no room.
put_known :
    (key : Text) (entry : RateLimitEntry) (l : RateLimiter)
    → Dict.has key l.store ≡ true
    → IsBounded l
    → IsBounded (record l { store = Dict.put key entry l.store })
put_known key entry l there b = record {
  bounded = ground (arith, size-put key entry l.store, b.bounded);
  distinct = put-HasDistinctKeys key entry l.store b.distinct;
}

delete-IsBounded :
    (key : Text) (l : RateLimiter)
    → IsBounded l
    → IsBounded (record l { store = Dict.delete key l.store })
delete-IsBounded key l b = record {
  bounded = ground (arith, size-delete-le key l.store, b.bounded);
  distinct = delete-HasDistinctKeys key l.store b.distinct;
}

le_trans : {a b c : ℕ} → a ≤ b → b ≤ c → a ≤ c
le_trans h k = omega arith

cleanup-IsBounded : (now : ℕ) (l : RateLimiter) → IsBounded l → IsBounded (cleanup now l)
unfolding cleanup
cleanup-IsBounded now l b = record {
  bounded = le_trans (size-retain-le _ l.store) b.bounded;
  distinct = retain-HasDistinctKeys _ l.store b.distinct;
}

without_oldest-lt :
    (n : ℕ) (m : Dict Text RateLimitEntry) → length m ≤ n → 0 < n → length (without_oldest m) < n
unfolding without_oldest Dict.get
without_oldest-lt n [] h p = p
without_oldest-lt n ((key, entry) ∷ m) h p =
    ground (arith, size-delete-lt key ((key, entry) ∷ m), same_self key)

without_oldest-HasDistinctKeys :
    (m : Dict Text RateLimitEntry) → HasDistinctKeys m → HasDistinctKeys (without_oldest m)
unfolding without_oldest
without_oldest-HasDistinctKeys [] d = d
without_oldest-HasDistinctKeys ((key, entry) ∷ m) d =
    delete-HasDistinctKeys key ((key, entry) ∷ m) d

-- There is room for one more, where the limit is not 0.
record HasRoom (l l' : RateLimiter) : Type 0 where
  limit : l'.max_entries ≡ l.max_entries
  room : size l' < l.max_entries
  distinct : HasDistinctKeys l'.store

make_room-HasRoom :
    (key : Text) (now : ℕ) (l : RateLimiter)
    → 0 < l.max_entries
    → IsBounded l
    → Dict.has key l.store ≡ false
    → HasRoom l (make_room key now l)
unfolding make_room cleanup evict_oldest
make_room-HasRoom key now l p b missing =
    let c = cleanup-IsBounded now l b in
    elim (Bool-cases (leb l.max_entries (length l.store))) [
      | inl full ↦ elim (Bool-cases (leb l.max_entries (length (cleanup now l).store))) [
        | inl still ↦
            rw (full, missing, still)
              (record {
                limit = refl;
                room = without_oldest-lt l.max_entries (cleanup now l).store c.bounded p;
                distinct = without_oldest-HasDistinctKeys (cleanup now l).store c.distinct;
              })
        | inr fits ↦
            rw (full, missing, fits)
              (record { limit = refl; room = ground arith; distinct = c.distinct })
      ]
      | inr free ↦ rw free (record { limit = refl; room = ground arith; distinct = b.distinct })
    ]

set_entry-Keeps :
    (key : Text) (entry : RateLimitEntry) (now : ℕ) (l : RateLimiter)
    → 0 < l.max_entries
    → IsBounded l
    → Dict.has key l.store ≡ false
    → Keeps l (set_entry key entry now l)
unfolding set_entry
set_entry-Keeps key entry now l p b missing =
    let h = make_room-HasRoom key now l p b missing in
    record {
      limit = h.limit;
      kept = record {
        bounded = ground (arith, size-put key entry (make_room key now l).store, h.room, h.limit);
        distinct = put-HasDistinctKeys key entry (make_room key now l).store h.distinct;
      };
    }

check_entry-Keeps :
    (key : Text) (now : ℕ) (found : Option RateLimitEntry) (l : RateLimiter)
    → Dict.get key l.store ≡ found
    → IsBounded l
    → Keeps l (check_entry key now found l).0
unfolding check_entry
check_entry-Keeps key now none l e b = record { limit = refl; kept = b }
check_entry-Keeps key now (some entry) l e b = elim (Bool-cases (ltb now entry.blocked_until)) [
  | inl blocked ↦ rw blocked (record { limit = refl; kept = b })
  | inr unblocked ↦ elim (Bool-cases (leb entry.reset_at now)) [
    | inr running ↦ rw (unblocked, running) (record { limit = refl; kept = b })
    | inl over ↦ elim (Bool-cases (entry.failures == 0 || is_forgiven l.max_backoff_ms now entry)) [
      | inl clean ↦
          rw (unblocked, over, clean) (record { limit = refl; kept = delete-IsBounded key l b })
      | inr failed ↦
          rw (unblocked, over, failed)
            (record { limit = refl; kept = put_known key _ l (ground arith) b })
    ]
  ]
]

consume_entry-Keeps :
    (key : Text) (now : ℕ) (found : Option RateLimitEntry) (l : RateLimiter)
    → 0 < l.max_entries
    → Dict.get key l.store ≡ found
    → IsBounded l
    → Keeps l (consume_entry key now found l)
unfolding consume_entry
consume_entry-Keeps key now none l p e b = set_entry-Keeps key _ now l p b (ground arith)
consume_entry-Keeps key now (some entry) l p e b = record {
  limit = refl;
  kept = put_known key _ l (ground arith) b;
}

consume-Keeps :
    (key : Text) (now : ℕ) (l : RateLimiter)
    → 0 < l.max_entries
    → IsBounded l
    → Keeps l (consume key now l).0
unfolding consume is_limited
consume-Keeps key now l p b =
    let c = check_entry-Keeps key now (Dict.get key l.store) l refl b in
    let checked = (is_limited key now l).0 in
    elim (Bool-cases (is_limited key now l).1) [
      | inl limited ↦ rw limited c
      | inr free ↦
          let k =
            consume_entry-Keeps key now (Dict.get key checked.store) checked
              (ground (arith, c.limit)) refl c.kept in
          rw free (record { limit = ground (arith, c.limit, k.limit); kept = k.kept })
    ]

place_failure-Keeps :
    (key : Text) (now : ℕ) (found : Option RateLimitEntry) (entry : RateLimitEntry)
    (l : RateLimiter)
    → 0 < l.max_entries
    → Dict.get key l.store ≡ found
    → IsBounded l
    → Keeps l (place_failure key now found entry l)
unfolding place_failure
place_failure-Keeps key now none entry l p e b = set_entry-Keeps key entry now l p b (ground arith)
place_failure-Keeps key now (some before) entry l p e b = record {
  limit = refl;
  kept = put_known key entry l (ground arith) b;
}

-- A call of the limiter.
pub data Call : Type 0 where
  check attempt failure forget : Text → ℕ → Call
  purge : ℕ → Call
  wipe : Call

unfoldable pub perform : Call → RateLimiter → RateLimiter
unfolding is_limited consume record_failure reset cleanup clear
perform (check key now) l = (is_limited key now l).0
perform (attempt key now) l = (consume key now l).0
perform (failure key now) l = (record_failure key now l).0
perform (forget key now) l = reset key l
perform (purge now) l = cleanup now l
perform wipe l = clear l

abbrev pub perform_all : List Call → RateLimiter → RateLimiter
perform_all [] l = l
perform_all (c ∷ cs) l = perform_all cs (perform c l)

perform-Keeps :
    (c : Call) (l : RateLimiter) → 0 < l.max_entries → IsBounded l → Keeps l (perform c l)
unfolding perform is_limited record_failure reset clear cleanup
perform-Keeps (check key now) l p b = check_entry-Keeps key now (Dict.get key l.store) l refl b
perform-Keeps (attempt key now) l p b = consume-Keeps key now l p b
perform-Keeps (failure key now) l p b =
    place_failure-Keeps key now (Dict.get key l.store) _ l p refl b
perform-Keeps (forget key now) l p b = record { limit = refl; kept = delete-IsBounded key l b }
perform-Keeps (purge now) l p b = record { limit = refl; kept = cleanup-IsBounded now l b }
perform-Keeps wipe l p b = record {
  limit = refl;
  kept = record { bounded = omega arith; distinct = tt };
}

-- Where the limit on the keys is not 0, no sequence of calls, at whatever times and for whatever
-- keys, makes the limiter track more keys than the limit or one key twice.
pub perform_all-IsBounded :
    (calls : List Call) (l : RateLimiter)
    → 0 < l.max_entries
    → IsBounded l
    → IsBounded (perform_all calls l)
perform_all-IsBounded [] l p b = b
perform_all-IsBounded (c ∷ cs) l p b =
    let k = perform-Keeps c l p b in
    perform_all-IsBounded cs (perform c l) (ground (arith, k.limit)) k.kept
