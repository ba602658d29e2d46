-- ===== src/State/Capacity.antt =====
-- The bound on the number of keys, and what the store does under it.
use hp_guardian.Prelude.{
  ℕ, ◌+◌, ◌≤◌, ◌<◌, true, false, none, some, ◌≡◌, ◌≢◌, arith, ◌==◌, ==_iff, nat_eq, length,
  length-select,
}
use hp_guardian.Prelude.Map.{
  get, contains_key, IsMap, get-insert, get-select, get-contains_key, length-insert,
  contains_key-get,
}
use hp_guardian.Models.{RateLimit}
use hp_guardian.State.{
  RateLimitKey, key_eq, Buckets, InMemoryRateLimitStore, count_in, went_back, window_start,
  retain_window, make_room, consume, check_and_consume,
}

length-make_room :
    (max_keys : ℕ) (key : RateLimitKey) (w : ℕ) (b : Buckets)
    → length (make_room max_keys key w b) ≤ length b
unfolding make_room
length-make_room max_keys key w b =
    ground (arith, length-select (λ (p : RateLimitKey × (ℕ × ℕ)). p.1.0 == w) b)

-- A count at or over a positive limit is that of a bucket of the key.
count_in-contains_key :
    (w : ℕ) (key : RateLimitKey) (b : Buckets)
    → 0 < count_in w (get b key)
    → contains_key b key ≡ true
unfolding count_in
count_in-contains_key w key b h = ground (arith, get-contains_key b key)

length-consume :
    (max_keys : ℕ) (key : RateLimitKey) (limit : RateLimit) (w : ℕ) (b : Buckets)
    → 1 ≤ limit.max_calls
    → length b ≤ max_keys
    → length (consume max_keys key limit w (count_in w (get b key)) b).0 ≤ max_keys
unfolding consume
length-consume max_keys key limit w b one fits =
    let count = count_in w (get b key) in
    let kept = make_room max_keys key w b in
    ground (
      arith,
      length-make_room max_keys key w b,
      count_in-contains_key w key b,
      length-insert b key (w, count),
      length-insert kept key (w, count + 1),
    )

-- No call takes a store that is within its capacity over it, if the limit admits at least one call.
pub check_and_consume-capacity :
    (key : RateLimitKey) (limit : RateLimit) (now : ℕ) (s : InMemoryRateLimitStore)
    → 1 ≤ limit.max_calls
    → length s.inner.buckets ≤ s.max_keys
    → length (check_and_consume key limit now s).0.inner.buckets ≤ s.max_keys
unfolding check_and_consume
check_and_consume-capacity key limit now s one fits =
    ground
      (arith, length-consume s.max_keys key limit (window_start now limit) s.inner.buckets one fits)

-- For a limit with a positive window and at least one call, at an instant that the clock of an
-- unpoisoned store with distinct keys admits, and for a key without a bucket: a full store drops
-- the bucket of another key whenever that bucket belongs to another window, also
-- one that is still open: windows of different lengths start at different instants.
pub full_store_forgets :
    (key other : RateLimitKey) (limit : RateLimit) (now start count : ℕ)
    (s : InMemoryRateLimitStore)
    → IsMap s.inner.buckets
    → s.poisoned ≡ false
    → went_back s.inner.last_now now ≡ false
    → 0 < limit.window_seconds
    → 0 < limit.max_calls
    → contains_key s.inner.buckets key ≡ false
    → s.max_keys ≤ length s.inner.buckets
    → get s.inner.buckets other ≡ some (start, count)
    → start ≢ window_start now limit
    → get (check_and_consume key limit now s).0.inner.buckets other ≡ none
unfolding check_and_consume consume make_room count_in
full_store_forgets key other limit now start count s m p b pos some_calls new full held ne =
    let w = window_start now limit in
    let kept = retain_window w s.inner.buckets in
    ground (
      arith,
      get-contains_key s.inner.buckets key new,
      get-select (λ (p : RateLimitKey × (ℕ × ℕ)). p.1.0 == w) s.inner.buckets other m,
      get-insert kept key other (w, 1),
      ==_iff key other,
      contains_key-get s.inner.buckets other (start, count) held,
    )
