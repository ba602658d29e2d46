-- ===== src/State/Consume.antt =====
-- What one `check_and_consume` does to the buckets, behind its clock test.
use hp_guardian.Prelude.{
  ℕ, ◌+◌, ◌<◌, Bool, true, false, some, ◌≡◌, ◌⊎◌, arith, if◌then◌else◌, ◌&&◌, ◌==◌, ==_iff, nat_eq,
}
use hp_guardian.Prelude.Map.{get, IsMap, get-insert, get-select, insert-IsMap, select-IsMap}
use hp_guardian.Models.{RateLimit}
use hp_guardian.State.{
  RateLimitKey, key_eq, Checked, consumed, Buckets, count_in, make_room, consume,
}

abbrev pub granted : Checked → Bool
granted (consumed taken) = taken
granted _ = false

-- Making room leaves the counts of the current window as they are.
count_in-make_room :
    (max_keys : ℕ) (key j : RateLimitKey) (w : ℕ) (b : Buckets)
    → IsMap b
    → count_in w (get (make_room max_keys key w b) j) ≡ count_in w (get b j)
unfolding make_room count_in
count_in-make_room max_keys key j w b m =
    ground (arith, get-select (λ (p : RateLimitKey × (ℕ × ℕ)). p.1.0 == w) b j m)

-- A bucket that is there afterwards is an old one.
get-make_room :
    (max_keys : ℕ) (key j : RateLimitKey) (w s c : ℕ) (b : Buckets)
    → IsMap b
    → get (make_room max_keys key w b) j ≡ some (s, c)
    → get b j ≡ some (s, c)
unfolding make_room
get-make_room max_keys key j w s c b m h =
    ground (arith, get-select (λ (p : RateLimitKey × (ℕ × ℕ)). p.1.0 == w) b j m)

make_room-IsMap :
    (max_keys : ℕ) (key : RateLimitKey) (w : ℕ) (b : Buckets)
    → IsMap b
    → IsMap (make_room max_keys key w b)
unfolding make_room
make_room-IsMap max_keys key w b m =
    ground (arith, m, select-IsMap (λ (p : RateLimitKey × (ℕ × ℕ)). p.1.0 == w) b m)

pub consume-IsMap :
    (max_keys : ℕ) (key : RateLimitKey) (limit : RateLimit) (w count : ℕ) (b : Buckets)
    → IsMap b
    → IsMap (consume max_keys key limit w count b).0
unfolding consume
consume-IsMap max_keys key limit w count b m =
    let kept = make_room max_keys key w b in
    let km = make_room-IsMap max_keys key w b m in
    ground (arith, insert-IsMap b key (w, count) m, insert-IsMap kept key (w, count + 1) km, km)

-- In a store with distinct keys, at the current window the call adds one to the count of its key if it is granted, and changes no
-- other count.
pub count_in-consume :
    (max_keys : ℕ) (key j : RateLimitKey) (limit : RateLimit) (w : ℕ) (b : Buckets)
    → IsMap b
    → let count = count_in w (get b key) in
      let (b', r) = consume max_keys key limit w count b in
      count_in w (get b' j) ≡ (if key == j && granted r then count + 1 else count_in w (get b j))
unfolding consume count_in
count_in-consume max_keys key j limit w b m =
    let count = count_in w (get b key) in
    let kept = make_room max_keys key w b in
    ground (
      arith,
      get-insert b key j (w, count),
      get-insert kept key j (w, count + 1),
      count_in-make_room max_keys key j w b m,
      ==_iff key j,
    )

pub get-consume :
    (max_keys : ℕ) (key j : RateLimitKey) (limit : RateLimit) (w count s c : ℕ) (b : Buckets)
    → IsMap b
    → get (consume max_keys key limit w count b).0 j ≡ some (s, c)
    → (s ≡ w) ⊎ (get b j ≡ some (s, c))
unfolding consume
get-consume max_keys key j limit w count s c b m h =
    let kept = make_room max_keys key w b in
    ground (
      arith,
      get-insert b key j (w, count),
      get-insert kept key j (w, count + 1),
      get-make_room max_keys key j w s c b m,
    )

-- A slot is granted only below the limit.
pub granted-lt-max_calls :
    (max_keys : ℕ) (key : RateLimitKey) (limit : RateLimit) (w count : ℕ) (b : Buckets)
    → granted (consume max_keys key limit w count b).1 ≡ true
    → count < limit.max_calls
unfolding consume
granted-lt-max_calls max_keys key limit w count b h = ground arith
