-- ===== src/State/Answers.antt =====
-- When the store gives which answer.
use hp_guardian.Prelude.{
  ℕ, ◌-◌, ◌%◌, ◌≤◌, ◌<◌, Bool, true, false, Option, none, some, length, length-select, select, ◌≡◌,
  refl, subst, ◌↔◌, ◌⊎◌, inl, inr, arith, not, ◌&&◌, leb, ◌==◌, ==_iff, nat_eq, Bool-cases,
}
use hp_guardian.Prelude.Map.{
  get, contains_key, get-contains_key, contains_key-none, contains_key-select,
}
use hp_guardian.Models.{RateLimit}
use hp_guardian.State.{
  RateLimitKey, key_eq, Checked, consumed, state_error, InMemoryRateLimitStore, count_in, went_back,
  make_room, consume, check_and_consume,
}

-- The clock has run back behind the last call.
abbrev pub RanBack : ℕ → Option ℕ → Type 0
RanBack now last_now = (last : ℕ) × (last_now ≡ some last) × (now < last)

-- All calls of the window with this start are used up.
abbrev pub Spent : ℕ → ℕ → Option (ℕ × ℕ) → Type 0
Spent max_calls start bucket =
    (max_calls ≡ 0) ⊎ ((count : ℕ) × (bucket ≡ some (start, count)) × (max_calls ≤ count))

went_back_iff :
    (now : ℕ) (last_now : Option ℕ) → (went_back last_now now ≡ true) ↔ RanBack now last_now
went_back_iff now none = (λ h. absurd (cc h), λ (last, seen, lt). absurd (cc seen))
went_back_iff now (some last_now) =
    (λ h. (last_now, refl, ground (arith, h)), λ (last, seen, lt). ground (arith, seen, lt))

Spent-iff :
    (max_calls start : ℕ) (bucket : Option (ℕ × ℕ))
    → (leb max_calls (count_in start bucket) ≡ true) ↔ Spent max_calls start bucket
unfolding count_in
Spent-iff max_calls start none = (
  λ h. inl (ground (arith, h)),
  λ spent. elim spent [
    | inl zero ↦ ground (arith, zero)
    | inr (count, held, le) ↦ absurd (cc held)
  ],
)
Spent-iff max_calls start (some (window, count)) = elim (Bool-cases (window == start)) [
  | inl same ↦
      let at : window ≡ start = (==_iff window start).0 same in
      (
        λ h. inr (count, rw at refl, ground (arith, h, same)),
        λ spent. elim spent [
          | inl zero ↦ ground (arith, zero)
          | inr (other, held, le) ↦ ground (arith, held, le, same)
        ],
      )
  | inr apart ↦ (
    λ h. inl (ground (arith, h, apart)),
    λ spent. elim spent [
      | inl zero ↦ ground (arith, zero)
      | inr (other, held, le) ↦ ground (arith, held, le, apart, ==_iff window start)
    ],
  )
]

module _ (key : RateLimitKey) (limit : RateLimit) (now : ℕ) (s : InMemoryRateLimitStore) where
  abbrev start : ℕ
  start = now - now % limit.window_seconds

  abbrev pub Late : Type 0
  Late = RanBack now s.inner.last_now

  abbrev pub UsedUp : Type 0
  UsedUp = Spent limit.max_calls start (get s.inner.buckets key)

  abbrev pub in_window : RateLimitKey × (ℕ × ℕ) → Bool
  in_window p = p.1.0 == start

  -- A key without a bucket, and no room beside the buckets of the windows with this start.
  abbrev pub Crowded : Type 0
  Crowded =
      (get s.inner.buckets key ≡ none) × (s.max_keys ≤ length (select in_window s.inner.buckets))

  -- Each answer with its condition.
  pub data Answers : Checked → Type 0 where
    poisoned_lock : s.poisoned ≡ true → Answers state_error
    clock_ran_back : s.poisoned ≡ false → Late → Answers state_error
    refused : s.poisoned ≡ false → ¬ Late → UsedUp → Answers (consumed false)
    no_room : s.poisoned ≡ false → ¬ Late → ¬ UsedUp → Crowded → Answers state_error
    granted : s.poisoned ≡ false → ¬ Late → ¬ UsedUp → ¬ Crowded → Answers (consumed true)

  abbrev crowded : Bool
  crowded =
      let kept = make_room s.max_keys key start s.inner.buckets in
      not (contains_key kept key) && leb s.max_keys (length kept)

  crowded-Crowded : crowded ≡ true → Crowded
  unfolding make_room
  crowded-Crowded h = elim (Bool-cases (contains_key s.inner.buckets key)) [
    | inl there ↦ absurd (ground (arith, h, there))
    | inr new ↦ (
      get-contains_key s.inner.buckets key new,
      ground (arith, h, new, length-select in_window s.inner.buckets),
    )
  ]

  Crowded-crowded : Crowded → crowded ≡ true
  unfolding make_room
  Crowded-crowded (absent, full) =
      let new = contains_key-none s.inner.buckets key absent in
      ground (
        arith,
        full,
        new,
        contains_key-select in_window s.inner.buckets key new,
        length-select in_window s.inner.buckets,
      )

  consume-Answers :
      s.poisoned ≡ false
      → ¬ Late
      → Answers
          (consume s.max_keys key limit start
            (count_in start (get s.inner.buckets key))
            s.inner.buckets).1
  unfolding consume
  consume-Answers sound on_time =
      let used = Spent-iff limit.max_calls start (get s.inner.buckets key) in
      elim (Bool-cases (leb limit.max_calls (count_in start (get s.inner.buckets key)))) [
        | inl spent ↦ rw spent (refused sound on_time (used.0 spent))
        | inr left ↦
            let unspent : ¬ UsedUp = λ up. cc (used.1 up, left) in
            elim (Bool-cases crowded) [
              | inl full ↦ rw (left, full) (no_room sound on_time unspent (crowded-Crowded full))
              | inr free ↦
                  rw (left, free)
                    (granted sound on_time unspent (λ c. cc (Crowded-crowded c, free)))
            ]
      ]

  -- Each answer for a window of positive length, with its condition: a poisoned lock and a clock that
  -- ran back behind the last call are errors. Then the call is refused where the limit admits no call
  -- or the bucket of the key has the start of the call's window and at least as many calls as the limit
  -- admits. Else it is an error where the key has no bucket and the buckets with this start fill the
  -- capacity, and any other call is granted.
  pub check_and_consume-Answers :
      0 < limit.window_seconds → Answers (check_and_consume key limit now s).1
  unfolding check_and_consume
  check_and_consume-Answers pos = elim (Bool-cases s.poisoned) [
    | inl poisoned ↦
        let given : state_error ≡ (check_and_consume key limit now s).1 =
          ground (arith, poisoned) in
        subst Answers given (poisoned_lock poisoned)
    | inr sound ↦ elim (Bool-cases (went_back s.inner.last_now now)) [
      | inl late ↦
          let given : state_error ≡ (check_and_consume key limit now s).1 =
            ground (arith, sound, late) in
          subst Answers given (clock_ran_back sound ((went_back_iff now s.inner.last_now).0 late))
      | inr on_time ↦
          let given : (consume s.max_keys key limit start (count_in start (get s.inner.buckets key))
                s.inner.buckets).1
              ≡ (check_and_consume key limit now s).1 =
            ground (arith, pos, sound, on_time) in
          subst Answers given (
            consume-Answers sound
              (λ back. cc ((went_back_iff now s.inner.last_now).1 back, on_time)))
    ]
  ]
