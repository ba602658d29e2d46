-- ===== src/State/Quota.antt =====
-- The quota: how many calls of a key are granted in one window.
use hp_guardian.Prelude.{
  ℕ, ◌+◌, ◌-◌, ◌%◌, ◌≤◌, ◌<◌, true, Option, none, some, List, [], ◌∷◌, ◌≡◌, refl, ap, ◌⊎◌, inl, inr,
  arith, if◌then◌else◌, ◌&&◌, ◌==◌, ==_iff, nat_eq, Bool-cases, All,
}
use hp_guardian.Prelude.Map.{get, IsMap}
use hp_guardian.State.{
  RateLimitKey, key_eq, Checked, Buckets, InMemoryRateLimitStore, count_in, window_start, consume,
}
use hp_guardian.State.Consume.{granted, count_in-consume, granted-lt-max_calls}
use hp_guardian.State.Window.{start_mono}
use hp_guardian.State.History.{
  Call, after, answer, used, slot, grants, Admits, IsAged, IsPast, refused, served, serve,
  after-IsAged, after-IsPast, Admits-later,
}

order : (a b : ℕ) → (a < b) ⊎ ((a ≡ b) ⊎ (b < a))
order a b = omega arith

count_in_later :
    (w : ℕ) (o : Option (ℕ × ℕ))
    → ((start count : ℕ) → o ≡ some (start, count) → start < w)
    → count_in w o ≡ 0
unfolding count_in
count_in_later w none h = refl
count_in_later w (some (start, count)) h = ground (arith, h start count refl)

module _ (W : ℕ) (pos : 0 < W) where
  used_later :
      (k : RateLimitKey) (w t : ℕ) (s : InMemoryRateLimitStore)
      → IsAged W s
      → Admits s t
      → t - t % W < w
      → used k w s ≡ 0
  used_later k w t s h a lt =
      count_in_later w (get s.inner.buckets k)
        (λ start count m. omega (arith, h.starts t k start count a m))

  module _ (k : RateLimitKey) (w : ℕ) where
    slot_past :
        (c : Call) (same : c.limit.window_seconds ≡ W) (s : InMemoryRateLimitStore)
        → IsPast W w s
        → slot k w c s ≡ 0
    slot_past c same s h = elim (serve W pos c same s) [
      | refused e r ↦ ground (arith, r)
      | served a l e ↦ ground (arith, h c.now a, same)
    ]

    -- Every call of the history has windows of the length `W`.
    abbrev Uniform : List Call → Type 0
    Uniform cs = All (λ (c : Call). c.limit.window_seconds ≡ W) cs

    grants_past :
        (cs : List Call) (s : InMemoryRateLimitStore)
        → Uniform cs
        → IsPast W w s
        → grants k w cs s ≡ 0
    unfolding grants
    grants_past [] s u h = refl
    grants_past (c ∷ cs) s u h = omega (
      arith,
      slot_past c u.0 s h,
      grants_past cs (after c s) u.1 (after-IsPast W pos c u.0 s w h),
    )

    module _ (M : ℕ) where
      -- The limit that the calls of `k` come with is at most `M`.
      abbrev Limited : List Call → Type 0
      Limited cs = All (λ (c : Call). (c.key == k) ≡ true → c.limit.max_calls ≤ M) cs

      data Step (c : Call) (s : InMemoryRateLimitStore) : Type 0 where
        counted :
            used k w s + slot k w c s ≤ used k w (after c s) → used k w (after c s) ≤ M → Step c s
        closed : slot k w c s ≡ 0 → IsPast W w (after c s) → Step c s

      Step-now :
          (c : Call) (s : InMemoryRateLimitStore)
          → c.limit.window_seconds ≡ W
          → ((c.key == k) ≡ true → c.limit.max_calls ≤ M)
          → c.now - c.now % W ≡ w
          → IsMap s.inner.buckets
          → used k w s ≤ M
          → ((after c s).inner.buckets, answer c s)
            ≡ consume s.max_keys c.key c.limit w (used c.key w s) s.inner.buckets
          → Step c s
      Step-now c s same cap now m le e = elim (Bool-cases (c.key == k)) [
        | inl hit ↦
            let e' = (==_iff c.key k).0 hit in
            counted (ground (arith, law, window, hit, ap (λ j. used j w s) e'))
              (ground (arith, law, hit, ap (λ j. used j w s) e', room, cap hit))
        | inr miss ↦ counted (ground (arith, law, miss)) (ground (arith, law, miss))
      ]
        where
          window : window_start c.now c.limit ≡ w
          window = rw same now

          law :
              used k w (after c s)
              ≡ (if c.key == k && granted (answer c s) then used c.key w s + 1 else used k w s)
          law =
              rw (ap (λ (p : Buckets × Checked). p.0) e, ap (λ (p : Buckets × Checked). p.1) e)
                (count_in-consume s.max_keys c.key k c.limit w s.inner.buckets m)

          room : granted (answer c s) ≡ true → used c.key w s < c.limit.max_calls
          room g =
              granted-lt-max_calls s.max_keys c.key c.limit w (used c.key w s) s.inner.buckets
                (rw (ap (λ (p : Buckets × Checked). p.1) e) at g)

      step :
          (c : Call) (s : InMemoryRateLimitStore)
          → c.limit.window_seconds ≡ W
          → ((c.key == k) ≡ true → c.limit.max_calls ≤ M)
          → IsAged W s
          → used k w s ≤ M
          → Step c s
      step c s same cap aged le = elim (serve W pos c same s) [
        | refused e r ↦ counted (rw e (ground (arith, r))) (rw e le)
        | served a l e ↦ elim (order (c.now - c.now % W) w) [
          | inl before ↦
              let aged' = after-IsAged W pos c same s aged in
              let admits : Admits (after c s) c.now = rw l (ground arith) in
              let now_zero = used_later k w c.now s aged a before in
              let later_zero = used_later k w c.now (after c s) aged' admits before in
              counted (ground (arith, now_zero, same, before)) (omega (arith, later_zero))
          | inr (inl now) ↦ Step-now c s same cap now aged.is_map le (rw (← now) e)
          | inr (inr over) ↦ closed (ground (arith, same, over)) (λ t at.
              omega (arith, over, start_mono W c.now t pos (Admits-later W pos c same s l t at)))
        ]
      ]

      -- On a history of calls whose windows all have one positive length, and in which the limit that
      -- the key `k` comes with is at most `M`: from an aged store in which `k` has used at most `M`
      -- slots of the window `w`, the slots of `w` that `k` had used and those that the history
      -- grants it are together at most `M`, however the calls of other keys are interleaved.
      pub quota_bound :
          (cs : List Call) (s : InMemoryRateLimitStore)
          → Uniform cs
          → Limited cs
          → IsAged W s
          → used k w s ≤ M
          → used k w s + grants k w cs s ≤ M
      unfolding grants
      quota_bound [] s u lim aged le = omega arith
      quota_bound (c ∷ cs) s u lim aged le = elim (step c s u.0 lim.0 aged le) [
        | counted more le' ↦ omega (
          arith,
          more,
          quota_bound cs (after c s) u.1 lim.1 (after-IsAged W pos c u.0 s aged) le',
        )
        | closed none' past ↦ omega (arith, none', grants_past cs (after c s) u.1 past)
      ]
