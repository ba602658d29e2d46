-- ===== src/State/History.antt =====
-- Histories of calls on one store, when all the limits have windows of one length `W`.
use hp_guardian.Prelude.{
  ℕ, ◌+◌, ◌-◌, ◌%◌, ◌≤◌, ◌<◌, false, some, List, [], ◌∷◌, ◌≡◌, ◌≢◌, sym, ap, subst, inl, inr, arith,
  if◌then◌else◌, ◌&&◌, ◌==◌, nat_eq, Bool-cases,
}
use hp_guardian.Prelude.Map.{get, IsMap}
use hp_guardian.Models.{RateLimit}
use hp_guardian.State.{
  RateLimitKey, key_eq, Checked, Buckets, InMemoryRateLimitStore, count_in, went_back, window_start,
  consume, check_and_consume,
}
use hp_guardian.State.Window.{start_mono}
use hp_guardian.State.Consume.{granted, consume-IsMap, get-consume}

pub record Call : Type 0 where
  pub key : RateLimitKey
  pub limit : RateLimit
  pub now : ℕ

abbrev pub after : Call → InMemoryRateLimitStore → InMemoryRateLimitStore
after c s = (check_and_consume c.key c.limit c.now s).0

abbrev pub answer : Call → InMemoryRateLimitStore → Checked
answer c s = (check_and_consume c.key c.limit c.now s).1

-- The slots that a key has consumed in the window that starts at `w`.
abbrev pub used : RateLimitKey → ℕ → InMemoryRateLimitStore → ℕ
used k w s = count_in w (get s.inner.buckets k)

-- One slot for a call that was granted to `k` in the window `w`.
abbrev pub slot : RateLimitKey → ℕ → Call → InMemoryRateLimitStore → ℕ
slot k w c s =
    if c.key == k && (window_start c.now c.limit == w && granted (answer c s)) then 1 else 0

-- The calls of a history that are granted to `k` in the window `w`.
unfoldable pub grants : RateLimitKey → ℕ → List Call → InMemoryRateLimitStore → ℕ
grants k w [] s = 0
grants k w (c ∷ cs) s = slot k w c s + grants k w cs (after c s)

-- The clock does not refuse an instant.
abbrev pub Admits : InMemoryRateLimitStore → ℕ → Type 0
Admits s t = went_back s.inner.last_now t ≡ false

module _ (W : ℕ) where
  -- No bucket starts behind the window of an instant that the clock admits.
  pub record IsAged (s : InMemoryRateLimitStore) : Type 0 where
    pub is_map : IsMap s.inner.buckets
    pub starts :
        (t : ℕ) (j : RateLimitKey) (start count : ℕ)
        → Admits s t
        → get s.inner.buckets j ≡ some (start, count)
        → start ≤ t - t % W

  -- The window `w` is over: each instant that the clock admits lies in a later one.
  abbrev pub IsPast : ℕ → InMemoryRateLimitStore → Type 0
  IsPast w s = (t : ℕ) → Admits s t → w < t - t % W

  module _ (pos : 0 < W) (c : Call) (same : c.limit.window_seconds ≡ W)
      (s : InMemoryRateLimitStore) where
    abbrev pub now_window : ℕ
    now_window = c.now - c.now % W

    -- A call is refused with nothing changed, or served at an instant that the clock admits.
    pub data Served : Type 0 where
      refused : after c s ≡ s → granted (answer c s) ≡ false → Served
      served :
          Admits s c.now
          → (after c s).inner.last_now ≡ some c.now
          → ((after c s).inner.buckets, answer c s)
            ≡ consume s.max_keys c.key c.limit now_window (used c.key now_window s) s.inner.buckets
          → Served

    pub serve : Served
    unfolding check_and_consume
    serve = elim (Bool-cases s.poisoned) [
      | inl p ↦ refused (ground arith) (ground arith)
      | inr p ↦ elim (Bool-cases (went_back s.inner.last_now c.now)) [
        | inl b ↦ refused (ground arith) (ground arith)
        | inr b ↦ served b (ground arith) (rw (← same) (ground (arith, pos, same)))
      ]
    ]

    -- A served call leaves the clock at its own instant.
    pub Admits-later :
        (after c s).inner.last_now ≡ some c.now → (t : ℕ) → Admits (after c s) t → c.now ≤ t
    Admits-later e t a = ground arith

    -- With a positive window length that the call's limit has too, a call leaves an aged store aged:
    -- its keys are distinct, and no bucket starts behind the window of an instant that the clock admits.
    pub after-IsAged : IsAged s → IsAged (after c s)
    after-IsAged h = elim serve [
      | refused e r ↦ subst IsAged (sym e) h
      | served a l e ↦ record {
        is_map = rw (ap (λ (p : Buckets × Checked). p.0) e) (consume-IsMap _ _ _ _ _ _ h.is_map);
        starts = λ t j start count at m.
            let later = Admits-later l t at in
            let mono = start_mono W c.now t pos later in
            elim (get-consume s.max_keys c.key j c.limit now_window (used c.key now_window s) start
              count s.inner.buckets h.is_map (rw (ap (λ (p : Buckets × Checked). p.0) e) at m)) [
                | inl fresh ↦ omega (arith, mono, fresh)
                | inr old ↦ omega (arith, mono, h.starts c.now j start count a old)
              ];
      }
    ]

    pub after-IsPast : (w : ℕ) → IsPast w s → IsPast w (after c s)
    after-IsPast w h = elim serve [
      | refused e r ↦ subst (IsPast w) (sym e) h
      | served a l e ↦
          λ t at. omega (arith, h c.now a, start_mono W c.now t pos (Admits-later l t at))
    ]

no_bucket : (b : Buckets) (j : RateLimitKey) {p : ℕ × ℕ} → b ≡ [] → get b j ≢ some p
unfolding get
no_bucket [] j e h = cc
no_bucket (x ∷ b) j e h = cc

-- A store with no buckets, whatever its clock has seen.
pub empty-IsAged : (W : ℕ) (s : InMemoryRateLimitStore) → s.inner.buckets ≡ [] → IsAged W s
empty-IsAged W s e = record {
  is_map = rw e tt;
  starts = λ t j start count a m. absurd (no_bucket s.inner.buckets j e m);
}
