-- ===== src/State/Window.antt =====
-- The starts of fixed windows.
use hp_guardian.Prelude.{ℕ, ◌-◌, ◌*◌, ◌/◌, ◌%◌, ◌≤◌, ◌<◌, ◌≡◌, arith}
use native.Mathlib.Nat.{div-add-mod, le-div_iff_mul-le, div-mul-le_self}

start-mul : (w t : ℕ) → t - t % w ≡ t / w * w
start-mul w t = grind (arith, div-add-mod t w)

-- The window that an instant lies in starts no later than that of a later instant.
pub start_mono : (w t n : ℕ) → 0 < w → t ≤ n → t - t % w ≤ n - n % w
start_mono w t n pos le =
    let quotients : t / w ≤ n / w =
      (le-div_iff_mul-le pos).1 (omega (arith, div-mul-le_self t w)) in
    let products : t / w * w ≤ n / w * w = grind (arith, quotients) in
    omega (arith, start-mul w t, start-mul w n, products)
