-- ===== src/Limiter/Window.antt =====
-- The ends of the limiter's windows.
use native.Mathlib.Nat.{mul-div-le, lt-div-mul-add, mul_comm}
use mkk_luna.Prelude.{
  ℕ, ◌+◌, ◌*◌, ◌/◌, ◌<◌, ◌≤◌, ◌≡◌, true, false, ltb, ◌==◌, ==_iff, Bool-cases, inl, inr, arith,
  if◌then◌else◌,
}
use mkk_luna.Limiter.{second, fixed_window_reset}

-- A multiple of the window's seconds at or before the current second, and less than a window away.
between :
    (now window start : ℕ)
    → start ≤ now / second
    → now / second < start + window / second
    → (now < start * second + window) × (start * second + window ≤ now + window)
between now window start lower upper = (omega arith, omega arith)

whole_windows : (a ws : ℕ) → 0 < ws → (a / ws * ws ≤ a) × (a < a / ws * ws + ws)
whole_windows a ws h = (rw (mul_comm (a / ws) ws) (mul-div-le a ws), lt-div-mul-add h)

-- A window ends after the moment for which it is computed, and no later than a window's length, or a
-- second for a window shorter than that, after it.
fixed_window_reset-le :
    (now window : ℕ)
    → (now < fixed_window_reset now window)
      × (fixed_window_reset now window ≤ now + (if ltb window second then second else window))
unfolding fixed_window_reset
fixed_window_reset-le now window = elim (Bool-cases (window / second == 0)) [
  | inl e ↦
      let none_whole : window / second ≡ 0 = (==_iff (window / second) 0).0 e in
      let short : ltb window second ≡ true = below none_whole in
      rw (e, fixed_window_reset, short) (omega arith, omega arith)
  | inr e ↦
      let some_whole : 0 < window / second = ground arith in
      let long : ltb window second ≡ false = above some_whole in
      let (lower, upper) = whole_windows (now / second) (window / second) some_whole in
      rw (e, fixed_window_reset, long) (between now window _ lower upper)
]
  where
    below : window / second ≡ 0 → ltb window second ≡ true
    below h = let le : window < second = omega arith in ground arith

    above : 0 < window / second → ltb window second ≡ false
    above h = let le : second ≤ window = omega arith in ground arith
