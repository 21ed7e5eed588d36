-- ===== src/Lockout/Tests.antt =====
-- Runs of the lockout, and the theorem at one.
use mkk_luna.Prelude.{◌≡◌, refl, true, none, arith}
use mkk_luna.Text.{trim_space}
use mkk_luna.Samples.{world}
use mkk_luna.Lockout.{Lockout, normalize, max_len, format_retry_after}
use mkk_luna.Lockout.Laws.{failures, HasCounted, failures-HasCounted}

abbrev lockout : Lockout
lockout = record {
  connected = true;
  max_attempts = 5;
  lock_ttl = 1000000;
  key_max_len = 3;
  to_lower = λ s. s;
  len = λ s. 4;
}

format_retry_after_tests : (format_retry_after 0 ≡ 1) × (format_retry_after 2500000000 ≡ 2)
unfolding format_retry_after
format_retry_after_tests = (refl, refl)

normalize_too_long : normalize lockout " anna" ≡ none
unfolding normalize max_len trim_space
normalize_too_long = refl

failures-HasCounted_example : HasCounted lockout "ann" world 4 (failures lockout "ann" 4 world)
failures-HasCounted_example =
    failures-HasCounted lockout "ann" world refl (λ k. refl) refl 4 (λ k h. omega (arith, h))
