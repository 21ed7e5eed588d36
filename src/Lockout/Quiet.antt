-- ===== src/Lockout/Quiet.antt =====
-- The lockout acts on Redis alone.
use mkk_luna.Prelude.{ℕ, ◌≡◌, refl, inl, inr, String, Option, none, some, ltb, ◌==◌, Bool-cases}
use mkk_luna.Redis.{Cells, incr, expire}
use mkk_luna.Redis.Keys.{fail}
use mkk_luna.World.{World, Result, ok, tick, command, continue, ◌>>◌}
use mkk_luna.World.Rules.{command_rule, Then}
use mkk_luna.Lockout.{
  Lockout, is_inactive, is_locked, count_result, drop_error, start_span, lock_from, on_failure,
  on_success,
}

-- Neither the tables nor the services are others.
abbrev pub IsQuiet : World → World → Type 0
IsQuiet w w' = (w'.tables ≡ w.tables) × (w'.services ≡ w.services)

command-IsQuiet :
    {A : Type 0} (c : ℕ → Cells → Result A × Cells) (w : World) → IsQuiet w (command c w).1
command-IsQuiet c w = command_rule (λ o. IsQuiet w o.1) c w (refl, refl) (refl, refl) (refl, refl)

module _ (l : Lockout) (login : String) where
  pub is_locked-IsQuiet : (w : World) → IsQuiet w (is_locked l login w).1
  unfolding is_locked
  is_locked-IsQuiet w = elim (Bool-cases (is_inactive l)) [
    | inl e ↦ rw e (refl, refl)
    | inr e ↦ rw e (command-IsQuiet _ w)
  ]

  lock_from-IsQuiet : (n : ℕ) (w : World) → IsQuiet w (lock_from l login n w).1
  unfolding lock_from
  lock_from-IsQuiet n w = elim (Bool-cases (ltb n l.max_attempts)) [
    | inl e ↦ rw e (refl, refl)
    | inr e ↦ rw e (command-IsQuiet _ w)
  ]

  span-IsQuiet : (n : ℕ) (w : World) → IsQuiet w ((start_span l login n >> lock_from l login n) w).1
  unfolding start_span
  span-IsQuiet n w = elim (Bool-cases (n == 1)) [
    | inl e ↦ rw e (
        command_rule
          (λ (r, w'). IsQuiet w (continue (drop_error l r) (λ _. lock_from l login n) w').1)
          (λ now cells. (ok tt, expire now (fail login) l.lock_ttl cells)) w (lock_from-IsQuiet n _)
          (lock_from-IsQuiet n _) (lock_from-IsQuiet n _))
    | inr e ↦ rw e (lock_from-IsQuiet n w)
  ]

  pub on_failure-IsQuiet : (w : World) → IsQuiet w (on_failure l login w).1
  unfolding on_failure
  on_failure-IsQuiet w = elim (Bool-cases (is_inactive l)) [
    | inl e ↦ rw e (refl, refl)
    | inr e ↦ rw e (
        command_rule (Then (λ n. start_span l login n >> lock_from l login n) (λ o. IsQuiet w o.1))
          (λ now cells. count_result l (incr now (fail login) cells)) w (refl, refl) (refl, refl)
          (counted (incr (w.services.now w.calls) (fail login) w.redis)))
  ]
    where
      counted :
          (out : Option ℕ × Cells)
          → Then
              (λ n. start_span l login n >> lock_from l login n)
              (λ o. IsQuiet w o.1)
              ((count_result l out).0, record (tick w) { redis = (count_result l out).1 })
      counted (none, cells) = (refl, refl)
      counted (some n, cells) = span-IsQuiet n (record (tick w) { redis = cells })

  pub on_success-IsQuiet : (w : World) → IsQuiet w (on_success l login w).1
  unfolding on_success
  on_success-IsQuiet w = elim (Bool-cases l.connected) [
    | inl e ↦ rw e (command-IsQuiet _ w)
    | inr e ↦ rw e (refl, refl)
  ]
