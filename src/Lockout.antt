-- ===== src/Lockout.antt =====
-- internal/infra/auth/lockout.go: a login is locked after a number of failures in a span of time. A result
-- is the time for which it is locked, or none. `strings.ToLower` is a parameter.
pub mod Laws
pub mod Quiet
pub mod Tests
use mkk_luna.Prelude.{
  ℕ, ◌/◌, ◌==◌, ◌=s◌, ltb, ◌||◌, not, String, Bool, Option, none, some, if◌then◌else◌,
}
use mkk_luna.Text.{trim_space}
use mkk_luna.Redis.{Cells, left, incr, expire, set, del}
use mkk_luna.Redis.Keys.{fail, lock, text}
use mkk_luna.World.{M, Result, ok, err, external, pure, command, ◌>>=◌, ◌>>◌}

pub record Lockout : Type 0 where
  pub connected : Bool
  pub max_attempts : ℕ
  pub lock_ttl : ℕ
  pub key_max_len : ℕ
  pub to_lower : String → String
  -- The bytes of a text.
  pub len : String → ℕ

module _ (l : Lockout) where
  unfoldable pub max_len : ℕ
  max_len = if l.key_max_len == 0 then 128 else l.key_max_len

  -- none for an error.
  unfoldable pub normalize : String → Option String
  unfolding trim_space max_len
  normalize login =
      let s = l.to_lower (trim_space login) in
      if s =s "" || ltb max_len (l.len s) then none else some s

  abbrev pub is_inactive : Bool
  is_inactive = not l.connected || l.max_attempts == 0 || l.lock_ttl == 0

  unfoldable pub is_locked : String → M (Option ℕ)
  is_locked normalized =
      if is_inactive
      then pure none
      else command (λ now cells. (ok (left now (cells (lock normalized))), cells))

  abbrev pub count_result : Option ℕ × Cells → Result ℕ × Cells
  count_result (some n, cells) = (ok n, cells)
  count_result (none, cells) = (err external, cells)

  abbrev pub drop_error : Result (Unit {0}) → Result (Unit {0})
  drop_error (ok u) = ok tt
  drop_error (err e) = ok tt

  -- The first failure starts the span; an error of EXPIRE is only logged.
  unfoldable pub start_span : String → ℕ → M (Unit {0})
  unfolding expire
  start_span normalized n w =
      if n == 1
      then (let (r, w') =
            command (λ now cells. (ok tt, expire now (fail normalized) l.lock_ttl cells)) w in
          (drop_error r, w'))
      else (ok tt, w)

  unfoldable pub lock_from : String → ℕ → M (Option ℕ)
  unfolding set
  lock_from normalized n =
      if ltb n l.max_attempts
      then pure none
      else command (λ now cells.
        (ok (some l.lock_ttl), set now (lock normalized) (text "1") l.lock_ttl cells))

  unfoldable pub on_failure : String → M (Option ℕ)
  unfolding incr start_span lock_from
  on_failure normalized =
      if is_inactive
      then pure none
      else command (λ now cells. count_result (incr now (fail normalized) cells))
        >>= (λ n. start_span normalized n >> lock_from normalized n)

  unfoldable pub on_success : String → M (Unit {0})
  unfolding del
  on_success normalized =
      if l.connected
      then command (λ now cells. (ok tt, del (lock normalized) (del (fail normalized) cells)))
      else pure tt

-- Seconds, at least one.
unfoldable pub format_retry_after : ℕ → ℕ
format_retry_after d = if ltb (d / 1000000000) 1 then 1 else d / 1000000000
