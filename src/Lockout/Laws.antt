-- ===== src/Lockout/Laws.antt =====
-- How failures of a login add up.
use mkk_luna.Prelude.{
  ℕ, zero, suc, ◌+◌, ◌*◌, ◌≤◌, ◌<◌, ◌≡◌, refl, ◌∙◌, inl, inr, String, false, Option, none, some,
  ltb, leb, ◌==◌, arith, Bool-cases, if◌then◌else◌,
}
use mkk_luna.Redis.{Cells, incr, expire, put, set}
use mkk_luna.Redis.Keys.{fail, lock, number, text}
use mkk_luna.Redis.Rules.{put_same, put_other}
use mkk_luna.World.{M, World, Result, ok, works, tick}
use mkk_luna.World.Rules.{command-works}
use mkk_luna.Lockout.{Lockout, is_inactive, on_failure, start_span, lock_from, count_result}

-- The failures so far, and when their span ends.
abbrev pub HasFailed : Cells → String → ℕ → ℕ → Type 0
HasFailed cells login n d =
    cells (fail login) ≡ some (record { value = number n; deadline = some d })

abbrev locked_for : Lockout → ℕ → Option ℕ
locked_for l n = if ltb n l.max_attempts then none else some l.lock_ttl

module _ (l : Lockout) (login : String) where
  -- The last step: the lock is set or not, and the count stays.
  lock_from-works :
      (n d : ℕ) (w : World)
      → ((k : ℕ) → w.services.redis k ≡ works)
      → HasFailed w.redis login n d
      → ((lock_from l login n w).0 ≡ ok (locked_for l n))
        × (HasFailed (lock_from l login n w).1.redis login n d
            × (((lock_from l login n w).1.services ≡ w.services)
                × ((lock_from l login n w).1.calls ≤ suc w.calls)))
  unfolding lock_from set
  lock_from-works n d w runs here = elim (Bool-cases (ltb n l.max_attempts)) [
    | inl e ↦ rw e (refl, (here, (refl, omega arith)))
    | inr e ↦
        rw
          (
            e,
            command-works
                (λ now cells.
                  (ok (some l.lock_ttl), set now (lock login) (text "1") l.lock_ttl cells))
                w (runs w.calls),
          )
          (
            refl,
            (put_other (lock login) (fail login) _ w.redis (λ f. cc) ∙ here, (refl, omega arith)),
          )
  ]

  -- What a failure answers and leaves.
  abbrev Counts : ℕ → ℕ → World → Result (Option ℕ) × World → Type 0
  Counts n d w (r, w') =
      (r ≡ ok (locked_for l n))
      × (HasFailed w'.redis login n d × ((w'.services ≡ w.services) × (w'.calls ≤ 3 + w.calls)))

  on_failure-later :
      (n d : ℕ) (w : World)
      → is_inactive l ≡ false
      → ((k : ℕ) → w.services.redis k ≡ works)
      → HasFailed w.redis login (suc n) d
      → w.services.now w.calls < d
      → Counts (suc (suc n)) d w (on_failure l login w)
  unfolding on_failure incr start_span
  on_failure-later n d w on runs here ahead =
      let cells =
        put (fail login) (some (record { value = number (suc (suc n)); deadline = some d }))
          w.redis in
      let w₁ = record (tick w) { redis = cells } in
      let (answer, (count, (same, more))) =
        lock_from-works (suc (suc n)) d w₁ runs (put_same (fail login) _ w.redis) in
      rw
        (
          on,
          command-works (λ now cells. count_result l (incr now (fail login) cells)) w
              (runs w.calls),
          here,
          early w.services.now w.calls d ahead,
          not_first n,
        )
        (answer, (count, (same, omega (arith, more))))
    where
      early : (now : ℕ → ℕ) (k d' : ℕ) → now k < d' → leb d' (now k) ≡ false
      early now k d' h = ground arith

      not_first : (k : ℕ) → (suc (suc k) == 1) ≡ false
      not_first k = ground arith

  on_failure-first :
      (w : World)
      → is_inactive l ≡ false
      → ((k : ℕ) → w.services.redis k ≡ works)
      → w.redis (fail login) ≡ none
      → Counts 1 (w.services.now (suc w.calls) + l.lock_ttl) w (on_failure l login w)
  unfolding on_failure incr start_span expire
  on_failure-first w on runs here =
      let d = w.services.now (suc w.calls) + l.lock_ttl in
      let first = put (fail login) (some (record { value = number 1; deadline = none })) w.redis in
      let cells = put (fail login) (some (record { value = number 1; deadline = some d })) first in
      let w₁ = record (tick (tick w)) { redis = cells } in
      let (answer, (count, (same, more))) =
        lock_from-works 1 d w₁ runs (put_same (fail login) _ first) in
      rw
        (
          on,
          command-works (λ now cells. count_result l (incr now (fail login) cells)) w
              (runs w.calls),
          here,
          command-works (λ now cells. (ok tt, expire now (fail login) l.lock_ttl cells))
              (record (tick w) { redis = first }) (runs (suc w.calls)),
          put_same (fail login) (some (record { value = number 1; deadline = none })) w.redis,
        )
        (answer, (count, (same, omega (arith, more))))

  -- One failure after another; the result is that of the last.
  unfoldable pub failures : ℕ → M (Option ℕ)
  failures zero w = on_failure l login w
  failures (suc n) w = let (r, w₁) = failures n w in on_failure l login w₁

  abbrev pub span_end : World → ℕ
  span_end w = w.services.now (suc w.calls) + l.lock_ttl

  abbrev pub HasCounted : World → ℕ → Result (Option ℕ) × World → Type 0
  HasCounted w n (r, w') =
      (r ≡ ok (locked_for l (suc n)))
      × (HasFailed w'.redis login (suc n) (span_end w)
          × ((w'.services ≡ w.services) × (w'.calls ≤ 3 * suc n + w.calls)))

  module _ (w : World) (on : is_inactive l ≡ false) (runs : (k : ℕ) → w.services.redis k ≡ works)
      (fresh : w.redis (fail login) ≡ none) where
    -- While Redis works, and from a state in which it holds no failure of a login: the failures that
    -- follow within the span that the first one starts are counted one by one, the answer is that the
    -- login is not locked below the limit of attempts and is locked for the whole time from it on, and
    -- the span keeps the end that the first failure has set.
    pub failures-HasCounted :
        (n : ℕ)
        → ((k : ℕ) → k < 3 * suc n + w.calls → w.services.now k < span_end w)
        → HasCounted w n (failures n w)
    unfolding failures
    failures-HasCounted zero within =
        let (answer, (count, (same, more))) = on_failure-first w on runs fresh in
        (answer, (count, (same, omega (arith, more))))
    failures-HasCounted (suc n) within =
        let (_, (before, (kept, steps))) =
          failures-HasCounted n (λ k h. within k (omega (arith, h))) in
        let w₁ = (failures n w).1 in
        let (answer, (count, (same, more))) =
          on_failure-later n (span_end w) w₁ on (λ k. rw (kept) (runs k)) before
            (rw (kept) (within w₁.calls (omega (arith, steps)))) in
        (answer, (count, (same ∙ kept, omega (arith, more, steps))))
