-- ===== src/Limiter/Laws.antt =====
-- What the limiter in memory promises.
use mathlib.Core.Path.{subst}
use mkk_luna.Prelude.{
  ◌≢◌, ◌||◌, ℕ, suc, ◌+◌, ◌<◌, ◌≤◌, ◌≡◌, ap, String, Bool, true, false, Option, none, some, List,
  leb, ◌==◌, ◌=s◌, Bool-cases, inl, inr, arith, if◌then◌else◌,
}
use mkk_luna.Limiter.{
  MemoryLimiter, Entry, Entries, fixed_window_reset, put, current, retry_after, allow, Event,
  moment, admitted,
}

-- The count of a key, none of it in another window.
abbrev pub IsWithin : ℕ → ℕ → Option Entry → ℕ → Type 0
IsWithin limit reset none n = n ≡ 0
IsWithin limit reset (some e) n = (n ≡ e.count) × (e.reset ≡ reset) × (n ≤ limit)

-- The event is in the window that ends at the moment.
abbrev pub IsDuring : MemoryLimiter → ℕ → Event → Type 0
IsDuring l reset event =
    (moment event ≤ reset) × (fixed_window_reset (moment event) l.window ≡ reset)

allow_rule :
    (P : (Bool × ℕ) × Entries → Type 0) (l : MemoryLimiter) (key : String) (now later : ℕ)
    (entries : Entries)
    → let e = current (entries key) now (fixed_window_reset now l.window) in
      (((key =s "") || l.limit == 0) ≡ true → P ((true, 0), entries))
      → (leb l.limit e.count ≡ true → P ((false, retry_after e.reset later), put key e entries))
      → (((key =s "") || l.limit == 0) ≡ false
          → leb l.limit e.count ≡ false
          → P ((true, 0), put key (record e { count = suc e.count }) entries))
      → P (allow l key now later entries)
unfolding allow
allow_rule P l key now later entries free full room =
    let e = current (entries key) now (fixed_window_reset now l.window) in
    elim (Bool-cases ((key =s "") || l.limit == 0)) [
      | inl h ↦ rw (h, allow) (free h)
      | inr h ↦ elim (Bool-cases (leb l.limit e.count)) [
        | inl g ↦ rw (h, g, allow) (full g)
        | inr g ↦ rw (h, g, allow) (room h g)
      ]
    ]

retry_after-lt : (reset later : ℕ) → 0 < retry_after reset later
retry_after-lt reset later = ground arith

-- A call that is refused is told to wait for a positive time.
pub allow-lt :
    (l : MemoryLimiter) (key : String) (now later wait : ℕ) (entries : Entries)
    → (allow l key now later entries).0 ≡ (false, wait)
    → 0 < wait
allow-lt l key now later wait entries =
    allow_rule (λ (answer, _). answer ≡ (false, wait) → 0 < wait) l key now later entries
      (λ _ e. absurd (different (ap (λ a. a.0) e)))
      (λ _ e. subst (λ n. 0 < n) (ap (λ a. a.1) e) (retry_after-lt _ later))
      (λ _ _ e. absurd (different (ap (λ a. a.0) e)))
  where
    different : true ≢ false
    different h = cc

module _ (l : MemoryLimiter) (key : String) (reset : ℕ) where
  -- How many calls for the key are admitted from a call of `k` on, given what it leaves.
  abbrev counted : String → List Event → (Bool × ℕ) × Entries → ℕ
  counted k events ((passed, _), entries) =
      if k =s key
      then (if passed then suc (admitted l key events entries) else admitted l key events entries)
      else admitted l key events entries

  -- One more event keeps the bound that holds for the events after it.
  Holds : List Event → Type 0
  Holds events =
      (entries : Entries) (n : ℕ)
      → IsWithin l.limit reset (entries key) n
      → n + admitted l key events entries ≤ l.limit
