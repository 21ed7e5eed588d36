-- ===== src/Lock/Tests.antt =====
-- Runs of the lock, and the theorems at them.
use native.Mathlib.Decide.{ℕ_discrete}
use mkk_luna.Prelude.{
  ℕ, zero, suc, ◌≡◌, ◌≢◌, ◌≤◌, ◌<◌, refl, sym, ap, ◌∙◌, String, true, none, some, length, arith,
}
use mkk_luna.Text.{codes}
use mkk_luna.Redis.{set_nx, set, get, put, incr, expire, left}
use mkk_luna.Redis.Keys.{Key, text, invite, calls, Key-discrete}
use mkk_luna.World.{World, Services, ok, command}
use mkk_luna.Samples as Samples
use mkk_luna.Lock.{acquire, acquire_connected, release, effective}
use mkk_luna.Lock.Exclusion.{State, Step, Reach, took, one_holder}
use mkk_luna.Lock.Laws.{IsUp, acquire-release}

-- A token for each number: that many letters.
unfoldable marks : ℕ → String
marks zero = ""
marks (suc n) = String.◌∷◌ "x" (marks n)

length-marks : (n : ℕ) → length (codes (marks n)) ≡ n
unfolding marks
length-marks zero = refl
length-marks (suc n) = ap suc (length-marks n)

marks_injective : (m n : ℕ) → marks m ≡ marks n → m ≡ n
marks_injective m n e = sym (length-marks m) ∙ ap (λ s. length (codes s)) e ∙ length-marks n

abbrev services : Services
services = record Samples.services { now = λ n. n; uuid = marks }

steady : (m n : ℕ) → m ≤ n → services.now m ≤ services.now n
steady m n h = h

abbrev first : State
first = record { world = record Samples.world { services = services }; holds = λ i. none }

abbrev key : Key
key = invite 1 2

-- The lock of caller 1 ends at 2; caller 2 takes it at 3.
abbrev second : State
second = took first 1 key 1 (acquire true key 1 first.world)

abbrev third : State
third = took second 2 key 10 (acquire true key 10 second.world)

path : Reach first third
unfolding acquire acquire_connected command effective set_nx ℕ_discrete
path =
    Reach.next (Reach.next (Reach.stay first) (Step.takes first true 1 key 1 refl))
      (Step.takes second true 2 key 10 refl)

one_holder_example : ¬ (4 < 2)
unfolding acquire acquire_connected command effective set_nx set get put Key-discrete marks
    ℕ_discrete
one_holder_example =
    one_holder services steady marks_injective first third refl (λ i. refl) path 2 1
      (record { key = key; token = marks 2; deadline = 13 })
      (record { key = key; token = marks 0; deadline = 2 }) (omega arith) refl refl refl
      (omega arith)

abbrev taken : World
taken = record Samples.world {
  services = services;
  redis = λ k. some (record { value = text "t"; deadline = some 5 });
}

taken-IsUp : IsUp taken
taken-IsUp = ((λ n. refl), steady)

marked : ◌≢◌ {A = String} "t" ""
marked e = cc

acquire-release_example : (acquire true key 3 (release true key "t" taken).1).0 ≡ ok (some "x")
unfolding marks
acquire-release_example = acquire-release taken key "t" 5 3 taken-IsUp marked refl

-- What the other commands of Redis answer here.
commands_tests :
    ((incr 1 (calls "a") (λ k. none)).0 ≡ some 1)
    × ((incr 1 (calls "a") (incr 1 (calls "a") (λ k. none)).1).0 ≡ some 2)
    × (left 1 (expire 1 (calls "a") 9 (incr 1 (calls "a") (λ k. none)).1 (calls "a")) ≡ some 9)
    × (get 10 (calls "a") (expire 1 (calls "a") 9 (incr 1 (calls "a") (λ k. none)).1) ≡ none)
unfolding incr expire get put Key-discrete
commands_tests = (refl, refl, refl, refl)
