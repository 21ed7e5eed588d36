-- ===== src/Limiter/Tests.antt =====
-- Runs of the limiter in memory, and the theorems at them.
use mkk_luna.Prelude.{ℕ, ◌≡◌, refl, Bool, none, List, [], ◌∷◌}
use mkk_luna.Limiter.{MemoryLimiter, Entries, allow, Event, call, round, admitted}

abbrev limiter : MemoryLimiter
limiter = record { limit = 2; window = 60000000000 }

abbrev empty : Entries
empty key = none

abbrev minute : ℕ
minute = 60000000000

abbrev events : List Event
events =
    call "a" 1 1
    ∷ call "b" 2 2
    ∷ call "a" 3 3
    ∷ round 4
    ∷ call "a" 5 5
    ∷ call "a" minute minute
    ∷ []

abbrev early : List Event
early = call "a" 1 1 ∷ call "b" 2 2 ∷ call "a" 3 3 ∷ round 4 ∷ call "a" 5 5 ∷ []

admitted_tests :
    (admitted limiter "a" events empty ≡ 2)
    × (admitted limiter "b" events empty ≡ 1)
    × ((allow limiter "" 1 1 empty).0 ≡ (Bool.true, 0))
unfolding admitted allow
admitted_tests = (refl, refl, refl)
