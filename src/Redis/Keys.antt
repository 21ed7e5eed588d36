-- ===== src/Redis/Keys.antt =====
-- The keys and the values that the program keeps in Redis. A key is a text that is made of its parts
-- with a prefix of its own and colons; here it is the parts.
use native.Mathlib.Decide.{ℕ_discrete}
use mkk_luna.Prelude.{ℕ, ◌≡◌, ◌↔◌, refl, String, Bool, true, false, eq_iff, ◌=s◌}
use mkk_luna.Http.{Body, StoredResponse}

pub data Key : Type 0 where
  -- internal/infra/cache/task_cache.go: the version of a team, and a list under a version and the hash
  -- of its filters.
  version : ℕ → Key
  listing : ℕ → ℕ → String → Key
  -- internal/infra/auth/lockout.go.
  fail lock : String → Key
  -- internal/infra/auth/blacklist.go.
  jti : String → Key
  -- internal/api/middleware/idempotency.go: the user, the hash of the route, the client's key.
  replay busy : ℕ → String → String → Key
  -- internal/infra/ratelimit: a counter of calls.
  calls : String → Key
  -- internal/service/team.go: the lock of an invitation.
  invite : ℕ → ℕ → Key

by_test : {A : Type 0} {x y : A} (b : Bool) → (b ≡ true) ↔ (x ≡ y) → Dec (x ≡ y)
by_test true h = yes (h.0 refl)
by_test false h = no (λ e. cc (h.1 e))

String_discrete : Discrete String
unfolding by_test
String_discrete a b = by_test (a =s b) (eq_iff a b)

unfoldable pub Key-discrete : Discrete Key
unfolding String_discrete ℕ_discrete
Key-discrete = hlevel (ℕ_discrete, String_discrete)

pub data Value : Type 0 where
  number : ℕ → Value
  text : String → Value
  page : Body → Value
  stored : StoredResponse → Value
