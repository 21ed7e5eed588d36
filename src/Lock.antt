-- ===== src/Lock.antt =====
-- internal/infra/redislock/locker.go: a lock is a key that holds a token of its own until a deadline.
pub mod Rules
pub mod Exclusion
pub mod Laws
mod Tests
use mkk_luna.Prelude.{
  ℕ, ◌*◌, ◌==◌, ◌=s◌, String, Bool, true, false, Option, none, some, if◌then◌else◌,
}
use mkk_luna.Redis.{Cells, set_nx, del_if}
use mkk_luna.Redis.Keys.{Key, text}
use mkk_luna.World.{M, Result, ok, external, pure, raise, ask, command, ◌>>=◌}

-- `15 * time.Second`.
abbrev pub default_ttl : ℕ
default_ttl = 15 * 1000000000

unfoldable pub effective : ℕ → ℕ
effective ttl = if ttl == 0 then default_ttl else ttl

-- A command that answers.
abbrev pub answered : {A : Type 0} → A × Cells → Result A × Cells
answered (a, cells) = (ok a, cells)

-- `uuid.NewString`.
abbrev pub new_token_text : M String
new_token_text w = ask w.services.uuid w

unfoldable pub acquire_connected : Key → ℕ → M (Option String)
unfolding effective set_nx
acquire_connected key ttl = do
  token ← new_token_text
  taken ← command (λ now cells. answered (set_nx now key (text token) (effective ttl) cells))
  pure (if taken then some token else none)

-- The token of the lock, or no token when another has it. The Boolean says whether the locker has a
-- client.
unfoldable pub acquire : Bool → Key → ℕ → M (Option String)
unfolding acquire_connected
acquire true key ttl = acquire_connected key ttl
acquire false key ttl = raise external

-- `releaseScript.Run`.
abbrev pub run_release : Key → String → M (Unit {0})
run_release key token = command (λ now cells. (ok tt, del_if now key token cells))

-- A key is never the empty text, as it has a prefix.
unfoldable pub release : Bool → Key → String → M (Unit {0})
unfolding del_if
release true key token = if token =s "" then pure tt else run_release key token
release false key token = pure tt
