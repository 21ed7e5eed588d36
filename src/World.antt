-- ===== src/World.antt =====
-- What the services act on, and calls that may fail. MySQL, the mail service and Redis are not part
-- of the repository: how each of their calls ends is a parameter, a function of the call's number.
-- A statement that MySQL runs does to the tables what its text says (internal/repository); its answer
-- may be lost after that. Transactions are those of internal/service and SessionRepository.WithTx.
pub mod Rules
use mkk_luna.Prelude.{
  ℕ, suc, ◌&&◌, ◌==◌, ◌=s◌, if◌then◌else◌, delete_where, String, Bool, true, false, Option, none,
  some, List, [], ◌∷◌, ◌++◌,
}
use mkk_luna.Schema.{Tables}
use mkk_luna.Redis.{Cells}

-- internal/service/errors.go and auth.go; `duplicate` is MySQL's error 1062, `external` any other.
pub data Error : Type 0 where
  not_found forbidden conflict bad_request unavailable : Error
  invalid_credentials invalid_token token_reuse invalid_input : Error
  duplicate external : Error

pub data Result (A : Type 0) : Type 0 where
  ok : A → Result A
  err : Error → Result A

-- How a call of a service ends: done, not done, or done while the caller is told that it failed.
pub data Verdict : Type 0 where
  works fails lost : Verdict

-- How the lock service answers.
pub data Grant : Type 0 where
  granted : String → Grant
  busy unreachable : Grant
  -- The lock is taken, but the caller is told that the call failed.
  unheard : String → Grant

pub record Services : Type 0 where
  pub mysql : ℕ → Verdict
  pub collate : String → String → Bool
  pub mail : ℕ → Verdict
  pub acquire : ℕ → Grant
  pub release : ℕ → Verdict
  pub redis : ℕ → Verdict
  pub now : ℕ → ℕ
  pub uuid : ℕ → String

pub record World : Type 0 where
  pub tables : Tables
  -- The tables at the start of the open transaction.
  pub saved : Option Tables
  pub calls : ℕ
  pub outbox : List (String × String)
  pub locks : List ((ℕ × ℕ) × String)
  pub redis : Cells
  pub services : Services

abbrev pub M : Type 0 → Type 0
M A = World → Result A × World

-- The world after a call that changed nothing, when `n` calls have been made.
abbrev pub at : World → ℕ → World
at w n = record w { calls = n }

abbrev pub tick : World → World
tick w = at w (suc w.calls)

module _ {A : Type 0} where
  abbrev pub pure : A → M A
  pure a w = (ok a, w)

  abbrev pub raise : Error → M A
  raise e w = (err e, w)

  abbrev pub or_fail : Option A → Error → M A
  or_fail none e = raise e
  or_fail (some a) e = pure a

  -- `defer cleanup()`.
  abbrev pub defer : (World → World) → M A → M A
  defer cleanup m w = let (r, w') = m w in (r, cleanup w')

abbrev pub continue : {A B : Type 0} → Result A → (A → M B) → M B
continue (ok a) f = f a
continue (err e) f = raise e

infixl 5 ◌>>=◌ ◌>>◌
abbrev pub ◌>>=◌ : {A B : Type 0} → M A → (A → M B) → M B
◌>>=◌ m f w = let (r, w') = m w in continue r f w'

abbrev pub ◌>>◌ : {A B : Type 0} → M A → M B → M B
m >> k = m >>= λ _. k

-- `if !test { return err }`.
abbrev pub guard : Bool → Error → M (Unit {0})
guard true e = pure tt
guard false e = raise e

-- A question to a service that changes nothing here: the clock, a random source, Redis.
abbrev pub ask : {A : Type 0} → (ℕ → A) → M A
ask answer w = (ok (answer w.calls), tick w)

-- A command of Redis, at the moment of the call.
unfoldable pub command : {A : Type 0} → (ℕ → Cells → Result A × Cells) → M A
command c w = elim (w.services.redis w.calls) [
  | works ↦ (
    (c (w.services.now w.calls) w.redis).0,
    record (tick w) { redis = (c (w.services.now w.calls) w.redis).1 },
  )
  | fails ↦ (err external, tick w)
  | lost ↦ (err external, record (tick w) { redis = (c (w.services.now w.calls) w.redis).1 })
]

-- A SELECT.
unfoldable pub query : {A : Type 0} → (Tables → A) → M A
query q w = elim (w.services.mysql w.calls) [
  | works ↦ (ok (q w.tables), tick w)
  | fails ↦ (err external, tick w)
  | lost ↦ (err external, tick w)
]

-- A statement that changes tables, or is refused by a key.
unfoldable pub exec : {A : Type 0} → (Tables → Result A × Tables) → M A
exec s w = elim (w.services.mysql w.calls) [
  | works ↦ ((s w.tables).0, record (tick w) { tables = (s w.tables).1 })
  | fails ↦ (err external, tick w)
  | lost ↦ (err external, record (tick w) { tables = (s w.tables).1 })
]

unfoldable pub begin_tx : M (Unit {0})
begin_tx w = elim (w.services.mysql w.calls) [
  | works ↦ (ok tt, record (tick w) { saved = some w.tables })
  | fails ↦ (err external, tick w)
  | lost ↦ (err external, tick w)
]

unfoldable pub commit : M (Unit {0})
commit w = elim (w.services.mysql w.calls) [
  | works ↦ (ok tt, record (tick w) { saved = none })
  | fails ↦ (err external, tick w)
  | lost ↦ (err external, record (tick w) { saved = none })
]

-- A rollback after the commit does nothing.
abbrev pub restore : Option Tables → World → World
restore none w = w
restore (some t) w = record w { tables = t; saved = none }

unfoldable pub rollback : World → World
rollback w = restore w.saved w

-- The lock service: the key of an invitation's lock spells the team and the user.
unfoldable pub acquire : ℕ × ℕ → M Grant
acquire key w = elim (w.services.acquire w.calls) [
  | granted token ↦ (ok (granted token), record (tick w) { locks = (key, token) ∷ w.locks })
  | busy ↦ (ok busy, tick w)
  | unreachable ↦ (ok unreachable, tick w)
  | unheard token ↦ (ok unreachable, record (tick w) { locks = (key, token) ∷ w.locks })
]

abbrev pub is_lock : ℕ × ℕ → String → (ℕ × ℕ) × String → Bool
is_lock (a, b) token ((c, d), other) = a == c && b == d && token =s other

-- A release takes out the lock that has this token, as the script of internal/infra/redislock does.
unfoldable pub run_release : ℕ × ℕ → String → World → World
run_release key token w = elim (w.services.release w.calls) [
  | works ↦ record (tick w) { locks = delete_where (is_lock key token) w.locks }
  | fails ↦ tick w
  | lost ↦ record (tick w) { locks = delete_where (is_lock key token) w.locks }
]

-- An empty token is none.
unfoldable pub release : ℕ × ℕ → String → World → World
unfolding run_release
release key token w = if token =s "" then w else run_release key token w

-- `SendInvite`: the mail service takes the message or not.
unfoldable pub send : String → String → M (Unit {0})
send to_email team_name w = elim (w.services.mail w.calls) [
  | works ↦ (ok tt, record (tick w) { outbox = w.outbox ++ (to_email, team_name) ∷ [] })
  | fails ↦ (err external, tick w)
  | lost ↦ (err external, record (tick w) { outbox = w.outbox ++ (to_email, team_name) ∷ [] })
]

abbrev pub replace : {A : Type 0} → (Error → Error) → Result A → Result A
replace f (ok a) = ok a
replace f (err e) = err (f e)

-- `if err != nil { return f(err) }`.
abbrev pub map_error : {A : Type 0} → (Error → Error) → M A → M A
map_error f m w = let (r, w') = m w in (replace f r, w')
