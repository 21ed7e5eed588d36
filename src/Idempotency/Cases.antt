-- ===== src/Idempotency/Cases.antt =====
-- How a request to the middleware of internal/api/middleware/idempotency.go can end, and when.
use mkk_luna.Prelude.{
  ℕ, ◌+◌, ◌≤◌, String, ◌≢◌, ◌≡◌, ◌⊎◌, Bool, true, false, Option, none, some, ◌=s◌,
}
use mkk_luna.Http.{Response, StoredResponse, failure}
use mkk_luna.Redis as Commands
use mkk_luna.Redis.Keys.{Key, Value, stored}
use mkk_luna.World.{World, works}
use mkk_luna.Api.{Handler}
use mkk_luna.Idempotency.{IdempotencyMiddleware, Request, is_mutating_method, replayed}
use mkk_luna.Text.{trim_space}

-- The conditions under which the middleware looks at a request at all.
pub record Applies (m : IdempotencyMiddleware) (r : Request) : Type 0 where
  pub enabled : m.enabled ≡ true
  pub mutating : is_mutating_method r.method ≡ true
  pub keyed : ¬ (trim_space r.idempotency_key ≡ "")
  pub signed_in : ¬ (r.user_id ≡ none)
  pub routed : ¬ (r.route_pattern ≡ "")
  pub with_store : ¬ (m.store ≡ none)
  pub with_locker : ¬ (m.locker ≡ none)

-- Nothing is read under the key of the response, or there is no client to read it.
abbrev pub IsMissing : Option Bool → World → Key → Type 0
IsMissing store w key =
    (store ≡ some false) ⊎ (Commands.get (w.services.now w.calls) key w.redis ≡ none)

-- One of the first three calls of the request.
abbrev pub IsEarly : World → ℕ → Type 0
IsEarly w n = (w.calls ≤ n) × (n ≤ 2 + w.calls)

-- Why a request is served: the middleware does not apply, Redis does not answer the read, what is read is
-- no response, nothing is read but the lock cannot be asked for, or nothing is read and the lock is free.
pub data Open (A : Type 0) (store locker : Option Bool) (w : World) (key lock_key : Key)
    : Type 0 where
  outside : ¬ A → Open A store locker w key lock_key
  unread : w.services.redis w.calls ≢ works → Open A store locker w key lock_key
  garbled :
      (v : Value)
      → Commands.get (w.services.now w.calls) key w.redis ≡ some v
      → ((s : StoredResponse) → v ≢ stored s)
      → Open A store locker w key lock_key
  unlocked :
      IsMissing store w key
      → (locker ≡ some false) ⊎ ((n : ℕ) × IsEarly w n × (w.services.redis n ≢ works))
      → Open A store locker w key lock_key
  free :
      IsMissing store w key
      → (n : ℕ) → IsEarly w n
      → Commands.get (w.services.now n) lock_key w.redis ≡ none
      → Open A store locker w key lock_key

-- The answers without a call of the handler, and when they are given.
pub data Spared (body : Option String) (store : Option Bool) (w : World) (key lock_key : Key)
    (hash : String) : Response → Type 0 where
  unreadable : body ≡ none → Spared body store w key lock_key hash (failure 400 "invalid request")
  in_progress :
      IsMissing store w key
      → (n : ℕ) → IsEarly w n
      → ¬ (Commands.get (w.services.now n) lock_key w.redis ≡ none)
      → Spared body store w key lock_key hash (failure 409 "request already in progress")
  differs :
      (s : StoredResponse)
      → Commands.get (w.services.now w.calls) key w.redis ≡ some (stored s)
      → (s.request_hash =s hash) ≡ false
      → Spared body store w key lock_key hash
          (failure 409 "idempotency key reused with different payload")
  repeats :
      (s : StoredResponse)
      → Commands.get (w.services.now w.calls) key w.redis ≡ some (stored s)
      → (s.request_hash =s hash) ≡ true
      → Spared body store w key lock_key hash (replayed s)

-- The handler runs once, on the tables as they are, and its answer is the answer; or it does not run.
abbrev pub IsServed : Handler → World → Response × World → Type 0
IsServed next w (r, w') =
    (v : World) × ((v.tables ≡ w.tables) × ((r ≡ (next v).0) × (w'.tables ≡ (next v).1.tables)))

module _ (A : Type 0) (body : Option String) (store locker : Option Bool) (next : Handler)
    (w : World) (key lock_key : Key) (hash : String) where
  abbrev pub IsOnce : Response × World → Type 0
  IsOnce (r, w') =
      (Open A store locker w key lock_key × IsServed next w (r, w'))
      ⊎ (Spared body store w key lock_key hash r × (w'.tables ≡ w.tables))
