-- ===== src/Idempotency.antt =====
-- internal/api/middleware/idempotency.go: a request that repeats the client's key gets the stored answer
-- of the first.
pub mod Store
pub mod Cases
pub mod Once
pub mod Replay
pub mod Race
mod Tests
use mkk_luna.Prelude.{
  ℕ, ◌/◌, String, Bool, not, ◌&&◌, ◌||◌, Option, none, some, ◌=s◌, if◌then◌else◌,
}
use mkk_luna.Text.{trim_space}
use mkk_luna.Http.{Response, StoredResponse, failure}
use mkk_luna.Redis.Keys.{Key, replay, busy}
use mkk_luna.World.{M, ask, ◌>>=◌}
use mkk_luna.Lock.{acquire, release}
use mkk_luna.Api.{Handler, answer, attempt}
use Store.{Codec, Query, build_request_hash, build_route_hash, is_cacheable_status}

-- What the middleware reads of a request. A body that cannot be read is none; the route is that of
-- `routePatternFromRequest`.
pub record Request : Type 0 where
  pub method : String
  pub idempotency_key : String
  pub user_id : Option ℕ
  pub route_pattern : String
  pub content_type : String
  pub query : Query
  pub body : Option String

-- The store and the locker are none where the interface is nil; the Boolean says whether there is a
-- client behind it.
pub record IdempotencyMiddleware : Type 0 where
  pub enabled : Bool
  pub store : Option Bool
  pub locker : Option Bool
  pub lock_ttl : ℕ
  pub response_ttl : ℕ

unfoldable pub is_mutating_method : String → Bool
is_mutating_method method =
    method =s "POST" || method =s "PATCH" || method =s "PUT" || method =s "DELETE"

-- `replayStoredResponse`: of the headers only `Location` is stored.
abbrev pub replayed : StoredResponse → Response
replayed s = record { status = s.status; body = s.body; location = s.location; retry_after = none }

abbrev pub recorded : String → ℕ → Response → StoredResponse
recorded hash created_at r = record {
  status = r.status;
  body = r.body;
  location = r.location;
  request_hash = hash;
  created_at = created_at;
}

-- `time.Now().UTC().Unix()`.
abbrev pub unix_now : M ℕ
unix_now w = ask (λ n. w.services.now n / 1000000000) w

-- The keys of the stored answer and of the lock, and the hash of the request.
unfoldable pub response_key : Codec → Request → ℕ → Key
unfolding build_route_hash trim_space
response_key codec r user_id =
    replay user_id (build_route_hash codec r.route_pattern) (trim_space r.idempotency_key)

unfoldable pub lock_key : Codec → Request → ℕ → Key
unfolding build_route_hash trim_space
lock_key codec r user_id =
    busy user_id (build_route_hash codec r.route_pattern) (trim_space r.idempotency_key)

unfoldable pub hash_of_request : Codec → Request → String → String
unfolding build_request_hash
hash_of_request codec r body =
    build_request_hash codec r.method r.route_pattern r.content_type r.query body

module _ (m : IdempotencyMiddleware) (next : Handler) where
  -- From the check of the status on: the answer is written whether the store takes it or not.
  unfoldable pub keep : Bool → Key → String → Response → Handler
  unfolding is_cacheable_status Store.set
  keep store key hash r =
      if is_cacheable_status r.status
      then attempt
          (do
            created_at ← unix_now
            Store.set store key m.response_ttl (recorded hash created_at r))
          (λ e. answer r) (λ u. answer r)
      else answer r

  -- The request has the lock: it is served and kept, and the lock is released whatever happens.
  unfoldable pub serve_locked : Bool → Bool → Key → Key → String → String → Handler
  unfolding keep release
  serve_locked store locker response_key lock_key hash token w =
      let (r, w') = next w in
      let (r', w'') = keep store response_key hash r w' in
      (r', (release locker lock_key token w'').1)

  -- Nothing is stored: from `Acquire` on.
  unfoldable pub serve_missed : Bool → Bool → Key → Key → String → Handler
  unfolding serve_locked acquire
  serve_missed store locker response_key lock_key hash =
      attempt (acquire locker lock_key m.lock_ttl) (λ e. next)
        (λ taken. elim taken [
          | none ↦ answer (failure 409 "request already in progress")
          | some token ↦ serve_locked store locker response_key lock_key hash token
        ])

  unfoldable pub serve_found : String → StoredResponse → Handler
  serve_found hash cached =
      if cached.request_hash =s hash
      then answer (replayed cached)
      else answer (failure 409 "idempotency key reused with different payload")

  -- From the two keys on.
  unfoldable pub serve_keyed : Bool → Bool → Key → Key → String → Handler
  unfolding serve_missed serve_found Store.get
  serve_keyed store locker response_key lock_key hash =
      attempt (Store.get store response_key) (λ e. next)
        (λ found. elim found [
          | none ↦ serve_missed store locker response_key lock_key hash
          | some cached ↦ serve_found hash cached
        ])

  -- From the hashes on.
  unfoldable pub serve_hashed : Option Bool → Option Bool → Key → Key → String → Handler
  unfolding serve_keyed
  serve_hashed none locker key busy_key hash = next
  serve_hashed (some store) none key busy_key hash = next
  serve_hashed (some store) (some locker) key busy_key hash =
      serve_keyed store locker key busy_key hash

  unfoldable pub serve_body : Codec → Request → ℕ → Option String → Handler
  unfolding serve_hashed response_key lock_key hash_of_request
  serve_body codec r user_id none = answer (failure 400 "invalid request")
  serve_body codec r user_id (some body) =
      serve_hashed m.store m.locker (response_key codec r user_id) (lock_key codec r user_id)
        (hash_of_request codec r body)

  unfoldable pub serve_user : Codec → Request → Option ℕ → Handler
  unfolding serve_body
  serve_user codec r none = next
  serve_user codec r (some user_id) =
      if r.route_pattern =s "" then next else serve_body codec r user_id r.body

  unfoldable pub handler : Codec → Request → Handler
  unfolding serve_user is_mutating_method trim_space
  handler codec r =
      if m.enabled && is_mutating_method r.method && not (trim_space r.idempotency_key =s "")
      then serve_user codec r r.user_id
      else next
