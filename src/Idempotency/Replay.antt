-- ===== src/Idempotency/Replay.antt =====
-- internal/api/middleware/idempotency.go: a request that is sent again gets the first answer again.
use mkk_luna.Prelude.{
  ℕ, suc, ◌+◌, ◌/◌, ◌≤◌, ◌<◌, String, ◌≡◌, ◌≢◌, refl, sym, ap, ◌∙◌, true, false, none, some, ◌=s◌,
  ◌&&◌, not, arith, eq_iff,
}
use mkk_luna.Http.{Response, StoredResponse}
use mkk_luna.Redis as Commands
use mkk_luna.Redis.{Cell, until}
use mkk_luna.Redis.Keys.{Key, stored}
use mkk_luna.Redis.Rules.{put_same, get-until}
use mkk_luna.World.{ok, World, works, tick}
use mkk_luna.World.Rules.{command-works}
use mkk_luna.Lock.Rules.{release_other, lock_cells, IsFree}
use mkk_luna.Lock.Laws.{IsUp, acquire-grants}
use mkk_luna.Api.{Handler}
use mkk_luna.Idempotency.{
  IdempotencyMiddleware, Request, handler, serve_user, serve_body, serve_hashed, serve_keyed,
  serve_missed, serve_found, serve_locked, keep, replayed, recorded, response_key, lock_key,
  hash_of_request, is_mutating_method,
}
use mkk_luna.Idempotency.Store
use mkk_luna.Idempotency.Store.{Codec, is_cacheable_status, unmarshal}
use mkk_luna.Idempotency.Once.{serve_locked-answer}
use mkk_luna.Text.{trim_space}

-- The world in which a handler runs that has got the lock in the world `w`.
abbrev pub entered : World → Key → ℕ → World
entered w key ttl = record (tick (tick w)) { redis = lock_cells w key ttl }

module _ (m : IdempotencyMiddleware) (next : Handler) where
  abbrev kept_cell : String → Response → World → Cell
  kept_cell hash r w = record {
    value = stored (recorded hash (w.services.now w.calls / 1000000000) r);
    deadline = until (w.services.now (suc w.calls)) m.response_ttl;
  }

  keep-stores :
      (key : Key) (hash : String) (r : Response) (w : World)
      → ((n : ℕ) → w.services.redis n ≡ works)
      → is_cacheable_status r.status ≡ true
      → keep m next true key hash r w ≡ (
        r,
        record (tick (tick w)) {
          redis =
              Commands.set
                (w.services.now (suc w.calls))
                key
                (stored (recorded hash (w.services.now w.calls / 1000000000) r))
                m.response_ttl
                w.redis;
        },
      )
  unfolding keep Store.set
  keep-stores key hash r w runs cacheable = rw (
    cacheable,
    command-works
        (λ now cells. (
          ok tt,
          Commands.set now key (stored (recorded hash (w.services.now w.calls / 1000000000) r))
              m.response_ttl cells,
        ))
        (tick w) (runs (suc w.calls)),
  )

  -- A request that finds nothing stored and the lock free is served under the lock.
  serve_keyed-first :
      (key busy_key : Key) (hash : String) (w : World)
      → IsUp w
      → Commands.get (w.services.now w.calls) key w.redis ≡ none
      → IsFree (tick w) busy_key
      → serve_keyed m next true true key busy_key hash w
        ≡ serve_locked m next true true key busy_key hash
            (w.services.uuid (suc w.calls))
            (entered (tick w) busy_key m.lock_ttl)
  unfolding serve_keyed serve_missed Store.get
  serve_keyed-first key busy_key hash w (runs, steady) missing free = rw (
    command-works (λ now cells. (unmarshal (Commands.get now key cells), cells)) w (runs w.calls),
    missing,
    acquire-grants (tick w) busy_key m.lock_ttl (runs, steady) free,
  )

  -- What the request leaves under the key of its answer.
  serve_locked-stores :
      (key busy_key : Key) (hash token : String) (w : World)
      → ((v : World) → (next v).1.services ≡ v.services)
      → IsUp w
      → busy_key ≢ key
      → is_cacheable_status (next w).0.status ≡ true
      → let w' = (next w).1 in
        (serve_locked m next true true key busy_key hash token w).0 ≡ (next w).0
        × ((serve_locked m next true true key busy_key hash token w).1.redis key
            ≡ some (kept_cell hash (next w).0 w'))
  unfolding serve_locked Commands.set
  serve_locked-stores key busy_key hash token w keeps (runs, steady) apart cacheable =
      let (r, w') = next w in
      let runs' : (n : ℕ) → w'.services.redis n ≡ works =
        λ n. ap (λ s. s.redis n) (keeps w) ∙ runs n in
      rw (keep-stores key hash r w' runs' cacheable)
        (refl, release_other busy_key key token _ apart ∙ put_same key _ w'.redis)

  -- A request that finds its own answer gets it, and nothing else happens.
  serve_keyed-again :
      (key busy_key : Key) (w : World) (s : StoredResponse) (t : ℕ)
      → ((n : ℕ) → w.services.redis n ≡ works)
      → w.redis key ≡ some (record { value = stored s; deadline = until t m.response_ttl })
      → w.services.now w.calls < t + m.response_ttl
      → serve_keyed m next true true key busy_key s.request_hash w ≡ (replayed s, tick w)
  unfolding serve_keyed serve_found Store.get
  serve_keyed-again key busy_key w s t runs here ahead = rw (
    command-works (λ now cells. (unmarshal (Commands.get now key cells), cells)) w (runs w.calls),
    get-until (w.services.now w.calls) key w.redis t m.response_ttl here ahead,
    (eq_iff s.request_hash s.request_hash).1 refl,
  )

-- The conditions under which a request is not passed by: `user_id` and `body` are its user and its body.
abbrev pub IsKeyed : IdempotencyMiddleware → Request → ℕ → String → Type 0
IsKeyed m r user_id body =
    ((m.enabled && is_mutating_method r.method && not (trim_space r.idempotency_key =s "")) ≡ true)
    × ((r.user_id ≡ some user_id)
        × ((r.body ≡ some body)
            × (((r.route_pattern =s "") ≡ false)
                × ((m.store ≡ some true) × (m.locker ≡ some true)))))

handler-keyed :
    (m : IdempotencyMiddleware) (next : Handler) (codec : Codec) (r : Request) (user_id : ℕ)
    (body : String)
    → IsKeyed m r user_id body
    → handler m next codec r
      ≡ serve_keyed m next true true
          (response_key codec r user_id)
          (lock_key codec r user_id)
          (hash_of_request codec r body)
unfolding handler serve_user serve_body serve_hashed
handler-keyed m next codec r user_id body (keyed, (user, (read, (route, (store, locker))))) =
    rw (keyed, user, route, read, store, locker)

response_key-lock_key :
    (codec : Codec) (r : Request) (user_id : ℕ)
    → lock_key codec r user_id ≢ response_key codec r user_id
unfolding lock_key response_key
response_key-lock_key codec r user_id = λ e. cc

-- A handler leaves the services as they are.
abbrev pub IsMild : Handler → Type 0
IsMild next = (v : World) → ((next v).1.services ≡ v.services) × (v.calls ≤ (next v).1.calls)

module _ (m : IdempotencyMiddleware) (next again : Handler) (codec : Codec) (r : Request) where
  -- While Redis works: a request that the middleware does not pass by, that finds no stored answer and the
  -- lock free, and whose answer has a status that is stored, is answered again in the same way when it is
  -- sent again before the time to live has passed since the first was sent and while the answer is still
  -- there, whatever the handler would do now. The handler is not called, and only the call is counted.
  pub handler-again :
      (user_id : ℕ) (body : String) (w w' : World)
      → IsKeyed m r user_id body
      → IsUp w
      → IsMild next
      → Commands.get (w.services.now w.calls) (response_key codec r user_id) w.redis ≡ none
      → IsFree (tick w) (lock_key codec r user_id)
      → is_cacheable_status (handler m next codec r w).0.status ≡ true
      → w'.services ≡ w.services
      → w'.redis (response_key codec r user_id)
        ≡ (handler m next codec r w).1.redis (response_key codec r user_id)
      → w.services.now w'.calls < w.services.now w.calls + m.response_ttl
      → handler m again codec r w'
        ≡ (record (handler m next codec r w).0 { retry_after = none }, tick w')
  handler-again user_id body w w' keyed (runs, steady) mild missing free cacheable same here ahead =
      let key = response_key codec r user_id in
      let lock = lock_key codec r user_id in
      let hash = hash_of_request codec r body in
      let v = entered (tick w) lock m.lock_ttl in
      let first : handler m next codec r w
          ≡ serve_locked m next true true key lock hash (w.services.uuid (suc w.calls)) v =
        ap (λ h. h w) (handler-keyed m next codec r user_id body keyed)
        ∙ serve_keyed-first m next key lock hash w (runs, steady) missing free in
      let served : (handler m next codec r w).0 ≡ (next v).0 =
        ap (λ o. o.0) first
        ∙ serve_locked-answer m next true true key lock hash (w.services.uuid (suc w.calls)) v in
      let stores =
        serve_locked-stores m next key lock hash (w.services.uuid (suc w.calls)) v (λ u. (mild u).0)
          (runs, steady) (response_key-lock_key codec r user_id)
          (ap (λ a. is_cacheable_status a.status) (sym served) ∙ cacheable) in
      let u = (next v).1 in
      let s = recorded hash (u.services.now u.calls / 1000000000) (next v).0 in
      let found = here ∙ ap (λ o. o.1.redis key) first ∙ stores.1 in
      let clock = ap (λ x. x.now) (mild v).0 in
      let clock' = ap (λ x. x.now w'.calls) same in
      let later = steady w.calls (suc u.calls) (omega (arith, (mild v).1)) in
      let in_time : w'.services.now w'.calls < u.services.now (suc u.calls) + m.response_ttl =
        rw (clock, clock') (omega (arith, later, ahead)) in
      ap (λ h. h w') (handler-keyed m again codec r user_id body keyed)
      ∙ serve_keyed-again m again key lock w' s (u.services.now (suc u.calls))
          (λ n. ap (λ x. x.redis n) same ∙ runs n) found in_time
      ∙ ap (λ a. (record a { retry_after = none }, tick w')) (sym served)
