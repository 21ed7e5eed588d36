-- ===== src/Idempotency/Once.antt =====
-- internal/api/middleware/idempotency.go: however Redis answers, a request is served at most once.
use mkk_luna.Prelude.{
  ℕ, suc, ◌≤◌, ◌/◌, String, arith, eq_iff, ◌≢◌, ◌≡◌, refl, ap, ◌∙◌, inl, inr, Bool, true, false,
  Option, none, some, ◌=s◌, ◌&&◌, not, Bool-cases,
}
use mkk_luna.Http.{Response, StoredResponse, failure}
use mkk_luna.Redis as Commands
use mkk_luna.Redis.Keys.{Key, Value, stored, text, number, page}
use mkk_luna.World.{Result, ok, err, World, works, at, tick}
use mkk_luna.World.Rules.{command_rule, command_cases}
use mkk_luna.Lock.{acquire, release}
use mkk_luna.Lock.Rules.{release_rule, acquire_connected_rule, lock_cells}
use mkk_luna.Api.{Handler, answer, settle}
use mkk_luna.Idempotency.{
  IdempotencyMiddleware, Request, handler, serve_user, serve_body, serve_hashed, response_key,
  lock_key, hash_of_request, is_mutating_method, serve_keyed, serve_missed, serve_found,
  serve_locked, keep, recorded,
}
use mkk_luna.Idempotency.Store
use mkk_luna.Idempotency.Store.{Codec, is_cacheable_status, unmarshal, text_or}
use mkk_luna.Text.{trim_space}
use mkk_luna.Idempotency.Cases.{
  Applies, IsMissing, IsEarly, Open, outside, unread, garbled, unlocked, free, unreadable,
  in_progress, differs, repeats, IsServed, IsOnce,
}

pub release-tables :
    (connected : Bool) (key : Key) (token : String) (w : World)
    → (release connected key token w).1.tables ≡ w.tables
release-tables connected key token w =
    release_rule (λ o. o.1.tables ≡ w.tables) connected key token w refl refl (λ r. refl)

set-tables :
    (connected : Bool) (key : Key) (ttl : ℕ) (s : StoredResponse) (w : World)
    → (Store.set connected key ttl s w).1.tables ≡ w.tables
unfolding Store.set
set-tables false key ttl s w = refl
set-tables true key ttl s w =
    command_rule (λ o. o.1.tables ≡ w.tables)
      (λ now cells. (ok tt, Commands.set now key (stored s) ttl cells)) w refl refl refl

module _ (m : IdempotencyMiddleware) (next : Handler) where
  always :
      (r : Response) (o : Result (Unit {0})) (w : World)
      → settle o (λ e. answer r) (λ u. answer r) w ≡ (r, w)
  always r (ok u) w = refl
  always r (err e) w = refl

  keep-once :
      (store : Bool) (key : Key) (hash : String) (r : Response) (w : World)
      → ((keep m next store key hash r w).0 ≡ r)
        × ((keep m next store key hash r w).1.tables ≡ w.tables)
  unfolding keep
  keep-once store key hash r w = elim (Bool-cases (is_cacheable_status r.status)) [
    | inl e ↦
        let s = recorded hash (w.services.now w.calls / 1000000000) r in
        let (o, w') = Store.set store key m.response_ttl s (tick w) in
        rw e (
          ap (λ p. p.0) (always r o w'),
          ap (λ p. p.1.tables) (always r o w') ∙ set-tables store key m.response_ttl s (tick w),
        )
    | inr e ↦ rw e (refl, refl)
  ]

  pub serve_locked-answer :
      (store locker : Bool) (key lock_key : Key) (hash token : String) (w : World)
      → (serve_locked m next store locker key lock_key hash token w).0 ≡ (next w).0
  unfolding serve_locked
  serve_locked-answer store locker key lock_key hash token w =
      (keep-once store key hash (next w).0 (next w).1).0

  pub serve_locked-IsServed :
      (store locker : Bool) (key lock_key : Key) (hash token : String) (w w₀ : World)
      → w.tables ≡ w₀.tables
      → IsServed next w₀ (serve_locked m next store locker key lock_key hash token w)
  unfolding serve_locked
  serve_locked-IsServed store locker key lock_key hash token w w₀ same =
      let (r, w') = next w in
      let kept = keep-once store key hash r w' in
      let (r', w'') = keep m next store key hash r w' in
      (w, (same, (kept.0, release-tables locker lock_key token w'' ∙ kept.1)))

  module _ (A : Type 0) (body : Option String) (w : World) (key lock_key : Key)
      (hash : String) where
    serve_missed-IsOnce :
        (store locker : Bool) (n : ℕ)
        → w.calls ≤ n
        → n ≤ suc w.calls
        → IsMissing (some store) w key
        → IsOnce A body
            (some store)
            (some locker)
            next
            w
            key
            lock_key
            hash
            (serve_missed m next store locker key lock_key hash (at w n))
    unfolding serve_missed acquire
    serve_missed-IsOnce store false n from to missing =
        inl (unlocked missing (inl refl), (at w n, (refl, (refl, refl))))
    serve_missed-IsOnce store true n from to missing =
        acquire_connected_rule
          (λ o.
            IsOnce A body (some store) (some true) next w key lock_key hash
              (settle o.0 (λ e. next) rest o.1))
          (at w n) lock_key m.lock_ttl
          (λ bad. inl (failed bad, (at w (suc (suc n)), (refl, (refl, refl)))))
          (λ taken. inr (in_progress missing (suc n) early taken, refl))
          (λ bad _. inl (failed bad, (after, (refl, (refl, refl)))))
          (λ none_there. inl (
            free missing (suc n) early none_there,
            serve_locked-IsServed store true key lock_key hash _ after w refl,
          ))
      where
        early : IsEarly w (suc n)
        early = (omega (arith, from), omega (arith, to))

        failed : w.services.redis (suc n) ≢ works → Open A (some store) (some true) w key lock_key
        failed bad = unlocked missing (inr (suc n, early, bad))

        rest : Option String → Handler
        rest none = answer (failure 409 "request already in progress")
        rest (some token) = serve_locked m next store true key lock_key hash token

        after : World
        after = record (at w (suc (suc n))) { redis = lock_cells (at w n) lock_key m.lock_ttl }

    -- What follows the read of the response.
    abbrev resume : Bool → Option StoredResponse → Handler
    resume locker found = elim found [
      | none ↦ serve_missed m next true locker key lock_key hash
      | some cached ↦ serve_found m next hash cached
    ]

    found-IsOnce :
        (locker : Bool) (o : Option Value)
        → Commands.get (w.services.now w.calls) key w.redis ≡ o
        → IsOnce A body
            (some true)
            (some locker)
            next
            w
            key
            lock_key
            hash
            (settle (unmarshal o) (λ e. next) (resume locker) (tick w))
    unfolding serve_found
    found-IsOnce locker none read =
        serve_missed-IsOnce true locker (suc w.calls) (omega arith) (omega arith) (inr read)
    found-IsOnce locker (some (number n)) read =
        inl (garbled _ read (λ s h. cc), (tick w, (refl, (refl, refl))))
    found-IsOnce locker (some (text s)) read =
        inl (garbled _ read (λ s h. cc), (tick w, (refl, (refl, refl))))
    found-IsOnce locker (some (page b)) read =
        inl (garbled _ read (λ s h. cc), (tick w, (refl, (refl, refl))))
    found-IsOnce locker (some (stored s)) read = elim (Bool-cases (s.request_hash =s hash)) [
      | inl e ↦ rw e (inr (repeats s read e, refl))
      | inr e ↦ rw e (inr (differs s read e, refl))
    ]

    serve_keyed-IsOnce :
        (store locker : Bool)
        → IsOnce A body
            (some store)
            (some locker)
            next
            w
            key
            lock_key
            hash
            (serve_keyed m next store locker key lock_key hash w)
    unfolding serve_keyed Store.get
    serve_keyed-IsOnce false locker =
        serve_missed-IsOnce false locker w.calls (omega arith) (omega arith) (inl refl)
    serve_keyed-IsOnce true locker =
        command_cases
          (λ o.
            IsOnce A body (some true) (some locker) next w key lock_key hash
              (settle o.0 (λ e. next) (resume locker) o.1))
          (λ now cells. (unmarshal (Commands.get now key cells), cells)) w
          (λ bad. inl (unread bad, (tick w, (refl, (refl, refl)))))
          (λ bad. inl (unread bad, (tick w, (refl, (refl, refl)))))
          (found-IsOnce locker (Commands.get (w.services.now w.calls) key w.redis) refl)

    serve_hashed-IsOnce :
        (store locker : Option Bool)
        → (A → store ≢ none)
        → (A → locker ≢ none)
        → IsOnce A body store locker next w key lock_key hash
            (serve_hashed m next store locker key lock_key hash w)
    unfolding serve_hashed
    serve_hashed-IsOnce none locker has_store has_locker =
        inl (outside (λ a. has_store a refl), (w, (refl, (refl, refl))))
    serve_hashed-IsOnce (some store) none has_store has_locker =
        inl (outside (λ a. has_locker a refl), (w, (refl, (refl, refl))))
    serve_hashed-IsOnce (some store) (some locker) has_store has_locker =
        serve_keyed-IsOnce store locker

abbrev pub user_of : Option ℕ → ℕ
user_of none = 0
user_of (some user_id) = user_id

module _ (m : IdempotencyMiddleware) (next : Handler) (codec : Codec) (r : Request)
    (w : World) where
  -- The claim for a user and a body that have been read.
  abbrev pub IsHandled : Option ℕ → Option String → Response × World → Type 0
  IsHandled user_id body =
      IsOnce (Applies m r) body m.store m.locker next w (response_key codec r (user_of user_id))
        (lock_key codec r (user_of user_id)) (hash_of_request codec r (text_or "" body))

  bypassed :
      (user_id : Option ℕ) (body : Option String) → ¬ Applies m r → IsHandled user_id body (next w)
  bypassed user_id body not_here = inl (outside not_here, (w, (refl, (refl, refl))))

  serve_body-IsOnce :
      (user_id : ℕ) (body : Option String)
      → IsHandled (some user_id) body (serve_body m next codec r user_id body w)
  unfolding serve_body
  serve_body-IsOnce user_id none = inr (unreadable refl, refl)
  serve_body-IsOnce user_id (some body) =
      serve_hashed-IsOnce m next (Applies m r) (some body) w (response_key codec r user_id)
        (lock_key codec r user_id) (hash_of_request codec r body) m.store m.locker
        (λ a. a.with_store) (λ a. a.with_locker)

  serve_user-IsOnce :
      (user_id : Option ℕ)
      → r.user_id ≡ user_id
      → IsHandled user_id r.body (serve_user m next codec r user_id w)
  unfolding serve_user
  serve_user-IsOnce none same = bypassed none r.body (λ a. a.signed_in same)
  serve_user-IsOnce (some user_id) same = elim (Bool-cases (r.route_pattern =s "")) [
    | inl e ↦
        rw e (bypassed (some user_id) r.body (λ a. a.routed ((eq_iff r.route_pattern "").0 e)))
    | inr e ↦ rw e (serve_body-IsOnce user_id r.body)
  ]

  -- However the calls of Redis end, a request is served exactly once, on the tables as they are and with
  -- the handler's own answer, or it is not served and the tables stay as they are. It is served only where
  -- the middleware does not apply to it, where a call of Redis for it does not work or what is read is no
  -- response, where there is no client for the lock, or where no response is stored and the lock is free
  -- when it is asked for. Otherwise the answer is one of four: the body cannot be read; no response is
  -- stored and the lock is taken; the stored response has another hash; or it has this hash and is
  -- repeated.
  pub handler-IsOnce : IsHandled r.user_id r.body (handler m next codec r w)
  unfolding handler
  handler-IsOnce =
      elim (Bool-cases
        (m.enabled && is_mutating_method r.method && not (trim_space r.idempotency_key =s ""))) [
          | inl e ↦ rw e (serve_user-IsOnce r.user_id refl)
          | inr e ↦ rw e (
              bypassed r.user_id r.body
                (λ a. apart m.enabled (is_mutating_method r.method) a.enabled a.mutating a.keyed e))
        ]
    where
      apart :
          (on mutating : Bool)
          → on ≡ true
          → mutating ≡ true
          → ¬ (trim_space r.idempotency_key ≡ "")
          → ¬ ((on && mutating && not (trim_space r.idempotency_key =s "")) ≡ false)
      apart on mutating h g apart_from e =
          ground (arith, eq_iff (trim_space r.idempotency_key) "", h, g, apart_from, e)
