-- ===== src/Lock/Rules.antt =====
-- How the operations of internal/infra/redislock/locker.go end, for an arbitrary claim on the outcome.
use mkk_luna.Prelude.{
  ℕ, ◌+◌, arith, suc, ◌<◌, ◌≡◌, ◌≢◌, refl, sym, ap, ◌∙◌, inl, inr, Bool, true, false, Option, none,
  some, String, ◌=s◌, Bool-cases, eq_iff, if◌then◌else◌,
}
use mkk_luna.Redis.{until, Cells, get, set, set_nx, del, del_if}
use mkk_luna.Redis.Keys.{Key, Value, text, Key-discrete}
use mkk_luna.Redis.Rules.{set_nx-cases, get_ahead, put_same, del_if_other}
use mkk_luna.World.{Result, ok, err, external, World, works, tick}
use mkk_luna.World.Rules.{Then, command_rule, command_cases}
use mkk_luna.Lock.{release, acquire_connected, answered, effective}

-- The keys after a lock on `key` is written for the caller in the world `w`.
abbrev pub lock_cells : World → Key → ℕ → Cells
lock_cells w key ttl =
    set (w.services.now (suc w.calls)) key (text (w.services.uuid w.calls)) (effective ttl) w.redis

abbrev pub IsFree : World → Key → Type 0
IsFree w key = get (w.services.now (suc w.calls)) key w.redis ≡ none

module _ (P : Result (Option String) × World → Type 0) (w : World) (key : Key) (ttl : ℕ) where
  pub acquire_connected_rule :
      (w.services.redis (suc w.calls) ≢ works → P (err external, tick (tick w)))
      → (¬ IsFree w key → P (ok none, tick (tick w)))
      → (w.services.redis (suc w.calls) ≢ works
          → IsFree w key
          → P (err external, record (tick (tick w)) { redis = lock_cells w key ttl }))
      → (IsFree w key
          → P (
            ok (some (w.services.uuid w.calls)),
            record (tick (tick w)) { redis = lock_cells w key ttl },
          ))
      → P (acquire_connected key ttl w)
  unfolding acquire_connected
  acquire_connected_rule broken taken unknown granted =
      elim (set_nx-cases now key (text token) (effective ttl) w.redis) [
        | inl (free, e) ↦
            command_cases (Then (λ b. λ w'. (ok (if_taken b), w')) P)
              (λ now' cells. answered (set_nx now' key (text token) (effective ttl) cells)) (tick w)
              broken (λ bad. rw e (unknown bad free)) (rw e (granted free))
        | inr (held, e) ↦
            command_cases (Then (λ b. λ w'. (ok (if_taken b), w')) P)
              (λ now' cells. answered (set_nx now' key (text token) (effective ttl) cells)) (tick w)
              broken (λ bad. rw e (broken bad)) (rw e (taken held))
      ]
    where
      now : ℕ
      now = w.services.now (suc w.calls)

      token : String
      token = w.services.uuid w.calls

      if_taken : Bool → Option String
      if_taken b = if b then some token else none

until-effective : (now ttl : ℕ) → until now (effective ttl) ≡ some (now + effective ttl)
unfolding effective
until-effective now ttl = ground arith

pub set-effective :
    (now : ℕ) (k : Key) (v : Value) (ttl : ℕ) (cells : Cells)
    → set now k v (effective ttl) cells k
      ≡ some (record { value = v; deadline = some (now + effective ttl) })
unfolding set
set-effective now k v ttl cells =
    put_same k _ cells
    ∙ ap (λ d. some (record { value = v; deadline = d })) (until-effective now ttl)

-- The release script takes out a lock with another token under no key.
other_text : (a b : String) → a ≢ b → (b =s a) ≡ false
other_text a b other = elim (Bool-cases (b =s a)) [
  | inl e ↦ absurd (other (sym ((eq_iff b a).0 e)))
  | inr e ↦ e
]

pub del_if-other :
    (now : ℕ) (k j : Key) (token other : String) (cells : Cells) {d : ℕ}
    → cells j ≡ some (record { value = text token; deadline = some d })
    → now < d
    → token ≢ other
    → del_if now k other cells j ≡ cells j
unfolding del_if del
del_if-other now k j token other cells {d} here ahead apart = elim (Key-discrete k j) [
  | yes same ↦
      let read : get now k cells ≡ some (text token) =
        get_ahead now k cells (ap cells same ∙ here) ahead in
      rw (read, other_text other token (λ e. apart (sym e)))
  | no differs ↦ del_if_other now k j other cells differs
]

-- A release does nothing, or a command that may fail or lose its answer.
pub release_rule :
    (P : Result (Unit {0}) × World → Type 0) (connected : Bool) (key : Key) (token : String)
    (w : World)
    → P (ok tt, w)
    → P (err external, tick w)
    → ((r : Result (Unit {0}))
        → P (r, record (tick w) { redis = del_if (w.services.now w.calls) key token w.redis }))
    → P (release connected key token w)
unfolding release
release_rule P false key token w nothing broken run = nothing
release_rule P true key token w nothing broken run = elim (Bool-cases (token =s "")) [
  | inl e ↦ rw (e, release) nothing
  | inr e ↦
      rw (e, release)
        (command_rule P (λ now cells. (ok tt, del_if now key token cells)) w broken (run _) (run _))
]

pub release_other :
    (key other : Key) (token : String) (w : World)
    → key ≢ other
    → (release true key token w).1.redis other ≡ w.redis other
release_other key other token w apart =
    release_rule (λ o. o.1.redis other ≡ w.redis other) true key token w refl refl
      (λ r. del_if_other (w.services.now w.calls) key other token w.redis apart)
