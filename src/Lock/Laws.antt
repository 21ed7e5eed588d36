-- ===== src/Lock/Laws.antt =====
-- internal/infra/redislock/locker.go: a lock can be taken again.
use mkk_luna.Prelude.{
  ℕ, suc, ◌≤◌, ◌≡◌, ◌≢◌, ◌=s◌, refl, ap, inl, inr, true, none, some, String, arith, leb, Bool-cases,
  eq_iff,
}
use mkk_luna.Redis.{Cells, get, set, set_nx, del, del_if}
use mkk_luna.Redis.Keys.{Key, Value, text}
use mkk_luna.Redis.Rules.{put_same}
use mkk_luna.World.{ok, works, World, tick}
use mkk_luna.World.Rules.{command-works}
use mkk_luna.Lock.{acquire, acquire_connected, release, effective, answered}
use mkk_luna.Lock.Rules.{IsFree, lock_cells}

-- Redis runs every command, and the clock does not go back.
abbrev pub IsUp : World → Type 0
IsUp w =
    ((n : ℕ) → w.services.redis n ≡ works)
    × ((m n : ℕ) → m ≤ n → w.services.now m ≤ w.services.now n)

-- What the release of the lock with this token leaves under its key is gone at every later moment.
del_if-gone :
    (now later : ℕ) (k : Key) (token : String) (d : ℕ) (cells : Cells)
    → cells k ≡ some (record { value = text token; deadline = some d })
    → now ≤ later
    → get later k (del_if now k token cells) ≡ none
unfolding del_if get del
del_if-gone now later k token d cells here order = elim (Bool-cases (leb d now)) [
  | inl over ↦ rw (here, over, here) (ground arith)
  | inr ahead ↦ rw (here, ahead, (eq_iff token token).1 refl, put_same k none cells)
]

set_nx-free :
    (now : ℕ) (k : Key) (v : Value) (ttl : ℕ) (cells : Cells)
    → get now k cells ≡ none
    → set_nx now k v ttl cells ≡ (true, set now k v ttl cells)
unfolding set_nx
set_nx-free now k v ttl cells free = rw (free, set_nx)

-- While Redis works, a lock is granted if nothing is read under its key when SET arrives.
pub acquire-grants :
    (w : World) (key : Key) (ttl : ℕ)
    → IsUp w
    → IsFree w key
    → acquire true key ttl w ≡ (
      ok (some (w.services.uuid w.calls)),
      record (tick (tick w)) { redis = lock_cells w key ttl },
    )
unfolding acquire acquire_connected
acquire-grants w key ttl (runs, steady) free = rw (
  command-works
      (λ now cells.
        answered (set_nx now key (text (w.services.uuid w.calls)) (effective ttl) cells))
      (tick w) (runs (suc w.calls)),
  set_nx-free (w.services.now (suc w.calls)) key (text (w.services.uuid w.calls)) (effective ttl)
      w.redis free,
)

acquire-free :
    (w : World) (key : Key) (ttl : ℕ)
    → IsUp w
    → IsFree w key
    → (acquire true key ttl w).0 ≡ ok (some (w.services.uuid w.calls))
acquire-free w key ttl up free = ap (λ o. o.0) (acquire-grants w key ttl up free)

pub release-works :
    (w : World) (key : Key) (token : String)
    → IsUp w
    → token ≢ ""
    → release true key token w
      ≡ (ok tt, record (tick w) { redis = del_if (w.services.now w.calls) key token w.redis })
unfolding release
release-works w key token (runs, steady) full = elim (Bool-cases (token =s "")) [
  | inl e ↦ absurd (full ((eq_iff token "").0 e))
  | inr e ↦
      rw (e, release)
        (command-works (λ now cells. (ok tt, del_if now key token cells)) w (runs w.calls))
]

-- While Redis works and the clock does not go back, a lock that its holder releases with its token, which is not empty, before its
-- deadline or after it, is granted to the next caller that asks for it, for any time to live.
pub acquire-release :
    (w : World) (key : Key) (token : String) (d ttl : ℕ)
    → IsUp w
    → token ≢ ""
    → w.redis key ≡ some (record { value = text token; deadline = some d })
    → (acquire true key ttl (release true key token w).1).0
      ≡ ok (some (w.services.uuid (suc w.calls)))
acquire-release w key token d ttl (runs, steady) full here =
    let after = record (tick w) { redis = del_if (w.services.now w.calls) key token w.redis } in
    let gone =
      del_if-gone (w.services.now w.calls) (w.services.now (suc (suc w.calls))) key token d w.redis
        here (steady w.calls (suc (suc w.calls)) (omega arith)) in
    rw (release-works w key token (runs, steady) full)
      (acquire-free after key ttl (runs, steady) gone)

-- While Redis works, a lock whose holder is silent until its deadline is granted to the next caller that
-- asks for it from then on.
pub acquire-expired :
    (w : World) (key : Key) (token : String) (d ttl : ℕ)
    → IsUp w
    → w.redis key ≡ some (record { value = text token; deadline = some d })
    → d ≤ w.services.now w.calls
    → (acquire true key ttl w).0 ≡ ok (some (w.services.uuid w.calls))
unfolding get
acquire-expired w key token d ttl (runs, steady) here late =
    let later = steady w.calls (suc w.calls) (omega arith) in
    acquire-free w key ttl (runs, steady) (rw (here, get) (ground (arith, late, later)))
