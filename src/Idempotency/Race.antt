-- ===== src/Idempotency/Race.antt =====
-- internal/api/middleware/idempotency.go: between the look-up of the answer and the lock.
use mkk_luna.Prelude.{String, refl, true}
use mkk_luna.Redis.Keys.{Key}
use mkk_luna.World.{World}
use mkk_luna.Lock.Rules.{IsFree}
use mkk_luna.Lock.Laws.{IsUp, acquire-grants}
use mkk_luna.Api.{Handler}
use mkk_luna.Idempotency.{IdempotencyMiddleware, serve_missed}
use mkk_luna.Idempotency.Once.{serve_locked-IsServed}
use mkk_luna.Idempotency.Cases.{IsServed}
use mkk_luna.Idempotency.Replay.{entered}

-- While Redis works: a request that has once found nothing stored is served as soon as the lock is free,
-- whatever is stored under its key by then, an answer to the same request included.
pub serve_missed-IsServed :
    (m : IdempotencyMiddleware) (next : Handler) (key busy_key : Key) (hash : String) (w : World)
    → IsUp w
    → IsFree w busy_key
    → IsServed next w (serve_missed m next true true key busy_key hash w)
unfolding serve_missed
serve_missed-IsServed m next key busy_key hash w up free =
    rw (acquire-grants w busy_key m.lock_ttl up free) (
      serve_locked-IsServed m next true true key busy_key hash (w.services.uuid w.calls)
        (entered w busy_key m.lock_ttl) w refl)
