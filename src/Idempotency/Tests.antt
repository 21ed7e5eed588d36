-- ===== src/Idempotency/Tests.antt =====
-- Runs of the idempotency middleware, and the theorems at them.
use mkk_luna.Prelude.{suc, ◌≡◌, refl, true, some, [], ◌∷◌, arith}
use mkk_luna.Text.{codes, trim_space, trim_left, trim_right, is_space, first_part, text_le, join}
use mkk_luna.Http.{Body, json}
use mkk_luna.Redis.Keys.{Key-discrete}
use mkk_luna.Redis.{get, set, set_nx, put, del_if, del}
use mkk_luna.World.{World, command}
use mkk_luna.Samples as Samples
use mkk_luna.Api.{Handler}
use mkk_luna.Lock.{acquire, acquire_connected, release, effective}
use mkk_luna.Lock.Laws.{IsUp}
use mkk_luna.Idempotency.{
  IdempotencyMiddleware, Request, handler, serve_user, serve_body, serve_hashed, serve_keyed,
  serve_missed, serve_locked, keep, response_key, lock_key, hash_of_request, is_mutating_method,
}
use mkk_luna.Idempotency.Store as Storage
use mkk_luna.Idempotency.Store.{
  Codec, canonical_query, query_parts, value_parts, is_cacheable_status, build_route_hash,
  build_request_hash,
}
use mkk_luna.Idempotency.Cases.{IsServed}
use mkk_luna.Idempotency.Once.{IsHandled, handler-IsOnce}
use mkk_luna.Idempotency.Replay.{IsMild, IsKeyed, handler-again}
use mkk_luna.Idempotency.Race.{serve_missed-IsServed}

abbrev codec : Codec
codec = record {
  to_upper = λ s. s;
  to_lower = λ s. s;
  sum256 = λ parts. "hash";
  short256 = λ parts. "route";
  remarshal = λ s. some s;
}

abbrev middleware : IdempotencyMiddleware
middleware = record {
  enabled = true;
  store = some true;
  locker = some true;
  lock_ttl = 1000;
  response_ttl = 100000;
}

abbrev request : Request
request = record {
  method = "POST";
  idempotency_key = " k ";
  user_id = some 1;
  route_pattern = "/teams";
  content_type = "application/json; charset=utf-8";
  query = [];
  body = some "{}";
}

-- A handler that makes a team: it counts in the tables.
abbrev creates : Handler
creates w = (
  json 201 (Body.created 7),
  record w { tables = record w.tables { next_team = suc w.tables.next_team } },
)

abbrev refuses : Handler
refuses w = (json 500 (Body.error "internal error"), w)

texts_tests :
    (trim_space " k " ≡ "k")
    × (first_part b';' "a; b" ≡ "a")
    × (canonical_query (("b", "2" ∷ "1" ∷ []) ∷ ("a", "3" ∷ []) ∷ []) ≡ codes "a=3&b=1&b=2")
unfolding trim_space trim_left trim_right is_space first_part canonical_query query_parts
    value_parts join text_le
texts_tests = (refl, refl, refl)

request-IsKeyed : IsKeyed middleware request 1 "{}"
unfolding is_mutating_method trim_space trim_left trim_right is_space
request-IsKeyed = (refl, (refl, (refl, (refl, (refl, refl)))))

up : IsUp Samples.world
up = ((λ n. refl), (λ m n h. omega (arith, h)))

handler-IsOnce_example :
    IsHandled middleware creates codec request Samples.world
      (some 1)
      (some "{}")
      (handler middleware creates codec request Samples.world)
handler-IsOnce_example = handler-IsOnce middleware creates codec request Samples.world

abbrev later : World
later = (handler middleware creates codec request Samples.world).1

creates-IsMild : IsMild creates
creates-IsMild v = (refl, omega arith)

handler-again_example :
    handler middleware refuses codec request later
    ≡ (json 201 (Body.created 7), record later { calls = suc later.calls })
unfolding handler serve_user serve_body serve_hashed serve_keyed serve_missed serve_locked keep
    Storage.get Storage.set command acquire acquire_connected release get set set_nx del_if del put
    Key-discrete effective is_cacheable_status is_mutating_method trim_space trim_left trim_right
    is_space response_key lock_key hash_of_request build_route_hash build_request_hash
handler-again_example =
    handler-again middleware creates refuses codec request 1 "{}" Samples.world later
      request-IsKeyed up creates-IsMild refl refl refl refl refl (omega arith)

serve_missed-IsServed_example : IsServed creates Samples.world (
    serve_missed middleware creates true true
      (response_key codec request 1)
      (lock_key codec request 1)
      "hash"
      Samples.world)
unfolding get
serve_missed-IsServed_example =
    serve_missed-IsServed middleware creates (response_key codec request 1)
      (lock_key codec request 1) "hash" Samples.world up refl
