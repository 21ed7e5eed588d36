-- ===== src/Api/Middleware/Tests.antt =====
-- Runs of the middleware of authentication, and the theorem at one.
use mkk_luna.Prelude.{◌≡◌, refl, none, some, ◌=s◌}
use mkk_luna.Api.Middleware.{split_space, bearer_token}

bearer_token_tests :
    (bearer_token ◌=s◌ "Bearer a b" ≡ some "a b")
    × (bearer_token ◌=s◌ "Basic a" ≡ none)
    × (bearer_token ◌=s◌ "Bearer" ≡ none)
unfolding bearer_token split_space
bearer_token_tests = (refl, refl, refl)
