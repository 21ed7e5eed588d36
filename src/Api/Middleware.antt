-- ===== src/Api/Middleware.antt =====
-- internal/api/middleware/auth.go: a request goes on as the user of its access token. The handler that is
-- wrapped gets the user where Go puts it into the context. `strings.EqualFold` is a parameter.
mod Tests
use mkk_luna.Prelude.{ℕ, ◌≡◌, ◌==◌, ◌=s◌, String, Bool, Option, none, some, ◌⊎◌, if◌then◌else◌}
use Prim.Native.Char.{Char, code}
use mkk_luna.World.{World}
use mkk_luna.Http.{Response}
use mkk_luna.Auth.Config.{Config, Provider}
use mkk_luna.Auth.Tokens.{parse_access_token_ctx, token_type_access}
use mkk_luna.Auth.Tokens.Rules.{IsRead}
use mkk_luna.Api.{Handler, answer, attempt}
use mkk_luna.Api.Helpers.{unauthorized}

abbrev pub before_space : Char → Option (String × String) → Option (String × String)
before_space c none = none
before_space c (some (a, b)) = some (String.◌∷◌ c a, b)

-- `strings.SplitN(s, " ", 2)` with two parts.
unfoldable pub split_space : String → Option (String × String)
split_space String.[] = none
split_space (String.◌∷◌ c s) =
    let rest = split_space s in if code c == b' ' then some (String.[], s) else before_space c rest

module _ (equal_fold : String → String → Bool) where
  -- The token of the header `Authorization`, if it has the form of one.
  abbrev pub bearer_parts : Option (String × String) → Option String
  bearer_parts none = none
  bearer_parts (some (scheme, token)) = if equal_fold scheme "Bearer" then some token else none

  unfoldable pub bearer_token : String → Option String
  unfolding split_space
  bearer_token header = if header =s "" then none else bearer_parts (split_space header)

  module _ (provider : Provider) (cfg : Config) (next : ℕ → Handler) where
    abbrev pub authenticate : Option String → Handler
    authenticate none = answer unauthorized
    authenticate (some token) =
        attempt (parse_access_token_ctx provider cfg token) (λ e. answer unauthorized) next

    unfoldable pub auth_middleware : String → Handler
    unfolding bearer_token
    auth_middleware header = authenticate (bearer_token header)

    -- The request is refused with the tables as they were, or it goes on.
    abbrev pub IsAdmitted : World → String → Response × World → Type 0
    IsAdmitted w header out =
        ((out.0 ≡ unauthorized) × (out.1.tables ≡ w.tables))
        ⊎ ((token : String) × (user_id : ℕ) × (w' : World) × (bearer_token header ≡ some token)
            × IsRead provider cfg token token_type_access user_id
            × (w'.tables ≡ w.tables)
            × (out ≡ next user_id w'))
