-- ===== src/Api/Helpers.antt =====
-- internal/api/helpers.go, and the steps with which the handlers of internal/api begin and end.
use mkk_luna.Prelude.{ℕ, String, ◌&&◌, Option, none, some, leb, ltb, if◌then◌else◌}
use mkk_luna.Text.{codes}
use mkk_luna.Http.{Response, failure}
use mkk_luna.World.{
  M, Error, not_found, forbidden, conflict, bad_request, unavailable, invalid_credentials,
  invalid_token, token_reuse, invalid_input, duplicate, external,
}
use mkk_luna.Auth.Tokens.{parse_int, max_int64}
use mkk_luna.Api.{Handler, answer, attempt}

unfoldable pub map_service_error : Error → Response
map_service_error not_found = failure 404 "not found"
map_service_error forbidden = failure 403 "forbidden"
map_service_error conflict = failure 409 "conflict"
map_service_error bad_request = failure 400 "invalid request"
map_service_error unavailable = failure 503 "service unavailable"
map_service_error invalid_credentials = failure 500 "internal error"
map_service_error invalid_token = failure 500 "internal error"
map_service_error token_reuse = failure 500 "internal error"
map_service_error invalid_input = failure 500 "internal error"
map_service_error duplicate = failure 500 "internal error"
map_service_error external = failure 500 "internal error"

abbrev pub unauthorized : Response
unauthorized = failure 401 "unauthorized"

abbrev pub invalid_request : Response
invalid_request = failure 400 "invalid request"

-- `parseInt64(v)` with `err != nil || n <= 0`: an int64 is its bit pattern.
abbrev pub positive : Option ℕ → Option ℕ
positive none = none
positive (some n) = if ltb 0 n && leb n max_int64 then some n else none

unfoldable pub parse_id : String → Option ℕ
unfolding parse_int
parse_id v = positive (parse_int (codes v))

-- The user of the context and the identifier of the path.
unfoldable pub with_user : Option ℕ → (ℕ → Handler) → Handler
with_user none next = answer unauthorized
with_user (some user_id) next = next user_id

abbrev pub or_invalid : {A : Type 0} → Option A → (A → Handler) → Handler
or_invalid none next = answer invalid_request
or_invalid (some a) next = next a

-- `if err != nil { mapServiceError }`.
abbrev pub serve : {A : Type 0} → M A → (A → Handler) → Handler
serve m next = attempt m (λ e. answer (map_service_error e)) next
