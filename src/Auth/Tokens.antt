-- ===== src/Auth/Tokens.antt =====
-- internal/service/auth.go: `newToken`, `newTokenPair`, `parseToken` and what reads a subject, and the
-- functions of strconv on an int64. An int64 is its bit pattern, a number below 2 ^ 64.
pub mod Rules
pub mod Subjects
pub mod Trip
use mkk_luna.Prelude.{
  ℕ, zero, suc, ◌+◌, ◌-◌, ◌*◌, ◌/◌, ◌%◌, String, Bool, true, false, not, ◌&&◌, ◌||◌, Option, none,
  some, List, [], ◌∷◌, ◌++◌, all, ltb, leb, ◌==◌, ◌=s◌, if◌then◌else◌,
}
use mkk_luna.Text.{is_digit}
use mkk_luna.World.{M, external, invalid_token, pure, or_fail, guard, map_error, ask, ◌>>=◌, ◌>>◌}
use mkk_luna.Auth.Config.{Config, TokenClaims, TokenPair, Provider}

abbrev pub max_int64 : ℕ
max_int64 = 9223372036854775807

abbrev pub modulus : ℕ
modulus = 18446744073709551616

-- The decimal digits of a number below 10 ^ fuel.
unfoldable pub digits : ℕ → ℕ → List ℕ
digits zero n = []
digits (suc fuel) n =
    let front = digits fuel (n / 10) in
    if ltb n 10 then (b'0' + n) ∷ [] else front ++ (b'0' + n % 10) ∷ []

-- `strconv.FormatInt(n, 10)`: an int64 has at most 19 digits.
unfoldable pub format_int : ℕ → List ℕ
unfolding digits
format_int n = if leb n max_int64 then digits 20 n else b'-' ∷ digits 20 (modulus - n)

unfoldable pub value_from : ℕ → List ℕ → ℕ
value_from n [] = n
value_from n (c ∷ cs) = value_from (10 * n + (c - b'0')) cs

-- The number that one or more digits spell.
unfoldable pub parse_digits : List ℕ → Option ℕ
unfolding is_digit value_from
parse_digits [] = none
parse_digits (c ∷ cs) = if all is_digit (c ∷ cs) then some (value_from 0 (c ∷ cs)) else none

abbrev pub bounded : Bool → Option ℕ → Option ℕ
bounded negative none = none
bounded false (some n) = if leb n max_int64 then some n else none
bounded true (some n) = if leb n (suc max_int64) then some ((modulus - n) % modulus) else none

-- `strconv.ParseInt(s, 10, 64)`; none for an error.
unfoldable pub parse_int : List ℕ → Option ℕ
unfolding parse_digits
parse_int [] = none
parse_int (c ∷ cs) =
    if c == b'-'
    then bounded true (parse_digits cs)
    else if c == b'+'
    then bounded false (parse_digits cs)
    else bounded false (parse_digits (c ∷ cs))

abbrev pub token_type_access : String
token_type_access = "access"

abbrev pub token_type_refresh : String
token_type_refresh = "refresh"

module _ (provider : Provider) (cfg : Config) where
  unfoldable pub new_token : ℕ → String → ℕ → M String
  unfolding format_int
  new_token user_id typ ttl = do
    now ← ask provider.now
    id ← ask provider.new_string
    or_fail
        (provider.signed_string "HS256" cfg.secret (record {
          type = typ;
          subject = format_int user_id;
          issuer = cfg.issuer;
          issued_at = now;
          expires_at = now + ttl;
          id = id;
        }))
        external

  unfoldable pub new_token_pair : ℕ → M TokenPair
  unfolding new_token
  new_token_pair user_id = do
    access ← new_token user_id token_type_access cfg.access_ttl
    refresh ← new_token user_id token_type_refresh cfg.refresh_ttl
    pure (record { access_token = access; refresh_token = refresh })

  -- The function that `ParseWithClaims` asks for the key.
  unfoldable pub key_for : String → Option String
  key_for alg = if alg =s "HS256" then some cfg.secret else none

  unfoldable pub checks_blacklist : String → TokenClaims → Bool
  checks_blacklist expected claims =
      expected =s token_type_access
      && cfg.blacklist_enabled
      && cfg.has_blacklist
      && not (claims.id =s "")

  -- The two results of `IsRevoked` let the token pass.
  unfoldable pub passes : Bool × Bool → Bool
  passes (revoked, failed) = (not failed || cfg.fail_open) && not revoked

  unfoldable pub check_blacklist : Bool → TokenClaims → M TokenClaims
  unfolding passes
  check_blacklist false claims = pure claims
  check_blacklist true claims = do
    answer ← ask (λ n. provider.is_revoked n claims.id)
    guard (passes answer) invalid_token
    pure claims

  unfoldable pub parse_token : String → String → M TokenClaims
  unfolding key_for checks_blacklist check_blacklist
  parse_token token expected = do
    parsed ← ask (λ n. provider.parse_with_claims n cfg.clock_skew key_for token)
    claims ← or_fail parsed invalid_token
    guard (claims.type =s expected) invalid_token
    guard (claims.issuer =s cfg.issuer) invalid_token
    check_blacklist (checks_blacklist expected claims) claims

  -- The subject of a token of the type.
  unfoldable pub user_id_of : String → String → M ℕ
  unfolding parse_token parse_int
  user_id_of token expected = do
    claims ← map_error (λ _. invalid_token) (parse_token token expected)
    or_fail (parse_int claims.subject) invalid_token

  unfoldable pub parse_access_token_ctx : String → M ℕ
  unfolding user_id_of
  parse_access_token_ctx token = user_id_of token token_type_access

  unfoldable pub parse_refresh_token_user_id : String → M ℕ
  unfolding user_id_of
  parse_refresh_token_user_id token = user_id_of token token_type_refresh
