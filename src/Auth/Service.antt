-- ===== src/Auth/Service.antt =====
-- internal/service/auth.go: `Register`, `Login` and `Refresh`.
pub mod Rules
use mkk_luna.Prelude.{ℕ, ◌+◌, String, not, Option, none, some, any, ltb, ◌==◌, ◌=s◌, if◌then◌else◌}
use mkk_luna.Text.{codes}
use mkk_luna.Schema.{User}
use mkk_luna.World.{
  M, Result, external, invalid_credentials, invalid_token, token_reuse, pure, or_fail, guard,
  map_error, ask, ◌>>=◌, ◌>>◌,
}
use mkk_luna.Repository.Users
use mkk_luna.Repository.Sessions
use mkk_luna.Repository.Sessions.{NewSession}
use mkk_luna.Repository.Members.{is_some}
use mkk_luna.Auth.Config.{Config, TokenPair, Provider}
use mkk_luna.Auth.Tokens.{new_token_pair, user_id_of, token_type_refresh}
use mkk_luna.Auth.Validation.{validate_email, validate_username, validate_password}

-- A pure check as a step.
abbrev pub lift : {A : Type 0} → Result A → M A
lift r w = (r, w)

abbrev pub nullable_string : String → Option String
nullable_string s = if s =s "" then none else some s

-- `strings.Contains(login, "@")` chooses the key.
unfoldable pub find_login : String → M (Option User)
find_login login =
    if any (λ c. c == b'@') (codes login)
    then Users.get_by_email login
    else Users.get_by_username login

module _ (provider : Provider) (cfg : Config) where
  unfoldable pub register : String → String → String → M ℕ
  register email username password = do
    lift (validate_email email)
    lift (validate_username username)
    lift (validate_password password)
    made ← ask (λ n. provider.generate_from_password n password cfg.bcrypt_cost)
    hash ← or_fail made external
    Users.create email username hash

  -- The session of a refresh token, from the moment `now`.
  abbrev pub session_for : ℕ → String → ℕ → String → String → NewSession
  session_for user_id refresh_token now ip user_agent = record {
    user_id = user_id;
    token_hash = provider.sum256 refresh_token;
    expires_at = now + cfg.refresh_ttl;
    user_agent = nullable_string user_agent;
    ip = nullable_string ip;
  }

  unfoldable pub create_session : ℕ → String → String → String → M (Unit {0})
  create_session user_id refresh_token ip user_agent = do
    now ← ask provider.now
    id ← Sessions.create (session_for user_id refresh_token now ip user_agent)
    pure tt

  unfoldable pub open_session : User → String → String → M TokenPair
  unfolding create_session
  open_session user ip user_agent = do
    pair ← new_token_pair provider cfg user.id
    create_session user.id pair.refresh_token ip user_agent
    pure pair

  unfoldable pub login : String → String → String → String → M TokenPair
  unfolding find_login open_session
  login name password ip user_agent = do
    found ← map_error (λ _. invalid_credentials) (find_login name)
    user ← or_fail found invalid_credentials
    guard (provider.compare_hash_and_password user.password_hash password) invalid_credentials
    open_session user ip user_agent

  -- What follows the checks of the session in the transaction of `Refresh`.
  unfoldable pub replace_session : ℕ → String → ℕ → String → String → M TokenPair
  replace_session user_id hash now ip user_agent = do
    pair ← new_token_pair provider cfg user_id
    Sessions.revoke_with_tx hash now
    id ← Sessions.create_with_tx (session_for user_id pair.refresh_token now ip user_agent)
    pure pair

  -- The function that `Refresh` hands to `WithTx`.
  unfoldable pub rotate : ℕ → String → ℕ → String → String → M TokenPair
  unfolding replace_session
  rotate user_id hash now ip user_agent = do
    found ← Sessions.get_by_token_hash_for_update hash
    session ← or_fail found invalid_token
    guard (not (is_some session.revoked_at)) token_reuse
    guard (not (ltb session.expires_at now)) invalid_token
    replace_session user_id hash now ip user_agent

  unfoldable pub refresh : String → String → String → M TokenPair
  unfolding rotate
  refresh refresh_token ip user_agent = do
    user_id ← user_id_of provider cfg refresh_token token_type_refresh
    now ← ask provider.now
    Sessions.with_tx (rotate user_id (provider.sum256 refresh_token) now ip user_agent)
