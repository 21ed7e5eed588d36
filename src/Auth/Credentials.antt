-- ===== src/Auth/Credentials.antt =====
-- Who gets in: `Register`, `Login` and the access tokens.
use mkk_luna.Prelude.{
  ℕ, ◌≡◌, refl, sym, ap, ◌∙◌, inl, inr, String, Bool, true, false, Option, none, some, find, any,
  ◌==◌, Bool-cases, if◌then◌else◌, ◌=s◌,
}
use mkk_luna.Text.{codes}
use mkk_luna.Schema.{User, Tables}
use mkk_luna.World.{
  World, M, Error, Result, ok, err, external, invalid_credentials, invalid_token, at, tick, pure,
  guard, or_fail, replace, ◌>>=◌, ◌>>◌,
}
use mkk_luna.World.Rules.{query_rule, guard_rule, or_fail-bind, exec_rule, Then}
use mkk_luna.Repository.Users
use mkk_luna.Repository.Sessions
use mkk_luna.Repository.Sessions.{NewSession, insert_session}
use mkk_luna.Task.Atomicity.{AllOrNothing}
use mkk_luna.Auth.Config.{Config, TokenPair, Provider}
use mkk_luna.Auth.Tokens.{token_type_access, parse_access_token_ctx}
use mkk_luna.Auth.Tokens.Rules.{IsRead, IsPair, user_id_of_rule, new_token_pair_rule}
use mkk_luna.Auth.Service.{session_for, find_login, create_session, open_session, login}

-- The user that a login names: by the address if it has an at sign, else by the user name.
abbrev pub user_named : World → String → Option User
user_named w name =
    if any (λ c. c == b'@') (codes name)
    then find (λ u. w.services.collate u.email name) w.tables.users
    else find (λ u. w.services.collate u.username name) w.tables.users

find_login_rule :
    (P : Result (Option User) × World → Type 0) (name : String) (w : World)
    → P (err external, tick w)
    → P (ok (user_named w name), tick w)
    → P (find_login name w)
unfolding find_login Users.get_by_email Users.get_by_username
find_login_rule P name w no_answer answer = elim (Bool-cases (any (λ c. c == b'@') (codes name))) [
  | inl e ↦ rw (e, find_login) (query_rule P _ w no_answer (rw e at answer))
  | inr e ↦ rw (e, find_login) (query_rule P _ w no_answer (rw e at answer))
]

insert_session-refused :
    (n : NewSession) (t t' : Tables) (e : Error) → insert_session n t ≡ (err e, t') → t' ≡ t
unfolding insert_session
insert_session-refused n t t' e h =
    elim (Bool-cases (any (λ s. s.token_hash =s n.token_hash) t.sessions)) [
      | inl d ↦ let h' = rw (d, insert_session) at h in ap (λ out. out.1) (sym h')
      | inr d ↦ let h' = rw (d, insert_session) at h in cc
    ]

module _ (provider : Provider) (cfg : Config) where
  -- The password is that of the user that the login names.
  abbrev pub is_password_of : Option User → String → Bool
  is_password_of none password = false
  is_password_of (some user) password =
      provider.compare_hash_and_password user.password_hash password

  -- The session that a login stores, for the pair that it returns.
  abbrev pub IsOpened : Tables → User → String → String → TokenPair → Tables → Type 0
  IsOpened t user ip user_agent pair t' =
      (now : ℕ) × (id : ℕ) × IsPair provider cfg user.id pair
      × (insert_session (session_for provider cfg user.id pair.refresh_token now ip user_agent) t
          ≡ (ok id, t'))

  open_session_rule :
      (P : Result TokenPair × World → Type 0) (w : World) (user : User) (ip user_agent : String)
      → ((e : Error) (w' : World) → w'.tables ≡ w.tables → P (err e, w'))
      → ((pair : TokenPair) (w' : World)
          → IsOpened w.tables user ip user_agent pair w'.tables
          → P (err external, w') × P (ok pair, w'))
      → P (open_session provider cfg user ip user_agent w)
  unfolding open_session create_session Sessions.create
  open_session_rule P w user ip user_agent refused done =
      new_token_pair_rule provider cfg (Then store P) w user.id (λ _. refused _ _ refl)
        (λ pair made n.
          let new =
            session_for provider cfg user.id pair.refresh_token (provider.now n) ip user_agent in
          stored pair made n (insert_session new w.tables) refl)
    where
      store : TokenPair → M TokenPair
      store pair = create_session provider cfg user.id pair.refresh_token ip user_agent >> pure pair

      stored :
          (pair : TokenPair)
          → IsPair provider cfg user.id pair
          → (n : ℕ) (out : Result ℕ × Tables)
          → insert_session
              (session_for provider cfg user.id pair.refresh_token (provider.now n) ip user_agent)
              w.tables
            ≡ out
          → P (store pair (at w n))
      stored pair made n (err e, t) same =
          exec_rule (Then (λ _. pure tt) (Then (λ _. pure pair) P)) (insert_session _)
            (tick (at w n)) (refused _ _ refl)
            (refused _ _ (ap (λ out. out.1) same ∙ insert_session-refused _ _ _ _ same))
            (rw same (refused _ _ (insert_session-refused _ _ _ _ same)))
      stored pair made n (ok id, t) same =
          exec_rule (Then (λ _. pure tt) (Then (λ _. pure pair) P)) (insert_session _)
            (tick (at w n)) (refused _ _ refl)
            (done _ _ (_, id, made, same ∙ ap (λ t. (ok id, t)) (ap (λ out. out.1) (sym same)))).0
            (rw same (done _ _ (_, id, made, same)).1)

  module _ (w : World) (name password ip user_agent : String) where
    login_rule :
        (P : Result TokenPair × World → Type 0)
        → ((n : ℕ) → P (err invalid_credentials, at w n))
        → ((user : User)
            → user_named w name ≡ some user
            → provider.compare_hash_and_password user.password_hash password ≡ true
            → (n : ℕ) → P (open_session provider cfg user ip user_agent (at w n)))
        → P (login provider cfg name password ip user_agent w)
    unfolding login
    login_rule P refused known =
        find_login_rule (λ (r, w'). Then check P (replace (λ _. invalid_credentials) r, w')) name w
          (refused _)
          (or_fail-bind P (user_named w name) invalid_credentials verify (tick w) (λ _. refused _)
            (λ user found.
              guard_rule P (provider.compare_hash_and_password user.password_hash password)
                invalid_credentials (open_session provider cfg user ip user_agent) (tick w)
                (λ _. refused _) (λ right. known user found right _)))
      where
        verify : User → M TokenPair
        verify user = do
          guard (provider.compare_hash_and_password user.password_hash password) invalid_credentials
          open_session provider cfg user ip user_agent

        check : Option User → M TokenPair
        check found = or_fail found invalid_credentials >>= verify

    -- A login with a name that no user has and one with a wrong password get the same answer,
    -- `ErrInvalidCredentials`, and leave all tables as they were.
    pub login_uniform :
        is_password_of (user_named w name) password ≡ false
        → ((login provider cfg name password ip user_agent w).0 ≡ err invalid_credentials)
          × ((login provider cfg name password ip user_agent w).1.tables ≡ w.tables)
    login_uniform wrong =
        login_rule (λ (r, w'). (r ≡ err invalid_credentials) × (w'.tables ≡ w.tables))
          (λ n. (refl, refl))
          (λ user found right n. cc (wrong, right, ap (λ u. is_password_of u password) found))

    -- `Login` succeeds only with the password of the user that the login names. A success has stored
    -- exactly one session, of the refresh token that it returns, and both tokens are signed for that
    -- user; a failure has left all tables as they were, unless the answer to the INSERT was lost.
    pub login_atomic :
        AllOrNothing w.tables
          (λ pair t'.
            (user : User) × (user_named w name ≡ some user)
            × (is_password_of (some user) password ≡ true)
            × IsOpened w.tables user ip user_agent pair t')
          (login provider cfg name password ip user_agent w)
    login_atomic =
        login_rule (AllOrNothing w.tables Done) (λ n. inl refl)
          (λ user found right n.
            open_session_rule (AllOrNothing w.tables Done) (at w n) user ip user_agent
              (λ e w' same. inl same)
              (λ pair w' opened.
                let done : Done pair w'.tables = (user, found, right, opened) in
                (inr (refl, (pair, done)), done)))
      where
        Done : TokenPair → Tables → Type 0
        Done pair t' =
            (user : User) × (user_named w name ≡ some user)
            × (is_password_of (some user) password ≡ true)
            × IsOpened w.tables user ip user_agent pair t'

  -- The caller is let in as the user of the token, or is refused; either way no table changes.
  abbrev pub IsAuthenticated : World → String → Result ℕ × World → Type 0
  IsAuthenticated w token (ok user_id, w') =
      IsRead provider cfg token token_type_access user_id × (w'.tables ≡ w.tables)
  IsAuthenticated w token (err e, w') = (e ≡ invalid_token) × (w'.tables ≡ w.tables)

  -- `ParseAccessTokenCtx` answers with a user only if the token carries, under the secret and HS256,
  -- claims of the type access and of the service's issuer whose subject is that user, and, where the
  -- blacklist is asked, its answer lets the token pass. It refuses with `ErrInvalidToken` alone.
  pub parse_access_token_ctx-IsAuthenticated :
      (w : World) (token : String)
      → IsAuthenticated w token (parse_access_token_ctx provider cfg token w)
  unfolding parse_access_token_ctx
  parse_access_token_ctx-IsAuthenticated w token =
      user_id_of_rule provider cfg (IsAuthenticated w token) w token token_type_access
        (λ n. (refl, refl)) (λ user_id read n _. (read, refl))
