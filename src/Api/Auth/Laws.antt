-- ===== src/Api/Auth/Laws.antt =====
-- Who is let in by the login handler.
use mkk_luna.Prelude.{
  ℕ, ◌≡◌, refl, ◌∙◌, inl, inr, ◌⊎◌, String, Bool, true, false, Option, none, some, Bool-cases, ◌==◌,
  arith,
}
use mkk_luna.Text.{trim_space}
use mkk_luna.Schema.{User, Tables}
use mkk_luna.Http.{Response}
use mkk_luna.World.{World, Error, Result, ok, err}
use mkk_luna.Auth.Config.{TokenPair}
use mkk_luna.Auth.Service as Service
use mkk_luna.Auth.Credentials.{user_named, is_password_of, IsOpened, login_atomic}
use mkk_luna.Task.Atomicity.{AllOrNothing}
use mkk_luna.Lockout.{Lockout, normalize, is_locked, on_failure, on_success}
use mkk_luna.Lockout.Quiet.{IsQuiet, is_locked-IsQuiet, on_failure-IsQuiet, on_success-IsQuiet}
use mkk_luna.Api.{Handler, answer, attempt, settle}
use mkk_luna.Api.Helpers.{or_invalid}
use mkk_luna.Api.Auth.{
  AuthHandler, LoginRequest, login, unlocked, failed, succeeded, unless_locked, token_response,
  is_invalid_credentials, too_many_requests, admit, wrong_credentials,
}

-- The name under which a login is looked up.
abbrev pub name_of : Option Lockout → String → Option String
name_of none login = some login
name_of (some l) login = normalize l login

too_many-status : (d : ℕ) → (too_many_requests d).status ≡ 429
too_many-status d = elim (Bool-cases (d == 0)) [ inl e ↦ rw e refl | inr e ↦ rw e refl ]

no_success : (d : ℕ) → ¬ ((too_many_requests d).status ≡ 200)
no_success d e = ground (arith, too_many-status d, e)

module _ (h : AuthHandler) (w : World) (ip user_agent : String)
    (decoded : Option LoginRequest) where
  -- The password is that of the user that the request names, and the tables have the new session.
  abbrev pub IsLoggedIn : String → String → TokenPair → Tables → Type 0
  IsLoggedIn name password pair t' =
      (user : User) × (user_named w name ≡ some user)
      × (is_password_of h.provider h.cfg (some user) password ≡ true)
      × IsOpened h.provider h.cfg w.tables user ip user_agent pair t'

  abbrev pub IsGranted : TokenPair → Tables → Type 0
  IsGranted pair t' =
      (req : LoginRequest) × (name : String) × (decoded ≡ some req)
      × (name_of h.lockout (trim_space req.login) ≡ some name)
      × IsLoggedIn name req.password pair t'

  -- The tables are as they were, or have a session to which the request was entitled.
  abbrev pub IsLeft : Tables → Type 0
  IsLeft t' = (t' ≡ w.tables) ⊎ ((pair : TokenPair) × IsGranted pair t')

  abbrev pub IsGuarded : Response × World → Type 0
  IsGuarded (r, w') =
      (¬ (r.status ≡ 200) × IsLeft w'.tables)
      ⊎ ((pair : TokenPair) × (r ≡ token_response pair) × IsGranted pair w'.tables)

  unless_locked-IsGuarded :
      (left : Option ℕ) (next : Handler) (w' : World)
      → IsLeft w'.tables
      → IsGuarded (next w')
      → IsGuarded (unless_locked left next w')
  unless_locked-IsGuarded none next w' same free = free
  unless_locked-IsGuarded (some d) next w' same free = inl (no_success d, same)

  wrong : ¬ (wrong_credentials.status ≡ 200)
  wrong e = ground (arith, e)

  failed-IsGuarded :
      (lockout : Option Lockout) (name : String) (e : Error) (w₁ : World)
      → IsLeft w₁.tables
      → IsGuarded (failed lockout name e w₁)
  unfolding failed
  failed-IsGuarded none name e w₁ same = inl (wrong, same)
  failed-IsGuarded (some l) name e w₁ same = elim (Bool-cases (is_invalid_credentials e)) [
    | inl q ↦ rw q (go (on_failure l name w₁) (on_failure-IsQuiet l name w₁).0)
    | inr q ↦ rw q (inl (wrong, same))
  ]
    where
      go :
          (o : Result (Option ℕ) × World)
          → o.1.tables ≡ w₁.tables
          → IsGuarded (
              settle o.0
                (λ e'. answer wrong_credentials)
                (λ left. unless_locked left (answer wrong_credentials))
                o.1)
      go (err e', w') kept = inl (wrong, rw kept same)
      go (ok left, w') kept =
          unless_locked-IsGuarded left (answer wrong_credentials) w' (rw kept same)
            (inl (wrong, rw kept same))

  succeeded-IsGuarded :
      (lockout : Option Lockout) (name : String) (pair : TokenPair) (w₁ : World)
      → IsGranted pair w₁.tables
      → IsGuarded (succeeded lockout name pair w₁)
  unfolding succeeded
  succeeded-IsGuarded none name pair w₁ granted = inr (pair, refl, granted)
  succeeded-IsGuarded (some l) name pair w₁ granted =
      go (on_success l name w₁) (on_success-IsQuiet l name w₁).0
    where
      go :
          (o : Result (Unit {0}) × World)
          → o.1.tables ≡ w₁.tables
          → IsGuarded (
              settle o.0
                (λ e. answer (token_response pair))
                (λ u. answer (token_response pair))
                o.1)
      go (err e, w') kept = inr (pair, refl, rw kept granted)
      go (ok u, w') kept = inr (pair, refl, rw kept granted)

  -- The login itself, in a world whose tables and services are still those of the request.
  entered-IsGuarded :
      (req : LoginRequest) (name : String) (w₁ : World)
      → IsQuiet w w₁
      → decoded ≡ some req
      → name_of h.lockout (trim_space req.login) ≡ some name
      → IsGuarded (
          attempt
            (Service.login h.provider h.cfg name req.password ip user_agent)
            (failed h.lockout name)
            (succeeded h.lockout name)
            w₁)
  entered-IsGuarded req name w₁ quiet read named =
      go (Service.login h.provider h.cfg name req.password ip user_agent w₁)
        (login_atomic h.provider h.cfg w₁ name req.password ip user_agent)
    where
      Done : TokenPair → Tables → Type 0
      Done pair t' =
          (user : User) × (user_named w₁ name ≡ some user)
          × (is_password_of h.provider h.cfg (some user) req.password ≡ true)
          × IsOpened h.provider h.cfg w₁.tables user ip user_agent pair t'

      granted : (pair : TokenPair) (t' : Tables) → Done pair t' → IsGranted pair t'
      granted pair t' (user, found, right, opened) = (
        req,
        name,
        read,
        named,
        (user, rw (quiet.0, quiet.1) at found, right, rw (quiet.0) at opened),
      )

      go :
          (o : Result TokenPair × World)
          → AllOrNothing w₁.tables Done o
          → IsGuarded (settle o.0 (failed h.lockout name) (succeeded h.lockout name) o.1)
      go (ok pair, w') done =
          succeeded-IsGuarded h.lockout name pair w' (granted pair w'.tables done)
      go (err e, w') (inl same) = failed-IsGuarded h.lockout name e w' (inl (same ∙ quiet.0))
      go (err e, w') (inr (lost, (pair, done))) =
          failed-IsGuarded h.lockout name e w' (inr (pair, granted pair w'.tables done))

  unlocked-IsGuarded :
      (lockout : Option Lockout) (login : String) (next : String → Handler) (w₁ : World)
      → IsQuiet w w₁
      → ((name : String) (w' : World)
          → name_of lockout login ≡ some name
          → IsQuiet w w'
          → IsGuarded (next name w'))
      → IsGuarded (unlocked lockout login next w₁)
  unfolding unlocked
  unlocked-IsGuarded none login next w₁ quiet enter = enter login w₁ refl quiet
  unlocked-IsGuarded (some l) login next w₁ quiet enter = named (normalize l login) refl
    where
      go :
          (name : String)
          → normalize l login ≡ some name
          → (o : Result (Option ℕ) × World) → IsQuiet w₁ o.1
          → IsGuarded (settle o.0 (λ e. next name) (λ left. unless_locked left (next name)) o.1)
      go name same (err e, w') kept = enter name w' same (kept.0 ∙ quiet.0, kept.1 ∙ quiet.1)
      go name same (ok left, w') kept =
          unless_locked-IsGuarded left (next name) w' (inl (kept.0 ∙ quiet.0))
            (enter name w' same (kept.0 ∙ quiet.0, kept.1 ∙ quiet.1))

      named :
          (found : Option String)
          → normalize l login ≡ found
          → IsGuarded (
              or_invalid found
                (λ normalized.
                  attempt
                    (is_locked l normalized)
                    (λ e. next normalized)
                    (λ left. unless_locked left (next normalized)))
                w₁)
      named none same = inl ((λ e. ground (arith, e)), inl quiet.0)
      named (some name) same = go name same (is_locked l name w₁) (is_locked-IsQuiet l name w₁)

  -- Where the limiter changes neither the tables nor the services, and however Redis and MySQL behave:
  -- `AuthHandler.Login` answers with status 200 only to a request with the password of the user that its
  -- name, normalized by the lockout if there is one, names; the body then has a pair of tokens for that
  -- user, and the tables have exactly one more session, that of the refresh token. With any other status
  -- the tables are as they were or have such a session.
  pub login-IsGuarded :
      IsQuiet w (h.login_limiter ip w).1 → IsGuarded (login h ip user_agent decoded w)
  unfolding login
  login-IsGuarded quiet = go (h.login_limiter ip w) quiet
    where
      entered :
          (asked : Option LoginRequest)
          → decoded ≡ asked
          → (w₁ : World) → IsQuiet w w₁
          → IsGuarded (
              or_invalid asked
                (λ req. unlocked h.lockout (trim_space req.login) (λ name.
                  attempt
                    (Service.login h.provider h.cfg name req.password ip user_agent)
                    (failed h.lockout name)
                    (succeeded h.lockout name)))
                w₁)
      entered none same w₁ kept = inl ((λ e. ground (arith, e)), inl kept.0)
      entered (some req) same w₁ kept =
          unlocked-IsGuarded h.lockout (trim_space req.login) _ w₁ kept
            (λ name w' named still. entered-IsGuarded req name w' still same named)

      go :
          (o : (Bool × ℕ) × World)
          → IsQuiet w o.1
          → IsGuarded (
              admit o (
                or_invalid decoded (λ req. unlocked h.lockout (trim_space req.login) (λ name.
                  attempt
                    (Service.login h.provider h.cfg name req.password ip user_agent)
                    (failed h.lockout name)
                    (succeeded h.lockout name)))))
      go ((true, d), w₁) kept = entered decoded refl w₁ kept
      go ((false, d), w₁) kept = inl (no_success d, inl kept.0)
