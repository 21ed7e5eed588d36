-- ===== src/Api/Auth/Tests.antt =====
-- Runs of the handlers of accounts, and the theorem at one.
use mkk_luna.Prelude.{◌≡◌, refl, true, false, none, some, ◌=s◌, if◌then◌else◌}
use mkk_luna.Samples.{world}
use mkk_luna.Http.{Body}
use mkk_luna.Auth.Config.{Config, Provider}
use mkk_luna.Lockout.{Lockout}
use mkk_luna.Api.Auth.{AuthHandler, LoginRequest, login}
use mkk_luna.Api.Auth.Laws.{IsGuarded, login-IsGuarded}

abbrev pub provider : Provider
provider = record {
  now = λ n. 1000;
  new_string = λ n. "jti";
  generate_from_password = λ n password cost. some password;
  compare_hash_and_password = λ hash password. hash =s password;
  parse_with_claims = λ n leeway key token. none;
  signed_string = λ alg key claims. some (if claims.type =s "refresh" then "new" else "access");
  sum256 = λ token. token;
  is_revoked = λ n id. (false, false);
}

abbrev pub cfg : Config
cfg = record {
  issuer = "task-service";
  secret = "0123456789abcdef0123456789abcdef";
  access_ttl = 900;
  refresh_ttl = 2592000;
  clock_skew = 60;
  bcrypt_cost = 12;
  blacklist_enabled = true;
  fail_open = false;
  has_blacklist = true;
}

abbrev lockout : Lockout
lockout = record {
  connected = true;
  max_attempts = 1;
  lock_ttl = 1000000000;
  key_max_len = 0;
  to_lower = λ s. s;
  len = λ s. 3;
}

abbrev handler : AuthHandler
handler = record {
  provider = provider;
  cfg = cfg;
  login_limiter = λ ip w. ((true, 0), w);
  refresh_limiter = λ user_id w. ((true, 0), w);
  lockout = some lockout;
}

abbrev request : LoginRequest
request = record { login = " bob "; password = "h" }

-- The runs of the service are with the theorems on it; here the request ends before them.
login_refused :
    ((login handler "1.2.3.4" "curl" none world).0.status ≡ 400)
    × ((login
          (record handler { login_limiter = λ ip w. ((false, 1500000000), w) })
          "1.2.3.4"
          "curl"
          (some request)
          world).0
        ≡ record {
          status = 429;
          body = Body.error "too many requests";
          location = none;
          retry_after = some 2;
        })
unfolding login
login_refused = (refl, refl)

login-IsGuarded_example :
    IsGuarded handler world "1.2.3.4" "curl"
      (some request)
      (login handler "1.2.3.4" "curl" (some request) world)
login-IsGuarded_example = login-IsGuarded handler world "1.2.3.4" "curl" (some request) (refl, refl)
