-- ===== src/Auth/Tests.antt =====
-- Runs of the authentication service with a small provider, and the theorems at them.
use Prim.Native.String.{len}
use mkk_luna.Prelude.{◌≡◌, refl, ◌≤◌, ◌↔◌, true, any}
use mkk_luna.Text.{codes, is_digit}
use mkk_luna.World.{ok, err, invalid_input}
use mkk_luna.Auth.Validation.{is_letter, validate_password, validate_username, validate_email}
use mathlib.Core.Option
use mkk_luna.Prelude.{
  String, false, none, some, [], ◌∷◌, ◌=s◌, if◌then◌else◌, ◌<◌, arith, find, update_where,
}
use mkk_luna.Schema.{Session, User}
use mkk_luna.World.{
  World, Result, token_reuse, invalid_token, invalid_credentials, query, exec, begin_tx, commit,
  rollback,
}
use mkk_luna.Samples.{bob, world, tables}
use mkk_luna.Repository.Users
use mkk_luna.Repository.Users.{insert_user}
use mkk_luna.Repository.Sessions
use mkk_luna.Repository.Sessions.{session_of, insert_session, revoke_session}
use mkk_luna.Task.Atomicity.{AllOrNothing}
use mkk_luna.Task.Rights.{IsRefused}
use mkk_luna.Auth.Config.{Config, TokenClaims, TokenPair, Provider}
use mkk_luna.Auth.Tokens.{
  modulus, format_int, parse_int, new_token, new_token_pair, key_for, checks_blacklist,
  check_blacklist, passes, parse_token, user_id_of, parse_access_token_ctx,
}
use mkk_luna.Auth.Tokens.Trip.{claims_at, user_id_of-new_token}
use mkk_luna.Auth.Service.{
  register, find_login, create_session, open_session, login, replace_session, rotate, refresh,
}
use mkk_luna.Auth.Rotation.{IsRefreshed, refresh_atomic, refresh_once}
use mkk_luna.Auth.Credentials.{user_named, is_password_of, IsOpened, login_uniform, login_atomic}
use mkk_luna.Auth.Registration.{IsRegistered, register_atomic}
use mkk_luna.Auth.Validation.Laws.{IsEmail, validate_password_iff, validate_email_iff}

validate_tests :
    (validate_password "correct1horse" ≡ ok tt)
    × (validate_password "correcthorse" ≡ err invalid_input)
    × (validate_password "c1" ≡ err invalid_input)
    × (validate_username "ann_1" ≡ ok tt)
    × (validate_username "an" ≡ err invalid_input)
    × (validate_email "a.b@c.d.e" ≡ ok tt)
    × (validate_email "a@b" ≡ err invalid_input)
    × (validate_email "a b@c.d" ≡ err invalid_input)
unfolding validate_password validate_username validate_email
validate_tests = (refl, refl, refl, refl, refl, refl, refl, refl)

validate_password_iff_example : (validate_password "correct1horse" ≡ ok tt) ↔ (
    (10 ≤ len "correct1horse")
    × (any is_letter (codes "correct1horse") ≡ true)
    × (any is_digit (codes "correct1horse") ≡ true))
validate_password_iff_example = validate_password_iff "correct1horse"

validate_email_iff_example : (validate_email "a@b.c" ≡ ok tt) ↔ IsEmail (codes "a@b.c")
validate_email_iff_example = validate_email_iff "a@b.c"

abbrev claims : String → TokenClaims
claims typ = record {
  type = typ;
  subject = b'2' ∷ [];
  issuer = "task-service";
  issued_at = 900;
  expires_at = 2000;
  id = "jti";
}

-- A token is the type of its claims, and a hash is the text itself.
abbrev provider : Provider
provider = record {
  now = λ n. 1000;
  new_string = λ n. "jti";
  generate_from_password = λ n password cost. some password;
  compare_hash_and_password = λ hash password. hash =s password;
  parse_with_claims = λ n leeway key token. Option.map (λ _. claims token) (key "HS256");
  signed_string = λ alg key claims. some (if claims.type =s "refresh" then "new" else "access");
  sum256 = λ token. token;
  is_revoked = λ n id. (false, false);
}

abbrev cfg : Config
cfg = record {
  issuer = "task-service";
  secret = "0123456789abcdef0123456789abcdef";
  access_ttl = 900;
  refresh_ttl = 2592000;
  clock_skew = 60;
  bcrypt_cost = 12;
  blacklist_enabled = true;
  fail_open = false;
  has_blacklist = true;
}

abbrev session : Session
session = record {
  id = 1;
  user_id = bob;
  token_hash = "refresh";
  expires_at = 2000;
  revoked_at = none;
  last_used_at = none;
  user_agent = none;
  ip = none;
  created_at = 0;
}

-- Bob has the session of the token `refresh`.
abbrev signed_in : World
signed_in = record world { tables = record tables { sessions = session ∷ []; next_session = 2 } }

-- What the runs compute with.
run : Unit {0}
unfolding refresh login register rotate replace_session open_session create_session new_token
    new_token_pair format_int parse_int key_for checks_blacklist check_blacklist passes parse_token
    user_id_of parse_access_token_ctx find_login query exec begin_tx commit rollback find
    update_where Sessions.with_tx Sessions.create Sessions.create_with_tx Sessions.revoke_with_tx
    Sessions.get_by_token_hash_for_update session_of insert_session revoke_session
    Users.get_by_email Users.get_by_username Users.create insert_user validate_password
    validate_username validate_email
run = tt

abbrev refreshed : Result TokenPair × World
refreshed = refresh provider cfg "refresh" "" "" signed_in

abbrev pair : TokenPair
pair = record { access_token = "access"; refresh_token = "new" }

refresh_tests :
    (refreshed.0 ≡ ok pair)
    × ((refresh provider cfg "refresh" "" "" refreshed.1).0 ≡ err token_reuse)
    × ((refresh provider cfg "access" "" "" signed_in).0 ≡ err invalid_token)
    × ((parse_access_token_ctx provider cfg "access" world).0 ≡ ok bob)
    × ((login provider cfg "bob" "h" "" "" world).0 ≡ ok pair)
    × ((login provider cfg "zoe" "h" "" "" world).0 ≡ err invalid_credentials)
    × ((register provider cfg "z@z.zz" "zoe" "correct1horse" world).0 ≡ ok 4)
unfolding run
refresh_tests = (refl, refl, refl, refl, refl, refl, refl)

refresh_atomic_example :
    AllOrNothing signed_in.tables
      (IsRefreshed provider cfg signed_in "refresh" "" "")
      (refresh provider cfg "refresh" "" "" signed_in)
refresh_atomic_example = refresh_atomic provider cfg signed_in "refresh" "" ""

refresh_once_example : IsRefused refreshed.1 (refresh provider cfg "refresh" "" "" refreshed.1)
unfolding run
refresh_once_example =
    refresh_once provider cfg signed_in refreshed.1 refreshed.1 "refresh" "" "" "" "" pair refl refl

login_uniform_example :
    ((login provider cfg "zoe" "h" "" "" world).0 ≡ err invalid_credentials)
    × ((login provider cfg "zoe" "h" "" "" world).1.tables ≡ world.tables)
unfolding run
login_uniform_example = login_uniform provider cfg world "zoe" "h" "" "" refl

login_atomic_example :
    AllOrNothing world.tables
      (λ pair t'.
        (user : User) × (user_named world "bob" ≡ some user)
        × (is_password_of provider cfg (some user) "h" ≡ true)
        × IsOpened provider cfg world.tables user "" "" pair t')
      (login provider cfg "bob" "h" "" "" world)
login_atomic_example = login_atomic provider cfg world "bob" "h" "" ""

register_atomic_example :
    AllOrNothing world.tables
      (IsRegistered provider cfg world "z@z.zz" "zoe" "correct1horse")
      (register provider cfg "z@z.zz" "zoe" "correct1horse" world)
register_atomic_example = register_atomic provider cfg world "z@z.zz" "zoe" "correct1horse"

last_lt : 18446744073709551615 < modulus
last_lt = omega arith

-- Its tokens are read back as they were made for Bob.
abbrev steady : Provider
steady = record provider { now = λ n. 900 }

read_back :
    steady.signed_string "HS256" cfg.secret (claims_at steady cfg world 2 "access" 1100)
      ≡ some "access"
    → steady.parse_with_claims world.calls cfg.clock_skew (key_for steady cfg) "access"
      ≡ some (claims_at steady cfg world 2 "access" 1100)
unfolding run
read_back e = refl

user_id_of-new_token_example : (user_id_of steady cfg "access" "access" world).0 ≡ ok 2
unfolding run
user_id_of-new_token_example =
    user_id_of-new_token steady cfg world (record world { calls = 2 }) world 2 1100 "access"
      "access" (omega arith) read_back (λ n. refl) refl
