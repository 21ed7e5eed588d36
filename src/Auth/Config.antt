-- ===== src/Auth/Config.antt =====
-- internal/service/auth.go: what the service is given: its settings, the libraries that it calls
-- (bcrypt, jwt, uuid, SHA-256), the clock, and the blacklist, which it takes as an interface.
use mkk_luna.Prelude.{ℕ, String, Bool, Option, List}

-- The fields of `config.Config` that the service reads, and whether `bl` is set. Durations are
-- seconds.
pub record Config : Type 0 where
  pub issuer : String
  pub secret : String
  pub access_ttl : ℕ
  pub refresh_ttl : ℕ
  pub clock_skew : ℕ
  pub bcrypt_cost : ℕ
  pub blacklist_enabled : Bool
  pub fail_open : Bool
  pub has_blacklist : Bool

-- The subject is a text, by its code points. An empty claim is an empty text.
pub record TokenClaims : Type 0 where
  pub type : String
  pub subject : List ℕ
  pub issuer : String
  pub issued_at : ℕ
  pub expires_at : ℕ
  pub id : String

pub record TokenPair : Type 0 where
  pub access_token : String
  pub refresh_token : String

-- The answers of the libraries and services. An answer that depends on more than the arguments
-- depends on the number of the call.
pub record Provider : Type 0 where
  -- `time.Now`, in seconds, and `uuid.NewString`.
  pub now : ℕ → ℕ
  pub new_string : ℕ → String
  -- `bcrypt.GenerateFromPassword` of a password and a cost, and `bcrypt.CompareHashAndPassword`.
  pub generate_from_password : ℕ → String → ℕ → Option String
  pub compare_hash_and_password : String → String → Bool
  -- `ParseWithClaims` with a leeway: the function gives the key for the `alg` of the token.
  pub parse_with_claims : ℕ → ℕ → (String → Option String) → String → Option TokenClaims
  -- `NewWithClaims` with a method, and `SignedString` with a key.
  pub signed_string : String → String → TokenClaims → Option String
  -- The digits of `sha256.Sum256`.
  pub sum256 : String → String
  -- `IsRevoked`: its two results, the second whether there is an error.
  pub is_revoked : ℕ → String → Bool × Bool
