-- ===== src/Auth/Tokens/Trip.antt =====
-- A token that `newToken` has made is read back as one of its user.
use mkk_luna.Prelude.{
  ℕ, suc, ◌+◌, ◌<◌, ◌≡◌, refl, inl, inr, String, true, Option, none, some, ◌=s◌, eq_iff, Bool-cases,
}
use mkk_luna.World.{World, tick, ok, external, or_fail}
use mkk_luna.Auth.Config.{Config, TokenClaims, Provider}
use mkk_luna.Auth.Tokens.{
  modulus, format_int, new_token, key_for, checks_blacklist, passes, check_blacklist, parse_token,
  user_id_of,
}
use mkk_luna.Auth.Tokens.Subjects.{parse_int-format_int}

or_fail-ok :
    (o : Option String) (token : String) (w w' : World)
    → or_fail o external w ≡ (ok token, w')
    → o ≡ some token
or_fail-ok none token w w' e = cc
or_fail-ok (some a) token w w' e = cc

module _ (provider : Provider) (cfg : Config) where
  -- What a token of a user carries that is made from the moment of the world on.
  abbrev pub claims_at : World → ℕ → String → ℕ → TokenClaims
  claims_at w user_id typ ttl = record {
    type = typ;
    subject = format_int user_id;
    issuer = cfg.issuer;
    issued_at = provider.now w.calls;
    expires_at = provider.now w.calls + ttl;
    id = provider.new_string (suc w.calls);
  }

  -- For any int64, any type and any lifetime: where `newToken` gives a token, `ParseWithClaims` reads from
  -- it, when it is asked later, the claims that `SignedString` was given, and the blacklist lets their
  -- identifier pass, the token is read, as one of the same type, as a token of the same user.
  pub user_id_of-new_token :
      (w w' v : World) (user_id ttl : ℕ) (typ token : String)
      → user_id < modulus
      → (provider.signed_string "HS256" cfg.secret (claims_at w user_id typ ttl) ≡ some token
          → provider.parse_with_claims v.calls cfg.clock_skew (key_for provider cfg) token
            ≡ some (claims_at w user_id typ ttl))
      → ((n : ℕ)
          → passes provider cfg (provider.is_revoked n (provider.new_string (suc w.calls))) ≡ true)
      → new_token provider cfg user_id typ ttl w ≡ (ok token, w')
      → (user_id_of provider cfg token typ v).0 ≡ ok user_id
  unfolding new_token user_id_of parse_token check_blacklist
  user_id_of-new_token w w' v user_id ttl typ token small reads lets made =
      let parsed = reads (or_fail-ok _ token (tick (tick w)) w' made) in
      let typed : (typ =s typ) ≡ true = (eq_iff typ typ).1 refl in
      let issued : (cfg.issuer =s cfg.issuer) ≡ true = (eq_iff cfg.issuer cfg.issuer).1 refl in
      elim (Bool-cases (checks_blacklist provider cfg typ (claims_at w user_id typ ttl))) [
        | inl e ↦ rw (parsed, typed, issued, e, lets, parse_int-format_int user_id small) refl
        | inr e ↦ rw (parsed, typed, issued, e, parse_int-format_int user_id small) refl
      ]
