-- ===== src/Auth/Tokens/Rules.antt =====
-- How the steps on tokens end.
use mkk_luna.Prelude.{
  ℕ, ◌+◌, ◌≤◌, arith, ◌≡◌, refl, ◌⊎◌, inl, inr, String, Bool, true, false, some, ◌=s◌,
}
use mkk_luna.World.{
  World, M, Result, ok, err, external, invalid_token, at, tick, pure, or_fail, guard, replace,
  ◌>>=◌, ◌>>◌,
}
use mkk_luna.World.Rules.{guard_rule, or_fail-bind, or_fail_rule, Then}
use mkk_luna.Auth.Config.{Config, TokenClaims, TokenPair, Provider}
use mkk_luna.Auth.Tokens.{
  format_int, parse_int, token_type_access, token_type_refresh, new_token, new_token_pair, key_for,
  checks_blacklist, passes, check_blacklist, parse_token, user_id_of,
}

module _ (provider : Provider) (cfg : Config) where
  -- The token is the signature of claims about the user, at some moment, with this lifetime.
  abbrev pub IsSigned : ℕ → String → ℕ → String → Type 0
  IsSigned user_id typ ttl token =
      (now : ℕ) × (id : String) × (provider.signed_string "HS256" cfg.secret (record {
        type = typ;
        subject = format_int user_id;
        issuer = cfg.issuer;
        issued_at = now;
        expires_at = now + ttl;
        id = id;
      })
        ≡ some token)

  abbrev pub IsPair : ℕ → TokenPair → Type 0
  IsPair user_id pair =
      IsSigned user_id token_type_access cfg.access_ttl pair.access_token
      × IsSigned user_id token_type_refresh cfg.refresh_ttl pair.refresh_token

  -- The token carries claims of this type and issuer about the user, and passes the blacklist.
  abbrev pub IsRead : String → String → ℕ → Type 0
  IsRead token expected user_id =
      (claims : TokenClaims) × (n : ℕ) × (provider.parse_with_claims n cfg.clock_skew
          (key_for provider cfg) token
        ≡ some claims)
      × ((claims.type =s expected) ≡ true)
      × ((claims.issuer =s cfg.issuer) ≡ true)
      × (parse_int claims.subject ≡ some user_id)
      × ((checks_blacklist provider cfg expected claims ≡ false)
          ⊎ ((m : ℕ) × (passes provider cfg (provider.is_revoked m claims.id) ≡ true)))

  module _ {B : Type 0} (P : Result B × World → Type 0) (w : World) where
    new_token-bind :
        (user_id : ℕ) (typ : String) (ttl : ℕ) (f : String → M B)
        → ((n : ℕ) → P (err external, at w n))
        → ((token : String) → IsSigned user_id typ ttl token → (n : ℕ) → P (f token (at w n)))
        → P ((new_token provider cfg user_id typ ttl >>= f) w)
    unfolding new_token
    new_token-bind user_id typ ttl f refused made =
        or_fail-bind P _ _ f _ (λ _. refused _) (λ token signed. made token (_, _, signed) _)

  pub new_token_pair_rule :
      (P : Result TokenPair × World → Type 0) (w : World) (user_id : ℕ)
      → ((n : ℕ) → P (err external, at w n))
      → ((pair : TokenPair) → IsPair user_id pair → (n : ℕ) → P (ok pair, at w n))
      → P (new_token_pair provider cfg user_id w)
  unfolding new_token_pair
  new_token_pair_rule P w user_id refused made =
      new_token-bind P w user_id token_type_access cfg.access_ttl _ refused (λ access signed n.
        new_token-bind P (at w n) user_id token_type_refresh cfg.refresh_ttl _ refused
          (λ refresh signed' k. made _ (signed, signed') k))

  check_blacklist_rule :
      (P : Result TokenClaims × World → Type 0) (w : World) (checks : Bool) (claims : TokenClaims)
      → ((n : ℕ) → P (err invalid_token, at w n))
      → ((checks ≡ false)
            ⊎ ((m : ℕ) × (passes provider cfg (provider.is_revoked m claims.id) ≡ true))
          → (n : ℕ) → w.calls ≤ n
          → P (ok claims, at w n))
      → P (check_blacklist provider cfg checks claims w)
  unfolding check_blacklist
  check_blacklist_rule P w false claims refused passed = passed (inl refl) _ (omega arith)
  check_blacklist_rule P w true claims refused passed =
      guard_rule P (passes provider cfg (provider.is_revoked w.calls claims.id)) invalid_token
        (pure claims) (tick w) (λ _. refused _) (λ h. passed (inr (w.calls, h)) _ (omega arith))

  -- A token is refused with `invalid_token`, or it has been read.
  pub user_id_of_rule :
      (P : Result ℕ × World → Type 0) (w : World) (token expected : String)
      → ((n : ℕ) → P (err invalid_token, at w n))
      → ((user_id : ℕ)
          → IsRead token expected user_id
          → (n : ℕ) → w.calls ≤ n
          → P (ok user_id, at w n))
      → P (user_id_of provider cfg token expected w)
  unfolding user_id_of parse_token
  user_id_of_rule P w token expected refused read =
      or_fail-bind Q
        (provider.parse_with_claims w.calls cfg.clock_skew (key_for provider cfg) token)
        invalid_token check (tick w) (λ _. refused _)
        (λ claims parsed.
          guard_rule Q (claims.type =s expected) invalid_token (check_issuer claims) (tick w)
            (λ _. refused _)
            (λ typed.
              guard_rule Q (claims.issuer =s cfg.issuer) invalid_token (blacklisted claims) (tick w)
                (λ _. refused _)
                (λ issued.
                  check_blacklist_rule Q (tick w) (checks_blacklist provider cfg expected claims)
                    claims refused
                    (λ fresh n later.
                      subject claims
                        (λ id h.
                          read id (claims, w.calls, parsed, typed, issued, h, fresh) n
                            (omega (arith, later)))
                        (refused n)))))
    where
      Q : Result TokenClaims × World → Type 0
      Q (r, w') =
          Then (λ claims. or_fail (parse_int claims.subject) invalid_token) P
            (replace (λ _. invalid_token) r, w')

      blacklisted : TokenClaims → M TokenClaims
      blacklisted claims =
          check_blacklist provider cfg (checks_blacklist provider cfg expected claims) claims

      check_issuer : TokenClaims → M TokenClaims
      check_issuer claims = guard (claims.issuer =s cfg.issuer) invalid_token >> blacklisted claims

      check : TokenClaims → M TokenClaims
      check claims = guard (claims.type =s expected) invalid_token >> check_issuer claims

      subject :
          (claims : TokenClaims) {w' : World}
          → ((id : ℕ) → parse_int claims.subject ≡ some id → P (ok id, w'))
          → P (err invalid_token, w')
          → P (or_fail (parse_int claims.subject) invalid_token w')
      subject claims found missing = or_fail_rule P _ invalid_token _ (λ _. missing) found
