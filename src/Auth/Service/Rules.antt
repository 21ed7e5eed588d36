-- ===== src/Auth/Service/Rules.antt =====
-- How `Login` and `Refresh` end.
use mkk_luna.Prelude.{
  ℕ, suc, ◌≤◌, ◌≡◌, refl, sym, ap, ◌∙◌, arith, String, Bool, true, false, not, some, ltb,
}
use mkk_luna.Schema.{Session, Tables}
use mkk_luna.World.{
  World, M, Error, Result, ok, err, external, invalid_token, token_reuse, at, tick, pure, guard,
  defer, rollback, commit, ask, ◌>>=◌, ◌>>◌,
}
use mkk_luna.World.Rules.{
  guard_rule, query-bind, or_fail-bind, exec_rule, begin_rule, commit_rule, Then,
}
use mkk_luna.Repository.Sessions
use mkk_luna.Repository.Sessions.{session_of, insert_session, revoke_session}
use mkk_luna.Repository.Members.{is_some}
use mkk_luna.Auth.Config.{Config, TokenPair, Provider}
use mkk_luna.Auth.Tokens.{token_type_refresh}
use mkk_luna.Auth.Tokens.Rules.{IsPair, IsRead, user_id_of_rule, new_token_pair_rule}
use mkk_luna.Auth.Service.{session_for, replace_session, rotate, refresh}

module _ (provider : Provider) (cfg : Config) (ip user_agent : String) where
  -- The session of the old token is revoked, and the new one is inserted.
  abbrev pub rotated : Tables → ℕ → String → ℕ → TokenPair → Result ℕ × Tables
  rotated t user_id hash now pair =
      insert_session (session_for provider cfg user_id pair.refresh_token now ip user_agent)
        (revoke_session hash now t)

  -- What `Refresh` has found when it writes, and what it writes.
  abbrev pub IsRotated : Tables → ℕ → String → ℕ → TokenPair → Tables → Type 0
  IsRotated t user_id hash now pair t' =
      (session : Session) × (id : ℕ) × (session_of t hash ≡ some session)
      × (is_some session.revoked_at ≡ false)
      × (ltb session.expires_at now ≡ false)
      × IsPair provider cfg user_id pair
      × (rotated t user_id hash now pair ≡ (ok id, t'))

  module _ (P : Result TokenPair × World → Type 0) (w : World) (user_id : ℕ) (hash : String)
      (now : ℕ) where
    replace_session_rule :
        (n : ℕ)
        → ((e : Error) (w' : World) → w'.saved ≡ some w.tables → P (err e, w'))
        → ((pair : TokenPair) (id : ℕ) (w' : World)
            → w'.saved ≡ some w.tables
            → IsPair provider cfg user_id pair
            → rotated w.tables user_id hash now pair ≡ (ok id, w'.tables)
            → P (ok pair, w'))
        → P (
            replace_session provider cfg user_id hash now ip user_agent
              (record (at w n) { saved = some w.tables }))
    unfolding replace_session Sessions.revoke_with_tx Sessions.create_with_tx
    replace_session_rule n refused done =
        new_token_pair_rule provider cfg (Then write P) (record (at w n) { saved = some w.tables })
          user_id (λ _. refused _ _ refl)
          (λ pair made k.
            exec_rule (Then (λ _. insert pair) P) _ (record (at w k) { saved = some w.tables })
              (refused _ _ refl) (refused _ _ refl)
              (exec_rule (Then (λ _. pure pair) P) _ (w₁ k) (refused _ _ refl) (refused _ _ refl)
                (inserted pair made (rotated w.tables user_id hash now pair) refl _ refl refl)))
      where
        insert : TokenPair → M TokenPair
        insert pair = do
          id ←
              Sessions.create_with_tx
                (session_for provider cfg user_id pair.refresh_token now ip user_agent)
          pure pair

        write : TokenPair → M TokenPair
        write pair = Sessions.revoke_with_tx hash now >> insert pair

        w₁ : ℕ → World
        w₁ k = record (tick (at w k)) {
          saved = some w.tables;
          tables = revoke_session hash now w.tables;
        }

        inserted :
            (pair : TokenPair)
            → IsPair provider cfg user_id pair
            → (out : Result ℕ × Tables) → rotated w.tables user_id hash now pair ≡ out
            → (w' : World) → w'.saved ≡ some w.tables
            → w'.tables ≡ out.1
            → Then (λ _. pure pair) P (out.0, w')
        inserted pair made (err e, t) same w' open_tx now_is = refused e w' open_tx
        inserted pair made (ok id, t) same w' open_tx now_is =
            done pair id w' open_tx made (same ∙ ap (λ t. (ok id, t)) (sym now_is))

    rotate_rule :
        (n : ℕ)
        → ((e : Error) (w' : World) → w'.saved ≡ some w.tables → P (err e, w'))
        → ((pair : TokenPair) (w' : World)
            → w'.saved ≡ some w.tables
            → IsRotated w.tables user_id hash now pair w'.tables
            → P (ok pair, w'))
        → P (
            rotate provider cfg user_id hash now ip user_agent
              (record (at w n) { saved = some w.tables }))
    unfolding rotate Sessions.get_by_token_hash_for_update
    rotate_rule n refused done = query-bind P _ _ w₀ (refused _ _ refl) (
        or_fail-bind P (session_of w.tables hash) invalid_token check (tick w₀)
          (λ _. refused _ _ refl)
          (λ session found.
            guard_rule P (not (is_some session.revoked_at)) token_reuse (check_time session)
              (tick w₀) (λ _. refused _ _ refl)
              (λ live.
                guard_rule P (not (ltb session.expires_at now)) invalid_token write (tick w₀)
                  (λ _. refused _ _ refl)
                  (λ fresh. replace_session_rule _ refused (λ pair id w' open_tx made same.
                    done pair w' open_tx
                      (session, id, found, not_true live, not_true fresh, made, same))))))
      where
        w₀ : World
        w₀ = record (at w n) { saved = some w.tables }

        write : M TokenPair
        write = replace_session provider cfg user_id hash now ip user_agent

        check_time : Session → M TokenPair
        check_time session = guard (not (ltb session.expires_at now)) invalid_token >> write

        check : Session → M TokenPair
        check session = guard (not (is_some session.revoked_at)) token_reuse >> check_time session

        not_true : {b : Bool} → not b ≡ true → b ≡ false
        not_true {b} h = ground arith

  rollback-saved : (t : Tables) (w : World) → w.saved ≡ some t → (rollback w).tables ≡ t
  unfolding rollback
  rollback-saved t w h = rw h refl

  -- A refusal leaves the tables; otherwise the session has been replaced, though the answer to the
  -- commit may be lost.
  pub refresh_rule :
      (P : Result TokenPair × World → Type 0) (w : World) (token : String)
      → ((e : Error) (w' : World) → w'.tables ≡ w.tables → P (err e, w'))
      → ((user_id n : ℕ)
          → w.calls ≤ n
          → IsRead provider cfg token token_type_refresh user_id
          → (pair : TokenPair) (w' : World)
          → IsRotated w.tables user_id (provider.sum256 token) (provider.now n) pair w'.tables
          → P (err external, w') × P (ok pair, w'))
      → P (refresh provider cfg token ip user_agent w)
  unfolding refresh Sessions.with_tx rollback
  refresh_rule P w token refused answered =
      user_id_of_rule provider cfg (Then next P) w token token_type_refresh (λ _. refused _ _ refl)
        (λ user_id read n later.
          let now : ℕ = provider.now n in
          begin_rule (Then (λ _. defer rollback (body user_id now)) P) (tick (at w n))
            (refused _ _ refl)
            (rotate_rule (Then finish Q) w user_id (provider.sum256 token) now (suc (suc n))
              (λ e w' open_tx. refused e _ (rollback-saved w.tables w' open_tx))
              (λ pair w' open_tx done.
                let (lost, arrived) = answered user_id n later read pair _ done in
                commit_rule (Then (λ _. pure pair) Q) w'
                  (refused _ _ (rollback-saved w.tables (tick w') open_tx)) lost arrived)))
    where
      Q : Result TokenPair × World → Type 0
      Q (r, w') = P (r, rollback w')

      finish : TokenPair → M TokenPair
      finish pair = commit >> pure pair

      body : ℕ → ℕ → M TokenPair
      body user_id now =
          rotate provider cfg user_id (provider.sum256 token) now ip user_agent >>= finish

      next : ℕ → M TokenPair
      next user_id = do
        now ← ask provider.now
        Sessions.with_tx (rotate provider cfg user_id (provider.sum256 token) now ip user_agent)
