-- ===== src/Auth/Rotation.antt =====
-- `Refresh` replaces a session by another, and a refresh token works once.
use mathlib.Core.Path.{subst}
use mathlib.Core.Option
use mkk_luna.Prelude.{
  ℕ, ◌≤◌, ◌≡◌, refl, sym, ap, ◌∙◌, inl, inr, String, true, some, find-update_where,
  find-append_some, Bool-cases, any, ◌=s◌,
}
use mkk_luna.Schema.{Session, Tables}
use mkk_luna.World.{World, ok}
use mkk_luna.Repository.Sessions.{NewSession, session_of, insert_session, revoke_session}
use mkk_luna.Repository.Members.{is_some}
use mkk_luna.Task.Atomicity.{AllOrNothing}
use mkk_luna.Task.Rights.{IsRefused}
use mkk_luna.Auth.Config.{Config, TokenPair, Provider}
use mkk_luna.Auth.Tokens.{token_type_refresh}
use mkk_luna.Auth.Tokens.Rules.{IsRead}
use mkk_luna.Auth.Service.{refresh}
use mkk_luna.Auth.Service.Rules.{IsRotated, refresh_rule}

session_of-revoke_session :
    (hash : String) (now : ℕ) (t : Tables)
    → session_of (revoke_session hash now t) hash
      ≡ Option.map {A = Session} (λ s. record s { revoked_at = some now }) (session_of t hash)
unfolding session_of revoke_session
session_of-revoke_session hash now t =
    find-update_where (λ s. s.token_hash =s hash) _ t.sessions (λ x h. h)

session_of-insert_session :
    (n : NewSession) (t : Tables) (hash : String) {s : Session}
    → session_of t hash ≡ some s
    → session_of (insert_session n t).1 hash ≡ some s
unfolding session_of insert_session
session_of-insert_session n t hash found =
    elim (Bool-cases (any (λ s. s.token_hash =s n.token_hash) t.sessions)) [
      | inl e ↦ rw (e, insert_session) found
      | inr e ↦
          rw (e, insert_session) (find-append_some (λ s. s.token_hash =s hash) t.sessions _ _ found)
    ]

-- The tables hold the session of the token, and it is revoked.
abbrev pub IsSpent : Tables → String → Type 0
IsSpent t hash = (s : Session) × (session_of t hash ≡ some s) × (is_some s.revoked_at ≡ true)

module _ (provider : Provider) (cfg : Config) where
  -- The session is not over at the reading of the clock that the call has made after its start.
  abbrev pub IsRefreshed : World → String → String → String → TokenPair → Tables → Type 0
  IsRefreshed w token ip user_agent pair t' =
      (user_id : ℕ) × (n : ℕ) × (w.calls ≤ n)
      × IsRead provider cfg token token_type_refresh user_id
      × IsRotated provider cfg ip user_agent w.tables user_id (provider.sum256 token)
          (provider.now n) pair t'

  IsRefreshed-IsSpent :
      (w : World) (t' : Tables) (token ip user_agent : String) (pair : TokenPair)
      → IsRefreshed w token ip user_agent pair t'
      → IsSpent t' (provider.sum256 token)
  IsRefreshed-IsSpent w t' token ip user_agent pair
        (user_id, n, _, _, (session, _, found, _, _, _, same)) =
      let hash = provider.sum256 token in
      let revoked =
        session_of-revoke_session hash (provider.now n) w.tables ∙ ap (Option.map _) found in
      (
        record session { revoked_at = some (provider.now n) },
        ap (λ out. session_of out.1 hash) (sym same) ∙ session_of-insert_session _ _ hash revoked,
        refl,
      )

  module _ (w : World) (token ip user_agent : String) where
    -- `Refresh` succeeds only for a token that is read as a refresh token and whose session is
    -- stored, not revoked and not expired at the reading of the clock that the call makes. A success has revoked that session and stored the one of
    -- the new refresh token, and both new tokens are signed for the user of the old one. A failure
    -- has left all tables as they were, unless the answer to the commit was lost.
    pub refresh_atomic :
        AllOrNothing w.tables
          (IsRefreshed w token ip user_agent)
          (refresh provider cfg token ip user_agent w)
    refresh_atomic =
        refresh_rule provider cfg ip user_agent (AllOrNothing w.tables Done) w token
          (λ e w' same. inl same)
          (λ user_id n later read pair w' rotated.
            let done : Done pair w'.tables = (user_id, n, later, read, rotated) in
            (inr (refl, (pair, done)), done))
      where
        Done : TokenPair → Tables → Type 0
        Done = IsRefreshed w token ip user_agent

    -- A token whose session is revoked is refused: the call fails and all tables stay as they were.
    refresh-IsRefused :
        IsSpent w.tables (provider.sum256 token)
        → IsRefused w (refresh provider cfg token ip user_agent w)
    refresh-IsRefused (s, spent, revoked) =
        refresh_rule provider cfg ip user_agent (IsRefused w) w token (λ e w' same. (tt, same))
          (λ user_id n later read pair w' (session, _, found, live, _, _, _).
            cc (spent, found, revoked, live))

  -- A refresh token works once: after a success, every call with the same token, on the tables that
  -- the success has left, fails and leaves them as they are.
  pub refresh_once :
      (w w' later : World) (token ip user_agent ip' user_agent' : String) (pair : TokenPair)
      → refresh provider cfg token ip user_agent w ≡ (ok pair, w')
      → later.tables ≡ w'.tables
      → IsRefused later (refresh provider cfg token ip' user_agent' later)
  refresh_once w w' later token ip user_agent ip' user_agent' pair e same =
      refresh-IsRefused later token ip' user_agent' (
        subst (λ t. IsSpent t (provider.sum256 token)) (sym same)
          (IsRefreshed-IsSpent w w'.tables token ip user_agent pair (
            subst (AllOrNothing w.tables (IsRefreshed w token ip user_agent)) e
              (refresh_atomic w token ip user_agent))))
