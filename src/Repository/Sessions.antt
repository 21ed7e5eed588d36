-- ===== src/Repository/Sessions.antt =====
-- internal/repository/session_repo.go: the methods that the authentication service calls. The hash of
-- the token is a unique key.
use mkk_luna.Prelude.{
  ℕ, suc, String, Option, none, some, [], ◌∷◌, ◌++◌, find, any, update_where, ◌=s◌, if◌then◌else◌,
}
use mkk_luna.Schema.{Session, Tables}
use mkk_luna.World.{
  M, Result, ok, err, duplicate, query, exec, begin_tx, commit, rollback, defer, pure, ◌>>=◌, ◌>>◌,
}

-- The columns that `createSession` writes.
pub record NewSession : Type 0 where
  pub user_id : ℕ
  pub token_hash : String
  pub expires_at : ℕ
  pub user_agent : Option String
  pub ip : Option String

unfoldable pub session_of : Tables → String → Option Session
session_of t hash = find (λ s. s.token_hash =s hash) t.sessions

unfoldable pub new_row : NewSession → Tables → Session
new_row n t = record {
  id = t.next_session;
  user_id = n.user_id;
  token_hash = n.token_hash;
  expires_at = n.expires_at;
  revoked_at = none;
  last_used_at = none;
  user_agent = n.user_agent;
  ip = n.ip;
  created_at = t.clock;
}

unfoldable pub insert_session : NewSession → Tables → Result ℕ × Tables
unfolding new_row
insert_session n t =
    if any (λ s. s.token_hash =s n.token_hash) t.sessions then (err duplicate, t) else (
      ok t.next_session,
      record t { sessions = t.sessions ++ new_row n t ∷ []; next_session = suc t.next_session },
    )

unfoldable pub revoke_session : String → ℕ → Tables → Tables
revoke_session hash now t = record t {
  sessions =
      update_where (λ s. s.token_hash =s hash) (λ s. record s { revoked_at = some now }) t.sessions;
}

unfoldable pub create : NewSession → M ℕ
create n = exec (insert_session n)

unfoldable pub create_with_tx : NewSession → M ℕ
create_with_tx n = exec (insert_session n)

unfoldable pub get_by_token_hash_for_update : String → M (Option Session)
get_by_token_hash_for_update hash = query (λ t. session_of t hash)

unfoldable pub revoke_with_tx : String → ℕ → M (Unit {0})
revoke_with_tx hash now = exec (λ t. (ok tt, revoke_session hash now t))

-- The function runs in a transaction, which its error rolls back; a commit that MySQL does not do
-- ends the transaction in the same way.
unfoldable pub with_tx : {A : Type 0} → M A → M A
with_tx fn = do begin_tx; defer rollback do a ← fn; commit; pure a
