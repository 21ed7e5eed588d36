-- ===== src/Team/Service.antt =====
-- internal/service/team.go: the methods of `TeamService`.
use mkk_luna.Prelude.{ℕ, String, Bool, true, false, ◌||◌, not, List, ◌=s◌, if◌then◌else◌}
use mkk_luna.Schema.{Team, User}
use mkk_luna.World.{
  M, Error, duplicate, conflict, unavailable, not_found, forbidden, Grant, granted, busy,
  unreachable, unheard, pure, raise, or_fail, guard, defer, begin_tx, commit, rollback, acquire,
  release, send, map_error, ◌>>=◌, ◌>>◌,
}
use mkk_luna.Repository.Users
use mkk_luna.Repository.Teams
use mkk_luna.Repository.Members
use mkk_luna.Task.Fields.{role_owner, role_admin, role_member}

-- Which of the fields `locker` and `email` are set.
pub record TeamService : Type 0 where
  pub has_locker : Bool
  pub has_email : Bool

unfoldable pub create_team : ℕ → String → M ℕ
create_team user_id name = do
  begin_tx
  defer rollback do
    team_id ← Teams.create_tx name user_id
    Members.add_tx team_id user_id role_owner
    commit
    pure team_id

unfoldable pub list_teams : ℕ → M (List Team)
list_teams user_id = Teams.list_by_user user_id

unfoldable pub ensure_member_role : ℕ → ℕ → M String
ensure_member_role team_id user_id = do
  found ← Teams.get_by_id team_id
  team ← or_fail found not_found
  has_role ← Members.get_role team_id user_id
  or_fail has_role forbidden

unfoldable pub can_invite : String → String → Bool
can_invite inviter_role target_role =
    if inviter_role =s role_owner
    then target_role =s role_member || target_role =s role_admin
    else if inviter_role =s role_admin
    then target_role =s role_member
    else false

abbrev pub is_duplicate : Error → Bool
is_duplicate duplicate = true
is_duplicate _ = false

abbrev pub conflict_if_duplicate : Error → Error
conflict_if_duplicate e = if is_duplicate e then conflict else e

-- Up to the look-up of the user by email.
unfoldable pub admit_invite : ℕ → ℕ → String → String → M (Team × User)
unfolding can_invite
admit_invite inviter_id team_id email role = do
  found ← Teams.get_by_id team_id
  team ← or_fail found not_found
  has_role ← Members.get_role team_id inviter_id
  inviter_role ← or_fail has_role forbidden
  guard (can_invite inviter_role role) forbidden
  known ← Users.get_by_email email
  user ← or_fail known not_found
  pure (team, user)

-- The lock, its bypass when the lock service fails, and the deferred release.
abbrev pub locked : {A : Type 0} → ℕ × ℕ → M A → Grant → M A
locked key m (granted token) = defer (release key token) m
locked key m busy = raise conflict
locked key m unreachable = m
-- `Acquire` hands out no such answer.
locked key m (unheard token) = m

unfoldable pub with_lock : {A : Type 0} → Bool → ℕ × ℕ → M A → M A
with_lock false key m = m
with_lock true key m = acquire key >>= locked key m

unfoldable pub send_invite : Bool → String → String → M (Unit {0})
send_invite false email name = pure tt
send_invite true email name = map_error (λ _. unavailable) (send email name)

unfoldable pub add_invited : TeamService → ℕ → Team → User → String → String → M (Unit {0})
unfolding send_invite
add_invited s team_id team user email role = do
  is_in ← Members.is_member team_id user.id
  guard (not is_in) conflict
  send_invite s.has_email email team.name
  map_error conflict_if_duplicate (Members.add team_id user.id role)

unfoldable pub invite_by_email : TeamService → ℕ → ℕ → String → String → M (Unit {0})
unfolding admit_invite with_lock add_invited
invite_by_email s inviter_id team_id email role = do
  (team, user) ← admit_invite inviter_id team_id email role
  with_lock s.has_locker (team_id, user.id) (add_invited s team_id team user email role)
