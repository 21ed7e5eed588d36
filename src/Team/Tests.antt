-- ===== src/Team/Tests.antt =====
-- Runs of the team service on the sample state, and the theorems at them.
use mkk_luna.Prelude.{ℕ, ◌≡◌, ◌≢◌, refl, true, [], String}
use mkk_luna.World.{
  works, fails, ok, err, conflict, forbidden, not_found, query, exec, begin_tx, commit, rollback,
  acquire, release, run_release, send, granted, unheard,
}
use mkk_luna.Prelude.{find, delete_where}
use mkk_luna.Repository.Users
use mkk_luna.Repository.Teams
use mkk_luna.Repository.Teams.{team_of}
use mkk_luna.Repository.Members
use mkk_luna.Repository.Members.{role_of, is_in_team, insert_member}
use mkk_luna.Samples.{ann, bob, world}
use mkk_luna.Task.Atomicity.{AllOrNothing}
use mkk_luna.Team.Service.{
  TeamService, create_team, can_invite, with_lock, admit_invite, invite_by_email,
}
use mkk_luna.Team.Laws.{
  IsInvited, IsTeamCreated, invite_by_email-IsInvited, invite_by_email_unlocks, create_team_atomic,
}
use mkk_luna.Prelude.{arith}
use mkk_luna.Team.Owners.{IsSound, create_team-IsSound, invite_by_email-IsSound}

abbrev full : TeamService
full = record { has_locker = true; has_email = true }

-- What the runs compute with.
run : Unit {0}
unfolding invite_by_email admit_invite with_lock can_invite create_team query exec begin_tx commit
    rollback acquire release run_release send find delete_where role_of is_in_team insert_member
    Members.add Members.get_role Members.is_member Teams.get_by_id Users.get_by_email team_of
run = tt

invite_by_email_tests :
    ((invite_by_email full ann 1 "eve" "member" world).0 ≡ ok tt)
    × ((invite_by_email full ann 1 "bob" "member" world).0 ≡ err conflict)
    × ((invite_by_email full ann 1 "zoe" "member" world).0 ≡ err not_found)
    × ((invite_by_email full bob 1 "eve" "member" world).0 ≡ err forbidden)
unfolding run
invite_by_email_tests = (refl, refl, refl, refl)

invite_by_email-IsInvited_example :
    IsInvited world full ann 1 "eve" "member" (invite_by_email full ann 1 "eve" "member" world)
invite_by_email-IsInvited_example = invite_by_email-IsInvited full world ann 1 "eve" "member"

works-fails : (n : ℕ) → works ≢ fails
works-fails n h = cc

marked : (n : ℕ) (token : String) → granted "token" ≡ granted token → token ≢ ""
marked n token e = λ h. cc

known : (n : ℕ) (token : String) → granted "token" ≢ unheard token
known n token h = cc

invite_by_email_unlocks_example : (invite_by_email full ann 1 "eve" "member" world).1.locks ≡ []
invite_by_email_unlocks_example =
    invite_by_email_unlocks full world ann 1 "eve" "member" refl marked known works-fails

create_team_atomic_example :
    AllOrNothing world.tables (IsTeamCreated world.tables bob "ops") (create_team bob "ops" world)
create_team_atomic_example = create_team_atomic world bob "ops"

tables-IsSound : IsSound world.tables
unfolding run
tables-IsSound = ((omega arith, (omega arith, tt)), (omega arith, tt), ((ann, refl), tt))

create_team-IsSound_example : IsSound (create_team bob "ops" world).1.tables
create_team-IsSound_example = create_team-IsSound world bob "ops" tables-IsSound

invite_by_email-IsSound_example : IsSound (invite_by_email full ann 1 "eve" "member" world).1.tables
invite_by_email-IsSound_example =
    invite_by_email-IsSound full world ann 1 "eve" "member" tables-IsSound
