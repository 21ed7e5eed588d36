-- ===== src/Api/Teams.antt =====
-- internal/api/teams.go: the methods of `TeamHandler`.
use mkk_luna.Prelude.{ℕ, String, ◌||◌, Option, none, some, map, ◌=s◌, if◌then◌else◌}
use mkk_luna.Text.{is_blank, trim_space}
use mkk_luna.Http.{Body, json, failure}
use mkk_luna.Task.Fields.{role_admin, role_member}
use mkk_luna.Team.Service.{TeamService, create_team, list_teams, invite_by_email}
use mkk_luna.Api.Helpers.{with_user, or_invalid, parse_id, serve}
use mkk_luna.Api.{Handler, answer, attempt}

-- The name of the decoded request, trimmed; none for an error or a blank name.
abbrev pub requested_name : Option String → Option String
requested_name none = none
requested_name (some name) = if is_blank name then none else some (trim_space name)

unfoldable pub create : Option ℕ → Option String → Handler
unfolding with_user
create user decoded = with_user user λ user_id.
    or_invalid (requested_name decoded)
      λ name. serve (create_team user_id name) λ team_id. answer (json 201 (Body.created team_id))

-- Every error of `ListTeams` is answered in the same way.
unfoldable pub list : Option ℕ → Handler
unfolding with_user
list user = with_user user λ user_id.
    attempt (list_teams user_id) (λ e. answer (failure 500 "internal error"))
      λ items. answer (json 200 (Body.teams (map (λ t. (t.id, t.name)) items)))

pub record InviteRequest : Type 0 where
  pub email : String
  pub role : String

abbrev pub invite_email : InviteRequest → Option String
invite_email req = if is_blank req.email then none else some (trim_space req.email)

abbrev pub known_role : String → Option String
known_role role = if role =s role_member || role =s role_admin then some role else none

-- The role that is asked for, a member's if there is none.
abbrev pub invite_role : InviteRequest → Option String
invite_role req = if is_blank req.role then some role_member else known_role (trim_space req.role)

unfoldable pub invite : TeamService → Option ℕ → String → Option InviteRequest → Handler
unfolding with_user parse_id
invite s user id decoded = with_user user λ user_id. or_invalid (parse_id id) λ team_id.
    or_invalid decoded λ req. or_invalid (invite_email req) λ email.
      or_invalid (invite_role req) λ role.
        serve (invite_by_email s user_id team_id email role) λ _. answer (json 200 Body.status_ok)
