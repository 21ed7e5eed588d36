-- ===== src/Api/Honesty.antt =====
-- The handlers of internal/api that write: an answer that blames the client has written nothing.
use mkk_luna.Prelude.{ℕ, ◌≡◌, refl, inl, inr, String, true, false, Option, List}
use mkk_luna.Http.{Body, json}
use mkk_luna.World.{World, Result, ok, err}
use mkk_luna.Task.Patch.{RawMessage}
use mkk_luna.Task.Rules.Others.{create_comment_rule, update_comment_rule, delete_comment_rule}
use mkk_luna.Task.Service.{create_comment, update_comment, delete_comment}
use mkk_luna.Team.Service.{TeamService, create_team, invite_by_email}
use mkk_luna.Team.Laws.{IsInvited, create_team_atomic, invite_by_email-IsInvited}
use mkk_luna.Api.{answer}
use mkk_luna.Api.Helpers.{parse_id}
use mkk_luna.Api.Tasks as Tasks
use mkk_luna.Api.Tasks.{TaskHandler, CreateTaskRequest}
use mkk_luna.Api.Comments as Comments
use mkk_luna.Api.Comments.{comment_body}
use mkk_luna.Api.Teams as Teams
use mkk_luna.Api.Teams.{InviteRequest, requested_name, invite_email, invite_role}
use mkk_luna.Api.Tasks.Laws.{
  IsHonest, IsTidy, AllOrNothing-IsTidy, with_user-IsHonest, or_invalid-IsHonest, settled,
  task_handler-IsHonest,
}

no_blame : ¬ (false ≡ true)
no_blame h = cc

module _ (w : World) (user : Option ℕ) where
  comments-IsHonest :
      (id : String) (decoded : Option String)
      → IsHonest w.tables (Comments.create user id decoded w)
        × (IsHonest w.tables (Comments.update user id decoded w)
            × IsHonest w.tables (Comments.delete user id w))
  unfolding Comments.create Comments.update Comments.delete
  comments-IsHonest id decoded = (
    with_user-IsHonest w.tables user _ w refl λ user_id.
        or_invalid-IsHonest w.tables (parse_id id) _ w refl λ task_id.
          or_invalid-IsHonest w.tables (comment_body decoded) _ w refl λ body.
            settled w.tables (create_comment user_id task_id body w)
              (λ comment_id. answer (json 201 (Body.created comment_id)))
              (create_comment_rule (IsTidy w.tables) w user_id task_id body (λ e w' same. inl same)
                (λ task found is_in w' written. (inr refl, tt)))
              (λ a v h. no_blame h),
    (
      with_user-IsHonest w.tables user _ w refl λ user_id.
          or_invalid-IsHonest w.tables (parse_id id) _ w refl λ comment_id.
            or_invalid-IsHonest w.tables (comment_body decoded) _ w refl λ body.
              settled w.tables (update_comment user_id comment_id body w)
                (λ u. answer (json 200 Body.status_ok))
                (update_comment_rule (IsTidy w.tables) w user_id comment_id body
                  (λ e w' same. inl same) (λ may w' written. (inr refl, tt)))
                (λ a v h. no_blame h),
      with_user-IsHonest w.tables user _ w refl λ user_id.
          or_invalid-IsHonest w.tables (parse_id id) _ w refl λ comment_id.
            settled w.tables (delete_comment user_id comment_id w)
              (λ u. answer (json 200 Body.status_ok))
              (delete_comment_rule (IsTidy w.tables) w user_id comment_id (λ e w' same. inl same)
                (λ may w' written. (inr refl, tt)))
              (λ a v h. no_blame h),
    ),
  )

  create_team-IsHonest : (decoded : Option String) → IsHonest w.tables (Teams.create user decoded w)
  unfolding Teams.create
  create_team-IsHonest decoded = with_user-IsHonest w.tables user _ w refl λ user_id.
      or_invalid-IsHonest w.tables (requested_name decoded) _ w refl λ name.
        settled w.tables (create_team user_id name w)
          (λ team_id. answer (json 201 (Body.created team_id)))
          (AllOrNothing-IsTidy w.tables _ _ (create_team_atomic w user_id name))
          (λ a v h. no_blame h)

  invited-IsTidy :
      (s : TeamService) (user_id team_id : ℕ) (email role : String) (o : Result (Unit {0}) × World)
      → IsInvited w s user_id team_id email role o
      → IsTidy w.tables o
  invited-IsTidy s user_id team_id email role (ok u, w') h = tt
  invited-IsTidy s user_id team_id email role (err e, w') (inl (same, _)) = inl same
  invited-IsTidy s user_id team_id email role (err e, w') (inr (_, _, _, _, inl (same, _))) =
      inl same
  invited-IsTidy s user_id team_id email role (err e, w') (inr (_, _, _, _, inr (broken, _, _))) =
      inr broken

  invite-IsHonest :
      (s : TeamService) (id : String) (decoded : Option InviteRequest)
      → IsHonest w.tables (Teams.invite s user id decoded w)
  unfolding Teams.invite
  invite-IsHonest s id decoded = with_user-IsHonest w.tables user _ w refl λ user_id.
      or_invalid-IsHonest w.tables (parse_id id) _ w refl λ team_id.
        or_invalid-IsHonest w.tables decoded _ w refl λ req.
          or_invalid-IsHonest w.tables (invite_email req) _ w refl λ email.
            or_invalid-IsHonest w.tables (invite_role req) _ w refl λ role.
              settled w.tables (invite_by_email s user_id team_id email role w)
                (λ u. answer (json 200 Body.status_ok))
                (invited-IsTidy s user_id team_id email role _
                  (invite_by_email-IsInvited s w user_id team_id email role))
                (λ a v h. no_blame h)

  -- Whatever the cache, Redis, the lock, the mail service and MySQL do: when a handler that creates, changes
  -- or deletes a task or a comment, creates a team or invites to one answers with a status from 400 to 499,
  -- all tables are as they were.
  pub handlers-IsHonest :
      (h : TaskHandler) (s : TeamService) (task : Option CreateTaskRequest) (id : String)
      (raw : Option (List (String × RawMessage))) (body name : Option String)
      (invitation : Option InviteRequest)
      → (IsHonest w.tables (Tasks.create h user task w)
          × (IsHonest w.tables (Tasks.update h user id raw w)
              × IsHonest w.tables (Tasks.delete h user id w)))
        × ((IsHonest w.tables (Comments.create user id body w)
              × (IsHonest w.tables (Comments.update user id body w)
                  × IsHonest w.tables (Comments.delete user id w)))
            × (IsHonest w.tables (Teams.create user name w)
                × IsHonest w.tables (Teams.invite s user id invitation w)))
  handlers-IsHonest h s task id raw body name invitation = (
    task_handler-IsHonest h w user task id raw,
    (comments-IsHonest id body, (create_team-IsHonest name, invite-IsHonest s id invitation)),
  )
