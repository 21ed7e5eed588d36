-- ===== src/Task/Access.antt =====
-- internal/service/task.go: the steps with which the methods begin, which fetch the team or the task
-- and the caller's place in the team.
pub mod Rules
use mkk_luna.Prelude.{ℕ, String, Option}
use mkk_luna.Schema.{Team, Task, TaskComment}
use mkk_luna.World.{M, not_found, forbidden, pure, or_fail, guard, ◌>>=◌, ◌>>◌}
use mkk_luna.Repository.Teams
use mkk_luna.Repository.Members
use mkk_luna.Repository.Tasks
use mkk_luna.Repository.Comments

-- `CreateTask` and `ListTasks`.
unfoldable pub team_as_member : ℕ → ℕ → M Team
team_as_member user_id team_id = do
  found ← Teams.get_by_id team_id
  team ← or_fail found not_found
  is_in ← Members.is_member team_id user_id
  guard is_in forbidden
  pure team

-- `GetTask`, `CreateComment`, `ListComments` and `GetTaskHistory`.
unfoldable pub task_as_member : ℕ → ℕ → M Task
task_as_member user_id task_id = do
  found ← Tasks.get_by_id task_id
  task ← or_fail found not_found
  is_in ← Members.is_member task.team_id user_id
  guard is_in forbidden
  pure task

-- The task with the caller's role in its team: `UpdateTask`, `DeleteTask` and the comment methods.
unfoldable pub task_with_role : M (Option Task) → ℕ → M (Task × String)
task_with_role fetch user_id = do
  found ← fetch
  task ← or_fail found not_found
  has_role ← Members.get_role task.team_id user_id
  role ← or_fail has_role forbidden
  pure (task, role)

-- `UpdateComment` and `DeleteComment`.
unfoldable pub comment_with_role : ℕ → ℕ → M (TaskComment × String)
unfolding task_with_role
comment_with_role user_id comment_id = do
  found ← Comments.get_by_id comment_id
  comment ← or_fail found not_found
  (task, role) ← task_with_role (Tasks.get_by_id comment.task_id) user_id
  pure (comment, role)
