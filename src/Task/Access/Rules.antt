-- ===== src/Task/Access/Rules.antt =====
-- How each of the steps of Task/Access.antt ends, and what then follows. None of them changes
-- anything but the count of calls.
use mkk_luna.Prelude.{ℕ, ◌≡◌, true, false, String, none, some}
use mkk_luna.Schema.{Team, Task, TaskComment}
use mkk_luna.World.{World, Result, ok, err, not_found, forbidden, external, at, query}
use mkk_luna.World.Rules.{query-bind, or_fail-bind, guard_rule, Then}
use mkk_luna.Repository.Teams
use mkk_luna.Repository.Members
use mkk_luna.Repository.Tasks
use mkk_luna.Repository.Comments
use mkk_luna.Repository.Teams.{team_of}
use mkk_luna.Repository.Members.{role_of, is_in_team}
use mkk_luna.Repository.Tasks.{task_of}
use mkk_luna.Repository.Comments.{comment_of}
use mkk_luna.Task.Access.{team_as_member, task_as_member, task_with_role, comment_with_role}

pub team_as_member_rule :
    (P : Result Team × World → Type 0) (user_id team_id : ℕ) (w : World)
    → ((n : ℕ) → P (err external, at w n))
    → (team_of w.tables team_id ≡ none → (n : ℕ) → P (err not_found, at w n))
    → (is_in_team w.tables team_id user_id ≡ false → (n : ℕ) → P (err forbidden, at w n))
    → ((team : Team)
        → team_of w.tables team_id ≡ some team
        → is_in_team w.tables team_id user_id ≡ true
        → (n : ℕ) → P (ok team, at w n))
    → P (team_as_member user_id team_id w)
unfolding team_as_member Teams.get_by_id Members.is_member
team_as_member_rule P user_id team_id w broken missing foreign found =
    query-bind P _ _ w (broken _) (
      or_fail-bind P _ _ _ _ (λ e. missing e _)
        (λ team e.
          query-bind P _ _ _ (broken _)
            (guard_rule P _ _ _ _ (λ out. foreign out _) (λ is_in. found team e is_in _))))

pub task_as_member_rule :
    (P : Result Task × World → Type 0) (user_id task_id : ℕ) (w : World)
    → ((n : ℕ) → P (err external, at w n))
    → (task_of w.tables task_id ≡ none → (n : ℕ) → P (err not_found, at w n))
    → ((task : Task)
        → task_of w.tables task_id ≡ some task
        → is_in_team w.tables task.team_id user_id ≡ false
        → (n : ℕ) → P (err forbidden, at w n))
    → ((task : Task)
        → task_of w.tables task_id ≡ some task
        → is_in_team w.tables task.team_id user_id ≡ true
        → (n : ℕ) → P (ok task, at w n))
    → P (task_as_member user_id task_id w)
unfolding task_as_member Tasks.get_by_id Members.is_member
task_as_member_rule P user_id task_id w broken missing foreign found =
    query-bind P _ _ w (broken _) (
      or_fail-bind P _ _ _ _ (λ e. missing e _)
        (λ task e.
          query-bind P _ _ _ (broken _)
            (guard_rule P _ _ _ _ (λ out. foreign task e out _) (λ is_in. found task e is_in _))))

-- `fetch` is either of the two look-ups of a task.
pub task_with_role_rule :
    (P : Result (Task × String) × World → Type 0) (user_id task_id : ℕ) (w : World)
    → ((n : ℕ) → P (err external, at w n))
    → (task_of w.tables task_id ≡ none → (n : ℕ) → P (err not_found, at w n))
    → ((task : Task)
        → task_of w.tables task_id ≡ some task
        → role_of w.tables task.team_id user_id ≡ none
        → (n : ℕ) → P (err forbidden, at w n))
    → ((task : Task) (role : String)
        → task_of w.tables task_id ≡ some task
        → role_of w.tables task.team_id user_id ≡ some role
        → (n : ℕ) → P (ok (task, role), at w n))
    → P (task_with_role (query (λ t. task_of t task_id)) user_id w)
unfolding task_with_role Members.get_role
task_with_role_rule P user_id task_id w broken missing foreign found =
    query-bind P _ _ w (broken _) (
      or_fail-bind P _ _ _ _ (λ e. missing e _)
        (λ task e. query-bind P _ _ _ (broken _) (
          or_fail-bind P _ _ _ _ (λ out. foreign task e out _)
            (λ role has. found task role e has _))))

pub comment_with_role_rule :
    (P : Result (TaskComment × String) × World → Type 0) (user_id comment_id : ℕ) (w : World)
    → ((n : ℕ) → P (err external, at w n))
    → (comment_of w.tables comment_id ≡ none → (n : ℕ) → P (err not_found, at w n))
    → ((comment : TaskComment)
        → comment_of w.tables comment_id ≡ some comment
        → task_of w.tables comment.task_id ≡ none
        → (n : ℕ) → P (err not_found, at w n))
    → ((comment : TaskComment) (task : Task)
        → comment_of w.tables comment_id ≡ some comment
        → task_of w.tables comment.task_id ≡ some task
        → role_of w.tables task.team_id user_id ≡ none
        → (n : ℕ) → P (err forbidden, at w n))
    → ((comment : TaskComment) (task : Task) (role : String)
        → comment_of w.tables comment_id ≡ some comment
        → task_of w.tables comment.task_id ≡ some task
        → role_of w.tables task.team_id user_id ≡ some role
        → (n : ℕ) → P (ok (comment, role), at w n))
    → P (comment_with_role user_id comment_id w)
unfolding comment_with_role Comments.get_by_id Tasks.get_by_id
comment_with_role_rule P user_id comment_id w broken missing orphan foreign found =
    query-bind P _ _ w (broken _) (
      or_fail-bind P _ _ _ _ (λ e. missing e _)
        (λ comment e.
          task_with_role_rule (Then _ P) user_id comment.task_id _ broken (orphan comment e)
            (λ task e'. foreign comment task e e') (λ task role e'. found comment task role e e')))
