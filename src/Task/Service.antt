-- ===== src/Task/Service.antt =====
-- internal/service/task.go: the methods of `TaskService`.
use mkk_luna.Prelude.{
  ℕ, String, Bool, ◌&&◌, ◌||◌, Option, none, some, List, [], ◌∷◌, all, ◌==◌, ◌=s◌, if◌then◌else◌,
}
use mkk_luna.Text.{is_blank}
use mkk_luna.Schema.{Task, TaskComment, TaskHistory, TaskHistoryCreate}
use mkk_luna.World.{
  M, forbidden, bad_request, pure, guard, defer, begin_tx, commit, rollback, ◌>>=◌, ◌>>◌,
}
use mkk_luna.Repository.Tasks
use mkk_luna.Repository.Tasks.{NewTask, TaskListFilter, Change}
use mkk_luna.Repository.Comments
use mkk_luna.Repository.History
use mkk_luna.Task.Fields.{is_manager, allowed_task_fields, is_valid_status, is_valid_priority}
use mkk_luna.Task.Patch.{RawMessage, check_assignee, parse_task_patch}
use mkk_luna.Task.Diff.{key, build_task_diff_entries, task_delete_snapshot}
use mkk_luna.Task.Access.{team_as_member, task_as_member, task_with_role, comment_with_role}

-- Which of the fields `db` and `history` are set.
pub record TaskService : Type 0 where
  pub has_db : Bool
  pub has_history : Bool

pub record CreateTaskInput : Type 0 where
  pub team_id : ℕ
  pub title : String
  pub description : String
  pub status : String
  pub priority : String
  pub assignee_id : Option ℕ
  pub due_date : Option ℕ

-- `if v == "" { v = default }`.
abbrev pub or_default : String → String → String
or_default v default = if v =s "" then default else v

unfoldable pub new_task : ℕ → CreateTaskInput → NewTask
new_task user_id input = record {
  team_id = input.team_id;
  title = input.title;
  description = if is_blank input.description then none else some input.description;
  status = or_default input.status "todo";
  priority = or_default input.priority "medium";
  assignee_id = input.assignee_id;
  created_by = some user_id;
  due_date = input.due_date;
}

unfoldable pub create_task : ℕ → CreateTaskInput → M ℕ
unfolding new_task
create_task user_id input = do
  team_as_member user_id input.team_id
  guard (is_valid_status (or_default input.status "todo")) bad_request
  guard (is_valid_priority (or_default input.priority "medium")) bad_request
  check_assignee input.team_id input.assignee_id
  Tasks.create (new_task user_id input)

unfoldable pub get_task : ℕ → ℕ → M Task
get_task user_id task_id = task_as_member user_id task_id

unfoldable pub list_tasks : ℕ → TaskListFilter → M (List Task × ℕ)
list_tasks user_id input = do team_as_member user_id input.team_id; Tasks.list input

-- `UpdateTask` from the fetch to the loop over the keys of `parsed`.
unfoldable pub parse_update :
    M (Option Task) → ℕ → List (String × RawMessage) → M (Task × List Change)
parse_update fetch user_id raw = do
  (task, role) ← task_with_role fetch user_id
  parsed ← parse_task_patch task.team_id raw
  guard (all (λ c. allowed_task_fields role (key c)) parsed) forbidden
  pure (task, parsed)

unfoldable pub write_update_tx : ℕ → Task → List Change × List TaskHistoryCreate → M ℕ
write_update_tx task_id task ([], entries) = pure task.team_id
write_update_tx task_id task (c ∷ updates, entries) = do
  Tasks.update_tx task_id (c ∷ updates)
  History.create_batch_tx entries
  commit
  pure task.team_id

unfoldable pub update_task_tx : ℕ → ℕ → List (String × RawMessage) → M ℕ
unfolding parse_update write_update_tx
update_task_tx user_id task_id raw = do
  begin_tx
  defer rollback do
    (task, parsed) ← parse_update (Tasks.get_by_id_for_update_tx task_id) user_id raw
    write_update_tx task_id task (build_task_diff_entries task user_id parsed)

unfoldable pub write_update : ℕ → Task → List Change → M ℕ
write_update task_id task [] = pure task.team_id
write_update task_id task (c ∷ updates) = do Tasks.update task_id (c ∷ updates); pure task.team_id

unfoldable pub update_task_no_tx : ℕ → ℕ → List (String × RawMessage) → M ℕ
unfolding parse_update write_update
update_task_no_tx user_id task_id raw = do
  (task, parsed) ← parse_update (Tasks.get_by_id task_id) user_id raw
  write_update task_id task (build_task_diff_entries task user_id parsed).0

unfoldable pub update_task : TaskService → ℕ → ℕ → List (String × RawMessage) → M ℕ
unfolding update_task_tx update_task_no_tx
update_task s user_id task_id raw =
    if s.has_db && s.has_history
    then update_task_tx user_id task_id raw
    else update_task_no_tx user_id task_id raw

unfoldable pub deletion_entry : ℕ → Task → TaskHistoryCreate
deletion_entry user_id task = record {
  task_id = task.id;
  changed_by = some user_id;
  field_name = "task_deleted";
  old_value = some (task_delete_snapshot task);
  new_value = none;
}

unfoldable pub delete_task_tx : ℕ → ℕ → M ℕ
unfolding deletion_entry
delete_task_tx user_id task_id = do
  begin_tx
  defer rollback do
    (task, role) ← task_with_role (Tasks.get_by_id_for_update_tx task_id) user_id
    guard (is_manager role) forbidden
    History.create_batch_tx (deletion_entry user_id task ∷ [])
    Tasks.delete_tx task_id
    commit
    pure task.team_id

unfoldable pub delete_task_no_tx : ℕ → ℕ → M ℕ
delete_task_no_tx user_id task_id = do
  (task, role) ← task_with_role (Tasks.get_by_id task_id) user_id
  guard (is_manager role) forbidden
  Tasks.delete task_id
  pure task.team_id

unfoldable pub delete_task : TaskService → ℕ → ℕ → M ℕ
unfolding delete_task_tx delete_task_no_tx
delete_task s user_id task_id =
    if s.has_db && s.has_history
    then delete_task_tx user_id task_id
    else delete_task_no_tx user_id task_id

unfoldable pub create_comment : ℕ → ℕ → String → M ℕ
create_comment user_id task_id body = do
  task_as_member user_id task_id
  Comments.create task_id user_id body

unfoldable pub list_comments : ℕ → ℕ → M (List TaskComment)
list_comments user_id task_id = do task_as_member user_id task_id; Comments.list_by_task task_id

-- `!(comment.UserID != userID && role != RoleOwner && role != RoleAdmin)`.
unfoldable pub may_edit : ℕ → TaskComment → String → Bool
may_edit user_id comment role = comment.user_id == user_id || is_manager role

unfoldable pub update_comment : ℕ → ℕ → String → M (Unit {0})
unfolding may_edit
update_comment user_id comment_id body = do
  (comment, role) ← comment_with_role user_id comment_id
  guard (may_edit user_id comment role) forbidden
  Comments.update comment_id body

unfoldable pub delete_comment : ℕ → ℕ → M (Unit {0})
unfolding may_edit
delete_comment user_id comment_id = do
  (comment, role) ← comment_with_role user_id comment_id
  guard (may_edit user_id comment role) forbidden
  Comments.delete comment_id

unfoldable pub get_task_history : TaskService → ℕ → ℕ → ℕ → ℕ → M (List TaskHistory × ℕ)
get_task_history s user_id task_id limit offset = do
  guard s.has_history bad_request
  task_as_member user_id task_id
  History.list_by_task task_id limit offset
