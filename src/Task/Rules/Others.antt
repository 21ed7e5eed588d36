-- ===== src/Task/Rules/Others.antt =====
-- How `CreateTask` and the methods on comments end.
use mkk_luna.Prelude.{ℕ, ◌≡◌, refl, Bool, true, String, some}
use mkk_luna.Schema.{Team, Task, TaskComment, Tables}
use mkk_luna.World.{
  World, M, Error, Result, ok, err, external, forbidden, bad_request, at, guard, ◌>>◌,
}
use mkk_luna.World.Rules.{exec_rule, guard_rule, Then}
use mkk_luna.Repository.Tasks
use mkk_luna.Repository.Tasks.{task_of, insert_task}
use mkk_luna.Repository.Teams.{team_of}
use mkk_luna.Repository.Members.{role_of, is_in_team}
use mkk_luna.Repository.Comments
use mkk_luna.Repository.Comments.{comment_of, insert_comment, write_comment, remove_comment}
use mkk_luna.Task.Fields.{is_valid_status, is_valid_priority}
use mkk_luna.Task.Patch.{check_assignee}
use mkk_luna.Task.Patch.Rules.{IsAssignable, check_assignee-bind}
use mkk_luna.Task.Access.Rules.{team_as_member_rule, task_as_member_rule, comment_with_role_rule}
use mkk_luna.Task.Service.{
  CreateTaskInput, or_default, new_task, create_task, create_comment, may_edit, update_comment,
  delete_comment,
}

-- What `CreateTask` has checked when it writes.
abbrev pub IsCreatable : Tables → ℕ → CreateTaskInput → Type 0
IsCreatable t user_id input =
    (team : Team) × (team_of t input.team_id ≡ some team)
    × (is_in_team t input.team_id user_id ≡ true)
    × (is_valid_status (or_default input.status "todo") ≡ true)
    × (is_valid_priority (or_default input.priority "medium") ≡ true)
    × IsAssignable t input.team_id input.assignee_id

-- The comment, and the right of the caller to edit it.
abbrev pub IsEditable : Tables → ℕ → ℕ → Type 0
IsEditable t user_id comment_id =
    (comment : TaskComment) × (task : Task) × (role : String) × (comment_of t comment_id
      ≡ some comment)
    × (task_of t comment.task_id ≡ some task)
    × (role_of t task.team_id user_id ≡ some role)
    × (may_edit user_id comment role ≡ true)

module _ (P : Result ℕ × World → Type 0) (w : World) (user_id : ℕ) where
  pub create_task_rule :
      (input : CreateTaskInput)
      → ((e : Error) (w' : World) → w'.tables ≡ w.tables → P (err e, w'))
      → (IsCreatable w.tables user_id input
          → (w' : World) → w'.tables ≡ (insert_task (new_task user_id input) w.tables).1
          → P (err external, w') × P (ok w.tables.next_task, w'))
      → P (create_task user_id input w)
  unfolding create_task Tasks.create insert_task
  create_task_rule input refused answered =
      team_as_member_rule (Then _ P) user_id input.team_id w (λ n. refused _ _ refl)
        (λ _ n. refused _ _ refl) (λ _ n. refused _ _ refl)
        (λ team found is_in n.
          guard_rule P (is_valid_status (or_default input.status "todo")) bad_request
            (guard good_priority bad_request >> assign) (at w n) (λ _. refused _ _ refl)
            (λ status.
              guard_rule P good_priority bad_request assign (at w n) (λ _. refused _ _ refl)
                (λ priority.
                  check_assignee-bind P input.team_id input.assignee_id (λ _. write) (at w n)
                    (λ e _ k. refused e _ refl)
                    (λ assignable k.
                      let done = answered (team, found, is_in, status, priority, assignable) in
                      exec_rule P _ (at w k) (refused _ _ refl) (done _ refl).0 (done _ refl).1))))
    where
      good_priority : Bool
      good_priority = is_valid_priority (or_default input.priority "medium")

      write : M ℕ
      write = Tasks.create (new_task user_id input)

      assign : M ℕ
      assign = check_assignee input.team_id input.assignee_id >> write

  pub create_comment_rule :
      (task_id : ℕ) (body : String)
      → ((e : Error) (w' : World) → w'.tables ≡ w.tables → P (err e, w'))
      → ((task : Task)
          → task_of w.tables task_id ≡ some task
          → is_in_team w.tables task.team_id user_id ≡ true
          → (w' : World) → w'.tables ≡ (insert_comment task_id user_id body w.tables).1
          → P (err external, w') × P (ok w.tables.next_comment, w'))
      → P (create_comment user_id task_id body w)
  unfolding create_comment Comments.create insert_comment
  create_comment_rule task_id body refused answered =
      task_as_member_rule (Then (λ _. Comments.create task_id user_id body) P) user_id task_id w
        (λ n. refused _ _ refl) (λ _ n. refused _ _ refl) (λ _ _ _ n. refused _ _ refl)
        (λ task found is_in n.
          let done = answered task found is_in in
          exec_rule P _ (at w n) (refused _ _ refl) (done _ refl).0 (done _ refl).1)

module _ (P : Result (Unit {0}) × World → Type 0) (w : World) (user_id comment_id : ℕ) where
  pub update_comment_rule :
      (body : String)
      → ((e : Error) (w' : World) → w'.tables ≡ w.tables → P (err e, w'))
      → (IsEditable w.tables user_id comment_id
          → (w' : World) → w'.tables ≡ write_comment comment_id body w.tables
          → P (err external, w') × P (ok tt, w'))
      → P (update_comment user_id comment_id body w)
  unfolding update_comment Comments.update
  update_comment_rule body refused answered =
      comment_with_role_rule (Then edit P) user_id comment_id w (λ n. refused _ _ refl)
        (λ _ n. refused _ _ refl) (λ _ _ _ n. refused _ _ refl) (λ _ _ _ _ _ n. refused _ _ refl)
        (λ comment task role found on has n.
          guard_rule P (may_edit user_id comment role) forbidden (Comments.update comment_id body)
            (at w n) (λ _. refused _ _ refl)
            (λ may.
              let done = answered (comment, task, role, found, on, has, may) in
              exec_rule P _ (at w n) (refused _ _ refl) (done _ refl).0 (done _ refl).1))
    where
      edit : TaskComment × String → M (Unit {0})
      edit (comment, role) =
          guard (may_edit user_id comment role) forbidden >> Comments.update comment_id body

  pub delete_comment_rule :
      ((e : Error) (w' : World) → w'.tables ≡ w.tables → P (err e, w'))
      → (IsEditable w.tables user_id comment_id
          → (w' : World) → w'.tables ≡ remove_comment comment_id w.tables
          → P (err external, w') × P (ok tt, w'))
      → P (delete_comment user_id comment_id w)
  unfolding delete_comment Comments.delete
  delete_comment_rule refused answered =
      comment_with_role_rule (Then edit P) user_id comment_id w (λ n. refused _ _ refl)
        (λ _ n. refused _ _ refl) (λ _ _ _ n. refused _ _ refl) (λ _ _ _ _ _ n. refused _ _ refl)
        (λ comment task role found on has n.
          guard_rule P (may_edit user_id comment role) forbidden (Comments.delete comment_id)
            (at w n) (λ _. refused _ _ refl)
            (λ may.
              let done = answered (comment, task, role, found, on, has, may) in
              exec_rule P _ (at w n) (refused _ _ refl) (done _ refl).0 (done _ refl).1))
    where
      edit : TaskComment × String → M (Unit {0})
      edit (comment, role) =
          guard (may_edit user_id comment role) forbidden >> Comments.delete comment_id
