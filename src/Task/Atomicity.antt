-- ===== src/Task/Atomicity.antt =====
-- The writing methods of the task service are all or nothing, and write only what the caller may.
use mkk_luna.Prelude.{
  ℕ, suc, ◌≡◌, refl, ap, ◌∙◌, Bool, true, false, ◌&&◌, not, String, none, some, List, [], ◌∷◌, ◌++◌,
  ◌⊎◌, inl, inr, ◌==◌, ==_iff, ◌=s◌, eq_iff, map, select, update_where, delete_where, Bool-cases,
  arith, if◌then◌else◌,
}
use mkk_luna.Text.{is_blank}
use mkk_luna.Task.Fields.{is_manager}
use mkk_luna.Repository.Members.{role_of}
use mkk_luna.Schema.{Task, TaskComment, Tables}
use mkk_luna.World.{World, Result, ok, err, external}
use mkk_luna.Repository.Tasks.{Change, task_of, insert_task}
use mkk_luna.Repository.Comments.{comment_of, write_comment, remove_comment}
use mkk_luna.Task.Patch.{RawMessage}
use mkk_luna.Task.Diff.{build_task_diff_entries}
use mkk_luna.Task.Rules.Update.{
  IsGranted, write_all, write_row, update_task_tx_rule, update_task_no_tx_rule,
}
use mkk_luna.Task.Rules.Delete.{IsDeletable, erase_all, delete_task_tx_rule}
use mkk_luna.Task.Rules.Others.{
  IsCreatable, IsEditable, create_task_rule, update_comment_rule, delete_comment_rule,
}
use mkk_luna.Task.Service.{
  TaskService, CreateTaskInput, new_task, may_edit, create_task, update_task, delete_task,
  update_comment, delete_comment,
}

-- A success has written what `Done` says. A failure has written nothing, or the database lost the
-- answer to a write that `Done` describes.
abbrev pub AllOrNothing : {A : Type 0} → Tables → (A → Tables → Type 0) → Result A × World → Type 0
AllOrNothing t Done (ok a, w') = Done a w'.tables
AllOrNothing {A} t Done (err e, w') =
    (w'.tables ≡ t) ⊎ ((e ≡ external) × ((a : A) × Done a w'.tables))

-- The update of a task in a transaction: columns and history together.
abbrev pub IsUpdated : Tables → ℕ → ℕ → List (String × RawMessage) → ℕ → Tables → Type 0
IsUpdated t user_id task_id raw team_id t' =
    (task : Task) × (cs : List Change) × IsGranted t user_id task_id raw task cs
    × (team_id ≡ task.team_id)
    × (t' ≡ write_all task_id (build_task_diff_entries task user_id cs) t)

-- Without a transaction the history is not written.
abbrev pub IsRewritten : Tables → ℕ → ℕ → List (String × RawMessage) → ℕ → Tables → Type 0
IsRewritten t user_id task_id raw team_id t' =
    (task : Task) × (cs : List Change) × IsGranted t user_id task_id raw task cs
    × (team_id ≡ task.team_id)
    × (t' ≡ write_row task_id (build_task_diff_entries task user_id cs).0 t)

abbrev pub IsErased : Tables → ℕ → ℕ → ℕ → Tables → Type 0
IsErased t user_id task_id team_id t' =
    (task : Task) × IsDeletable t user_id task_id task
    × (team_id ≡ task.team_id)
    × (t' ≡ erase_all user_id task_id task t)

-- The row that a request to create a task asks for, at the clock of the tables.
abbrev pub wanted_task : Tables → ℕ → CreateTaskInput → Task
wanted_task t user_id input = record {
  id = t.next_task;
  team_id = input.team_id;
  title = input.title;
  description = if is_blank input.description then none else some input.description;
  status = if input.status =s "" then "todo" else input.status;
  priority = if input.priority =s "" then "medium" else input.priority;
  assignee_id = input.assignee_id;
  created_by = some user_id;
  due_date = input.due_date;
  created_at = t.clock;
  updated_at = t.clock;
}

-- The row stands at the end of the tasks, the next identifier is the next number, and nothing else is
-- changed.
abbrev pub IsCreated : Tables → ℕ → CreateTaskInput → ℕ → Tables → Type 0
IsCreated t user_id input id t' =
    IsCreatable t user_id input
    × (id ≡ t.next_task)
    × (t' ≡ record t {
      tasks = t.tasks ++ wanted_task t user_id input ∷ [];
      next_task = suc t.next_task;
    })

-- The comment, and its author as a member of the task's team, or an owner or admin of that team.
abbrev pub IsEditor : Tables → ℕ → ℕ → Type 0
IsEditor t user_id comment_id =
    (comment : TaskComment) × (task : Task) × (role : String) × (comment_of t comment_id
      ≡ some comment)
    × (task_of t comment.task_id ≡ some task)
    × (role_of t task.team_id user_id ≡ some role)
    × ((comment.user_id ≡ user_id) ⊎ ((role ≡ "owner") ⊎ (role ≡ "admin")))

IsEditable-IsEditor :
    (t : Tables) (user_id comment_id : ℕ)
    → IsEditable t user_id comment_id
    → IsEditor t user_id comment_id
unfolding may_edit is_manager
IsEditable-IsEditor t user_id comment_id (comment, task, role, found, on, has, may) =
    (comment, task, role, found, on, has, allowed comment role may)
  where
    allowed :
        (comment : TaskComment) (role : String)
        → may_edit user_id comment role ≡ true
        → (comment.user_id ≡ user_id) ⊎ ((role ≡ "owner") ⊎ (role ≡ "admin"))
    allowed comment role h =
        ground (arith, eq_iff role "owner", eq_iff role "admin", ==_iff comment.user_id user_id)

-- The comments with the identifier have the body, and the moment of the tables' clock.
abbrev pub rewritten : Tables → ℕ → String → TaskComment → TaskComment
rewritten t id body c = if c.id == id then record c { body = body; updated_at = t.clock } else c

abbrev pub IsRewording : Tables → ℕ → ℕ → String → Tables → Type 0
IsRewording t user_id comment_id body t' =
    IsEditor t user_id comment_id
    × (t' ≡ record t { comments = map (rewritten t comment_id body) t.comments })

abbrev pub IsRemoval : Tables → ℕ → ℕ → Tables → Type 0
IsRemoval t user_id comment_id t' =
    IsEditor t user_id comment_id
    × (t' ≡ record t { comments = select (λ c. not (c.id == comment_id)) t.comments })

update_where-map :
    {A : Type 0} (p : A → Bool) (f : A → A) (xs : List A)
    → update_where p f xs ≡ map (λ x. if p x then f x else x) xs
unfolding update_where
update_where-map p f [] = refl
update_where-map p f (x ∷ xs) = ap (◌∷◌ (if p x then f x else x)) (update_where-map p f xs)

delete_where-select :
    {A : Type 0} (p : A → Bool) (xs : List A) → delete_where p xs ≡ select (λ x. not (p x)) xs
unfolding delete_where select
delete_where-select p [] = refl
delete_where-select p (x ∷ xs) = elim (Bool-cases (p x)) [
  | inl e ↦ rw e (delete_where-select p xs)
  | inr e ↦ rw e (ap (◌∷◌ x) (delete_where-select p xs))
]

module _ (s : TaskService) (w : World) (user_id task_id : ℕ) where
  -- With a database and a history, `UpdateTask` ends in one of three ways. A success has written,
  -- together, the columns whose values differ and one history entry for each; the patch was parsed
  -- field by field into acceptable values, and the role of the caller in the task's team allows every
  -- field. A failure has left all tables as they were. Or MySQL's answer to the commit was lost, and
  -- the tables are those of a success.
  pub update_task_atomic :
      (raw : List (String × RawMessage))
      → (s.has_db && s.has_history) ≡ true
      → AllOrNothing w.tables
          (IsUpdated w.tables user_id task_id raw)
          (update_task s user_id task_id raw w)
  unfolding update_task
  update_task_atomic raw on =
      rw (on, update_task)
        (update_task_tx_rule (AllOrNothing w.tables Done) w user_id task_id raw
          (λ e w' same. inl same)
          (λ task cs granted w' written.
            let done : Done task.team_id w'.tables = (task, cs, granted, refl, written) in
            (inr (refl, (task.team_id, done)), done)))
    where
      Done : ℕ → Tables → Type 0
      Done = IsUpdated w.tables user_id task_id raw

  -- Without one of the two, `UpdateTask` writes the columns in one statement and no history.
  pub update_task_rewrites :
      (raw : List (String × RawMessage))
      → (s.has_db && s.has_history) ≡ false
      → AllOrNothing w.tables
          (IsRewritten w.tables user_id task_id raw)
          (update_task s user_id task_id raw w)
  unfolding update_task
  update_task_rewrites raw off =
      rw (off, update_task)
        (update_task_no_tx_rule (AllOrNothing w.tables Done) w user_id task_id raw
          (λ e w' same. inl same)
          (λ task cs granted w' written.
            let done : Done task.team_id w'.tables = (task, cs, granted, refl, written) in
            (inr (refl, (task.team_id, done)), done)))
    where
      Done : ℕ → Tables → Type 0
      Done = IsRewritten w.tables user_id task_id raw

  -- With a database and a history, `DeleteTask` succeeds only for an owner or admin of the task's
  -- team. A success has inserted the deletion's history entry and then deleted the task, in one
  -- transaction; a failure has left all tables as they were, unless the answer to the commit was lost.
  pub delete_task_atomic :
      (s.has_db && s.has_history) ≡ true
      → AllOrNothing w.tables (IsErased w.tables user_id task_id) (delete_task s user_id task_id w)
  unfolding delete_task
  delete_task_atomic on =
      rw (on, delete_task)
        (delete_task_tx_rule (AllOrNothing w.tables Done) w user_id task_id (λ e w' same. inl same)
          (λ task may w' written.
            let done : Done task.team_id w'.tables = (task, may, refl, written) in
            (inr (refl, (task.team_id, done)), done)))
    where
      Done : ℕ → Tables → Type 0
      Done = IsErased w.tables user_id task_id

module _ (w : World) (user_id : ℕ) where
  -- `CreateTask` succeeds only if the team exists, the caller and the assignee are its members, and
  -- status and priority, with the defaults for the empty text, are of the known values. A success has
  -- added one row, with the caller as author, the input's values, no description for a blank one, and
  -- those defaults, under the identifier that it returns; a failure has left all tables as they were,
  -- unless the answer to the INSERT was lost.
  pub create_task_atomic :
      (input : CreateTaskInput)
      → AllOrNothing w.tables (IsCreated w.tables user_id input) (create_task user_id input w)
  unfolding new_task insert_task
  create_task_atomic input =
      create_task_rule (AllOrNothing w.tables Done) w user_id input (λ e w' same. inl same)
        (λ may w' written.
          let done : Done w.tables.next_task w'.tables = (may, refl, written) in
          (inr (refl, (w.tables.next_task, done)), done))
    where
      Done : ℕ → Tables → Type 0
      Done = IsCreated w.tables user_id input

  -- `UpdateComment` and `DeleteComment` succeed only for the author of the comment while a member of
  -- the task's team, or for an owner or admin of that team, and then change the body and the time of
  -- the comment with the identifier, or take it away, and change no other comment and nothing else. A
  -- failure has left all tables as they were, unless the answer was lost.
  pub edit_comment_atomic :
      (comment_id : ℕ) (body : String)
      → AllOrNothing w.tables
          (λ _. IsRewording w.tables user_id comment_id body)
          (update_comment user_id comment_id body w)
        × AllOrNothing w.tables
            (λ _. IsRemoval w.tables user_id comment_id)
            (delete_comment user_id comment_id w)
  unfolding write_comment remove_comment
  edit_comment_atomic comment_id body = (
    update_comment_rule (AllOrNothing w.tables _) w user_id comment_id body (λ e w' same. inl same)
        (λ may w' written.
          let done : IsRewording w.tables user_id comment_id body w'.tables = (
            IsEditable-IsEditor w.tables user_id comment_id may,
            written
                ∙ ap (λ cs. record w.tables { comments = cs })
                    (update_where-map (λ c. c.id == comment_id) _ w.tables.comments),
          ) in
          (inr (refl, (tt, done)), done)),
    delete_comment_rule (AllOrNothing w.tables _) w user_id comment_id (λ e w' same. inl same)
        (λ may w' written.
          let done : IsRemoval w.tables user_id comment_id w'.tables = (
            IsEditable-IsEditor w.tables user_id comment_id may,
            written
                ∙ ap (λ cs. record w.tables { comments = cs })
                    (delete_where-select (λ c. c.id == comment_id) w.tables.comments),
          ) in
          (inr (refl, (tt, done)), done)),
  )
