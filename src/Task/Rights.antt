-- ===== src/Task/Rights.antt =====
-- What the role of the caller keeps it from doing.
use mkk_luna.Prelude.{
  ℕ, ◌≡◌, refl, ap, ◌∙◌, true, false, Bool, String, Option, none, some, List, [], ◌∷◌, map, All,
  all, arith, Bool-cases, inl, inr, ◌&&◌, map-update_where,
}
use mkk_luna.Schema.{Task, TaskHistoryCreate, Tables}
use mkk_luna.World.{World, Result, ok, err}
use mkk_luna.Repository.Tasks.{Change, task_of, set_column, set_columns, write_task}
use mkk_luna.Repository.Members.{role_of}
use mkk_luna.Repository.History.{insert_entry, insert_entries}
use mkk_luna.Task.Fields.{is_manager, allowed_task_fields}
use mkk_luna.Task.Patch.{RawMessage}
use mkk_luna.Task.Diff.{key, build_task_diff_entries}
use mkk_luna.Task.Audit.{All-updates}
use mkk_luna.Task.Rules.Update.{write_all, write_row, update_task_tx_rule, update_task_no_tx_rule}
use mkk_luna.Task.Rules.Delete.{delete_task_tx_rule, delete_task_no_tx_rule}
use mkk_luna.Task.Service.{TaskService, update_task, delete_task}

-- A row without what a plain member may change: status, assignee and the time of the change.
abbrev pub reserved : Task → Task
reserved r = record r { status = ""; assignee_id = none; updated_at = 0 }

-- The role of the caller in the team of the task.
abbrev pub role_at : Tables → ℕ → ℕ → Option String
role_at t user_id task_id = elim (task_of t task_id) [
  | none ↦ none
  | some task ↦ role_of t task.team_id user_id
]

abbrev pub manages : Option String → Bool
manages none = false
manages (some role) = is_manager role

allowed-reserved :
    (role : String) (c : Change) (r : Task)
    → is_manager role ≡ false
    → allowed_task_fields role (key c) ≡ true
    → reserved (set_column c r) ≡ reserved r
unfolding allowed_task_fields set_column is_manager
allowed-reserved role (Change.status v) r m h = refl
allowed-reserved role (Change.assignee_id v) r m h = refl
allowed-reserved role (Change.title v) r m h = ground arith
allowed-reserved role (Change.priority v) r m h = ground arith
allowed-reserved role (Change.description v) r m h = ground arith
allowed-reserved role (Change.due_date v) r m h = ground arith

all-All :
    (role : String) (cs : List Change)
    → all (λ c. allowed_task_fields role (key c)) cs ≡ true
    → All (λ c. allowed_task_fields role (key c) ≡ true) cs
all-All role [] h = tt
all-All role (c ∷ cs) h = (ground arith, all-All role cs (ground arith))

set_columns-reserved :
    (role : String) (cs : List Change) (r : Task)
    → is_manager role ≡ false
    → All (λ c. allowed_task_fields role (key c) ≡ true) cs
    → reserved (set_columns cs r) ≡ reserved r
unfolding set_columns
set_columns-reserved role [] r m h = refl
set_columns-reserved role (c ∷ cs) r m (h, hs) =
    set_columns-reserved role cs (set_column c r) m hs ∙ allowed-reserved role c r m h

pub tasks-insert_entries :
    (es : List TaskHistoryCreate) (t : Tables) → (insert_entries es t).tasks ≡ t.tasks
unfolding insert_entries
tasks-insert_entries [] t = refl
tasks-insert_entries (e ∷ es) t = tasks-insert_entries es (insert_entry e t)

write_task-reserved :
    (role : String) (task_id : ℕ) (cs : List Change) (t : Tables)
    → is_manager role ≡ false
    → All (λ c. allowed_task_fields role (key c) ≡ true) cs
    → map reserved (write_task task_id cs t).tasks ≡ map reserved t.tasks
unfolding write_task
write_task-reserved role task_id cs t m h =
    map-update_where reserved _ _ t.tasks (λ x. set_columns-reserved role cs _ m h)

write_all-reserved :
    (role : String) (task_id : ℕ) (diff : List Change × List TaskHistoryCreate) (t : Tables)
    → is_manager role ≡ false
    → All (λ c. allowed_task_fields role (key c) ≡ true) diff.0
    → map reserved (write_all task_id diff t).tasks ≡ map reserved t.tasks
write_all-reserved role task_id ([], es) t m h = refl
write_all-reserved role task_id (c ∷ cs, es) t m h =
    ap (map reserved) (tasks-insert_entries es _) ∙ write_task-reserved role task_id (c ∷ cs) t m h

write_row-reserved :
    (role : String) (task_id : ℕ) (cs : List Change) (t : Tables)
    → is_manager role ≡ false
    → All (λ c. allowed_task_fields role (key c) ≡ true) cs
    → map reserved (write_row task_id cs t).tasks ≡ map reserved t.tasks
write_row-reserved role task_id [] t m h = refl
write_row-reserved role task_id (c ∷ cs) t m h = write_task-reserved role task_id (c ∷ cs) t m h

role_at-some :
    (t : Tables) (user_id task_id : ℕ) {task : Task} {role : String}
    → task_of t task_id ≡ some task
    → role_of t task.team_id user_id ≡ some role
    → role_at t user_id task_id ≡ some role
role_at-some t user_id task_id found has = rw (found, role_at) has

abbrev pub IsError : {A : Type 0} → Result A → Type 0
IsError (ok a) = ⊥
IsError (err e) = Unit

-- The call failed and left all tables as they were.
abbrev pub IsRefused : {A : Type 0} → World → Result A × World → Type 0
IsRefused w (r, w') = IsError r × (w'.tables ≡ w.tables)

absurd-role {ℓ} : {A : Type ℓ} {o : Option String} {role : String} → o ≡ none → o ≡ some role → A
absurd-role n e = cc

module _ (s : TaskService) (w : World) (user_id task_id : ℕ) where
  -- Whatever `UpdateTask` answers to a caller who is neither owner nor admin of the task's team, no
  -- task has another title, description, priority, due date, team or author than before.
  pub update_task-reserved :
      (raw : List (String × RawMessage))
      → manages (role_at w.tables user_id task_id) ≡ false
      → map reserved (update_task s user_id task_id raw w).1.tables.tasks
        ≡ map reserved w.tables.tasks
  unfolding update_task
  update_task-reserved raw h = elim (Bool-cases (s.has_db && s.has_history)) [
    | inl on ↦
        rw (on, update_task)
          (update_task_tx_rule P w user_id task_id raw (λ e w' same. ap visible same)
            (λ task cs (role, _, found, has, _, allowed) w' written.
              let kept : visible w'.tables ≡ visible w.tables =
                ap visible written
                ∙ write_all-reserved role task_id (build_task_diff_entries task user_id cs) w.tables
                    (plain found has) (All-updates _ task user_id cs (all-All role cs allowed)) in
              (kept, kept)))
    | inr off ↦
        rw (off, update_task)
          (update_task_no_tx_rule P w user_id task_id raw (λ e w' same. ap visible same)
            (λ task cs (role, _, found, has, _, allowed) w' written.
              let kept : visible w'.tables ≡ visible w.tables =
                ap visible written
                ∙ write_row-reserved role task_id (build_task_diff_entries task user_id cs).0
                    w.tables (plain found has)
                    (All-updates _ task user_id cs (all-All role cs allowed)) in
              (kept, kept)))
  ]
    where
      visible : Tables → List Task
      visible t = map reserved t.tasks

      P : Result ℕ × World → Type 0
      P (r, w') = visible w'.tables ≡ visible w.tables

      plain :
          {task : Task} {role : String}
          → task_of w.tables task_id ≡ some task
          → role_of w.tables task.team_id user_id ≡ some role
          → is_manager role ≡ false
      plain found has = rw (role_at-some w.tables user_id task_id found has) at h

  -- A caller who has no role in the task's team, or who names no task, is refused by `UpdateTask`:
  -- the call fails and all tables stay as they were.
  pub update_task_outsider :
      (raw : List (String × RawMessage))
      → role_at w.tables user_id task_id ≡ none
      → IsRefused w (update_task s user_id task_id raw w)
  unfolding update_task
  update_task_outsider raw h = elim (Bool-cases (s.has_db && s.has_history)) [
    | inl on ↦
        rw (on, update_task)
          (update_task_tx_rule (IsRefused w) w user_id task_id raw (λ e w' same. (tt, same))
            (λ task cs (role, _, found, has, _, _) w' written.
              absurd-role h (role_at-some w.tables user_id task_id found has)))
    | inr off ↦
        rw (off, update_task)
          (update_task_no_tx_rule (IsRefused w) w user_id task_id raw (λ e w' same. (tt, same))
            (λ task cs (role, _, found, has, _, _) w' written.
              absurd-role h (role_at-some w.tables user_id task_id found has)))
  ]

  -- A caller who is neither owner nor admin of the task's team is refused by `DeleteTask`: the call
  -- fails and all tables stay as they were.
  pub delete_task-IsRefused :
      manages (role_at w.tables user_id task_id) ≡ false
      → IsRefused w (delete_task s user_id task_id w)
  unfolding delete_task
  delete_task-IsRefused h = elim (Bool-cases (s.has_db && s.has_history)) [
    | inl on ↦
        rw (on, delete_task)
          (delete_task_tx_rule (IsRefused w) w user_id task_id (λ e w' same. (tt, same))
            (λ task (role, found, has, may) w' written. cc (may, plain found has)))
    | inr off ↦
        rw (off, delete_task)
          (delete_task_no_tx_rule (IsRefused w) w user_id task_id (λ e w' same. (tt, same))
            (λ task (role, found, has, may) w' written. cc (may, plain found has)))
  ]
    where
      plain :
          {task : Task} {role : String}
          → task_of w.tables task_id ≡ some task
          → role_of w.tables task.team_id user_id ≡ some role
          → is_manager role ≡ false
      plain found has = rw (role_at-some w.tables user_id task_id found has) at h
