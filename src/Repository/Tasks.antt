-- ===== src/Repository/Tasks.antt =====
-- internal/repository/task_repo.go.
use mkk_luna.Prelude.{
  ℕ, suc, String, Bool, false, true, ◌&&◌, ◌||◌, Option, none, some, List, [], ◌∷◌, ◌++◌, length,
  find, select, update_where, delete_where, ltb, ◌==◌,
}
use mkk_luna.Prelude.Sort.{sort_by, page}
use mkk_luna.Schema.{Task, Tables}
use mkk_luna.World.{M, Result, ok, external, raise, query, exec, ◌>>=◌, pure}

-- The columns of a task that `Create` writes.
pub record NewTask : Type 0 where
  pub team_id : ℕ
  pub title : String
  pub description : Option String
  pub status : String
  pub priority : String
  pub assignee_id : Option ℕ
  pub created_by : Option ℕ
  pub due_date : Option ℕ

-- A column and its new value: an entry of the map that `Update` takes.
pub data Change : Type 0 where
  title status priority : String → Change
  description : Option String → Change
  assignee_id due_date : Option ℕ → Change

unfoldable pub set_column : Change → Task → Task
set_column (title v) task = record task { title = v }
set_column (status v) task = record task { status = v }
set_column (priority v) task = record task { priority = v }
set_column (description v) task = record task { description = v }
set_column (assignee_id v) task = record task { assignee_id = v }
set_column (due_date v) task = record task { due_date = v }

unfoldable pub set_columns : List Change → Task → Task
unfolding set_column
set_columns [] task = task
set_columns (c ∷ cs) task = set_columns cs (set_column c task)

unfoldable pub task_of : Tables → ℕ → Option Task
task_of t id = find (λ r. r.id == id) t.tasks

unfoldable pub insert_task : NewTask → Tables → Result ℕ × Tables
insert_task n t =
    (ok t.next_task, record t { tasks = t.tasks ++ row ∷ []; next_task = suc t.next_task })
  where
    row : Task
    row = record {
      id = t.next_task;
      team_id = n.team_id;
      title = n.title;
      description = n.description;
      status = n.status;
      priority = n.priority;
      assignee_id = n.assignee_id;
      created_by = n.created_by;
      due_date = n.due_date;
      created_at = t.clock;
      updated_at = t.clock;
    }

-- The services only send columns that change, so `updated_at` moves with the clock.
unfoldable pub write_task : ℕ → List Change → Tables → Tables
unfolding set_columns
write_task id cs t = record t {
  tasks =
      update_where (λ r. r.id == id) (λ r. set_columns cs (record r { updated_at = t.clock }))
        t.tasks;
}

-- The foreign keys of `task_history` (migration 0013) and `task_comments` cascade.
unfoldable pub remove_task : ℕ → Tables → Tables
remove_task id t = record t {
  tasks = delete_where (λ r. r.id == id) t.tasks;
  history = delete_where (λ h. h.task_id == id) t.history;
  comments = delete_where (λ c. c.task_id == id) t.comments;
}

unfoldable pub create : NewTask → M ℕ
create n = exec (insert_task n)

unfoldable pub get_by_id : ℕ → M (Option Task)
get_by_id id = query (λ t. task_of t id)

unfoldable pub get_by_id_for_update_tx : ℕ → M (Option Task)
get_by_id_for_update_tx id = query (λ t. task_of t id)

pub record TaskListFilter : Type 0 where
  pub team_id : ℕ
  pub status : Option String
  pub assignee_id : Option ℕ
  pub limit : ℕ
  pub offset : ℕ

-- The comparison is that of the column's collation.
abbrev pub wants_status : (String → String → Bool) → Option String → Task → Bool
wants_status collate none r = true
wants_status collate (some s) r = collate r.status s

abbrev pub has_assignee : Option ℕ → ℕ → Bool
has_assignee none a = false
has_assignee (some b) a = b == a

abbrev pub wants_assignee : Option ℕ → Task → Bool
wants_assignee none r = true
wants_assignee (some a) r = has_assignee r.assignee_id a

-- The WHERE clause that `List` builds.
unfoldable pub matches : (String → String → Bool) → TaskListFilter → Task → Bool
matches collate f r =
    r.team_id == f.team_id && wants_status collate f.status r && wants_assignee f.assignee_id r

-- ORDER BY updated_at DESC, id DESC.
unfoldable pub newer : Task → Task → Bool
newer a b = ltb b.updated_at a.updated_at || (a.updated_at == b.updated_at && ltb b.id a.id)

-- The two statements of `List`, with the condition that they share.
unfoldable pub list_by : (Task → Bool) → ℕ → ℕ → M (List Task × ℕ)
list_by wanted limit offset = do
  total ← query (λ t. length (select wanted t.tasks))
  tasks ← query (λ t. page limit offset (sort_by newer (select wanted t.tasks)))
  pure (tasks, total)

unfoldable pub list : TaskListFilter → M (List Task × ℕ)
unfolding list_by
list f w = list_by (matches w.services.collate f) f.limit f.offset w

unfoldable pub update : ℕ → List Change → M (Unit {0})
update id [] = raise external
update id (c ∷ cs) = exec (λ t. (ok tt, write_task id (c ∷ cs) t))

unfoldable pub update_tx : ℕ → List Change → M (Unit {0})
update_tx id [] = raise external
update_tx id (c ∷ cs) = exec (λ t. (ok tt, write_task id (c ∷ cs) t))

unfoldable pub delete : ℕ → M (Unit {0})
delete id = exec (λ t. (ok tt, remove_task id t))

unfoldable pub delete_tx : ℕ → M (Unit {0})
delete_tx id = exec (λ t. (ok tt, remove_task id t))
