-- ===== src/Task/Diff.antt =====
-- internal/service/task.go: `buildTaskDiffEntries`, `taskHistoryEntry` and `taskDeleteSnapshot`.
use mathlib.Core.Option
use mkk_luna.Prelude.{
  ℕ, String, Bool, true, false, Option, none, some, List, [], ◌∷◌, ◌==◌, ◌=s◌, if◌then◌else◌,
}
use mkk_luna.Text.{format_date}
use mkk_luna.Schema.{Task, Json, TaskHistoryCreate}
use mkk_luna.Repository.Tasks.{Change}

-- The key of a change in the Go map.
abbrev pub key : Change → String
key (Change.title v) = "title"
key (Change.description v) = "description"
key (Change.status v) = "status"
key (Change.priority v) = "priority"
key (Change.assignee_id v) = "assignee_id"
key (Change.due_date v) = "due_date"

-- `mustJSON` of an `any` that is nil, a string, an int64 or a formatted date.
abbrev pub nullable {ℓ} : {A : Type ℓ} → (A → Json) → Option A → Json
nullable f none = Json.null
nullable f (some a) = f a

-- `Valid && value == *newPtr`, and both nil.
abbrev pub same_option : {A : Type 0} → (A → A → Bool) → Option A → Option A → Bool
same_option eq none none = true
same_option eq (some a) (some b) = eq a b
same_option eq none (some b) = false
same_option eq (some a) none = false

abbrev pub same_date : ℕ → ℕ → Bool
same_date a b = format_date a == format_date b

abbrev pub day_json : ℕ → Json
day_json t = Json.day (format_date t)

unfoldable pub task_history_entry : ℕ → ℕ → String → Json → Json → TaskHistoryCreate
task_history_entry task_id user_id field old_value new_value = record {
  task_id = task_id;
  changed_by = some user_id;
  field_name = field;
  old_value = some old_value;
  new_value = some new_value;
}

-- The column of a task that a change is about, as JSON, and the value that the change brings.
unfoldable pub old_json : Task → Change → Json
old_json task (Change.title v) = Json.text task.title
old_json task (Change.description v) = nullable Json.text task.description
old_json task (Change.status v) = Json.text task.status
old_json task (Change.priority v) = Json.text task.priority
old_json task (Change.assignee_id v) = nullable Json.number task.assignee_id
old_json task (Change.due_date v) = nullable day_json task.due_date

unfoldable pub new_json : Change → Json
new_json (Change.title v) = Json.text v
new_json (Change.description v) = nullable Json.text v
new_json (Change.status v) = Json.text v
new_json (Change.priority v) = Json.text v
new_json (Change.assignee_id v) = nullable Json.number v
new_json (Change.due_date v) = nullable day_json v

-- The tests before each `continue`.
unfoldable pub is_unchanged : Task → Change → Bool
is_unchanged task (Change.title v) = task.title =s v
is_unchanged task (Change.description v) = same_option ◌=s◌ task.description v
is_unchanged task (Change.status v) = task.status =s v
is_unchanged task (Change.priority v) = task.priority =s v
is_unchanged task (Change.assignee_id v) = same_option ◌==◌ task.assignee_id v
is_unchanged task (Change.due_date v) = same_option same_date task.due_date v

unfoldable pub entry_of : Task → ℕ → Change → TaskHistoryCreate
unfolding task_history_entry old_json new_json
entry_of task user_id c = task_history_entry task.id user_id (key c) (old_json task c) (new_json c)

unfoldable pub build_task_diff_entries :
    Task → ℕ → List Change → List Change × List TaskHistoryCreate
unfolding is_unchanged entry_of
build_task_diff_entries task user_id [] = ([], [])
build_task_diff_entries task user_id (c ∷ cs) =
    let (updates, entries) = build_task_diff_entries task user_id cs in
    if is_unchanged task c
    then (updates, entries)
    else (c ∷ updates, entry_of task user_id c ∷ entries)

-- `taskDeleteSnapshot`; `json.Marshal` of such a map does not fail.
unfoldable pub task_delete_snapshot : Task → Json
task_delete_snapshot task = Json.snapshot (record {
  id = task.id;
  title = task.title;
  description = task.description;
  status = task.status;
  assignee_id = task.assignee_id;
  priority = task.priority;
  due_date = Option.map format_date task.due_date;
})
