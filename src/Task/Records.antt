-- ===== src/Task/Records.antt =====
-- The history of a task: what an update leaves in it, and what a deletion takes away.
use mkk_luna.Prelude.{
  ℕ, ◌≡◌, refl, sym, ap, ◌∙◌, true, String, none, some, List, [], ◌∷◌, ◌++◌, map, All, ◌&&◌, inl,
  inr, ◌==◌, select, find, find-update_where, find-delete_where, select-delete_where, Bool-cases,
}
use mathlib.Core.List.{append_assoc, map-append, append-nil}
use mathlib.Core.Option
use mkk_luna.Schema.{Task, TaskHistory, TaskHistoryCreate, Tables}
use mkk_luna.World.{World, Result, ok, err}
use mkk_luna.Repository.Tasks.{Change, task_of, set_column, set_columns, write_task, remove_task}
use mkk_luna.Repository.History.{insert_entry, insert_entries}
use mkk_luna.Task.Patch.{RawMessage}
use mkk_luna.Task.Patch.Rules.{IsParsed}
use mkk_luna.Task.Diff.{
  key, task_history_entry, entry_of, build_task_diff_entries, old_json, new_json,
}
use mkk_luna.Task.Audit.{IsDistinct, Shows, written_row, diff_entries}
use mkk_luna.Task.Rules.Update.{write_all}
use mkk_luna.Task.Rules.Delete.{delete_task_tx_rule, delete_task_no_tx_rule}
use mathlib.Core.Path.{subst}
use mkk_luna.Task.Atomicity.{AllOrNothing, IsUpdated, update_task_atomic}
use mkk_luna.Task.Rights.{tasks-insert_entries}
use mkk_luna.Task.Service.{TaskService, update_task, delete_task}

-- A row of the history without the identifier and the time that the database gave it.
abbrev pub content : TaskHistory → TaskHistoryCreate
content h = record {
  task_id = h.task_id;
  changed_by = h.changed_by;
  field_name = h.field_name;
  old_value = h.old_value;
  new_value = h.new_value;
}

pub content-insert_entries :
    (es : List TaskHistoryCreate) (t : Tables)
    → map content (insert_entries es t).history ≡ map content t.history ++ es
unfolding insert_entries
content-insert_entries [] t = sym (append-nil _)
content-insert_entries (e ∷ es) t =
    rw (content-insert_entries es (insert_entry e t), map-append, append_assoc)

-- `distinct` of the keys of a Go map.
abbrev pub HasDistinctKeys : List (String × RawMessage) → Type 0
HasDistinctKeys [] = Unit
HasDistinctKeys ((k, _) ∷ raw) = All (λ e. ¬ (k ≡ e.0)) raw × HasDistinctKeys raw

apart :
    (k : String) (c : Change) (raw : List (String × RawMessage)) (cs : List Change)
    → key c ≡ k
    → IsParsed raw cs
    → All (λ e. ¬ (k ≡ e.0)) raw
    → All (λ d. ¬ (key c ≡ key d)) cs
apart k c [] [] same parsed h = tt
apart k c (e ∷ raw) (d ∷ cs) same (e_is, _, parsed) (h, hs) =
    ((λ i. h (sym same ∙ i ∙ e_is)), apart k c raw cs same parsed hs)
apart k c [] (d ∷ cs) same parsed h = absurd parsed
apart k c (e ∷ raw) [] same parsed h = absurd parsed

IsParsed-IsDistinct :
    (raw : List (String × RawMessage)) (cs : List Change)
    → HasDistinctKeys raw
    → IsParsed raw cs
    → IsDistinct cs
IsParsed-IsDistinct [] [] h parsed = tt
IsParsed-IsDistinct ((k, _) ∷ raw) (c ∷ cs) (h, hs) (same, _, parsed) =
    (apart k c raw cs same parsed h, IsParsed-IsDistinct raw cs hs parsed)
IsParsed-IsDistinct [] (c ∷ cs) h parsed = absurd parsed
IsParsed-IsDistinct (e ∷ raw) [] h parsed = absurd parsed

pub set_columns-id : (cs : List Change) (r : Task) → (set_columns cs r).id ≡ r.id
unfolding set_columns
set_columns-id [] r = refl
set_columns-id (c ∷ cs) r = set_columns-id cs (set_column c r) ∙ set_column-id c r
  where
    set_column-id : (c : Change) (r : Task) → (set_column c r).id ≡ r.id
    set_column-id (Change.title v) r = refl
    set_column-id (Change.status v) r = refl
    set_column-id (Change.priority v) r = refl
    set_column-id (Change.description v) r = refl
    set_column-id (Change.assignee_id v) r = refl
    set_column-id (Change.due_date v) r = refl

task_of-write_task :
    (t : Tables) (id : ℕ) (cs : List Change) (task : Task)
    → task_of t id ≡ some task
    → task_of (write_task id cs t) id ≡ some (set_columns cs (record task { updated_at = t.clock }))
unfolding task_of write_task
task_of-write_task t id cs task found =
    find-update_where (λ r. r.id == id) _ t.tasks
      (λ x h. rw (set_columns-id cs (record x { updated_at = t.clock })) h)
    ∙ ap (Option.map (λ r. set_columns cs (record r { updated_at = t.clock }))) found

remove_task-erased :
    (task_id : ℕ) (t : Tables)
    → (task_of (remove_task task_id t) task_id ≡ none)
      × (select (λ c. c.task_id == task_id) (remove_task task_id t).comments ≡ [])
      × (select (λ h. h.task_id == task_id) (remove_task task_id t).history ≡ [])
unfolding task_of remove_task
remove_task-erased task_id t = (
  find-delete_where (λ r. r.id == task_id) t.tasks,
  select-delete_where (λ c. c.task_id == task_id) t.comments,
  select-delete_where (λ h. h.task_id == task_id) t.history,
)

-- Whether or not there is something to write, the row shows the patch afterwards.
row_after :
    (t : Tables) (id user_id : ℕ) (task : Task) (cs : List Change)
    → task_of t id ≡ some task
    → IsDistinct cs
    → (row : Task) × (task_of (write_all id (build_task_diff_entries task user_id cs) t) id
        ≡ some row)
      × All (Shows row) cs
unfolding find task_of set_columns
row_after t id user_id task cs found distinct =
    go (build_task_diff_entries task user_id cs) (λ n. written_row task n user_id cs distinct)
  where
    go :
        (diff : List Change × List TaskHistoryCreate)
        → ((n : ℕ) → All (Shows (set_columns diff.0 (record task { updated_at = n }))) cs)
        → (row : Task) × (task_of (write_all id diff t) id ≡ some row) × All (Shows row) cs
    go ([], es) shown = (task, found, shown task.updated_at)
    go (d ∷ ds, es) shown = (
      set_columns (d ∷ ds) (record task { updated_at = t.clock }),
      ap (find (λ r. r.id == id)) (tasks-insert_entries es _)
          ∙ task_of-write_task t id (d ∷ ds) task found,
      shown t.clock,
    )

history_after :
    (t : Tables) (id user_id : ℕ) (task : Task) (diff : List Change × List TaskHistoryCreate)
    → diff.1 ≡ map (entry_of task user_id) diff.0
    → map content (write_all id diff t).history
      ≡ map content t.history ++ map (entry_of task user_id) diff.0
unfolding write_task
history_after t id user_id task ([], es) same = sym (append-nil _)
history_after t id user_id task (d ∷ ds, es) same =
    content-insert_entries es _ ∙ ap (◌++◌ (map content t.history)) same

-- The entry about a change by a user of a task: the task and the user, the field, and the two values.
abbrev pub wanted_entry : Task → ℕ → Change → TaskHistoryCreate
wanted_entry task user_id c = record {
  task_id = task.id;
  changed_by = some user_id;
  field_name = key c;
  old_value = some (old_json task c);
  new_value = some (new_json c);
}

-- What a successful update has recorded, for the task as it was.
abbrev pub IsRecorded : Tables → ℕ → ℕ → List (String × RawMessage) → Tables → Type 0
IsRecorded t user_id task_id raw t' =
    (task : Task) × (row : Task) × (cs : List Change) × (task_of t task_id ≡ some task)
    × (task_of t' task_id ≡ some row)
    × IsParsed raw cs
    × All (Shows row) cs
    × (map content t'.history
        ≡ map content t.history
          ++ map (wanted_entry task user_id) (build_task_diff_entries task user_id cs).0)
    × All (λ c. ¬ (old_json task c ≡ new_json c)) (build_task_diff_entries task user_id cs).0

-- With a database and a history and a patch with distinct keys, a successful `UpdateTask` leaves a row that shows every value of the
-- patch, and adds to the history, in order, one entry for each value that the row did not show
-- before: with the task, the caller, the key of the field, the value that the row had and the value of
-- the patch, which differ.
pub update_task-IsRecorded :
    (s : TaskService) (w w' : World) (user_id task_id team_id : ℕ)
    (raw : List (String × RawMessage))
    → HasDistinctKeys raw
    → (s.has_db && s.has_history) ≡ true
    → update_task s user_id task_id raw w ≡ (ok team_id, w')
    → IsRecorded w.tables user_id task_id raw w'.tables
unfolding entry_of task_history_entry
update_task-IsRecorded s w w' user_id task_id team_id raw distinct on e =
    let (task, cs, (_, parsed, found, _, _, _), _, written) = updated in
    let (row, now, shown) =
      row_after w.tables task_id user_id task cs found
        (IsParsed-IsDistinct raw cs distinct parsed) in
    let (same, differ) = diff_entries task user_id cs in
    (
      task,
      row,
      cs,
      found,
      ap (λ t. task_of t task_id) written ∙ now,
      parsed,
      shown,
      ap (λ t. map content t.history) written ∙ history_after w.tables task_id user_id task _ same,
      differ,
    )
  where
    updated : IsUpdated w.tables user_id task_id raw team_id w'.tables
    updated =
        subst (AllOrNothing w.tables (IsUpdated w.tables user_id task_id raw)) e
          (update_task_atomic s w user_id task_id raw on)

-- A successful `DeleteTask` leaves no task under the identifier, and none of its comments. It leaves
-- no history of the task either: the entry with the snapshot that it has just written goes with the
-- rest, since the foreign key of `task_history` cascades.
pub delete_task_erases :
    (s : TaskService) (w w' : World) (user_id task_id team_id : ℕ)
    → delete_task s user_id task_id w ≡ (ok team_id, w')
    → (task_of w'.tables task_id ≡ none)
      × (select (λ c. c.task_id == task_id) w'.tables.comments ≡ [])
      × (select (λ h. h.task_id == task_id) w'.tables.history ≡ [])
unfolding delete_task
delete_task_erases s w w' user_id task_id team_id e =
    subst IsGone e (elim (Bool-cases (s.has_db && s.has_history)) [
      | inl on ↦
          rw (on, delete_task)
            (delete_task_tx_rule IsGone w user_id task_id (λ _ _ _. tt)
              (λ task _ w₁ written. (tt, subst Erased (sym written) (erased _))))
      | inr off ↦
          rw (off, delete_task)
            (delete_task_no_tx_rule IsGone w user_id task_id (λ _ _ _. tt)
              (λ task _ w₁ written. (tt, subst Erased (sym written) (erased _))))
    ])
  where
    Erased : Tables → Type 0
    Erased t =
        (task_of t task_id ≡ none)
        × (select (λ c. c.task_id == task_id) t.comments ≡ [])
        × (select (λ h. h.task_id == task_id) t.history ≡ [])

    IsGone : Result ℕ × World → Type 0
    IsGone (ok _, w₁) = Erased w₁.tables
    IsGone (err _, w₁) = Unit

    erased : (t : Tables) → Erased (remove_task task_id t)
    erased t = remove_task-erased task_id t
