-- ===== src/Task/Tests.antt =====
-- Runs of the task service on the sample state, and the theorems at them.
use mkk_luna.Prelude.{◌≡◌, refl, true, false, String, List, [], ◌∷◌, none, some}
use mkk_luna.World.{ok, err, forbidden, bad_request}
use mkk_luna.Samples.{ann, bob, eve, world}
use mkk_luna.Task.Patch.{RawMessage}
use mkk_luna.Task.Service.{
  TaskService, CreateTaskInput, create_task, update_task, delete_task, update_comment,
  delete_comment,
}
use mkk_luna.Task.Atomicity.{
  AllOrNothing, IsUpdated, IsRewritten, IsErased, IsCreated, IsRewording, IsRemoval,
  update_task_atomic, update_task_rewrites, delete_task_atomic, create_task_atomic,
  edit_comment_atomic,
}
use mkk_luna.Task.Rights.{
  IsRefused, reserved, update_task-reserved, update_task_outsider, delete_task-IsRefused,
}
use mkk_luna.Task.Records.{IsRecorded, update_task-IsRecorded, delete_task_erases}
use mkk_luna.Task.Reading.{IsReading, IsVisible, get_task-IsVisible}
use mkk_luna.Repository.Tasks.{TaskListFilter}
use mkk_luna.Task.Service.{get_task, list_comments, get_task_history}
use mkk_luna.Prelude.{length, ◌≤◌}
use mkk_luna.Task.Audit.{Shows, diff_applied}
use mkk_luna.World.{World}
use mkk_luna.Repository.Tasks.{Change, task_of, set_columns}
use mkk_luna.Prelude.{map, select, All, ◌==◌}
use mkk_luna.Samples.{task}
use mkk_luna.Prelude.{find, update_where, delete_where}
use mkk_luna.Repository.Members.{get_role, role_of, is_member, is_in_team}
use mkk_luna.Repository.Tasks
use mkk_luna.Repository.Tasks.{write_task, remove_task}
use mkk_luna.Repository.History.{create_batch_tx, insert_entries}
use mkk_luna.Task.Access.{task_with_role}
use mkk_luna.Task.Patch.{parse_task_patch, to_int64_ptr}
use mkk_luna.Task.Fields.{
  is_known_task_field, allowed_task_fields, is_manager, is_valid_status, is_valid_priority,
}
use mkk_luna.Task.Diff.{build_task_diff_entries}
use mkk_luna.Text.{is_blank}
use mkk_luna.World.{query, exec, begin_tx, commit, rollback}

abbrev full : TaskService
full = record { has_db = true; has_history = true }

abbrev bare : TaskService
bare = record { has_db = true; has_history = false }

abbrev patch : List (String × RawMessage)
patch = ("status", RawMessage.text "done") ∷ ("assignee_id", RawMessage.number bob) ∷ []

abbrev retitle : List (String × RawMessage)
retitle = ("title", RawMessage.text "new") ∷ []

-- What the runs compute with.
run : Unit {0}
unfolding update_task delete_task task_with_role parse_task_patch build_task_diff_entries query exec
    begin_tx commit rollback find update_where delete_where get_role role_of is_member is_in_team
    Tasks.task_of to_int64_ptr Tasks.get_by_id Tasks.get_by_id_for_update_tx Tasks.update_tx
    Tasks.delete_tx write_task remove_task create_batch_tx insert_entries is_known_task_field
    allowed_task_fields is_manager is_valid_status is_valid_priority is_blank
run = tt

update_task_tests :
    ((update_task full bob 1 patch world).0 ≡ ok 1)
    × ((update_task full bob 1 retitle world).0 ≡ err forbidden)
    × ((update_task full eve 1 patch world).0 ≡ err forbidden)
    × ((update_task full bob 1 [] world).0 ≡ err bad_request)
unfolding run
update_task_tests = (refl, refl, refl, refl)

delete_task_tests :
    ((delete_task full ann 1 world).0 ≡ ok 1) × ((delete_task full bob 1 world).0 ≡ err forbidden)
unfolding run
delete_task_tests = (refl, refl)

update_task_atomic_example :
    AllOrNothing world.tables
      (IsUpdated world.tables bob 1 patch)
      (update_task full bob 1 patch world)
update_task_atomic_example = update_task_atomic full world bob 1 patch refl

update_task_rewrites_example :
    AllOrNothing world.tables
      (IsRewritten world.tables bob 1 patch)
      (update_task bare bob 1 patch world)
update_task_rewrites_example = update_task_rewrites bare world bob 1 patch refl

delete_task_atomic_example :
    AllOrNothing world.tables (IsErased world.tables ann 1) (delete_task full ann 1 world)
delete_task_atomic_example = delete_task_atomic full world ann 1 refl

abbrev input : CreateTaskInput
input = record {
  team_id = 1;
  title = "review";
  description = "";
  status = "";
  priority = "high";
  assignee_id = some ann;
  due_date = none;
}

create_task_atomic_example :
    AllOrNothing world.tables (IsCreated world.tables bob input) (create_task bob input world)
create_task_atomic_example = create_task_atomic world bob input

edit_comment_atomic_example :
    AllOrNothing world.tables
      (λ _. IsRewording world.tables bob 1 "bye")
      (update_comment bob 1 "bye" world)
    × AllOrNothing world.tables (λ _. IsRemoval world.tables bob 1) (delete_comment bob 1 world)
edit_comment_atomic_example = edit_comment_atomic world bob 1 "bye"

update_task-reserved_example :
    map reserved (update_task full bob 1 patch world).1.tables.tasks
    ≡ map reserved world.tables.tasks
unfolding run
update_task-reserved_example = update_task-reserved full world bob 1 patch refl

update_task_outsider_example : IsRefused world (update_task full eve 1 patch world)
unfolding run
update_task_outsider_example = update_task_outsider full world eve 1 patch refl

delete_task-IsRefused_example : IsRefused world (delete_task full bob 1 world)
unfolding run
delete_task-IsRefused_example = delete_task-IsRefused full world bob 1 refl

abbrev updated : World
updated = (update_task full bob 1 patch world).1

distinct_keys : (◌≡◌ {A = String} "status" "assignee_id") → ⊥
distinct_keys h = cc

update_task-IsRecorded_example : IsRecorded world.tables bob 1 patch updated.tables
unfolding run
update_task-IsRecorded_example =
    update_task-IsRecorded full world updated bob 1 1 patch ((distinct_keys, tt), (tt, tt)) refl
      refl

abbrev deleted : World
deleted = (delete_task full ann 1 world).1

delete_task_erases_example :
    (task_of deleted.tables 1 ≡ none)
    × (select (λ c. c.task_id == 1) deleted.tables.comments ≡ [])
    × (select (λ h. h.task_id == 1) deleted.tables.history ≡ [])
unfolding run
delete_task_erases_example = delete_task_erases full world deleted ann 1 1 refl

abbrev changes : List Change
changes = Change.status "todo" ∷ Change.title "new" ∷ []

diff_applied_example :
    let row = set_columns (build_task_diff_entries task bob changes).0 task in
    All (Shows row) changes × (build_task_diff_entries row bob changes ≡ ([], []))
diff_applied_example = diff_applied task bob changes (((λ h. cc), tt), (tt, tt))

abbrev filter : TaskListFilter
filter = record { team_id = 1; status = some "todo"; assignee_id = none; limit = 10; offset = 0 }

get_task-IsVisible_example :
    IsReading world
      (λ t. IsVisible world.tables bob 1 × (task_of world.tables 1 ≡ some t))
      (get_task bob 1 world)
    × IsReading world
        (λ comments. IsVisible world.tables bob 1 × All (λ c. (c.task_id == 1) ≡ true) comments)
        (list_comments bob 1 world)
    × IsReading world
        (λ (items, total).
          IsVisible world.tables bob 1
          × All (λ h. (h.task_id == 1) ≡ true) items
          × (length items ≤ 20)
          × (total ≡ length (select (λ h. h.task_id == 1) world.tables.history)))
        (get_task_history full bob 1 20 0 world)
get_task-IsVisible_example = get_task-IsVisible world bob 1 full 20 0
