-- ===== src/Repository/History.antt =====
-- internal/repository/task_history_repo.go.
use mkk_luna.Prelude.{ℕ, suc, List, [], ◌∷◌, ◌++◌, ◌&&◌, ◌||◌, length, select, leb, ltb, ◌==◌}
use mkk_luna.Prelude.Sort.{sort_by, page}
use mkk_luna.Schema.{TaskHistory, TaskHistoryCreate, Tables}
use mkk_luna.World.{M, ok, query, exec, pure, ◌>>=◌, ◌>>◌}

unfoldable pub insert_entry : TaskHistoryCreate → Tables → Tables
insert_entry e t = record t { history = t.history ++ row ∷ []; next_history = suc t.next_history }
  where
    row : TaskHistory
    row = record {
      id = t.next_history;
      task_id = e.task_id;
      changed_by = e.changed_by;
      field_name = e.field_name;
      old_value = e.old_value;
      new_value = e.new_value;
      created_at = t.clock;
    }

unfoldable pub insert_entries : List TaskHistoryCreate → Tables → Tables
unfolding insert_entry
insert_entries [] t = t
insert_entries (e ∷ es) t = insert_entries es (insert_entry e t)

unfoldable pub create_batch_tx : List TaskHistoryCreate → M (Unit {0})
create_batch_tx [] = pure tt
create_batch_tx (e ∷ es) = exec (λ t. (ok tt, insert_entry e t)) >> create_batch_tx es

unfoldable pub list_by_task : ℕ → ℕ → ℕ → M (List TaskHistory × ℕ)
list_by_task task_id limit offset = do
  total ← query (λ t. length (select (λ h. h.task_id == task_id) t.history))
  items ← query λ t. page limit offset (
      sort_by
        (λ a b. ltb b.created_at a.created_at || (a.created_at == b.created_at && leb b.id a.id))
        (select (λ h. h.task_id == task_id) t.history))
  pure (items, total)
