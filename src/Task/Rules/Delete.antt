-- ===== src/Task/Rules/Delete.antt =====
-- How `DeleteTask` ends: the tables are as before, or the task is gone with all that hangs on it.
use mkk_luna.Prelude.{ℕ, ◌≡◌, refl, true, String, some, [], ◌∷◌}
use mkk_luna.Schema.{Task, Tables}
use mkk_luna.World.{
  World, M, Error, Result, ok, err, external, forbidden, at, tick, defer, commit, rollback, pure,
  guard, ◌>>=◌, ◌>>◌,
}
use mkk_luna.World.Rules.{exec_rule, guard_rule, begin_rule, commit_rule, Then}
use mkk_luna.Repository.Tasks
use mkk_luna.Repository.Tasks.{task_of, remove_task}
use mkk_luna.Repository.Members.{role_of}
use mkk_luna.Repository.History.{insert_entries, create_batch_tx}
use mkk_luna.Task.Fields.{is_manager}
use mkk_luna.Task.Access.{task_with_role}
use mkk_luna.Task.Access.Rules.{task_with_role_rule}
use mkk_luna.Task.Rules.Update.{create_batch_tx_rule}
use mkk_luna.Task.Service.{deletion_entry, delete_task_tx, delete_task_no_tx}

-- The task that is deleted, and the right of the caller to delete it.
abbrev pub IsDeletable : Tables → ℕ → ℕ → Task → Type 0
IsDeletable t user_id task_id task =
    (role : String) × (task_of t task_id ≡ some task)
    × (role_of t task.team_id user_id ≡ some role)
    × (is_manager role ≡ true)

-- The deletion with its entry in the history.
abbrev pub erase_all : ℕ → ℕ → Task → Tables → Tables
erase_all user_id task_id task t =
    remove_task task_id (insert_entries (deletion_entry user_id task ∷ []) t)

module _ (P : Result ℕ × World → Type 0) (w : World) (user_id task_id : ℕ) where
  pub delete_task_tx_rule :
      ((e : Error) (w' : World) → w'.tables ≡ w.tables → P (err e, w'))
      → ((task : Task)
          → IsDeletable w.tables user_id task_id task
          → (w' : World) → w'.tables ≡ erase_all user_id task_id task w.tables
          → P (err external, w') × P (ok task.team_id, w'))
      → P (delete_task_tx user_id task_id w)
  unfolding delete_task_tx rollback Tasks.get_by_id_for_update_tx Tasks.delete_tx
  delete_task_tx_rule refused answered =
      begin_rule (Then (λ _. defer rollback (fetch >>= remove)) P) w (refused _ _ refl) (
        task_with_role_rule (Then remove Q) user_id task_id w₀ (λ n. refused _ _ refl)
          (λ _ n. refused _ _ refl) (λ _ _ _ n. refused _ _ refl)
          (λ task role found has n.
            guard_rule Q (is_manager role) forbidden (record_and_delete task) (at w₀ n)
              (λ _. refused _ _ refl)
              (λ manager.
                let done = answered task (role, found, has, manager) in
                create_batch_tx_rule (Then (λ _. delete_and_commit task) Q) _ (at w₀ n)
                  (λ t k. refused _ _ refl)
                  (λ k.
                    exec_rule (Then (λ _. finish task) Q) _ _ (refused _ _ refl) (refused _ _ refl)
                      (commit_rule (Then (λ _. pure task.team_id) Q) _ (refused _ _ refl)
                        (done _ refl).0 (done _ refl).1)))))
    where
      Q : Result ℕ × World → Type 0
      Q (r, w') = P (r, rollback w')

      fetch : M (Task × String)
      fetch = task_with_role (Tasks.get_by_id_for_update_tx task_id) user_id

      finish : Task → M ℕ
      finish task = commit >> pure task.team_id

      delete_and_commit : Task → M ℕ
      delete_and_commit task = Tasks.delete_tx task_id >> finish task

      record_and_delete : Task → M ℕ
      record_and_delete task =
          create_batch_tx (deletion_entry user_id task ∷ []) >> delete_and_commit task

      remove : Task × String → M ℕ
      remove (task, role) = guard (is_manager role) forbidden >> record_and_delete task

      w₀ : World
      w₀ = record (tick w) { saved = some w.tables }

  pub delete_task_no_tx_rule :
      ((e : Error) (w' : World) → w'.tables ≡ w.tables → P (err e, w'))
      → ((task : Task)
          → IsDeletable w.tables user_id task_id task
          → (w' : World) → w'.tables ≡ remove_task task_id w.tables
          → P (err external, w') × P (ok task.team_id, w'))
      → P (delete_task_no_tx user_id task_id w)
  unfolding delete_task_no_tx Tasks.get_by_id Tasks.delete
  delete_task_no_tx_rule refused answered =
      task_with_role_rule (Then remove P) user_id task_id w (λ n. refused _ _ refl)
        (λ _ n. refused _ _ refl) (λ _ _ _ n. refused _ _ refl)
        (λ task role found has n.
          guard_rule P (is_manager role) forbidden (erase task) (at w n) (λ _. refused _ _ refl)
            (λ manager.
              let done = answered task (role, found, has, manager) in
              exec_rule (Then (λ _. pure task.team_id) P) _ (at w n) (refused _ _ refl)
                (done _ refl).0 (done _ refl).1))
    where
      erase : Task → M ℕ
      erase task = Tasks.delete task_id >> pure task.team_id

      remove : Task × String → M ℕ
      remove (task, role) = guard (is_manager role) forbidden >> erase task
