-- ===== src/Task/Rules/Update.antt =====
-- How `UpdateTask` ends: the tables are as before, or all of the update is in them.
use mkk_luna.Prelude.{ℕ, ◌≡◌, refl, true, String, some, List, [], ◌∷◌, All, all}
use mkk_luna.Schema.{Task, Tables, TaskHistoryCreate}
use mkk_luna.World.{
  World, M, Error, Result, ok, err, external, forbidden, at, tick, defer, commit, rollback, pure,
  guard, ◌>>=◌, ◌>>◌, query,
}
use mkk_luna.World.Rules.{exec_rule, guard_rule, begin_rule, commit_rule, Then}
use mkk_luna.Repository.Tasks
use mkk_luna.Repository.Tasks.{Change, task_of, write_task}
use mkk_luna.Repository.Members.{role_of}
use mkk_luna.Repository.History.{insert_entry, insert_entries, create_batch_tx}
use mkk_luna.Task.Fields.{allowed_task_fields}
use mkk_luna.Task.Patch.{RawMessage}
use mkk_luna.Task.Patch.Rules.{IsAcceptable, IsParsed, parse_task_patch_rule}
use mkk_luna.Task.Diff.{key, build_task_diff_entries}
use mkk_luna.Task.Access.Rules.{task_with_role_rule}
use mkk_luna.Task.Service.{
  parse_update, write_update_tx, update_task_tx, write_update, update_task_no_tx,
}

-- A batch is inserted whole, or the answer is an error and the transaction holds a part of it.
pub create_batch_tx_rule :
    (P : Result (Unit {0}) × World → Type 0) (es : List TaskHistoryCreate) (w : World)
    → ((t : Tables) (n : ℕ) → P (err external, record (at w n) { tables = t }))
    → ((n : ℕ) → P (ok tt, record (at w n) { tables = insert_entries es w.tables }))
    → P (create_batch_tx es w)
unfolding create_batch_tx insert_entries
create_batch_tx_rule P [] w broken done = done _
create_batch_tx_rule P (e ∷ es) w broken done =
    exec_rule (Then (λ _. create_batch_tx es) P) (λ t. (ok tt, insert_entry e t)) w (broken _ _)
      (broken _ _)
      (create_batch_tx_rule P es (record (tick w) { tables = insert_entry e w.tables }) broken done)

-- The update that the service has let pass: the task, the caller's role in its team and the changes.
abbrev pub IsGranted : Tables → ℕ → ℕ → List (String × RawMessage) → Task → List Change → Type 0
IsGranted t user_id task_id raw task cs =
    (role : String) × IsParsed raw cs
    × (task_of t task_id ≡ some task)
    × (role_of t task.team_id user_id ≡ some role)
    × All (IsAcceptable t task.team_id) cs
    × (all (λ c. allowed_task_fields role (key c)) cs ≡ true)

pub parse_update_rule :
    (P : Result (Task × List Change) × World → Type 0) (user_id task_id : ℕ)
    (raw : List (String × RawMessage)) (w : World)
    → ((e : Error) (n : ℕ) → P (err e, at w n))
    → ((task : Task) (cs : List Change)
        → IsGranted w.tables user_id task_id raw task cs
        → (n : ℕ) → P (ok (task, cs), at w n))
    → P (parse_update (query (λ t. task_of t task_id)) user_id raw w)
unfolding parse_update
parse_update_rule P user_id task_id raw w refused granted =
    task_with_role_rule (Then _ P) user_id task_id w (refused _) (λ _. refused _)
      (λ _ _ _. refused _)
      (λ task role found has n.
        parse_task_patch_rule (Then (checked task role) P) task.team_id raw (at w n)
          (λ e _. refused e)
          (λ cs parsed fine _ k.
            guard_rule P (all (λ c. allowed_task_fields role (key c)) cs) forbidden
              (pure (task, cs)) (at w k) (λ _. refused _ _)
              (λ allowed. granted task cs (role, parsed, found, has, fine, allowed) k)))
  where
    checked : Task → String → List Change → M (Task × List Change)
    checked task role cs =
        guard (all (λ c. allowed_task_fields role (key c)) cs) forbidden >> pure (task, cs)

-- What a granted update does to the tables: nothing if no value differs.
abbrev pub write_all : ℕ → List Change × List TaskHistoryCreate → Tables → Tables
write_all task_id ([], entries) t = t
write_all task_id (c ∷ cs, entries) t = insert_entries entries (write_task task_id (c ∷ cs) t)

abbrev pub write_row : ℕ → List Change → Tables → Tables
write_row task_id [] t = t
write_row task_id (c ∷ cs) t = write_task task_id (c ∷ cs) t

module _ (P : Result ℕ × World → Type 0) (w : World) where
  write_update_tx_rule :
      (task_id : ℕ) (task : Task) (diff : List Change × List TaskHistoryCreate) (n : ℕ)
      → ((e : Error) (w' : World) → w'.tables ≡ w.tables → P (err e, w'))
      → ((w' : World)
          → w'.tables ≡ write_all task_id diff w.tables
          → P (err external, w') × P (ok task.team_id, w'))
      → let w₀ = record (at w n) { saved = some w.tables } in
        P (defer rollback (write_update_tx task_id task diff) w₀)
  unfolding write_update_tx rollback Tasks.update_tx
  write_update_tx_rule task_id task ([], entries) n refused answered = (answered _ refl).1
  write_update_tx_rule task_id task (c ∷ cs, entries) n refused answered =
      exec_rule (Then rest Q) _ w₀ (refused _ _ refl) (refused _ _ refl) (
        create_batch_tx_rule (Then (λ _. finish) Q) entries w₁ (λ t k. refused _ _ refl)
          (λ k.
            commit_rule (Then (λ _. pure task.team_id) Q)
              (record (at w₁ k) { tables = insert_entries entries w₁.tables }) (refused _ _ refl)
              (answered _ refl).0 (answered _ refl).1))
    where
      Q : Result ℕ × World → Type 0
      Q (r, w') = P (r, rollback w')

      finish : M ℕ
      finish = commit >> pure task.team_id

      rest : Unit {0} → M ℕ
      rest _ = create_batch_tx entries >> finish

      w₀ : World
      w₀ = record (at w n) { saved = some w.tables }

      w₁ : World
      w₁ = record (tick w₀) { tables = write_task task_id (c ∷ cs) w.tables }

  pub update_task_tx_rule :
      (user_id task_id : ℕ) (raw : List (String × RawMessage))
      → ((e : Error) (w' : World) → w'.tables ≡ w.tables → P (err e, w'))
      → ((task : Task) (cs : List Change)
          → IsGranted w.tables user_id task_id raw task cs
          → (w' : World)
          → w'.tables ≡ write_all task_id (build_task_diff_entries task user_id cs) w.tables
          → P (err external, w') × P (ok task.team_id, w'))
      → P (update_task_tx user_id task_id raw w)
  unfolding update_task_tx rollback Tasks.get_by_id_for_update_tx
  update_task_tx_rule user_id task_id raw refused answered =
      begin_rule (Then (λ _. defer rollback (fetch >>= write)) P) w (refused _ _ refl) (
        parse_update_rule (Then write Q) user_id task_id raw w₀ (λ e n. refused e _ refl)
          (λ task cs granted n.
            write_update_tx_rule task_id task (build_task_diff_entries task user_id cs) n refused
              (answered task cs granted)))
    where
      Q : Result ℕ × World → Type 0
      Q (r, w') = P (r, rollback w')

      fetch : M (Task × List Change)
      fetch = parse_update (Tasks.get_by_id_for_update_tx task_id) user_id raw

      write : Task × List Change → M ℕ
      write (task, cs) = write_update_tx task_id task (build_task_diff_entries task user_id cs)

      w₀ : World
      w₀ = record (tick w) { saved = some w.tables }

  write_update_rule :
      (task_id : ℕ) (task : Task) (updates : List Change) (n : ℕ)
      → ((e : Error) (w' : World) → w'.tables ≡ w.tables → P (err e, w'))
      → ((w' : World)
          → w'.tables ≡ write_row task_id updates w.tables
          → P (err external, w') × P (ok task.team_id, w'))
      → P (write_update task_id task updates (at w n))
  unfolding write_update Tasks.update
  write_update_rule task_id task [] n refused answered = (answered _ refl).1
  write_update_rule task_id task (c ∷ cs) n refused answered =
      exec_rule (Then (λ _. pure task.team_id) P) _ (at w n) (refused _ _ refl) (answered _ refl).0
        (answered _ refl).1

  pub update_task_no_tx_rule :
      (user_id task_id : ℕ) (raw : List (String × RawMessage))
      → ((e : Error) (w' : World) → w'.tables ≡ w.tables → P (err e, w'))
      → ((task : Task) (cs : List Change)
          → IsGranted w.tables user_id task_id raw task cs
          → (w' : World)
          → w'.tables ≡ write_row task_id (build_task_diff_entries task user_id cs).0 w.tables
          → P (err external, w') × P (ok task.team_id, w'))
      → P (update_task_no_tx user_id task_id raw w)
  unfolding update_task_no_tx Tasks.get_by_id
  update_task_no_tx_rule user_id task_id raw refused answered =
      parse_update_rule (Then write P) user_id task_id raw w (λ e n. refused e _ refl)
        (λ task cs granted n.
          write_update_rule task_id task (build_task_diff_entries task user_id cs).0 n refused
            (answered task cs granted))
    where
      write : Task × List Change → M ℕ
      write (task, cs) = write_update task_id task (build_task_diff_entries task user_id cs).0
