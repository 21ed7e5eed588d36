-- ===== src/Integrity/Steps.antt =====
-- The methods of internal/service/task.go and team.go, in any order and however their calls end, keep the
-- tables intact.
use mathlib.Core.Path.{subst}
use mkk_luna.Prelude.{
  ℕ, ◌<◌, ◌≡◌, sym, inl, inr, String, ◌&&◌, List, [], ◌∷◌, All, some, Bool-cases,
}
use mkk_luna.Schema.{Task, User, TaskHistoryCreate, Tables}
use mkk_luna.World.{World, Result, ok, err}
use mkk_luna.Repository.Tasks.{Change, task_of, write_task}
use mkk_luna.Repository.History.{insert_entries}
use mkk_luna.Repository.Members.{is_in_team, member_of, insert_member}
use mkk_luna.Repository.Comments.{insert_comment, write_comment, remove_comment}
use mkk_luna.Repository.Analytics.{integrity_issues}
use mkk_luna.Task.Patch.{RawMessage}
use mkk_luna.Task.Patch.Rules.{IsAcceptable}
use mkk_luna.Task.Diff.{build_task_diff_entries}
use mkk_luna.Task.Audit.{All-updates}
use mkk_luna.Task.Rules.Update.{write_all, write_row, update_task_tx_rule, update_task_no_tx_rule}
use mkk_luna.Task.Rules.Delete.{delete_task_tx_rule, delete_task_no_tx_rule}
use mkk_luna.Task.Rules.Others.{
  create_task_rule, create_comment_rule, update_comment_rule, delete_comment_rule,
}
use mkk_luna.Task.Service.{
  TaskService, CreateTaskInput, new_task, deletion_entry, create_task, update_task, delete_task,
  create_comment, update_comment, delete_comment,
}
use mkk_luna.Task.Atomicity.{AllOrNothing}
use mkk_luna.Team.Service.{TeamService, create_team, invite_by_email}
use mkk_luna.Team.Laws.{IsInvited, IsTeamCreated, create_team_atomic, invite_by_email-IsInvited}
use mkk_luna.Repository.Teams.{insert_team}
use mkk_luna.Task.Fields.{role_owner}
use mkk_luna.Integrity.{IsKeyed, IsIntact, integrity_issues_iff}
use mkk_luna.Integrity.Statements.{
  IsIntact-grown, insert_member-IsGrown, insert_team-IsGrown, insert_entries-IsGrown,
  insert_task-IsIntact, write_task-IsIntact, remove_task-IsIntact,
}

-- The outcome of a method leaves the tables intact.
abbrev IsFine : {A : Type 0} → Result A × World → Type 0
IsFine (r, w') = IsIntact w'.tables

same_tables : (t : Tables) {t' : Tables} → IsIntact t → t' ≡ t → IsIntact t'
same_tables t intact same = subst IsIntact (sym same) intact

write_row-IsIntact :
    (t : Tables) (id : ℕ) (cs : List Change) (task : Task)
    → task_of t id ≡ some task
    → All (IsAcceptable t task.team_id) cs
    → IsIntact t
    → IsIntact (write_row id cs t)
write_row-IsIntact t id [] task found acceptable intact = intact
write_row-IsIntact t id (c ∷ cs) task found acceptable intact =
    write_task-IsIntact t id (c ∷ cs) task found acceptable intact

write_all-IsIntact :
    (t : Tables) (id : ℕ) (diff : List Change × List TaskHistoryCreate) (task : Task)
    → task_of t id ≡ some task
    → All (IsAcceptable t task.team_id) diff.0
    → IsIntact t
    → IsIntact (write_all id diff t)
write_all-IsIntact t id ([], es) task found acceptable intact = intact
write_all-IsIntact t id (c ∷ cs, es) task found acceptable intact =
    let t' = write_task id (c ∷ cs) t in
    IsIntact-grown t' (insert_entries es t') (insert_entries-IsGrown es t')
      (write_task-IsIntact t id (c ∷ cs) task found acceptable intact)

module _ (w : World) (intact : IsIntact w.tables) (user_id : ℕ) where
  create_task-IsFine : (input : CreateTaskInput) → IsFine (create_task user_id input w)
  unfolding new_task
  create_task-IsFine input =
      create_task_rule IsFine w user_id input (λ e w' same. same_tables w.tables intact same)
        (λ (team, found, is_in, status, priority, assignable) w' written.
          let now =
            same_tables _ (insert_task-IsIntact w.tables (new_task user_id input) assignable intact)
              written in
          (now, now))

  update_task-IsFine :
      (s : TaskService) (task_id : ℕ) (raw : List (String × RawMessage))
      → IsFine (update_task s user_id task_id raw w)
  unfolding update_task
  update_task-IsFine s task_id raw = elim (Bool-cases (s.has_db && s.has_history)) [
    | inl on ↦
        rw (on, update_task)
          (update_task_tx_rule IsFine w user_id task_id raw
            (λ e w' same. same_tables w.tables intact same)
            (λ task cs (role, parsed, found, has, acceptable, allowed) w' written.
              let now =
                same_tables _
                  (write_all-IsIntact w.tables task_id (build_task_diff_entries task user_id cs)
                    task found (All-updates _ task user_id cs acceptable) intact)
                  written in
              (now, now)))
    | inr off ↦
        rw (off, update_task)
          (update_task_no_tx_rule IsFine w user_id task_id raw
            (λ e w' same. same_tables w.tables intact same)
            (λ task cs (role, parsed, found, has, acceptable, allowed) w' written.
              let now =
                same_tables _
                  (write_row-IsIntact w.tables task_id (build_task_diff_entries task user_id cs).0
                    task found (All-updates _ task user_id cs acceptable) intact)
                  written in
              (now, now)))
  ]

  delete_task-IsFine : (s : TaskService) (task_id : ℕ) → IsFine (delete_task s user_id task_id w)
  unfolding delete_task
  delete_task-IsFine s task_id = elim (Bool-cases (s.has_db && s.has_history)) [
    | inl on ↦
        rw (on, delete_task)
          (delete_task_tx_rule IsFine w user_id task_id
            (λ e w' same. same_tables w.tables intact same)
            (λ task may w' written.
              let es = deletion_entry user_id task ∷ [] in
              let t = insert_entries es w.tables in
              let now =
                same_tables _
                  (remove_task-IsIntact t task_id
                    (IsIntact-grown w.tables t (insert_entries-IsGrown es w.tables) intact))
                  written in
              (now, now)))
    | inr off ↦
        rw (off, delete_task)
          (delete_task_no_tx_rule IsFine w user_id task_id
            (λ e w' same. same_tables w.tables intact same)
            (λ task may w' written.
              let now = same_tables _ (remove_task-IsIntact w.tables task_id intact) written in
              (now, now)))
  ]

  create_comment-IsFine :
      (task_id : ℕ) (body : String) → IsFine (create_comment user_id task_id body w)
  unfolding insert_comment is_in_team member_of
  create_comment-IsFine task_id body =
      create_comment_rule IsFine w user_id task_id body
        (λ e w' same. same_tables w.tables intact same)
        (λ task found is_in w' written. let now = same_tables _ intact written in (now, now))

  update_comment-IsFine :
      (comment_id : ℕ) (body : String) → IsFine (update_comment user_id comment_id body w)
  unfolding write_comment is_in_team member_of
  update_comment-IsFine comment_id body =
      update_comment_rule IsFine w user_id comment_id body
        (λ e w' same. same_tables w.tables intact same)
        (λ may w' written. let now = same_tables _ intact written in (now, now))

  delete_comment-IsFine : (comment_id : ℕ) → IsFine (delete_comment user_id comment_id w)
  unfolding remove_comment is_in_team member_of
  delete_comment-IsFine comment_id =
      delete_comment_rule IsFine w user_id comment_id
        (λ e w' same. same_tables w.tables intact same)
        (λ may w' written. let now = same_tables _ intact written in (now, now))

  create_team-IsFine : (name : String) → IsFine (create_team user_id name w)
  create_team-IsFine name = go (create_team user_id name w) (create_team_atomic w user_id name)
    where
      done : (id : ℕ) (t' : Tables) → IsTeamCreated w.tables user_id name id t' → IsIntact t'
      done id t' (same, now) =
          let t = (insert_team name user_id w.tables).1 in
          let begun =
            IsIntact-grown w.tables t (insert_team-IsGrown w.tables user_id name) intact in
          same_tables _ (IsIntact-grown t _ (insert_member-IsGrown t id user_id role_owner) begun)
            now

      go :
          (out : Result ℕ × World)
          → AllOrNothing w.tables (IsTeamCreated w.tables user_id name) out
          → IsFine out
      go (ok id, w') h = done id w'.tables h
      go (err e, w') (inl same) = same_tables w.tables intact same
      go (err e, w') (inr (_, (id, h))) = done id w'.tables h

  invite_by_email-IsFine :
      (s : TeamService) (team_id : ℕ) (email role : String)
      → IsFine (invite_by_email s user_id team_id email role w)
  invite_by_email-IsFine s team_id email role =
      go (invite_by_email s user_id team_id email role w)
        (invite_by_email-IsInvited s w user_id team_id email role)
    where
      added :
          (user : User) (t' : Tables)
          → t' ≡ (insert_member team_id user.id role w.tables).1
          → IsIntact t'
      added user t' now =
          same_tables _
            (IsIntact-grown w.tables _ (insert_member-IsGrown w.tables team_id user.id role) intact)
            now

      go :
          (out : Result (Unit {0}) × World)
          → IsInvited w s user_id team_id email role out
          → IsFine out
      go (ok _, w') (team, user, _, _, now, _) = added user w'.tables now
      go (err e, w') (inl (same, _)) = same_tables w.tables intact same
      go (err e, w') (inr (team, user, _, _, inl (same, _))) = same_tables w.tables intact same
      go (err e, w') (inr (team, user, _, _, inr (_, now, _))) = added user w'.tables now

-- A call of a writing method of the two services, or anything else that leaves the tasks, their counter
-- and the memberships as they are.
pub data Step (w : World) : World → Type 0 where
  creates_task : (user_id : ℕ) (input : CreateTaskInput) → Step w (create_task user_id input w).1
  updates_task :
      (s : TaskService) (user_id task_id : ℕ) (raw : List (String × RawMessage))
      → Step w (update_task s user_id task_id raw w).1
  deletes_task :
      (s : TaskService) (user_id task_id : ℕ) → Step w (delete_task s user_id task_id w).1
  creates_comment :
      (user_id task_id : ℕ) (body : String) → Step w (create_comment user_id task_id body w).1
  updates_comment :
      (user_id comment_id : ℕ) (body : String) → Step w (update_comment user_id comment_id body w).1
  deletes_comment : (user_id comment_id : ℕ) → Step w (delete_comment user_id comment_id w).1
  creates_team : (user_id : ℕ) (name : String) → Step w (create_team user_id name w).1
  invites :
      (s : TeamService) (user_id team_id : ℕ) (email role : String)
      → Step w (invite_by_email s user_id team_id email role w).1
  passes_by :
      (w' : World)
      → w'.tables.tasks ≡ w.tables.tasks
      → w'.tables.next_task ≡ w.tables.next_task
      → w'.tables.members ≡ w.tables.members
      → Step w w'

pub data Reach (w : World) : World → Type 0 where
  start : Reach w w
  next : {w' w'' : World} → Reach w w' → Step w' w'' → Reach w w''

IsIntact-Step : {w w' : World} → Step w w' → IsIntact w.tables → IsIntact w'.tables
unfolding is_in_team member_of
IsIntact-Step {w} (creates_task user_id input) h = create_task-IsFine w h user_id input
IsIntact-Step {w} (updates_task s user_id task_id raw) h =
    update_task-IsFine w h user_id s task_id raw
IsIntact-Step {w} (deletes_task s user_id task_id) h = delete_task-IsFine w h user_id s task_id
IsIntact-Step {w} (creates_comment user_id task_id body) h =
    create_comment-IsFine w h user_id task_id body
IsIntact-Step {w} (updates_comment user_id comment_id body) h =
    update_comment-IsFine w h user_id comment_id body
IsIntact-Step {w} (deletes_comment user_id comment_id) h =
    delete_comment-IsFine w h user_id comment_id
IsIntact-Step {w} (creates_team user_id name) h = create_team-IsFine w h user_id name
IsIntact-Step {w} (invites s user_id team_id email role) h =
    invite_by_email-IsFine w h user_id s team_id email role
IsIntact-Step {w} (passes_by w' tasks counter members) h =
    IsIntact-grown w.tables w'.tables (tasks, (counter, (λ a b g. rw members g))) h

IsIntact-Reach : {w w' : World} → Reach w w' → IsIntact w.tables → IsIntact w'.tables
IsIntact-Reach start h = h
IsIntact-Reach (next path step) h = IsIntact-Step step (IsIntact-Reach path h)

-- Whatever calls of the writing methods of the task and team services follow each other, with whatever
-- arguments and however their calls of MySQL, of the lock and of the mail service end, the integrity query
-- answers no rows, if it answers none at first and the identifiers of tasks are then distinct and below
-- their counter. Other methods may run in between that leave the tasks and the memberships as they are.
pub integrity_issues-Reach :
    (w w' : World)
    → integrity_issues w.tables ≡ []
    → All (λ r. r.id < w.tables.next_task) w.tables.tasks
    → IsKeyed w.tables.tasks
    → Reach w w'
    → integrity_issues w'.tables ≡ []
integrity_issues-Reach w w' clean below keyed path =
    let (assigned, rest) =
      IsIntact-Reach path ((integrity_issues_iff w.tables).0 clean, (below, keyed)) in
    (integrity_issues_iff w'.tables).1 assigned
