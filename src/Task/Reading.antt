-- ===== src/Task/Reading.antt =====
-- The reading methods of the task service answer only to members, and change nothing.
use mathlib.Core.Path.{subst}
use mkk_luna.Prelude.{
  ℕ, ◌≤◌, ◌≡◌, refl, ap, ◌∙◌, String, Option, none, some, true, ==_iff, arith, List, All, All-imply,
  length, select, select-All, ◌==◌,
}
use mkk_luna.Prelude.Sort.{All-page, All-sort_by, page_length, length-page-le, length-page-sort_by}
use mkk_luna.Schema.{Task, Tables}
use mkk_luna.World.{World, M, Result, ok, err, bad_request, at, tick, ◌>>=◌, ◌>>◌}
use mkk_luna.World.Rules.{query_rule, query-bind, guard_rule, Then}
use mkk_luna.Repository.Tasks
use mkk_luna.Repository.Tasks.{TaskListFilter, matches, wants_status, wants_assignee, task_of}
use mkk_luna.Repository.Comments
use mkk_luna.Repository.History
use mkk_luna.Repository.Members.{is_in_team}
use mkk_luna.Task.Access.{task_as_member}
use mkk_luna.Task.Access.Rules.{team_as_member_rule, task_as_member_rule}
use mkk_luna.Task.Service.{TaskService, get_task, list_tasks, list_comments, get_task_history}

-- An answer holds what `Shown` says; no answer changes the tables.
abbrev pub IsReading : {A : Type 0} → World → (A → Type 0) → Result A × World → Type 0
IsReading w Shown (ok a, w') = Shown a × (w'.tables ≡ w.tables)
IsReading w Shown (err e, w') = w'.tables ≡ w.tables

-- The task is in the team, and has the status and the assignee where these are asked for.
abbrev pub IsWanted : World → TaskListFilter → Task → Type 0
IsWanted w f r =
    (r.team_id ≡ f.team_id)
    × ((s : String) → f.status ≡ some s → w.services.collate r.status s ≡ true)
    × ((a : ℕ) → f.assignee_id ≡ some a → r.assignee_id ≡ some a)

matches-IsWanted :
    (w : World) (f : TaskListFilter) (r : Task)
    → matches w.services.collate f r ≡ true
    → IsWanted w f r
unfolding matches
matches-IsWanted w f r h = (
  ground (arith, h, ==_iff r.team_id f.team_id),
  status f.status (ground (arith, h)),
  assignee f.assignee_id r.assignee_id (ground (arith, h)),
)
  where
    status :
        (o : Option String)
        → wants_status w.services.collate o r ≡ true
        → (s : String) → o ≡ some s
        → w.services.collate r.status s ≡ true
    status none h s e = cc
    status (some v) h s e = subst Asked e h
      where
        Asked : Option String → Type 0
        Asked none = Unit
        Asked (some x) = w.services.collate r.status x ≡ true

    assignee :
        (o has : Option ℕ)
        → wants_assignee o (record r { assignee_id = has }) ≡ true
        → (a : ℕ) → o ≡ some a
        → has ≡ some a
    assignee none has h a e = cc
    assignee (some b) none h a e = cc
    assignee (some b) (some c) h a e = ap some ((==_iff c b).0 h) ∙ e

abbrev pub IsListing : World → ℕ → TaskListFilter → List Task × ℕ → Type 0
IsListing w user_id f (tasks, total) =
    (is_in_team w.tables f.team_id user_id ≡ true)
    × All (IsWanted w f) tasks
    × (length tasks ≤ f.limit)
    × (length tasks ≡ page_length f.limit f.offset total)
    × (total ≡ length (select (matches w.services.collate f) w.tables.tasks))

-- The task that the identifier names, in a team of the caller.
abbrev pub IsVisible : Tables → ℕ → ℕ → Type 0
IsVisible t user_id task_id =
    (task : Task) × (task_of t task_id ≡ some task) × (is_in_team t task.team_id user_id ≡ true)

pub list_tasks-IsReading :
    (w : World) (user_id : ℕ) (f : TaskListFilter)
    → IsReading w (IsListing w user_id f) (list_tasks user_id f w)
unfolding list_tasks Tasks.list Tasks.list_by
list_tasks-IsReading w user_id f =
    team_as_member_rule (Then (λ _. Tasks.list f) P) user_id f.team_id w (λ _. refl) (λ _ _. refl)
      (λ _ _. refl)
      (λ team found is_in n. query-bind P _ _ (at w n) refl (
        query-bind P _ _ (tick (at w n)) refl (
          (
            is_in,
            All-page _ f.limit f.offset _ (
                All-sort_by _ _ _ (
                  All-imply _ _ _ (matches-IsWanted w f)
                    (select-All (matches w.services.collate f) _))),
            length-page-le f.limit f.offset _,
            length-page-sort_by f.limit f.offset _ _,
            refl,
          ),
          refl,
        )))
  where
    P : Result (List Task × ℕ) × World → Type 0
    P = IsReading w (IsListing w user_id f)

module _ (w : World) (user_id task_id : ℕ) where
  visible_rule :
      {A : Type 0} (Shown : A → Type 0) (k : Task → M A)
      → ((task : Task)
          → task_of w.tables task_id ≡ some task
          → IsVisible w.tables user_id task_id
          → (n : ℕ) → IsReading w Shown (k task (at w n)))
      → IsReading w Shown ((task_as_member user_id task_id >>= k) w)
  visible_rule Shown k shown =
      task_as_member_rule (Then k (IsReading w Shown)) user_id task_id w (λ _. refl) (λ _ _. refl)
        (λ _ _ _ _. refl) (λ task found is_in n. shown task found (task, found, is_in) n)

  -- `GetTask`, `ListComments` and `GetTaskHistory` answer only to a member of the task's team, with
  -- that task, with comments on it alone, and with at most `limit` entries of its history alone and
  -- their number. They change no table.
  pub get_task-IsVisible :
      (s : TaskService) (limit offset : ℕ)
      → IsReading w
          (λ task. IsVisible w.tables user_id task_id × (task_of w.tables task_id ≡ some task))
          (get_task user_id task_id w)
        × IsReading w
            (λ comments.
              IsVisible w.tables user_id task_id
              × All (λ c. (c.task_id == task_id) ≡ true) comments)
            (list_comments user_id task_id w)
        × IsReading w
            (λ (items, total).
              IsVisible w.tables user_id task_id
              × All (λ h. (h.task_id == task_id) ≡ true) items
              × (length items ≤ limit)
              × (total ≡ length (select (λ h. h.task_id == task_id) w.tables.history)))
            (get_task_history s user_id task_id limit offset w)
  unfolding get_task list_comments get_task_history Comments.list_by_task History.list_by_task
  get_task-IsVisible s limit offset = (
    task_as_member_rule (IsReading w _) user_id task_id w (λ _. refl) (λ _ _. refl)
        (λ _ _ _ _. refl) (λ task found is_in n. (((task, found, is_in), found), refl)),
    visible_rule _ (λ _. Comments.list_by_task task_id)
        (λ task found visible n.
          query_rule (IsReading w _) _ (at w n) refl
            ((visible, All-sort_by _ _ _ (select-All (λ c. c.task_id == task_id) _)), refl)),
    guard_rule (IsReading w _) s.has_history bad_request
        (task_as_member user_id task_id >> History.list_by_task task_id limit offset) w (λ _. refl)
        (λ _.
          visible_rule _ (λ _. History.list_by_task task_id limit offset)
            (λ task found visible n. query-bind (IsReading w _) _ _ (at w n) refl (
              query-bind (IsReading w _) _ _ (tick (at w n)) refl (
                (
                  visible,
                  All-page _ limit offset _
                      (All-sort_by _ _ _ (select-All (λ h. h.task_id == task_id) _)),
                  length-page-le limit offset _,
                  refl,
                ),
                refl,
              )))),
  )
