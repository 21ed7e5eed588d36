-- ===== src/Integrity.antt =====
-- The invariant behind the integrity query of internal/repository/analytics_repo.go: whatever the task
-- and team services do, an assignee is a member of the task's team.
pub mod Statements
pub mod Steps
mod Tests
use mathlib.Core.Path.{subst}
use mkk_luna.Prelude.{
  ℕ, suc, ◌<◌, ◌≡◌, ◌≢◌, ◌↔◌, refl, sym, ap, ◌∙◌, inl, inr, String, Bool, true, false, Option, none,
  some, List, [], ◌∷◌, ◌++◌, All, All-concat, All-update_where, All-delete_where, All-imply, find,
  find-append_some, update_where, delete_where, Option-cases, Bool-cases, ◌==◌, ==_iff, arith,
  find_sound, if◌then◌else◌, ◌&&◌,
}
use mkk_luna.Schema.{Task, TeamMember, TaskHistoryCreate, Tables}
use mkk_luna.World.{World, Result, ok, err}
use mkk_luna.Repository.Tasks.{
  Change, NewTask, set_column, set_columns, insert_task, write_task, remove_task, task_of,
}
use mkk_luna.Repository.Members.{is_in_team, is_some, member_of, insert_member}
use mkk_luna.Repository.History.{insert_entry, insert_entries}
use mkk_luna.Repository.Analytics.{integrity_issues, issues_of, issue, is_orphan}
use mkk_luna.Repository.Teams.{insert_team}
use mkk_luna.Http.{TaskIntegrityIssue}
use mkk_luna.Task.Patch.Rules.{IsAssignable, IsAcceptable}
use mkk_luna.Task.Records.{set_columns-id}
use mkk_luna.Task.Atomicity.{AllOrNothing}

abbrev pub IsAssigned : Tables → Task → Type 0
IsAssigned t r = IsAssignable t r.team_id r.assignee_id

-- No identifier stands twice.
abbrev pub IsKeyed : List Task → Type 0
IsKeyed [] = Unit
IsKeyed (r ∷ rs) = All (λ s. s.id ≢ r.id) rs × IsKeyed rs

-- Assignees are members, and identifiers are distinct and below the counter.
abbrev pub IsIntact : Tables → Type 0
IsIntact t = All (IsAssigned t) t.tasks × (All (λ r. r.id < t.next_task) t.tasks × IsKeyed t.tasks)

issue_iff :
    (t : Tables) (r : Task) (o : Option ℕ) (rest : List TaskIntegrityIssue) {Q : Type 0}
    → (rest ≡ []) ↔ Q
    → ((if is_orphan t r o then issue r o rest else rest) ≡ []) ↔ (IsAssignable t r.team_id o × Q)
issue_iff t r none rest h = ((λ e. (tt, h.0 e)), (λ q. h.1 q.1))
issue_iff t r (some a) rest h = elim (Bool-cases (is_in_team t r.team_id a)) [
  | inl e ↦ rw e ((λ f. (refl, h.0 f)), (λ q. h.1 q.1))
  | inr e ↦ rw e ((λ f. absurd (cons_nil f)), (λ q. cc))
]
  where
    cons_nil : {x : TaskIntegrityIssue} {xs : List TaskIntegrityIssue} → x ∷ xs ≢ []
    cons_nil e = cc

issues_of_iff : (t : Tables) (rs : List Task) → (issues_of t rs ≡ []) ↔ All (IsAssigned t) rs
unfolding issues_of
issues_of_iff t [] = ((λ h. tt), (λ h. refl))
issues_of_iff t (r ∷ rs) = issue_iff t r r.assignee_id (issues_of t rs) (issues_of_iff t rs)

-- The integrity query answers no rows exactly when every assignee is a member of the task's team.
pub integrity_issues_iff : (t : Tables) → (integrity_issues t ≡ []) ↔ All (IsAssigned t) t.tasks
unfolding integrity_issues
integrity_issues_iff t = issues_of_iff t t.tasks
