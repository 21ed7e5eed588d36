-- ===== src/Integrity/Tests.antt =====
-- A run of the task and team services, and the invariant at it.
use mkk_luna.Prelude.{◌≡◌, refl, some, none, [], arith, true}
use mkk_luna.World.{World}
use mkk_luna.Samples as Samples
use mkk_luna.Samples.{ann, bob, eve}
use mkk_luna.Repository.Analytics.{integrity_issues, issues_of}
use mkk_luna.Task.Service.{CreateTaskInput, create_task}
use mkk_luna.Team.Service.{TeamService, invite_by_email}
use mkk_luna.Integrity.Steps.{Step, Reach, integrity_issues-Reach}

abbrev input : CreateTaskInput
input = record {
  team_id = 1;
  title = "ship";
  description = "";
  status = "";
  priority = "";
  assignee_id = some bob;
  due_date = none;
}

abbrev service : TeamService
service = record { has_locker = true; has_email = true }

abbrev w₁ : World
w₁ = (invite_by_email service ann 1 "eve" "member" Samples.world).1

abbrev w₂ : World
w₂ = (create_task eve input w₁).1

path : Reach Samples.world w₂
path =
    Reach.next (Reach.next Reach.start (Step.invites service ann 1 "eve" "member"))
      (Step.creates_task eve input)

integrity_issues-Reach_example : integrity_issues w₂.tables ≡ []
unfolding integrity_issues issues_of
integrity_issues-Reach_example =
    integrity_issues-Reach Samples.world w₂ refl (omega arith, tt) (tt, tt) path
