-- ===== src/Api/Tests.antt =====
-- The theorem on the writing handlers at concrete requests.
use mkk_luna.Prelude.{true, some, none, [], ◌∷◌}
use mkk_luna.Samples.{world, ann}
use mkk_luna.Task.Patch.{RawMessage}
use mkk_luna.Team.Service.{TeamService}
use mkk_luna.Api.Tasks as Tasks
use mkk_luna.Api.Tasks.{TaskHandler, CreateTaskRequest}
use mkk_luna.Api.Comments as Comments
use mkk_luna.Api.Teams as Teams
use mkk_luna.Api.Teams.{InviteRequest}
use mkk_luna.Api.Tasks.Laws.{IsHonest}
use mkk_luna.Api.Honesty.{handlers-IsHonest}

abbrev tasks : TaskHandler
tasks = record { tasks = record { has_db = true; has_history = true }; cache = none }

abbrev teams : TeamService
teams = record { has_locker = true; has_email = true }

abbrev task : CreateTaskRequest
task = record {
  team_id = 1;
  title = " ship ";
  description = "";
  status = "";
  priority = "";
  assignee_id = none;
  due_date = some "2026-11-31";
}

abbrev invitation : InviteRequest
invitation = record { email = "eve"; role = "" }

handlers-IsHonest_example :
    (IsHonest world.tables (Tasks.create tasks (some ann) (some task) world)
      × (IsHonest world.tables
            (Tasks.update tasks (some ann) "1" (some (("title", RawMessage.null) ∷ [])) world)
          × IsHonest world.tables (Tasks.delete tasks (some ann) "1" world)))
    × ((IsHonest world.tables (Comments.create (some ann) "1" (some " hi ") world)
          × (IsHonest world.tables (Comments.update (some ann) "1" (some " hi ") world)
              × IsHonest world.tables (Comments.delete (some ann) "1" world)))
        × (IsHonest world.tables (Teams.create (some ann) (some "core") world)
            × IsHonest world.tables (Teams.invite teams (some ann) "1" (some invitation) world)))
handlers-IsHonest_example =
    handlers-IsHonest world (some ann) tasks teams (some task) "1"
      (some (("title", RawMessage.null) ∷ [])) (some " hi ") (some "core") (some invitation)
