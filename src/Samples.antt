-- ===== src/Samples.antt =====
-- A small state for the tests and witnesses: one team with an owner and a member, and one task.
use mkk_luna.Prelude.{ℕ, ◌*◌, String, none, some, [], ◌∷◌, ◌=s◌}
use mkk_luna.Schema.{User, Team, TeamMember, Task, TaskComment, Tables}
use mkk_luna.World.{works, granted, Services, World}

abbrev pub ann : ℕ
ann = 1

abbrev pub bob : ℕ
bob = 2

abbrev pub eve : ℕ
eve = 3

abbrev pub user : ℕ → String → User
user id name = record { id = id; email = name; username = name; password_hash = "h" }

abbrev pub team : Team
team = record { id = 1; name = "core"; created_by = some ann; created_at = 0 }

abbrev pub place : ℕ → String → TeamMember
place user_id role = record { team_id = 1; user_id = user_id; role = role; created_at = 0 }

abbrev pub task : Task
task = record {
  id = 1;
  team_id = 1;
  title = "plan";
  description = none;
  status = "todo";
  priority = "low";
  assignee_id = none;
  created_by = some ann;
  due_date = none;
  created_at = 0;
  updated_at = 0;
}

abbrev pub comment : TaskComment
comment = record { id = 1; task_id = 1; user_id = bob; body = "hi"; created_at = 0; updated_at = 0 }

abbrev pub tables : Tables
tables = record {
  users = user ann "ann" ∷ user bob "bob" ∷ user eve "eve" ∷ [];
  teams = team ∷ [];
  members = place ann "owner" ∷ place bob "member" ∷ [];
  tasks = task ∷ [];
  history = [];
  comments = comment ∷ [];
  sessions = [];
  next_user = 4;
  next_team = 2;
  next_task = 2;
  next_history = 1;
  next_comment = 2;
  next_session = 1;
  clock = 100;
}

-- Every service works.
abbrev pub services : Services
services = record {
  mysql = λ _. works;
  collate = ◌=s◌;
  mail = λ _. works;
  acquire = λ _. granted "token";
  release = λ _. works;
  redis = λ _. works;
  now = λ n. 1000 * n;
  uuid = λ _. "uuid";
}

abbrev pub world : World
world = record {
  tables = tables;
  saved = none;
  calls = 0;
  outbox = [];
  locks = [];
  redis = λ _. none;
  services = services;
}
