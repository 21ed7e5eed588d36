-- ===== src/Schema.antt =====
-- The rows that the repositories read and write (internal/repository: the structs with `db` tags),
-- and the tables of the database (migrations). Identifiers are only compared, so they are natural
-- numbers; a moment is a number of seconds, and a nullable column is an option.
use mkk_luna.Prelude.{ℕ, String, Option, List}

pub record User : Type 0 where
  pub id : ℕ
  pub email : String
  pub username : String
  pub password_hash : String

pub record Team : Type 0 where
  pub id : ℕ
  pub name : String
  pub created_by : Option ℕ
  pub created_at : ℕ

pub record TeamMember : Type 0 where
  pub team_id : ℕ
  pub user_id : ℕ
  pub role : String
  pub created_at : ℕ

pub record Task : Type 0 where
  pub id : ℕ
  pub team_id : ℕ
  pub title : String
  pub description : Option String
  pub status : String
  pub priority : String
  pub assignee_id : Option ℕ
  pub created_by : Option ℕ
  pub due_date : Option ℕ
  pub created_at : ℕ
  pub updated_at : ℕ

-- The payload of a `task_deleted` entry; dates are days.
pub record Snapshot : Type 0 where
  pub id : ℕ
  pub title : String
  pub description : Option String
  pub status : String
  pub assignee_id : Option ℕ
  pub priority : String
  pub due_date : Option ℕ

-- The JSON values that the history holds. `day` is a date text, by the day that it spells.
pub data Json : Type 0 where
  null : Json
  text : String → Json
  number : ℕ → Json
  day : ℕ → Json
  snapshot : Snapshot → Json

pub record TaskHistory : Type 0 where
  pub id : ℕ
  pub task_id : ℕ
  pub changed_by : Option ℕ
  pub field_name : String
  pub old_value : Option Json
  pub new_value : Option Json
  pub created_at : ℕ

pub record TaskHistoryCreate : Type 0 where
  pub task_id : ℕ
  pub changed_by : Option ℕ
  pub field_name : String
  pub old_value : Option Json
  pub new_value : Option Json

pub record TaskComment : Type 0 where
  pub id : ℕ
  pub task_id : ℕ
  pub user_id : ℕ
  pub body : String
  pub created_at : ℕ
  pub updated_at : ℕ

pub record Session : Type 0 where
  pub id : ℕ
  pub user_id : ℕ
  pub token_hash : String
  pub expires_at : ℕ
  pub revoked_at : Option ℕ
  pub last_used_at : Option ℕ
  pub user_agent : Option String
  pub ip : Option String
  pub created_at : ℕ

-- The tables, the counters of their AUTO_INCREMENT columns and the server's clock.
pub record Tables : Type 0 where
  pub users : List User
  pub teams : List Team
  pub members : List TeamMember
  pub tasks : List Task
  pub history : List TaskHistory
  pub comments : List TaskComment
  pub sessions : List Session
  pub next_user : ℕ
  pub next_team : ℕ
  pub next_task : ℕ
  pub next_history : ℕ
  pub next_comment : ℕ
  pub next_session : ℕ
  pub clock : ℕ
