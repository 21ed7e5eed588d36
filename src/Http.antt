-- ===== src/Http.antt =====
-- What a handler answers (pkg/api/response/response.go and the response types of internal/api). The
-- JSON of a body is left to encoding/json: a body is the value that is encoded.
use mkk_luna.Prelude.{ℕ, String, Option, none, List}
use mkk_luna.Schema.{Json}

-- internal/api/tasks.go: `taskResponse`. A due date is a day.
pub record TaskResponse : Type 0 where
  pub id : ℕ
  pub team_id : ℕ
  pub title : String
  pub description : Option String
  pub status : String
  pub priority : String
  pub assignee_id : Option ℕ
  pub created_by : Option ℕ
  pub due_date : Option ℕ
  pub created_at : ℕ
  pub updated_at : ℕ

-- internal/api/tasks.go: `taskHistoryItemResponse`.
pub record TaskHistoryItem : Type 0 where
  pub id : ℕ
  pub task_id : ℕ
  pub changed_by : Option ℕ
  pub field_name : String
  pub old_value : Option Json
  pub new_value : Option Json
  pub created_at : ℕ

-- internal/api/comments.go: `commentResponse`.
pub record CommentResponse : Type 0 where
  pub id : ℕ
  pub task_id : ℕ
  pub user_id : ℕ
  pub body : String
  pub created_at : ℕ
  pub updated_at : ℕ

-- internal/repository/analytics_repo.go: the rows of the statistics.
pub record TeamDoneStat : Type 0 where
  pub team_id : ℕ
  pub team_name : String
  pub members_count : ℕ
  pub done_count : ℕ

pub record TeamTopCreator : Type 0 where
  pub team_id : ℕ
  pub user_id : Option ℕ
  pub created_count : ℕ
  pub rank : ℕ

pub record TaskIntegrityIssue : Type 0 where
  pub task_id : ℕ
  pub team_id : ℕ
  pub assignee_id : ℕ

pub data Body : Type 0 where
  -- `ErrorResponse` with its message.
  error : String → Body
  status_ok : Body
  created : ℕ → Body
  registered : ℕ → Body
  tokens : String → String → Body
  teams : List (ℕ × String) → Body
  task : TaskResponse → Body
  -- The items, the total, the limit and the offset.
  tasks : List TaskResponse → ℕ → ℕ → ℕ → Body
  history : List TaskHistoryItem → ℕ → ℕ → ℕ → Body
  comments : List CommentResponse → Body
  done_stats : List TeamDoneStat → Body
  top_creators : List TeamTopCreator → Body
  integrity : List TaskIntegrityIssue → Body

-- The headers are those that the handlers set beside the content type, which is always that of JSON:
-- `Location` names a user, and `Retry-After` is in seconds.
pub record Response : Type 0 where
  pub status : ℕ
  pub body : Body
  pub location : Option ℕ
  pub retry_after : Option ℕ

-- `response.JSON` and `response.Error`.
abbrev pub json : ℕ → Body → Response
json status body = record { status = status; body = body; location = none; retry_after = none }

abbrev pub failure : ℕ → String → Response
failure status msg = json status (Body.error msg)

-- internal/infra/idempotency/store.go: `StoredResponse`.
pub record StoredResponse : Type 0 where
  pub status : ℕ
  pub body : Body
  pub location : Option ℕ
  pub request_hash : String
  pub created_at : ℕ
