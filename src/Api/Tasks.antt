-- ===== src/Api/Tasks.antt =====
-- internal/api/tasks.go: the methods of `TaskHandler`. An argument of a method is what it reads of the request: the user of its context, the texts
-- of its path and query, and its body as encoding/json decodes it, none for an error.
pub mod Laws
pub mod Lists
mod Tests
use mathlib.Core.Option
use mkk_luna.Prelude.{
  ℕ, String, not, ◌&&◌, Option, none, some, List, [], ◌∷◌, map, leb, ltb, ◌=s◌, if◌then◌else◌,
}
use mkk_luna.Text.{codes, is_blank, trim_space, parse_date, format_date}
use mkk_luna.Schema.{Task, TaskHistory}
use mkk_luna.Http.{Response, Body, TaskResponse, TaskHistoryItem, json, failure}
use mkk_luna.World.{
  M, Error, not_found, forbidden, conflict, bad_request, unavailable, invalid_credentials,
  invalid_token, token_reuse, invalid_input, duplicate, external,
}
use mkk_luna.Auth.Tokens.{parse_int, format_int, max_int64}
use mkk_luna.Repository.Tasks.{TaskListFilter}
use mkk_luna.Task.Patch.{RawMessage}
use mkk_luna.Task.Service.{
  TaskService, CreateTaskInput, create_task, get_task, list_tasks, update_task, delete_task,
  get_task_history,
}
use mkk_luna.Team.Service.{ensure_member_role}
use mkk_luna.TaskCache.{TaskCache, Filters, get_list, set_list, invalidate_team}
use mkk_luna.Api.Helpers.{with_user, or_invalid, parse_id, positive, serve}
use mkk_luna.Api.{Handler, answer, attempt}

pub record TaskHandler : Type 0 where
  pub tasks : TaskService
  pub cache : Option TaskCache

unfoldable pub to_task_response : Task → TaskResponse
to_task_response t = record {
  id = t.id;
  team_id = t.team_id;
  title = t.title;
  description = t.description;
  status = t.status;
  priority = t.priority;
  assignee_id = t.assignee_id;
  created_by = t.created_by;
  due_date = Option.map format_date t.due_date;
  created_at = t.created_at;
  updated_at = t.updated_at;
}

unfoldable pub to_task_history_response : TaskHistory → TaskHistoryItem
to_task_history_response h = record {
  id = h.id;
  task_id = h.task_id;
  changed_by = h.changed_by;
  field_name = h.field_name;
  old_value = h.old_value;
  new_value = h.new_value;
  created_at = h.created_at;
}

abbrev pub within : ℕ → Option ℕ → ℕ
within default none = default
within default (some n) = if leb n max_int64 then n else default

unfoldable pub parse_query_int : String → ℕ → ℕ
unfolding parse_int
parse_query_int v default = if v =s "" then default else within default (parse_int (codes v))

abbrev pub at_most : ℕ → Option ℕ → Option ℕ
at_most max none = none
at_most max (some n) = if leb n max then some n else none

unfoldable pub parse_strict_positive_int : String → ℕ → ℕ → Option ℕ
unfolding parse_int
parse_strict_positive_int v default max =
    if v =s "" then some default else at_most max (positive (parse_int (codes v)))

unfoldable pub parse_strict_non_negative_int : String → ℕ → Option ℕ
unfolding parse_int
parse_strict_non_negative_int v default =
    if v =s "" then some default else at_most max_int64 (parse_int (codes v))

-- `_ = h.cache.InvalidateTeam(…)`, then the answer.
unfoldable pub invalidated : Option TaskCache → ℕ → Response → Handler
unfolding invalidate_team
invalidated none team_id r = answer r
invalidated (some c) team_id r = attempt (invalidate_team c team_id) (λ e. answer r) (λ u. answer r)

pub record CreateTaskRequest : Type 0 where
  pub team_id : ℕ
  pub title : String
  pub description : String
  pub status : String
  pub priority : String
  pub assignee_id : Option ℕ
  pub due_date : Option String

-- `time.Parse`, if there is a date: none for an error.
abbrev pub parse_due : Option String → Option (Option ℕ)
parse_due none = some none
parse_due (some s) = Option.map some (parse_date s)

unfoldable pub input_of : CreateTaskRequest → ℕ → Option ℕ → CreateTaskInput
unfolding trim_space
input_of req team_id due = record {
  team_id = team_id;
  title = trim_space req.title;
  description = req.description;
  status = trim_space req.status;
  priority = trim_space req.priority;
  assignee_id = req.assignee_id;
  due_date = due;
}

abbrev pub titled : CreateTaskRequest → Option CreateTaskRequest
titled req = if is_blank req.title then none else some req

module _ (h : TaskHandler) where
  unfoldable pub create : Option ℕ → Option CreateTaskRequest → Handler
  unfolding with_user invalidated input_of
  create user decoded = with_user user λ user_id. or_invalid decoded λ req.
      or_invalid (positive (some req.team_id)) λ team_id. or_invalid (titled req) λ _.
        or_invalid (parse_due req.due_date) λ due.
          serve (create_task user_id (input_of req team_id due))
            λ id. invalidated h.cache team_id (json 201 (Body.created id))

  unfoldable pub get : Option ℕ → String → Handler
  unfolding with_user parse_id to_task_response
  get user id = with_user user λ user_id. or_invalid (parse_id id) λ task_id.
      serve (get_task user_id task_id) λ task. answer (json 200 (Body.task (to_task_response task)))

  -- `len(raw) == 0`.
  abbrev pub nonempty : List (String × RawMessage) → Option (List (String × RawMessage))
  nonempty [] = none
  nonempty (e ∷ raw) = some (e ∷ raw)

  unfoldable pub update : Option ℕ → String → Option (List (String × RawMessage)) → Handler
  unfolding with_user parse_id invalidated
  update user id decoded = with_user user λ user_id. or_invalid (parse_id id) λ task_id.
      or_invalid decoded λ raw. or_invalid (nonempty raw) λ _.
        serve (update_task h.tasks user_id task_id raw)
          λ team_id. invalidated h.cache team_id (json 200 Body.status_ok)

  unfoldable pub delete : Option ℕ → String → Handler
  unfolding with_user parse_id invalidated
  delete user id = with_user user λ user_id. or_invalid (parse_id id) λ task_id.
      serve (delete_task h.tasks user_id task_id)
        λ team_id. invalidated h.cache team_id (json 200 Body.status_ok)

  unfoldable pub history : Option ℕ → String → String → String → Handler
  unfolding with_user parse_id parse_strict_positive_int parse_strict_non_negative_int
      to_task_history_response
  history user id limit_text offset_text = with_user user λ user_id.
      or_invalid (parse_id id) λ task_id.
        or_invalid (parse_strict_positive_int limit_text 20 100) λ limit.
          or_invalid (parse_strict_non_negative_int offset_text 0) λ offset.
            serve (get_task_history h.tasks user_id task_id limit offset) λ (items, total).
              answer
                (json 200 (Body.history (map to_task_history_response items) total limit offset))

-- The texts of the query of `List`.
pub record ListQuery : Type 0 where
  pub team_id : String
  pub status : String
  pub assignee_id : String
  pub limit : String
  pub offset : String

unfoldable pub limit_of : ListQuery → ℕ
unfolding parse_query_int
limit_of q = let n = parse_query_int q.limit 20 in if ltb 100 n then 100 else n

unfoldable pub offset_of : ListQuery → ℕ
unfolding parse_query_int
offset_of q = parse_query_int q.offset 0

unfoldable pub filters_of : ListQuery → Filters
unfolding limit_of offset_of format_int
filters_of q =
    ("status", codes q.status)
    ∷ ("assignee_id", codes q.assignee_id)
    ∷ ("limit", format_int (limit_of q))
    ∷ ("offset", format_int (offset_of q))
    ∷ []

abbrev pub nonblank : String → Option String
nonblank v = if v =s "" then none else some v

-- `parseInt64`, if there is an assignee: none for an error.
abbrev pub parse_assignee : Option String → Option (Option ℕ)
unfolding parse_int
parse_assignee none = some none
parse_assignee (some v) = Option.map some (parse_int (codes v))

unfoldable pub task_list_input : ListQuery → ℕ → Option ℕ → TaskListFilter
unfolding limit_of offset_of trim_space
task_list_input q team_id assignee_id = record {
  team_id = team_id;
  status = nonblank (trim_space q.status);
  assignee_id = assignee_id;
  limit = limit_of q;
  offset = offset_of q;
}

module _ (h : TaskHandler) where
  unfoldable pub stored_page : Option TaskCache → ℕ → ListQuery → Body → Handler
  unfolding filters_of set_list
  stored_page none team_id q data_json = answer (json 200 data_json)
  stored_page (some c) team_id q data_json =
      attempt (set_list c team_id (filters_of q) data_json) (λ e. answer (json 200 data_json))
        (λ u. answer (json 200 data_json))

  -- Where the cache has no page.
  unfoldable pub list_tables : ℕ → ℕ → ListQuery → Handler
  unfolding trim_space stored_page task_list_input to_task_response parse_assignee
  list_tables user_id team_id q =
      or_invalid (parse_assignee (nonblank (trim_space q.assignee_id))) λ assignee_id.
        serve (list_tasks user_id (task_list_input q team_id assignee_id)) λ (items, total).
          stored_page h.cache team_id q
            (Body.tasks (map to_task_response items) total (limit_of q) (offset_of q))

  -- An error of the cache is no page.
  unfoldable pub list_cached : Option TaskCache → ℕ → ℕ → ListQuery → Handler
  unfolding list_tables filters_of get_list
  list_cached none user_id team_id q = list_tables user_id team_id q
  list_cached (some c) user_id team_id q =
      attempt (get_list c team_id (filters_of q)) (λ e. list_tables user_id team_id q)
        (λ found. elim found [
          | none ↦ list_tables user_id team_id q
          | some data_json ↦ answer (json 200 data_json)
        ])

  unfoldable pub list : Option ℕ → ListQuery → Handler
  unfolding with_user parse_id list_cached ensure_member_role
  list user q = with_user user λ user_id. or_invalid (parse_id q.team_id) λ team_id.
      serve (ensure_member_role team_id user_id) λ role. list_cached h.cache user_id team_id q
