-- ===== src/Task/Fields.antt =====
-- internal/service/task.go: the names of fields, the values of enumerations and the rights of roles;
-- internal/service/team.go: the roles.
use mkk_luna.Prelude.{String, Bool, false, ◌||◌, ◌=s◌, if◌then◌else◌}

abbrev pub role_owner : String
role_owner = "owner"

abbrev pub role_admin : String
role_admin = "admin"

abbrev pub role_member : String
role_member = "member"

unfoldable pub is_known_task_field : String → Bool
is_known_task_field field =
    field =s "title"
    || field =s "description"
    || field =s "status"
    || field =s "assignee_id"
    || field =s "priority"
    || field =s "due_date"

unfoldable pub allowed_task_fields : String → String → Bool
unfolding is_known_task_field
allowed_task_fields role field =
    if role =s role_owner || role =s role_admin
    then is_known_task_field field
    else if role =s role_member
    then field =s "status" || field =s "assignee_id"
    else false

-- `!(role != RoleOwner && role != RoleAdmin)`.
unfoldable pub is_manager : String → Bool
is_manager role = role =s role_owner || role =s role_admin

unfoldable pub is_valid_status : String → Bool
is_valid_status v = v =s "todo" || v =s "in_progress" || v =s "done"

unfoldable pub is_valid_priority : String → Bool
is_valid_priority v = v =s "low" || v =s "medium" || v =s "high"
