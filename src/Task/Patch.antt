-- ===== src/Task/Patch.antt =====
-- internal/service/task.go: `parseTaskPatch`. A Go map is the list of its entries in the order in
-- which a loop over it takes them, which Go leaves open: every order is a list.
pub mod Rules
use mkk_luna.Prelude.{
  ℕ, String, Bool, not, Option, none, some, List, [], ◌∷◌, is_empty, ◌=s◌, if◌then◌else◌,
}
use mkk_luna.Text.{is_blank, parse_date}
use mkk_luna.World.{M, bad_request, pure, or_fail, guard, ◌>>=◌, ◌>>◌}
use mkk_luna.Repository.Members.{is_member}
use mkk_luna.Repository.Tasks.{Change}
use mkk_luna.Task.Fields.{is_known_task_field, is_valid_status, is_valid_priority}

-- A `json.RawMessage`, by what `json.Unmarshal` can make of it; `other` is a Boolean, an array, an
-- object or a number outside int64.
pub data RawMessage : Type 0 where
  null other : RawMessage
  text : String → RawMessage
  number : ℕ → RawMessage

-- Into a `string`: `null` leaves the zero value.
unfoldable pub to_string : RawMessage → Option String
to_string null = some ""
to_string (text s) = some s
to_string (number n) = none
to_string other = none

-- Into a `*string`.
unfoldable pub to_string_ptr : RawMessage → Option (Option String)
to_string_ptr null = some none
to_string_ptr (text s) = some (some s)
to_string_ptr (number n) = none
to_string_ptr other = none

-- Into a `*int64`.
unfoldable pub to_int64_ptr : RawMessage → Option (Option ℕ)
to_int64_ptr null = some none
to_int64_ptr (number n) = some (some n)
to_int64_ptr (text s) = none
to_int64_ptr other = none

-- A text that is decoded, and rejected unless it passes the test.
unfoldable pub checked_text : (String → Bool) → RawMessage → M String
unfolding to_string
checked_text test val = do
  v ← or_fail (to_string val) bad_request
  guard (test v) bad_request
  pure v

-- `if v != nil { ok, err := s.members.IsMember(…); … }`, as in `CreateTask` too.
unfoldable pub check_assignee : ℕ → Option ℕ → M (Unit {0})
check_assignee team_id none = pure tt
check_assignee team_id (some user_id) = do
  is_in ← is_member team_id user_id
  guard is_in bad_request

unfoldable pub due_date_of : Option String → M (Option ℕ)
due_date_of none = pure none
due_date_of (some s) = do tm ← or_fail (parse_date s) bad_request; pure (some tm)

unfoldable pub parse_field : ℕ → String → RawMessage → M Change
unfolding checked_text check_assignee due_date_of
parse_field team_id key val =
    if key =s "title"
    then checked_text (λ v. not (is_blank v)) val >>= (λ v. pure (Change.title v))
    else if key =s "description"
    then or_fail (to_string_ptr val) bad_request >>= (λ v. pure (Change.description v))
    else if key =s "status"
    then checked_text is_valid_status val >>= (λ v. pure (Change.status v))
    else if key =s "priority"
    then checked_text is_valid_priority val >>= (λ v. pure (Change.priority v))
    else if key =s "assignee_id"
    then or_fail (to_int64_ptr val) bad_request
      >>= (λ v. check_assignee team_id v >> pure (Change.assignee_id v))
    else or_fail (to_string_ptr val) bad_request
      >>= (λ v. due_date_of v >>= (λ tm. pure (Change.due_date tm)))

-- The loop over the entries of `raw`.
unfoldable pub parse_fields : ℕ → List (String × RawMessage) → M (List Change)
unfolding parse_field
parse_fields team_id [] = pure []
parse_fields team_id ((key, val) ∷ rest) = do
  guard (is_known_task_field key) bad_request
  c ← parse_field team_id key val
  cs ← parse_fields team_id rest
  pure (c ∷ cs)

unfoldable pub parse_task_patch : ℕ → List (String × RawMessage) → M (List Change)
unfolding parse_fields
parse_task_patch team_id raw = do
  parsed ← parse_fields team_id raw
  guard (not (is_empty parsed)) bad_request
  pure parsed
