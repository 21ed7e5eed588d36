-- ===== src/Api/Comments.antt =====
-- internal/api/comments.go: the methods of `CommentHandler`.
use mkk_luna.Prelude.{ℕ, String, Option, none, some, map, if◌then◌else◌}
use mkk_luna.Text.{is_blank, trim_space}
use mkk_luna.Schema.{TaskComment}
use mkk_luna.Http.{Body, CommentResponse, json}
use mkk_luna.Task.Service.{create_comment, list_comments, update_comment, delete_comment}
use mkk_luna.Api.Helpers.{with_user, or_invalid, parse_id, serve}
use mkk_luna.Api.{Handler, answer}

-- The body of the decoded request, trimmed; none for an error or a blank body.
abbrev pub comment_body : Option String → Option String
comment_body none = none
comment_body (some body) = if is_blank body then none else some (trim_space body)

unfoldable pub create : Option ℕ → String → Option String → Handler
unfolding with_user parse_id
create user id decoded = with_user user λ user_id. or_invalid (parse_id id) λ task_id.
    or_invalid (comment_body decoded) λ body.
      serve (create_comment user_id task_id body)
        λ comment_id. answer (json 201 (Body.created comment_id))

unfoldable pub to_comment_response : TaskComment → CommentResponse
to_comment_response c = record {
  id = c.id;
  task_id = c.task_id;
  user_id = c.user_id;
  body = c.body;
  created_at = c.created_at;
  updated_at = c.updated_at;
}

unfoldable pub list_by_task : Option ℕ → String → Handler
unfolding with_user parse_id to_comment_response
list_by_task user id = with_user user λ user_id. or_invalid (parse_id id) λ task_id.
    serve (list_comments user_id task_id)
      λ items. answer (json 200 (Body.comments (map to_comment_response items)))

unfoldable pub update : Option ℕ → String → Option String → Handler
unfolding with_user parse_id
update user id decoded = with_user user λ user_id. or_invalid (parse_id id) λ comment_id.
    or_invalid (comment_body decoded)
      λ body. serve (update_comment user_id comment_id body) λ _. answer (json 200 Body.status_ok)

unfoldable pub delete : Option ℕ → String → Handler
unfolding with_user parse_id
delete user id = with_user user λ user_id.
    or_invalid (parse_id id)
      λ comment_id. serve (delete_comment user_id comment_id) λ _. answer (json 200 Body.status_ok)
