-- ===== src/Repository/Comments.antt =====
-- internal/repository/task_comment_repo.go.
use mkk_luna.Prelude.{
  ℕ, suc, String, Option, List, [], ◌∷◌, ◌++◌, ◌&&◌, ◌||◌, find, select, update_where, delete_where,
  leb, ltb, ◌==◌,
}
use mkk_luna.Prelude.Sort.{sort_by}
use mkk_luna.Schema.{TaskComment, Tables}
use mkk_luna.World.{M, Result, ok, query, exec}

unfoldable pub comment_of : Tables → ℕ → Option TaskComment
comment_of t id = find (λ c. c.id == id) t.comments

unfoldable pub insert_comment : ℕ → ℕ → String → Tables → Result ℕ × Tables
insert_comment task_id user_id body t = (
  ok t.next_comment,
  record t { comments = t.comments ++ row ∷ []; next_comment = suc t.next_comment },
)
  where
    row : TaskComment
    row = record {
      id = t.next_comment;
      task_id = task_id;
      user_id = user_id;
      body = body;
      created_at = t.clock;
      updated_at = t.clock;
    }

unfoldable pub write_comment : ℕ → String → Tables → Tables
write_comment id body t = record t {
  comments =
      update_where (λ c. c.id == id) (λ c. record c { body = body; updated_at = t.clock })
        t.comments;
}

unfoldable pub remove_comment : ℕ → Tables → Tables
remove_comment id t = record t { comments = delete_where (λ c. c.id == id) t.comments }

unfoldable pub create : ℕ → ℕ → String → M ℕ
create task_id user_id body = exec (insert_comment task_id user_id body)

unfoldable pub list_by_task : ℕ → M (List TaskComment)
list_by_task task_id = query λ t.
    sort_by
      (λ a b. ltb a.created_at b.created_at || (a.created_at == b.created_at && leb a.id b.id))
      (select (λ c. c.task_id == task_id) t.comments)

unfoldable pub get_by_id : ℕ → M (Option TaskComment)
get_by_id id = query (λ t. comment_of t id)

unfoldable pub update : ℕ → String → M (Unit {0})
update id body = exec (λ t. (ok tt, write_comment id body t))

unfoldable pub delete : ℕ → M (Unit {0})
delete id = exec (λ t. (ok tt, remove_comment id t))
