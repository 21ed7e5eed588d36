-- ===== src/Repository/Users.antt =====
-- internal/repository/user_repo.go. Texts are compared by the column's collation.
use mkk_luna.Prelude.{ℕ, suc, String, Bool, ◌||◌, Option, [], ◌∷◌, ◌++◌, find, any, if◌then◌else◌}
use mkk_luna.Schema.{User, Tables}
use mkk_luna.World.{M, Result, ok, err, duplicate, query, exec}

unfoldable pub insert_user :
    (String → String → Bool) → String → String → String → Tables → Result ℕ × Tables
insert_user collate email username password_hash t =
    if any (λ u. collate u.email email || collate u.username username) t.users
    then (err duplicate, t)
    else (ok t.next_user, record t { users = t.users ++ user ∷ []; next_user = suc t.next_user })
  where
    user : User
    user = record {
      id = t.next_user;
      email = email;
      username = username;
      password_hash = password_hash;
    }

unfoldable pub create : String → String → String → M ℕ
unfolding insert_user
create email username password_hash w =
    exec (insert_user w.services.collate email username password_hash) w

unfoldable pub get_by_email : String → M (Option User)
get_by_email email w = query (λ t. find (λ u. w.services.collate u.email email) t.users) w

unfoldable pub get_by_username : String → M (Option User)
get_by_username name w = query (λ t. find (λ u. w.services.collate u.username name) t.users) w
