-- ===== src/Api/Tasks/Lists.antt =====
-- `TaskHandler.List`: with a cache or without, only members see tasks, and nothing is written.
use mathlib.Core.Path.{subst}
use mkk_luna.Prelude.{
  ℕ, ◌≡◌, ◌≢◌, refl, ◌∙◌, inl, inr, String, Option, none, some, List, map, arith, Bool-cases,
  Option-cases, sym,
}
use mkk_luna.Schema.{Task, Tables}
use mkk_luna.Http.{Response, Body, json}
use mkk_luna.Redis.{Cells, get, set, set_nx}
use mkk_luna.Redis.Keys.{Value, version, number, text, page, stored}
use mkk_luna.World.{
  at, World, M, Result, ok, err, Error, external, not_found, forbidden, conflict, bad_request,
  unavailable, invalid_credentials, invalid_token, token_reuse, invalid_input, duplicate, command,
  continue, pure, ◌>>=◌,
}
use mkk_luna.World.Rules.{command_rule}
use mkk_luna.Repository.Members.{role_of}
use mkk_luna.Repository.Tasks.{TaskListFilter}
use mkk_luna.Task.Service.{list_tasks}
use mkk_luna.Task.Reading.{IsReading, IsListing, list_tasks-IsReading}
use mkk_luna.Team.Rules.{ensure_member_role_rule}
use mkk_luna.Team.Service.{ensure_member_role}
use mkk_luna.TaskCache.{
  TaskCache, Filters, is_off, get_version, version_from, set_first_version, get_list, read_page,
  set_list, write_page, cache_key, page_of,
}
use mkk_luna.Api.{Handler, answer, settle}
use mkk_luna.Api.Tasks.{
  TaskHandler, ListQuery, list, list_cached, list_tables, stored_page, parse_assignee, nonblank,
  task_list_input, filters_of, to_task_response, limit_of, offset_of,
}
use mkk_luna.Api.Helpers.{map_service_error, with_user, parse_id, serve, or_invalid}
use mkk_luna.Text.{trim_space}

command-tables :
    {A : Type 0} (c : ℕ → Cells → Result A × Cells) (w : World) → (command c w).1.tables ≡ w.tables
command-tables c w = command_rule (λ o. o.1.tables ≡ w.tables) c w refl refl refl

-- A step whose parts keep the tables keeps them.
bind-tables :
    {A B : Type 0} (m : M A) (f : A → M B) (w : World)
    → (m w).1.tables ≡ w.tables
    → ((a : A) (v : World) → (f a v).1.tables ≡ v.tables)
    → ((m >>= f) w).1.tables ≡ w.tables
bind-tables m f w first rest = go (m w).0 (m w).1 first
  where
    go : (r : Result _) (v : World) → v.tables ≡ w.tables → (continue r f v).1.tables ≡ w.tables
    go (ok a) v same = rest a v ∙ same
    go (err e) v same = same

set_first_version-tables :
    (team_id : ℕ) (w : World) → (set_first_version team_id w).1.tables ≡ w.tables
unfolding set_first_version
set_first_version-tables team_id w =
    command-tables
      (λ now cells.
        let (b, cells') = set_nx now (version team_id) (number 1) 0 cells in (ok b, cells'))
      w

version_from-tables :
    (team_id : ℕ) (o : Option Value) (w : World) → (version_from team_id o w).1.tables ≡ w.tables
unfolding version_from
version_from-tables team_id none w =
    bind-tables (set_first_version team_id) (λ _. pure 1) w (set_first_version-tables team_id w)
      (λ a v. refl)
version_from-tables team_id (some (number n)) w = refl
version_from-tables team_id (some (text s)) w = refl
version_from-tables team_id (some (page b)) w = refl
version_from-tables team_id (some (stored r)) w = refl

get_version-tables : (team_id : ℕ) (w : World) → (get_version team_id w).1.tables ≡ w.tables
unfolding get_version
get_version-tables team_id w =
    bind-tables (command asked) (version_from team_id) w (command-tables asked w)
      (version_from-tables team_id)
  where
    asked : ℕ → Cells → Result (Option Value) × Cells
    asked now cells = (ok (get now (version team_id) cells), cells)

get_list-tables :
    (c : TaskCache) (team_id : ℕ) (filters : Filters) (w : World)
    → (get_list c team_id filters w).1.tables ≡ w.tables
unfolding get_list read_page
get_list-tables c team_id filters w = elim (Bool-cases (is_off c)) [
  | inl e ↦ rw e
  | inr e ↦ rw e (
      bind-tables (get_version team_id) (read_page c team_id filters) w
        (get_version-tables team_id w)
        (λ ver v.
          command-tables
            (λ now cells. (ok (page_of (get now (cache_key c team_id ver filters) cells)), cells))
            v))
]

set_list-tables :
    (c : TaskCache) (team_id : ℕ) (filters : Filters) (body : Body) (w : World)
    → (set_list c team_id filters body w).1.tables ≡ w.tables
unfolding set_list write_page
set_list-tables c team_id filters body w = elim (Bool-cases (is_off c)) [
  | inl e ↦ rw e
  | inr e ↦ rw e (
      bind-tables (get_version team_id) (write_page c team_id filters body) w
        (get_version-tables team_id w)
        (λ ver v.
          command-tables
            (λ now cells.
              (ok tt, set now (cache_key c team_id ver filters) (page body) c.ttl cells))
            v))
]

module _ (h : TaskHandler) (user_id team_id : ℕ) (q : ListQuery) where
  settle-tables :
      {A : Type 0} (o : Result A × World) (broken : Error → Handler) (done : A → Handler)
      (t : Tables)
      → o.1.tables ≡ t
      → ((e : Error) (v : World) → (broken e v).1.tables ≡ v.tables)
      → ((a : A) (v : World) → (done a v).1.tables ≡ v.tables)
      → (settle o.0 broken done o.1).1.tables ≡ t
  settle-tables (ok a, v) broken done t same on_error on_done = on_done a v ∙ same
  settle-tables (err e, v) broken done t same on_error on_done = on_error e v ∙ same

  stored_page-tables :
      (o : Option TaskCache) (body : Body) (w : World)
      → (stored_page h o team_id q body w).1.tables ≡ w.tables
  unfolding stored_page
  stored_page-tables none body w = refl
  stored_page-tables (some c) body w =
      settle-tables (set_list c team_id (filters_of q) body w) _ _ w.tables
        (set_list-tables c team_id (filters_of q) body w) (λ e v. refl) (λ u v. refl)

  list_tables-tables : (w : World) → (list_tables h user_id team_id q w).1.tables ≡ w.tables
  unfolding list_tables
  list_tables-tables w = go (parse_assignee (nonblank (trim_space q.assignee_id)))
    where
      reading :
          (f : TaskListFilter) (o : Result (List Task × ℕ) × World)
          → IsReading w (IsListing w user_id f) o
          → o.1.tables ≡ w.tables
      reading f (ok a, v) (shown, same) = same
      reading f (err e, v) same = same

      listed : List Task × ℕ → Handler
      listed (items, total) =
          stored_page h h.cache team_id q
            (Body.tasks (map to_task_response items) total (limit_of q) (offset_of q))

      go :
          (o : Option (Option ℕ))
          → (or_invalid o
              (λ a. serve (list_tasks user_id (task_list_input q team_id a)) listed)
              w).1.tables
            ≡ w.tables
      go none = refl
      go (some a) =
          settle-tables (list_tasks user_id (task_list_input q team_id a) w)
            (λ e. answer (map_service_error e)) listed w.tables
            (reading (task_list_input q team_id a) _
              (list_tasks-IsReading w user_id (task_list_input q team_id a)))
            (λ e v. refl) (λ (items, total) v. stored_page-tables h.cache _ v)

  list_cached-tables :
      (o : Option TaskCache) (w : World) → (list_cached h o user_id team_id q w).1.tables ≡ w.tables
  unfolding list_cached
  list_cached-tables none w = list_tables-tables w
  list_cached-tables (some c) w =
      settle-tables (get_list c team_id (filters_of q) w) (λ e. list_tables h user_id team_id q)
        found w.tables (get_list-tables c team_id (filters_of q) w) (λ e v. list_tables-tables v)
        found-tables
    where
      found : Option Body → Handler
      found none = list_tables h user_id team_id q
      found (some body) = answer (json 200 body)

      found-tables : (o' : Option Body) (v : World) → (found o' v).1.tables ≡ v.tables
      found-tables none v = list_tables-tables v
      found-tables (some body) v = refl

-- Nothing is written, and an answer of 200 goes to a user with a role in the team that the query names.
abbrev pub IsGuarded : Tables → Option ℕ → ListQuery → Response × World → Type 0
IsGuarded t user q (r, w') =
    (w'.tables ≡ t)
    × (r.status ≡ 200
        → (user_id : ℕ) × ((team_id : ℕ) × ((role : String) × ((user ≡ some user_id)
                × ((parse_id q.team_id ≡ some team_id)
                    × (role_of t team_id user_id ≡ some role))))))

map_service_error-status : (e : Error) → (map_service_error e).status ≢ 200
unfolding map_service_error
map_service_error-status not_found = λ h. omega (arith, h)
map_service_error-status forbidden = λ h. omega (arith, h)
map_service_error-status conflict = λ h. omega (arith, h)
map_service_error-status bad_request = λ h. omega (arith, h)
map_service_error-status unavailable = λ h. omega (arith, h)
map_service_error-status invalid_credentials = λ h. omega (arith, h)
map_service_error-status invalid_token = λ h. omega (arith, h)
map_service_error-status token_reuse = λ h. omega (arith, h)
map_service_error-status invalid_input = λ h. omega (arith, h)
map_service_error-status duplicate = λ h. omega (arith, h)
map_service_error-status external = λ h. omega (arith, h)

-- Whatever the cache holds and however the calls of Redis and MySQL end, `List` changes no table, and
-- answers with status 200 only to a user who has a role in the team that the query names.
pub list-IsGuarded :
    (h : TaskHandler) (user : Option ℕ) (q : ListQuery) (w : World)
    → IsGuarded w.tables user q (list h user q w)
unfolding list with_user
list-IsGuarded h none q w = (refl, (λ e. absurd (omega (arith, e))))
list-IsGuarded h (some user_id) q w = elim (Option-cases (parse_id q.team_id)) [
  | inl none_e ↦ rw none_e (refl, (λ e. absurd (omega (arith, e))))
  | inr (team_id, parsed) ↦
      subst (λ o. IsGuarded w.tables (some user_id) q (or_invalid o member w)) (sym parsed)
        (ensure_member_role_rule (Q team_id) team_id user_id w
          (λ e n. refused team_id e (at w n) refl)
          (λ role has n. (
            list_cached-tables h user_id team_id q h.cache (at w n),
            λ e. (user_id, (team_id, (role, (refl, (parsed, has))))),
          )))
]
  where
    member : ℕ → Handler
    member team_id =
        serve (ensure_member_role team_id user_id) (λ role. list_cached h h.cache user_id team_id q)

    Q : ℕ → Result String × World → Type 0
    Q team_id o = IsGuarded w.tables (some user_id) q (
        settle o.0 (λ e. answer (map_service_error e))
          (λ role. list_cached h h.cache user_id team_id q) o.1)

    refused : (team_id : ℕ) (e : Error) (v : World) → v.tables ≡ w.tables → Q team_id (err e, v)
    refused team_id e v same = (same, (λ f. absurd (map_service_error-status e f)))
