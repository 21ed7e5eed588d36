-- ===== src/Stats.antt =====
-- internal/service/stats.go: the methods of `StatsService`. The cache is the interface that the service
-- has of it (internal/domain/cache/task_cache.go). A moment is a number of seconds.
pub mod Groups
pub mod Places
pub mod Laws
mod Tests
use mkk_luna.Prelude.{ℕ, ◌-◌, ◌*◌, Bool, ◌&&◌, Option, none, some, List, any, ltb, leb, ◌==◌}
use mkk_luna.Http.{TeamDoneStat, TeamTopCreator, TaskIntegrityIssue}
use mkk_luna.World.{M, Result, ok, err, bad_request, forbidden, pure, guard, ◌>>=◌, ◌>>◌}
use mkk_luna.Repository.Analytics

pub record StatsCache : Type 0 where
  pub get_done : ℕ → ℕ → ℕ → M (Option (List TeamDoneStat))
  pub set_done : ℕ → ℕ → ℕ → List TeamDoneStat → M (Unit {0})
  pub get_top : ℕ → ℕ → ℕ → ℕ → M (Option (List TeamTopCreator))
  pub set_top : ℕ → ℕ → ℕ → ℕ → List TeamTopCreator → M (Unit {0})

-- The allow-list as it is configured: the constructor takes the positive identifiers.
pub record StatsService : Type 0 where
  pub cache : Option StatsCache
  pub admin_user_ids : List ℕ

abbrev pub max_stats_range : ℕ
max_stats_range = 365 * 24 * 3600

unfoldable pub validate_stats_range : ℕ → ℕ → M (Unit {0})
validate_stats_range from to = do
  guard (ltb from to) bad_request
  guard (leb (to - from) max_stats_range) bad_request

-- `if rows, ok, err := …; err == nil && ok`: an error is no answer.
abbrev pub missing_on_error : {A : Type 0} → Result (Option A) → Result (Option A)
missing_on_error (ok found) = ok found
missing_on_error (err e) = ok none

abbrev pub look_up : {A : Type 0} → Option StatsCache → (StatsCache → M (Option A)) → M (Option A)
look_up none get = pure none
look_up (some cache) get = λ w. let (r, w') = get cache w in (missing_on_error r, w')

-- `_ = s.cache.Set…`.
abbrev pub store : Option StatsCache → (StatsCache → M (Unit {0})) → M (Unit {0})
store none set = pure tt
store (some cache) set = λ w. let (r, w') = set cache w in (ok tt, w')

-- The answer of the cache, or that of the query, which the cache then takes.
abbrev pub or_query : {A : Type 0} → M A → (A → M (Unit {0})) → Option A → M A
or_query fetch keep (some rows) = pure rows
or_query fetch keep none = do rows ← fetch; keep rows; pure rows

unfoldable pub get_team_done_stats : StatsService → ℕ → ℕ → ℕ → M (List TeamDoneStat)
unfolding validate_stats_range
get_team_done_stats s user_id from to = do
  validate_stats_range from to
  found ← look_up s.cache (λ c. c.get_done user_id from to)
  or_query (Analytics.get_team_done_stats user_id from to)
      (λ rows. store s.cache (λ c. c.set_done user_id from to rows)) found

unfoldable pub get_top_creators_by_team : StatsService → ℕ → ℕ → ℕ → ℕ → M (List TeamTopCreator)
unfolding validate_stats_range
get_top_creators_by_team s user_id from to limit = do
  validate_stats_range from to
  guard (ltb 0 limit && leb limit 10) bad_request
  found ← look_up s.cache (λ c. c.get_top user_id from to limit)
  or_query (Analytics.get_top_creators_by_team user_id from to limit)
      (λ rows. store s.cache (λ c. c.set_top user_id from to limit rows)) found

unfoldable pub is_admin : StatsService → ℕ → Bool
is_admin s user_id = any (λ id. ltb 0 id && id == user_id) s.admin_user_ids

unfoldable pub find_tasks_with_assignee_not_member : StatsService → ℕ → M (List TaskIntegrityIssue)
unfolding is_admin
find_tasks_with_assignee_not_member s user_id = do
  guard (is_admin s user_id) forbidden
  Analytics.find_tasks_with_assignee_not_member
