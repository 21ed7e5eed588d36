-- ===== src/Stats/Tests.antt =====
-- Runs of the statistics, and the theorem at one.
use mkk_luna.Prelude.{◌≡◌, refl, none, [], ◌∷◌}
use mkk_luna.World.{err, forbidden, bad_request}
use mkk_luna.Samples.{world, ann}
use mkk_luna.Stats.{
  StatsService, get_team_done_stats, find_tasks_with_assignee_not_member, validate_stats_range,
  is_admin,
}

abbrev service : StatsService
service = record { cache = none; admin_user_ids = 0 ∷ 2 ∷ [] }

service_tests :
    ((find_tasks_with_assignee_not_member service ann world).0 ≡ err forbidden)
    × ((find_tasks_with_assignee_not_member service 0 world).0 ≡ err forbidden)
    × ((get_team_done_stats service ann 5 5 world).0 ≡ err bad_request)
unfolding find_tasks_with_assignee_not_member get_team_done_stats is_admin validate_stats_range
service_tests = (refl, refl, refl)
