-- ===== src/TaskCache/Tests.antt =====
-- Runs of the cache of tasks, and the theorem at one.
use mkk_luna.Prelude.{◌≡◌, refl, true, none, [], ◌∷◌}
use mkk_luna.Text.{codes, join, text_le}
use mkk_luna.Http.{Body}
use mkk_luna.World.{World, ok}
use mkk_luna.Samples.{world}
use mkk_luna.TaskCache.{
  TaskCache, Filters, canonical_query_string, filter_parts, get_list, set_list, invalidate_team,
}
use mkk_luna.TaskCache.Fresh.{Step, Reach, get_list-invalidate_team}

abbrev cache : TaskCache
cache = record { enabled = true; connected = true; ttl = 1000000; sum = λ s. "sum" }

abbrev filters : Filters
filters = ("status", codes "todo") ∷ []

abbrev stored_once : World
stored_once = (set_list cache 1 filters (Body.created 1) world).1

-- The texts of the filters are joined without an escape, so these two do not differ.
canonical_query_string_tests :
    (canonical_query_string (("b", codes "2") ∷ ("a", codes "1") ∷ []) ≡ codes "a=1&b=2")
    × (canonical_query_string (("a", codes "1&b=2") ∷ ("b", codes "3") ∷ [])
        ≡ canonical_query_string (("a", codes "1") ∷ ("b", codes "2&b=3") ∷ []))
unfolding canonical_query_string filter_parts join text_le
canonical_query_string_tests = (refl, refl)

path : Reach 1 cache world stored_once
path = Reach.then Reach.start (Step.writes filters (Body.created 1))

get_list-invalidate_team_example :
    (get_list cache 1 filters (invalidate_team cache 1 stored_once).1).0 ≡ ok none
get_list-invalidate_team_example =
    get_list-invalidate_team 1 cache world stored_once filters (λ n. refl) refl (λ v h. refl) path
