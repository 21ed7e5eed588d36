-- ===== src/Api/Tasks/Tests.antt =====
-- Runs of the task handlers, and the theorems at them.
use mkk_luna.Prelude.{◌≡◌, refl, true, none, some}
use mkk_luna.Http.{failure}
use mkk_luna.Samples.{world, eve}
use mkk_luna.Text.{is_digit}
use mkk_luna.Auth.Tokens.{parse_int, parse_digits, value_from}
use mkk_luna.Api.Tasks.{
  TaskHandler, ListQuery, list, parse_query_int, limit_of, parse_strict_positive_int,
}
use mkk_luna.Api.Helpers.{parse_id, with_user}
use mkk_luna.Api.Tasks.Lists.{IsGuarded, list-IsGuarded}

abbrev handler : TaskHandler
handler = record {
  tasks = record { has_db = true; has_history = true };
  cache = some (record { enabled = true; connected = true; ttl = 1000000; sum = λ s. "sum" });
}

abbrev query : ListQuery
query = record { team_id = "1"; status = ""; assignee_id = ""; limit = "500"; offset = "-1" }

numbers_tests :
    (limit_of query ≡ 100)
    × (parse_query_int query.offset 0 ≡ 0)
    × (parse_strict_positive_int "0" 20 100 ≡ none)
    × (parse_id "7" ≡ some 7)
unfolding limit_of parse_query_int parse_strict_positive_int parse_id parse_int parse_digits
    value_from is_digit
numbers_tests = (refl, refl, refl, refl)

anonymous_tests : (list handler none query world).0 ≡ failure 401 "unauthorized"
unfolding list with_user
anonymous_tests = refl

list-IsGuarded_example :
    IsGuarded world.tables (some eve) query (list handler (some eve) query world)
list-IsGuarded_example = list-IsGuarded handler (some eve) query world
