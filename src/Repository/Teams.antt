-- ===== src/Repository/Teams.antt =====
-- internal/repository/team_repo.go.
use mkk_luna.Prelude.{
  ℕ, suc, String, ◌&&◌, Option, some, List, [], ◌∷◌, ◌++◌, find, any, select, leb, ◌==◌,
}
use mkk_luna.Prelude.Sort.{sort_by}
use mkk_luna.Schema.{Team, Tables}
use mkk_luna.World.{M, Result, ok, query, exec}

unfoldable pub team_of : Tables → ℕ → Option Team
team_of t id = find (λ r. r.id == id) t.teams

unfoldable pub insert_team : String → ℕ → Tables → Result ℕ × Tables
insert_team name created_by t =
    (ok t.next_team, record t { teams = t.teams ++ team ∷ []; next_team = suc t.next_team })
  where
    team : Team
    team = record {
      id = t.next_team;
      name = name;
      created_by = some created_by;
      created_at = t.clock;
    }

unfoldable pub create_tx : String → ℕ → M ℕ
create_tx name created_by = exec (insert_team name created_by)

unfoldable pub get_by_id : ℕ → M (Option Team)
get_by_id id = query (λ t. team_of t id)

-- The join with `team_members`, whose key makes a team appear once; the newest team first.
unfoldable pub list_by_user : ℕ → M (List Team)
list_by_user user_id = query λ t.
    sort_by (λ a b. leb b.id a.id)
      (select (λ r. any (λ m. m.team_id == r.id && m.user_id == user_id) t.members) t.teams)
