-- ===== src/Repository/Analytics.antt =====
-- internal/repository/analytics_repo.go: the queries of the statistics, as what they select.
use mkk_luna.Prelude.{
  ℕ, suc, Bool, true, false, ◌&&◌, ◌||◌, Option, none, some, List, [], ◌∷◌, length, map, any,
  select, leb, ltb, ◌==◌, ◌=s◌, if◌then◌else◌,
}
use mkk_luna.Schema.{Team, Task, Tables}
use mkk_luna.Http.{TeamDoneStat, TeamTopCreator, TaskIntegrityIssue}
use mkk_luna.Repository.Members.{is_in_team}
use mkk_luna.World.{M, external, query, or_fail, ◌>>=◌}

-- The teams of the sub-query: `role IN ('owner','admin')`.
unfoldable pub is_managed : Tables → ℕ → ℕ → Bool
is_managed t user_id team_id =
    any
      (λ m.
        m.team_id == team_id && m.user_id == user_id && (m.role =s "owner" || m.role =s "admin"))
      t.members

abbrev pub is_within : ℕ → ℕ → ℕ → Bool
is_within from to moment = leb from moment && ltb moment to

unfoldable pub done_stat : Tables → ℕ → ℕ → Team → TeamDoneStat
done_stat t from to team = record {
  team_id = team.id;
  team_name = team.name;
  members_count = length (select (λ m. m.team_id == team.id) t.members);
  done_count = length (
      select (λ r. r.team_id == team.id && r.status =s "done" && is_within from to r.updated_at)
        t.tasks);
}

unfoldable pub team_done_stats : ℕ → ℕ → ℕ → Tables → List TeamDoneStat
unfolding is_managed done_stat
team_done_stats user_id from to t =
    map (done_stat t from to) (select (λ team. is_managed t user_id team.id) t.teams)

unfoldable pub get_team_done_stats : ℕ → ℕ → ℕ → M (List TeamDoneStat)
unfolding team_done_stats
get_team_done_stats user_id from to = query (team_done_stats user_id from to)

-- GROUP BY team_id, created_by: NULL is a group of its own.
abbrev pub same_creator : Option ℕ → Option ℕ → Bool
same_creator none none = true
same_creator none (some b) = false
same_creator (some a) none = false
same_creator (some a) (some b) = a == b

abbrev pub in_group : Task → Task → Bool
in_group r s = r.team_id == s.team_id && same_creator r.created_by s.created_by

-- One row of each group: the last.
unfoldable pub group_heads : List Task → List Task
group_heads [] = []
group_heads (r ∷ rs) = let rest = group_heads rs in if any (in_group r) rs then rest else r ∷ rest

-- A row of `base`: the team, the creator and the count.
abbrev pub Group : Type 0
Group = ℕ × (Option ℕ × ℕ)

unfoldable pub group_of : List Task → Task → Group
group_of rows r = (r.team_id, (r.created_by, length (select (in_group r) rows)))

unfoldable pub base : ℕ → ℕ → ℕ → Tables → List Group
unfolding is_managed group_heads group_of
base user_id from to t =
    let rows =
      select (λ r. is_within from to r.created_at && is_managed t user_id r.team_id) t.tasks in
    map (group_of rows) (group_heads rows)

-- ORDER BY created_count DESC, user_id ASC: NULL is first.
abbrev pub creator_lt : Option ℕ → Option ℕ → Bool
creator_lt none none = false
creator_lt none (some b) = true
creator_lt (some a) none = false
creator_lt (some a) (some b) = ltb a b

abbrev pub is_ahead : Group → Group → Bool
is_ahead (team, (creator, count)) (team', (creator', count')) =
    team' == team && (ltb count count' || (count' == count && creator_lt creator' creator))

-- ROW_NUMBER() in the partition of the team.
unfoldable pub ranked : List Group → Group → TeamTopCreator
ranked groups (team, (creator, count)) = record {
  team_id = team;
  user_id = creator;
  created_count = count;
  rank = suc (length (select (is_ahead (team, (creator, count))) groups));
}

unfoldable pub top_creator_rows : ℕ → ℕ → ℕ → ℕ → Tables → List TeamTopCreator
unfolding base ranked
top_creator_rows user_id from to limit t =
    let groups = base user_id from to t in
    select (λ row. leb row.rank limit) (map (ranked groups) groups)

-- A NULL is no int64: the scan of such a row fails, and with it the query.
unfoldable pub scan : List TeamTopCreator → Option (List TeamTopCreator)
scan rows = if any (λ row. same_creator row.user_id none) rows then none else some rows

unfoldable pub get_top_creators_by_team : ℕ → ℕ → ℕ → ℕ → M (List TeamTopCreator)
unfolding top_creator_rows scan
get_top_creators_by_team user_id from to limit = do
  rows ← query (top_creator_rows user_id from to limit)
  or_fail (scan rows) external

-- LEFT JOIN: a task with an assignee for whom the team has no membership.
abbrev pub is_orphan : Tables → Task → Option ℕ → Bool
is_orphan t r none = false
is_orphan t r (some a) = if is_in_team t r.team_id a then false else true

abbrev pub issue : Task → Option ℕ → List TaskIntegrityIssue → List TaskIntegrityIssue
issue r none rest = rest
issue r (some a) rest = record { task_id = r.id; team_id = r.team_id; assignee_id = a } ∷ rest

unfoldable pub issues_of : Tables → List Task → List TaskIntegrityIssue
unfolding is_in_team
issues_of t [] = []
issues_of t (r ∷ rs) =
    let rest = issues_of t rs in
    if is_orphan t r r.assignee_id then issue r r.assignee_id rest else rest

unfoldable pub integrity_issues : Tables → List TaskIntegrityIssue
unfolding issues_of
integrity_issues t = issues_of t t.tasks

unfoldable pub find_tasks_with_assignee_not_member : M (List TaskIntegrityIssue)
unfolding integrity_issues
find_tasks_with_assignee_not_member = query integrity_issues
