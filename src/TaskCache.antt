-- ===== src/TaskCache.antt =====
-- internal/infra/cache/task_cache.go: pages of tasks in Redis, under a version of their team. SHA-1 is a
-- parameter. A page is a body before its encoding, and the version is the number that its text spells.
pub mod Fresh
mod Tests
use mkk_luna.Prelude.{
  ℕ, String, Bool, not, ◌||◌, Option, none, some, List, [], ◌∷◌, ◌++◌, map, find, ◌=s◌,
  if◌then◌else◌,
}
use mkk_luna.Prelude.Sort.{sort_by}
use mkk_luna.Text.{codes, text_le, join}
use mkk_luna.Http.{Body}
use mkk_luna.Redis as Commands
use mkk_luna.Redis.{Cells, set_nx, incr}
use mkk_luna.Redis.Keys.{Key, Value, version, listing, number, text, page, stored}
use mkk_luna.World.{M, Result, ok, err, external, pure, command, ◌>>=◌, ◌>>◌}

-- `client == nil` is the negation of `connected`.
pub record TaskCache : Type 0 where
  pub enabled : Bool
  pub connected : Bool
  pub ttl : ℕ
  -- The digits of `sha1.Sum`.
  pub sum : List ℕ → String

-- A Go map from texts to texts; a value is given by its code points.
abbrev pub Filters : Type 0
Filters = List (String × List ℕ)

abbrev pub value_of : Option (String × List ℕ) → List ℕ
value_of none = []
value_of (some (k, v)) = v

unfoldable pub filter_parts : Filters → List String → List (List ℕ)
unfolding find
filter_parts filters [] = []
filter_parts filters (k ∷ keys) =
    (codes k ++ b'=' ∷ value_of (find (λ p. p.0 =s k) filters)) ∷ filter_parts filters keys

unfoldable pub canonical_query_string : Filters → List ℕ
unfolding filter_parts sort_by join
canonical_query_string filters =
    join (b'&' ∷ [])
      (filter_parts filters (sort_by (λ s t. text_le (codes s) (codes t)) (map (λ p. p.0) filters)))

module _ (c : TaskCache) where
  unfoldable pub cache_key : ℕ → ℕ → Filters → Key
  unfolding canonical_query_string
  cache_key team_id ver filters = listing team_id ver (c.sum (canonical_query_string filters))

  abbrev pub is_off : Bool
  is_off = not c.enabled || not c.connected

-- `_, _ = client.SetNX(…)`.
abbrev pub ignored : Result Bool → Result (Unit {0})
ignored (ok b) = ok tt
ignored (err e) = ok tt

unfoldable pub set_first_version : ℕ → M (Unit {0})
unfolding set_nx
set_first_version team_id w =
    let (r, w') =
      command
        (λ now cells.
          let (b, cells') = set_nx now (version team_id) (number 1) 0 cells in (ok b, cells'))
        w in
    (ignored r, w')

-- The version that is read: a text that is no number counts as 1.
unfoldable pub version_from : ℕ → Option Value → M ℕ
unfolding set_first_version
version_from team_id none = set_first_version team_id >> pure 1
version_from team_id (some (number n)) = pure n
version_from team_id (some (text s)) = pure 1
version_from team_id (some (page b)) = pure 1
version_from team_id (some (stored r)) = pure 1

unfoldable pub get_version : ℕ → M ℕ
unfolding version_from Commands.get
get_version team_id =
    command (λ now cells. (ok (Commands.get now (version team_id) cells), cells))
    >>= version_from team_id

-- Under the key of a list nothing but pages is written.
abbrev pub page_of : Option Value → Option Body
page_of none = none
page_of (some (page b)) = some b
page_of (some (number n)) = none
page_of (some (text s)) = none
page_of (some (stored r)) = none

module _ (c : TaskCache) where
  unfoldable pub read_page : ℕ → Filters → ℕ → M (Option Body)
  unfolding cache_key Commands.get
  read_page team_id filters ver = command (λ now cells.
      (ok (page_of (Commands.get now (cache_key c team_id ver filters) cells)), cells))

  unfoldable pub get_list : ℕ → Filters → M (Option Body)
  unfolding get_version read_page
  get_list team_id filters =
      if is_off c then pure none else get_version team_id >>= read_page team_id filters

  unfoldable pub write_page : ℕ → Filters → Body → ℕ → M (Unit {0})
  unfolding cache_key Commands.set
  write_page team_id filters body ver = command (λ now cells.
      (ok tt, Commands.set now (cache_key c team_id ver filters) (page body) c.ttl cells))

  unfoldable pub set_list : ℕ → Filters → Body → M (Unit {0})
  unfolding get_version write_page
  set_list team_id filters body =
      if is_off c then pure tt else get_version team_id >>= write_page team_id filters body

  abbrev pub answered_count : Option ℕ × Cells → Result (Unit {0}) × Cells
  answered_count (some n, cells) = (ok tt, cells)
  answered_count (none, cells) = (err external, cells)

  unfoldable pub invalidate_team : ℕ → M (Unit {0})
  unfolding incr
  invalidate_team team_id =
      if is_off c
      then pure tt
      else command (λ now cells. answered_count (incr now (version team_id) cells))
