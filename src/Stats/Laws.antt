-- ===== src/Stats/Laws.antt =====
-- What the statistics answer with, and to whom.
use mkk_luna.Prelude.{ℕ, ◌≤◌, ◌≡◌, List, All}
use mkk_luna.Http.{TeamTopCreator}
use mkk_luna.World.{World, Result, ok, err}
use mkk_luna.Stats.{StatsService}
use mkk_luna.Repository.Analytics as Analytics
use mkk_luna.Stats.Places.{IsPlaced, IsCovered}

module _ (s : StatsService) (w : World) (user_id from to limit : ℕ) where
  -- A success has rows that stand at their places, and misses none; a failure leaves the tables.
  abbrev pub IsListed : Result (List TeamTopCreator) × World → Type 0
  IsListed (ok rows, w') =
      All (IsPlaced user_id from to limit w.tables) rows
      × All (IsCovered user_id from to limit w.tables rows) w.tables.tasks
      × (limit ≤ 10)
      × (w'.tables ≡ w.tables)
  IsListed (err e, w') = w'.tables ≡ w.tables
