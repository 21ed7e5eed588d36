-- ===== src/TaskCache/Fresh.antt =====
-- internal/infra/cache/task_cache.go: no page that was stored before an invalidation is read after it.
use mathlib.Core.Path.{subst}
use mkk_luna.Prelude.{
  ℕ, suc, ◌≤◌, ◌<◌, ◌≡◌, refl, sym, ap, ◌∙◌, inl, inr, String, false, Option, none, some, arith,
  Bool-cases, Option-cases,
}
use mkk_luna.Http.{Body}
use mkk_luna.Redis as Commands
use mkk_luna.Redis.{Cell, Cells, set, get, set_nx, put, incr}
use mkk_luna.Redis.Keys.{Key-discrete, version, listing, number, page}
use mkk_luna.Redis.Rules.{put_same, put_other}
use mkk_luna.World.{World, ok, works, tick}
use mkk_luna.World.Rules.{command-works}
use mkk_luna.TaskCache.{
  TaskCache, Filters, is_off, cache_key, set_first_version, version_from, get_version, page_of,
  read_page, get_list, write_page, set_list, answered_count, invalidate_team,
  canonical_query_string,
}

abbrev pub version_cell : Option ℕ → Option Cell
version_cell none = none
version_cell (some n) = some (record { value = number n; deadline = none })

-- The version of the team, and no page is under a later one.
abbrev pub IsVersioned : ℕ → Cells → Option ℕ → Type 0
IsVersioned team_id cells o =
    (cells (version team_id) ≡ version_cell o)
    × ((v : ℕ) (h : String) (c : Cell)
        → cells (listing team_id v h) ≡ some c
        → (n : ℕ) × ((o ≡ some n) × (v ≤ n)))

abbrev shown_version : Option ℕ → ℕ
shown_version none = 1
shown_version (some n) = n

abbrev next : Option ℕ → ℕ
next none = 1
next (some n) = suc n

abbrev IsRunning : World → Type 0
IsRunning w = (n : ℕ) → w.services.redis n ≡ works

-- Setting the version to a number that is not below it.
raise_version :
    (team_id n : ℕ) (cells : Cells) (o : Option ℕ)
    → ((m : ℕ) → o ≡ some m → m ≤ n)
    → IsVersioned team_id cells o
    → IsVersioned team_id (put (version team_id) (version_cell (some n)) cells) (some n)
raise_version team_id n cells o above (here, bound) = (
  put_same (version team_id) (version_cell (some n)) cells,
  λ v h c there.
      let (m, (same, below)) = bound v h c (
        sym (
          put_other (version team_id) (listing team_id v h) (version_cell (some n)) cells (λ e. cc))
        ∙ there) in
      (n, (refl, omega (arith, above m same, below))),
)

module _ (team_id : ℕ) where
  get_version-some :
      (w : World) (n : ℕ)
      → IsRunning w
      → w.redis (version team_id) ≡ version_cell (some n)
      → get_version team_id w ≡ (ok n, tick w)
  unfolding get_version version_from Commands.get
  get_version-some w n runs here = rw (
    command-works (λ now cells. (ok (Commands.get now (version team_id) cells), cells)) w
        (runs w.calls),
    here,
  )

  -- What `getVersion` answers and leaves.
  get_version-works :
      (w : World) (o : Option ℕ)
      → IsRunning w
      → IsVersioned team_id w.redis o
      → (w' : World) × ((get_version team_id w ≡ (ok (shown_version o), w'))
          × ((w'.services ≡ w.services) × IsVersioned team_id w'.redis (some (shown_version o))))
  unfolding get_version version_from set_first_version set_nx Commands.get set
  get_version-works w (some n) runs (here, bound) =
      (tick w, (get_version-some w n runs here, (refl, (here, bound))))
  get_version-works w none runs (here, bound) = (
    record (tick (tick w)) { redis = put (version team_id) (version_cell (some 1)) w.redis },
    (
      rw (
        command-works (λ now cells. (ok (Commands.get now (version team_id) cells), cells)) w
            (runs w.calls),
        here,
        command-works
            (λ now cells.
              let (b, cells') = set_nx now (version team_id) (number 1) 0 cells in (ok b, cells'))
            (tick w) (runs (suc w.calls)),
        here,
      ),
      (refl, raise_version team_id 1 w.redis none (λ m e. cc) (here, bound)),
    ),
  )

  -- A page under a version that is not above the team's.
  write_bound :
      (cells : Cells) (n : ℕ) (h : String) (c : Option Cell)
      → IsVersioned team_id cells (some n)
      → IsVersioned team_id (put (listing team_id n h) c cells) (some n)
  write_bound cells n h c (here, bound) = (
    put_other (listing team_id n h) (version team_id) c cells (λ e. cc) ∙ here,
    λ v g d there. elim (Key-discrete (listing team_id n h) (listing team_id v g)) [
      | yes same ↦ (n, (refl, omega (arith, version_of same)))
      | no differs ↦
          bound v g d
            (sym (put_other (listing team_id n h) (listing team_id v g) c cells differs) ∙ there)
    ],
  )
    where
      version_of : {v : ℕ} {g : String} → listing team_id n h ≡ listing team_id v g → n ≡ v
      version_of e = cc

  module _ (c : TaskCache) where
    -- The world after a call that leaves the team in order.
    abbrev IsKept : World → World → Type 0
    IsKept w w' = (w'.services ≡ w.services) × ((o : Option ℕ) × IsVersioned team_id w'.redis o)

    get_list-IsKept :
        (filters : Filters) (w : World) (o : Option ℕ)
        → IsRunning w
        → IsVersioned team_id w.redis o
        → IsKept w (get_list c team_id filters w).1
    unfolding get_list read_page
    get_list-IsKept filters w o runs order = elim (Bool-cases (is_off c)) [
      | inl e ↦ rw e (refl, (o, order))
      | inr e ↦
          let (w', (read, (same, order'))) = get_version-works w o runs order in
          rw
            (
              e,
              read,
              command-works
                  (λ now cells. (
                    ok (
                        page_of
                          (Commands.get now (cache_key c team_id (shown_version o) filters) cells)),
                    cells,
                  ))
                  w' (ap (λ s. s.redis w'.calls) same ∙ runs w'.calls),
            )
            (same, (some (shown_version o), order'))
    ]

    set_list-IsKept :
        (filters : Filters) (body : Body) (w : World) (o : Option ℕ)
        → IsRunning w
        → IsVersioned team_id w.redis o
        → IsKept w (set_list c team_id filters body w).1
    unfolding set_list write_page cache_key Commands.set
    set_list-IsKept filters body w o runs order = elim (Bool-cases (is_off c)) [
      | inl e ↦ rw e (refl, (o, order))
      | inr e ↦
          let (w', (read, (same, order'))) = get_version-works w o runs order in
          rw
            (
              e,
              read,
              command-works
                  (λ now cells. (
                    ok tt,
                    Commands.set now (cache_key c team_id (shown_version o) filters) (page body)
                        c.ttl cells,
                  ))
                  w' (ap (λ s. s.redis w'.calls) same ∙ runs w'.calls),
            )
            (same, (some (shown_version o), write_bound w'.redis (shown_version o) _ _ order'))
    ]

    -- An invalidation moves the version on.
    invalidate_team-works :
        (w : World) (o : Option ℕ)
        → IsRunning w
        → IsVersioned team_id w.redis o
        → is_off c ≡ false
        → invalidate_team c team_id w ≡ (
          ok tt,
          record (tick w) { redis = put (version team_id) (version_cell (some (next o))) w.redis },
        )
    unfolding invalidate_team incr
    invalidate_team-works w none runs (here, bound) on = rw (
      on,
      command-works (λ now cells. answered_count c (incr now (version team_id) cells)) w
          (runs w.calls),
      here,
    )
    invalidate_team-works w (some n) runs (here, bound) on = rw (
      on,
      command-works (λ now cells. answered_count c (incr now (version team_id) cells)) w
          (runs w.calls),
      here,
    )

    next-le : (o : Option ℕ) (m : ℕ) → o ≡ some m → m < next o
    next-le none m e = cc
    next-le (some n) m e = let same : n ≡ m = cc in omega (arith, same)

    invalidate_team-IsKept :
        (w : World) (o : Option ℕ)
        → IsRunning w
        → IsVersioned team_id w.redis o
        → IsKept w (invalidate_team c team_id w).1
    unfolding invalidate_team
    invalidate_team-IsKept w o runs order = elim (Bool-cases (is_off c)) [
      | inl e ↦ rw (e, invalidate_team) (refl, (o, order))
      | inr e ↦ rw (invalidate_team-works w o runs order e) (
        refl,
        (
          some (next o),
          raise_version team_id (next o) w.redis o (λ m s. omega (arith, next-le o m s)) order,
        ),
      )
    ]

    -- Nothing stands under the version that an invalidation makes.
    get_list-after :
        (w : World) (o : Option ℕ) (filters : Filters)
        → IsRunning w
        → IsVersioned team_id w.redis o
        → (get_list c team_id filters (invalidate_team c team_id w).1).0 ≡ ok none
    unfolding get_list read_page invalidate_team cache_key Commands.get
    get_list-after w o filters runs (here, bound) = elim (Bool-cases (is_off c)) [
      | inl e ↦ rw e
      | inr e ↦
          let cells = put (version team_id) (version_cell (some (next o))) w.redis in
          let w' = record (tick w) { redis = cells } in
          let moved : (invalidate_team c team_id w).1 ≡ w' =
            ap (λ x. x.1) (invalidate_team-works w o runs (here, bound) e) in
          let read = get_version-some w' (next o) runs (put_same (version team_id) _ w.redis) in
          subst (λ x. (get_list c team_id filters x).0 ≡ ok none) (sym moved)
            (rw (
              e,
              read,
              command-works
                  (λ now cells'. (
                    ok (page_of (Commands.get now (cache_key c team_id (next o) filters) cells')),
                    cells',
                  ))
                  (tick w') (runs (suc w'.calls)),
              free (c.sum (canonical_query_string filters)),
            ))
    ]
      where
        free :
            (h : String)
            → put
                (version team_id)
                (version_cell (some (next o)))
                w.redis
                (listing team_id (next o) h)
              ≡ none
        free h = elim (Option-cases (w.redis (listing team_id (next o) h))) [
          | inl e ↦ put_other (version team_id) (listing team_id (next o) h) _ w.redis (λ f. cc) ∙ e
          | inr (d, e) ↦
              let (m, (same, below)) = bound (next o) h d e in
              absurd (omega (arith, next-le o m same, below))
        ]

    -- Uses of the cache for this team, and anything else that leaves its keys alone.
    pub data Step (w : World) : World → Type 0 where
      reads : (filters : Filters) → Step w (get_list c team_id filters w).1
      writes : (filters : Filters) (body : Body) → Step w (set_list c team_id filters body w).1
      invalidates : Step w (invalidate_team c team_id w).1
      elsewhere :
          (w' : World)
          → w'.services ≡ w.services
          → w'.redis (version team_id) ≡ w.redis (version team_id)
          → ((v : ℕ) (h : String) → w'.redis (listing team_id v h) ≡ w.redis (listing team_id v h))
          → Step w w'

    pub data Reach (w : World) : World → Type 0 where
      start : Reach w w
      then : {w' w'' : World} → Reach w w' → Step w' w'' → Reach w w''

    IsKept-Step :
        {w w' : World} (o : Option ℕ)
        → IsRunning w
        → IsVersioned team_id w.redis o
        → Step w w'
        → IsKept w w'
    IsKept-Step {w} o runs order (reads filters) = get_list-IsKept filters w o runs order
    IsKept-Step {w} o runs order (writes filters body) = set_list-IsKept filters body w o runs order
    IsKept-Step {w} o runs order invalidates = invalidate_team-IsKept w o runs order
    IsKept-Step {w} o runs (here, bound) (elsewhere w' same kept pages) =
        (same, (o, (kept ∙ here, (λ v h d there. bound v h d (sym (pages v h) ∙ there)))))

    IsKept-Reach :
        {w w' : World} (o : Option ℕ)
        → IsRunning w
        → IsVersioned team_id w.redis o
        → Reach w w'
        → IsKept w w'
    IsKept-Reach o runs order start = (refl, (o, order))
    IsKept-Reach o runs order (then {w'} {w''} path step) =
        let (same, (o', order')) = IsKept-Reach o runs order path in
        let runs' : IsRunning w' = λ n. ap (λ s. s.redis n) same ∙ runs n in
        let (same', rest) = IsKept-Step o' runs' order' step in (same' ∙ same, rest)

    -- While Redis works: whatever lists of a team are read, stored and invalidated one after the other, from
    -- a state in which Redis has neither a version nor a list of the team, a read that follows an
    -- invalidation of the team finds no list, for any filters, while nothing is stored in between.
    pub get_list-invalidate_team :
        (w w' : World) (filters : Filters)
        → ((n : ℕ) → w.services.redis n ≡ works)
        → w.redis (version team_id) ≡ none
        → ((v : ℕ) (h : String) → w.redis (listing team_id v h) ≡ none)
        → Reach w w'
        → (get_list c team_id filters (invalidate_team c team_id w').1).0 ≡ ok none
    get_list-invalidate_team w w' filters runs no_version no_list path =
        let order : IsVersioned team_id w.redis none =
          (no_version, (λ v h d e. nowhere (no_list v h) e)) in
        let (same, (o, order')) = IsKept-Reach none runs order path in
        get_list-after w' o filters (λ n. ap (λ s. s.redis n) same ∙ runs n) order'
      where
        nowhere : {A : Type 0} {x : Option Cell} {d : Cell} → x ≡ none → x ≡ some d → A
        nowhere e f = cc
