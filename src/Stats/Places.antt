-- ===== src/Stats/Places.antt =====
-- The rows of the query of internal/repository/analytics_repo.go for the top creators, and who has one.
use mathlib.Core.Path.{subst}
use mkk_luna.Prelude.{
  if◌then◌else◌, ℕ, ◌≤◌, ◌≡◌, refl, inl, inr, Bool, ◌&&◌, List, [], ◌∷◌, All, All-imply, map, any,
  select, select-All, ltb, leb, leb→le, arith, Bool-cases, ◌==◌, ==_refl, ap, ◌∙◌, sym, ◌⊎◌, Option,
  true, length, suc,
}
use mkk_luna.Schema.{Task, Tables}
use mkk_luna.Http.{TeamTopCreator}
use mkk_luna.Repository.Analytics.{
  is_managed, is_within, in_group, group_heads, group_of, Group, base, ranked, top_creator_rows,
  same_creator, is_ahead,
}
use mkk_luna.Stats.Groups.{
  manages, made, All-group_heads, same_creator_refl, in_group-eq, any-group_heads, selected,
}

module _ (user_id from to limit : ℕ) (t : Tables) where
  abbrev pub is_wanted : Task → Bool
  is_wanted r = is_within from to r.created_at && is_managed t user_id r.team_id

  -- The team, the creator, and the tasks that the creator has made in it.
  abbrev pub counted : ℕ → Option ℕ → Group
  counted team_id creator = (team_id, (creator, made t from to team_id creator))

  -- How many groups of the team are before the group.
  abbrev pub groups_ahead : Group → ℕ
  groups_ahead g = length (select (is_ahead g) (base user_id from to t))

  -- The row is of a team that the caller manages; it has the number of tasks that its creator has made, and
  -- its place is the number of groups before it and one, and within the limit.
  abbrev pub IsPlaced : TeamTopCreator → Type 0
  IsPlaced row =
      (manages t user_id row.team_id ≡ true)
      × (row.created_count ≡ made t from to row.team_id row.user_id)
      × (row.rank ≡ suc (groups_ahead (counted row.team_id row.user_id)))
      × (row.rank ≤ limit)

  abbrev is_row : Task → TeamTopCreator → Bool
  is_row r row = r.team_id == row.team_id && same_creator r.created_by row.user_id

  -- The creator of the task has a row, or the limit's number of groups of the team are before.
  abbrev pub IsCovered : List TeamTopCreator → Task → Type 0
  IsCovered rows r =
      (leb from r.created_at && ltb r.created_at to) ≡ true
      → manages t user_id r.team_id ≡ true
      → (any (is_row r) rows ≡ true) ⊎ (limit ≤ groups_ahead (counted r.team_id r.created_by))

  rows : List Task
  rows = select is_wanted t.tasks

  same_select :
      (r : Task) (xs : List Task)
      → is_managed t user_id r.team_id ≡ true
      → select (in_group r) (select is_wanted xs)
        ≡ select
            (λ s.
              (r.team_id == s.team_id && same_creator r.created_by s.created_by)
              && (leb from s.created_at && ltb s.created_at to))
            xs
  unfolding select
  same_select r [] h = refl
  same_select r (x ∷ xs) h = elim (Bool-cases (in_group r x)) [
    | inl g ↦
        let managed : is_managed t user_id x.team_id ≡ true =
          ap (is_managed t user_id) (sym (in_group-eq r x g).0) ∙ h in
        elim (Bool-cases (is_within from to x.created_at)) [
          | inl e ↦ rw (e, managed, g) (ap (◌∷◌ x) (same_select r xs h))
          | inr e ↦ rw (e, g) (same_select r xs h)
        ]
    | inr g ↦ elim (Bool-cases (is_wanted x)) [
      | inl e ↦ rw (e, g) (same_select r xs h)
      | inr e ↦ rw (e, g) (same_select r xs h)
    ]
  ]

  group_of-counted :
      (r : Task)
      → is_managed t user_id r.team_id ≡ true
      → group_of rows r ≡ counted r.team_id r.created_by
  unfolding group_of rows
  group_of-counted r h = ap (λ xs. (r.team_id, (r.created_by, length xs))) (same_select r t.tasks h)

  abbrev row_of : Group → TeamTopCreator
  row_of = ranked (base user_id from to t)

  -- The rows of the groups of some tasks, within the limit.
  abbrev listed : List Task → List TeamTopCreator
  listed hs = select (λ row. leb row.rank limit) (map row_of (map (group_of rows) hs))

  row_of-IsPlaced :
      (r : Task) (g : Group)
      → is_managed t user_id r.team_id ≡ true
      → g ≡ counted r.team_id r.created_by
      → leb (row_of g).rank limit ≡ true
      → IsPlaced (row_of g)
  unfolding is_managed ranked
  row_of-IsPlaced r g managed same =
      subst (λ g. leb (row_of g).rank limit ≡ true → IsPlaced (row_of g)) (sym same)
        (λ e. (managed, refl, refl, leb→le _ limit e))

  listed-IsPlaced :
      (hs : List Task)
      → All (λ r. is_managed t user_id r.team_id ≡ true) hs
      → All IsPlaced (listed hs)
  unfolding select
  listed-IsPlaced [] h = tt
  listed-IsPlaced (r ∷ hs) (managed, h) =
      elim (Bool-cases (leb (row_of (group_of rows r)).rank limit)) [
        | inl e ↦ rw e (
          row_of-IsPlaced r (group_of rows r) managed (group_of-counted r managed) e,
          listed-IsPlaced hs h,
        )
        | inr e ↦ rw e (listed-IsPlaced hs h)
      ]

  abbrev IsFound : Task → List TeamTopCreator → Type 0
  IsFound r rs =
      (any (is_row r) rs ≡ true) ⊎ (limit ≤ groups_ahead (counted r.team_id r.created_by))

  own_row :
      (r : Task) (rest : List TeamTopCreator)
      → let row = row_of (counted r.team_id r.created_by) in
        IsFound r (if leb row.rank limit then row ∷ rest else rest)
  unfolding ranked
  own_row r rest =
      elim (Bool-cases (leb (suc (groups_ahead (counted r.team_id r.created_by))) limit)) [
        | inl e ↦ rw e (inl (rw (==_refl r.team_id, same_creator_refl r.created_by) refl))
        | inr e ↦ rw e (inr (ground (arith, e)))
      ]

  same_counted :
      (r h : Task)
      → in_group r h ≡ true
      → counted h.team_id h.created_by ≡ counted r.team_id r.created_by
  same_counted r h e = let (team, creator) = in_group-eq r h e in rw (team, creator) refl

  listed-IsFound :
      (r : Task) (hs : List Task)
      → is_managed t user_id r.team_id ≡ true
      → any (in_group r) hs ≡ true
      → IsFound r (listed hs)
  unfolding select
  listed-IsFound r [] managed h = cc
  listed-IsFound r (x ∷ hs) managed h = elim (Bool-cases (in_group r x)) [
    | inl g ↦
        let managed_x = ap (is_managed t user_id) (sym (in_group-eq r x g).0) ∙ managed in
        subst
          (λ g. IsFound r (if leb (row_of g).rank limit then row_of g ∷ listed hs else listed hs))
          (sym (group_of-counted x managed_x ∙ same_counted r x g)) (own_row r (listed hs))
    | inr g ↦ more (row_of (group_of rows x)) (listed hs) (listed-IsFound r hs managed (rw g at h))
  ]
    where
      more :
          (row : TeamTopCreator) (rest : List TeamTopCreator)
          → IsFound r rest
          → IsFound r (if leb row.rank limit then row ∷ rest else rest)
      more row rest found = elim (Bool-cases (leb row.rank limit)) [
        | inl e ↦ rw e (still found)
        | inr e ↦ rw e found
      ]
        where
          still : IsFound r rest → IsFound r (row ∷ rest)
          still (inl e) = inl (ground (arith, e))
          still (inr le) = inr le

  pub top_creator_rows-IsPlaced : All IsPlaced (top_creator_rows user_id from to limit t)
  unfolding top_creator_rows base rows
  top_creator_rows-IsPlaced = listed-IsPlaced (group_heads rows) (
      All-group_heads (λ r. is_managed t user_id r.team_id ≡ true) rows
        (All-imply (λ r. is_wanted r ≡ true) _ rows (λ r h. ground (arith, h))
          (select-All is_wanted t.tasks)))

  pub top_creator_rows-IsCovered :
      All (IsCovered (top_creator_rows user_id from to limit t)) t.tasks
  unfolding top_creator_rows base rows is_managed
  top_creator_rows-IsCovered =
      All-imply _ _ t.tasks
        (λ r there within managed.
          listed-IsFound r (group_heads rows) managed
            (any-group_heads r rows (there (rw (within, managed) refl))))
        (selected is_wanted t.tasks)
