-- ===== src/Task/Audit.antt =====
-- `buildTaskDiffEntries` and the history: what an update changes is what its entries say.
use mathlib.Core.Logic.{◌≢◌}
use mathlib.Core.Path.{subst}
use mkk_luna.Prelude.{
  ℕ, ◌≡◌, ◌↔◌, refl, sym, ap, ◌∙◌, eq_iff, ==_iff, Bool, true, false, String, Option, none, some,
  List, [], ◌∷◌, map, All, Bool-cases, inl, inr, ◌=s◌, ◌==◌,
}
use mkk_luna.Text.{format_date}
use mkk_luna.Schema.{Task, Json}
use mkk_luna.Repository.Tasks.{Change, set_column, set_columns}
use mkk_luna.Task.Diff.{
  key, same_option, same_date, day_json, nullable, old_json, new_json, is_unchanged, entry_of,
  build_task_diff_entries,
}

-- No key stands twice.
abbrev pub IsDistinct : List Change → Type 0
IsDistinct [] = Unit
IsDistinct (c ∷ cs) = All (λ d. key c ≢ key d) cs × IsDistinct cs

-- The row shows the value that the change brings.
abbrev pub Shows : Task → Change → Type 0
Shows task c = old_json task c ≡ new_json c

nullable_iff :
    {A : Type 0} (f : A → Json) (eq : A → A → Bool)
    → ((a b : A) → (eq a b ≡ true) ↔ (f a ≡ f b))
    → ((a : A) → f a ≢ Json.null)
    → (u v : Option A) → (same_option eq u v ≡ true) ↔ (nullable f u ≡ nullable f v)
nullable_iff f eq same proper none none = ((λ _. refl), (λ _. refl))
nullable_iff f eq same proper (some a) (some b) = same a b
nullable_iff f eq same proper none (some b) = ((λ h. cc), (λ h. absurd (proper b (sym h))))
nullable_iff f eq same proper (some a) none = ((λ h. cc), (λ h. absurd (proper a h)))

text_iff : (a b : String) → ((a =s b) ≡ true) ↔ (Json.text a ≡ Json.text b)
text_iff a b = ((λ h. ap Json.text ((eq_iff a b).0 h)), (λ h. (eq_iff a b).1 (cc)))

number_iff : (a b : ℕ) → ((a == b) ≡ true) ↔ (Json.number a ≡ Json.number b)
number_iff a b = ((λ h. ap Json.number ((==_iff a b).0 h)), (λ h. (==_iff a b).1 (cc)))

day_iff : (a b : ℕ) → (same_date a b ≡ true) ↔ (day_json a ≡ day_json b)
day_iff a b = (
  (λ h. ap Json.day ((==_iff (format_date a) (format_date b)).0 h)),
  (λ h. (==_iff (format_date a) (format_date b)).1 (cc)),
)

-- The test before a `continue` holds exactly when the row shows the value already.
pub is_unchanged_iff : (task : Task) (c : Change) → (is_unchanged task c ≡ true) ↔ Shows task c
unfolding is_unchanged old_json new_json
is_unchanged_iff task (Change.title v) = text_iff task.title v
is_unchanged_iff task (Change.status v) = text_iff task.status v
is_unchanged_iff task (Change.priority v) = text_iff task.priority v
is_unchanged_iff task (Change.description v) =
    nullable_iff Json.text _ text_iff (λ a e. cc) task.description v
is_unchanged_iff task (Change.assignee_id v) =
    nullable_iff Json.number _ number_iff (λ a e. cc) task.assignee_id v
is_unchanged_iff task (Change.due_date v) =
    nullable_iff day_json same_date day_iff (λ a e. cc) task.due_date v

Shows-set_column : (task : Task) (c : Change) → Shows (set_column c task) c
unfolding set_column old_json new_json
Shows-set_column task (Change.title v) = refl
Shows-set_column task (Change.status v) = refl
Shows-set_column task (Change.priority v) = refl
Shows-set_column task (Change.description v) = refl
Shows-set_column task (Change.assignee_id v) = refl
Shows-set_column task (Change.due_date v) = refl

old_json-set_column :
    (task : Task) (c d : Change) → key c ≢ key d → old_json (set_column d task) c ≡ old_json task c
unfolding set_column old_json
old_json-set_column task (Change.title v) (Change.title u) h = absurd (h refl)
old_json-set_column task (Change.status v) (Change.status u) h = absurd (h refl)
old_json-set_column task (Change.priority v) (Change.priority u) h = absurd (h refl)
old_json-set_column task (Change.description v) (Change.description u) h = absurd (h refl)
old_json-set_column task (Change.assignee_id v) (Change.assignee_id u) h = absurd (h refl)
old_json-set_column task (Change.due_date v) (Change.due_date u) h = absurd (h refl)
old_json-set_column task _ _ h = refl

old_json-set_columns :
    (task : Task) (c : Change) (ds : List Change)
    → All (λ d. key c ≢ key d) ds
    → old_json (set_columns ds task) c ≡ old_json task c
unfolding set_columns
old_json-set_columns task c [] h = refl
old_json-set_columns task c (d ∷ ds) (h, hs) =
    old_json-set_columns (set_column d task) c ds hs ∙ old_json-set_column task c d h

pub All-updates {ℓ} :
    (P : Change → Type ℓ) (task : Task) (user_id : ℕ) (cs : List Change)
    → All P cs
    → All P (build_task_diff_entries task user_id cs).0
unfolding build_task_diff_entries
All-updates P task user_id [] h = tt
All-updates P task user_id (c ∷ cs) (h, hs) = elim (Bool-cases (is_unchanged task c)) [
  | inl e ↦ rw (e, build_task_diff_entries) (All-updates P task user_id cs hs)
  | inr e ↦ rw (e, build_task_diff_entries) (h, All-updates P task user_id cs hs)
]

updates-cons_same :
    (task : Task) (user_id : ℕ) (c : Change) (cs : List Change)
    → is_unchanged task c ≡ true
    → (build_task_diff_entries task user_id (c ∷ cs)).0
      ≡ (build_task_diff_entries task user_id cs).0
unfolding build_task_diff_entries
updates-cons_same task user_id c cs e = rw e

updates-cons_changed :
    (task : Task) (user_id : ℕ) (c : Change) (cs : List Change)
    → is_unchanged task c ≡ false
    → (build_task_diff_entries task user_id (c ∷ cs)).0
      ≡ c ∷ (build_task_diff_entries task user_id cs).0
unfolding build_task_diff_entries
updates-cons_changed task user_id c cs e = rw e

-- The changes are found against `task` and written to a row that shows the same values.
All-Shows-updates :
    (task row : Task) (user_id : ℕ) (cs : List Change)
    → IsDistinct cs
    → All (λ c. old_json row c ≡ old_json task c) cs
    → All (Shows (set_columns (build_task_diff_entries task user_id cs).0 row)) cs
unfolding set_columns
All-Shows-updates task row user_id [] distinct agree = tt
All-Shows-updates task row user_id (c ∷ cs) (apart, distinct) (same, agree) =
    elim (Bool-cases (is_unchanged task c)) [
      | inl e ↦ subst AllShow (sym (updates-cons_same task user_id c cs e)) (
        old_json-set_columns row c updates others ∙ same ∙ (is_unchanged_iff task c).0 e,
        All-Shows-updates task row user_id cs distinct agree,
      )
      | inr e ↦ subst AllShow (sym (updates-cons_changed task user_id c cs e)) (
        old_json-set_columns (set_column c row) c updates others ∙ Shows-set_column row c,
        All-Shows-updates task (set_column c row) user_id cs distinct moved,
      )
    ]
  where
    AllShow : List Change → Type 0
    AllShow us = All (Shows (set_columns us row)) (c ∷ cs)

    updates : List Change
    updates = (build_task_diff_entries task user_id cs).0

    others : All (λ d. key c ≢ key d) updates
    others = All-updates (λ d. key c ≢ key d) task user_id cs apart

    moved : All (λ d. old_json (set_column c row) d ≡ old_json task d) cs
    moved = moves cs apart agree
      where
        moves :
            (ds : List Change)
            → All (λ d. key c ≢ key d) ds
            → All (λ d. old_json row d ≡ old_json task d) ds
            → All (λ d. old_json (set_column c row) d ≡ old_json task d) ds
        moves [] h k = tt
        moves (d ∷ ds) (h, hs) (k, ks) =
            (old_json-set_column row d c (λ i. h (sym i)) ∙ k, moves ds hs ks)

diff-eq-nil :
    (task : Task) (user_id : ℕ) (cs : List Change)
    → All (Shows task) cs
    → build_task_diff_entries task user_id cs ≡ ([], [])
unfolding build_task_diff_entries
diff-eq-nil task user_id [] h = refl
diff-eq-nil task user_id (c ∷ cs) (h, hs) =
    rw ((is_unchanged_iff task c).1 h) (diff-eq-nil task user_id cs hs)

All-refl : (task : Task) (cs : List Change) → All (λ c. old_json task c ≡ old_json task c) cs
All-refl task [] = tt
All-refl task (c ∷ cs) = (refl, All-refl task cs)

-- After the updates that `buildTaskDiffEntries` finds for a patch whose keys are distinct, the row
-- shows every value of the patch, and the same patch then finds nothing to update.
pub diff_applied :
    (task : Task) (user_id : ℕ) (cs : List Change)
    → IsDistinct cs
    → let row = set_columns (build_task_diff_entries task user_id cs).0 task in
      All (Shows row) cs × (build_task_diff_entries row user_id cs ≡ ([], []))
diff_applied task user_id cs distinct =
    let shown = All-Shows-updates task task user_id cs distinct (All-refl task cs) in
    (shown, diff-eq-nil _ user_id cs shown)

-- `buildTaskDiffEntries` gives one entry for each column that it updates, and each entry has two
-- values that differ: the one of the task and the one of the patch.
pub diff_entries :
    (task : Task) (user_id : ℕ) (cs : List Change)
    → let (updates, entries) = build_task_diff_entries task user_id cs in
      (entries ≡ map (entry_of task user_id) updates)
      × All (λ c. old_json task c ≢ new_json c) updates
unfolding build_task_diff_entries
diff_entries task user_id [] = (refl, tt)
diff_entries task user_id (c ∷ cs) =
    let (same, differ) = diff_entries task user_id cs in
    elim (Bool-cases (is_unchanged task c)) [
      | inl e ↦ rw (e, build_task_diff_entries) (same, differ)
      | inr e ↦
          rw (e, build_task_diff_entries)
            (
              ap (◌∷◌ (entry_of task user_id c)) same,
              ((λ h. cc (e, (is_unchanged_iff task c).1 h)), differ),
            )
    ]

old_json-updated_at :
    (task : Task) (n : ℕ) (c : Change)
    → old_json (record task { updated_at = n }) c ≡ old_json task c
unfolding old_json
old_json-updated_at task n (Change.title v) = refl
old_json-updated_at task n (Change.status v) = refl
old_json-updated_at task n (Change.priority v) = refl
old_json-updated_at task n (Change.description v) = refl
old_json-updated_at task n (Change.assignee_id v) = refl
old_json-updated_at task n (Change.due_date v) = refl

-- The row that the UPDATE leaves shows every value of the patch.
pub written_row :
    (task : Task) (n user_id : ℕ) (cs : List Change)
    → IsDistinct cs
    → All
        (Shows (
          set_columns (build_task_diff_entries task user_id cs).0 (record task { updated_at = n })))
        cs
written_row task n user_id cs distinct = All-Shows-updates task _ user_id cs distinct (agree cs)
  where
    agree :
        (ds : List Change)
        → All (λ c. old_json (record task { updated_at = n }) c ≡ old_json task c) ds
    agree [] = tt
    agree (d ∷ ds) = (old_json-updated_at task n d, agree ds)
