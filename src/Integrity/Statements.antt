-- ===== src/Integrity/Statements.antt =====
-- What the statements of internal/repository do to the tasks and memberships keeps the tables intact.
use mathlib.Core.Path.{subst}
use mkk_luna.Prelude.{
  ℕ, suc, ◌<◌, ◌≡◌, ◌≢◌, refl, sym, ◌∙◌, inl, inr, String, Bool, true, false, Option, none, some,
  List, [], ◌∷◌, ◌++◌, All, All-concat, All-update_where, All-delete_where, All-imply, find,
  find-append_some, update_where, delete_where, Option-cases, Bool-cases, ◌==◌, ==_iff, arith, ◌&&◌,
}
use mkk_luna.Schema.{Task, TeamMember, TaskHistoryCreate, Tables}
use mkk_luna.Repository.Tasks.{
  Change, NewTask, set_column, set_columns, insert_task, write_task, remove_task, task_of,
}
use mkk_luna.Repository.Members.{is_in_team, is_some, member_of, insert_member}
use mkk_luna.Repository.History.{insert_entry, insert_entries}
use mkk_luna.Repository.Teams.{insert_team}
use mkk_luna.Task.Patch.Rules.{IsAssignable, IsAcceptable}
use mkk_luna.Task.Records.{set_columns-id}
use mkk_luna.Integrity.{IsAssigned, IsKeyed, IsIntact}

-- Tables with the same tasks and at least the same memberships.
abbrev pub IsGrown : Tables → Tables → Type 0
IsGrown t t' =
    (t'.tasks ≡ t.tasks)
    × ((t'.next_task ≡ t.next_task)
        × ((team_id user_id : ℕ)
            → is_in_team t team_id user_id ≡ true
            → is_in_team t' team_id user_id ≡ true))

IsAssignable-grown :
    (t t' : Tables) (team_id : ℕ) (o : Option ℕ)
    → ((team_id user_id : ℕ)
        → is_in_team t team_id user_id ≡ true
        → is_in_team t' team_id user_id ≡ true)
    → IsAssignable t team_id o
    → IsAssignable t' team_id o
IsAssignable-grown t t' team_id none more h = tt
IsAssignable-grown t t' team_id (some a) more h = more team_id a h

pub IsIntact-grown : (t t' : Tables) → IsGrown t t' → IsIntact t → IsIntact t'
unfolding is_in_team
IsIntact-grown t t' (tasks, (next, more)) (assigned, (below, keyed)) =
    rw (tasks, next)
      (
        All-imply (IsAssigned t) (IsAssigned t') t.tasks
            (λ r. IsAssignable-grown t t' r.team_id r.assignee_id more) assigned,
        (below, keyed),
      )

pub insert_member-IsGrown :
    (t : Tables) (team_id user_id : ℕ) (role : String)
    → IsGrown t (insert_member team_id user_id role t).1
unfolding insert_member is_in_team member_of
insert_member-IsGrown t team_id user_id role = elim (Option-cases (member_of t team_id user_id)) [
  | inr (m, e) ↦ rw (e, insert_member) (refl, (refl, (λ a b h. h)))
  | inl e ↦ rw (e, insert_member) (refl, (refl, (λ a b h. stays a b _ h)))
]
  where
    stays :
        (a b : ℕ) (m : TeamMember)
        → is_some (find (λ x. x.team_id == a && x.user_id == b) t.members) ≡ true
        → is_some (find (λ x. x.team_id == a && x.user_id == b) (t.members ++ m ∷ [])) ≡ true
    stays a b m h = elim (Option-cases (find (λ x. x.team_id == a && x.user_id == b) t.members)) [
      | inl e ↦ let h' = rw e at h in cc
      | inr (x, e) ↦
          rw (find-append_some (λ x. x.team_id == a && x.user_id == b) t.members (m ∷ []) x e)
    ]

pub insert_team-IsGrown :
    (t : Tables) (user_id : ℕ) (name : String) → IsGrown t (insert_team name user_id t).1
unfolding insert_team is_in_team member_of
insert_team-IsGrown t user_id name = (refl, (refl, (λ a b h. h)))

pub insert_entries-IsGrown :
    (es : List TaskHistoryCreate) (t : Tables) → IsGrown t (insert_entries es t)
unfolding insert_entries insert_entry is_in_team member_of
insert_entries-IsGrown [] t = (refl, (refl, (λ a b h. h)))
insert_entries-IsGrown (e ∷ es) t = insert_entries-IsGrown es (insert_entry e t)

IsKeyed-concat :
    (rs : List Task) (r : Task) (n : ℕ)
    → r.id ≡ n
    → All (λ s. s.id < n) rs
    → IsKeyed rs
    → IsKeyed (rs ++ r ∷ [])
IsKeyed-concat [] r n same below keyed = (tt, tt)
IsKeyed-concat (s ∷ rs) r n same (b, below) (apart, keyed) = (
  All-concat (λ x. x.id ≢ s.id) rs apart (λ e. omega (arith, e, same, b)),
  IsKeyed-concat rs r n same below keyed,
)

pub insert_task-IsIntact :
    (t : Tables) (n : NewTask)
    → IsAssignable t n.team_id n.assignee_id
    → IsIntact t
    → IsIntact (insert_task n t).1
unfolding insert_task is_in_team member_of
insert_task-IsIntact t n ok_new (assigned, (below, keyed)) = (
  All-concat (IsAssigned t) t.tasks assigned ok_new,
  (
    All-concat (λ r. r.id < suc t.next_task) t.tasks
        (All-imply (λ r. r.id < t.next_task) (λ r. r.id < suc t.next_task) t.tasks
          (λ r h. omega arith) below)
        (omega arith),
    IsKeyed-concat t.tasks _ t.next_task refl below keyed,
  ),
)

All-zip {ℓ κ η} :
    {A : Type ℓ} (P : A → Type κ) (Q : A → Type η) (xs : List A)
    → All P xs
    → All Q xs
    → All (λ x. P x × Q x) xs
All-zip P Q [] p q = tt
All-zip P Q (x ∷ xs) (p, ps) (q, qs) = ((p, q), All-zip P Q xs ps qs)

-- The row that is found is the only one with its identifier.
only_row :
    (id : ℕ) (rs : List Task) (task : Task)
    → IsKeyed rs
    → find (λ r. r.id == id) rs ≡ some task
    → All (λ r. (r.id == id) ≡ true → r ≡ task) rs
unfolding find
only_row id [] task keyed found = tt
only_row id (r ∷ rs) task (apart, keyed) found = elim (Bool-cases (r.id == id)) [
  | inl e ↦
      let same : r ≡ task = ground arith in
      (
        (λ h. same),
        All-imply (λ s. s.id ≢ r.id) (λ s. (s.id == id) ≡ true → s ≡ task) rs
            (λ s differs h. absurd (differs ((==_iff s.id id).0 h ∙ sym ((==_iff r.id id).0 e))))
            apart,
      )
  | inr e ↦
      let later : find (λ r. r.id == id) rs ≡ some task = ground arith in
      ((λ h. absurd (clash e h)), only_row id rs task keyed later)
]
  where
    clash : {b : Bool} → b ≡ false → ¬ (b ≡ true)
    clash e h = cc

set_column-IsAssigned :
    (t : Tables) (c : Change) (r : Task)
    → IsAcceptable t r.team_id c
    → IsAssigned t r
    → IsAssigned t (set_column c r) × ((set_column c r).team_id ≡ r.team_id)
unfolding set_column
set_column-IsAssigned t (Change.title v) r ok_new h = (h, refl)
set_column-IsAssigned t (Change.status v) r ok_new h = (h, refl)
set_column-IsAssigned t (Change.priority v) r ok_new h = (h, refl)
set_column-IsAssigned t (Change.description v) r ok_new h = (h, refl)
set_column-IsAssigned t (Change.assignee_id v) r ok_new h = (ok_new, refl)
set_column-IsAssigned t (Change.due_date v) r ok_new h = (h, refl)

set_columns-IsAssigned :
    (t : Tables) (cs : List Change) (r : Task)
    → All (IsAcceptable t r.team_id) cs
    → IsAssigned t r
    → IsAssigned t (set_columns cs r)
unfolding set_columns
set_columns-IsAssigned t [] r acceptable h = h
set_columns-IsAssigned t (c ∷ cs) r (ok_new, acceptable) h =
    let (now, team) = set_column-IsAssigned t c r ok_new h in
    set_columns-IsAssigned t cs (set_column c r)
      (subst (λ n. All (IsAcceptable t n) cs) (sym team) acceptable) now

IsKeyed-update_where :
    (p : Task → Bool) (f : Task → Task) (rs : List Task)
    → ((r : Task) → (f r).id ≡ r.id)
    → IsKeyed rs
    → IsKeyed (update_where p f rs)
unfolding update_where
IsKeyed-update_where p f [] keeps keyed = tt
IsKeyed-update_where p f (r ∷ rs) keeps (apart, keyed) =
    let rest = IsKeyed-update_where p f rs keeps keyed in
    elim (Bool-cases (p r)) [
      | inl e ↦ rw e (
        All-update_where (λ s. s.id ≢ r.id) (λ s. s.id ≢ (f r).id) p f rs
            (λ s differs _. λ same. differs (sym (keeps s) ∙ same ∙ keeps r))
            (λ s differs _. λ same. differs (same ∙ keeps r)) apart,
        rest,
      )
      | inr e ↦ rw e (
        All-update_where (λ s. s.id ≢ r.id) (λ s. s.id ≢ r.id) p f rs
            (λ s differs _. λ same. differs (sym (keeps s) ∙ same)) (λ s differs _. differs) apart,
        rest,
      )
    ]

IsKeyed-delete_where : (p : Task → Bool) (rs : List Task) → IsKeyed rs → IsKeyed (delete_where p rs)
unfolding delete_where
IsKeyed-delete_where p [] keyed = tt
IsKeyed-delete_where p (r ∷ rs) (apart, keyed) = elim (Bool-cases (p r)) [
  | inl e ↦ rw e (IsKeyed-delete_where p rs keyed)
  | inr e ↦ rw e (All-delete_where (λ s. s.id ≢ r.id) p rs apart, IsKeyed-delete_where p rs keyed)
]

pub write_task-IsIntact :
    (t : Tables) (id : ℕ) (cs : List Change) (task : Task)
    → task_of t id ≡ some task
    → All (IsAcceptable t task.team_id) cs
    → IsIntact t
    → IsIntact (write_task id cs t)
unfolding write_task task_of is_in_team member_of
write_task-IsIntact t id cs task found acceptable (assigned, (below, keyed)) = (
  All-update_where (λ r. IsAssigned t r × ((r.id == id) ≡ true → r ≡ task)) (IsAssigned t)
      (λ r. r.id == id) (λ r. set_columns cs (record r { updated_at = t.clock })) t.tasks
      (λ r (h, only) e.
        set_columns-IsAssigned t cs (record r { updated_at = t.clock })
          (subst (λ x. All (IsAcceptable t x.team_id) cs) (sym (only e)) acceptable) h)
      (λ r (h, only) e. h)
      (All-zip (IsAssigned t) (λ r. (r.id == id) ≡ true → r ≡ task) t.tasks assigned
        (only_row id t.tasks task keyed found)),
  (
    All-update_where (λ r. r.id < t.next_task) (λ r. r.id < t.next_task) (λ r. r.id == id)
        (λ r. set_columns cs (record r { updated_at = t.clock })) t.tasks
        (λ r h e. rw (set_columns-id cs (record r { updated_at = t.clock })) h) (λ r h e. h) below,
    IsKeyed-update_where (λ r. r.id == id) (λ r. set_columns cs (record r { updated_at = t.clock }))
        t.tasks (λ r. set_columns-id cs (record r { updated_at = t.clock })) keyed,
  ),
)

pub remove_task-IsIntact : (t : Tables) (id : ℕ) → IsIntact t → IsIntact (remove_task id t)
unfolding remove_task is_in_team member_of
remove_task-IsIntact t id (assigned, (below, keyed)) = (
  All-delete_where (IsAssigned t) (λ r. r.id == id) t.tasks assigned,
  (
    All-delete_where (λ r. r.id < t.next_task) (λ r. r.id == id) t.tasks below,
    IsKeyed-delete_where (λ r. r.id == id) t.tasks keyed,
  ),
)
