-- ===== src/Stats/Groups.antt =====
-- The groups of internal/repository/analytics_repo.go: teams, creators and what they have made.
use mkk_luna.Prelude.{
  ℕ, ◌≡◌, refl, inl, inr, Bool, ◌&&◌, none, List, [], ◌∷◌, All, All-imply, any, select, ltb, leb,
  arith, Bool-cases, ◌||◌, ◌==◌, ==_iff, ==_refl, ◌=s◌, ap, ◌∙◌, Option, some, true, length,
}
use mkk_luna.Schema.{Task, Tables}
use mkk_luna.Repository.Analytics.{in_group, group_heads, same_creator}

pub All-group_heads : (P : Task → Type 0) (rs : List Task) → All P rs → All P (group_heads rs)
unfolding group_heads
All-group_heads P [] h = tt
All-group_heads P (r ∷ rs) (p, h) = elim (Bool-cases (any (in_group r) rs)) [
  | inl e ↦ rw e (All-group_heads P rs h)
  | inr e ↦ rw e (p, All-group_heads P rs h)
]

-- The caller is an owner or admin of the team.
abbrev pub manages : Tables → ℕ → ℕ → Bool
manages t user_id team_id =
    any
      (λ m.
        m.team_id == team_id && m.user_id == user_id && (m.role =s "owner" || m.role =s "admin"))
      t.members

-- How many tasks the creator has made in the team and the range.
abbrev pub made : Tables → ℕ → ℕ → ℕ → Option ℕ → ℕ
made t from to team_id creator = length (
    select
      (λ r.
        (team_id == r.team_id && same_creator creator r.created_by)
        && (leb from r.created_at && ltb r.created_at to))
      t.tasks)

same_creator-eq : (a b : Option ℕ) → same_creator a b ≡ true → a ≡ b
same_creator-eq none none h = refl
same_creator-eq none (some b) h = cc
same_creator-eq (some a) none h = cc
same_creator-eq (some a) (some b) h = ap some ((==_iff a b).0 h)

pub same_creator_refl : (a : Option ℕ) → same_creator a a ≡ true
same_creator_refl none = refl
same_creator_refl (some a) = ==_refl a

pub in_group-eq :
    (r h : Task) → in_group r h ≡ true → (r.team_id ≡ h.team_id) × (r.created_by ≡ h.created_by)
in_group-eq r h e = (
  ground (arith, ==_iff r.team_id h.team_id, e),
  same_creator-eq r.created_by h.created_by (ground (arith, e)),
)

any-in_group :
    (r x : Task) (xs : List Task) → in_group r x ≡ true → any (in_group r) xs ≡ any (in_group x) xs
any-in_group r x xs e = let (team, creator) = in_group-eq r x e in rw (team, creator) refl

-- The head of each group is among the heads.
pub any-group_heads :
    (r : Task) (xs : List Task)
    → any (in_group r) xs ≡ true
    → any (in_group r) (group_heads xs) ≡ true
unfolding group_heads
any-group_heads r [] h = h
any-group_heads r (x ∷ xs) h = elim (Bool-cases (any (in_group x) xs)) [
  | inl e ↦ elim (Bool-cases (in_group r x)) [
    | inl g ↦ rw e (any-group_heads r xs (any-in_group r x xs g ∙ e))
    | inr g ↦ rw e (any-group_heads r xs (rw g at h))
  ]
  | inr e ↦ elim (Bool-cases (in_group r x)) [
    | inl g ↦ rw (e, g) refl
    | inr g ↦ rw (e, g) (any-group_heads r xs (rw g at h))
  ]
]

pub selected :
    (p : Task → Bool) (xs : List Task)
    → All (λ r. p r ≡ true → any (in_group r) (select p xs) ≡ true) xs
unfolding select
selected p [] = tt
selected p (x ∷ xs) = (
  λ q. rw (q, ==_refl x.team_id, same_creator_refl x.created_by) refl,
  All-imply _ _ xs
      (λ r h q. elim (Bool-cases (p x)) [ inl e ↦ rw e (ground (arith, h q)) | inr e ↦ rw e (h q) ])
      (selected p xs),
)
