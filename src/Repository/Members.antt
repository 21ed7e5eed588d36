-- ===== src/Repository/Members.antt =====
-- internal/repository/team_member_repo.go. (team_id, user_id) is the primary key.
use mathlib.Core.Option
use mkk_luna.Prelude.{
  ℕ, String, Bool, true, false, ◌&&◌, Option, none, some, [], ◌∷◌, ◌++◌, find, ◌==◌,
}
use mkk_luna.Schema.{TeamMember, Tables}
use mkk_luna.World.{M, Result, ok, err, duplicate, query, exec}

unfoldable pub member_of : Tables → ℕ → ℕ → Option TeamMember
member_of t team_id user_id = find (λ m. m.team_id == team_id && m.user_id == user_id) t.members

unfoldable pub role_of : Tables → ℕ → ℕ → Option String
unfolding member_of
role_of t team_id user_id = Option.map (λ m. m.role) (member_of t team_id user_id)

abbrev pub is_some {ℓ} : {A : Type ℓ} → Option A → Bool
is_some none = false
is_some (some a) = true

unfoldable pub is_in_team : Tables → ℕ → ℕ → Bool
unfolding member_of
is_in_team t team_id user_id = is_some (member_of t team_id user_id)

unfoldable pub insert_member : ℕ → ℕ → String → Tables → Result (Unit {0}) × Tables
unfolding member_of
insert_member team_id user_id role t = elim (member_of t team_id user_id) [
  | some _ ↦ (err duplicate, t)
  | none ↦ (
    ok tt,
    record t {
      members =
          t.members
          ++ record { team_id = team_id; user_id = user_id; role = role; created_at = t.clock }
            ∷ [];
    },
  )
]

unfoldable pub add_tx : ℕ → ℕ → String → M (Unit {0})
add_tx team_id user_id role = exec (insert_member team_id user_id role)

unfoldable pub add : ℕ → ℕ → String → M (Unit {0})
add team_id user_id role = exec (insert_member team_id user_id role)

unfoldable pub get_role : ℕ → ℕ → M (Option String)
get_role team_id user_id = query (λ t. role_of t team_id user_id)

unfoldable pub is_member : ℕ → ℕ → M Bool
is_member team_id user_id = query (λ t. is_in_team t team_id user_id)
