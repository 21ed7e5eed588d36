-- ===== src/Team/Owners.antt =====
-- An invariant of the tables: every team has an owner.
use mkk_luna.Prelude.{
  All-find, All-imply, ℕ, suc, ◌<◌, ◌≡◌, refl, sym, ap, ◌∙◌, String, Bool, Option, none, some, List,
  [], ◌∷◌, ◌++◌, ◌&&◌, All, find, find_sound, find-append, find-append_some, All-concat, ◌==◌,
  ==_iff, ==_refl, Option-cases, inl, inr, arith,
}
use mathlib.Core.Path.{subst}
use mathlib.Core.Option
use mkk_luna.Schema.{Team, TeamMember, Tables}
use mkk_luna.World.{World, Result, ok, err}
use mkk_luna.Repository.Teams.{team_of, insert_team}
use mkk_luna.Repository.Members.{member_of, role_of, insert_member}
use mkk_luna.Task.Fields.{role_owner}
use mkk_luna.Task.Atomicity.{AllOrNothing}
use mkk_luna.Team.Service.{TeamService, create_team, invite_by_email}
use mkk_luna.Team.Laws.{IsInvited, IsTeamCreated, create_team_atomic, invite_by_email-IsInvited}

-- Somebody is an owner of the team.
abbrev pub IsOwned : Tables → Team → Type 0
IsOwned t team = (user_id : ℕ) × (role_of t team.id user_id ≡ some role_owner)

-- The identifiers in use are below the counter, and every team is owned.
abbrev pub IsSound : Tables → Type 0
IsSound t =
    All (λ m. m.team_id < t.next_team) t.members
    × All (λ team. team.id < t.next_team) t.teams
    × All (IsOwned t) t.teams

-- A membership that is there stays when another is added.
role_of-insert_member :
    (t : Tables) (a b team_id user_id : ℕ) (r role : String)
    → role_of t a b ≡ some r
    → role_of (insert_member team_id user_id role t).1 a b ≡ some r
unfolding role_of member_of insert_member
role_of-insert_member t a b team_id user_id r role h =
    elim (Option-cases (member_of t team_id user_id)) [
      | inl e ↦ rw (e, insert_member) (kept _ (member_of t a b) refl h)
      | inr (m, e) ↦ rw (e, insert_member) h
    ]
  where
    here : TeamMember → Bool
    here m = m.team_id == a && m.user_id == b

    kept :
        (m : TeamMember) (o : Option TeamMember)
        → find here t.members ≡ o
        → Option.map (λ m. m.role) (find here t.members) ≡ some r
        → Option.map (λ m. m.role) (find here (t.members ++ m ∷ [])) ≡ some r
    kept m none e h' = let h'' = rw e at h' in cc
    kept m (some found) e h' = rw (find-append_some here t.members _ found e) (rw e at h')

insert_member-kept :
    (t : Tables) (team_id user_id : ℕ) (role : String)
    → let t' = (insert_member team_id user_id role t).1 in
      (t'.teams ≡ t.teams) × (t'.next_team ≡ t.next_team)
unfolding insert_member
insert_member-kept t team_id user_id role = elim (Option-cases (member_of t team_id user_id)) [
  | inl e ↦ rw (e, insert_member) (refl, refl)
  | inr (m, e) ↦ rw (e, insert_member) (refl, refl)
]

insert_member-All :
    (P : TeamMember → Type 0) (t : Tables) (team_id user_id : ℕ) (role : String)
    → ((m : TeamMember) → m.team_id ≡ team_id → P m)
    → All P t.members
    → All P (insert_member team_id user_id role t).1.members
unfolding insert_member
insert_member-All P t team_id user_id role new old =
    elim (Option-cases (member_of t team_id user_id)) [
      | inl e ↦ rw (e, insert_member) (All-concat P t.members old (new _ refl))
      | inr (m, e) ↦ rw (e, insert_member) old
    ]

insert_member-IsOwned :
    (t : Tables) (team_id user_id : ℕ) (role : String) (teams : List Team)
    → All (IsOwned t) teams
    → All (IsOwned (insert_member team_id user_id role t).1) teams
insert_member-IsOwned t team_id user_id role teams =
    All-imply (IsOwned t) (IsOwned (insert_member team_id user_id role t).1) teams
      (λ team (u, h). (u, role_of-insert_member t team.id u team_id user_id role_owner role h))

insert_member-IsSound :
    (t : Tables) (team_id user_id : ℕ) (role : String)
    → team_id < t.next_team
    → IsSound t
    → IsSound (insert_member team_id user_id role t).1
insert_member-IsSound t team_id user_id role less (members, ids, owned) =
    let (teams, next) = insert_member-kept t team_id user_id role in
    rw (teams, next)
      (
        insert_member-All (λ m. m.team_id < t.next_team) t team_id user_id role
            (λ m same. rw same less) members,
        ids,
        insert_member-IsOwned t team_id user_id role t.teams owned,
      )

find-none :
    (n user_id : ℕ) (ms : List TeamMember)
    → All (λ m. m.team_id < n) ms
    → find (λ m. m.team_id == n && m.user_id == user_id) ms ≡ none
unfolding find
find-none n user_id [] h = refl
find-none n user_id (m ∷ ms) (h, hs) = ground (arith, find-none n user_id ms hs)

-- The creator owns the new team, since no membership of it can be there before.
new_team-IsOwned :
    (t : Tables) (user_id : ℕ) (name : String)
    → All (λ m. m.team_id < t.next_team) t.members
    → role_of
        (insert_member t.next_team user_id role_owner (insert_team name user_id t).1).1
        t.next_team
        user_id
      ≡ some role_owner
unfolding role_of member_of insert_member insert_team find
new_team-IsOwned t user_id name members =
    let missing = find-none t.next_team user_id t.members members in
    rw
      (
        missing,
        find-append (λ m. m.team_id == t.next_team && m.user_id == user_id) t.members _ missing,
        ==_refl t.next_team,
        ==_refl user_id,
      )
      refl

insert_team-IsSound :
    (t : Tables) (user_id : ℕ) (name : String)
    → IsSound t
    → IsSound (insert_member t.next_team user_id role_owner (insert_team name user_id t).1).1
unfolding insert_team role_of
insert_team-IsSound t user_id name (members, ids, owned) =
    let t₁ = (insert_team name user_id t).1 in
    let (teams, next) = insert_member-kept t₁ t.next_team user_id role_owner in
    rw (teams, next)
      (
        insert_member-All (λ m. m.team_id < suc t.next_team) t₁ t.next_team user_id role_owner
            (λ m same. rw same (omega arith))
            (All-imply (λ m. m.team_id < t.next_team) (λ m. m.team_id < suc t.next_team) t.members
              (λ m h. omega arith) members),
        All-concat (λ team. team.id < suc t.next_team) t.teams
            (All-imply (λ team. team.id < t.next_team) (λ team. team.id < suc t.next_team) t.teams
              (λ team h. omega arith) ids)
            (omega arith),
        All-concat (IsOwned (insert_member t.next_team user_id role_owner t₁).1) t.teams
            (insert_member-IsOwned t₁ t.next_team user_id role_owner t.teams owned)
            (user_id, new_team-IsOwned t user_id name members),
      )

team_id-lt :
    (t : Tables) (team_id : ℕ) {team : Team}
    → IsSound t
    → team_of t team_id ≡ some team
    → team_id < t.next_team
unfolding team_of
team_id-lt t team_id {team} (_, ids, _) found =
    let same : team.id ≡ team_id =
      (==_iff team.id team_id).0 (find_sound (λ r. r.id == team_id) t.teams found) in
    rw same at (All-find (λ team. team.id < t.next_team) (λ r. r.id == team_id) t.teams ids found)

created :
    (t t' : Tables) (user_id id : ℕ) (name : String)
    → IsTeamCreated t user_id name id t'
    → IsSound t
    → IsSound t'
created t t' user_id id name (same, now) sound =
    subst IsSound
      (sym (
        now ∙ ap (λ n. (insert_member n user_id role_owner (insert_team name user_id t).1).1) same))
      (insert_team-IsSound t user_id name sound)

-- `CreateTeam`, however it ends, keeps the tables sound: identifiers of teams below the counter, and
-- an owner for every team.
pub create_team-IsSound :
    (w : World) (user_id : ℕ) (name : String)
    → IsSound w.tables
    → IsSound (create_team user_id name w).1.tables
create_team-IsSound w user_id name sound =
    go (create_team user_id name w) (create_team_atomic w user_id name)
  where
    go :
        (out : Result ℕ × World)
        → AllOrNothing w.tables (IsTeamCreated w.tables user_id name) out
        → IsSound out.1.tables
    go (ok id, w') done = created w.tables w'.tables user_id id name done sound
    go (err e, w') (inl same) = subst IsSound (sym same) sound
    go (err e, w') (inr (_, (id, done))) = created w.tables w'.tables user_id id name done sound

-- `InviteByEmail`, however it ends, keeps the tables sound: identifiers of teams below the counter,
-- and an owner for every team.
pub invite_by_email-IsSound :
    (s : TeamService) (w : World) (inviter_id team_id : ℕ) (email role : String)
    → IsSound w.tables
    → IsSound (invite_by_email s inviter_id team_id email role w).1.tables
invite_by_email-IsSound s w inviter_id team_id email role sound =
    go (invite_by_email s inviter_id team_id email role w)
      (invite_by_email-IsInvited s w inviter_id team_id email role)
  where
    added :
        (t' : Tables) (user_id : ℕ) {team : Team}
        → team_of w.tables team_id ≡ some team
        → t' ≡ (insert_member team_id user_id role w.tables).1
        → IsSound t'
    added t' user_id found same = subst IsSound (sym same) (
        insert_member-IsSound w.tables team_id user_id role
          (team_id-lt w.tables team_id sound found) sound)

    go :
        (out : Result (Unit {0}) × World)
        → IsInvited w s inviter_id team_id email role out
        → IsSound out.1.tables
    go (ok _, w') (team, user, (_, found, _, _, _), _, same, _) = added w'.tables user.id found same
    go (err e, w') (inl (same, _)) = subst IsSound (sym same) sound
    go (err e, w') (inr (team, user, (_, found, _, _, _), _, inl (same, _))) =
        subst IsSound (sym same) sound
    go (err e, w') (inr (team, user, (_, found, _, _, _), _, inr (_, same, _))) =
        added w'.tables user.id found same
