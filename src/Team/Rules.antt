-- ===== src/Team/Rules.antt =====
-- How the steps of `InviteByEmail` end.
use mathlib.Core.Path.{subst}
use mkk_luna.Prelude.{
  ℕ, ◌≡◌, refl, sym, ap, ◌∙◌, Bool-cases, inl, inr, String, Bool, true, false, not, some, List, [],
  ◌∷◌, ◌++◌, find, arith,
}
use mkk_luna.Schema.{Team, User, Tables}
use mkk_luna.World.{
  World, M, Error, Result, ok, err, external, conflict, unavailable, forbidden, not_found, at, tick,
  pure, replace, map_error, or_fail, ◌>>=◌, ◌>>◌,
}
use mkk_luna.World.Rules.{
  exec_rule, guard_rule, query-bind, or_fail-bind, or_fail_rule, send_rule, Then,
}
use mkk_luna.Repository.Users
use mkk_luna.Repository.Teams
use mkk_luna.Repository.Members
use mkk_luna.Repository.Teams.{team_of}
use mkk_luna.Repository.Members.{role_of, is_in_team, insert_member}
use mkk_luna.Team.Service.{
  TeamService, ensure_member_role, can_invite, conflict_if_duplicate, admit_invite, send_invite,
  add_invited,
}

-- What has been checked before the lock is taken.
abbrev pub IsAdmitted : World → ℕ → ℕ → String → String → Team × User → Type 0
IsAdmitted w inviter_id team_id email role (team, user) =
    (inviter_role : String) × (team_of w.tables team_id ≡ some team)
    × (role_of w.tables team_id inviter_id ≡ some inviter_role)
    × (can_invite inviter_role role ≡ true)
    × (find (λ u. w.services.collate u.email email) w.tables.users ≡ some user)

pub admit_invite_rule :
    (P : Result (Team × User) × World → Type 0) (inviter_id team_id : ℕ) (email role : String)
    (w : World)
    → ((e : Error) (n : ℕ) → P (err e, at w n))
    → ((team : Team) (user : User)
        → IsAdmitted w inviter_id team_id email role (team, user)
        → (n : ℕ) → P (ok (team, user), at w n))
    → P (admit_invite inviter_id team_id email role w)
unfolding admit_invite Teams.get_by_id Members.get_role Users.get_by_email
admit_invite_rule P inviter_id team_id email role w refused admitted =
    query-bind P _ _ w (refused _ _) (
      or_fail-bind P _ _ _ _ (λ _. refused _ _)
        (λ team found. query-bind P _ _ _ (refused _ _) (
          or_fail-bind P _ _ _ _ (λ _. refused _ _)
            (λ inviter_role has.
              guard_rule P (can_invite inviter_role role) forbidden (look_up team) _
                (λ _. refused _ _)
                (λ may. query-bind P _ _ _ (refused _ _) (
                  or_fail-bind P _ _ _ _ (λ _. refused _ _)
                    (λ user known.
                      admitted team user (inviter_role, found, has, may, known) _)))))))
  where
    look_up : Team → M (Team × User)
    look_up team = do
      known ← Users.get_by_email email
      user ← or_fail known not_found
      pure (team, user)

pub ensure_member_role_rule :
    (P : Result String × World → Type 0) (team_id user_id : ℕ) (w : World)
    → ((e : Error) (n : ℕ) → P (err e, at w n))
    → ((role : String)
        → role_of w.tables team_id user_id ≡ some role
        → (n : ℕ) → P (ok role, at w n))
    → P (ensure_member_role team_id user_id w)
unfolding ensure_member_role Teams.get_by_id Members.get_role
ensure_member_role_rule P team_id user_id w refused has_role = query-bind P _ _ w (refused _ _) (
    or_fail-bind P (team_of w.tables team_id) not_found (λ team. rest) (tick w) (λ _. refused _ _)
      (λ team found. query-bind P _ _ (tick w) (refused _ _) (
        or_fail_rule P (role_of w.tables team_id user_id) forbidden (tick (tick w))
          (λ _. refused _ _) (λ role has. has_role role has _))))
  where
    rest : M String
    rest = Members.get_role team_id user_id >>= (λ found. or_fail found forbidden)

abbrev pub Mails : Type 0
Mails = List (String × String)

abbrev pub mailed : Mails → String → Team → Mails
mailed outbox email team = outbox ++ (email, team.name) ∷ []

abbrev pub posted : Bool → Mails → String → Team → Mails
posted true outbox email team = mailed outbox email team
posted false outbox email team = outbox

-- The locks, and the services that are called.
abbrev pub IsKept : World → World → Type 0
IsKept w w' = (w'.locks ≡ w.locks) × (w'.services ≡ w.services)

insert_member_new :
    (t : Tables) (team_id user_id : ℕ) (role : String)
    → is_in_team t team_id user_id ≡ false
    → (insert_member team_id user_id role t).0 ≡ ok tt
unfolding is_in_team insert_member
insert_member_new t team_id user_id role h = ground arith

module _ (P : Result (Unit {0}) × World → Type 0) (w : World) where
  send_invite-bind :
      (has_email : Bool) (email : String) (team : Team) (k : M (Unit {0}))
      → P (err unavailable, tick w)
      → (has_email ≡ true
          → P (err unavailable, record (tick w) { outbox = mailed w.outbox email team }))
      → ((n : ℕ) → P (k (record (at w n) { outbox = posted has_email w.outbox email team })))
      → P ((send_invite has_email email team.name >> k) w)
  unfolding send_invite
  send_invite-bind false email team k unsent unknown sent = sent _
  send_invite-bind true email team k unsent unknown sent =
      send_rule (λ (r, w'). Then (λ _. k) P (replace (λ _. unavailable) r, w')) w email team.name
        unsent (unknown refl) (sent _)

module _ (P : Result (Unit {0}) × World → Type 0) (w : World) where
  -- Between the look-up of the user and the answer: the member check, the mail, the INSERT.
  pub add_invited_rule :
      (s : TeamService) (team_id : ℕ) (team : Team) (user : User) (email role : String)
      → ((e : Error) (w' : World)
          → w'.tables ≡ w.tables
          → IsKept w w'
          → w'.outbox ≡ w.outbox
          → P (err e, w'))
      → (is_in_team w.tables team_id user.id ≡ false
          → (e : Error) (w' : World) → w'.tables ≡ w.tables
          → IsKept w w'
          → w'.outbox ≡ mailed w.outbox email team
          → s.has_email ≡ true
          → P (err e, w'))
      → (is_in_team w.tables team_id user.id ≡ false
          → (w' : World) → w'.tables ≡ (insert_member team_id user.id role w.tables).1
          → IsKept w w'
          → w'.outbox ≡ posted s.has_email w.outbox email team
          → P (err external, w') × P (ok tt, w'))
      → P (add_invited s team_id team user email role w)
  unfolding add_invited Members.is_member Members.add
  add_invited_rule s team_id team user email role refused unsaved done =
      query-bind P _ _ w (refused _ _ refl (refl, refl) refl) (
        guard_rule P (not (is_in_team w.tables team_id user.id)) conflict invite (tick w)
          (λ _. refused _ _ refl (refl, refl) refl)
          (λ fresh.
            let new : is_in_team w.tables team_id user.id ≡ false = ground arith in
            send_invite-bind P (tick w) s.has_email email team insert
              (refused _ _ refl (refl, refl) refl) (λ on. unsaved new _ _ refl (refl, refl) refl on)
              (λ n.
                exec_rule Q (insert_member team_id user.id role) (sent n)
                  (after_mail new _ _ refl (refl, refl) refl) (done new _ refl (refl, refl) refl).0
                  (subst (λ r. P (replace conflict_if_duplicate r, saved n))
                    (sym (insert_member_new w.tables team_id user.id role new))
                    (done new _ refl (refl, refl) refl).1))))
    where
      sent : ℕ → World
      sent n = record (at w n) { outbox = posted s.has_email w.outbox email team }

      saved : ℕ → World
      saved n = record (tick (sent n)) { tables = (insert_member team_id user.id role w.tables).1 }

      insert : M (Unit {0})
      insert = map_error conflict_if_duplicate (Members.add team_id user.id role)

      invite : M (Unit {0})
      invite = send_invite s.has_email email team.name >> insert

      Q : Result (Unit {0}) × World → Type 0
      Q (r, w') = P (replace conflict_if_duplicate r, w')

      after_mail :
          is_in_team w.tables team_id user.id ≡ false
          → (e : Error) (w' : World) → w'.tables ≡ w.tables
          → IsKept w w'
          → w'.outbox ≡ posted s.has_email w.outbox email team
          → P (err e, w')
      after_mail new e w' t l o = elim (Bool-cases s.has_email) [
        | inl on ↦ unsaved new e w' t l (o ∙ ap (λ b. posted b w.outbox email team) on) on
        | inr off ↦ refused e w' t l (o ∙ ap (λ b. posted b w.outbox email team) off)
      ]
