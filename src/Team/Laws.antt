-- ===== src/Team/Laws.antt =====
-- What the team service promises.
use mkk_luna.Prelude.{
  ℕ, ◌≡◌, ◌↔◌, refl, sym, ap, ◌∙◌, String, Bool, true, false, [], ◌∷◌, ◌⊎◌, inl, inr, arith, suc,
  delete_where, eq_iff, ◌=s◌, Bool-cases, ==_refl, ◌≢◌, some,
}
use mkk_luna.Schema.{Team, User, Tables}
use mkk_luna.World.{
  World, M, Result, ok, err, external, conflict, fails, at, tick, granted, unheard, release,
  run_release, is_lock, defer, commit, pure, rollback, ◌>>=◌, ◌>>◌,
}
use mkk_luna.World.Rules.{acquire-bind, Verdict-cases, begin_rule, exec_rule, commit_rule, Then}
use mkk_luna.Repository.Teams
use mkk_luna.Repository.Members
use mkk_luna.Repository.Teams.{insert_team}
use mkk_luna.Repository.Members.{is_in_team, insert_member}
use mkk_luna.Task.Fields.{role_owner, role_admin, role_member}
use mkk_luna.Task.Atomicity.{AllOrNothing}
use mkk_luna.Team.Rules.{IsAdmitted, mailed, posted, admit_invite_rule, add_invited_rule}
use mkk_luna.Team.Service.{
  TeamService, create_team, can_invite, add_invited, locked, with_lock, invite_by_email,
}

run_release_keeps :
    (key : ℕ × ℕ) (token : String) (w : World)
    → ((run_release key token w).tables ≡ w.tables) × ((run_release key token w).outbox ≡ w.outbox)
unfolding run_release
run_release_keeps key token w = elim (Verdict-cases (w.services.release w.calls)) [
  | inl e ↦ (rw (e, run_release), rw (e, run_release))
  | inr (inl e) ↦ (rw (e, run_release), rw (e, run_release))
  | inr (inr e) ↦ (rw (e, run_release), rw (e, run_release))
]

release_keeps :
    (key : ℕ × ℕ) (token : String) (w : World)
    → ((release key token w).tables ≡ w.tables) × ((release key token w).outbox ≡ w.outbox)
unfolding release
release_keeps key token w = elim (Bool-cases (token =s "")) [
  | inl e ↦ (rw (e, release) refl, rw (e, release) refl)
  | inr e ↦ (
    rw (e, release) (run_release_keeps key token w).0,
    rw (e, release) (run_release_keeps key token w).1,
  )
]

-- The answers of `InviteByEmail`, by what they leave in the tables and in the outbox.
abbrev pub IsInvited :
    World → TeamService → ℕ → ℕ → String → String → Result (Unit {0}) × World → Type 0
IsInvited w s inviter_id team_id email role (ok _, w') =
    (team : Team) × (user : User) × IsAdmitted w inviter_id team_id email role (team, user)
    × (is_in_team w.tables team_id user.id ≡ false)
    × (w'.tables ≡ (insert_member team_id user.id role w.tables).1)
    × (w'.outbox ≡ posted s.has_email w.outbox email team)
IsInvited w s inviter_id team_id email role (err e, w') =
    ((w'.tables ≡ w.tables) × (w'.outbox ≡ w.outbox))
    ⊎ ((team : Team) × (user : User) × IsAdmitted w inviter_id team_id email role (team, user)
        × (is_in_team w.tables team_id user.id ≡ false)
        × (((w'.tables ≡ w.tables) × (w'.outbox ≡ mailed w.outbox email team))
            ⊎ ((e ≡ external)
                × (w'.tables ≡ (insert_member team_id user.id role w.tables).1)
                × (w'.outbox ≡ posted s.has_email w.outbox email team))))

module _ (P : Result (Unit {0}) × World → Type 0) (w : World) (key : ℕ × ℕ) (m : M (Unit {0})) where
  with_lock_rule :
      (has_locker : Bool) (n : ℕ)
      → P (err conflict, at w (suc n))
      → ((k : ℕ) → P (m (at w k)))
      → ((token : String)
          → w.services.acquire n ≡ unheard token
          → P (m (record (at w (suc n)) { locks = (key, token) ∷ w.locks })))
      → ((token : String)
          → w.services.acquire n ≡ granted token
          → P (
              defer
                (release key token)
                m
                (record (at w (suc n)) { locks = (key, token) ∷ w.locks })))
      → P (with_lock has_locker key m (at w n))
  unfolding with_lock
  with_lock_rule false n taken bypassed unseen held = bypassed n
  with_lock_rule true n taken bypassed unseen held =
      acquire-bind P (at w n) key (locked key m) (bypassed (suc n)) taken unseen held

module _ (s : TeamService) (w : World) (inviter_id team_id : ℕ) (email role : String) where
  -- `InviteByEmail` succeeds only if the role of the inviter may invite to the role, the user exists
  -- and is no member yet; then exactly that membership has been added, after one mail to the address
  -- if a sender is set. A failure has changed nothing and sent nothing, or has sent that one mail
  -- after all the checks; memberships are as before, unless the answer to the INSERT was lost.
  pub invite_by_email-IsInvited :
      IsInvited w s inviter_id team_id email role
        (invite_by_email s inviter_id team_id email role w)
  unfolding invite_by_email
  invite_by_email-IsInvited =
      admit_invite_rule (Then invite P) inviter_id team_id email role w (λ e n. inl (refl, refl))
        (λ team user admitted n.
          let key : ℕ × ℕ = (team_id, user.id) in
          with_lock_rule P w key (add_invited s team_id team user email role) s.has_locker n
            (inl (refl, refl))
            (λ k.
              add_invited_rule P (at w k) s team_id team user email role (λ e w' t _ o. inl (t, o))
                (λ fresh e w' t _ o _. inr (team, user, admitted, fresh, inl (t, o)))
                (λ fresh w' t _ o. (
                  inr (team, user, admitted, fresh, inr (refl, t, o)),
                  (team, user, admitted, fresh, t, o),
                )))
            (λ token _.
              add_invited_rule P _ s team_id team user email role (λ e w' t _ o. inl (t, o))
                (λ fresh e w' t _ o _. inr (team, user, admitted, fresh, inl (t, o)))
                (λ fresh w' t _ o. (
                  inr (team, user, admitted, fresh, inr (refl, t, o)),
                  (team, user, admitted, fresh, t, o),
                )))
            (λ token _.
              let keeps = release_keeps key token in
              add_invited_rule (λ (r, w'). P (r, release key token w')) _ s team_id team user email
                role (λ e w' t _ o. inl ((keeps w').0 ∙ t, (keeps w').1 ∙ o))
                (λ fresh e w' t _ o _.
                  inr (team, user, admitted, fresh, inl ((keeps w').0 ∙ t, (keeps w').1 ∙ o)))
                (λ fresh w' t _ o.
                  let t' = (keeps w').0 ∙ t in
                  let o' = (keeps w').1 ∙ o in
                  (
                    inr (team, user, admitted, fresh, inr (refl, t', o')),
                    (team, user, admitted, fresh, t', o'),
                  ))))
    where
      P : Result (Unit {0}) × World → Type 0
      P = IsInvited w s inviter_id team_id email role

      invite : Team × User → M (Unit {0})
      invite (team, user) =
          with_lock s.has_locker (team_id, user.id) (add_invited s team_id team user email role)

delete_lock :
    (key : ℕ × ℕ) (token : String) → delete_where (is_lock key token) ((key, token) ∷ []) ≡ []
unfolding delete_where
delete_lock (a, b) token = rw (==_refl a, ==_refl b, (eq_iff token token).1 refl)

run_release_last :
    (key : ℕ × ℕ) (token : String) (w : World)
    → w.locks ≡ (key, token) ∷ []
    → w.services.release w.calls ≢ fails
    → (run_release key token w).locks ≡ []
unfolding run_release
run_release_last key token w h works_out = elim (Verdict-cases (w.services.release w.calls)) [
  | inl e ↦ rw (e, run_release) (ap (delete_where (is_lock key token)) h ∙ delete_lock key token)
  | inr (inl e) ↦ absurd (works_out e)
  | inr (inr e) ↦
      rw (e, run_release) (ap (delete_where (is_lock key token)) h ∙ delete_lock key token)
]

release_last :
    (key : ℕ × ℕ) (token : String) (w : World)
    → w.locks ≡ (key, token) ∷ []
    → token ≢ ""
    → w.services.release w.calls ≢ fails
    → (release key token w).locks ≡ []
unfolding release
release_last key token w h full works_out = elim (Bool-cases (token =s "")) [
  | inl e ↦ absurd (full ((eq_iff token "").0 e))
  | inr e ↦ rw (e, release) (run_release_last key token w h works_out)
]

-- However `InviteByEmail` ends, it holds no lock afterwards, if it held none before, every token of a lock
-- that is granted is not empty, no answer to a lock that is taken is lost, and the lock service does not
-- refuse the release.
pub invite_by_email_unlocks :
    (s : TeamService) (w : World) (inviter_id team_id : ℕ) (email role : String)
    → w.locks ≡ []
    → ((n : ℕ) (token : String) → w.services.acquire n ≡ granted token → token ≢ "")
    → ((n : ℕ) (token : String) → w.services.acquire n ≢ unheard token)
    → ((n : ℕ) → w.services.release n ≢ fails)
    → (invite_by_email s inviter_id team_id email role w).1.locks ≡ []
unfolding invite_by_email
invite_by_email_unlocks s w inviter_id team_id email role free marked known works_out =
    admit_invite_rule (Then invite P) inviter_id team_id email role w (λ e n. free)
      (λ team user admitted n.
        let key : ℕ × ℕ = (team_id, user.id) in
        with_lock_rule P w key (add_invited s team_id team user email role) s.has_locker n free
          (λ k.
            add_invited_rule P (at w k) s team_id team user email role (λ e w' t (l, _) o. l ∙ free)
              (λ fresh e w' t (l, _) o _. l ∙ free) (λ fresh w' t (l, _) o. (l ∙ free, l ∙ free)))
          (λ token lost. absurd (known n token lost))
          (λ token got.
            let held : World = record (at w (suc n)) { locks = (key, token) ∷ w.locks } in
            add_invited_rule (λ (r, w'). P (r, release key token w')) held s team_id team user email
              role (λ e w' t kept o. unlocked key token w' (marked n token got) kept)
              (λ fresh e w' t kept o _. unlocked key token w' (marked n token got) kept)
              (λ fresh w' t kept o. (
                unlocked key token w' (marked n token got) kept,
                unlocked key token w' (marked n token got) kept,
              ))))
  where
    P : Result (Unit {0}) × World → Type 0
    P (r, w') = w'.locks ≡ []

    invite : Team × User → M (Unit {0})
    invite (team, user) =
        with_lock s.has_locker (team_id, user.id) (add_invited s team_id team user email role)

    unlocked :
        (key : ℕ × ℕ) (token : String) (w' : World)
        → token ≢ ""
        → (w'.locks ≡ (key, token) ∷ w.locks) × (w'.services ≡ w.services)
        → (release key token w').locks ≡ []
    unlocked key token w' full (l, same) =
        release_last key token w' (l ∙ ap (◌∷◌ (key, token)) free) full
          (λ e. works_out w'.calls (ap (λ v. v.release w'.calls) (sym same) ∙ e))

-- An inviter may invite exactly: as an owner, members and admins; as an admin, members.
pub can_invite_iff :
    (inviter_role target_role : String)
    → (can_invite inviter_role target_role ≡ true) ↔ (
        ((inviter_role ≡ role_owner) × ((target_role ≡ role_member) ⊎ (target_role ≡ role_admin)))
        ⊎ ((inviter_role ≡ role_admin) × (target_role ≡ role_member)))
unfolding can_invite
can_invite_iff r t = (
  λ h.
      ground (
        arith,
        eq_iff r role_owner,
        eq_iff r role_admin,
        eq_iff t role_member,
        eq_iff t role_admin,
      ),
  λ h. ground (
    arith,
    eq_iff r role_owner,
    eq_iff r role_admin,
    eq_iff t role_member,
    eq_iff t role_admin,
    eq_iff role_admin role_owner,
  ),
)

abbrev pub IsTeamCreated : Tables → ℕ → String → ℕ → Tables → Type 0
IsTeamCreated t user_id name team_id t' =
    (team_id ≡ t.next_team)
    × (t' ≡ (insert_member team_id user_id role_owner (insert_team name user_id t).1).1)

-- `CreateTeam` adds the team and its creator as owner, both or neither.
pub create_team_atomic :
    (w : World) (user_id : ℕ) (name : String)
    → AllOrNothing w.tables (IsTeamCreated w.tables user_id name) (create_team user_id name w)
unfolding create_team rollback Teams.create_tx Members.add_tx insert_team
create_team_atomic w user_id name =
    begin_rule (Then (λ _. defer rollback (Teams.create_tx name user_id >>= join)) P) w (inl refl) (
      exec_rule (Then join Q) (insert_team name user_id) w₀ (inl refl) (inl refl) (
        exec_rule (Then (λ _. finish) Q) (insert_member team_id user_id role_owner) w₁ (inl refl)
          (inl refl) (joined (insert_member team_id user_id role_owner w₁.tables).0)))
  where
    P : Result ℕ × World → Type 0
    P = AllOrNothing w.tables (IsTeamCreated w.tables user_id name)

    Q : Result ℕ × World → Type 0
    Q (r, w') = P (r, rollback w')

    team_id : ℕ
    team_id = w.tables.next_team

    finish : M ℕ
    finish = commit >> pure team_id

    join : ℕ → M ℕ
    join id = Members.add_tx id user_id role_owner >> (commit >> pure id)

    w₀ : World
    w₀ = record (tick w) { saved = some w.tables }

    w₁ : World
    w₁ = record (tick w₀) { tables = (insert_team name user_id w.tables).1 }

    w₂ : World
    w₂ = record (tick w₁) { tables = (insert_member team_id user_id role_owner w₁.tables).1 }

    joined : (r : Result (Unit {0})) → Then (λ _. finish) Q (r, w₂)
    joined (err e) = inl refl
    joined (ok _) =
        commit_rule (Then (λ _. pure team_id) Q) w₂ (inl refl) (inr (refl, (team_id, (refl, refl))))
          (refl, refl)
