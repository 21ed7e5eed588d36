-- ===== src/Api/Tasks/Laws.antt =====
-- What the answers of `TaskHandler` say of the tables.
use mkk_luna.Prelude.{
  ℕ, ◌≡◌, ◌⊎◌, refl, sym, ap, ◌∙◌, inl, inr, String, true, false, ◌&&◌, Option, none, some, List,
  leb, ltb, Bool-cases,
}
use mkk_luna.Schema.{Tables}
use mkk_luna.Http.{Response, Body, json}
use mkk_luna.World.{World, Result, ok, err, external}
use mkk_luna.Task.Patch.{RawMessage}
use mkk_luna.Task.Atomicity.{
  AllOrNothing, create_task_atomic, update_task_atomic, update_task_rewrites, delete_task_atomic,
}
use mkk_luna.Task.Rules.Delete.{delete_task_no_tx_rule}
use mkk_luna.Task.Service.{create_task, update_task, delete_task}
use mkk_luna.TaskCache.{TaskCache, invalidate_team}
use mkk_luna.Api.{Handler, answer, settle}
use mkk_luna.Api.Tasks.{
  TaskHandler, CreateTaskRequest, create, update, delete, invalidated, titled, parse_due, input_of,
  nonempty,
}
use mkk_luna.Api.Helpers.{with_user, or_invalid, map_service_error, positive, parse_id}

-- A status from 400 to 499.
abbrev pub IsClientError : ℕ → Type 0
IsClientError status = (leb 400 status && ltb status 500) ≡ true

-- An answer that blames the client leaves the tables as they were.
abbrev pub IsHonest : Tables → Response × World → Type 0
IsHonest t (r, w') = IsClientError r.status → w'.tables ≡ t

-- A failure has left the tables as they were, or is one of the database.
abbrev pub IsTidy : {A : Type 0} → Tables → Result A × World → Type 0
IsTidy t (ok a, w') = Unit
IsTidy t (err e, w') = (w'.tables ≡ t) ⊎ (e ≡ external)

pub AllOrNothing-IsTidy :
    {A : Type 0} (t : Tables) (Done : A → Tables → Type 0) (o : Result A × World)
    → AllOrNothing t Done o
    → IsTidy t o
AllOrNothing-IsTidy t Done (ok a, w') h = tt
AllOrNothing-IsTidy t Done (err e, w') (inl same) = inl same
AllOrNothing-IsTidy t Done (err e, w') (inr (broken, rest)) = inr broken

module _ (t : Tables) where
  pub with_user-IsHonest :
      (user : Option ℕ) (next : ℕ → Handler) (w : World)
      → w.tables ≡ t
      → ((user_id : ℕ) → IsHonest t (next user_id w))
      → IsHonest t (with_user user next w)
  unfolding with_user
  with_user-IsHonest none next w same later = λ _. same
  with_user-IsHonest (some user_id) next w same later = later user_id

  pub or_invalid-IsHonest :
      {A : Type 0} (o : Option A) (next : A → Handler) (w : World)
      → w.tables ≡ t
      → ((a : A) → IsHonest t (next a w))
      → IsHonest t (or_invalid o next w)
  or_invalid-IsHonest none next w same later = λ _. same
  or_invalid-IsHonest (some a) next w same later = later a

  pub settled :
      {A : Type 0} (o : Result A × World) (next : A → Handler)
      → IsTidy t o
      → ((a : A) (v : World) → ¬ IsClientError (next a v).0.status)
      → IsHonest t (settle o.0 (λ e. answer (map_service_error e)) next o.1)
  unfolding map_service_error
  settled (ok a, v) next tidy fine = λ blamed. absurd (fine a v blamed)
  settled (err e, v) next (inl same) fine = λ blamed. same
  settled (err e, v) next (inr broken) fine = λ blamed. absurd (
      not_client (
        ap (λ x. (leb 400 (map_service_error x).status && ltb (map_service_error x).status 500))
          (sym broken)
        ∙ blamed))
    where
      not_client : ¬ (false ≡ true)
      not_client h = cc

invalidated-answer :
    (o : Option TaskCache) (team_id : ℕ) (r : Response) (v : World)
    → (invalidated o team_id r v).0 ≡ r
unfolding invalidated
invalidated-answer none team_id r v = refl
invalidated-answer (some c) team_id r v =
    always (invalidate_team c team_id v).0 (invalidate_team c team_id v).1
  where
    always :
        (o : Result (Unit {0})) (v' : World) → (settle o (λ e. answer r) (λ u. answer r) v').0 ≡ r
    always (ok u) v' = refl
    always (err e) v' = refl

blameless :
    (o : Option TaskCache) (team_id : ℕ) (status : ℕ) (b : Body) (v : World)
    → (leb 400 status && ltb status 500) ≡ false
    → ¬ IsClientError (invalidated o team_id (json status b) v).0.status
blameless o team_id status b v fine blamed =
    let same =
      ap (λ r. leb 400 r.status && ltb r.status 500)
        (invalidated-answer o team_id (json status b) v) in
    clash (sym blamed ∙ same ∙ fine)
  where
    clash : ¬ (true ≡ false)
    clash h = cc

module _ (h : TaskHandler) (w : World) (user : Option ℕ) where
  create-IsHonest :
      (decoded : Option CreateTaskRequest) → IsHonest w.tables (create h user decoded w)
  unfolding create
  create-IsHonest decoded = with_user-IsHonest t user _ w refl λ user_id.
      or_invalid-IsHonest t decoded _ w refl λ req.
        or_invalid-IsHonest t (positive (some req.team_id)) _ w refl λ team_id.
          or_invalid-IsHonest t (titled req) _ w refl λ _.
            or_invalid-IsHonest t (parse_due req.due_date) _ w refl λ due.
              settled t (create_task user_id (input_of req team_id due) w)
                (λ id. invalidated h.cache team_id (json 201 (Body.created id)))
                (AllOrNothing-IsTidy t _ _
                  (create_task_atomic w user_id (input_of req team_id due)))
                (λ id v. blameless h.cache team_id 201 (Body.created id) v refl)
    where
      t : Tables
      t = w.tables

  update_task-IsTidy :
      (user_id task_id : ℕ) (raw : List (String × RawMessage))
      → IsTidy w.tables (update_task h.tasks user_id task_id raw w)
  update_task-IsTidy user_id task_id raw =
      elim (Bool-cases (h.tasks.has_db && h.tasks.has_history)) [
        | inl on ↦
            AllOrNothing-IsTidy w.tables _ _ (update_task_atomic h.tasks w user_id task_id raw on)
        | inr off ↦
            AllOrNothing-IsTidy w.tables _ _
              (update_task_rewrites h.tasks w user_id task_id raw off)
      ]

  delete_task-IsTidy :
      (user_id task_id : ℕ) → IsTidy w.tables (delete_task h.tasks user_id task_id w)
  unfolding delete_task
  delete_task-IsTidy user_id task_id = elim (Bool-cases (h.tasks.has_db && h.tasks.has_history)) [
    | inl on ↦ AllOrNothing-IsTidy w.tables _ _ (delete_task_atomic h.tasks w user_id task_id on)
    | inr off ↦
        rw (off, delete_task)
          (delete_task_no_tx_rule (IsTidy w.tables) w user_id task_id (λ e w' same. inl same)
            (λ task may w' written. (inr refl, tt)))
  ]

  update-IsHonest :
      (id : String) (decoded : Option (List (String × RawMessage)))
      → IsHonest w.tables (update h user id decoded w)
  unfolding update
  update-IsHonest id decoded = with_user-IsHonest w.tables user _ w refl λ user_id.
      or_invalid-IsHonest w.tables (parse_id id) _ w refl λ task_id.
        or_invalid-IsHonest w.tables decoded _ w refl λ raw.
          or_invalid-IsHonest w.tables (nonempty h raw) _ w refl λ _.
            settled w.tables (update_task h.tasks user_id task_id raw w)
              (λ team_id. invalidated h.cache team_id (json 200 Body.status_ok))
              (update_task-IsTidy user_id task_id raw)
              (λ team_id v. blameless h.cache team_id 200 Body.status_ok v refl)

  delete-IsHonest : (id : String) → IsHonest w.tables (delete h user id w)
  unfolding delete
  delete-IsHonest id = with_user-IsHonest w.tables user _ w refl λ user_id.
      or_invalid-IsHonest w.tables (parse_id id) _ w refl λ task_id.
        settled w.tables (delete_task h.tasks user_id task_id w)
          (λ team_id. invalidated h.cache team_id (json 200 Body.status_ok))
          (delete_task-IsTidy user_id task_id)
          (λ team_id v. blameless h.cache team_id 200 Body.status_ok v refl)

  -- Whatever the cache, Redis and MySQL do: when `Create`, `Update` or `Delete` answers with a status from
  -- 400 to 499, all tables are as they were.
  pub task_handler-IsHonest :
      (req : Option CreateTaskRequest) (id : String) (raw : Option (List (String × RawMessage)))
      → IsHonest w.tables (create h user req w)
        × (IsHonest w.tables (update h user id raw w) × IsHonest w.tables (delete h user id w))
  task_handler-IsHonest req id raw =
      (create-IsHonest req, (update-IsHonest id raw, delete-IsHonest id))
