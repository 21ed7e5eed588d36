-- ===== src/Task/Patch/Rules.antt =====
-- How `parseTaskPatch` ends: refused, or with changes that are all acceptable. It only reads.
use mkk_luna.Prelude.{
  ℕ, ◌≡◌, sym, eq_iff, ◌⊎◌, inl, inr, refl, Bool, true, false, not, String, Option, none, some,
  List, [], ◌∷◌, All, is_empty, if◌then◌else◌, ◌=s◌, arith, Bool-cases,
}
use mkk_luna.Schema.{Tables}
use mkk_luna.Text.{is_blank, parse_date}
use mkk_luna.World.{World, M, Error, Result, ok, err, bad_request, external, at, pure, ◌>>=◌}
use mkk_luna.World.Rules.{query-bind, or_fail-bind, guard_rule, Then}
use mkk_luna.Repository.Members.{is_in_team, is_member}
use mkk_luna.Repository.Tasks.{Change}
use mkk_luna.Task.Fields.{is_known_task_field, is_valid_status, is_valid_priority}
use mkk_luna.Task.Diff.{key}
use mkk_luna.Task.Patch.{
  RawMessage, to_string, to_string_ptr, to_int64_ptr, checked_text, check_assignee, due_date_of,
  parse_field, parse_fields, parse_task_patch,
}

-- The errors of a patch that is not taken.
abbrev pub IsRefusal : Error → Type 0
IsRefusal e = (e ≡ bad_request) ⊎ (e ≡ external)

abbrev pub IsAssignable : Tables → ℕ → Option ℕ → Type 0
IsAssignable t team_id none = Unit
IsAssignable t team_id (some user_id) = is_in_team t team_id user_id ≡ true

-- What the values of a patch satisfy, for a task of the team.
abbrev pub IsAcceptable : Tables → ℕ → Change → Type 0
IsAcceptable t team_id (Change.title v) = is_blank v ≡ false
IsAcceptable t team_id (Change.status v) = is_valid_status v ≡ true
IsAcceptable t team_id (Change.priority v) = is_valid_priority v ≡ true
IsAcceptable t team_id (Change.assignee_id v) = IsAssignable t team_id v
IsAcceptable t team_id (Change.description v) = Unit
IsAcceptable t team_id (Change.due_date v) = Unit

-- The value of an entry of the patch, decoded as the change.
abbrev pub IsDecoded : RawMessage → Change → Type 0
IsDecoded val (Change.title v) = to_string val ≡ some v
IsDecoded val (Change.status v) = to_string val ≡ some v
IsDecoded val (Change.priority v) = to_string val ≡ some v
IsDecoded val (Change.description v) = to_string_ptr val ≡ some v
IsDecoded val (Change.assignee_id v) = to_int64_ptr val ≡ some v
IsDecoded val (Change.due_date none) = to_string_ptr val ≡ some none
IsDecoded val (Change.due_date (some tm)) =
    (s : String) × (to_string_ptr val ≡ some (some s)) × (parse_date s ≡ some tm)

-- The changes say what the entries of the patch say, in their order.
abbrev pub IsParsed : List (String × RawMessage) → List Change → Type 0
IsParsed [] [] = Unit
IsParsed ((k, val) ∷ raw) (c ∷ cs) = (key c ≡ k) × IsDecoded val c × IsParsed raw cs
IsParsed [] (c ∷ cs) = ⊥
IsParsed (e ∷ raw) [] = ⊥

abbrev pub Refuses : {A : Type 0} → (Result A × World → Type 0) → World → Type 0
Refuses P w = (e : Error) → IsRefusal e → (n : ℕ) → P (err e, at w n)

not-eq-true : (b : Bool) → not b ≡ true → b ≡ false
not-eq-true b h = ground arith

checked_text-bind :
    {A : Type 0} (P : Result A × World → Type 0) (test : String → Bool) (val : RawMessage)
    (f : String → M A) (w : World)
    → Refuses P w
    → ((v : String) → to_string val ≡ some v → test v ≡ true → P (f v w))
    → P ((checked_text test val >>= f) w)
unfolding checked_text
checked_text-bind P test val f w refused taken =
    or_fail-bind (Then f P) (to_string val) bad_request _ w (λ _. refused _ (inl refl) _)
      (λ v e. guard_rule (Then f P) (test v) _ _ w (λ _. refused _ (inl refl) _) (taken v e))

pub check_assignee-bind :
    {A : Type 0} (P : Result A × World → Type 0) (team_id : ℕ) (v : Option ℕ) (f : Unit {0} → M A)
    (w : World)
    → Refuses P w
    → (IsAssignable w.tables team_id v → (n : ℕ) → P (f tt (at w n)))
    → P ((check_assignee team_id v >>= f) w)
unfolding check_assignee is_member
check_assignee-bind P team_id none f w refused taken = taken tt _
check_assignee-bind P team_id (some u) f w refused taken =
    query-bind (Then f P) _ _ w (refused _ (inr refl) _)
      (elim (Bool-cases (is_in_team w.tables team_id u)) [
        | inl e ↦ rw e (taken e _)
        | inr e ↦ rw e (refused _ (inl refl) _)
      ])

abbrev IsDate : Option String → Option ℕ → Type 0
IsDate none none = Unit
IsDate (some s) (some tm) = parse_date s ≡ some tm
IsDate none (some tm) = ⊥
IsDate (some s) none = ⊥

IsDate-IsDecoded :
    (val : RawMessage) (v : Option String) (tm : Option ℕ)
    → to_string_ptr val ≡ some v
    → IsDate v tm
    → IsDecoded val (Change.due_date tm)
IsDate-IsDecoded val none none e d = e
IsDate-IsDecoded val (some s) (some tm) e d = (s, e, d)
IsDate-IsDecoded val none (some tm) e d = absurd d
IsDate-IsDecoded val (some s) none e d = absurd d

due_date_of-bind :
    {A : Type 0} (P : Result A × World → Type 0) (v : Option String) (f : Option ℕ → M A)
    (w : World)
    → Refuses P w
    → ((tm : Option ℕ) → IsDate v tm → P (f tm w))
    → P ((due_date_of v >>= f) w)
unfolding due_date_of
due_date_of-bind P none f w refused taken = taken none tt
due_date_of-bind P (some s) f w refused taken =
    or_fail-bind (Then f P) (parse_date s) _ _ w (λ _. refused _ (inl refl) _)
      (λ tm e. taken (some tm) e)

-- The branches of the `switch` on the key.
key_branch :
    {A : Type 0} (P : A → Type 0) (b : Bool) (x y : A)
    → (b ≡ true → P x)
    → (b ≡ false → P y)
    → P (if b then x else y)
key_branch P true x y h k = h refl
key_branch P false x y h k = k refl

-- The last case of the `switch`.
eq-due_date :
    (key : String)
    → is_known_task_field key ≡ true
    → (key =s "title") ≡ false
    → (key =s "description") ≡ false
    → (key =s "status") ≡ false
    → (key =s "priority") ≡ false
    → (key =s "assignee_id") ≡ false
    → "due_date" ≡ key
unfolding is_known_task_field
eq-due_date key known a b c d e = sym ((eq_iff key "due_date").0 (ground arith))

parse_field_rule :
    (P : Result Change × World → Type 0) (team_id : ℕ) (k : String) (val : RawMessage) (w : World)
    → is_known_task_field k ≡ true
    → Refuses P w
    → ((c : Change)
        → key c ≡ k
        → IsDecoded val c
        → IsAcceptable w.tables team_id c
        → (n : ℕ) → P (ok c, at w n))
    → P (parse_field team_id k val w)
unfolding parse_field
parse_field_rule P team_id k val w known refused taken =
    key_branch Q (k =s "title") _ _
      (λ i.
        checked_text-bind P _ val _ w refused
          (λ v e h. taken (Change.title v) (same i) e (not-eq-true _ h) _))
      (λ a.
        key_branch Q (k =s "description") _ _
          (λ i.
            or_fail-bind P (to_string_ptr val) _ _ w reject
              (λ v e. taken (Change.description v) (same i) e tt _))
          (λ b.
            key_branch Q (k =s "status") _ _
              (λ i.
                checked_text-bind P _ val _ w refused
                  (λ v e h. taken (Change.status v) (same i) e h _))
              (λ c.
                key_branch Q (k =s "priority") _ _
                  (λ i.
                    checked_text-bind P _ val _ w refused
                      (λ v e h. taken (Change.priority v) (same i) e h _))
                  (λ d.
                    key_branch Q (k =s "assignee_id") _ _
                      (λ i. or_fail-bind P (to_int64_ptr val) _ _ w reject (λ v e.
                        check_assignee-bind P team_id v _ w refused
                          (λ h n. taken (Change.assignee_id v) (same i) e h n)))
                      (λ f. or_fail-bind P (to_string_ptr val) _ _ w reject (λ v e.
                        due_date_of-bind P v _ w refused (λ tm date.
                          taken (Change.due_date tm) (eq-due_date k known a b c d f)
                            (IsDate-IsDecoded val v tm e date) tt _)))))))
  where
    Q : M Change → Type 0
    Q m = P (m w)

    same : {name : String} → (k =s name) ≡ true → name ≡ k
    same {name} i = sym ((eq_iff k name).0 i)

    reject : {A : Type 0} {o : Option A} → o ≡ none → P (err bad_request, w)
    reject _ = refused _ (inl refl) _

parse_fields_rule :
    (P : Result (List Change) × World → Type 0) (team_id : ℕ) (raw : List (String × RawMessage))
    (w : World)
    → Refuses P w
    → ((cs : List Change)
        → IsParsed raw cs
        → All (IsAcceptable w.tables team_id) cs
        → (n : ℕ) → P (ok cs, at w n))
    → P (parse_fields team_id raw w)
unfolding parse_fields
parse_fields_rule P team_id [] w refused taken = taken [] tt tt _
parse_fields_rule P team_id ((k, val) ∷ rest) w refused taken =
    guard_rule P (is_known_task_field k) bad_request (parse_field team_id k val >>= others) w
      (λ _. refused _ (inl refl) _)
      (λ known.
        parse_field_rule (Then others P) team_id k val w known refused (λ c same decoded h n.
          parse_fields_rule (Then (λ cs. pure (c ∷ cs)) P) team_id rest (at w n) refused
            (λ cs parsed hs m. taken (c ∷ cs) (same, decoded, parsed) (h, hs) m)))
  where
    others : Change → M (List Change)
    others c = parse_fields team_id rest >>= (λ cs. pure (c ∷ cs))

pub parse_task_patch_rule :
    (P : Result (List Change) × World → Type 0) (team_id : ℕ) (raw : List (String × RawMessage))
    (w : World)
    → Refuses P w
    → ((cs : List Change)
        → IsParsed raw cs
        → All (IsAcceptable w.tables team_id) cs
        → not (is_empty cs) ≡ true
        → (n : ℕ) → P (ok cs, at w n))
    → P (parse_task_patch team_id raw w)
unfolding parse_task_patch
parse_task_patch_rule P team_id raw w refused taken =
    parse_fields_rule (Then _ P) team_id raw w refused (λ cs parsed h n.
      guard_rule P (not (is_empty cs)) bad_request (pure cs) (at w n) (λ _. refused _ (inl refl) _)
        (λ some_change. taken cs parsed h some_change n))
