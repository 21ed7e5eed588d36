-- ===== src/World/Rules.antt =====
-- One rule for each step of a service: a predicate on the outcome holds of the step and what follows
-- when it holds on every way in which the step ends.
use mkk_luna.Prelude.{
  ℕ, String, [], ◌∷◌, ◌++◌, ◌≡◌, ◌≢◌, refl, Bool, true, false, Option, none, some, ◌⊎◌, inl, inr,
}
use mkk_luna.Schema.{Tables}
use mkk_luna.Redis.{Cells}
use mkk_luna.World.{
  Error, external, Result, ok, err, Verdict, works, fails, lost, World, M, tick, or_fail, continue,
  ◌>>=◌, ◌>>◌, guard, query, command, exec, begin_tx, commit, send, acquire, Grant, granted, busy,
  unreachable, unheard,
}

pub Verdict-cases : (v : Verdict) → (v ≡ works) ⊎ ((v ≡ fails) ⊎ (v ≡ lost))
Verdict-cases works = inl refl
Verdict-cases fails = inr (inl refl)
Verdict-cases lost = inr (inr refl)

Grant-cases :
    (g : Grant)
    → (g ≡ unreachable)
      ⊎ ((g ≡ busy)
          ⊎ (((token : String) × (g ≡ granted token)) ⊎ ((token : String) × (g ≡ unheard token))))
Grant-cases unreachable = inl refl
Grant-cases busy = inr (inl refl)
Grant-cases (granted token) = inr (inr (inl (token, refl)))
Grant-cases (unheard token) = inr (inr (inr (token, refl)))

-- A command runs or does not, and its answer arrives or does not.
pub command_cases :
    {A : Type 0} (P : Result A × World → Type 0) (c : ℕ → Cells → Result A × Cells) (w : World)
    → (w.services.redis w.calls ≢ works → P (err external, tick w))
    → (w.services.redis w.calls ≢ works
        → P (err external, record (tick w) { redis = (c (w.services.now w.calls) w.redis).1 }))
    → P (
      (c (w.services.now w.calls) w.redis).0,
      record (tick w) { redis = (c (w.services.now w.calls) w.redis).1 },
    )
    → P (command c w)
unfolding command
command_cases P c w not_run unknown run = elim (Verdict-cases (w.services.redis w.calls)) [
  | inl e ↦ rw (e, command) run
  | inr (inl e) ↦ rw (e, command) (not_run (λ h. cc))
  | inr (inr e) ↦ rw (e, command) (unknown (λ h. cc))
]

pub command_rule :
    {A : Type 0} (P : Result A × World → Type 0) (c : ℕ → Cells → Result A × Cells) (w : World)
    → P (err external, tick w)
    → P (err external, record (tick w) { redis = (c (w.services.now w.calls) w.redis).1 })
    → P (
      (c (w.services.now w.calls) w.redis).0,
      record (tick w) { redis = (c (w.services.now w.calls) w.redis).1 },
    )
    → P (command c w)
command_rule P c w not_run unknown run = command_cases P c w (λ _. not_run) (λ _. unknown) run

pub command-works :
    {A : Type 0} (c : ℕ → Cells → Result A × Cells) (w : World)
    → w.services.redis w.calls ≡ works
    → command c w ≡ (
      (c (w.services.now w.calls) w.redis).0,
      record (tick w) { redis = (c (w.services.now w.calls) w.redis).1 },
    )
unfolding command
command-works c w e = rw (e, command)

-- What follows a step, as a predicate on the outcome of the step.
abbrev pub Then :
    {A B : Type 0} → (A → M B) → (Result B × World → Type 0) → Result A × World → Type 0
Then f P (r, w) = P (continue r f w)

module _ {A : Type 0} (P : Result A × World → Type 0) where
  pub query_rule :
      (q : Tables → A) (w : World)
      → P (err external, tick w)
      → P (ok (q w.tables), tick w)
      → P (query q w)
  unfolding query
  query_rule q w no_answer answer = elim (Verdict-cases (w.services.mysql w.calls)) [
    | inl e ↦ rw (e, query) answer
    | inr (inl e) ↦ rw (e, query) no_answer
    | inr (inr e) ↦ rw (e, query) no_answer
  ]

  -- The statement runs or does not, and the answer arrives or does not.
  pub exec_rule :
      (s : Tables → Result A × Tables) (w : World)
      → P (err external, tick w)
      → P (err external, record (tick w) { tables = (s w.tables).1 })
      → P ((s w.tables).0, record (tick w) { tables = (s w.tables).1 })
      → P (exec s w)
  unfolding exec
  exec_rule s w not_run unknown run = elim (Verdict-cases (w.services.mysql w.calls)) [
    | inl e ↦ rw (e, exec) run
    | inr (inl e) ↦ rw (e, exec) not_run
    | inr (inr e) ↦ rw (e, exec) unknown
  ]

  pub guard_rule :
      (b : Bool) (e : Error) (k : M A) (w : World)
      → (b ≡ false → P (err e, w))
      → (b ≡ true → P (k w))
      → P ((guard b e >> k) w)
  guard_rule true e k w refused passed = passed refl
  guard_rule false e k w refused passed = refused refl

  pub or_fail_rule :
      (o : Option A) (e : Error) (w : World)
      → (o ≡ none → P (err e, w))
      → ((a : A) → o ≡ some a → P (ok a, w))
      → P (or_fail o e w)
  or_fail_rule none e w missing found = missing refl
  or_fail_rule (some a) e w missing found = found a refl

module _ {A B : Type 0} (P : Result B × World → Type 0) where
  pub query-bind :
      (q : Tables → A) (f : A → M B) (w : World)
      → P (err external, tick w)
      → P (f (q w.tables) (tick w))
      → P ((query q >>= f) w)
  query-bind q f w no_answer answer = query_rule (Then f P) q w no_answer answer

  pub or_fail-bind :
      (o : Option A) (e : Error) (f : A → M B) (w : World)
      → (o ≡ none → P (err e, w))
      → ((a : A) → o ≡ some a → P (f a w))
      → P ((or_fail o e >>= f) w)
  or_fail-bind none e f w missing found = missing refl
  or_fail-bind (some a) e f w missing found = found a refl

module _ (P : Result (Unit {0}) × World → Type 0) (w : World) where
  pub begin_rule :
      P (err external, tick w)
      → P (ok tt, record (tick w) { saved = some w.tables })
      → P (begin_tx w)
  unfolding begin_tx
  begin_rule broken begun = elim (Verdict-cases (w.services.mysql w.calls)) [
    | inl e ↦ rw (e, begin_tx) begun
    | inr (inl e) ↦ rw (e, begin_tx) broken
    | inr (inr e) ↦ rw (e, begin_tx) broken
  ]

  -- After a commit whose answer is lost the transaction is over too.
  pub commit_rule :
      P (err external, tick w)
      → P (err external, record (tick w) { saved = none })
      → P (ok tt, record (tick w) { saved = none })
      → P (commit w)
  unfolding commit
  commit_rule open_still unknown committed = elim (Verdict-cases (w.services.mysql w.calls)) [
    | inl e ↦ rw (e, commit) committed
    | inr (inl e) ↦ rw (e, commit) open_still
    | inr (inr e) ↦ rw (e, commit) unknown
  ]

module _ (P : Result (Unit {0}) × World → Type 0) (w : World) where
  -- A message is delivered or not, and the answer arrives or not.
  pub send_rule :
      (to_email team_name : String)
      → P (err external, tick w)
      → P (err external, record (tick w) { outbox = w.outbox ++ (to_email, team_name) ∷ [] })
      → P (ok tt, record (tick w) { outbox = w.outbox ++ (to_email, team_name) ∷ [] })
      → P (send to_email team_name w)
  unfolding send
  send_rule to_email team_name unsent unknown sent =
      elim (Verdict-cases (w.services.mail w.calls)) [
        | inl e ↦ rw (e, send) sent
        | inr (inl e) ↦ rw (e, send) unsent
        | inr (inr e) ↦ rw (e, send) unknown
      ]

module _ {A : Type 0} (P : Result A × World → Type 0) (w : World) (key : ℕ × ℕ) where
  -- A lock that is granted is held until it is released; a failing lock service grants none, or one that
  -- the caller does not know of.
  pub acquire-bind :
      (f : Grant → M A)
      → P (f unreachable (tick w))
      → P (f busy (tick w))
      → ((token : String)
          → w.services.acquire w.calls ≡ unheard token
          → P (f unreachable (record (tick w) { locks = (key, token) ∷ w.locks })))
      → ((token : String)
          → w.services.acquire w.calls ≡ granted token
          → P (f (granted token) (record (tick w) { locks = (key, token) ∷ w.locks })))
      → P ((acquire key >>= f) w)
  unfolding acquire
  acquire-bind f bypassed taken unseen held = elim (Grant-cases (w.services.acquire w.calls)) [
    | inl e ↦ rw (e, acquire) bypassed
    | inr (inl e) ↦ rw (e, acquire) taken
    | inr (inr (inl (token, e))) ↦ rw (e, acquire) (held token e)
    | inr (inr (inr (token, e))) ↦ rw (e, acquire) (unseen token e)
  ]
