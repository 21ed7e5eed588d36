-- ===== src/Auth/Registration.antt =====
-- `Register` adds a user whose address, name and password have passed the checks.
use mkk_luna.Prelude.{
  ℕ, ◌≡◌, refl, sym, ap, ◌∙◌, inl, inr, String, Bool, some, any, Bool-cases, ◌||◌,
}
use mkk_luna.Schema.{Tables}
use mkk_luna.World.{World, M, Error, Result, ok, err, external, tick, ask, or_fail, ◌>>=◌, ◌>>◌}
use mkk_luna.World.Rules.{or_fail-bind, exec_rule}
use mkk_luna.Repository.Users
use mkk_luna.Repository.Users.{insert_user}
use mkk_luna.Task.Atomicity.{AllOrNothing}
use mkk_luna.Auth.Config.{Config, Provider}
use mkk_luna.Auth.Validation.{validate_email, validate_username, validate_password}
use mkk_luna.Auth.Service.{lift, register}

lift-bind :
    {A B : Type 0} (P : Result B × World → Type 0) (r : Result A) (f : A → M B) (w : World)
    → ((e : Error) → P (err e, w))
    → ((a : A) → r ≡ ok a → P (f a w))
    → P ((lift r >>= f) w)
lift-bind P (err e) f w refused passed = refused e
lift-bind P (ok a) f w refused passed = passed a refl

insert_user-refused :
    (collate : String → String → Bool) (email username hash : String) (t t' : Tables) (e : Error)
    → insert_user collate email username hash t ≡ (err e, t')
    → t' ≡ t
unfolding insert_user
insert_user-refused collate email username hash t t' e h =
    elim (Bool-cases (any (λ u. collate u.email email || collate u.username username) t.users)) [
      | inl d ↦ let h' = rw (d, insert_user) at h in ap (λ out. out.1) (sym h')
      | inr d ↦ let h' = rw (d, insert_user) at h in cc
    ]

module _ (provider : Provider) (cfg : Config) (w : World) (email username password : String) where
  -- The user that a registration stores, with a hash that bcrypt has made of the password.
  abbrev pub IsRegistered : ℕ → Tables → Type 0
  IsRegistered id t' =
      (n : ℕ) × (hash : String) × (validate_email email ≡ ok tt)
      × (validate_username username ≡ ok tt)
      × (validate_password password ≡ ok tt)
      × (provider.generate_from_password n password cfg.bcrypt_cost ≡ some hash)
      × (insert_user w.services.collate email username hash w.tables ≡ (ok id, t'))

  -- `Register` succeeds only if the address, the name and the password pass their checks and no user
  -- has the address or the name. A success has stored exactly that user, with a bcrypt hash of the
  -- password at the configured cost; a failure has left all tables as they were, unless the answer to
  -- the INSERT was lost.
  pub register_atomic :
      AllOrNothing w.tables IsRegistered (register provider cfg email username password w)
  unfolding register Users.create
  register_atomic =
      lift-bind P (validate_email email) (λ _. check_name) w (λ e. inl refl)
        (λ _ good_email.
          lift-bind P (validate_username username) (λ _. check_password) w (λ e. inl refl)
            (λ _ good_name.
              lift-bind P (validate_password password) (λ _. make) w (λ e. inl refl)
                (λ _ good_password.
                  or_fail-bind P (provider.generate_from_password w.calls password cfg.bcrypt_cost)
                    external (Users.create email username) (tick w) (λ _. inl refl)
                    (λ hash hashed.
                      stored hash
                        (λ id t' same.
                          (_, hash, good_email, good_name, good_password, hashed, same))
                        (insert_user w.services.collate email username hash w.tables) refl))))
    where
      P : Result ℕ × World → Type 0
      P = AllOrNothing w.tables IsRegistered

      make : M ℕ
      make = do
        made ← ask (λ n. provider.generate_from_password n password cfg.bcrypt_cost)
        hash ← or_fail made external
        Users.create email username hash

      check_password : M ℕ
      check_password = lift (validate_password password) >> make

      check_name : M ℕ
      check_name = lift (validate_username username) >> check_password

      stored :
          (hash : String)
          → ((id : ℕ) (t' : Tables)
              → insert_user w.services.collate email username hash w.tables ≡ (ok id, t')
              → IsRegistered id t')
          → (out : Result ℕ × Tables)
          → insert_user w.services.collate email username hash w.tables ≡ out
          → P (Users.create email username hash (tick w))
      stored hash done (err e, t) same =
          exec_rule P (insert_user w.services.collate email username hash) (tick w) (inl refl)
            (inl (
              ap (λ out. out.1) same
              ∙ insert_user-refused w.services.collate email username hash w.tables t e same))
            (rw same
              (inl (insert_user-refused w.services.collate email username hash w.tables t e same)))
      stored hash done (ok id, t) same =
          exec_rule P (insert_user w.services.collate email username hash) (tick w) (inl refl)
            (inr
              (refl, (id, done id _ (same ∙ ap (λ t. (ok id, t)) (ap (λ out. out.1) (sym same))))))
            (rw same (done id t same))
