-- ===== src/Prelude/Rows.antt =====
-- A table is a list of rows. What a WHERE clause selects, changes and deletes.
use mathlib.Core.Path.{subst}
use mathlib.Core.Path.{◌≡◌, refl}
use mathlib.Core.Logic.{inl, inr}
use mathlib.Core.Bool.{Bool, true, false}
use mathlib.Core.Option
use mathlib.Core.Option.{Option, none, some}
use mathlib.Core.List.{List, [], ◌∷◌, ◌++◌, map}
use native.Mathlib.Omega.{arith}
use mkk_luna.Prelude.Tests.{if◌then◌else◌, Bool-cases}
use mkk_luna.Prelude.Lists.{All}

module _ {ℓ} {A : Type ℓ} where
  -- The first row that satisfies the test, or no row.
  unfoldable pub find : (A → Bool) → List A → Option A
  find p [] = none
  find p (x ∷ xs) = if p x then some x else find p xs

  unfoldable pub select : (A → Bool) → List A → List A
  select p [] = []
  select p (x ∷ xs) = let rest = select p xs in if p x then x ∷ rest else rest

  unfoldable pub update_where : (A → Bool) → (A → A) → List A → List A
  update_where p f [] = []
  update_where p f (x ∷ xs) = (if p x then f x else x) ∷ update_where p f xs

  unfoldable pub delete_where : (A → Bool) → List A → List A
  delete_where p [] = []
  delete_where p (x ∷ xs) = let rest = delete_where p xs in if p x then rest else x ∷ rest

  pub find_sound : (p : A → Bool) (xs : List A) {x : A} → find p xs ≡ some x → p x ≡ true
  unfolding find
  find_sound p [] h = cc
  find_sound p (y ∷ ys) {x} h = elim (Bool-cases (p y)) [
    | inl e ↦ let same : y ≡ x = ground arith in rw same at e
    | inr e ↦ find_sound p ys (ground arith)
  ]

  pub find-append :
      (p : A → Bool) (xs : List A) (y : A)
      → find p xs ≡ none
      → find p (xs ++ y ∷ []) ≡ (if p y then some y else none)
  unfolding find
  find-append p [] y h = refl
  find-append p (x ∷ xs) y h = ground (arith, find-append p xs y)

  pub find-append_some :
      (p : A → Bool) (xs ys : List A) (x : A) → find p xs ≡ some x → find p (xs ++ ys) ≡ some x
  unfolding find
  find-append_some p [] ys x h = cc
  find-append_some p (y ∷ xs) ys x h = ground (arith, find-append_some p xs ys x)

  -- A change that keeps the test leads the look-up to the changed row.
  pub find-update_where :
      (p : A → Bool) (f : A → A) (xs : List A)
      → ((x : A) → p x ≡ true → p (f x) ≡ true)
      → find p (update_where p f xs) ≡ Option.map f (find p xs)
  unfolding find update_where
  find-update_where p f [] keeps = refl
  find-update_where p f (x ∷ xs) keeps = elim (Bool-cases (p x)) [
    | inl e ↦ rw (e, keeps x e)
    | inr e ↦ rw (e, e) (find-update_where p f xs keeps)
  ]

  pub find-delete_where : (p : A → Bool) (xs : List A) → find p (delete_where p xs) ≡ none
  unfolding find delete_where
  find-delete_where p [] = refl
  find-delete_where p (x ∷ xs) = ground (arith, find-delete_where p xs)

  pub select-delete_where : (p : A → Bool) (xs : List A) → select p (delete_where p xs) ≡ []
  unfolding select delete_where
  select-delete_where p [] = refl
  select-delete_where p (x ∷ xs) = ground (arith, select-delete_where p xs)

  pub select-All : (p : A → Bool) (xs : List A) → All (λ x. p x ≡ true) (select p xs)
  unfolding select
  select-All p [] = tt
  select-All p (x ∷ xs) = elim (Bool-cases (p x)) [
    | inl e ↦ rw e (e, select-All p xs)
    | inr e ↦ rw e (select-All p xs)
  ]

module _ {ℓ κ} {A : Type ℓ} {B : Type κ} where
  -- A change that no reader sees through `g` is not seen in the table either.
  pub map-update_where :
      (g : A → B) (p : A → Bool) (f : A → A) (xs : List A)
      → ((x : A) → g (f x) ≡ g x)
      → map g (update_where p f xs) ≡ map g xs
  unfolding update_where
  map-update_where g p f [] h = refl
  map-update_where g p f (x ∷ xs) h = elim (Bool-cases (p x)) [
    | inl e ↦ rw (e, h x, map-update_where g p f xs h)
    | inr e ↦ rw (e, map-update_where g p f xs h)
  ]

module _ {ℓ κ η} {A : Type ℓ} (P : A → Type κ) (Q : A → Type η) (p : A → Bool) where
  pub All-update_where :
      (f : A → A) (xs : List A)
      → ((x : A) → P x → p x ≡ true → Q (f x))
      → ((x : A) → P x → p x ≡ false → Q x)
      → All P xs
      → All Q (update_where p f xs)
  unfolding update_where
  All-update_where f [] hit miss h = tt
  All-update_where f (x ∷ xs) hit miss (h, hs) = elim (Bool-cases (p x)) [
    | inl e ↦ rw e (hit x h e, All-update_where f xs hit miss hs)
    | inr e ↦ rw e (miss x h e, All-update_where f xs hit miss hs)
  ]

module _ {ℓ κ} {A : Type ℓ} (P : A → Type κ) where
  pub All-delete_where : (p : A → Bool) (xs : List A) → All P xs → All P (delete_where p xs)
  unfolding delete_where
  All-delete_where p [] h = tt
  All-delete_where p (x ∷ xs) (h, hs) = elim (Bool-cases (p x)) [
    | inl e ↦ rw e (All-delete_where p xs hs)
    | inr e ↦ rw e (h, All-delete_where p xs hs)
  ]

  pub All-concat : (xs : List A) {x : A} → All P xs → P x → All P (xs ++ x ∷ [])
  All-concat [] h p = (p, tt)
  All-concat (y ∷ ys) (q, h) p = (q, All-concat ys h p)

pub All-find {ℓ} :
    {A : Type ℓ} (P : A → Type 0) (p : A → Bool) (xs : List A) {x : A}
    → All P xs
    → find p xs ≡ some x
    → P x
unfolding find
All-find P p [] h e = cc
All-find P p (y ∷ ys) (h, hs) e = elim (Bool-cases (p y)) [
  | inl g ↦ let e' = rw (g, find) at e in subst P (same e') h
  | inr g ↦ let e' = rw (g, find) at e in All-find P p ys hs e'
]
  where
    same : {x : _} → some y ≡ some x → y ≡ x
    same h = cc

pub All-imply {ℓ} :
    {A : Type ℓ} (P Q : A → Type 0) (xs : List A) → ((x : A) → P x → Q x) → All P xs → All Q xs
All-imply P Q [] f h = tt
All-imply P Q (x ∷ xs) f (h, hs) = (f x h, All-imply P Q xs f hs)
