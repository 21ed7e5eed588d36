-- ===== src/Prelude/Sort.antt =====
-- ORDER BY and LIMIT: a stable insertion sort, and a page of a list.
use Prim.Native.Nat.{ℕ, zero, suc, ◌≤◌, ◌-◌}
use mathlib.Core.Bool.{Bool, true, false}
use mathlib.Core.List.{List, [], ◌∷◌}
use native.Mathlib.Omega.{arith}
use mathlib.Core.Path.{◌≡◌, refl, ap, ◌∙◌}
use mkk_luna.Prelude.Tests.{leb, if◌then◌else◌}
use mkk_luna.Prelude.Lists.{length, All}

-- A page has as many rows as there are from the offset on, up to the limit.
abbrev pub page_length : ℕ → ℕ → ℕ → ℕ
page_length limit offset total = if leb limit (total - offset) then limit else total - offset

module _ {ℓ} {A : Type ℓ} where
  unfoldable pub insert_by : (A → A → Bool) → A → List A → List A
  insert_by before x [] = x ∷ []
  insert_by before x (y ∷ ys) =
      let later = insert_by before x ys in if before x y then x ∷ y ∷ ys else y ∷ later

  unfoldable pub sort_by : (A → A → Bool) → List A → List A
  unfolding insert_by
  sort_by before [] = []
  sort_by before (x ∷ xs) = insert_by before x (sort_by before xs)

  unfoldable pub take : ℕ → List A → List A
  take zero xs = []
  take (suc n) [] = []
  take (suc n) (x ∷ xs) = x ∷ take n xs

  unfoldable pub drop : ℕ → List A → List A
  drop zero xs = xs
  drop (suc n) [] = []
  drop (suc n) (x ∷ xs) = drop n xs

  -- LIMIT and OFFSET.
  unfoldable pub page : ℕ → ℕ → List A → List A
  unfolding take drop
  page limit offset xs = take limit (drop offset xs)

  length-take-le : (n : ℕ) (xs : List A) → length (take n xs) ≤ n
  unfolding take
  length-take-le zero xs = omega arith
  length-take-le (suc n) [] = omega arith
  length-take-le (suc n) (x ∷ xs) = omega (arith, length-take-le n xs)

  pub length-page-le : (limit offset : ℕ) (xs : List A) → length (page limit offset xs) ≤ limit
  unfolding page
  length-page-le limit offset xs = length-take-le limit (drop offset xs)

  length-take : (n : ℕ) (xs : List A) → length (take n xs) ≡ page_length n 0 (length xs)
  unfolding take
  length-take zero xs = ground arith
  length-take (suc n) [] = ground arith
  length-take (suc n) (x ∷ xs) = ground (arith, length-take n xs)

  length-drop : (n : ℕ) (xs : List A) → length (drop n xs) ≡ length xs - n
  unfolding drop
  length-drop zero xs = omega arith
  length-drop (suc n) [] = omega arith
  length-drop (suc n) (x ∷ xs) = omega (arith, length-drop n xs)

  length-insert_by :
      (before : A → A → Bool) (x : A) (xs : List A)
      → length (insert_by before x xs) ≡ suc (length xs)
  unfolding insert_by
  length-insert_by before x [] = refl
  length-insert_by before x (y ∷ ys) =
      elim (before x y)
        as (λ b.
          length (if b then x ∷ y ∷ ys else y ∷ insert_by before x ys) ≡ suc (suc (length ys))) [
            | true ↦ refl
            | false ↦ ap suc (length-insert_by before x ys)
          ]

  length-sort_by : (before : A → A → Bool) (xs : List A) → length (sort_by before xs) ≡ length xs
  unfolding sort_by
  length-sort_by before [] = refl
  length-sort_by before (x ∷ xs) =
      length-insert_by before x (sort_by before xs) ∙ ap suc (length-sort_by before xs)

  pub length-page-sort_by :
      (limit offset : ℕ) (before : A → A → Bool) (xs : List A)
      → length (page limit offset (sort_by before xs)) ≡ page_length limit offset (length xs)
  unfolding page
  length-page-sort_by limit offset before xs = ground (
    arith,
    length-take limit (drop offset (sort_by before xs)),
    length-drop offset (sort_by before xs),
    length-sort_by before xs,
  )

module _ {ℓ κ} {A : Type ℓ} (P : A → Type κ) where
  All-insert_by :
      (before : A → A → Bool) (x : A) (xs : List A) → P x → All P xs → All P (insert_by before x xs)
  unfolding insert_by
  All-insert_by before x [] p h = (p, tt)
  All-insert_by before x (y ∷ ys) p (q, h) =
      elim (before x y) as (λ b. All P (if b then x ∷ y ∷ ys else y ∷ insert_by before x ys)) [
        | true ↦ (p, (q, h))
        | false ↦ (q, All-insert_by before x ys p h)
      ]

  pub All-sort_by : (before : A → A → Bool) (xs : List A) → All P xs → All P (sort_by before xs)
  unfolding sort_by
  All-sort_by before [] h = tt
  All-sort_by before (x ∷ xs) (p, h) =
      All-insert_by before x (sort_by before xs) p (All-sort_by before xs h)

  All-take : (n : ℕ) (xs : List A) → All P xs → All P (take n xs)
  unfolding take
  All-take zero xs h = tt
  All-take (suc n) [] h = tt
  All-take (suc n) (x ∷ xs) (p, h) = (p, All-take n xs h)

  All-drop : (n : ℕ) (xs : List A) → All P xs → All P (drop n xs)
  unfolding drop
  All-drop zero xs h = h
  All-drop (suc n) [] h = tt
  All-drop (suc n) (x ∷ xs) (p, h) = All-drop n xs h

  pub All-page : (limit offset : ℕ) (xs : List A) → All P xs → All P (page limit offset xs)
  unfolding page
  All-page limit offset xs h = All-take limit (drop offset xs) (All-drop offset xs h)
