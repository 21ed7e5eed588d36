-- ===== src/Auth/Tokens/Subjects.antt =====
-- The subject of a token: what strconv writes for an int64 it reads back.
use mkk_luna.Prelude.{
  ℕ, zero, suc, ◌+◌, ◌-◌, ◌*◌, ◌/◌, ◌%◌, ◌<◌, ◌≡◌, refl, sym, ap, ◌∙◌, true, false, ◌&&◌, some,
  List, [], ◌∷◌, ◌++◌, all, ltb, leb, Bool-cases, inl, inr, arith,
}
use mkk_luna.Text.{is_digit}
use mkk_luna.Auth.Tokens.{
  max_int64, modulus, digits, format_int, value_from, parse_digits, bounded, parse_int,
}

abbrev bound : ℕ → ℕ
bound zero = 1
bound (suc k) = 10 * bound k

all-append : (xs : List ℕ) (c : ℕ) → all is_digit (xs ++ c ∷ []) ≡ (all is_digit xs && is_digit c)
all-append [] c = ground arith
all-append (x ∷ xs) c = rw (all-append xs c) (ground arith)

value_from-append :
    (n : ℕ) (xs : List ℕ) (c : ℕ) → value_from n (xs ++ c ∷ []) ≡ 10 * value_from n xs + (c - b'0')
unfolding value_from
value_from-append n [] c = refl
value_from-append n (x ∷ xs) c = value_from-append (10 * n + (x - b'0')) xs c

digit_lem : (n : ℕ) → n < 10 → is_digit (b'0' + n) ≡ true
unfolding is_digit
digit_lem n h = ground arith

mod_lt : (n : ℕ) → n % 10 < 10
mod_lt n = omega arith

digits-all : (k n : ℕ) → all is_digit (digits k n) ≡ true
unfolding digits
digits-all zero n = refl
digits-all (suc k) n = elim (Bool-cases (ltb n 10)) [
  | inl e ↦ rw (e, digits, digit_lem n (ground arith)) refl
  | inr e ↦
      rw (e, digits, all-append (digits k (n / 10)) (b'0' + n % 10), digits-all k (n / 10))
        (digit_lem (n % 10) (mod_lt n))
]

value_from-digits : (k n : ℕ) → n < bound k → value_from 0 (digits k n) ≡ n
unfolding digits value_from
value_from-digits zero n h = omega arith
value_from-digits (suc k) n h = elim (Bool-cases (ltb n 10)) [
  | inl e ↦ rw (e, digits) (omega arith)
  | inr e ↦
      let less : n / 10 < bound k = omega arith in
      rw
        (
          e,
          digits,
          value_from-append 0 (digits k (n / 10)) (b'0' + n % 10),
          value_from-digits k (n / 10) less,
        )
        (omega arith)
]

append-cons : (xs : List ℕ) (c : ℕ) → (d : ℕ) × (ds : List ℕ) × (xs ++ c ∷ [] ≡ d ∷ ds)
append-cons [] c = (c, [], refl)
append-cons (x ∷ xs) c = (x, xs ++ c ∷ [], refl)

digits-cons : (k n : ℕ) → (c : ℕ) × (cs : List ℕ) × (digits (suc k) n ≡ c ∷ cs)
unfolding digits
digits-cons k n = elim (Bool-cases (ltb n 10)) [
  | inl e ↦ (b'0' + n, [], rw (e, digits) refl)
  | inr e ↦
      let (c, cs, same) = append-cons (digits k (n / 10)) (b'0' + n % 10) in
      (c, cs, rw (e, digits) same)
]

-- What the digits of a number below 10 ^ 20 are read as.
parse_digits-digits :
    (n : ℕ)
    → n < bound 20
    → (c : ℕ) × (cs : List ℕ) × (digits 20 n ≡ c ∷ cs)
      × (is_digit c ≡ true)
      × (parse_digits (c ∷ cs) ≡ some n)
unfolding parse_digits
parse_digits-digits n h =
    let (c, cs, same) = digits-cons 19 n in
    let digital : all is_digit (c ∷ cs) ≡ true = ap (all is_digit) (sym same) ∙ digits-all 20 n in
    let value : value_from 0 (c ∷ cs) ≡ n =
      ap (value_from 0) (sym same) ∙ value_from-digits 20 n h in
    (c, cs, same, ground arith, rw (digital, parse_digits) (ap some value))

parse_int-digit :
    (c : ℕ) (cs : List ℕ)
    → is_digit c ≡ true
    → parse_int (c ∷ cs) ≡ bounded false (parse_digits (c ∷ cs))
unfolding parse_int is_digit
parse_int-digit c cs h = ground arith

bounded_negative :
    (n : ℕ) → n < modulus → leb n max_int64 ≡ false → bounded true (some (modulus - n)) ≡ some n
bounded_negative n h e =
    let small : leb (modulus - n) (suc max_int64) ≡ true = ground arith in
    let back : (modulus - (modulus - n)) % modulus ≡ n = omega arith in rw (small, back) refl

-- `strconv.ParseInt` reads back the int64 that `strconv.FormatInt` has written, whatever its sign.
pub parse_int-format_int : (n : ℕ) → n < modulus → parse_int (format_int n) ≡ some n
unfolding parse_int format_int
parse_int-format_int n h = elim (Bool-cases (leb n max_int64)) [
  | inl e ↦
      let (c, cs, same, digital, value) = parse_digits-digits n (omega arith) in
      rw (e, format_int)
        (ap parse_int same ∙ parse_int-digit c cs digital ∙ ap (bounded false) value ∙ rw e refl)
  | inr e ↦
      let (c, cs, same, digital, value) = parse_digits-digits (modulus - n) (omega arith) in
      rw (e, format_int)
        (ap (λ ds. bounded true (parse_digits ds)) same
          ∙ ap (bounded true) value
          ∙ bounded_negative n h e)
]
