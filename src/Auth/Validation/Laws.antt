-- ===== src/Auth/Validation/Laws.antt =====
-- What the checks of a registration accept, against descriptions without loops.
use Prim.Native.String.{len}
use mkk_luna.Prelude.{
  ℕ, ◌≤◌, ◌≡◌, refl, ◌↔◌, inl, inr, String, Bool, true, false, ◌&&◌, ◌||◌, List, [], ◌∷◌, ◌++◌, any,
  length, all, arith, Bool-cases, ap, ◌∙◌, if◌then◌else◌, ◌==◌, ==_iff,
}
use mkk_luna.Text.{codes, is_digit}
use mkk_luna.World.{ok}
use mkk_luna.Auth.Validation.{
  is_letter, scan, validate_password, is_atom, match_end, match_dot, match_domain, match_at,
  match_email, validate_email,
}

letter-digit : (c : ℕ) → is_letter c ≡ true → is_digit c ≡ false
unfolding is_letter is_digit
letter-digit c h = ground arith

scan-any : (a b : Bool) (cs : List ℕ) → scan a b cs ≡ (a || any is_letter cs, b || any is_digit cs)
unfolding scan
scan-any a b [] = ground arith
scan-any a b (c ∷ cs) =
    scan-any (if is_letter c then true else a)
      (if is_letter c then b else if is_digit c then true else b) cs
    ∙ elim (Bool-cases (is_letter c)) [
      | inl e ↦ ground (arith, letter-digit c)
      | inr e ↦ ground arith
    ]

-- A password is accepted exactly when it has at least ten bytes, an ASCII letter and a digit.
pub validate_password_iff :
    (password : String)
    → (validate_password password ≡ ok tt) ↔ (
        (10 ≤ len password)
        × (any is_letter (codes password) ≡ true)
        × (any is_digit (codes password) ≡ true))
unfolding validate_password
validate_password_iff p = rw (scan-any false false (codes p)) (λ h. ground arith, λ h. ground arith)

-- A non-empty text of atoms.
abbrev pub IsPart : List ℕ → Type 0
IsPart cs = (1 ≤ length cs) × (all is_atom cs ≡ true)

match_end-IsPart : (cs : List ℕ) → match_end cs ≡ true → IsPart cs
unfolding match_end
match_end-IsPart [] h = ground arith
match_end-IsPart (c ∷ cs) h = (ground arith, h)

match_end-from : (cs : List ℕ) → IsPart cs → match_end cs ≡ true
unfolding match_end
match_end-from [] (h, _) = ground arith
match_end-from (c ∷ cs) (_, h) = h

-- A text with atoms before the character `c`, and after it what `Rest` takes.
abbrev pub Cut : ℕ → (List ℕ → Type 0) → List ℕ → Type 0
Cut c Rest cs =
    (front : List ℕ) × (back : List ℕ) × (cs ≡ front ++ (c ∷ back))
    × (all is_atom front ≡ true)
    × Rest back

Cut-more :
    (c : ℕ) (Rest : List ℕ → Type 0) (d : ℕ) (cs : List ℕ)
    → is_atom d ≡ true
    → Cut c Rest cs
    → Cut c Rest (d ∷ cs)
Cut-more c Rest d cs h (front, back, e, atoms, rest) =
    (d ∷ front, back, ap (◌∷◌ d) e, ground arith, rest)

Cut-here :
    (c : ℕ) (Rest : List ℕ → Type 0) (d : ℕ) (cs : List ℕ)
    → (d == c) ≡ true
    → Rest cs
    → Cut c Rest (d ∷ cs)
Cut-here c Rest d cs h rest = ([], cs, ap (λ x. x ∷ cs) ((==_iff d c).0 h), refl, rest)

match_dot-Cut : (cs : List ℕ) → match_dot cs ≡ true → Cut b'.' IsPart cs
unfolding match_dot
match_dot-Cut [] h = ground arith
match_dot-Cut (c ∷ cs) h = elim (Bool-cases ((c == b'.') && match_end cs)) [
  | inl e ↦ Cut-here b'.' IsPart c cs (ground arith) (match_end-IsPart cs (ground arith))
  | inr e ↦ Cut-more b'.' IsPart c cs (ground arith) (match_dot-Cut cs (ground arith))
]

match_dot-from :
    (front back : List ℕ)
    → all is_atom front ≡ true
    → IsPart back
    → match_dot (front ++ (b'.' ∷ back)) ≡ true
unfolding match_dot
match_dot-from [] back h part = rw (match_end-from back part) refl
match_dot-from (c ∷ cs) back h part = rw (match_dot-from cs back (ground arith) part) ground arith

-- What follows the at sign: a name, a dot, and a name.
abbrev pub IsDomain : List ℕ → Type 0
IsDomain cs =
    (name : List ℕ) × (ending : List ℕ) × (cs ≡ name ++ (b'.' ∷ ending))
    × IsPart name
    × IsPart ending

match_domain-IsDomain : (cs : List ℕ) → match_domain cs ≡ true → IsDomain cs
unfolding match_domain
match_domain-IsDomain [] h = ground arith
match_domain-IsDomain (c ∷ cs) h =
    let (front, back, e, atoms, part) = match_dot-Cut cs (ground arith) in
    (c ∷ front, back, ap (◌∷◌ c) e, (ground arith, ground arith), part)

match_domain-split :
    (c : ℕ) (front back : List ℕ)
    → all is_atom (c ∷ front) ≡ true
    → IsPart back
    → match_domain (c ∷ (front ++ (b'.' ∷ back))) ≡ true
unfolding match_domain
match_domain-split c front back h part =
    rw (match_dot-from front back (ground arith) part) ground arith

match_domain-from : (cs : List ℕ) → IsDomain cs → match_domain cs ≡ true
match_domain-from cs ([], back, e, (n, _), part) = ground arith
match_domain-from cs (c ∷ front, back, e, (_, h), part) =
    ap match_domain e ∙ match_domain-split c front back h part

match_at-Cut : (cs : List ℕ) → match_at cs ≡ true → Cut b'@' IsDomain cs
unfolding match_at
match_at-Cut [] h = ground arith
match_at-Cut (c ∷ cs) h = elim (Bool-cases ((c == b'@') && match_domain cs)) [
  | inl e ↦ Cut-here b'@' IsDomain c cs (ground arith) (match_domain-IsDomain cs (ground arith))
  | inr e ↦ Cut-more b'@' IsDomain c cs (ground arith) (match_at-Cut cs (ground arith))
]

match_at-from :
    (front back : List ℕ)
    → all is_atom front ≡ true
    → IsDomain back
    → match_at (front ++ (b'@' ∷ back)) ≡ true
unfolding match_at
match_at-from [] back h rest = rw (match_domain-from back rest) refl
match_at-from (c ∷ cs) back h rest = rw (match_at-from cs back (ground arith) rest) ground arith

-- What the pattern describes: three parts, an at sign after the first, a dot after the second.
abbrev pub IsEmail : List ℕ → Type 0
IsEmail cs =
    (account : List ℕ) × (domain : List ℕ) × (cs ≡ account ++ (b'@' ∷ domain))
    × IsPart account
    × IsDomain domain

match_email-split :
    (c : ℕ) (front back : List ℕ)
    → all is_atom (c ∷ front) ≡ true
    → IsDomain back
    → match_email (c ∷ (front ++ (b'@' ∷ back))) ≡ true
unfolding match_email
match_email-split c front back h rest =
    rw (match_at-from front back (ground arith) rest) ground arith

match_email-from : (cs : List ℕ) → IsEmail cs → match_email cs ≡ true
match_email-from cs ([], back, e, (n, _), rest) = ground arith
match_email-from cs (c ∷ front, back, e, (_, h), rest) =
    ap match_email e ∙ match_email-split c front back h rest

match_email-IsEmail : (cs : List ℕ) → match_email cs ≡ true → IsEmail cs
unfolding match_email
match_email-IsEmail [] h = ground arith
match_email-IsEmail (c ∷ cs) h =
    let (front, back, e, atoms, rest) = match_at-Cut cs (ground arith) in
    (c ∷ front, back, ap (◌∷◌ c) e, (ground arith, ground arith), rest)

-- The matcher accepts an address exactly when it splits, somewhere, as the pattern says: a part,
-- an at sign, a part, a dot, and a part; a part is not empty and has no at sign and no white space.
pub validate_email_iff : (email : String) → (validate_email email ≡ ok tt) ↔ IsEmail (codes email)
unfolding validate_email
validate_email_iff email = elim (Bool-cases (match_email (codes email))) [
  | inl e ↦ rw e (λ _. match_email-IsEmail (codes email) e, λ _. refl)
  | inr e ↦ rw e (λ h. ground arith, λ h. ground (arith, match_email-from (codes email) h))
]
