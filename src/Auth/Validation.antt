-- ===== src/Auth/Validation.antt =====
-- internal/service/auth.go: the checks of a registration. A text is read by its code points.
pub mod Laws
use Prim.Native.String.{len}
use mkk_luna.Prelude.{
  ℕ, String, Bool, true, false, not, ◌&&◌, ◌||◌, List, [], ◌∷◌, length, all, leb, ltb, ◌==◌,
  if◌then◌else◌,
}
use mkk_luna.Text.{codes, is_digit}
use mkk_luna.World.{Result, ok, err, invalid_input}

unfoldable pub is_letter : ℕ → Bool
is_letter c = (leb b'a' c && leb c b'z') || (leb b'A' c && leb c b'Z')

-- The loop over the runes of the password.
unfoldable pub scan : Bool → Bool → List ℕ → Bool × Bool
unfolding is_letter is_digit
scan has_letter has_digit [] = (has_letter, has_digit)
scan has_letter has_digit (r ∷ rs) =
    scan (if is_letter r then true else has_letter)
      (if is_letter r then has_digit else if is_digit r then true else has_digit) rs

unfoldable pub validate_password : String → Result (Unit {0})
unfolding scan
validate_password password =
    if ltb (len password) 10
    then err invalid_input
    else let (has_letter, has_digit) = scan false false (codes password) in
      if not has_letter || not has_digit then err invalid_input else ok tt

-- `[a-zA-Z0-9_]`.
unfoldable pub is_word : ℕ → Bool
unfolding is_letter is_digit
is_word c = is_letter c || is_digit c || c == b'_'

-- `^[a-zA-Z0-9_]{3,100}$`.
unfoldable pub validate_username : String → Result (Unit {0})
unfolding is_word
validate_username username =
    let cs = codes username in
    if all is_word cs && leb 3 (length cs) && leb (length cs) 100 then ok tt else err invalid_input

-- `[^@\s]`; `\s` is tab, newline, form feed, carriage return or space.
unfoldable pub is_atom : ℕ → Bool
is_atom c = not (c == b'@' || c == 9 || c == 10 || c == 12 || c == 13 || c == 32)

-- `[^@\s]*$`, and `[^@\s]+$` behind it.
unfoldable pub match_end : List ℕ → Bool
unfolding is_atom
match_end [] = false
match_end (c ∷ cs) = is_atom c && all is_atom cs

-- `[^@\s]*\.[^@\s]+$`.
unfoldable pub match_dot : List ℕ → Bool
unfolding match_end
match_dot [] = false
match_dot (c ∷ cs) = let later = match_dot cs in (c == b'.' && match_end cs) || (is_atom c && later)

-- `[^@\s]+\.[^@\s]+$`.
unfoldable pub match_domain : List ℕ → Bool
unfolding match_dot
match_domain [] = false
match_domain (c ∷ cs) = is_atom c && match_dot cs

-- `[^@\s]*@[^@\s]+\.[^@\s]+$`.
unfoldable pub match_at : List ℕ → Bool
unfolding match_domain
match_at [] = false
match_at (c ∷ cs) =
    let later = match_at cs in (c == b'@' && match_domain cs) || (is_atom c && later)

-- `^[^@\s]+@[^@\s]+\.[^@\s]+$`.
unfoldable pub match_email : List ℕ → Bool
unfolding match_at
match_email [] = false
match_email (c ∷ cs) = is_atom c && match_at cs

unfoldable pub validate_email : String → Result (Unit {0})
unfolding match_email
validate_email email = if match_email (codes email) then ok tt else err invalid_input
