-- ===== src/Text.antt =====
-- The functions of Go's packages strings and time that the services call on texts.
use Prim.Native.Char.{Char, code}
use mkk_luna.Prelude.{
  ℕ, ◌+◌, ◌-◌, ◌*◌, ◌/◌, ◌%◌, String, Bool, true, false, ◌&&◌, ◌||◌, not, Option, none, some, List,
  [], ◌∷◌, ◌++◌, leb, ltb, ◌==◌, if◌then◌else◌, all,
}

-- unicode.IsSpace.
unfoldable pub is_space : ℕ → Bool
is_space c =
    (leb 9 c && leb c 13)
    || c == 32
    || c == 0x85
    || c == 0xa0
    || c == 0x1680
    || (leb 0x2000 c && leb c 0x200a)
    || c == 0x2028
    || c == 0x2029
    || c == 0x202f
    || c == 0x205f
    || c == 0x3000

-- `strings.TrimSpace(s) == ""`.
unfoldable pub is_blank : String → Bool
unfolding is_space
is_blank String.[] = true
is_blank (String.◌∷◌ c s) = is_space (code c) && is_blank s

unfoldable pub trim_left : String → String
unfolding is_space
trim_left String.[] = String.[]
trim_left (String.◌∷◌ c s) =
    let rest = trim_left s in if is_space (code c) then rest else String.◌∷◌ c s

-- A text before `c`, where none but spaces follow.
abbrev pub cons_trimmed : Char → String → String
cons_trimmed c String.[] = if is_space (code c) then String.[] else String.◌∷◌ c String.[]
cons_trimmed c (String.◌∷◌ d s) = String.◌∷◌ c (String.◌∷◌ d s)

unfoldable pub trim_right : String → String
unfolding is_space
trim_right String.[] = String.[]
trim_right (String.◌∷◌ c s) = cons_trimmed c (trim_right s)

-- `strings.TrimSpace`.
unfoldable pub trim_space : String → String
unfolding trim_left trim_right
trim_space s = trim_right (trim_left s)

-- `strings.Split(s, sep)[0]`, for a separator of one character.
unfoldable pub first_part : ℕ → String → String
first_part sep String.[] = String.[]
first_part sep (String.◌∷◌ c s) =
    let rest = first_part sep s in if code c == sep then String.[] else String.◌∷◌ c rest

-- The order of Go's strings: UTF-8 keeps the order of code points.
unfoldable pub text_le : List ℕ → List ℕ → Bool
text_le [] t = true
text_le (c ∷ s) [] = false
text_le (c ∷ s) (d ∷ t) = let rest = text_le s t in ltb c d || (c == d && rest)

-- `strings.Join`.
unfoldable pub join : List ℕ → List (List ℕ) → List ℕ
join sep [] = []
join sep (s ∷ []) = s
join sep (s ∷ t ∷ rest) = s ++ sep ++ join sep (t ∷ rest)

abbrev pub codes : String → List ℕ
codes String.[] = []
codes (String.◌∷◌ c s) = code c ∷ codes s

unfoldable pub is_digit : ℕ → Bool
is_digit c = leb b'0' c && leb c b'9'

abbrev pub day_length : ℕ
day_length = 86400

unfoldable pub is_leap : ℕ → Bool
is_leap y = (y % 4 == 0 && not (y % 100 == 0)) || y % 400 == 0

unfoldable pub days_in_month : ℕ → ℕ → ℕ
unfolding is_leap
days_in_month y m =
    if m == 2
    then (if is_leap y then 29 else 28)
    else if m == 4 || m == 6 || m == 9 || m == 11
    then 30
    else 31

-- The days of the months before `m` in a year that is no leap year.
unfoldable pub days_before : ℕ → ℕ
days_before m =
    if m == 1
    then 0
    else if m == 2
    then 31
    else if m == 3
    then 59
    else if m == 4
    then 90
    else if m == 5
    then 120
    else if m == 6
    then 151
    else if m == 7
    then 181
    else if m == 8
    then 212
    else if m == 9
    then 243
    else if m == 10
    then 273
    else if m == 11
    then 304
    else 334

-- The days from the first day of the year 0.
unfoldable pub day_number : ℕ → ℕ → ℕ → ℕ
unfolding days_before is_leap
day_number y m d =
    365 * y
    + (y + 3) / 4
    - (y + 99) / 100
    + (y + 399) / 400
    + days_before m
    + (if is_leap y && ltb 2 m then 1 else 0)
    + d
    - 1

unfoldable pub civil : ℕ → ℕ → ℕ → Option ℕ
unfolding days_in_month day_number
civil y m d =
    if leb 1 m && leb m 12 && leb 1 d && leb d (days_in_month y m)
    then some (day_length * day_number y m d)
    else none

unfoldable pub two : ℕ → ℕ → ℕ
two a b = 10 * (a - b'0') + (b - b'0')

unfoldable pub parse_date_codes : List ℕ → Option ℕ
unfolding is_digit civil two
parse_date_codes (y1 ∷ y2 ∷ y3 ∷ y4 ∷ s1 ∷ m1 ∷ m2 ∷ s2 ∷ d1 ∷ d2 ∷ []) =
    if all is_digit (y1 ∷ y2 ∷ y3 ∷ y4 ∷ m1 ∷ m2 ∷ d1 ∷ d2 ∷ []) && s1 == b'-' && s2 == b'-'
    then civil (100 * two y1 y2 + two y3 y4) (two m1 m2) (two d1 d2)
    else none
parse_date_codes _ = none

-- `time.Parse("2006-01-02", s)`, as seconds from the first day of the year 0.
unfoldable pub parse_date : String → Option ℕ
unfolding parse_date_codes
parse_date s = parse_date_codes (codes s)

-- `t.Format("2006-01-02")`, by the day that it spells.
unfoldable pub format_date : ℕ → ℕ
format_date t = t / day_length
