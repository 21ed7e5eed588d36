-- ===== src/Redis/Rules.antt =====
-- What the commands of Redis do to a key and leave of the others.
use mathlib.Core.Logic.{ite}
use mkk_luna.Prelude.{
  ℕ, ◌<◌, ◌+◌, ◌≡◌, ◌≢◌, refl, ◌⊎◌, inl, inr, true, false, Option, none, some, arith, Option-cases,
  Bool-cases, String,
}
use mkk_luna.Redis.Keys.{Key, Value, Key-discrete}
use mkk_luna.Redis.{Cell, Cells, until, put, get, set, set_nx, del, del_if, is_text}

ite-yes : {P : Type 0} {A : Type 0} (d : Dec P) (a b : A) → P → ite d a b ≡ a
ite-yes (yes p) a b h = refl
ite-yes (no n) a b h = absurd (n h)

ite-no : {P : Type 0} {A : Type 0} (d : Dec P) (a b : A) → ¬ P → ite d a b ≡ b
ite-no (yes p) a b h = absurd (h p)
ite-no (no n) a b h = refl

pub put_same : (k : Key) (c : Option Cell) (cells : Cells) → put k c cells k ≡ c
unfolding put
put_same k c cells = ite-yes (Key-discrete k k) c (cells k) refl

pub put_other : (k j : Key) (c : Option Cell) (cells : Cells) → k ≢ j → put k c cells j ≡ cells j
unfolding put
put_other k j c cells other = ite-no (Key-discrete k j) c (cells j) other

pub set_other :
    (now : ℕ) (k j : Key) (v : Value) (ttl : ℕ) (cells : Cells)
    → k ≢ j
    → set now k v ttl cells j ≡ cells j
unfolding set
set_other now k j v ttl cells = put_other k j _ cells

-- A cell whose deadline is ahead is read.
pub get_ahead :
    (now : ℕ) (k : Key) (cells : Cells) {v : Value} {d : ℕ}
    → cells k ≡ some (record { value = v; deadline = some d })
    → now < d
    → get now k cells ≡ some v
unfolding get
get_ahead now k cells {v} {d} here ahead = rw (here, get) (ground arith)

-- So is what SET wrote less than its time to live ago.
pub get-until :
    (now : ℕ) (k : Key) (cells : Cells) (t ttl : ℕ) {v : Value}
    → cells k ≡ some (record { value = v; deadline = until t ttl })
    → now < t + ttl
    → get now k cells ≡ some v
unfolding get
get-until now k cells t ttl {v} here ahead = rw (here, get) (ground arith)

-- SET with NX writes where nothing is read, and nowhere else.
pub set_nx-cases :
    (now : ℕ) (k : Key) (v : Value) (ttl : ℕ) (cells : Cells)
    → ((get now k cells ≡ none) × (set_nx now k v ttl cells ≡ (true, set now k v ttl cells)))
      ⊎ ((get now k cells ≢ none) × (set_nx now k v ttl cells ≡ (false, cells)))
unfolding set_nx
set_nx-cases now k v ttl cells = elim (Option-cases (get now k cells)) [
  | inl e ↦ inl (e, rw (e, set_nx))
  | inr (other, e) ↦ inr ((λ h. cc), rw (e, set_nx))
]

pub del_if_other :
    (now : ℕ) (k j : Key) (token : String) (cells : Cells)
    → k ≢ j
    → del_if now k token cells j ≡ cells j
unfolding del_if del
del_if_other now k j token cells differs = elim (Bool-cases (is_text token (get now k cells))) [
  | inl e ↦ rw e (put_other k j none cells differs)
  | inr e ↦ rw e
]
