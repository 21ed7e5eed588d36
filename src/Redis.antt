-- ===== src/Redis.antt =====
-- The commands that the program sends to Redis (internal/infra), as functions on the cells of the server
-- at a moment. Redis is not part of the repository: the commands do what their documentation says, and
-- World says how a call of one can end. Moments and durations are nanoseconds.
pub mod Keys
pub mod Rules
use mathlib.Core.Logic.{ite}
use mathlib.Core.Option
use mkk_luna.Prelude.{
  ℕ, suc, ◌+◌, ◌-◌, ◌==◌, ◌=s◌, String, Bool, true, false, Option, none, some, leb, if◌then◌else◌,
}
use Keys.{Key, Value, number, text, page, stored, Key-discrete}

pub record Cell : Type 0 where
  pub value : Value
  pub deadline : Option ℕ

abbrev pub Cells : Type 0
Cells = Key → Option Cell

-- A cell is gone from its deadline on.
abbrev pub is_over : ℕ → Option ℕ → Bool
is_over now none = false
is_over now (some d) = leb d now

abbrev pub alive : ℕ → Option Cell → Option Cell
alive now none = none
alive now (some c) = if is_over now c.deadline then none else some c

unfoldable pub put : Key → Option Cell → Cells → Cells
unfolding Key-discrete
put k c cells j = ite (Key-discrete k j) c (cells j)

-- An expiration of zero is none, as in the Go client.
abbrev pub until : ℕ → ℕ → Option ℕ
until now ttl = if ttl == 0 then none else some (now + ttl)

-- GET, and EXISTS by whether there is an answer.
unfoldable pub get : ℕ → Key → Cells → Option Value
get now k cells = Option.map (λ c. c.value) (alive now (cells k))

unfoldable pub set : ℕ → Key → Value → ℕ → Cells → Cells
set now k v ttl cells = put k (some (record { value = v; deadline = until now ttl })) cells

-- SET with NX: whether it has set.
abbrev pub when_missing : Option Value → Cells → Cells → Bool × Cells
when_missing none new old = (true, new)
when_missing (some v) new old = (false, old)

unfoldable pub set_nx : ℕ → Key → Value → ℕ → Cells → Bool × Cells
unfolding get set
set_nx now k v ttl cells = when_missing (get now k cells) (set now k v ttl cells) cells

-- INCR keeps the deadline, and refuses what is no number.
abbrev pub next_cell : Option Cell → Option (ℕ × Cell)
next_cell none = some (1, record { value = number 1; deadline = none })
next_cell (some c) = elim c.value [
  | number n ↦ some (suc n, record c { value = number (suc n) })
  | text s ↦ none
  | page b ↦ none
  | stored r ↦ none
]

abbrev pub store_next : Key → Option (ℕ × Cell) → Cells → Option ℕ × Cells
store_next k none cells = (none, cells)
store_next k (some (n, c)) cells = (some n, put k (some c) cells)

unfoldable pub incr : ℕ → Key → Cells → Option ℕ × Cells
incr now k cells = store_next k (next_cell (alive now (cells k))) cells

-- EXPIRE, for a key that is there.
abbrev pub renewed : ℕ → Option Cell → Option Cell
renewed deadline none = none
renewed deadline (some c) = some (record c { deadline = some deadline })

unfoldable pub expire : ℕ → Key → ℕ → Cells → Cells
expire now k ttl cells = put k (renewed (now + ttl) (alive now (cells k))) cells

-- TTL, if it is positive.
abbrev pub left : ℕ → Option Cell → Option ℕ
left now none = none
left now (some c) = elim c.deadline [
  | none ↦ none
  | some d ↦ if leb d now then none else some (d - now)
]

unfoldable pub del : Key → Cells → Cells
del k cells = put k none cells

-- The script of internal/infra/redislock: DEL if GET answers the token.
abbrev pub is_text : String → Option Value → Bool
is_text token (some (text s)) = s =s token
is_text token _ = false

unfoldable pub del_if : ℕ → Key → String → Cells → Cells
unfolding get del
del_if now k token cells = if is_text token (get now k cells) then del k cells else cells
