-- ===== src/Limiter.antt =====
-- internal/infra/ratelimit/memory.go: the limiter that counts calls in memory. Moments and durations
-- are nanoseconds, moments from the start of 1970. The mutex makes each call one step.
pub mod Window
pub mod Laws
mod Tests
use mkk_luna.Prelude.{
  ℕ, suc, ◌+◌, ◌-◌, ◌*◌, ◌/◌, String, Bool, true, false, ◌||◌, Option, none, some, List, [], ◌∷◌,
  ltb, leb, ◌==◌, ◌=s◌, if◌then◌else◌,
}

-- A limit of zero stands for every limit that is not positive.
pub record MemoryLimiter : Type 0 where
  pub limit : ℕ
  pub window : ℕ

pub record Entry : Type 0 where
  pub count : ℕ
  pub reset : ℕ

-- The map of the entries.
abbrev pub Entries : Type 0
Entries = String → Option Entry

abbrev pub second : ℕ
second = 1000000000

unfoldable pub fixed_window_reset : ℕ → ℕ → ℕ
fixed_window_reset now window =
    let ws = window / second in
    if ws == 0 then now + second else (now / second / ws) * ws * second + window

abbrev pub put : String → Entry → Entries → Entries
put key e entries k = if k =s key then some e else entries k

-- The entry that a call counts in: the one of the map unless it is missing or over.
abbrev pub current : Option Entry → ℕ → ℕ → Entry
current none now reset = record { count = 0; reset = reset }
current (some e) now reset = if ltb e.reset now then record { count = 0; reset = reset } else e

-- `ra := time.Until(e.reset)`, at the moment `later`; one second if that is not positive.
abbrev pub retry_after : ℕ → ℕ → ℕ
retry_after reset later = if reset - later == 0 then second else reset - later

unfoldable pub allow : MemoryLimiter → String → ℕ → ℕ → Entries → (Bool × ℕ) × Entries
unfolding fixed_window_reset
allow l key now later entries =
    let e = current (entries key) now (fixed_window_reset now l.window) in
    if key =s "" || l.limit == 0
    then ((true, 0), entries)
    else if leb l.limit e.count
    then ((false, retry_after e.reset later), put key e entries)
    else ((true, 0), put key (record e { count = suc e.count }) entries)

abbrev pub keep : ℕ → Option Entry → Option Entry
keep now none = none
keep now (some e) = if ltb e.reset now then none else some e

-- One round of the loop of `startCleanup`.
abbrev pub sweep : ℕ → Entries → Entries
sweep now entries k = keep now (entries k)

-- What happens to a limiter: a call of `Allow`, with the two readings of the clock, or a round.
pub data Event : Type 0 where
  call : String → ℕ → ℕ → Event
  round : ℕ → Event

abbrev pub moment : Event → ℕ
moment (call key now later) = now
moment (round now) = now

-- How many of the calls for a key are admitted.
unfoldable pub admitted : MemoryLimiter → String → List Event → Entries → ℕ
unfolding allow
admitted l key [] entries = 0
admitted l key (call k now later ∷ events) entries =
    let ((passed, _), entries') = allow l k now later entries in
    let rest = admitted l key events entries' in
    if k =s key then (if passed then suc rest else rest) else rest
admitted l key (round now ∷ events) entries = admitted l key events (sweep now entries)
