-- ===== src/Api.antt =====
-- internal/api: a handler answers a request in a world. What it is given of the request is an argument.
pub mod Helpers
pub mod Tasks
pub mod Comments
pub mod Teams
pub mod Auth
pub mod Middleware
pub mod Honesty
mod Tests
use mkk_luna.Http.{Response}
use mkk_luna.World.{Error, Result, ok, err, World, M}

abbrev pub Handler : Type 0
Handler = World → Response × World

abbrev pub answer : Response → Handler
answer r w = (r, w)

abbrev pub settle : {A : Type 0} → Result A → (Error → Handler) → (A → Handler) → Handler
settle (ok a) broken done = done a
settle (err e) broken done = broken e

-- `a, err := m(...); if err != nil { broken }; done`.
abbrev pub attempt : {A : Type 0} → M A → (Error → Handler) → (A → Handler) → Handler
attempt m broken done w = let (r, w') = m w in settle r broken done w'
