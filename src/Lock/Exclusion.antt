-- ===== src/Lock/Exclusion.antt =====
-- Callers of internal/infra/redislock/locker.go that take and release locks in any order: nobody
-- holds a lock that another holds. Time passes between the steps, and calls of Redis may fail.
use mathlib.Core.Path.{subst}
use native.Mathlib.Decide.{ℕ_discrete}
use mathlib.Core.Logic.{ite}
use mkk_luna.Prelude.{
  ℕ, suc, ◌+◌, ◌≤◌, ◌<◌, ◌≡◌, ◌≢◌, refl, sym, ap, ◌∙◌, Bool, true, false, Option, none, some,
  String, arith,
}
use mkk_luna.Redis.{Cell, Cells}
use mkk_luna.Redis.Keys.{Key, text, number, page, stored}
use mkk_luna.Redis.Rules.{set_other, get_ahead}
use mkk_luna.World.{Result, ok, err, World, Services, tick}
use mkk_luna.Lock.{acquire, release, effective}
use mkk_luna.Redis.{del_if}
use mkk_luna.Lock.Rules.{
  release_rule, acquire_connected_rule, del_if-other, set-effective, lock_cells, IsFree,
}

-- What a caller knows of the lock it took: its key, its token, and when it ends at the latest.
pub record Held : Type 0 where
  pub key : Key
  pub token : String
  pub deadline : ℕ

pub record State : Type 0 where
  pub world : World
  pub holds : ℕ → Option Held

abbrev pub held : World → Key → ℕ → Result (Option String) → Option Held
held w key ttl (ok (some token)) =
    some
      (record { key = key; token = token; deadline = w.services.now (suc w.calls) + effective ttl })
held w key ttl (ok none) = none
held w key ttl (err e) = none

abbrev pub change : (ℕ → Option Held) → ℕ → Option Held → ℕ → Option Held
change f i a j = ite (ℕ_discrete i j) a (f j)

-- The caller `i` has tried to take a lock, and has released the one it held.
abbrev pub took : State → ℕ → Key → ℕ → Result (Option String) × World → State
took s i key ttl (r, w) = record { world = w; holds = change s.holds i (held s.world key ttl r) }

abbrev pub gave : State → ℕ → Result (Unit {0}) × World → State
gave s i (r, w) = record { world = w; holds = change s.holds i none }

pub data Step : State → State → Type 0 where
  takes :
      (s : State) (connected : Bool) (i : ℕ) (key : Key) (ttl : ℕ)
      → s.holds i ≡ none
      → Step s (took s i key ttl (acquire connected key ttl s.world))
  gives :
      (s : State) (connected : Bool) (i : ℕ) (h : Held)
      → s.holds i ≡ some h
      → Step s (gave s i (release connected h.key h.token s.world))
  -- Whatever else the program does, it leaves the keys of locks alone.
  others :
      (s : State) (w : World)
      → w.services ≡ s.world.services
      → s.world.calls ≤ w.calls
      → ((i : ℕ) (h : Held) → s.holds i ≡ some h → w.redis h.key ≡ s.world.redis h.key)
      → Step s (record s { world = w })

pub data Reach : State → State → Type 0 where
  stay : (s : State) → Reach s s
  next : {s t u : State} → Reach s t → Step t u → Reach s u

module _ (services : Services) where
  abbrev cell_of : Held → Cell
  cell_of h = record { value = text h.token; deadline = some h.deadline }

  abbrev IsIssued : World → Held → Type 0
  IsIssued w h = (n : ℕ) × ((n < w.calls) × (h.token ≡ services.uuid n))

  -- Until its deadline a lock that is held stands in Redis.
  abbrev IsKept : World → Held → Type 0
  IsKept w h = services.now w.calls < h.deadline → w.redis h.key ≡ some (cell_of h)

  abbrev IsSound : World → Option Held → Type 0
  IsSound w none = Unit
  IsSound w (some h) = IsIssued w h × IsKept w h

  abbrev IsApart : Option Held → Option Held → Type 0
  IsApart none o = Unit
  IsApart (some h) none = Unit
  IsApart (some h) (some g) = h.token ≢ g.token

  record IsValid (s : State) : Type 0 where
    same : s.world.services ≡ services
    sound : (i : ℕ) → IsSound s.world (s.holds i)
    apart : (i j : ℕ) → i ≢ j → IsApart (s.holds i) (s.holds j)

  IsSound-later :
      (w w' : World) (o : Option Held)
      → ((m n : ℕ) → m ≤ n → services.now m ≤ services.now n)
      → w.calls ≤ w'.calls
      → ((h : Held)
          → o ≡ some h
          → services.now w'.calls < h.deadline
          → services.now w.calls < h.deadline
          → w.redis h.key ≡ some (cell_of h)
          → w'.redis h.key ≡ some (cell_of h))
      → IsSound w o
      → IsSound w' o
  IsSound-later w w' none steady later keeps sound = tt
  IsSound-later w w' (some h) steady later keeps ((n, (below, made)), kept) = (
    (n, (omega (arith, below, later), made)),
    λ ahead.
        let before : services.now w.calls < h.deadline =
          omega (arith, ahead, steady w.calls w'.calls later) in
        keeps h refl ahead before (kept before),
  )

  IsApart-sym : (a b : Option Held) → IsApart a b → IsApart b a
  IsApart-sym none none h = tt
  IsApart-sym none (some b) h = tt
  IsApart-sym (some a) none h = tt
  IsApart-sym (some a) (some b) h = λ e. h (sym e)

  change_all :
      (P : Option Held → Type 0) (f : ℕ → Option Held) (i : ℕ) (a : Option Held)
      → P a
      → ((j : ℕ) → i ≢ j → P (f j))
      → (j : ℕ) → P (change f i a j)
  change_all P f i a here there j = elim (ℕ_discrete i j) as (λ d. P (ite d a (f j))) [
    | yes e ↦ here
    | no n ↦ there j n
  ]

  change-IsApart :
      (f : ℕ → Option Held) (i : ℕ) (a : Option Held)
      → ((j k : ℕ) → j ≢ k → IsApart (f j) (f k))
      → ((j : ℕ) → i ≢ j → IsApart a (f j))
      → (j k : ℕ) → j ≢ k
      → IsApart (change f i a j) (change f i a k)
  change-IsApart f i a old new j k apart =
      elim (ℕ_discrete i j) as (λ d. IsApart (ite d a (f j)) (change f i a k)) [
        | yes e ↦ elim (ℕ_discrete i k) as (λ d. IsApart a (ite d a (f k))) [
          | yes e' ↦ absurd (apart (sym e ∙ e'))
          | no n ↦ new k n
        ]
        | no n ↦ elim (ℕ_discrete i k) as (λ d. IsApart (f j) (ite d a (f k))) [
          | yes e' ↦ IsApart-sym a (f j) (new j n)
          | no n' ↦ old j k apart
        ]
      ]

  module _ (steady : (m n : ℕ) → m ≤ n → services.now m ≤ services.now n) where
    -- The caller `i` now holds `a`, and the other locks still stand.
    IsValid-change :
        (s : State) (w : World) (i : ℕ) (a : Option Held)
        → IsValid s
        → w.services ≡ s.world.services
        → s.world.calls ≤ w.calls
        → IsSound w a
        → ((j : ℕ) → i ≢ j → IsApart a (s.holds j))
        → ((j : ℕ) (h : Held)
            → i ≢ j
            → s.holds j ≡ some h
            → services.now w.calls < h.deadline
            → services.now s.world.calls < h.deadline
            → s.world.redis h.key ≡ some (cell_of h)
            → w.redis h.key ≡ some (cell_of h))
        → IsValid (record { world = w; holds = change s.holds i a })
    IsValid-change s w i a valid same later sound apart keeps = record {
      same = same ∙ valid.same;
      sound = change_all (IsSound w) s.holds i a sound (λ j n.
          IsSound-later s.world w (s.holds j) steady later (λ h. keeps j h n) (valid.sound j));
      apart = change-IsApart s.holds i a valid.apart apart;
    }

    module _ (fresh : (m n : ℕ) → services.uuid m ≡ services.uuid n → m ≡ n) where
      -- A token that is made now differs from the earlier ones.
      new-IsApart :
          (w : World) (h : Held) (o : Option Held)
          → h.token ≡ services.uuid w.calls
          → IsSound w o
          → IsApart (some h) o
      new-IsApart w h none made sound = tt
      new-IsApart w h (some g) made ((n, (below, issued)), kept) =
          λ e. let same = fresh w.calls n (sym made ∙ e ∙ issued) in omega (arith, same, below)

      IsValid-takes :
          (s : State) (connected : Bool) (i : ℕ) (key : Key) (ttl : ℕ)
          → IsValid s
          → IsValid (took s i key ttl (acquire connected key ttl s.world))
      unfolding acquire
      IsValid-takes s false i key ttl valid =
          IsValid-change s s.world i none valid refl (omega arith) tt (λ j n. tt)
            (λ j h n e ahead before here. here)
      IsValid-takes s true i key ttl valid =
          acquire_connected_rule (λ o. IsValid (took s i key ttl o)) s.world key ttl
            (λ _. unchanged) (λ _. unchanged) (λ _ free. written none free tt (λ j n. tt))
            (λ free.
              written (some taken) free
                (
                  (s.world.calls, (omega arith, ap (λ v. v.uuid s.world.calls) valid.same)),
                  λ ahead.
                      set-effective (s.world.services.now (suc s.world.calls)) key (text token) ttl
                        s.world.redis,
                )
                (λ j n.
                  new-IsApart s.world taken (s.holds j) (ap (λ v. v.uuid s.world.calls) valid.same)
                    (valid.sound j)))
        where
          token : String
          token = s.world.services.uuid s.world.calls

          taken : Held
          taken = record {
            key = key;
            token = token;
            deadline = s.world.services.now (suc s.world.calls) + effective ttl;
          }

          unchanged :
              IsValid (record { world = tick (tick s.world); holds = change s.holds i none })
          unchanged =
              IsValid-change s (tick (tick s.world)) i none valid refl (omega arith) tt (λ j n. tt)
                (λ j h n e ahead before here. here)

          after : World
          after = record (tick (tick s.world)) { redis = lock_cells s.world key ttl }

          ahead_now :
              (h : Held)
              → services.now after.calls < h.deadline
              → s.world.services.now (suc s.world.calls) < h.deadline
          ahead_now h ahead =
              let same = ap (λ v. v.now (suc s.world.calls)) valid.same in
              omega (arith, ahead, same, steady (suc s.world.calls) after.calls (omega arith))

          standing :
              (h : Held)
              → IsFree s.world key
              → s.world.redis h.key ≡ some (cell_of h)
              → services.now after.calls < h.deadline
              → key ≢ h.key
          standing h free here ahead e =
              let read =
                get_ahead (s.world.services.now (suc s.world.calls)) key s.world.redis
                  (ap s.world.redis e ∙ here) (ahead_now h ahead) in
              cc

          written :
              (a : Option Held)
              → IsFree s.world key
              → IsSound after a
              → ((j : ℕ) → i ≢ j → IsApart a (s.holds j))
              → IsValid (record { world = after; holds = change s.holds i a })
          written a free sound apart =
              IsValid-change s after i a valid refl (omega arith) sound apart
                (λ j h n e ahead before here.
                  set_other (s.world.services.now (suc s.world.calls)) key h.key (text token)
                    (effective ttl) s.world.redis (standing h free here ahead)
                  ∙ here)

      IsValid-gives :
          (s : State) (connected : Bool) (i : ℕ) (h : Held)
          → s.holds i ≡ some h
          → IsValid s
          → IsValid (gave s i (release connected h.key h.token s.world))
      IsValid-gives s connected i h own valid =
          release_rule (λ o. IsValid (gave s i o)) connected h.key h.token s.world
            (IsValid-change s s.world i none valid refl (omega arith) tt (λ j n. tt)
              (λ j g n e ahead before here. here))
            (given s.world.redis (λ j g n e before here. here)) (λ r. given deleted kept)
        where
          deleted : Cells
          deleted = del_if (s.world.services.now s.world.calls) h.key h.token s.world.redis

          given :
              (cells : Cells)
              → ((j : ℕ) (g : Held)
                  → i ≢ j
                  → s.holds j ≡ some g
                  → services.now s.world.calls < g.deadline
                  → s.world.redis g.key ≡ some (cell_of g)
                  → cells g.key ≡ some (cell_of g))
              → IsValid (record {
                world = record (tick s.world) { redis = cells };
                holds = change s.holds i none;
              })
          given cells keeps =
              IsValid-change s (record (tick s.world) { redis = cells }) i none valid refl
                (omega arith) tt (λ j n. tt)
                (λ j g n e ahead before here. keeps j g n e before here)

          kept :
              (j : ℕ) (g : Held)
              → i ≢ j
              → s.holds j ≡ some g
              → services.now s.world.calls < g.deadline
              → s.world.redis g.key ≡ some (cell_of g)
              → deleted g.key ≡ some (cell_of g)
          kept j g n e before here =
              del_if-other (s.world.services.now s.world.calls) h.key g.key g.token h.token
                s.world.redis here (rw (valid.same) before)
                (λ same.
                  subst (λ o. IsApart (some h) o) e
                    (subst (λ o. IsApart o (s.holds j)) own (valid.apart i j n)) (sym same))
              ∙ here

      IsValid-Step : {s t : State} → Step s t → IsValid s → IsValid t
      IsValid-Step (takes s connected i key ttl idle) valid =
          IsValid-takes s connected i key ttl valid
      IsValid-Step (gives s connected i h own) valid = IsValid-gives s connected i h own valid
      IsValid-Step (others s w same later keeps) valid = record {
        same = same ∙ valid.same;
        sound = λ i.
            IsSound-later s.world w (s.holds i) steady later
              (λ h e ahead before here. keeps i h e ∙ here) (valid.sound i);
        apart = valid.apart;
      }

      IsValid-Reach : {s t : State} → Reach s t → IsValid s → IsValid t
      IsValid-Reach (stay s) valid = valid
      IsValid-Reach (next r step) valid = IsValid-Step step (IsValid-Reach r valid)

-- Whatever the callers do from a state in which nobody holds a lock, and however the calls of Redis end,
-- two callers do not hold the same lock while both of their deadlines are ahead. The clock does not go
-- back, and the identifiers that the locker makes differ.
pub one_holder :
    (services : Services)
    → ((m n : ℕ) → m ≤ n → services.now m ≤ services.now n)
    → ((m n : ℕ) → services.uuid m ≡ services.uuid n → m ≡ n)
    → (s t : State) → s.world.services ≡ services
    → ((i : ℕ) → s.holds i ≡ none)
    → Reach s t
    → (i j : ℕ) (h g : Held) → i ≢ j
    → t.holds i ≡ some h
    → t.holds j ≡ some g
    → h.key ≡ g.key
    → services.now t.world.calls < h.deadline
    → ¬ (services.now t.world.calls < g.deadline)
one_holder services steady fresh s t same idle path i j h g apart own other one before before' =
    let valid = IsValid-Reach services steady fresh path start in
    let here : t.world.redis h.key ≡ some (cell_of services h) =
      (subst (IsSound services t.world) own (valid.sound i)).1 before in
    let there : t.world.redis g.key ≡ some (cell_of services g) =
      (subst (IsSound services t.world) other (valid.sound j)).1 before' in
    let differ =
      subst (λ o. IsApart services (some h) o) other
        (subst (λ o. IsApart services o (t.holds j)) own (valid.apart i j apart)) in
    differ (same_token (sym here ∙ ap t.world.redis one ∙ there))
  where
    token_of : Option Cell → String
    token_of none = ""
    token_of (some c) = elim c.value [ text s ↦ s | number n ↦ "" | page b ↦ "" | stored r ↦ "" ]

    same_token : some (cell_of services h) ≡ some (cell_of services g) → h.token ≡ g.token
    same_token e = ap token_of e

    start : IsValid services s
    start = record {
      same = same;
      sound = λ k. subst (IsSound services s.world) (sym (idle k)) tt;
      apart = λ k l n. subst (λ o. IsApart services o (s.holds l)) (sym (idle k)) tt;
    }
