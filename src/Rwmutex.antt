-- ===== src/Rwmutex.antt =====
-- internal/rwmutex/rwmutex.go: a mutex with a switch, and the goroutines that hold it. sync.RWMutex
-- is its state: whether a writer holds it, and how many readers do. A call on it returns, waits, or
-- is a fatal error of an unlock without a lock.
pub mod Exclusion
mod Examples
use modern_go.Base.{
  ℕ, zero, suc, List, [], ◌∷◌, Option, none, some, Bool, true, false, ◌||◌, ltb, if◌then◌else◌,
}

pub record Lock : Type 0 where
  pub writer : Bool
  pub readers : ℕ

-- The embedded pointer, none for nil.
pub record RwMutex : Type 0 where
  pub rw_mutex : Option Lock

pub data Called : Type 0 where
  returned : RwMutex → Called
  waits fatal : Called

pub new : List Bool → RwMutex
new [] = record { rw_mutex = none }
new (safe ∷ rest) = record {
  rw_mutex = if safe then some (record { writer = false; readers = 0 }) else none;
}

pub is_safe : RwMutex → Bool
is_safe mu = elim mu.rw_mutex [ none ↦ false | some s ↦ true ]

pub lock : RwMutex → Called
lock mu = elim mu.rw_mutex [
  | none ↦ returned mu
  | some s ↦
      if s.writer || ltb 0 s.readers
      then waits
      else returned (record mu { rw_mutex = some (record s { writer = true }) })
]

pub unlock : RwMutex → Called
unlock mu = elim mu.rw_mutex [
  | none ↦ returned mu
  | some s ↦
      if s.writer
      then returned (record mu { rw_mutex = some (record s { writer = false }) })
      else fatal
]

pub r_lock : RwMutex → Called
r_lock mu = elim mu.rw_mutex [
  | none ↦ returned mu
  | some s ↦
      if s.writer
      then waits
      else returned (record mu { rw_mutex = some (record s { readers = suc s.readers }) })
]

pub r_unlock : RwMutex → Called
r_unlock mu = elim mu.rw_mutex [
  | none ↦ returned mu
  | some s ↦ elim s.readers [
    | zero ↦ fatal
    | suc n ↦ returned (record mu { rw_mutex = some (record s { readers = n }) })
  ]
]
