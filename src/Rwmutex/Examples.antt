-- ===== src/Rwmutex/Examples.antt =====
-- A run of two goroutines on a mutex of internal/rwmutex/rwmutex.go: one writes, then both read.
use modern_go.Base.{◌≤◌, ◌<◌, ◌≡◌, refl, [], ◌∷◌, some, true, false}
use modern_go.Rwmutex.{Lock, RwMutex, returned, new, is_safe, lock, unlock, r_lock, r_unlock}
use modern_go.Rwmutex.Exclusion.{
  Config, Reachable, start, step, locks, unlocks, r_locks, Reachable-exclusive, new-unsafe,
}

abbrev state : Lock → RwMutex
state s = record { rw_mutex = some s }

abbrev two_read : Config
two_read = record {
  mutex = state (record { writer = false; readers = 2 });
  writing = 0;
  reading = 2;
}

two_read-Reachable : Reachable (true ∷ []) two_read
unfolding new lock unlock r_lock
two_read-Reachable =
    step
      (step
        (step (step start (locks {mu' = state (record { writer = true; readers = 0 })} refl))
          (unlocks {mu' = state (record { writer = false; readers = 0 })} refl))
        (r_locks {mu' = state (record { writer = false; readers = 1 })} refl))
      (r_locks refl)

Reachable-exclusive_example :
    (two_read.writing ≤ 1)
    × (0 < two_read.writing → two_read.reading ≡ 0)
    × (0 < two_read.writing → ((mu : RwMutex) × (unlock two_read.mutex ≡ returned mu)))
    × (0 < two_read.reading → ((mu : RwMutex) × (r_unlock two_read.mutex ≡ returned mu)))
Reachable-exclusive_example = Reachable-exclusive [] two_read two_read-Reachable

new-unsafe_example :
    (lock (new []) ≡ returned (new []))
    × (unlock (new []) ≡ returned (new []))
    × (r_lock (new []) ≡ returned (new []))
    × (r_unlock (new []) ≡ returned (new []))
unfolding new is_safe
new-unsafe_example = new-unsafe [] refl
