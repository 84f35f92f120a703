-- ===== src/Rwmutex/Exclusion.antt =====
-- internal/rwmutex/rwmutex.go: what the lock keeps apart.
use modern_go.Base.{ℕ, ◌-◌, ◌<◌, suc, ◌≤◌, ◌≡◌, refl, arith, List, [], ◌∷◌, some, Bool, true, false}
use modern_go.Rwmutex.{Lock, RwMutex, returned, new, is_safe, lock, unlock, r_lock, r_unlock}

-- The mutex, and how many goroutines are between Lock and Unlock and between RLock and RUnlock.
pub record Config : Type 0 where
  pub mutex : RwMutex
  pub writing : ℕ
  pub reading : ℕ

-- One goroutine goes one step: it passes a call that returns.
pub data Step : Config → Config → Type 0 where
  locks :
      {mu mu' : RwMutex} {w r : ℕ}
      → lock mu ≡ returned mu'
      → Step
          (record { mutex = mu; writing = w; reading = r })
          (record { mutex = mu'; writing = suc w; reading = r })
  unlocks :
      {mu mu' : RwMutex} {w r : ℕ}
      → unlock mu ≡ returned mu'
      → Step
          (record { mutex = mu; writing = suc w; reading = r })
          (record { mutex = mu'; writing = w; reading = r })
  r_locks :
      {mu mu' : RwMutex} {w r : ℕ}
      → r_lock mu ≡ returned mu'
      → Step
          (record { mutex = mu; writing = w; reading = r })
          (record { mutex = mu'; writing = w; reading = suc r })
  r_unlocks :
      {mu mu' : RwMutex} {w r : ℕ}
      → r_unlock mu ≡ returned mu'
      → Step
          (record { mutex = mu; writing = w; reading = suc r })
          (record { mutex = mu'; writing = w; reading = r })

pub data Reachable (safe : List Bool) : Config → Type 0 where
  start : Reachable safe (record { mutex = new safe; writing = 0; reading = 0 })
  step : {c d : Config} → Reachable safe c → Step c d → Reachable safe d

abbrev one_if : Bool → ℕ
one_if true = 1
one_if false = 0

-- The lock's state counts its holders, and a writer is alone.
pub record Holds (c : Config) : Type 0 where
  pub held : Lock
  pub state : c.mutex.rw_mutex ≡ some held
  pub writers : c.writing ≡ one_if held.writer
  pub readers : c.reading ≡ held.readers
  pub alone : held.writer ≡ true → held.readers ≡ 0

Step-Holds : (c d : Config) → Step c d → Holds c → Holds d
unfolding lock unlock r_lock r_unlock
Step-Holds _ _ (Step.locks e) h = record {
  held = record { writer = true; readers = 0 };
  state = ground (arith, e, h.state, h.writers, h.readers);
  writers = ground (arith, e, h.state, h.writers, h.readers);
  readers = ground (arith, e, h.state, h.writers, h.readers);
  alone = λ t. refl;
}
Step-Holds _ _ (Step.unlocks e) h = record {
  held = record { writer = false; readers = h.held.readers };
  state = ground (arith, e, h.state, h.writers, h.readers);
  writers = ground (arith, e, h.state, h.writers, h.readers);
  readers = ground (arith, e, h.state, h.writers, h.readers);
  alone = λ t. ground (arith, t);
}
Step-Holds _ _ (Step.r_locks e) h = record {
  held = record { writer = false; readers = suc h.held.readers };
  state = ground (arith, e, h.state, h.writers, h.readers);
  writers = ground (arith, e, h.state, h.writers, h.readers);
  readers = ground (arith, e, h.state, h.writers, h.readers);
  alone = λ t. ground (arith, t);
}
Step-Holds _ _ (Step.r_unlocks e) h = record {
  held = record { writer = h.held.writer; readers = h.held.readers - 1 };
  state = ground (arith, e, h.state, h.writers, h.readers);
  writers = ground (arith, e, h.state, h.writers, h.readers);
  readers = ground (arith, e, h.state, h.writers, h.readers);
  alone = λ t. omega (arith, h.alone t);
}

Reachable-Holds : (rest : List Bool) (c : Config) → Reachable (true ∷ rest) c → Holds c
unfolding new
Reachable-Holds rest _ Reachable.start = record {
  held = record { writer = false; readers = 0 };
  state = refl;
  writers = refl;
  readers = refl;
  alone = λ t. refl;
}
Reachable-Holds rest d (Reachable.step {c} before s) =
    Step-Holds c d s (Reachable-Holds rest c before)

-- With the switch on, a goroutine that is writing is alone, in every state that can be reached, and
-- no unlock by a goroutine that holds the lock is an error.
pub Reachable-exclusive :
    (rest : List Bool) (c : Config)
    → Reachable (true ∷ rest) c
    → (c.writing ≤ 1)
      × (0 < c.writing → c.reading ≡ 0)
      × (0 < c.writing → ((mu : RwMutex) × (unlock c.mutex ≡ returned mu)))
      × (0 < c.reading → ((mu : RwMutex) × (r_unlock c.mutex ≡ returned mu)))
unfolding unlock r_unlock
Reachable-exclusive rest c reached =
    let h = Reachable-Holds rest c reached in
    (
      ground (arith, h.writers),
      λ some_writer. ground (arith, h.writers, h.alone, h.readers, some_writer),
      λ some_writer. (
        record { rw_mutex = some (record { writer = false; readers = h.held.readers }) },
        ground (arith, h.state, h.writers, some_writer),
      ),
      λ some_reader. (
        record {
          rw_mutex = some (record { writer = h.held.writer; readers = h.held.readers - 1 });
        },
        ground (arith, h.state, h.readers, some_reader),
      ),
    )

-- With the switch off no call waits or fails, and none changes anything.
pub new-unsafe :
    (options : List Bool)
    → is_safe (new options) ≡ false
    → (lock (new options) ≡ returned (new options))
      × (unlock (new options) ≡ returned (new options))
      × (r_lock (new options) ≡ returned (new options))
      × (r_unlock (new options) ≡ returned (new options))
unfolding new is_safe lock unlock r_lock r_unlock
new-unsafe [] h = (refl, refl, refl, refl)
new-unsafe (true ∷ rest) h = ground (arith, h)
new-unsafe (false ∷ rest) h = (refl, refl, refl, refl)
