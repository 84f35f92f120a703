-- ===== src/Gls/Lifecycle.antt =====
-- gls/lifecycle.go: the pprof labels of a goroutine as the sign of its life. The labels of the
-- goroutine live in the state, with nil for none. Between the look at the labels and the exchange
-- another party may have put other labels in their place; `others` lists what it puts, attempt by
-- attempt, and at its end nobody interferes. A finalizer that the runtime calls when the labels are
-- collected is the flag that it is set.
pub mod Looked
pub mod Registered
pub mod Elsewhere
pub mod Finalized
use mathlib.Core.Logic.{ite}
use modern_go.Base.Dict
use modern_go.Base.Dict.{Dict}
use modern_go.Base.Outcome.{Outcome, ok, ◌>>=◌}
use modern_go.Gls.{Pointer, Env, World, reset_at_exit}
use modern_go.Base.{
  ℕ, ◌≡◌, refl, List, [], ◌∷◌, Option, none, some, Bool, true, false, not, ◌&&◌, ◌||◌, ◌==◌,
  if◌then◌else◌,
}

pub data GStatus : Type 0 where
  g_idle g_runnable g_running g_syscall g_waiting g_moribund g_dead g_enqueue g_copystack
        g_preempted :
      GStatus

pub is_dead : GStatus → Bool
is_dead g_dead = true
is_dead s = false

-- A goroutine as the runtime shows it: its status, the id at the first look and at the second, and
-- its labels.
pub record Routine (S : Type 0) : Type 0 where
  pub status : GStatus
  pub id_first : ℕ
  pub id_then : ℕ
  pub labels : Option (Dict S S)
  pub finalizer_set : Bool

-- The labels of a copy, where nil has none.
pub copy : {S : Type 0} → Option (Dict S S) → Dict S S
copy none = []
copy (some labels) = labels

module _ {S : Type 0} (equal : Discrete S) (go_labels_key : S) (itoa : ℕ → S) where
  -- `labels[goLabelsKey]`, which a nil map lacks
  pub label_of : Option (Dict S S) → Option S
  label_of none = none
  label_of (some labels) = Dict.lookup equal go_labels_key labels

  -- `routineStatus(gp) == GDead || routineID(gp) != id || labels == nil`
  pub is_over : Routine S → Bool
  is_over g =
      is_dead g.status
      || not (g.id_then == g.id_first)
      || elim g.labels [ none ↦ true | some _ ↦ false ]

  -- One call, up to the exchange of the labels; `exchanged` is what that leads to.
  pub attempt : Bool → Routine S → Bool × Routine S → Bool × Routine S
  attempt in_goroutine g exchanged =
      if not in_goroutine && is_over g then (false, g) else elim (label_of g.labels) [
        | none ↦ exchanged
        | some old_id ↦
            ite (equal old_id (itoa g.id_first)) (true, g)
              (if not in_goroutine then (false, g) else exchanged)
      ]

  -- The exchange succeeds when nobody interferes; after one that failed the function calls itself.
  pub register_finalizer : List (Option (Dict S S)) → Bool → Routine S → Bool × Routine S
  register_finalizer [] in_goroutine g =
      let n_labels = Dict.insert equal go_labels_key (itoa g.id_first) (copy g.labels) in
      attempt in_goroutine g (true, record g { labels = some n_labels; finalizer_set = true })
  register_finalizer (other ∷ others) in_goroutine g =
      attempt in_goroutine g (register_finalizer others in_goroutine (record g { labels = other }))

  module _ {K H : Type 0} (env : Env K H) (se : Option ℕ) (gp : Pointer) where
    pub release : Routine S → World K H → Outcome (Routine S × World K H)
    release g w = do w' ← reset_at_exit env se gp w; ok (g, w')

    -- The goroutine that is started to register again runs at once.
    pub finalize :
        List (Option (Dict S S)) → Routine S → World K H → Outcome (Routine S × World K H)
    finalize others g w =
        let (registered, g') = register_finalizer others false g in
        if is_over g then release g w else if registered then ok (g', w) else release g' w
