-- ===== src/Gls/Lifecycle/Finalized.antt =====
-- finalize of gls/lifecycle.go: a goroutine whose labels are collected is registered again or its
-- exit runs.
use modern_go.Base.Dict.{Dict}
use modern_go.Base.Outcome.{ok, Returns}
use modern_go.Base.{
  ℕ, ◌<◌, ◌≡◌, ◌≢◌, refl, List, Option, none, some, Bool, false, inl, inr, if◌then◌else◌,
}
use modern_go.Gls.{Pointer, GlsData, Env, World, reset_at_exit}
use modern_go.Gls.Store.{home, view, IsValid}
use modern_go.Gls.AtExit.{Event, IsTraced, Exited, reset_at_exit-Exited}
use modern_go.Gls.Lifecycle.{Routine, register_finalizer, release, finalize}
use modern_go.Gls.Lifecycle.Looked.{IsOver, IsAlive, reads, last_elsewhere, is_over-cases}
use modern_go.Gls.Lifecycle.Registered.{Labelled}
use modern_go.Gls.Lifecycle.Elsewhere.{
  Attempted, gone, taken, labelled, register_finalizer-Attempted,
}

module _ {S : Type 0} (equal : Discrete S) (key : S) (itoa : ℕ → S) where
  module _ {K H : Type 0} (env : Env K H) (trace : H → List Event)
      (traced : IsTraced env trace) where
    -- What the end of its labels leads to for a goroutine with data `d`, `l` being the labels that
    -- are looked at last.
    pub data Settled (w : World K H) (gp : Pointer) (d : GlsData K) (g : Routine S)
        (l : Option (Dict S S)) : Routine S × World K H → Type 0 where
      over :
          {w' : World K H}
          → IsOver g
          → Exited env trace traced w gp d w'
          → Settled w gp d g l (g, w')
      lost :
          {w' : World K H}
          → IsAlive g
          → l ≡ none
          → Exited env trace traced w gp d w'
          → Settled w gp d g l (record g { labels = l }, w')
      replaced :
          {w' : World K H} (old : S)
          → IsAlive g
          → reads equal key l key ≡ some old
          → old ≢ itoa g.id_first
          → Exited env trace traced w gp d w'
          → Settled w gp d g l (record g { labels = l }, w')
      lives_on :
          {r : Routine S}
          → IsAlive g
          → l ≢ none
          → ((old : S) → reads equal key l key ≡ some old → old ≡ itoa g.id_first)
          → Labelled equal key itoa g l r
          → Settled w gp d g l (r, w)

    module _ (w : World K H) (gp : Pointer) (d : GlsData K) (g : Routine S) (l : Option (Dict S S))
        (w' : World K H) (alive : IsAlive g)
        (ran : reset_at_exit env (some (home env gp)) gp w ≡ ok w')
        (exit : Exited env trace traced w gp d w') where
      attempted-Settled :
          (x : Bool × Routine S)
          → Attempted equal key itoa g l x
          → Returns
              (if x.0
                then ok (x.1, w)
                else release equal key itoa env (some (home env gp)) gp x.1 w)
              (Settled w gp d g l)
      unfolding release
      attempted-Settled _ (gone e) = (_, rw (release, ran) refl, Settled.lost alive e exit)
      attempted-Settled _ (taken old there other) =
          (_, rw (release, ran) refl, Settled.replaced old alive there other exit)
      attempted-Settled _ (labelled some_there own marked) =
          (_, refl, Settled.lives_on alive some_there own marked)

    -- If the labels of a goroutine that has data are collected, then its exit runs if the goroutine
    -- is over: dead, its memory in use by another id, or its labels nil. If it is not over, what
    -- counts are the labels that are looked at last, the first ones that are nil or have an id, or
    -- those after the last exchange that failed: for nil or another id the exit runs; else the
    -- goroutine lives on with the store as it was, and with its id in its labels, with a new
    -- finalizer if they had no id. The functions and Close methods are to keep to their own state
    -- and leave a mark there.
    pub finalize-Settled :
        (w : World K H) (gp : Pointer) (d : GlsData K) (g : Routine S)
        (others : List (Option (Dict S S)))
        → IsValid env w
        → 0 < gp
        → view env w gp ≡ some d
        → Returns
            (finalize equal key itoa env (some (home env gp)) gp others g w)
            (Settled w gp d g (last_elsewhere equal key g.labels others))
    unfolding finalize release
    finalize-Settled w gp d g others valid positive has =
        let (w', ran, exit) = reset_at_exit-Exited env trace traced w gp d valid positive has in
        elim (is_over-cases equal key itoa g) [
          | inl (is, e) ↦ ((g, w'), rw (finalize, e, release, ran) refl, Settled.over is exit)
          | inr (alive, e) ↦
              rw (finalize, e)
                (attempted-Settled w gp d g (last_elsewhere equal key g.labels others) w' alive ran
                  exit (register_finalizer equal key itoa others false g)
                  (register_finalizer-Attempted equal key itoa g alive.not_dead alive.same others))
        ]
