-- ===== src/Gls/Methods/Runs.antt =====
-- gls/gls.go: sequences of calls in any goroutines.
use mathlib.Core.Path.{fun_ext, ap₂}
use modern_go.Base.Outcome.{Outcome, ok, ◌>>=◌, Returns}
use modern_go.Base.{◌<◌, ◌≡◌, refl, List, [], ◌∷◌, Option}
use modern_go.Gls.{Pointer, GlsData, Env, World}
use modern_go.Gls.Store.{view, Models, IsValid}
use modern_go.Gls.Methods.Single.{
  Call, set_call, get_call, del_call, at_exit_call, enabled_call, reset_call, unload_call, Reply,
  IsTame, Refines, run, spec,
}
use modern_go.Gls.Methods.Access.{
  set-Refines, get-Refines, del-Refines, at_exit-Refines, enabled-Refines,
}
use modern_go.Gls.Methods.Release.{reset-Refines, unload-Refines}

-- Every call is made in a goroutine, which is not nil.
abbrev pub Running : {K : Type 0} → List (Pointer × Call K) → Type 0
Running [] = Unit
Running ((gp, c) ∷ cs) = (0 < gp) × Running cs

module _ {K H : Type 0} (env : Env K H) (tame : IsTame env) where
  -- A call in a goroutine of a well-formed store does not panic; it answers as the function from
  -- goroutines to their data does, and leaves a store that stands for the function's next state.
  run-Refines :
      (w : World K H) (gp : Pointer) (c : Call K)
      → IsValid env w
      → 0 < gp
      → Returns (run env gp c w) (Refines env (view env w) gp c)
  run-Refines w gp (set_call k v) valid positive = set-Refines env tame w gp valid positive k v
  run-Refines w gp (get_call k) valid positive = get-Refines env tame w gp valid positive k
  run-Refines w gp (del_call k) valid positive = del-Refines env tame w gp valid positive k
  run-Refines w gp (at_exit_call g) valid positive = at_exit-Refines env tame w gp valid positive g
  run-Refines w gp enabled_call valid positive = enabled-Refines env tame w gp valid positive
  run-Refines w gp reset_call valid positive = reset-Refines env tame w gp valid positive
  run-Refines w gp unload_call valid positive = unload-Refines env tame w gp valid positive

module _ {K H : Type 0} (env : Env K H) where
  unfoldable pub run_all : List (Pointer × Call K) → World K H → Outcome (List Reply × World K H)
  run_all [] w = ok ([], w)
  run_all ((gp, c) ∷ cs) w = do
    (reply, w') ← run env gp c w
    (replies, last) ← run_all cs w'
    ok (reply ∷ replies, last)

  unfoldable pub spec_all :
      (Pointer → Option (GlsData K))
      → List (Pointer × Call K)
      → List Reply × (Pointer → Option (GlsData K))
  spec_all f [] = ([], f)
  spec_all f ((gp, c) ∷ cs) =
      let (r, f') = spec env f gp c in let (rs, last) = spec_all f' cs in (r ∷ rs, last)

  pub record RefinesAll (f : Pointer → Option (GlsData K)) (cs : List (Pointer × Call K))
      (r : List Reply × World K H) : Type 0 where
    pub replies : r.0 ≡ (spec_all f cs).0
    pub state : Models env (spec_all f cs).1 r.1

  -- A sequence of calls of Set, Get, Del, AtExit, IsGlsEnabled, Reset and Unload in any goroutines
  -- does not panic, and has the replies and the final state of the same sequence on a function from
  -- goroutines to their data, from any store that stands for such a function, if every goroutine
  -- can be hacked and no Close method touches the store.
  pub run_all-RefinesAll_gls :
      (cs : List (Pointer × Call K)) (f : Pointer → Option (GlsData K)) (w : World K H)
      → IsTame env
      → Running cs
      → Models env f w
      → Returns (run_all cs w) (RefinesAll f cs)
  unfolding run_all spec_all
  run_all-RefinesAll_gls [] f w tame running h =
      (([], w), refl, record { replies = refl; state = h })
  run_all-RefinesAll_gls ((gp, c) ∷ cs) f w tame running h =
      let same : view env w ≡ f = fun_ext h.reads in
      let (r, ran, one) = run-Refines env tame w gp c h.valid running.0 in
      let (rs, rans, rest) =
        run_all-RefinesAll_gls cs (spec env f gp c).1 r.1 tame running.1 (rw same at one.state) in
      (
        (r.0 ∷ rs.0, rs.1),
        rw (ran, rans),
        record { replies = ap₂ ◌∷◌ (rw same at one.reply) rest.replies; state = rest.state },
      )
