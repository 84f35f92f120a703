-- ===== src/Gls/Examples.antt =====
-- Runs of gls over a program that keeps a list of what its functions and values did.
use modern_go.Base.Dict
use modern_go.Base.Outcome.{Returns}
use modern_go.Base.{
  ℕ, ◌+◌, ◌≡◌, refl, arith, List, [], ◌∷◌, ◌++◌, Option, some, none, true, false, ℕ_discrete,
}
use modern_go.Gls.{
  Pointer, GlsData, Env, World, new_world, reset_at_exit, new_gls_data, store, get_gls_data,
}
use modern_go.Gls.Store.{
  Models, view, update, address, new_world-Models, new-Models, new-place, store-Models,
}
use modern_go.Gls.Lifecycle.{Routine, g_waiting, register_finalizer, finalize}
use modern_go.Gls.Lifecycle.Registered.{Labelled, register_finalizer-Labelled}
use modern_go.Gls.Lifecycle.Looked.{reads, last_in_goroutine, last_elsewhere}
use modern_go.Gls.Lifecycle.Finalized.{Settled, finalize-Settled}
use modern_go.Gls.AtExit.{Event, ran, closed, IsTraced, Exited, reset_at_exit-Exited}
use modern_go.Gls.Methods.Single.{
  Call, set_call, get_call, at_exit_call, unload_call, enabled_call, IsTame,
}
use modern_go.Gls.Methods.Runs.{run_all, RefinesAll, run_all-RefinesAll_gls, Running}

-- Goroutine `gp` has the id `gp + 5`; every function and Close method panics after leaving its
-- mark.
abbrev env : Env ℕ (List Event)
env = record {
  equal = ℕ_discrete;
  goid = λ gp. gp + 5;
  hack = λ gp h. (true, h);
  unhack = λ gp h. h;
  visit = λ m. m;
  call = λ f w. (record w { host = w.host ++ ran f ∷ [] }, true);
  close = λ d w. (record w { host = w.host ++ closed d ∷ [] }, true);
}

env-IsTame : IsTame env
env-IsTame = record { hacks = λ gp h. refl; slots_kept = λ d w. refl; heap_kept = λ d w. refl }

env-IsTraced : IsTraced env (λ h. h)
env-IsTraced = record {
  call_trace = λ f w. refl;
  call_slots = λ f w. refl;
  call_heap = λ f w. refl;
  close_trace = λ d w. refl;
  close_slots = λ d w. refl;
  close_heap = λ d w. refl;
}

-- Two goroutines of the same slot.
abbrev calls : List (Pointer × Call ℕ)
calls =
    (1, set_call 7 70)
    ∷ (32, set_call 7 71)
    ∷ (1, at_exit_call 3)
    ∷ (1, get_call 7)
    ∷ (32, unload_call)
    ∷ (32, enabled_call)
    ∷ []

calls-Running : Running calls
calls-Running =
    (omega arith, (omega arith, (omega arith, (omega arith, (omega arith, (omega arith, tt))))))

run_all-RefinesAll_gls_example :
    Returns (run_all env calls (new_world [])) (RefinesAll env (λ gp. none) calls)
run_all-RefinesAll_gls_example =
    run_all-RefinesAll_gls env calls (λ gp. none) (new_world []) env-IsTame calls-Running
      (new_world-Models env [])

-- Goroutine 1 with a value and two exit functions.
abbrev data_of_one : GlsData ℕ
data_of_one = record { data_map = (7, 70) ∷ []; at_exit_funcs = 3 ∷ 4 ∷ []; done = false }

abbrev made : World ℕ (List Event)
made = (new_gls_data (new_world []) 6 1).1

abbrev exiting : World ℕ (List Event)
exiting = store made 0 data_of_one

none_yet : address env (new_world []) 1 ≡ none
unfolding new_world get_gls_data Dict.lookup
none_yet = refl

exiting-Models : Models env (update env (view env made) 1 (some data_of_one)) exiting
unfolding new_world new_gls_data get_gls_data
exiting-Models =
    let start = (new_world-Models env []).valid in
    store-Models env made 1 0 data_of_one (new-Models env (new_world []) 1 start none_yet).valid
      (new-place env (new_world []) 1 start [])

reset_at_exit-Exited_example :
    Returns
      (reset_at_exit env (some 6) 1 exiting)
      (Exited env (λ h. h) env-IsTraced exiting 1 data_of_one)
unfolding ℕ_discrete
reset_at_exit-Exited_example =
    reset_at_exit-Exited env (λ h. h) env-IsTraced exiting 1 data_of_one exiting-Models.valid
      (omega arith) (exiting-Models.reads 1)

-- A value whose closer adds its number to a sum, with an error.
abbrev adding : ℕ → ℕ → ℕ × Option ℕ
adding c sum = (sum + c, some 9)

abbrev itself : ℕ → Option ℕ
itself v = some v

-- The label is under key 0 and shows the id itself.
abbrev one : Routine ℕ
one = record {
  status = g_waiting;
  id_first = 6;
  id_then = 6;
  labels = some ((1, 11) ∷ []);
  finalizer_set = false;
}

abbrev others : List (Option (Dict.Dict ℕ ℕ))
others = none ∷ some ((2, 22) ∷ []) ∷ []

register_finalizer-Labelled_example :
    ((register_finalizer ℕ_discrete 0 (λ n. n) others true one).0 ≡ true)
    × Labelled ℕ_discrete 0
        (λ n. n)
        one
        (some ((2, 22) ∷ []))
        (register_finalizer ℕ_discrete 0 (λ n. n) others true one).1
unfolding ℕ_discrete last_in_goroutine reads Dict.lookup
register_finalizer-Labelled_example = register_finalizer-Labelled ℕ_discrete 0 (λ n. n) one others

-- Others put labels in place once, without an id.
finalize-Settled_example :
    Returns (finalize ℕ_discrete 0 (λ n. n) env (some 6) 1 (some ((2, 22) ∷ []) ∷ []) one exiting) (
      Settled ℕ_discrete 0
        (λ n. n)
        env
        (λ h. h)
        env-IsTraced
        exiting
        1
        data_of_one
        one
        (some ((2, 22) ∷ [])))
unfolding ℕ_discrete last_elsewhere Dict.lookup
finalize-Settled_example =
    finalize-Settled ℕ_discrete 0 (λ n. n) env (λ h. h) env-IsTraced exiting 1 data_of_one one
      (some ((2, 22) ∷ []) ∷ []) exiting-Models.valid (omega arith) (exiting-Models.reads 1)
