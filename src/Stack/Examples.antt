-- ===== src/Stack/Examples.antt =====
-- A run of container/stack/stack.go.
use modern_go.Base.{ℕ, ◌≡◌, List, [], ◌∷◌}
use modern_go.Stack.{new_stack}
use modern_go.Stack.Lifo.{
  Call, view, run_all, spec_all, run_all-lifo, push_call, pop_call, length_call,
}

abbrev calls : List (Call ℕ)
calls = push_call 1 ∷ push_call 2 ∷ pop_call ∷ length_call ∷ pop_call ∷ pop_call ∷ []

run_all-lifo_example :
    ((run_all new_stack calls).0 ≡ (spec_all [] calls).0)
    × (view (run_all new_stack calls).1 ≡ (spec_all [] calls).1)
run_all-lifo_example = run_all-lifo calls
