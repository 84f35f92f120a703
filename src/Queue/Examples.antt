-- ===== src/Queue/Examples.antt =====
-- Runs of container/queue/queue.go on small queues.
use modern_go.Base.Outcome.{Returns}
use modern_go.Base.{ℕ, ◌≡◌, refl, [], ◌∷◌, ◌++◌, some}
use modern_go.Linked
use modern_go.Linked.{Element}
use modern_go.Queue.{Queue, new_queue, push, remove, move_back}
use modern_go.Queue.Fifo.{view, run_all, spec_all, run_all-fifo, push_call, pop_call, length_call}
use modern_go.Queue.Handles.{Reachable, created, pushed, remove-move_back}

abbrev two_items : Queue ℕ
two_items = (push (push new_queue 7).1 8).1

two_items-Reachable : Reachable two_items
two_items-Reachable = pushed 8 (pushed 7 created)

run_all-fifo_example :
    ((run_all two_items (pop_call ∷ push_call 9 ∷ pop_call ∷ length_call ∷ [])).0
      ≡ (spec_all (view two_items) (pop_call ∷ push_call 9 ∷ pop_call ∷ length_call ∷ [])).0)
    × (view (run_all two_items (pop_call ∷ push_call 9 ∷ pop_call ∷ length_call ∷ [])).1
        ≡ (spec_all (view two_items) (pop_call ∷ push_call 9 ∷ pop_call ∷ length_call ∷ [])).1)
run_all-fifo_example = run_all-fifo (pop_call ∷ push_call 9 ∷ pop_call ∷ length_call ∷ []) two_items

abbrev seven : Element ℕ
seven = record { address = 0; value = 7 }

abbrev eight : Element ℕ
eight = record { address = 1; value = 8 }

held : two_items.list.elements ≡ [] ++ seven ∷ eight ∷ []
unfolding new_queue push Linked.new Linked.push_back
held = refl

remove-move_back_example :
    ((remove two_items (some 0)).list.elements ≡ eight ∷ [])
    × Returns (move_back two_items (some 0)) (λ r. r.list.elements ≡ eight ∷ seven ∷ [])
remove-move_back_example = remove-move_back two_items [] (eight ∷ []) seven two_items-Reachable held
