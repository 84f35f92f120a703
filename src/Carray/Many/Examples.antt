-- ===== src/Carray/Many/Examples.antt =====
-- Runs of the methods on several items of the array of container/carray, and their theorems at
-- concrete arrays.
use modern_go.Base.Int.{pos, negsuc}
use modern_go.Base.Outcome.{ok, panic, bad_argument, Returns}
use modern_go.Base.{ℕ, ◌*◌, ◌≡◌, refl, arith, [], ◌∷◌, some, true, drop, take}
use modern_go.Carray.{
  Array, at, slice, intn, do_remove_without_lock, push_left, push_right, pop_rand,
}
use modern_go.Carray.Many.{
  replace_loop, replace, pop_lefts, pop_rights, offset_end, range, pop_rands_loop, pop_rands,
  rands_loop, rands,
}
use modern_go.Carray.Many.Batch.{range_lem, range-panics}
use modern_go.Carray.Many.Draws.{TakenMany, pop_rands-TakenMany}

program : Unit {0}
unfolding at slice intn do_remove_without_lock push_left push_right pop_rand replace_loop replace
    pop_lefts pop_rights offset_end range pop_rands_loop pop_rands rands_loop rands
program = tt

abbrev sample : Array ℕ
sample = record { safe = true; array = 1 ∷ 2 ∷ 3 ∷ 4 ∷ [] }

-- A negative end selects nothing: it does not count from the end of the array.
range_negative_end : range sample (pos 1) (negsuc 0 ∷ []) ≡ ok []
unfolding program
range_negative_end = refl

pop_rands_run :
    pop_rands (λ i. 7 * i) sample (pos 3)
    ≡ ok (some 1 ∷ some 3 ∷ some 2 ∷ [], record sample { array = 4 ∷ [] })
unfolding program
pop_rands_run = refl

range_lem_example :
    (range sample (pos 1) [] ≡ ok (2 ∷ 3 ∷ 4 ∷ []))
    × ((end : ℕ) → range sample (pos 1) (pos end ∷ []) ≡ ok (drop 1 (take end sample.array)))
    × ((n : ℕ) → range sample (pos 1) (negsuc n ∷ []) ≡ ok [])
range_lem_example = range_lem sample 1 []

range-panics_example : range sample (negsuc 4) (negsuc 2 ∷ []) ≡ panic bad_argument
range-panics_example = range-panics sample 4 2 [] (omega arith)

pop_rands-TakenMany_example : Returns (pop_rands (λ i. i) sample (pos 9)) (TakenMany sample 4)
pop_rands-TakenMany_example = pop_rands-TakenMany (λ i. i) sample (pos 9)
