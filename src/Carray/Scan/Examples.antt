-- ===== src/Carray/Scan/Examples.antt =====
-- Runs of the methods that walk over the array of container/carray, and their theorems at concrete
-- arrays.
use modern_go.Base.Dict
use modern_go.Base.Outcome.{ok, Returns}
use modern_go.Base.{
  ℕ, ◌≡◌, refl, [], ◌∷◌, some, true, false, min, ltb, ℕ_discrete, length, get_elem?,
}
use modern_go.Base.Int.{pos}
use modern_go.Carray.{Array, at, push_left, push_right}
use modern_go.Carray.Scan.{
  swap, reverse_loop, reverse, shuffle_loop, shuffle, asc_from, iterator_asc, desc_from,
  iterator_desc, search_from, search, found, contains, remove_value, remove_value_among,
  unique_inner, unique_outer, unique, count_values_loop, count_values,
}
use modern_go.Carray.Scan.Raced.{remove_value-push_right, remove_value-push_left}
use modern_go.Carray.Scan.Dedup.{dedup, unique-dedup}

program : Unit {0}
unfolding at swap reverse_loop reverse shuffle_loop shuffle asc_from iterator_asc desc_from
    iterator_desc search_from search found contains remove_value unique_inner unique_outer unique
    count_values_loop count_values Dict.lookup Dict.insert ℕ_discrete
program = tt

abbrev sample : Array ℕ
sample = record { safe = false; array = 1 ∷ 1 ∷ 2 ∷ 3 ∷ 2 ∷ [] }

-- The example in the comment of `Unique`.
unique_run : unique ℕ_discrete sample ≡ ok (record sample { array = 1 ∷ 2 ∷ 3 ∷ [] })
unfolding program
unique_run = refl

iterators_run :
    (iterator_asc (λ k v. ltb v 2) sample ≡ (0, 1) ∷ (1, 1) ∷ (2, 2) ∷ [])
    × (iterator_desc (λ k v. ltb v 3) sample ≡ ok ((4, 2) ∷ (3, 3) ∷ []))
unfolding program
iterators_run = (refl, refl)

unique-dedup_example : Returns (unique ℕ_discrete sample) λ b.
    (b.array ≡ dedup ℕ_discrete (1 ∷ 1 ∷ 2 ∷ 3 ∷ 2 ∷ []))
    × ((q : ℕ)
        → Dict.occurs ℕ_discrete q b.array
          ≡ min 1 (Dict.occurs ℕ_discrete q (1 ∷ 1 ∷ 2 ∷ 3 ∷ 2 ∷ [])))
unique-dedup_example = unique-dedup ℕ_discrete sample

remove_value-push_right_example :
    remove_value_among ℕ_discrete (λ b. push_right b (7 ∷ [])) sample 2 ≡ (
      (remove_value ℕ_discrete sample 2).0,
      push_right (remove_value ℕ_discrete sample 2).1 (7 ∷ []),
    )
remove_value-push_right_example = remove_value-push_right ℕ_discrete sample 2 (7 ∷ [])

three_found : search ℕ_discrete sample 3 ≡ pos 3
unfolding program
three_found = refl

remove_value-push_left_example :
    let r = remove_value_among ℕ_discrete (λ b. push_left b (9 ∷ [])) sample 3 in
    (r.0 ≡ true)
    × (r.1.array ≡ 9 ∷ 1 ∷ 1 ∷ 3 ∷ 2 ∷ [])
    × (get_elem? r.1.array 3 ≡ some 3)
    × (length r.1.array ≡ 5)
remove_value-push_left_example = remove_value-push_left ℕ_discrete sample 3 9 3 three_found
