-- ===== src/Carray/Memory/Examples.antt =====
-- An array of four items in a block with room for a fifth.
use modern_go.Base.Int.{pos}
use modern_go.Base.{ℕ, ◌≡◌, arith, [], ◌∷◌, ◌++◌, some, true, drop}
use modern_go.Carray.Memory.{
  Slice, SharedArray, Memory, items, shared_push_right, shared_pop_lefts, shared_pop_rights,
}
use modern_go.Carray.Memory.Appended.{IsValid}
use modern_go.Carray.Memory.Popped.{pop_rights-overwritten, pop_lefts-kept}

abbrev memory : Memory ℕ
memory = (1 ∷ 2 ∷ 3 ∷ 4 ∷ 0 ∷ []) ∷ []

abbrev four : SharedArray
four = record { safe = true; array = record { block = 0; offset = 0; len = 4; cap = 5 } }

four-IsValid : IsValid memory four.array
four-IsValid = record { in_memory = omega arith; in_block = omega arith; in_cap = omega arith }

abbrev double : ℕ → ℕ
double n = n

pop_rights-overwritten_example :
    (popped : Slice) × (rest : SharedArray) × (shared_pop_rights four (pos 2) ≡ (some popped, rest))
    × (items (shared_push_right double 0 memory rest (9 ∷ [])).0 popped
        ≡ (9 ∷ []) ++ drop 1 (items memory popped))
    × (items
          (shared_push_right double 0 memory rest (9 ∷ [])).0
          (shared_push_right double 0 memory rest (9 ∷ [])).1.array
        ≡ items memory rest.array ++ 9 ∷ [])
pop_rights-overwritten_example =
    pop_rights-overwritten double 0 memory four 2 (9 ∷ []) four-IsValid (omega arith) (omega arith)
      (omega arith) (omega arith)

pop_lefts-kept_example :
    (popped : Slice) × (rest : SharedArray) × (shared_pop_lefts four (pos 3) ≡ (some popped, rest))
    × (items memory popped ++ items memory rest.array ≡ items memory four.array)
    × (items (shared_push_right double 0 memory rest (8 ∷ 9 ∷ [])).0 popped ≡ items memory popped)
    × (items
          (shared_push_right double 0 memory rest (8 ∷ 9 ∷ [])).0
          (shared_push_right double 0 memory rest (8 ∷ 9 ∷ [])).1.array
        ≡ items memory rest.array ++ (8 ∷ 9 ∷ []))
pop_lefts-kept_example =
    pop_lefts-kept double 0 memory four 3 (8 ∷ 9 ∷ []) four-IsValid (omega arith) (omega arith)
