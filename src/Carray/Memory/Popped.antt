-- ===== src/Carray/Memory/Popped.antt =====
-- What becomes of the slices that PopRights and PopLefts have handed out when PushRight follows.
use modern_go.Base.Int.{pos}
use modern_go.Base.{
  ℕ, ◌+◌, ◌-◌, ◌≤◌, ◌<◌, ◌≡◌, refl, arith, List, ◌++◌, some, true, false, ◌==◌, leb, length, drop,
  drop_sum, take-drop_sum, dec_lt,
}
use modern_go.Carray.Memory.{
  Slice, SharedArray, Memory, from_low, up_to, block_of, items, shared_push_right, shared_pop_lefts,
  shared_pop_rights,
}
use modern_go.Carray.Memory.Appended.{IsValid, go_append-items, go_append-before, go_append-behind}

pop_rights_part :
    (a : SharedArray) (k : ℕ)
    → 0 < k
    → k < a.array.len
    → shared_pop_rights a (pos k) ≡ (
      some (from_low a.array (a.array.len - k)),
      record a { array = up_to a.array (a.array.len - k) },
    )
unfolding shared_pop_rights
pop_rights_part a k some_asked more =
    let asked : leb (k + 0) 0 ≡ false = ground arith in
    let filled : (a.array.len == 0) ≡ false = ground arith in
    let part : leb (a.array.len + 0) (k + 0) ≡ false = ground arith in
    rw (shared_pop_rights, asked, filled, part) refl

pop_rights_all :
    (a : SharedArray) (k : ℕ)
    → 0 < a.array.len
    → a.array.len ≤ k
    → shared_pop_rights a (pos k) ≡ (some a.array, record a { array = up_to a.array 0 })
unfolding shared_pop_rights
pop_rights_all a k some_there enough =
    let asked : leb (k + 0) 0 ≡ false = ground arith in
    let filled : (a.array.len == 0) ≡ false = ground arith in
    let all_of : leb (a.array.len + 0) (k + 0) ≡ true = ground arith in
    rw (shared_pop_rights, asked, filled, all_of) refl

pop_lefts_part :
    (a : SharedArray) (k : ℕ)
    → 0 < k
    → k < a.array.len
    → shared_pop_lefts a (pos k) ≡ (some (up_to a.array k), record a { array = from_low a.array k })
unfolding shared_pop_lefts
pop_lefts_part a k some_asked more =
    let asked : leb (k + 0) 0 ≡ false = ground arith in
    let filled : (a.array.len == 0) ≡ false = ground arith in
    let part : leb (a.array.len + 0) (k + 0) ≡ false = ground arith in
    rw (shared_pop_lefts, asked, filled, part) refl

module _ {ℓ} {A : Type ℓ} (grow : ℕ → ℕ) (nil : A) (mem : Memory A) (a : SharedArray) (k : ℕ)
    (vs : List A) (valid : IsValid mem a.array) (some_asked : 0 < k) where
  shorter : (n : ℕ) → n ≤ a.array.len → IsValid mem (up_to a.array n)
  shorter n le = record {
    in_memory = valid.in_memory;
    in_block = valid.in_block;
    in_cap = omega (arith, valid.in_cap);
  }

  -- If PopRights takes some items off an array that has some, and PushRight then adds no more items
  -- than were taken off, then the slice that PopRights returned begins with the items added, in
  -- place of the first ones popped, and the array has its remaining items and those added.
  pub pop_rights-overwritten :
      0 < a.array.len
      → length vs ≤ k
      → length vs ≤ a.array.len
      → (popped : Slice) × (rest : SharedArray) × (shared_pop_rights a (pos k)
          ≡ (some popped, rest))
        × (items (shared_push_right grow nil mem rest vs).0 popped
            ≡ vs ++ drop (length vs) (items mem popped))
        × (items
              (shared_push_right grow nil mem rest vs).0
              (shared_push_right grow nil mem rest vs).1.array
            ≡ items mem rest.array ++ vs)
  unfolding shared_push_right
  pop_rights-overwritten some_there le_k le_len = elim (dec_lt k a.array.len) [
    | yes more ↦
        let index = a.array.len - k in
        let kept = shorter index (omega arith) in
        (
          from_low a.array index,
          record a { array = up_to a.array index },
          pop_rights_part a k some_asked more,
          go_append-behind grow nil mem (up_to a.array index) vs kept (a.array.len - index)
              (omega (arith, valid.in_cap)) (omega arith),
          go_append-items grow nil mem (up_to a.array index) vs kept,
        )
    | no enough ↦
        let kept = shorter 0 (omega arith) in
        let at_front : a.array.offset + 0 ≡ a.array.offset = omega arith in
        (
          a.array,
          record a { array = up_to a.array 0 },
          pop_rights_all a k some_there (omega arith),
          (rw at_front at (
              go_append-behind grow nil mem (up_to a.array 0) vs kept a.array.len
                (omega (arith, valid.in_cap)) (omega arith))),
          go_append-items grow nil mem (up_to a.array 0) vs kept,
        )
  ]

  -- If PopLefts takes some but not all items off an array, then PushRight leaves the slice that
  -- PopLefts returned as it is, and the array has its remaining items and those added.
  pub pop_lefts-kept :
      k < a.array.len
      → (popped : Slice) × (rest : SharedArray) × (shared_pop_lefts a (pos k) ≡ (some popped, rest))
        × (items mem popped ++ items mem rest.array ≡ items mem a.array)
        × (items (shared_push_right grow nil mem rest vs).0 popped ≡ items mem popped)
        × (items
              (shared_push_right grow nil mem rest vs).0
              (shared_push_right grow nil mem rest vs).1.array
            ≡ items mem rest.array ++ vs)
  unfolding shared_push_right
  pop_lefts-kept more =
      let rest_valid : IsValid mem (from_low a.array k) = record {
        in_memory = valid.in_memory;
        in_block = omega (arith, valid.in_block, valid.in_cap);
        in_cap = omega (arith, valid.in_cap);
      } in
      let whole : k + (a.array.len - k) ≡ a.array.len = omega arith in
      (
        up_to a.array k,
        record a { array = from_low a.array k },
        pop_lefts_part a k some_asked more,
        rw
            (
              drop_sum a.array.offset k (block_of mem a.array),
              take-drop_sum k (a.array.len - k) (drop a.array.offset (block_of mem a.array)),
              whole,
            )
            refl,
        go_append-before grow nil mem (from_low a.array k) vs rest_valid a.array.offset k
            (omega arith),
        go_append-items grow nil mem (from_low a.array k) vs rest_valid,
      )
