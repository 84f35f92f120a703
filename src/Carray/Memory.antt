-- ===== src/Carray/Memory.antt =====
-- container/carray/carray_normal_any.go: PushRight, PopLefts and PopRights on the memory that the
-- array shares with the slices that it has handed out. The memory is a list of blocks; a slice is a
-- part of a block. Where `append` has no room it moves the items to a new block, with as much more
-- room as `grow` says for their number, which Go does not lay down.
pub mod Appended
pub mod Popped
mod Examples
use modern_go.Base.Int.{ℤ, pos, negsuc, pos_part, leb_ℤ}
use modern_go.Base.{
  ℕ, ◌+◌, ◌-◌, ◌≤◌, List, [], ◌∷◌, ◌++◌, Option, none, some, Bool, ◌||◌, ◌==◌, leb, if◌then◌else◌,
  length, take, drop, replicate, get_or, set as set_at, write,
}

pub record Slice : Type 0 where
  pub block : ℕ
  pub offset : ℕ
  pub len : ℕ
  pub cap : ℕ

pub record SharedArray : Type 0 where
  pub safe : Bool
  pub array : Slice

-- `s[low:]` and `s[:high]`, for a bound within the length.
abbrev pub from_low : Slice → ℕ → Slice
from_low s low = record s { offset = s.offset + low; len = s.len - low; cap = s.cap - low }

abbrev pub up_to : Slice → ℕ → Slice
up_to s high = record s { len = high }

abbrev pub Memory {ℓ} : Type ℓ → Type ℓ
Memory B = List (List B)

module _ {ℓ} {A : Type ℓ} where
  abbrev pub block_of : Memory A → Slice → List A
  block_of mem s = get_or mem s.block []

  -- What a reader of the slice sees.
  abbrev pub items : Memory A → Slice → List A
  items mem s = take s.len (drop s.offset (block_of mem s))

  -- The built-in `append`; `nil` stands in the room behind the items.
  pub go_append : (ℕ → ℕ) → A → Memory A → Slice → List A → Memory A × Slice
  go_append grow nil mem s vs =
      let n = s.len + length vs in
      if leb n s.cap
      then (set_at mem s.block (write (block_of mem s) (s.offset + s.len) vs), up_to s n)
      else (
        mem ++ ((items mem s ++ vs) ++ replicate (grow n) nil) ∷ [],
        record { block = length mem; offset = 0; len = n; cap = n + grow n },
      )

  pub shared_push_right : (ℕ → ℕ) → A → Memory A → SharedArray → List A → Memory A × SharedArray
  shared_push_right grow nil mem a value =
      let (mem', array') = go_append grow nil mem a.array value in
      (mem', record a { array = array' })

-- None is the slice `nil`.
pub shared_pop_lefts : SharedArray → ℤ → Option Slice × SharedArray
shared_pop_lefts a size =
    if leb_ℤ size (pos 0) || (a.array.len == 0)
    then (none, a)
    else if leb_ℤ (pos a.array.len) size
    then (some a.array, record a { array = up_to a.array 0 })
    else (
      some (up_to a.array (pos_part size)),
      record a { array = from_low a.array (pos_part size) },
    )

pub shared_pop_rights : SharedArray → ℤ → Option Slice × SharedArray
shared_pop_rights a size =
    if leb_ℤ size (pos 0) || (a.array.len == 0)
    then (none, a)
    else if leb_ℤ (pos a.array.len) size
    then (some a.array, record a { array = up_to a.array 0 })
    else let index = a.array.len - pos_part size in
      (some (from_low a.array index), record a { array = up_to a.array index })
