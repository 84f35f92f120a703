-- ===== src/Carray.antt =====
-- container/carray/carray_normal_any.go: the array, its constructors, and the methods on one item.
-- An array is its items, with the switch that it was made with. A slice is the list of its items;
-- what a later write to a slice does to another one over the same memory is in Carray/Memory. A
-- method returns its results and the array as it leaves it.
pub mod Many
pub mod Scan
pub mod Edit
pub mod Memory
mod Examples
use modern_go.Base.Int.{ℤ, pos, negsuc, pos_part, ltb_ℤ, leb_ℤ}
use modern_go.Base.Outcome.{
  Outcome, ok, panic, index_out_of_range, slice_out_of_range, bad_argument, ◌>>=◌,
}
use modern_go.Base.{
  ℕ, zero, suc, ◌+◌, ◌-◌, ◌%◌, ◌≤◌, List, [], ◌∷◌, ◌++◌, Option, none, some, Bool, true, false,
  ◌||◌, ◌==◌, ltb, leb, if◌then◌else◌, length, get_elem?, set as set_at, take, drop, replicate,
}

pub record Array {ℓ} (A : Type ℓ) : Type ℓ where
  pub safe : Bool
  pub array : List A

-- The error of `errors.New("index %d out of array range %d")`.
pub data IndexError : Type 0 where
  out_of_array_range : ℤ → ℕ → IndexError

-- `a[i]`
pub at {ℓ} : {A : Type ℓ} → List A → ℕ → Outcome A
at xs i = elim (get_elem? xs i) [ none ↦ panic index_out_of_range | some x ↦ ok x ]

-- `a[low:high]`, for a bound within the length.
pub slice {ℓ} : {A : Type ℓ} → List A → ℤ → ℤ → Outcome (List A)
slice xs low high =
    if ltb_ℤ low (pos 0) || ltb_ℤ high low || ltb_ℤ (pos (length xs)) high
    then panic slice_out_of_range
    else ok (drop (pos_part low) (take (pos_part high) xs))

-- `rand.Intn(n)`, which panics for no number below which to draw. Every number below `n` is the
-- remainder of some draw.
pub intn : ℕ → ℕ → Outcome ℕ
intn draw n = if n == 0 then panic bad_argument else ok (draw % n)

-- `index < 0 || index >= len(a.array)`
abbrev pub outside : ℤ → ℕ → Bool
outside index len = ltb_ℤ index (pos 0) || leb_ℤ (pos len) index

-- The optional argument `safe ...bool`.
abbrev pub switch : List Bool → Bool
switch [] = false
switch (b ∷ bs) = b

module _ {ℓ} {A : Type ℓ} where
  pub new_array_from : List A → List Bool → Array A
  new_array_from array' safe = record { safe = switch safe; array = array' }

  -- `make` panics on a negative size and on a capacity below the size; the items are `nil`.
  pub new_array_size : A → ℤ → ℤ → List Bool → Outcome (Array A)
  new_array_size nil size cap safe =
      if ltb_ℤ size (pos 0) || ltb_ℤ cap size
      then panic bad_argument
      else ok (record { safe = switch safe; array = replicate (pos_part size) nil })

  pub new : A → List Bool → Outcome (Array A)
  new nil safe = new_array_size nil (pos 0) (pos 0) safe

  pub get : Array A → ℤ → Option A
  get a index = if outside index (length a.array) then none else get_elem? a.array (pos_part index)

  pub set : Array A → ℤ → A → Option IndexError × Array A
  set a index value =
      if outside index (length a.array)
      then (some (out_of_array_range index (length a.array)), a)
      else (none, record a { array = set_at a.array (pos_part index) value })

  pub set_array : Array A → List A → Array A
  set_array a array' = record a { array = array' }

  pub insert_before : Array A → ℤ → A → Option IndexError × Array A
  insert_before a index value =
      if outside index (length a.array)
      then (some (out_of_array_range index (length a.array)), a)
      else let rear = drop (pos_part index) a.array in
        (none, record a { array = (take (pos_part index) a.array ++ value ∷ []) ++ rear })

  pub insert_after : Array A → ℤ → A → Option IndexError × Array A
  insert_after a index value =
      if outside index (length a.array)
      then (some (out_of_array_range index (length a.array)), a)
      else let rear = drop (pos_part index + 1) a.array in
        (none, record a { array = (take (pos_part index + 1) a.array ++ value ∷ []) ++ rear })

  -- The branches for the first and the last item avoid a copy.
  pub do_remove_without_lock : Array A → ℤ → Option A × Array A
  do_remove_without_lock a index =
      let i = pos_part index in
      if outside index (length a.array)
      then (none, a)
      else if i == 0
      then (get_elem? a.array 0, record a { array = drop 1 a.array })
      else if i == length a.array - 1
      then (get_elem? a.array i, record a { array = take i a.array })
      else (get_elem? a.array i, record a { array = take i a.array ++ drop (i + 1) a.array })

  pub remove : Array A → ℤ → Option A × Array A
  remove a index = do_remove_without_lock a index

  pub push_left : Array A → List A → Array A
  push_left a value = record a { array = value ++ a.array }

  pub push_right : Array A → List A → Array A
  push_right a value = record a { array = a.array ++ value }

  pub append : Array A → List A → Array A
  append a value = push_right a value

  pub pop_left : Array A → Option A × Array A
  pop_left a =
      if length a.array == 0
      then (none, a)
      else (get_elem? a.array 0, record a { array = drop 1 a.array })

  -- The index is one less than the length, and negative for an empty array.
  pub pop_right : Array A → Option A × Array A
  pop_right a =
      if length a.array == 0
      then (none, a)
      else let index = length a.array - 1 in
        (get_elem? a.array index, record a { array = take index a.array })

  -- `rand.Intn` is called before the length is looked at.
  pub pop_rand : ℕ → Array A → Outcome (Option A × Array A)
  pop_rand draw a = do index ← intn draw (length a.array); ok (do_remove_without_lock a (pos index))

  pub rand : ℕ → Array A → Outcome (Option A)
  rand draw a =
      if length a.array == 0
      then ok none
      else do index ← intn draw (length a.array); value ← at a.array index; ok (some value)

  pub len : Array A → ℕ
  len a = length a.array

  pub is_empty : Array A → Bool
  is_empty a = len a == 0

  pub clear : Array A → Array A
  clear a = if ltb 0 (length a.array) then record a { array = [] } else a

  pub clone : Array A → Array A
  clone a = new_array_from a.array (a.safe ∷ [])
