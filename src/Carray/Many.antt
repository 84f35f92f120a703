-- ===== src/Carray/Many.antt =====
-- container/carray/carray_normal_any.go: the methods that take or give several items. A nil slice
-- and an empty one are the same list. The draws of a loop are a function from its rounds.
pub mod Batch
pub mod Draws
mod Examples
use modern_go.Base.Int.{ℤ, pos, pos_part, ltb_ℤ, leb_ℤ, sub_ℕ}
use modern_go.Base.Outcome.{Outcome, ok, panic, bad_argument, ◌>>=◌}
use modern_go.Base.{
  ℕ, zero, suc, ◌+◌, List, [], ◌∷◌, Option, Bool, ◌||◌, ◌&&◌, ◌==◌, ltb, if◌then◌else◌, length,
  set as set_at, take, drop,
}
use modern_go.Carray.{Array, at, slice, intn, switch, do_remove_without_lock}

-- Where `Range` stops: at the length, or before it if the caller says so.
pub offset_end : ℕ → List ℤ → ℤ
offset_end len [] = pos len
offset_end len (e ∷ es) = if ltb_ℤ e (pos len) then e else pos len

module _ {ℓ} {A : Type ℓ} where
  pub new_array_from_copy : List A → List Bool → Array A
  new_array_from_copy array' safe =
      let new_array = array' in record { safe = switch safe; array = new_array }

  -- `for i := 0; i < max; i++ { a.array[i] = array[i] }`, with the rounds left.
  pub replace_loop : ℕ → ℕ → List A → List A → Outcome (List A)
  replace_loop zero i from to = ok to
  replace_loop (suc n) i from to = do
    v ← at from i
    _ ← at to i
    replace_loop n (i + 1) from (set_at to i v)

  pub replace : Array A → List A → Outcome (Array A)
  replace a array' = do
    let max = if ltb (length a.array) (length array') then length a.array else length array'
    items ← replace_loop max 0 array' a.array
    ok (record a { array = items })

  pub pop_lefts : Array A → ℤ → List A × Array A
  pop_lefts a size =
      if leb_ℤ size (pos 0) || (length a.array == 0)
      then ([], a)
      else if leb_ℤ (pos (length a.array)) size
      then (a.array, record a { array = [] })
      else (take (pos_part size) a.array, record a { array = drop (pos_part size) a.array })

  pub pop_rights : Array A → ℤ → List A × Array A
  pop_rights a size =
      if leb_ℤ size (pos 0) || (length a.array == 0)
      then ([], a)
      else let index = sub_ℕ (length a.array) (pos_part size) in
        if leb_ℤ index (pos 0)
        then (a.array, record a { array = [] })
        else (drop (pos_part index) a.array, record a { array = take (pos_part index) a.array })

  -- In concurrent-safe usage the answer is a copy, whose length `make` has to accept.
  pub range : Array A → ℤ → List ℤ → Outcome (List A)
  range a start end =
      let stop = offset_end (length a.array) end in
      if ltb_ℤ stop start
      then ok []
      else let first = if ltb_ℤ start (pos 0) then pos 0 else start in
        if a.safe && ltb_ℤ stop first then panic bad_argument else slice a.array first stop

  -- The rounds of `PopRands`. A slot for which no item was found keeps nil.
  pub pop_rands_loop : (ℕ → ℕ) → ℕ → ℕ → Array A → Outcome (List (Option A) × Array A)
  pop_rands_loop draws zero i a = ok ([], a)
  pop_rands_loop draws (suc n) i a = do
    index ← intn (draws i) (length a.array)
    let (value, a') = do_remove_without_lock a (pos index)
    (rest, last) ← pop_rands_loop draws n (i + 1) a'
    ok (value ∷ rest, last)

  pub pop_rands : (ℕ → ℕ) → Array A → ℤ → Outcome (List (Option A) × Array A)
  pop_rands draws a size =
      if leb_ℤ size (pos 0) || (length a.array == 0)
      then ok ([], a)
      else let size' =
          if leb_ℤ (pos (length a.array)) size then length a.array else pos_part size in
        pop_rands_loop draws size' 0 a

  pub rands_loop : (ℕ → ℕ) → ℕ → ℕ → List A → Outcome (List A)
  rands_loop draws zero i xs = ok []
  rands_loop draws (suc n) i xs = do
    index ← intn (draws i) (length xs)
    value ← at xs index
    rest ← rands_loop draws n (i + 1) xs
    ok (value ∷ rest)

  pub rands : (ℕ → ℕ) → Array A → ℤ → Outcome (List A)
  rands draws a size =
      if leb_ℤ size (pos 0) || (length a.array == 0)
      then ok []
      else rands_loop draws (pos_part size) 0 a.array
