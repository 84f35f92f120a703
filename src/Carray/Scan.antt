-- ===== src/Carray/Scan.antt =====
-- container/carray/carray_normal_any.go: the methods that walk over the items. Items are compared
-- by a decidable equality, as Go's `==` is on values that can be compared and are not NaN.
pub mod Search
pub mod Raced
pub mod Dedup
pub mod Reorder
mod Examples
use mathlib.Core.Logic.{ite}
use modern_go.Base.Dict
use modern_go.Base.Dict.{Dict}
use modern_go.Base.Int.{ℤ, pos, negsuc}
use modern_go.Base.Outcome.{Outcome, ok, ◌>>=◌}
use modern_go.Base.{
  ℕ, zero, suc, ◌+◌, ◌-◌, List, [], ◌∷◌, ◌++◌, none, some, Bool, true, false, ltb, if◌then◌else◌,
  length, set as set_at, take, drop,
}
use modern_go.Carray.{Array, at, remove}

-- `i != -1`
pub found : ℤ → Bool
found (pos i) = true
found (negsuc zero) = false
found (negsuc (suc n)) = true

module _ {ℓ} {A : Type ℓ} where
  -- `a[i], a[j] = a[j], a[i]`
  pub swap : List A → ℕ → ℕ → Outcome (List A)
  swap xs i j = do x ← at xs i; y ← at xs j; ok (set_at (set_at xs i y) j x)

  -- The loop of `Reverse`, in which `i` goes up and `j` down.
  pub reverse_loop : ℕ → ℕ → ℕ → List A → Outcome (List A)
  reverse_loop zero i j xs = ok xs
  reverse_loop (suc fuel) i j xs =
      let rest = swap xs i j >>= λ ys. reverse_loop fuel (i + 1) (j - 1) ys in
      if ltb i j then rest else ok xs

  -- There are at most as many rounds as items. For an empty array `j` starts at -1, and no round is
  -- made; the model starts it at 0, which makes none either.
  pub reverse : Array A → Outcome (Array A)
  reverse a = do
    items ← reverse_loop (length a.array) 0 (length a.array - 1) a.array
    ok (record a { array = items })

  -- The loop of `Shuffle` over the values of `rand.Perm`.
  pub shuffle_loop : ℕ → List ℕ → List A → Outcome (List A)
  shuffle_loop i [] xs = ok xs
  shuffle_loop i (v ∷ vs) xs = swap xs i v >>= λ ys. shuffle_loop (i + 1) vs ys

  pub shuffle : (ℕ → List ℕ) → Array A → Outcome (Array A)
  shuffle rand_perm a = do
    items ← shuffle_loop 0 (rand_perm (length a.array)) a.array
    ok (record a { array = items })

  -- The calls that `IteratorAsc` makes from the index `k` on, in their order.
  pub asc_from : (ℕ → A → Bool) → ℕ → List A → List (ℕ × A)
  asc_from f k [] = []
  asc_from f k (v ∷ vs) =
      let rest = asc_from f (k + 1) vs in if f k v then (k, v) ∷ rest else (k, v) ∷ []

  pub iterator_asc : (ℕ → A → Bool) → Array A → List (ℕ × A)
  iterator_asc f a = asc_from f 0 a.array

  pub iterator : (ℕ → A → Bool) → Array A → List (ℕ × A)
  iterator f a = iterator_asc f a

  -- The calls that `IteratorDesc` makes while `i + 1` indices are left.
  pub desc_from : (ℕ → A → Bool) → ℕ → List A → Outcome (List (ℕ × A))
  desc_from f zero xs = ok []
  desc_from f (suc i) xs = do
    v ← at xs i
    rest ← desc_from f i xs
    ok (if f i v then (i, v) ∷ rest else (i, v) ∷ [])

  pub iterator_desc : (ℕ → A → Bool) → Array A → Outcome (List (ℕ × A))
  iterator_desc f a = desc_from f (length a.array) a.array

  pub walk_loop : (A → A) → List A → List A
  walk_loop f [] = []
  walk_loop f (v ∷ vs) = f v ∷ walk_loop f vs

  pub walk : (A → A) → Array A → Array A
  walk f a = record a { array = walk_loop f a.array }

  -- The callback gets the slice, and may write to its items.
  pub lock_func : (List A → List A) → Array A → Array A
  lock_func f a = record a { array = f a.array }

  -- Here too nothing keeps the callback from writing to the items.
  pub r_lock_func : (List A → List A) → Array A → Array A
  r_lock_func f a = record a { array = f a.array }

  -- `sort_slice` is sort.Slice of the standard library, given the test on two items.
  pub sort_func : ((A → A → Bool) → List A → List A) → (A → A → Bool) → Array A → Array A
  sort_func sort_slice less a = record a { array = sort_slice less a.array }

module _ {ℓ} {A : Type ℓ} (item_eq : Discrete A) where
  -- The first index from `index` on whose item is `value`, or -1.
  pub search_from : ℕ → A → List A → ℤ
  search_from index value [] = negsuc 0
  search_from index value (v ∷ vs) =
      let rest = search_from (index + 1) value vs in ite (item_eq v value) (pos index) rest

  pub search : Array A → A → ℤ
  search a value = search_from 0 value a.array

  pub contains : Array A → A → Bool
  contains a value = found (search a value)

  pub remove_value : Array A → A → Bool × Array A
  remove_value a value =
      let i = search a value in if found i then (true, (remove a i).1) else (false, a)

  -- The same with what other goroutines do to the array between the two locks.
  pub remove_value_among : (Array A → Array A) → Array A → A → Bool × Array A
  remove_value_among others a value =
      let i = search a value in
      if found i then (true, (remove (others a) i).1) else (false, others a)

  -- The inner loop of `Unique` from `j` on: it drops the items equal to the `i`-th. Each round
  -- brings `j` and the length nearer by one.
  pub unique_inner : ℕ → ℕ → ℕ → List A → Outcome (List A)
  unique_inner zero i j xs = ok xs
  unique_inner (suc n) i j xs = do
    x ← at xs i
    y ← at xs j
    elim (item_eq x y) [
      | yes _ ↦ unique_inner n i j (take j xs ++ drop (j + 1) xs)
      | no _ ↦ unique_inner n i (j + 1) xs
    ]

  -- The outer loop, which reads the length again in each round.
  pub unique_outer : ℕ → ℕ → List A → Outcome (List A)
  unique_outer zero i xs = ok xs
  unique_outer (suc fuel) i xs =
      let rest =
        unique_inner (length xs - (i + 1)) i (i + 1) xs >>= λ ys. unique_outer fuel (i + 1) ys in
      if ltb i (length xs - 1) then rest else ok xs

  pub unique : Array A → Outcome (Array A)
  unique a = do items ← unique_outer (length a.array) 0 a.array; ok (record a { array = items })

module _ {A : Type 0} (item_eq : Discrete A) where
  -- `m[v]++`, where a missing count reads as 0.
  pub count_values_loop : List A → Dict A ℕ → Dict A ℕ
  count_values_loop [] m = m
  count_values_loop (v ∷ vs) m =
      let old : ℕ = elim (Dict.lookup item_eq v m) [ none ↦ 0 | some n ↦ n ] in
      count_values_loop vs (Dict.insert item_eq v (old + 1) m)

  pub count_values : Array A → Dict A ℕ
  count_values a = count_values_loop a.array []
