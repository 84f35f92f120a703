-- ===== src/Carray/Scan/Search.antt =====
-- Search, Contains, RemoveValue and CountValues of the array of container/carray.
use mathlib.Core.Logic.{ite, if_pos, if_neg}
use mathlib.Core.Option
use modern_go.Base.Dict
use modern_go.Base.Dict.{Dict}
use modern_go.Base.Int.{ℤ, pos, negsuc}
use modern_go.Base.{
  Option-cases, inl, inr, ℕ, zero, suc, ◌+◌, ◌-◌, ◌<◌, ◌≡◌, ◌≢◌, refl, ◌∙◌, ap, arith, List, [],
  ◌∷◌, Option, none, some, true, false, length, get_elem?,
}
use modern_go.Carray.{Array}
use modern_go.Carray.Edit.{erase_at, removed, remove-removed}
use modern_go.Carray.Scan.{
  search_from, search, found, contains, remove_value, count_values_loop, count_values,
}

-- What `Search` answers for an index that is found or not.
abbrev pub shifted : ℕ → Option ℕ → ℤ
shifted k none = negsuc 0
shifted k (some i) = pos (k + i)

module _ {A : Type 0} where
  -- An index is the first one of `value`; none says that there is no such item.
  abbrev pub IsFirst : List A → A → Option ℕ → Type 0
  IsFirst xs value (some i) =
      (get_elem? xs i ≡ some value) × ((j : ℕ) → j < i → get_elem? xs j ≢ some value)
  IsFirst xs value none = (j : ℕ) → get_elem? xs j ≢ some value

  module _ {v value : A} (other : v ≢ value) (vs : List A) where
    nowhere : ((j : ℕ) → get_elem? vs j ≢ some value) → (j : ℕ) → get_elem? (v ∷ vs) j ≢ some value
    nowhere h zero e = other (cc)
    nowhere h (suc j) e = h j e

    not_before :
        {i : ℕ}
        → ((j : ℕ) → j < i → get_elem? vs j ≢ some value)
        → (j : ℕ) → j < suc i
        → get_elem? (v ∷ vs) j ≢ some value
    not_before h zero lt e = other (cc)
    not_before h (suc j) lt e = h j (omega arith) e

    IsFirst-cons : (o : Option ℕ) → IsFirst vs value o → IsFirst (v ∷ vs) value (Option.map suc o)
    IsFirst-cons none h = nowhere h
    IsFirst-cons (some i) h = (h.0, not_before h.1)

module _ {A : Type 0} (item_eq : Discrete A) where
  pub index_of : List A → A → Option ℕ
  index_of [] value = none
  index_of (v ∷ vs) value = ite (item_eq v value) (some 0) (Option.map suc (index_of vs value))

  pub search_from-shifted :
      (k : ℕ) (value : A) (xs : List A)
      → search_from item_eq k value xs ≡ shifted k (index_of xs value)
  unfolding search_from index_of
  search_from-shifted k value [] = refl
  search_from-shifted k value (v ∷ vs) = ground (arith, search_from-shifted (k + 1) value vs)

  pub index_of-IsFirst : (xs : List A) (value : A) → IsFirst xs value (index_of xs value)
  unfolding index_of
  index_of-IsFirst [] value = λ j e. cc
  index_of-IsFirst (v ∷ vs) value = elim (item_eq v value) [
    | yes e ↦ rw (if_pos (item_eq v value) e) (ap some e, λ j lt. absurd (omega arith))
    | no n ↦
        rw (if_neg (item_eq v value) n)
          (IsFirst-cons n vs (index_of vs value) (index_of-IsFirst vs value))
  ]

  -- `Search` answers the first index of an item equal to the value, and -1 if there is none;
  -- `Contains` says which.
  pub search-IsFirst :
      (a : Array A) (value : A)
      → (o : Option ℕ) × IsFirst a.array value o
        × (search item_eq a value ≡ shifted 0 o)
        × (contains item_eq a value ≡ elim o [ none ↦ false | some _ ↦ true ])
  unfolding search contains found
  search-IsFirst a value = (
    index_of a.array value,
    index_of-IsFirst a.array value,
    search_from-shifted 0 value a.array,
    ground (arith, search_from-shifted 0 value a.array),
  )

  -- The list without its first item equal to `value`.
  pub without_first : A → List A → List A
  without_first value [] = []
  without_first value (v ∷ vs) = ite (item_eq v value) vs (v ∷ without_first value vs)

  -- What `RemoveValue` does with an index.
  without_first-index_of :
      (xs : List A) (value : A)
      → without_first value xs ≡ elim (index_of xs value) [ none ↦ xs | some i ↦ erase_at xs i ]
  unfolding index_of without_first erase_at
  without_first-index_of [] value = refl
  without_first-index_of (v ∷ vs) value = ground (arith, without_first-index_of vs value)

  pub index_of_lt : (xs : List A) (value : A) (i : ℕ) → index_of xs value ≡ some i → i < length xs
  unfolding index_of
  index_of_lt [] value i e = cc
  index_of_lt (v ∷ vs) value i e = ground (arith, index_of_lt vs value (i - 1))

  -- `RemoveValue` drops the first item equal to the value, and keeps the array if there is none; it
  -- answers what `Contains` would have.
  remove_value-without_first :
      (a : Array A) (value : A)
      → remove_value item_eq a value
        ≡ (contains item_eq a value, record a { array = without_first value a.array })
  unfolding remove_value contains search found removed
  remove_value-without_first a value =
      let start = search_from-shifted 0 value a.array in
      elim (Option-cases (index_of a.array value)) [
        | inl absent ↦ ground (arith, start, without_first-index_of a.array value, absent)
        | inr (i, at_i) ↦ ground (
          arith,
          start,
          without_first-index_of a.array value,
          at_i,
          remove-removed a (pos i),
          index_of_lt a.array value i at_i,
        )
      ]

module _ {A : Type 0} (item_eq : Discrete A) where
  -- The count under a key, where a missing one reads as 0.
  abbrev pub counted : Dict A ℕ → A → ℕ
  counted m q = elim (Dict.lookup item_eq q m) [ none ↦ 0 | some n ↦ n ]

  count_values_loop-occurs :
      (xs : List A) (m : Dict A ℕ) (q : A)
      → counted (count_values_loop item_eq xs m) q ≡ counted m q + Dict.occurs item_eq q xs
  unfolding count_values_loop Dict.occurs
  count_values_loop-occurs [] m q = ground arith
  count_values_loop-occurs (v ∷ vs) m q = ground (
    arith,
    count_values_loop-occurs vs (Dict.insert item_eq v (counted m v + 1) m) q,
    Dict.lookup-insert item_eq v q (counted m v + 1) m,
  )

  -- `CountValues` maps every value to the number of times that it occurs; where it has no entry the
  -- value does not occur.
  count_values-occurs :
      (a : Array A) (q : A) → counted (count_values item_eq a) q ≡ Dict.occurs item_eq q a.array
  unfolding count_values Dict.lookup
  count_values-occurs a q = count_values_loop-occurs a.array [] q ∙ ground arith
