-- ===== src/Carray/Scan/Raced.antt =====
-- RemoveValue of the array of container/carray when another goroutine adds items between its search
-- and its removal.
use modern_go.Base.Int.{pos, negsuc}
use modern_go.Base.{
  Option-cases, inl, inr, ℕ, zero, suc, ◌+◌, ◌<◌, ◌≡◌, refl, sym, ◌∙◌, ap, arith, List, [], ◌∷◌,
  ◌++◌, none, some, Bool, true, false, length, length-append, get_elem?, take, drop,
}
use modern_go.Carray.{Array, push_left, push_right}
use modern_go.Carray.Edit.{erase_at, erase_at-take-drop, removed, remove-removed}
use modern_go.Carray.Scan.{search, found, remove_value, remove_value_among}
use modern_go.Carray.Scan.Search.{index_of, index_of-IsFirst, index_of_lt, search_from-shifted}

pos-injective : {i j : ℕ} → pos i ≡ pos j → i ≡ j
pos-injective e = cc e

module _ {A : Type 0} where
  erase_at-append :
      (xs ys : List A) (i : ℕ) → i < length xs → erase_at (xs ++ ys) i ≡ erase_at xs i ++ ys
  unfolding erase_at
  erase_at-append [] ys i lt = absurd (omega arith)
  erase_at-append (x ∷ xs) ys zero lt = refl
  erase_at-append (x ∷ xs) ys (suc i) lt = ap (◌∷◌ x) (erase_at-append xs ys i (omega arith))

  -- An item in front, and the item before that at `i` erased.
  get_elem?-erase_at :
      (v value : A) (xs : List A) (i : ℕ)
      → get_elem? xs i ≡ some value
      → get_elem? (erase_at (v ∷ xs) i) i ≡ some value
  unfolding erase_at
  get_elem?-erase_at v value xs zero e = e
  get_elem?-erase_at v value [] (suc i) e = e
  get_elem?-erase_at v value (y ∷ xs) (suc i) e = get_elem?-erase_at y value xs i e

  length-erase_at : (xs : List A) (i : ℕ) → i < length xs → suc (length (erase_at xs i)) ≡ length xs
  unfolding erase_at
  length-erase_at [] i lt = absurd (omega arith)
  length-erase_at (x ∷ xs) zero lt = refl
  length-erase_at (x ∷ xs) (suc i) lt = ap suc (length-erase_at xs i (omega arith))

module _ {A : Type 0} (item_eq : Discrete A) where
  -- What RemoveValue does with the index of its search.
  remove_value_among-index :
      (others : Array A → Array A) (a : Array A) (value : A)
      → remove_value_among item_eq others a value
        ≡ elim (index_of item_eq a.array value) as (λ _. Bool × Array A) [
          | none ↦ (false, others a)
          | some i ↦ (true, (removed (others a) (pos i)).1)
        ]
  unfolding remove_value_among search found
  remove_value_among-index others a value = elim (Option-cases (index_of item_eq a.array value)) [
    | inl absent ↦ rw (remove_value_among, search_from-shifted item_eq 0 value a.array, absent) refl
    | inr (i, at) ↦
        let sum : 0 + i ≡ i = omega arith in
        rw
          (
            remove_value_among,
            search_from-shifted item_eq 0 value a.array,
            at,
            remove-removed (others a) (pos (0 + i)),
            sum,
          )
          refl
  ]

  -- A removal at an index in range.
  removed_at :
      (a : Array A) (i : ℕ)
      → i < length a.array
      → (removed a (pos i)).1 ≡ record a { array = erase_at a.array i }
  unfolding removed
  removed_at a i lt = ground (arith, lt)

  remove_value-index :
      (a : Array A) (value : A)
      → remove_value item_eq a value ≡ remove_value_among item_eq (λ b. b) a value
  unfolding remove_value remove_value_among
  remove_value-index a value = refl

  -- Items that PushRight adds between the search and the removal of RemoveValue make no difference:
  -- the answer and the array are those of RemoveValue and then PushRight.
  pub remove_value-push_right :
      (a : Array A) (value : A) (vs : List A)
      → remove_value_among item_eq (λ b. push_right b vs) a value
        ≡ ((remove_value item_eq a value).0, push_right (remove_value item_eq a value).1 vs)
  unfolding push_right
  remove_value-push_right a value vs = elim (Option-cases (index_of item_eq a.array value)) [
    | inl absent ↦
        rw
          (
            remove_value-index,
            remove_value_among-index (λ b. push_right b vs) a value,
            remove_value_among-index (λ b. b) a value,
            absent,
          )
          refl
    | inr (i, at) ↦
        let lt = index_of_lt item_eq a.array value i at in
        rw
          (
            remove_value-index,
            remove_value_among-index (λ b. push_right b vs) a value,
            remove_value_among-index (λ b. b) a value,
            at,
            removed_at a i lt,
            removed_at (push_right a vs) i (omega (arith, lt, length-append a.array vs)),
            erase_at-append a.array vs i lt,
          )
          refl
  ]

  -- If the value is in the array, and PushLeft adds one item between the search and the removal of
  -- RemoveValue, then RemoveValue answers true, but the item that has been removed is the one now
  -- in front of the value: the items before it are left, then the value where it was found, and
  -- those behind the value; the array is as long as before.
  pub remove_value-push_left :
      (a : Array A) (value v : A) (i : ℕ)
      → search item_eq a value ≡ pos i
      → let r = remove_value_among item_eq (λ b. push_left b (v ∷ [])) a value in
        (r.0 ≡ true)
        × (r.1.array ≡ take i (v ∷ a.array) ++ drop i a.array)
        × (get_elem? r.1.array i ≡ some value)
        × (length r.1.array ≡ length a.array)
  unfolding push_left search
  remove_value-push_left a value v i at = elim (Option-cases (index_of item_eq a.array value)) [
    | inl absent ↦
        let none_found : negsuc 0 ≡ pos i =
          rw (search_from-shifted item_eq 0 value a.array, absent) at at in
        absurd (cc none_found)
    | inr (j, e) ↦
        let start : pos (0 + j) ≡ pos i =
          rw (search_from-shifted item_eq 0 value a.array, e) at at in
        let same : j ≡ i = (omega arith) ∙ pos-injective start in
        let here : index_of item_eq a.array value ≡ some i = rw (← same) e in
        let lt = index_of_lt item_eq a.array value i here in
        let first = rw here at (index_of-IsFirst item_eq a.array value) in
        rw
          (
            remove_value_among-index (λ b. push_left b (v ∷ [])) a value,
            here,
            removed_at (push_left a (v ∷ [])) i (omega (arith, lt)),
          )
          (
            refl,
            sym (erase_at-take-drop (v ∷ a.array) i),
            get_elem?-erase_at v value a.array i first.0,
            omega (arith, length-erase_at (v ∷ a.array) i (omega (arith, lt))),
          )
  ]
