-- ===== src/Carray/Many/Batch.antt =====
-- Taking several items of the array of container/carray at once, and overwriting its first ones.
use mathlib.Core.List.{append-nil, append_assoc}
use modern_go.Base.Int.{ℤ, pos, negsuc, pos_part, leb_ℤ, sub_ℕ}
use modern_go.Base.Outcome.{◌>>=◌, ok, panic, bad_argument, slice_out_of_range}
use modern_go.Base.{
  ltb, ℕ, zero, suc, ◌+◌, some, length-append, drop-append, take-append, nil_of_length, get_elem?,
  get_elem?-append, set-append, ◌≤◌, ◌≡◌, refl, ◌∙◌, arith, List, [], ◌∷◌, ◌++◌, ◌||◌, ◌==◌,
  if◌then◌else◌, if_elim, length, take, drop, length-take, length-drop, take-append-drop, min,
  drop_all, take_all,
}
use modern_go.Carray.{Array, at, push_left, push_right, slice}
use modern_go.Carray.Many.{pop_lefts, pop_rights, range, offset_end, replace, replace_loop}

module _ {A : Type 0} where
  -- What `PopLefts` and `PopRights` hand out, and what stays: together the old items in their
  -- order, and as many handed out as there are, up to `size`.
  pub record Splits (a : Array A) (size : ℤ) (left right out : List A) : Type 0 where
    pub together : left ++ right ≡ a.array
    pub enough : length out ≡ min (pos_part size) (length a.array)

  -- `PopLefts` hands out the first `size` items and keeps the others, for any size.
  pop_lefts-Splits :
      (a : Array A) (size : ℤ)
      → Splits a size (pop_lefts a size).0 (pop_lefts a size).1.array (pop_lefts a size).0
  unfolding pop_lefts
  pop_lefts-Splits a size =
      if_elim (λ (r : List A × Array A). Splits a size r.0 r.1.array r.0)
        (leb_ℤ size (pos 0) || (length a.array == 0))
        (λ e. record { together = refl; enough = ground arith })
        (λ e.
          if_elim (λ (r : List A × Array A). Splits a size r.0 r.1.array r.0)
            (leb_ℤ (pos (length a.array)) size)
            (λ whole. record { together = append-nil a.array; enough = ground arith })
            (λ part. record {
              together = take-append-drop (pos_part size) a.array;
              enough = length-take (pos_part size) a.array;
            }))

  -- `PopRights` hands out the last `size` items and keeps the others, for any size.
  pop_rights-Splits :
      (a : Array A) (size : ℤ)
      → Splits a size (pop_rights a size).1.array (pop_rights a size).0 (pop_rights a size).0
  unfolding pop_rights
  pop_rights-Splits a size =
      if_elim (λ (r : List A × Array A). Splits a size r.1.array r.0 r.0)
        (leb_ℤ size (pos 0) || (length a.array == 0))
        (λ e. record { together = append-nil a.array; enough = ground arith })
        (λ e.
          if_elim (λ (r : List A × Array A). Splits a size r.1.array r.0 r.0)
            (leb_ℤ (sub_ℕ (length a.array) (pos_part size)) (pos 0))
            (λ whole. record { together = refl; enough = ground arith })
            (λ part. record {
              together = take-append-drop _ a.array;
              enough = length-drop _ a.array ∙ ground arith;
            }))

  -- `Range` from a start that is not negative does not panic. It returns the items from the start
  -- on where no end is given, those from the start up to an end that is not negative or up to the
  -- length, and none for a negative end.
  pub range_lem :
      (a : Array A) (start : ℕ) (more : List ℤ)
      → (range a (pos start) [] ≡ ok (drop start a.array))
        × ((end : ℕ) → range a (pos start) (pos end ∷ more) ≡ ok (drop start (take end a.array)))
        × ((n : ℕ) → range a (pos start) (negsuc n ∷ more) ≡ ok [])
  unfolding range offset_end slice
  range_lem a start more = (
    ground (arith, drop_all start a.array, take_all (length a.array) a.array),
    λ end. ground (
      arith,
      drop_all start (take end a.array),
      drop_all start a.array,
      length-take end a.array,
      take_all end a.array,
      take_all (length a.array) a.array,
    ),
    λ n. ground arith,
  )

  -- A negative start panics with every negative end from it on, in both modes of usage.
  pub range-panics :
      (a : Array A) (start end : ℕ) (ends : List ℤ)
      → end ≤ start
      → range a (negsuc start) (negsuc end ∷ ends)
        ≡ panic (if a.safe then bad_argument else slice_out_of_range)
  unfolding range offset_end slice
  range-panics a start end ends h = ground arith

  -- What was pushed on one side comes back from that side in the same order, and the array is what
  -- it was.
  pub pop-push :
      (a : Array A) (vs : List A)
      → (pop_rights (push_right a vs) (pos (length vs)) ≡ (vs, a))
        × (pop_lefts (push_left a vs) (pos (length vs)) ≡ (vs, a))
  unfolding pop_rights pop_lefts push_right push_left
  pop-push a [] = (rw (append-nil) refl, refl)
  pop-push a (v ∷ vs) = (
    ground (
      arith,
      length-append a.array (v ∷ vs),
      drop-append a.array (v ∷ vs),
      take-append a.array (v ∷ vs),
      nil_of_length a.array,
    ),
    ground (
      arith,
      length-append (v ∷ vs) a.array,
      drop-append (v ∷ vs) a.array,
      take-append (v ∷ vs) a.array,
      append-nil vs,
      nil_of_length a.array,
    ),
  )

  -- The items of the second list, with those of the first over them as far as both go.
  unfoldable pub overwritten : List A → List A → List A
  overwritten [] ys = ys
  overwritten (x ∷ xs) [] = []
  overwritten (x ∷ xs) (y ∷ ys) = x ∷ overwritten xs ys

  replace_loop-overwritten :
      (n : ℕ) (pre pre' xs ys : List A)
      → length pre ≡ length pre'
      → n ≡ min (length xs) (length ys)
      → replace_loop n (length pre) (pre' ++ xs) (pre ++ ys) ≡ ok (pre ++ overwritten xs ys)
  unfolding replace_loop overwritten at
  replace_loop-overwritten zero pre pre' [] ys e h = refl
  replace_loop-overwritten zero pre pre' (x ∷ xs) [] e h = refl
  replace_loop-overwritten zero pre pre' (x ∷ xs) (y ∷ ys) e h = absurd (omega arith)
  replace_loop-overwritten (suc n) pre pre' [] ys e h = absurd (omega arith)
  replace_loop-overwritten (suc n) pre pre' (x ∷ xs) [] e h = absurd (omega arith)
  replace_loop-overwritten (suc n) pre pre' (x ∷ xs) (y ∷ ys) e h =
      rw (read, ◌>>=◌, get_elem?-append pre ys y, ◌>>=◌, set-append pre ys y x)
        (simp (longer, append_assoc) at
          (replace_loop-overwritten n (pre ++ x ∷ []) (pre' ++ x ∷ []) xs ys longer_both
            (omega arith)))
    where
      read : get_elem? (pre' ++ x ∷ xs) (length pre) ≡ some x
      read = rw e (get_elem?-append pre' xs x)

      longer : length (pre ++ x ∷ []) ≡ length pre + 1
      longer = length-append pre (x ∷ [])

      longer_both : length (pre ++ x ∷ []) ≡ length (pre' ++ x ∷ [])
      longer_both = omega (arith, length-append pre (x ∷ []), length-append pre' (x ∷ []))

  -- `Replace` writes the given items over the first ones, and neither grows nor shrinks the array.
  replace-overwritten :
      (a : Array A) (given : List A)
      → replace a given ≡ ok (record a { array = overwritten given a.array })
  unfolding replace
  replace-overwritten a given =
      let max = if ltb (length a.array) (length given) then length a.array else length given in
      rw (replace_loop-overwritten max [] [] given a.array refl (ground arith))
