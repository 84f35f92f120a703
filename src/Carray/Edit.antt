-- ===== src/Carray/Edit.antt =====
-- Inserting and removing one item of the array of container/carray.
use native.Mathlib.Numerals.{add-one}
use modern_go.Base.Int.{ℤ, pos, negsuc, pos_part}
use modern_go.Base.{
  ℕ, zero, suc, ◌+◌, ◌<◌, ◌≤◌, ◌≡◌, refl, ap, arith, List, [], ◌∷◌, ◌++◌, Option, none, some,
  if◌then◌else◌, ◌==◌, ◌-◌, true, false, Bool, length, get_elem?, take, drop,
}
use modern_go.Carray.{Array, outside, insert_before, insert_after, do_remove_without_lock, remove}

-- Branches that come to the same value.
same_branches {κ} :
    {B : Type κ} (out first last : Bool) (w x y z v : B)
    → (first ≡ true → x ≡ v)
    → (out ≡ false → last ≡ true → y ≡ v)
    → (z ≡ v)
    → (if out then w else if first then x else if last then y else z) ≡ (if out then w else v)
same_branches true first last w x y z v h₁ h₂ h₃ = refl
same_branches false true last w x y z v h₁ h₂ h₃ = h₁ refl
same_branches false false true w x y z v h₁ h₂ h₃ = h₂ refl refl
same_branches false false false w x y z v h₁ h₂ h₃ = h₃

module _ {ℓ} {A : Type ℓ} where
  -- The list without its `i`-th item, and with a new `i`-th item.
  unfoldable pub erase_at : List A → ℕ → List A
  erase_at [] i = []
  erase_at (x ∷ xs) zero = xs
  erase_at (x ∷ xs) (suc i) = x ∷ erase_at xs i

  unfoldable pub insert_at : List A → ℕ → A → List A
  insert_at [] i v = v ∷ []
  insert_at (x ∷ xs) zero v = v ∷ x ∷ xs
  insert_at (x ∷ xs) (suc i) v = x ∷ insert_at xs i v

  pub erase_at-take-drop : (xs : List A) (i : ℕ) → take i xs ++ drop (suc i) xs ≡ erase_at xs i
  unfolding erase_at
  erase_at-take-drop [] zero = refl
  erase_at-take-drop [] (suc i) = refl
  erase_at-take-drop (x ∷ xs) zero = refl
  erase_at-take-drop (x ∷ xs) (suc i) = ap (◌∷◌ x) (erase_at-take-drop xs i)

  erase_at_last : (xs : List A) (i : ℕ) → length xs ≡ suc i → take i xs ≡ erase_at xs i
  unfolding erase_at
  erase_at_last [] i e = absurd (omega arith)
  erase_at_last (x ∷ []) zero e = refl
  erase_at_last (x ∷ y ∷ xs) zero e = absurd (omega arith)
  erase_at_last (x ∷ xs) (suc i) e = ap (◌∷◌ x) (erase_at_last xs i (omega arith))

  erase_at_first : (xs : List A) → drop 1 xs ≡ erase_at xs 0
  unfolding erase_at
  erase_at_first [] = refl
  erase_at_first (x ∷ xs) = refl

  insert_at-take-drop :
      (xs : List A) (i : ℕ) (v : A) → (take i xs ++ v ∷ []) ++ drop i xs ≡ insert_at xs i v
  unfolding insert_at
  insert_at-take-drop [] zero v = refl
  insert_at-take-drop [] (suc i) v = refl
  insert_at-take-drop (x ∷ xs) zero v = refl
  insert_at-take-drop (x ∷ xs) (suc i) v = ap (◌∷◌ x) (insert_at-take-drop xs i v)

  -- `Remove` as the mathematics has it: one branch in place of three.
  unfoldable pub removed : Array A → ℤ → Option A × Array A
  removed a index = if outside index (length a.array) then (none, a) else (
    get_elem? a.array (pos_part index),
    record a { array = erase_at a.array (pos_part index) },
  )

  -- `Remove` answers the item at an index in range and drops it, by whichever branch; at any other
  -- index it answers that nothing was found and keeps the array.
  pub remove-removed : (a : Array A) (index : ℤ) → remove a index ≡ removed a index
  unfolding remove do_remove_without_lock removed
  remove-removed a (negsuc n) = rw negative
    where
      negative : outside (negsuc n) (length a.array) ≡ true
      negative = ground arith
  remove-removed a (pos i) =
      same_branches (outside (pos i) (length a.array)) (i == 0) (i == length a.array - 1) _ _ _ _ _
        (λ first. let e : i ≡ 0 = ground arith in rw (e, erase_at_first a.array))
        (λ inside last.
          let e : length a.array ≡ suc i = ground arith in rw (erase_at_last a.array i e))
        (rw (add-one, erase_at-take-drop a.array i))

  get_elem?-insert_at :
      (xs : List A) (i : ℕ) (v : A) → i ≤ length xs → get_elem? (insert_at xs i v) i ≡ some v
  unfolding insert_at
  get_elem?-insert_at [] zero v h = refl
  get_elem?-insert_at [] (suc i) v h = absurd (omega arith)
  get_elem?-insert_at (x ∷ xs) zero v h = refl
  get_elem?-insert_at (x ∷ xs) (suc i) v h = get_elem?-insert_at xs i v (omega arith)

  erase_at-insert_at :
      (xs : List A) (i : ℕ) (v : A) → i ≤ length xs → erase_at (insert_at xs i v) i ≡ xs
  unfolding erase_at insert_at
  erase_at-insert_at [] zero v h = refl
  erase_at-insert_at [] (suc i) v h = absurd (omega arith)
  erase_at-insert_at (x ∷ xs) zero v h = refl
  erase_at-insert_at (x ∷ xs) (suc i) v h = ap (◌∷◌ x) (erase_at-insert_at xs i v (omega arith))

  length-insert_at : (xs : List A) (i : ℕ) (v : A) → length (insert_at xs i v) ≡ suc (length xs)
  unfolding insert_at
  length-insert_at [] i v = refl
  length-insert_at (x ∷ xs) zero v = refl
  length-insert_at (x ∷ xs) (suc i) v = ap suc (length-insert_at xs i v)

  -- Taking the item out again.
  removed-insert_at :
      (a : Array A) (i : ℕ) (v : A)
      → i ≤ length a.array
      → removed (record a { array = insert_at a.array i v }) (pos i) ≡ (some v, a)
  unfolding removed
  removed-insert_at a i v h = ground (
    arith,
    length-insert_at a.array i v,
    get_elem?-insert_at a.array i v h,
    erase_at-insert_at a.array i v h,
  )

  module _ (a : Array A) (i : ℕ) (v : A) (inside : i < length a.array) where
    insert_before_lem :
        insert_before a (pos i) v ≡ (none, record a { array = insert_at a.array i v })
    unfolding insert_before
    insert_before_lem = ground (arith, insert_at-take-drop a.array i v)

    insert_after_lem :
        insert_after a (pos i) v ≡ (none, record a { array = insert_at a.array (i + 1) v })
    unfolding insert_after
    insert_after_lem = ground (arith, insert_at-take-drop a.array (i + 1) v)

    -- An item that is inserted before an index in range stands at that index, and one that is
    -- inserted behind it stands at the next: no error is returned, and removing there gives the
    -- item and the old array back.
    pub remove-insert :
        ((insert_before a (pos i) v).0 ≡ none)
        × (remove (insert_before a (pos i) v).1 (pos i) ≡ (some v, a))
        × ((insert_after a (pos i) v).0 ≡ none)
        × (remove (insert_after a (pos i) v).1 (pos (i + 1)) ≡ (some v, a))
    remove-insert =
        rw (insert_before_lem, insert_after_lem, remove-removed, remove-removed)
          (
            refl,
            removed-insert_at a i v (omega arith),
            refl,
            removed-insert_at a (i + 1) v (omega arith),
          )
