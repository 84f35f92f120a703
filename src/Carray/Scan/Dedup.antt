-- ===== src/Carray/Scan/Dedup.antt =====
-- Unique of the array of container/carray.
use mathlib.Core.List.{append_assoc}
use mathlib.Core.Logic.{ite}
use modern_go.Base.Dict
use modern_go.Base.Outcome.{ok, ◌>>=◌, Returns}
use modern_go.Base.{
  ℕ, zero, suc, ◌+◌, ◌-◌, ◌≤◌, ◌≡◌, refl, ap, arith, List, [], ◌∷◌, ◌++◌, some, true, length,
  get_elem?, ltb, take, drop, length-append, get_elem?-append, min,
}
use modern_go.Carray.{Array, at}
use modern_go.Carray.Scan.{unique_inner, unique_outer, unique}

module _ {A : Type 0} where
  get_elem?-append_left :
      (xs ys : List A) (i : ℕ) (x : A) → get_elem? xs i ≡ some x → get_elem? (xs ++ ys) i ≡ some x
  get_elem?-append_left [] ys i x h = absurd (cc)
  get_elem?-append_left (z ∷ xs) ys zero x h = h
  get_elem?-append_left (z ∷ xs) ys (suc i) x h = get_elem?-append_left xs ys i x h

  -- Cutting out the item at the end of `front`.
  cut_out :
      (front ys : List A) (y : A)
      → take (length front) (front ++ y ∷ ys) ++ drop (suc (length front)) (front ++ y ∷ ys)
        ≡ front ++ ys
  cut_out [] ys y = refl
  cut_out (x ∷ front) ys y = ap (◌∷◌ x) (cut_out front ys y)

module _ {A : Type 0} (item_eq : Discrete A) where
  -- The list without the items equal to `x`.
  pub without : A → List A → List A
  without x [] = []
  without x (y ∷ ys) = let rest = without x ys in ite (item_eq x y) rest (y ∷ rest)

  -- The first occurrence of every item, in order.
  pub dedup : List A → List A
  dedup [] = []
  dedup (x ∷ xs) = x ∷ without x (dedup xs)

  without_comm : (x y : A) (l : List A) → without x (without y l) ≡ without y (without x l)
  unfolding without
  without_comm x y [] = refl
  without_comm x y (z ∷ l) = ground (arith, without_comm x y l)

  without_idem : (x : A) (l : List A) → without x (without x l) ≡ without x l
  unfolding without
  without_idem x [] = refl
  without_idem x (z ∷ l) = ground (arith, without_idem x l)

  dedup-without : (x : A) (l : List A) → dedup (without x l) ≡ without x (dedup l)
  unfolding without dedup
  dedup-without x [] = refl
  dedup-without x (y ∷ l) =
      ground (arith, dedup-without x l, without_idem x (dedup l), without_comm x y (dedup l))

  length-without : (x : A) (l : List A) → length (without x l) ≤ length l
  unfolding without
  length-without x [] = omega arith
  length-without x (y ∷ l) = ground (arith, length-without x l)

  occurs-without :
      (x q : A) (l : List A)
      → Dict.occurs item_eq q (without x l) ≡ ite (item_eq x q) 0 (Dict.occurs item_eq q l)
  unfolding without Dict.occurs
  occurs-without x q [] = ground arith
  occurs-without x q (y ∷ l) = ground (arith, occurs-without x q l)

  occurs-dedup :
      (q : A) (l : List A) → Dict.occurs item_eq q (dedup l) ≡ min 1 (Dict.occurs item_eq q l)
  unfolding dedup Dict.occurs
  occurs-dedup q [] = refl
  occurs-dedup q (x ∷ l) = ground (arith, occurs-dedup q l, occurs-without x q (dedup l))

  unique_inner-without :
      (n i : ℕ) (x : A) (front rest : List A)
      → get_elem? front i ≡ some x
      → length rest ≡ n
      → unique_inner item_eq n i (length front) (front ++ rest) ≡ ok (front ++ without x rest)
  unfolding unique_inner without at
  unique_inner-without zero i x front [] at_i e = refl
  unique_inner-without zero i x front (y ∷ ys) at_i e = absurd (omega arith)
  unique_inner-without (suc n) i x front [] at_i e = absurd (omega arith)
  unique_inner-without (suc n) i x front (y ∷ ys) at_i e =
      let further =
        unique_inner-without n i x (front ++ y ∷ []) ys
          (get_elem?-append_left front (y ∷ []) i x at_i) (omega arith) in
      let skipped : unique_inner item_eq n i (length front + 1) (front ++ y ∷ ys)
          ≡ ok (front ++ y ∷ without x ys) =
        simp (length-append, append_assoc) at further in
      ground (
        arith,
        get_elem?-append_left front (y ∷ ys) i x at_i,
        get_elem?-append front ys y,
        cut_out front ys y,
        unique_inner-without n i x front ys at_i (omega arith),
        skipped,
      )

  -- The inner loop for the item `x` behind `pre`.
  unique_inner_first :
      (pre rest : List A) (x : A)
      → unique_inner item_eq
          (length (pre ++ x ∷ rest) - (length pre + 1))
          (length pre)
          (length pre + 1)
          (pre ++ x ∷ rest)
        ≡ ok (pre ++ x ∷ without x rest)
  unique_inner_first pre rest x =
      let run =
        unique_inner-without (length rest) (length pre) x (pre ++ x ∷ []) rest
          (get_elem?-append pre [] x) refl in
      let rounds : length (pre ++ x ∷ rest) - (length pre + 1) ≡ length rest =
        omega (arith, length-append pre (x ∷ rest)) in
      rw rounds (simp (length-append, append_assoc) at run)

  dedup_cons : (x : A) (xs : List A) → dedup (x ∷ xs) ≡ x ∷ dedup (without x xs)
  dedup_cons x xs = rw (dedup-without x xs) (unfold dedup in refl)

  unique_outer-dedup :
      (fuel : ℕ) (pre xs : List A)
      → length xs ≤ fuel
      → unique_outer item_eq fuel (length pre) (pre ++ xs) ≡ ok (pre ++ dedup xs)
  unfolding unique_outer
  unique_outer-dedup zero pre [] h = unfold dedup in refl
  unique_outer-dedup zero pre (x ∷ xs) h = absurd (omega arith)
  unique_outer-dedup (suc fuel) pre [] h = unfold dedup in ground (arith, length-append pre [])
  unique_outer-dedup (suc fuel) pre (x ∷ []) h =
      unfold dedup without in ground (arith, length-append pre (x ∷ []))
  unique_outer-dedup (suc fuel) pre (x ∷ y ∷ ys) h =
      let more : ltb (length pre) (length (pre ++ x ∷ y ∷ ys) - 1) ≡ true =
        ground (arith, length-append pre (x ∷ y ∷ ys)) in
      let later =
        unique_outer-dedup fuel (pre ++ x ∷ []) (without x (y ∷ ys))
          (omega (arith, length-without x (y ∷ ys))) in
      rw (more, unique_inner_first pre (y ∷ ys) x, ◌>>=◌, dedup_cons x (y ∷ ys))
        (simp (length-append, append_assoc) at later)

  -- `Unique` does not panic. It keeps the first of every item's occurrences, in their order, so
  -- each item that occurred occurs exactly once, and no other item does.
  pub unique-dedup :
      (a : Array A)
      → Returns (unique item_eq a) λ b.
        (b.array ≡ dedup a.array)
        × ((q : A) → Dict.occurs item_eq q b.array ≡ min 1 (Dict.occurs item_eq q a.array))
  unfolding unique
  unique-dedup a = (
    record a { array = dedup a.array },
    rw (unique_outer-dedup (length a.array) [] a.array (omega arith)),
    (refl, λ q. occurs-dedup q a.array),
  )
