-- ===== src/Carray/Scan/Reorder.antt =====
-- Reverse and Shuffle of the array of container/carray.
use mathlib.Core.List
use mathlib.Core.List.{append_assoc, append-nil, Perm}
use mathlib.Core.List.Perm
use mathlib.Core.Path.{subst}
use modern_go.Base.Outcome.{ok, ◌>>=◌, Returns}
use modern_go.Base.{
  ℕ, zero, suc, ◌+◌, ◌-◌, ◌<◌, ◌≤◌, ◌≡◌, refl, sym, ◌∙◌, ap, arith, List, [], ◌∷◌, ◌++◌, some, true,
  length, get_elem?, ltb, set as set_at, set-append, length-append, get_elem?-append, length-set,
}
use modern_go.Carray.{Array, at}
use modern_go.Carray.Scan.{swap, reverse_loop, reverse, shuffle_loop, shuffle}

-- Indices of a list of `n` items.
abbrev pub AllBelow : ℕ → List ℕ → Type 0
AllBelow n [] = Unit
AllBelow n (v ∷ vs) = (v < n) × AllBelow n vs

module _ {A : Type 0} where
  -- A list that is not empty, by its last item.
  snoc_view :
      (x : A) (xs : List A)
      → (front : List A) × (last : A) × (x ∷ xs ≡ front ++ last ∷ []) × (length front ≡ length xs)
  snoc_view x [] = ([], x, refl, refl)
  snoc_view x (y ∷ ys) =
      let (front, last, e, n) = snoc_view y ys in (x ∷ front, last, ap (◌∷◌ x) e, ap suc n)

  swap_ends :
      (pre core post : List A) (x y : A)
      → swap (pre ++ x ∷ (core ++ y ∷ post)) (length pre) (length pre + length core + 1)
        ≡ ok (pre ++ y ∷ (core ++ x ∷ post))
  unfolding swap at
  swap_ends pre core post x y =
      rw (get_elem?-append pre _ x, ◌>>=◌, last, ◌>>=◌, set-append pre _ x y, last_set)
    where
      there : (z : A) → length (pre ++ z ∷ core) ≡ length pre + length core + 1
      there z = omega (arith, length-append pre (z ∷ core))

      last : get_elem? (pre ++ x ∷ (core ++ y ∷ post)) (length pre + length core + 1) ≡ some y
      last = simp (append_assoc, there x) at (get_elem?-append (pre ++ x ∷ core) post y)

      last_set :
          set_at (pre ++ y ∷ (core ++ y ∷ post)) (length pre + length core + 1) x
          ≡ pre ++ y ∷ (core ++ x ∷ post)
      last_set = simp (append_assoc, there y) at (set-append (pre ++ y ∷ core) post y x)

  reverse-ends :
      (core : List A) (x y : A)
      → List.reverse (x ∷ (core ++ y ∷ [])) ≡ y ∷ (List.reverse core ++ x ∷ [])
  reverse-ends core x y = simp (List.reverse-cons, List.reverse-append)

  -- `Reverse` has come to the items `mid` between `pre` and `post`, and turns them round.
  abbrev Reverses : ℕ → List A → List A → List A → Type 0
  Reverses fuel pre mid post =
      reverse_loop fuel (length pre) (length pre + length mid - 1) (pre ++ (mid ++ post))
      ≡ ok (pre ++ (List.reverse mid ++ post))

  -- One round trades the ends of `mid`.
  reverse_round :
      (fuel : ℕ) (pre core post : List A) (x y : A)
      → Reverses fuel (pre ++ y ∷ []) core (x ∷ post)
      → Reverses (suc fuel) pre (x ∷ (core ++ y ∷ [])) post
  unfolding reverse_loop
  reverse_round fuel pre core post x y rest =
      rw
        (
          last_index,
          test,
          append_assoc,
          swap_ends pre core post x y,
          ◌>>=◌,
          reverse-ends,
          append_assoc,
        )
        (rw next_last at (simp (length-append, append_assoc) at rest))
    where
      last_index : length pre + length (x ∷ (core ++ y ∷ [])) - 1 ≡ length pre + length core + 1
      last_index = omega (arith, length-append core (y ∷ []))

      test : ltb (length pre) (length pre + length core + 1) ≡ true
      test = ground arith

      next_last : length pre + 1 + length core - 1 ≡ length pre + length core + 1 - 1
      next_last = omega arith

  reverse_loop-reverse :
      (fuel : ℕ) (pre mid post : List A) → length mid ≤ fuel → Reverses fuel pre mid post
  unfolding reverse_loop
  reverse_loop-reverse zero pre [] post h = refl
  reverse_loop-reverse zero pre (x ∷ mid) post h = absurd (omega arith)
  reverse_loop-reverse (suc fuel) pre [] post h = ground arith
  reverse_loop-reverse (suc fuel) pre (x ∷ []) post h = ground arith
  reverse_loop-reverse (suc fuel) pre (x ∷ z ∷ zs) post h =
      let (core, y, e, n) = snoc_view z zs in
      subst (λ m. Reverses (suc fuel) pre (x ∷ m) post) (sym e)
        (reverse_round fuel pre core post x y
          (reverse_loop-reverse fuel (pre ++ y ∷ []) core (x ∷ post) (omega arith)))

  -- `Reverse` turns the order of the items round, and does not panic.
  pub reverse-reverse : (a : Array A) → reverse a ≡ ok (record a { array = List.reverse a.array })
  unfolding reverse
  reverse-reverse a =
      let run =
        simp append-nil at (reverse_loop-reverse (length a.array) [] a.array [] (omega arith)) in
      let index : 0 + length a.array - 1 ≡ length a.array - 1 = omega arith in rw (rw index at run)

  set-perm :
      (xs : List A) (i : ℕ) (x v : A) → get_elem? xs i ≡ some x → Perm (x ∷ set_at xs i v) (v ∷ xs)
  set-perm [] i x v h = absurd (cc)
  set-perm (y ∷ xs) zero x v h = rw (some_eq h) (Perm.swap v x xs)
    where
      some_eq : some y ≡ some x → y ≡ x
      some_eq e = cc
  set-perm (y ∷ xs) (suc i) x v h =
      Perm.trans (Perm.swap y x _)
        (Perm.trans (Perm.cons y (set-perm xs i x v h)) (Perm.swap v y xs))

  get_elem?-inside : (xs : List A) (i : ℕ) → i < length xs → (x : A) × (get_elem? xs i ≡ some x)
  get_elem?-inside [] i h = absurd (omega arith)
  get_elem?-inside (x ∷ xs) zero h = (x, refl)
  get_elem?-inside (x ∷ xs) (suc i) h = get_elem?-inside xs i (omega arith)

  -- After a write of what stands at `j`, it stands there still.
  kept :
      (xs : List A) (i j : ℕ) (y : A)
      → get_elem? xs j ≡ some y
      → get_elem? (set_at xs i y) j ≡ some y
  kept [] i j y h = h
  kept (x ∷ xs) zero zero y h = refl
  kept (x ∷ xs) zero (suc j) y h = h
  kept (x ∷ xs) (suc i) zero y h = h
  kept (x ∷ xs) (suc i) (suc j) y h = kept xs i j y h

  -- Two items change places, and the list keeps its length.
  record Swapped (xs ys : List A) : Type 0 where
    same : Perm ys xs
    long : length ys ≡ length xs

  swap-Swapped :
      (xs : List A) (i j : ℕ) → i < length xs → j < length xs → Returns (swap xs i j) (Swapped xs)
  unfolding swap at
  swap-Swapped xs i j hi hj =
      let (x, at_i) = get_elem?-inside xs i hi in
      let (y, at_j) = get_elem?-inside xs j hj in
      let second = set-perm (set_at xs i y) j y x (kept xs i j y at_j) in
      (
        set_at (set_at xs i y) j x,
        rw (at_i, ◌>>=◌, at_j),
        record {
          same = Perm.cons_inv (Perm.trans second (set-perm xs i x y at_i));
          long = length-set (set_at xs i y) j x ∙ length-set xs i y;
        },
      )

  shuffle_loop-perm :
      (vs : List ℕ) (i : ℕ) (xs : List A)
      → i + length vs ≤ length xs
      → AllBelow (length xs) vs
      → Returns (shuffle_loop i vs xs) λ ys. Perm ys xs
  unfolding shuffle_loop
  shuffle_loop-perm [] i xs h below = (xs, refl, Perm.refl xs)
  shuffle_loop-perm (v ∷ vs) i xs h below =
      let (ys, ran, s) = swap-Swapped xs i v (omega arith) below.0 in
      let (zs, rans, same) =
        shuffle_loop-perm vs (i + 1) ys (omega (arith, s.long)) (rw s.long below.1) in
      (zs, rw ran rans, Perm.trans same s.same)

  -- `Shuffle` does not panic and keeps every item as often as it stood there, for any `rand.Perm`
  -- that answers `n` numbers below `n`.
  pub shuffle-perm :
      (rand_perm : ℕ → List ℕ) (a : Array A)
      → length (rand_perm (length a.array)) ≡ length a.array
      → AllBelow (length a.array) (rand_perm (length a.array))
      → Returns (shuffle rand_perm a) λ b. Perm b.array a.array
  unfolding shuffle
  shuffle-perm rand_perm a size below =
      let (ys, ran, same) = shuffle_loop-perm _ 0 a.array (omega arith) below in
      (record a { array = ys }, rw ran, same)
