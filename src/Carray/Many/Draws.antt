-- ===== src/Carray/Many/Draws.antt =====
-- The random methods of the array of container/carray, for every outcome of the random source.
use mathlib.Core.List.{Perm}
use mathlib.Core.List.Perm
use modern_go.Base.Int.{ℤ, pos, pos_part, leb_ℤ}
use modern_go.Base.Outcome.{Outcome, ok, panic, bad_argument, ◌>>=◌, Returns}
use modern_go.Base.{
  ℕ, zero, suc, ◌+◌, ◌%◌, ◌<◌, ◌≤◌, ◌≡◌, refl, ◌∙◌, ap, arith, List, [], ◌∷◌, ◌++◌, Option, some,
  ◌||◌, ◌==◌, if◌then◌else◌, if_elim, length, get_elem?, map, min,
}
use modern_go.Carray.{Array, intn, do_remove_without_lock, remove, pop_rand}
use modern_go.Carray.Edit.{erase_at, removed, remove-removed}
use modern_go.Carray.Many.{pop_rands, pop_rands_loop}

module _ {A : Type 0} where
  -- The item at an index in range, in front of the others.
  erase_at-perm :
      (xs : List A) (i : ℕ)
      → i < length xs
      → (x : A) × (get_elem? xs i ≡ some x)
        × Perm (x ∷ erase_at xs i) xs
        × (suc (length (erase_at xs i)) ≡ length xs)
  unfolding erase_at
  erase_at-perm [] i h = absurd (omega arith)
  erase_at-perm (x ∷ xs) zero h = (x, refl, Perm.refl (x ∷ xs), refl)
  erase_at-perm (x ∷ xs) (suc i) h =
      let (y, at_i, same, shorter) = erase_at-perm xs i (omega arith) in
      (y, at_i, Perm.trans (Perm.swap x y _) (Perm.cons x same), ap suc shorter)

  -- What one draw takes out of an array that is not empty.
  pub record Taken (a : Array A) (r : Option A × Array A) : Type 0 where
    pub item : A
    pub found : r.0 ≡ some item
    pub same : Perm (item ∷ r.1.array) a.array
    pub shorter : suc (length r.1.array) ≡ length a.array

  removed_inside :
      (a : Array A) (i : ℕ)
      → i < length a.array
      → do_remove_without_lock a (pos i)
        ≡ (get_elem? a.array i, record a { array = erase_at a.array i })
  unfolding remove removed
  removed_inside a i h = remove-removed a (pos i) ∙ ground arith

  drawn :
      (a : Array A) (draw : ℕ)
      → 0 < length a.array
      → (i : ℕ) × (intn draw (length a.array) ≡ ok i) × Taken a (do_remove_without_lock a (pos i))
  unfolding intn
  drawn a draw h =
      let i = draw % length a.array in
      let inside : i < length a.array = omega arith in
      let (x, at_i, same, shorter) = erase_at-perm a.array i inside in
      let out = removed_inside a i inside in
      (i, ground arith, rw out (record { item = x; found = at_i; same = same; shorter = shorter }))

  -- `PopRand` takes some item out of an array that is not empty, whatever is drawn.
  pop_rand-Taken :
      (a : Array A) (draw : ℕ) → 0 < length a.array → Returns (pop_rand draw a) (Taken a)
  unfolding pop_rand
  pop_rand-Taken a draw h = let (i, drew, taken) = drawn a draw h in (_, rw drew, taken)

  -- On an empty array `PopRand` panics, whatever is drawn: it asks for a number below 0.
  pop_rand-empty : (a : Array A) (draw : ℕ) → a.array ≡ [] → pop_rand draw a ≡ panic bad_argument
  unfolding pop_rand intn
  pop_rand-empty a draw e = rw e

  -- What `PopRands` hands out: items, no empty slots, as many as there are up to `size`; they and
  -- the items that stay are the old ones in another order.
  pub record TakenMany (a : Array A) (n : ℕ) (r : List (Option A) × Array A) : Type 0 where
    pub items : List A
    pub filled : r.0 ≡ map some items
    pub same : Perm (items ++ r.1.array) a.array
    pub enough : length items ≡ n

  pop_rands_loop-TakenMany :
      (draws : ℕ → ℕ) (n i : ℕ) (a : Array A)
      → n ≤ length a.array
      → Returns (pop_rands_loop draws n i a) (TakenMany a n)
  unfolding pop_rands_loop
  pop_rands_loop-TakenMany draws zero i a h =
      (([], a), refl, record { items = []; filled = refl; same = Perm.refl a.array; enough = refl })
  pop_rands_loop-TakenMany draws (suc n) i a h =
      let (index, drew, t) = drawn a (draws i) (omega arith) in
      let a' = (do_remove_without_lock a (pos index)).1 in
      let (r, ran, rest) = pop_rands_loop-TakenMany draws n (i + 1) a' (omega (arith, t.shorter)) in
      (
        (some t.item ∷ r.0, r.1),
        rw (drew, ◌>>=◌, ran, t.found),
        record {
          items = t.item ∷ rest.items;
          filled = ap (◌∷◌ (some t.item)) rest.filled;
          same = Perm.trans (Perm.cons t.item rest.same) t.same;
          enough = ap suc rest.enough;
        },
      )

  -- `PopRands` never panics and never leaves a slot empty, whatever is drawn and for any size.
  pub pop_rands-TakenMany :
      (draws : ℕ → ℕ) (a : Array A) (size : ℤ)
      → Returns (pop_rands draws a size) (TakenMany a (min (pos_part size) (length a.array)))
  unfolding pop_rands
  pop_rands-TakenMany draws a size =
      if_elim
        (λ (r : Outcome (List (Option A) × Array A)).
          Returns r (TakenMany a (min (pos_part size) (length a.array))))
        (leb_ℤ size (pos 0) || (length a.array == 0))
        (λ e. (
          ([], a),
          refl,
          record { items = []; filled = refl; same = Perm.refl a.array; enough = ground arith },
        ))
        (λ e.
          let n = if leb_ℤ (pos (length a.array)) size then length a.array else pos_part size in
          let same : n ≡ min (pos_part size) (length a.array) = ground arith in
          rw (← same) (pop_rands_loop-TakenMany draws n 0 a (ground arith)))
