-- ===== src/Base/Windows.antt =====
-- A part of a list, and a part of a list that is written over.
use Prim.Native.Nat.{ℕ, zero, suc, ◌+◌, ◌-◌, ◌≤◌, ◌<◌}
use mathlib.Core.Path.{◌≡◌, refl, sym, ap, ◌∙◌}
use mathlib.Core.List.{List, [], ◌∷◌, ◌++◌}
use native.Mathlib.Omega.{arith}
use modern_go.Base.Lists.{length, take, drop, get_or}

module _ {ℓ} {A : Type ℓ} where
  -- `vs` over the items of `xs` from place `p` on.
  abbrev pub write : List A → ℕ → List A → List A
  write xs p vs = take p xs ++ (vs ++ drop (p + length vs) xs)

  pub drop_sum : (n m : ℕ) (xs : List A) → drop (n + m) xs ≡ drop m (drop n xs)
  drop_sum zero m xs = let e : 0 + m ≡ m = omega arith in rw e
  drop_sum (suc n) zero [] = let e : suc n + 0 ≡ suc n = omega arith in rw e
  drop_sum (suc n) (suc m) [] = let e : suc n + suc m ≡ suc (n + suc m) = omega arith in rw e
  drop_sum (suc n) m (x ∷ xs) =
      let e : suc n + m ≡ suc (n + m) = omega arith in rw e (drop_sum n m xs)

  pub drop-take_append :
      (o n : ℕ) (xs ys : List A)
      → o ≤ length xs
      → drop o (take (o + n) xs ++ ys) ≡ take n (drop o xs) ++ ys
  drop-take_append zero n xs ys le = let e : 0 + n ≡ n = omega arith in rw e
  drop-take_append (suc o) n [] ys le = absurd (omega arith)
  drop-take_append (suc o) n (x ∷ xs) ys le =
      let e : suc o + n ≡ suc (o + n) = omega arith in
      rw e (drop-take_append o n xs ys (omega arith))

  pub take-take_append :
      (l n : ℕ) (xs ys : List A) → l ≤ n → n ≤ length xs → take l (take n xs ++ ys) ≡ take l xs
  take-take_append zero n xs ys le in_xs = refl
  take-take_append (suc l) zero xs ys le in_xs = absurd (omega arith)
  take-take_append (suc l) (suc n) [] ys le in_xs = absurd (omega arith)
  take-take_append (suc l) (suc n) (x ∷ xs) ys le in_xs =
      ap (◌∷◌ x) (take-take_append l n xs ys (omega arith) (omega arith))

  -- More than the first list.
  pub take-append_more :
      (l : ℕ) (vs ys : List A) → length vs ≤ l → take l (vs ++ ys) ≡ vs ++ take (l - length vs) ys
  take-append_more l [] ys le = let e : l - 0 ≡ l = omega arith in rw e
  take-append_more zero (v ∷ vs) ys le = absurd (omega arith)
  take-append_more (suc l) (v ∷ vs) ys le =
      let e : suc l - suc (length vs) ≡ l - length vs = omega arith in
      rw e (ap (◌∷◌ v) (take-append_more l vs ys (omega arith)))

  take_nil : (n : ℕ) → take {A = A} n [] ≡ []
  take_nil zero = refl
  take_nil (suc n) = refl

  pub drop-take : (k l : ℕ) (xs : List A) → drop k (take l xs) ≡ take (l - k) (drop k xs)
  drop-take zero l xs = let e : l - 0 ≡ l = omega arith in rw e
  drop-take (suc k) zero xs = let e : 0 - suc k ≡ 0 = omega arith in rw e
  drop-take (suc k) (suc l) [] = sym (take_nil (suc l - suc k))
  drop-take (suc k) (suc l) (x ∷ xs) =
      let e : suc l - suc k ≡ l - k = omega arith in rw e (drop-take k l xs)

  pub take-drop_sum : (n m : ℕ) (xs : List A) → take n xs ++ take m (drop n xs) ≡ take (n + m) xs
  take-drop_sum zero m xs = let e : 0 + m ≡ m = omega arith in rw e
  take-drop_sum (suc n) m [] = take_nil m ∙ sym (take_nil (suc n + m))
  take-drop_sum (suc n) m (x ∷ xs) =
      let e : suc n + m ≡ suc (n + m) = omega arith in rw e (ap (◌∷◌ x) (take-drop_sum n m xs))

  pub get_or_last : (xs : List A) (b d : A) → get_or (xs ++ b ∷ []) (length xs) d ≡ b
  get_or_last [] b d = refl
  get_or_last (x ∷ xs) b d = get_or_last xs b d

  pub get_or_front :
      (xs ys : List A) (i : ℕ) (d : A) → i < length xs → get_or (xs ++ ys) i d ≡ get_or xs i d
  get_or_front [] ys i d lt = absurd (omega arith)
  get_or_front (x ∷ xs) ys zero d lt = refl
  get_or_front (x ∷ xs) ys (suc i) d lt = get_or_front xs ys i d (omega arith)
