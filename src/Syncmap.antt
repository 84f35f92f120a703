-- ===== src/Syncmap.antt =====
-- container/syncmap/len.go. A sync.Map is its entries in the order in which Range comes to them; no
-- other goroutine changes it meanwhile.
use modern_go.Base.{
  ℕ, ◌+◌, ◌≡◌, ◌∙◌, arith, List, [], ◌∷◌, Option, none, some, Bool, true, false,
  length as list_length,
}

-- `Range` of sync.Map, with a callback that works on a state and answers whether to go on.
pub range_loop {ℓ κ} : {E : Type ℓ} {S : Type κ} → (S → E → Bool × S) → S → List E → S
range_loop f s [] = s
range_loop f s (e ∷ es) =
    let (goes_on, s') = f s e in
    let rest = range_loop f s' es in elim goes_on [ true ↦ rest | false ↦ s' ]

pub length {ℓ} : {E : Type ℓ} → Option (List E) → ℕ
unfolding range_loop
length none = 0
length (some m) = range_loop (λ n e. (true, n + 1)) 0 m

-- Every entry is counted once.
range_loop-length {ℓ} :
    {E : Type ℓ} (n : ℕ) (m : List E) → range_loop (λ k e. (true, k + 1)) n m ≡ n + list_length m
unfolding range_loop
range_loop-length n [] = omega arith
range_loop-length n (e ∷ es) = range_loop-length (n + 1) es ∙ omega arith

length-entries {ℓ} : {E : Type ℓ} (m : List E) → length (some m) ≡ list_length m
unfolding length
length-entries m = range_loop-length 0 m ∙ omega arith
