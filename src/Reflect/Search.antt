-- ===== src/Reflect/Search.antt =====
-- gls/g/reflect.go: the binary search.
use modern_go.Base.Outcome.{Returns}
use modern_go.Base.{
  ℕ, zero, suc, ◌+◌, ◌-◌, ◌/◌, ◌≤◌, ◌<◌, ◌≡◌, refl, arith, List, [], ◌∷◌, none, some, true, false,
  length, get_elem?, get_elem?-inside, dec_lt, Bool-cases, inl, inr,
}
use modern_go.Reflect.{Bytes, str_le, Runtime, search_loop, binary_search}

pub str_le_trans : (a b c : Bytes) → str_le a b ≡ true → str_le b c ≡ true → str_le a c ≡ true
unfolding str_le
str_le_trans [] b c p q = refl
str_le_trans (x ∷ a) [] c p q = ground (arith, p)
str_le_trans (x ∷ a) (y ∷ b) [] p q = ground (arith, q)
str_le_trans (x ∷ a) (y ∷ b) (z ∷ c) p q = ground (arith, p, q, str_le_trans a b c)

pub get_elem?-beyond : {T : Type 0} (xs : List T) (i : ℕ) → length xs ≤ i → get_elem? xs i ≡ none
get_elem?-beyond [] i h = refl
get_elem?-beyond (x ∷ xs) zero h = absurd (omega arith)
get_elem?-beyond (x ∷ xs) (suc i) h = get_elem?-beyond xs i (omega arith)

module _ {T : Type 0} (rt : Runtime T) where
  -- A table is sorted by string.
  abbrev pub IsSorted : List T → Type 0
  IsSorted offs =
      (i j : ℕ) (t u : T)
      → i ≤ j
      → get_elem? offs i ≡ some t
      → get_elem? offs j ≡ some u
      → str_le (rt.string t) (rt.string u) ≡ true

  -- All types before `i` are below the target.
  abbrev pub Below : List T → Bytes → ℕ → Type 0
  Below offs s i =
      (k : ℕ) (t : T) → k < i → get_elem? offs k ≡ some t → str_le s (rt.string t) ≡ false

  -- All types from `j` on are at the target or above.
  abbrev pub Above : List T → Bytes → ℕ → Type 0
  Above offs s j =
      (k : ℕ) (t : T) → j ≤ k → get_elem? offs k ≡ some t → str_le s (rt.string t) ≡ true

  pub record IsFirst (offs : List T) (s : Bytes) (i : ℕ) : Type 0 where
    pub bound : i ≤ length offs
    pub below : Below offs s i
    pub above : Above offs s i

  search_loop-IsFirst :
      (fuel : ℕ) (offs : List T) (s : Bytes) (i j : ℕ)
      → IsSorted offs
      → j - i ≤ fuel
      → i ≤ j
      → j ≤ length offs
      → Below offs s i
      → Above offs s j
      → Returns (search_loop rt fuel offs s i j) (IsFirst offs s)
  unfolding search_loop
  search_loop-IsFirst zero offs s i j sorted enough order inside below above =
      let same : j ≡ i = omega arith in
      (i, ground arith, record { bound = omega arith; below = below; above = rw same at above })
  search_loop-IsFirst (suc fuel) offs s i j sorted enough order inside below above =
      elim (dec_lt i j) [
        | no stop ↦
            let same : j ≡ i = omega arith in
            (
              i,
              ground (arith, stop),
              record { bound = omega arith; below = below; above = rw same at above },
            )
        | yes more ↦
            let h = i + (j - i) / 2 in
            let (t, there) = get_elem?-inside offs h (omega arith) in
            elim (Bool-cases (str_le s (rt.string t))) [
              | inl at_or_above ↦
                  let (r, ran, first) =
                    search_loop-IsFirst fuel offs s i h sorted (omega arith) (omega arith)
                      (omega arith) below
                      (λ k u le e.
                        str_le_trans s (rt.string t) (rt.string u) at_or_above
                          (sorted h k t u le there e)) in
                  (r, ground (arith, more, there, at_or_above, ran), first)
              | inr under ↦
                  let (r, ran, first) =
                    search_loop-IsFirst fuel offs s (h + 1) j sorted (omega arith) (omega arith)
                      (omega arith)
                      (λ k u lt e. elim (Bool-cases (str_le s (rt.string u))) [
                        | inr is_under ↦ is_under
                        | inl is_above ↦
                            let chain =
                              str_le_trans s (rt.string u) (rt.string t) is_above
                                (sorted k h u t (omega arith) e there) in
                            ground (arith, under, chain)
                      ])
                      above in
                  (r, ground (arith, more, there, under, ran), first)
            ]
      ]

  -- In a sorted table the binary search ends, and finds the first index from which on the strings
  -- are at the target or above.
  pub binary_search-IsFirst :
      (offs : List T) (s : Bytes)
      → IsSorted offs
      → Returns (binary_search rt offs s) (IsFirst offs s)
  unfolding binary_search
  binary_search-IsFirst offs s sorted =
      search_loop-IsFirst (length offs) offs s 0 (length offs) sorted (omega arith) (omega arith)
        (omega arith) (λ k t lt e. absurd (omega arith)) (λ k t le e. beyond offs k t le e)
    where
      beyond :
          (offs : List T) (k : ℕ) (t : T)
          → length offs ≤ k
          → get_elem? offs k ≡ some t
          → str_le s (rt.string t) ≡ true
      beyond offs k t le e = ground (arith, get_elem?-beyond offs k le, e)
