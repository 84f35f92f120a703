-- ===== src/Skiplist/Cells/Reach.antt =====
-- Where a walk along one level ends.
use modern_go.Base.{
  ℕ, suc, ◌+◌, ◌<◌, ◌≤◌, ◌≡◌, ◌≢◌, refl, ◌∙◌, ap, arith, List, [], ◌∷◌, ◌++◌, ltb, lt→ltb,
  if◌then◌else◌, length, false, ◌⊎◌, inl, inr, dec_lt,
}
use modern_go.Skiplist.Cells.{Cell, All, All-split, Avoids, AreApart, reach}

ltb-false : (a b : ℕ) → b ≤ a → ltb a b ≡ false
ltb-false a b h = ground arith

module _ {K S : Type 0} where
  pub reach_stop :
      (i x k : ℕ) (c : Cell K S) (cs : List (Cell K S))
      → i < c.height
      → reach i x k (c ∷ cs) ≡ reach i c.address 0 cs
  unfolding reach
  reach_stop i x k c cs h = rw (lt→ltb i c.height h)

  pub reach_skip :
      (i x k : ℕ) (c : Cell K S) (cs : List (Cell K S))
      → c.height ≤ i
      → reach i x k (c ∷ cs) ≡ reach i x (suc k) cs
  unfolding reach
  reach_skip i x k c cs h = rw (ltb-false i c.height h)

  -- A walk ends at the start or at one of the cells.
  pub reach_avoids :
      (a i x k : ℕ) (cs : List (Cell K S)) → x ≢ a → Avoids a cs → (reach i x k cs).0 ≢ a
  unfolding reach
  reach_avoids a i x k [] ne h = ne
  reach_avoids a i x k (c ∷ cs) ne h = elim (dec_lt i c.height) [
    | yes p ↦ rw (reach_stop i x k c cs p) (reach_avoids a i c.address 0 cs h.0 h.1)
    | no p ↦ rw (reach_skip i x k c cs (omega arith)) (reach_avoids a i x (suc k) cs ne h.1)
  ]

  pub reach_apart :
      (i x k : ℕ) (xs ys : List (Cell K S))
      → Avoids x ys
      → AreApart (xs ++ ys)
      → Avoids (reach i x k xs).0 ys
  unfolding reach
  reach_apart i x k [] ys h apart = h
  reach_apart i x k (c ∷ xs) ys h apart = elim (dec_lt i c.height) [
    | yes p ↦
        rw (reach_stop i x k c xs p)
          (reach_apart i c.address 0 xs ys (All-split _ xs ys apart.0).1 apart.1)
    | no p ↦ rw (reach_skip i x k c xs (omega arith)) (reach_apart i x (suc k) xs ys h apart.1)
  ]

  -- No cell reaches the level.
  pub reach_flat :
      (i x k : ℕ) (cs : List (Cell K S))
      → All (λ c. c.height ≤ i) cs
      → reach i x k cs ≡ (x, k + length cs)
  unfolding reach
  reach_flat i x k [] h = ap (λ n. (x, n)) (omega arith)
  reach_flat i x k (c ∷ cs) h =
      reach_skip i x k c cs h.0 ∙ reach_flat i x (suc k) cs h.1 ∙ ap (λ n. (x, n)) (omega arith)

  pub reach_middle :
      (i x k : ℕ) (xs : List (Cell K S)) (c : Cell K S) (cs : List (Cell K S))
      → i < c.height
      → reach i x k (xs ++ c ∷ cs) ≡ reach i c.address 0 cs
  unfolding reach
  reach_middle i x k [] c cs h = reach_stop i x k c cs h
  reach_middle i x k (d ∷ xs) c cs h =
      reach_middle i (if ltb i d.height then d.address else x) (if ltb i d.height then 0 else suc k)
        xs c cs h

  -- The last cell that reaches a level, if one does.
  pub last_tall :
      (i : ℕ) (cs : List (Cell K S))
      → All (λ c. c.height ≤ i) cs
        ⊎ ((xs : List (Cell K S)) × (c : Cell K S) × (ys : List (Cell K S)) × (cs ≡ xs ++ c ∷ ys)
            × (i < c.height)
            × All (λ c. c.height ≤ i) ys)
  last_tall i [] = inl tt
  last_tall i (d ∷ cs) = elim (last_tall i cs) [
    | inr (xs, c, ys, e, tall, flat) ↦ inr (d ∷ xs, c, ys, ap (◌∷◌ d) e, tall, flat)
    | inl flat ↦ elim (dec_lt i d.height) [
      | yes p ↦ inr ([], d, cs, refl, p, flat)
      | no p ↦ inl (omega arith, flat)
    ]
  ]
