-- ===== src/Skiplist/Query/Ranked.antt =====
-- GetRank of container/skiplist/skiplist.go: the rank of a key by the spans.
use mathlib.Core.List.{append_assoc}
use modern_go.Base.Outcome.{ok, ◌>>=◌}
use modern_go.Base.{
  ℕ, zero, suc, ◌+◌, ◌≤◌, ◌<◌, ◌≡◌, ◌≢◌, refl, ◌∙◌, ap, arith, List, [], ◌∷◌, ◌++◌, true, false,
  length, length-append, ◌⊎◌, inl, inr,
}
use modern_go.Skiplist.Cells.Reach.{last_tall, reach_flat, reach_middle}
use modern_go.Skiplist.{Compare, Node, SkipList, node_at, precedes_or_is, walk}
use modern_go.Skiplist.Query.{rank_loop}
use modern_go.Skiplist.Cells.{Cell, All, All-split, All-append, Chain, reach}
use modern_go.Skiplist.Cells.Links.{Chain-middle}
use modern_go.Skiplist.Cells.Walk.{Answers, walk_lem}
use modern_go.Skiplist.Modelled.{Found}

unmatched {ℓ} :
    {A : Type ℓ} {P : Type 0} (d : Dec P) (x y : A)
    → ¬ P
    → elim d as (λ _. A) [ yes _ ↦ x | no _ ↦ y ] ≡ y
unmatched (yes p) x y n = absurd (n p)
unmatched (no n) x y m = refl

matched {ℓ} :
    {A : Type ℓ} {P : Type 0} (d : Dec P) (x y : A)
    → P
    → elim d as (λ _. A) [ yes _ ↦ x | no _ ↦ y ] ≡ x
matched (yes p) x y h = refl
matched (no n) x y h = absurd (n h)

-- The last of a list that is not empty, apart.
pub snoc_cases :
    {A : Type 0} (xs ys : List A) (c d : A) (zs : List A)
    → ys ++ d ∷ [] ≡ xs ++ c ∷ zs
    → ((zs ≡ []) × (c ≡ d)) ⊎ ((us : List A) × (zs ≡ us ++ d ∷ []) × (ys ≡ xs ++ c ∷ us))
snoc_cases [] [] c d zs e = inl (ground arith, ground arith)
snoc_cases [] (y ∷ ys) c d zs e = inr (ys, ground arith, ground arith)
snoc_cases (x ∷ []) [] c d zs e = absurd (ground arith)
snoc_cases (x ∷ x' ∷ xs) [] c d zs e = absurd (ground arith)
snoc_cases (x ∷ xs) (y ∷ ys) c d zs e = elim (snoc_cases xs ys c d zs (ground arith)) [
  | inl (e', same) ↦ inl (e', same)
  | inr (us, e', more) ↦ inr (us, e', ground arith)
]

module _ {A : Type 0} (d : A) (xs : List A) (e : A) (us : List A) {ys : List A}
    (parts : ys ≡ xs ++ e ∷ us) where
  -- What holds of all up to `d` holds of those behind `e`.
  pub behind : (P : A → Type 0) → All P (ys ++ d ∷ []) → All P (us ++ d ∷ [])
  behind P h =
      let all = All-split P ys (d ∷ []) h in
      All-append P us (d ∷ []) (All-split P xs (e ∷ us) (rw parts at all.0)).1.1 all.1

  pub regroup : (hi : List A) → (ys ++ d ∷ []) ++ hi ≡ xs ++ e ∷ ((us ++ d ∷ []) ++ hi)
  regroup hi = rw parts (simp append_assoc)

module _ {K S : Type 0} (c : Compare K S) (key : K) (score : S) (sl : SkipList K S) (d : Cell K S)
    (hi : List (Cell K S)) (d_key : d.key ≡ key)
    (refused : Answers sl (precedes_or_is c key score) false hi) where
  -- The walk stands at a node of another key.
  abbrev pub Other : ℕ → Type 0
  Other x = (n : Node K S) × (node_at sl x ≡ ok n) × (n.key ≢ key)

  rank_step :
      (i x rank : ℕ) {u r total : ℕ} {n : Node K S}
      → walk (precedes_or_is c key score) sl i (length sl.nodes) x rank ≡ ok (u, r)
      → node_at sl u ≡ ok n
      → n.key ≢ key
      → rank_loop c key score sl i u r ≡ ok total
      → rank_loop c key score sl (suc i) x rank ≡ ok total
  unfolding rank_loop
  rank_step i x rank {u} {r} {n = n} ran at other lower =
      rw
        (
          rank_loop,
          ran,
          ◌>>=◌,
          at,
          unmatched (c.key_eq n.key key) (ok r) (rank_loop c key score sl i u r) other,
        )
        lower

  rank_stop :
      (i x rank : ℕ) {u r : ℕ} {n : Node K S}
      → walk (precedes_or_is c key score) sl i (length sl.nodes) x rank ≡ ok (u, r)
      → node_at sl u ≡ ok n
      → n.key ≡ key
      → rank_loop c key score sl (suc i) x rank ≡ ok r
  unfolding rank_loop
  rank_stop i x rank {u} {r} {n} ran at same = rw (
    rank_loop,
    ran,
    ◌>>=◌,
    at,
    matched (c.key_eq n.key key) (ok r) (rank_loop c key score sl i u r) same,
  )

  pub rank_loop_lem :
      (n rank x : ℕ) (ys : List (Cell K S))
      → 1 ≤ n
      → Answers sl (precedes_or_is c key score) true (ys ++ d ∷ [])
      → All (λ e. Other e.address) ys
      → Found sl (d ∷ [])
      → All (λ e. 1 ≤ e.height) (ys ++ d ∷ [])
      → length (ys ++ d ∷ []) < length sl.nodes
      → ((j : ℕ) → j < n → Chain sl j x 0 ((ys ++ d ∷ []) ++ hi))
      → Other x
      → rank_loop c key score sl n x rank ≡ ok (rank + length (ys ++ d ∷ []))
  rank_loop_lem zero rank x ys pos goes others found high enough chains here = absurd (omega arith)
  rank_loop_lem (suc i) rank x ys pos goes others found high enough chains here =
      let ps = ys ++ d ∷ [] in
      let high_d = (All-split (λ e. 1 ≤ e.height) ys (d ∷ []) high).1.0 in
      let ((u, r), ran, (at, far)) =
        walk_lem sl (precedes_or_is c key score) hi refused i (length sl.nodes) rank ps goes enough
          (chains i (omega arith)) in
      elim (last_tall i ps) [
        | inl flat ↦
            let ends = reach_flat i x 0 ps flat in
            let same : u ≡ x = at ∙ ap (λ e. e.0) ends in
            let still : r ≡ rank = omega (arith, far, ap (λ e. e.1) ends) in
            let below = (All-split _ ys (d ∷ []) flat).1.0 in
            let (n, at_x, other) = here in
            rank_step i x rank {n = n} ran (ap (node_at sl) same ∙ at_x) other (
              ap (λ v. rank_loop c key score sl i v r) same
              ∙ ap (λ k. rank_loop c key score sl i x k) still
              ∙ rank_loop_lem i rank x ys (omega (arith, high_d)) goes others found high enough
                  (λ j lt. chains j (omega arith)) here)
        | inr (xs, c', zs, parts, tall, flat) ↦
            let ends : reach i x 0 ps ≡ (c'.address, 0 + length zs) =
              rw parts (reach_middle i x 0 xs c' zs tall ∙ reach_flat i c'.address 0 zs flat) in
            let same : u ≡ c'.address = at ∙ ap (λ e. e.0) ends in
            let total : r + length zs ≡ rank + length ps = omega (arith, far, ap (λ e. e.1) ends) in
            elim (snoc_cases xs ys c' d zs parts) [
              | inl (nothing, is_d) ↦
                  let (n, at_d, n_key, _) = found.0 in
                  rank_stop i x rank {n = n} ran
                    (ap (node_at sl) (same ∙ ap (λ e. e.address) is_d) ∙ at_d) (n_key ∙ d_key)
                  ∙ ap ok (omega (arith, ap length nothing, total))
              | inr (us, rest, before_d) ↦
                  let there = rw before_d at others in
                  let other = (All-split _ xs (c' ∷ us) there).1 in
                  let below = (All-split _ us (d ∷ []) (rw rest at flat)).1.0 in
                  let (n, at_c, no_match) = other.0 in
                  rank_step i x rank {n = n} ran (ap (node_at sl) same ∙ at_c) no_match (
                    ap (λ v. rank_loop c key score sl i v r) same
                    ∙ rank_loop_lem i r c'.address us (omega (arith, high_d))
                        (behind d xs c' us before_d _ goes) other.1 found
                        (behind d xs c' us before_d _ high)
                        (omega (
                          arith,
                          ap length before_d,
                          length-append us (d ∷ []),
                          length-append ys (d ∷ []),
                          length-append xs (c' ∷ us),
                        ))
                        (λ j lt.
                          Chain-middle xs c' ((us ++ d ∷ []) ++ hi) (omega arith)
                            (rw (regroup d xs c' us before_d hi) at (chains j (omega arith))))
                        other.0
                    ∙ ap ok (omega (arith, total, ap length rest)))
            ]
      ]
