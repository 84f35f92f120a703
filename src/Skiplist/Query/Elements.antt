-- ===== src/Skiplist/Query/Elements.antt =====
-- GetElementByRankASC of container/skiplist/skiplist.go: the walks by spans alone.
use mathlib.Core.List.{append-nil}
use modern_go.Base.Outcome.{ok, ◌>>=◌}
use modern_go.Base.{
  ℕ, zero, suc, ◌+◌, ◌≤◌, ◌<◌, ◌≡◌, ◌≢◌, refl, ◌∙◌, ap, arith, List, [], ◌∷◌, ◌++◌, true, false,
  length, length-append, inl, inr, ◌==◌,
}
use modern_go.Skiplist.Cells.Reach.{last_tall, reach_flat, reach_middle}
use modern_go.Skiplist.{Compare, Node, SkipList, node_at}
use modern_go.Skiplist.Query.{walk_rank, rank_asc_loop}
use modern_go.Skiplist.Cells.{Cell, All, All-split, Chain, reach}
use modern_go.Skiplist.Cells.Links.{Chain-middle}
use modern_go.Skiplist.Modelled.{Found}
use modern_go.Skiplist.Query.Spans.{walk_rank_lem}
use modern_go.Skiplist.Query.Ranked.{snoc_cases, regroup, behind}

==_refl : (a b : ℕ) → a ≡ b → (a == b) ≡ true
==_refl a b h = ground arith

==_ne : (a b : ℕ) → a ≢ b → (a == b) ≡ false
==_ne a b h = ground arith

module _ {K S : Type 0} (sl : SkipList K S) (rank : ℕ) where
  module _ (c : Compare K S) where
    step_down :
        (i x t : ℕ) {u r : ℕ} {n : Node K S} {out : K × S}
        → walk_rank sl rank i (length sl.nodes) x t ≡ ok (u, r)
        → node_at sl u ≡ ok n
        → r ≢ rank
        → rank_asc_loop c sl rank i u r ≡ ok out
        → rank_asc_loop c sl rank (suc i) x t ≡ ok out
    unfolding rank_asc_loop
    step_down i x t {r = r} ran at no_match lower =
        rw (rank_asc_loop, ran, ◌>>=◌, at, ==_ne r rank no_match) lower

    step_out :
        (i x t : ℕ) {u r : ℕ} {n : Node K S}
        → walk_rank sl rank i (length sl.nodes) x t ≡ ok (u, r)
        → node_at sl u ≡ ok n
        → r ≡ rank
        → rank_asc_loop c sl rank (suc i) x t ≡ ok (n.key, n.score)
    unfolding rank_asc_loop
    step_out i x t {r = r} ran at match =
        rw (rank_asc_loop, ran, ◌>>=◌, at, ==_refl r rank match) refl

    -- Rank 0 is the header's.
    pub rank_zero_lem :
        (n : ℕ) (cs : List (Cell K S)) (m : Node K S)
        → rank ≡ 0
        → 0 < length sl.nodes
        → Chain sl n 0 0 cs
        → node_at sl 0 ≡ ok m
        → rank_asc_loop c sl rank (suc n) 0 0 ≡ ok (m.key, m.score)
    unfolding reach
    rank_zero_lem n cs m first enough chain at_0 =
        let ((u, r), ran, (at, far)) =
          walk_rank_lem sl rank n (length sl.nodes) 0 [] cs (omega arith) (inr (omega arith)) enough
            chain in
        step_out n 0 0 {n = m} ran (ap (node_at sl) at ∙ at_0) (omega (arith, far, first))

    -- The rank is reached at the last of the cells up to it.
    pub rank_asc_lem :
        (n t x : ℕ) (ys : List (Cell K S)) (d : Cell K S) (hi : List (Cell K S))
        → 1 ≤ n
        → t + length (ys ++ d ∷ []) ≡ rank
        → Found sl (ys ++ d ∷ [])
        → All (λ e. 1 ≤ e.height) (ys ++ d ∷ [])
        → length (ys ++ d ∷ []) < length sl.nodes
        → ((j : ℕ) → j < n → Chain sl j x 0 ((ys ++ d ∷ []) ++ hi))
        → (m : Node K S) × (node_at sl x ≡ ok m)
        → rank_asc_loop c sl rank n x t ≡ ok (d.key, d.score)
    rank_asc_lem zero t x ys d hi pos total found high enough chains here = absurd (omega arith)
    rank_asc_lem (suc i) t x ys d hi pos total found high enough chains here =
        let ps = ys ++ d ∷ [] in
        let high_d = (All-split (λ e. 1 ≤ e.height) ys (d ∷ []) high).1.0 in
        let size = length-append ys (d ∷ []) in
        let ((u, r), ran, (at, far)) =
          walk_rank_lem sl rank i (length sl.nodes) t ps hi (omega arith) (inr (omega arith)) enough
            (chains i (omega arith)) in
        elim (last_tall i ps) [
          | inl flat ↦
              let ends = reach_flat i x 0 ps flat in
              let same : u ≡ x = at ∙ ap (λ e. e.0) ends in
              let still : r ≡ t = omega (arith, far, ap (λ e. e.1) ends) in
              let below = (All-split _ ys (d ∷ []) flat).1.0 in
              let (m, at_x) = here in
              step_down i x t {n = m} ran (ap (node_at sl) same ∙ at_x)
                (omega (arith, still, total, size))
                (ap (λ v. rank_asc_loop c sl rank i v r) same
                  ∙ ap (λ k. rank_asc_loop c sl rank i x k) still
                  ∙ rank_asc_lem i t x ys d hi (omega (arith, high_d)) total found high enough
                      (λ j lt. chains j (omega arith)) here)
          | inr (xs, c', zs, parts, tall, flat) ↦
              let ends : reach i x 0 ps ≡ (c'.address, 0 + length zs) =
                rw parts (reach_middle i x 0 xs c' zs tall ∙ reach_flat i c'.address 0 zs flat) in
              let same : u ≡ c'.address = at ∙ ap (λ e. e.0) ends in
              let sum : r + length zs ≡ rank = omega (arith, far, total, ap (λ e. e.1) ends) in
              elim (snoc_cases xs ys c' d zs parts) [
                | inl (nothing, is_d) ↦
                    let (m, at_d, m_key, m_score) = (All-split _ ys (d ∷ []) found).1.0 in
                    step_out i x t {n = m} ran
                      (ap (node_at sl) (same ∙ ap (λ e. e.address) is_d) ∙ at_d)
                      (omega (arith, ap length nothing, sum))
                    ∙ rw (m_key, m_score) refl
                | inr (us, rest, before_d) ↦
                    let there =
                      (All-split _ xs (c' ∷ us)
                        (rw before_d at (All-split _ ys (d ∷ []) found).0)).1.0 in
                    let below = (All-split _ us (d ∷ []) (rw rest at flat)).1.0 in
                    let (m, at_c, _, _) = there in
                    let more = length-append us (d ∷ []) in
                    step_down i x t {n = m} ran (ap (node_at sl) same ∙ at_c)
                      (omega (arith, sum, ap length rest, more))
                      (ap (λ v. rank_asc_loop c sl rank i v r) same
                        ∙ rank_asc_lem i r c'.address us d hi (omega (arith, high_d))
                            (omega (arith, sum, ap length rest))
                            (behind d xs c' us before_d _ found) (behind d xs c' us before_d _ high)
                            (omega
                              (arith, ap length before_d, more, size, length-append xs (c' ∷ us)))
                            (λ j lt.
                              Chain-middle xs c' ((us ++ d ∷ []) ++ hi) (omega arith)
                                (rw (regroup d xs c' us before_d hi) at (chains j (omega arith))))
                            (m, at_c))
              ]
        ]

    -- A rank past the last cell is never reached.
    pub rank_past_lem :
        (n t x : ℕ) (ps : List (Cell K S))
        → t + length ps < rank
        → Found sl ps
        → length ps < length sl.nodes
        → ((j : ℕ) → j < n → Chain sl j x 0 ps)
        → (m : Node K S) × (node_at sl x ≡ ok m)
        → rank_asc_loop c sl rank n x t ≡ ok (c.no_key, c.no_score)
    unfolding rank_asc_loop
    rank_past_lem zero t x ps past found enough chains here = refl
    rank_past_lem (suc i) t x ps past found enough chains (m, at_x) =
        let chain : Chain sl i x 0 (ps ++ []) = rw append-nil (chains i (omega arith)) in
        let ((u, r), ran, (at, far)) =
          walk_rank_lem sl rank i (length sl.nodes) t ps [] (omega arith) (inl refl) enough chain in
        elim (last_tall i ps) [
          | inl flat ↦
              let ends = reach_flat i x 0 ps flat in
              let same : u ≡ x = at ∙ ap (λ e. e.0) ends in
              let still : r ≡ t = omega (arith, far, ap (λ e. e.1) ends) in
              step_down i x t {n = m} ran (ap (node_at sl) same ∙ at_x) (omega (arith, still, past))
                (ap (λ v. rank_asc_loop c sl rank i v r) same
                  ∙ ap (λ k. rank_asc_loop c sl rank i x k) still
                  ∙ rank_past_lem i t x ps past found enough (λ j lt. chains j (omega arith))
                      (m, at_x))
          | inr (xs, c', zs, parts, tall, flat) ↦
              let ends : reach i x 0 ps ≡ (c'.address, 0 + length zs) =
                rw parts (reach_middle i x 0 xs c' zs tall ∙ reach_flat i c'.address 0 zs flat) in
              let same : u ≡ c'.address = at ∙ ap (λ e. e.0) ends in
              let sum : r + length zs ≡ t + length ps = omega (arith, far, ap (λ e. e.1) ends) in
              let there = (All-split _ xs (c' ∷ zs) (rw parts at found)).1 in
              let (m', at_c, _, _) = there.0 in
              step_down i x t {n = m'} ran (ap (node_at sl) same ∙ at_c) (omega (arith, sum, past))
                (ap (λ v. rank_asc_loop c sl rank i v r) same
                  ∙ rank_past_lem i r c'.address zs (omega (arith, sum, past)) there.1
                      (omega (arith, ap length parts, length-append xs (c' ∷ zs)))
                      (λ j lt.
                        Chain-middle xs c' zs (omega arith) (rw parts at (chains j (omega arith))))
                      (m', at_c))
        ]
