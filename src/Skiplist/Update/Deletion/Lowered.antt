-- ===== src/Skiplist/Update/Deletion/Lowered.antt =====
-- `Del` of container/skiplist/skiplist.go, where it puts empty levels into reserve.
use modern_go.Base.Outcome.{ok, ◌>>=◌, Returns}
use modern_go.Base.{
  ℕ, zero, suc, ◌<◌, ◌≤◌, ◌≡◌, refl, arith, List, none, Option-cases, inl, inr, dec_lt,
}
use modern_go.Skiplist.{Level, SkipList, level_at}
use modern_go.Skiplist.Update.{lower_loop}
use modern_go.Skiplist.Cells.{Cell, All, Chain}
use modern_go.Skiplist.Cells.Links.{Chain-start, Chain-last}

module _ {K S : Type 0} where
  -- The levels that the header does not use go into reserve.
  pub lower_loop_lem :
      (n : ℕ) (cells : List (Cell K S)) (sl : SkipList K S)
      → 1 ≤ n
      → All (λ c. c.height ≤ n) cells
      → ((i : ℕ) → i < n → Chain sl i 0 0 cells)
      → Returns (lower_loop sl n) (λ m.
        (1 ≤ m)
        × (m ≤ n)
        × All (λ c. c.height ≤ m) cells
        × ((i : ℕ)
            → m ≤ i
            → i < n
            → (lv : Level) × (level_at sl 0 i ≡ ok lv) × (lv.forward ≡ none)))
  unfolding lower_loop
  lower_loop_lem zero cells sl pos low chains = absurd (omega arith)
  lower_loop_lem (suc zero) cells sl pos low chains =
      (1, refl, (omega arith, omega arith, low, λ i p q. absurd (omega arith)))
  lower_loop_lem (suc (suc n)) cells sl pos low chains =
      let chain = chains (suc n) (omega arith) in
      let (lv, at, le) = Chain-start chain in
      elim (Option-cases lv.forward) [
        | inr (f, leads) ↦ (
          suc (suc n),
          rw (lower_loop, at, ◌>>=◌, leads),
          (omega arith, omega arith, low, λ i p q. absurd (omega arith)),
        )
        | inl last ↦
            let (m, ran, (pos', le', low', above)) =
              lower_loop_lem (suc n) cells sl (omega arith) (Chain-last lv at last chain)
                (λ i p. chains i (omega arith)) in
            (
              m,
              rw (lower_loop, at, ◌>>=◌, last) ran,
              (
                pos',
                omega arith,
                low',
                λ i p q. elim (dec_lt i (suc n)) [
                  | yes lt ↦ above i p lt
                  | no ge ↦ let e : suc n ≡ i = omega arith in (lv, rw (← e) at, last)
                ],
              ),
            )
      ]
