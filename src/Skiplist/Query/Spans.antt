-- ===== src/Skiplist/Query/Spans.antt =====
-- The walk of GetElementByRankASC in container/skiplist/skiplist.go along one level.
use modern_go.Base.Outcome.{ok, ◌>>=◌, Returns}
use modern_go.Base.{
  ℕ, zero, suc, ◌+◌, ◌≤◌, ◌<◌, ◌≡◌, refl, arith, List, [], ◌∷◌, ◌++◌, true, false, length, ◌⊎◌, inl,
  inr, leb,
}
use modern_go.Skiplist.Cells.Reach.{reach_stop, reach_skip}
use modern_go.Skiplist.{SkipList}
use modern_go.Skiplist.Query.{walk_rank}
use modern_go.Skiplist.Cells.{Cell, Chain, end, stop, skip, reach}

leb-true : (a b : ℕ) → a ≤ b → leb a b ≡ true
leb-true a b h = ground arith

leb-false : (a b : ℕ) → b < a → leb a b ≡ false
leb-false a b h = ground arith

module _ {K S : Type 0} (sl : SkipList K S) (rank : ℕ) where
  -- The cells behind are past the rank.
  walk_rank_stop :
      (i : ℕ) {x k : ℕ} (fuel traversed : ℕ) (cs : List (Cell K S))
      → (cs ≡ []) ⊎ (rank ≤ traversed + k)
      → Chain sl i x k cs
      → walk_rank sl rank i (suc fuel) x traversed ≡ ok (x, traversed)
  unfolding walk_rank
  walk_rank_stop i fuel t [] past (end e) = rw (walk_rank, e, ◌>>=◌) refl
  walk_rank_stop i fuel t (c ∷ cs) (inl no_way) chain = absurd (ground arith)
  walk_rank_stop i {k = k} fuel t (c ∷ cs) (inr past) (stop p e rest) =
      rw (walk_rank, e, ◌>>=◌, leb-false (t + suc k) rank (omega arith)) refl
  walk_rank_stop i fuel t (c ∷ cs) (inr past) (skip p rest) =
      walk_rank_stop i fuel t cs (inr (omega arith)) rest

  -- The walk passes the cells `lo` up to the rank.
  pub walk_rank_lem :
      (i fuel traversed : ℕ) (lo hi : List (Cell K S)) {x k : ℕ}
      → traversed + (k + length lo) ≤ rank
      → (hi ≡ []) ⊎ (rank ≡ traversed + (k + length lo))
      → length lo < fuel
      → Chain sl i x k (lo ++ hi)
      → Returns (walk_rank sl rank i fuel x traversed) (λ (u, r).
        (u ≡ (reach i x k lo).0) × (r + (reach i x k lo).1 ≡ traversed + (k + length lo)))
  unfolding walk_rank reach
  walk_rank_lem i zero t lo hi le last enough chain = absurd (omega arith)
  walk_rank_lem i (suc fuel) t [] hi {x} {k} le last enough chain =
      ((x, t), walk_rank_stop i fuel t hi (past last) chain, (refl, omega arith))
    where
      past : (hi ≡ []) ⊎ (rank ≡ t + (k + 0)) → (hi ≡ []) ⊎ (rank ≤ t + k)
      past (inl e) = inl e
      past (inr e) = inr (omega arith)
  walk_rank_lem i (suc fuel) t (c ∷ lo) hi {x} {k} le last enough (stop p e rest) =
      let s = reach_stop i x k c lo p in
      let ((u, r), ran, (at, far)) =
        walk_rank_lem i fuel (t + suc k) lo hi (omega arith) (onward last) (omega arith) rest in
      (
        (u, r),
        rw (walk_rank, e, ◌>>=◌, leb-true (t + suc k) rank (omega arith)) ran,
        (rw s at, rw s (omega arith)),
      )
    where
      onward :
          (hi ≡ []) ⊎ (rank ≡ t + (k + suc (length lo)))
          → (hi ≡ []) ⊎ (rank ≡ t + suc k + (0 + length lo))
      onward (inl e) = inl e
      onward (inr e) = inr (omega arith)
  walk_rank_lem i (suc fuel) t (c ∷ lo) hi {x} {k} le last enough (skip p rest) =
      let s = reach_skip i x k c lo p in
      let ((u, r), ran, (at, far)) =
        walk_rank_lem i (suc fuel) t lo hi (omega arith) (onward last) (omega arith) rest in
      ((u, r), ran, (rw s at, rw s (omega arith)))
    where
      onward :
          (hi ≡ []) ⊎ (rank ≡ t + (k + suc (length lo)))
          → (hi ≡ []) ⊎ (rank ≡ t + (suc k + length lo))
      onward (inl e) = inl e
      onward (inr e) = inr (omega arith)
