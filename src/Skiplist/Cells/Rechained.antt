-- ===== src/Skiplist/Cells/Rechained.antt =====
-- Levels that have become chains through other cells, one after the other.
use modern_go.Base.{ℕ, suc, ◌<◌, ◌≤◌, ◌≡◌, arith, List, inl, dec_lt}
use modern_go.Skiplist.{SkipList}
use modern_go.Skiplist.Cells.Heap.{Keeps, Keeps-refl, Keeps-trans}
use modern_go.Skiplist.Cells.{Cell, Chain}
use modern_go.Skiplist.Cells.Links.{Chain-same}

module _ {K S : Type 0} where
  -- The levels from `i` up to `n`, and no other, have become chains through `cells`.
  pub record Rechained (i n : ℕ) (cells : List (Cell K S)) (sl sl' : SkipList K S) : Type 0 where
    pub keeps : Keeps i n sl sl'
    pub chains : (j : ℕ) → i ≤ j → j < n → Chain sl' j 0 0 cells

  pub Rechained-none :
      (i : ℕ) (cells : List (Cell K S)) (sl : SkipList K S) → Rechained i i cells sl sl
  Rechained-none i cells sl = record {
    keeps = Keeps-refl i i sl;
    chains = λ j p q. absurd (omega arith);
  }

  -- One level after the other.
  pub Rechained-suc :
      {i n : ℕ} {cells : List (Cell K S)} {sl sl' sl'' : SkipList K S}
      → suc i ≤ n
      → Keeps i (suc i) sl sl'
      → Chain sl' i 0 0 cells
      → Rechained (suc i) n cells sl' sl''
      → Rechained i n cells sl sl''
  Rechained-suc {i} {n} le keeps chain rest = record {
    keeps = Keeps-trans i (suc i) n (omega arith) le keeps rest.keeps;
    chains = λ j p q. elim (dec_lt i j) [
      | yes later ↦ rest.chains j (omega arith) q
      | no here ↦
          let e : i ≡ j = omega arith in
          rw (← e) (Chain-same (λ y. rest.keeps.other y i (inl (omega arith))) chain)
    ];
  }
