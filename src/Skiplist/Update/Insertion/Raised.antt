-- ===== src/Skiplist/Update/Insertion/Raised.antt =====
-- `insert` of container/skiplist/skiplist.go, where it puts the higher levels to use.
use modern_go.Base.Outcome.{ok, Returns, ◌>>=◌}
use modern_go.Base.{
  ℕ, zero, suc, ◌+◌, ◌-◌, ◌≤◌, ◌<◌, ◌≡◌, refl, ◌∙◌, arith, List, [], ◌∷◌, ◌++◌, none, length, ltb,
  if◌then◌else◌, inl, inr, dec_lt,
}
use modern_go.Skiplist.{Level, SkipList, level_at}
use modern_go.Skiplist.Update.{raise_loop}
use modern_go.Skiplist.Cells.Heap.{level_at_ext, held_at_ext, set_level_lem}
use modern_go.Skiplist.Cells.{Cell, All, All-split, All-weaken, All-all, IsList, held_at}
use modern_go.Skiplist.Cells.Reach.{reach_flat}
use modern_go.Skiplist.Cells.Links.{Chain-same, Chain-flat}
use modern_go.Skiplist.Cells.Walk.{Entry, Entries, Entries-snoc}
use modern_go.Skiplist.Cells.Rechained.{Rechained, Rechained-none, Rechained-suc}
use modern_go.Skiplist.Cells.Backward.{Backs-frame}

module _ {K S : Type 0} where
  -- The levels that no node has reached.
  raise_loop_lem :
      (left i : ℕ) (lo hi : List (Cell K S)) (path : List (ℕ × ℕ)) (sl : SkipList K S)
      → All (λ c. c.height ≤ i) (lo ++ hi)
      → ((j : ℕ)
          → i ≤ j
          → j < i + left
          → (lv : Level) × (level_at sl 0 j ≡ ok lv) × (lv.forward ≡ none))
      → sl.size ≡ length (lo ++ hi)
      → Entries lo 0 (length lo) i path
      → Returns
          (raise_loop left i path sl)
          (λ r. Entries lo 0 (length lo) (i + left) r.0 × Rechained i (i + left) (lo ++ hi) sl r.1)
  unfolding raise_loop
  raise_loop_lem zero i lo hi path sl low above sized es =
      let e : i ≡ i + 0 = omega arith in
      ((path, sl), refl, (rw (← e) es, rw (← e) (Rechained-none i (lo ++ hi) sl)))
  raise_loop_lem (suc left) i lo hi path sl low above sized es =
      let (lv, at, last) = above i (omega arith) (omega arith) in
      let (sl', ran, wrote) = set_level_lem sl 0 i lv (record lv { span = sl.size }) at in
      let flat = (All-split (λ c. c.height ≤ i) lo hi low).0 in
      let entry : Entry lo 0 (length lo) i (0, 0) =
        rw (reach_flat i 0 0 lo flat) (refl, omega arith) in
      let higher =
        All-weaken (λ c. c.height ≤ i) (λ c. c.height ≤ suc i) (lo ++ hi) (λ c h. omega arith)
          low in
      let (r, rest, (es', done)) =
        raise_loop_lem left (suc i) lo hi (path ++ (0, 0) ∷ []) sl' higher
          (λ j p q.
            let (lv', at', last') = above j (omega arith) (omega arith) in
            (lv', wrote.keeps.other 0 j (inr p) ∙ at', last'))
          (wrote.keeps.size ∙ sized) (Entries-snoc (0, 0) es entry) in
      let e : suc i + left ≡ i + suc left = omega arith in
      let chain =
        Chain-flat 0 (record lv { span = sl.size }) (lo ++ hi) low wrote.here last (omega arith) in
      (
        r,
        rw (raise_loop, at, ◌>>=◌, ran) rest,
        (rw (← e) es', rw (← e) (Rechained-suc (omega arith) wrote.keeps chain done)),
      )

  -- The higher levels are put to use.
  pub raise-IsList :
      (level : ℕ) (path : List (ℕ × ℕ)) (sl : SkipList K S) (lo hi : List (Cell K S))
      → level ≤ 32
      → IsList sl (lo ++ hi)
      → Entries lo 0 (length lo) sl.level path
      → Returns (raise_loop (level - sl.level) sl.level path sl) (λ r.
        Entries lo 0 (length lo) (if ltb sl.level level then level else sl.level) r.0
        × IsList (record r.1 { level = if ltb sl.level level then level else sl.level }) (lo ++ hi)
        × (held_at (record r.1 { level = if ltb sl.level level then level else sl.level }) 0
            ≡ held_at sl 0))
  raise-IsList level path sl lo hi top l es =
      let new = level - sl.level in
      let ((path', sl'), ran, (es', done)) =
        raise_loop_lem new sl.level lo hi path sl (All-weaken _ _ (lo ++ hi) (λ c h. h.1) l.heights)
          (λ j p q. l.above j p (omega arith)) l.sized es in
      let n : ℕ = if ltb sl.level level then level else sl.level in
      let higher : SkipList K S = record sl' { level = n } in
      let e : sl.level + new ≡ n = ground arith in
      let same = λ (y : ℕ) (j : ℕ). level_at_ext sl' higher y refl j in
      (
        (path', sl'),
        ran,
        (
          rw (← e) es',
          record {
            chains = λ i lt.
                Chain-same (λ y. same y i)
                  (elim (dec_lt i sl.level) [
                    | yes low ↦ Chain-same (λ y. done.keeps.other y i (inl low)) (l.chains i low)
                    | no high ↦ done.chains i (omega arith) (omega arith)
                  ]);
            above = λ i le lt.
                let (lv, at, last) = l.above i (omega arith) lt in
                (lv, same 0 i ∙ done.keeps.other 0 i (inr (omega arith)) ∙ at, last);
            backs =
                Backs-frame sl higher none (lo ++ hi)
                  (All-all _ (lo ++ hi)
                    (λ c. held_at_ext sl' higher c.address refl ∙ done.keeps.held c.address))
                  done.keeps.tail l.backs;
            apart = l.apart;
            no_header = l.no_header;
            inside = All-weaken _ _ (lo ++ hi) (λ c h. omega (arith, done.keeps.nodes)) l.inside;
            heights = All-weaken _ _ (lo ++ hi) (λ c h. (h.0, omega arith)) l.heights;
            tall =
                All-weaken _ _ (lo ++ hi)
                  (λ c h i lt.
                    let (lv, at) = h i lt in
                    let (lv', at') = done.keeps.there c.address i lv at in
                    (lv', same c.address i ∙ at'))
                  l.tall;
            sized = done.keeps.size ∙ l.sized;
            levels = omega (arith, l.levels.0, l.levels.1);
            room = omega (arith, l.room, done.keeps.nodes);
          },
          held_at_ext sl' higher 0 refl ∙ done.keeps.held 0,
        ),
      )
