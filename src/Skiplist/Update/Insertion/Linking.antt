-- ===== src/Skiplist/Update/Insertion/Linking.antt =====
-- The loops of `insert` over the levels: each level's chain before, and with the new node.
use modern_go.Base.Outcome.{ok, ◌>>=◌, Returns}
use modern_go.Base.{
  ℕ, zero, suc, ◌+◌, ◌-◌, ◌<◌, ◌≤◌, ◌≡◌, ◌≢◌, refl, sym, ◌∙◌, ap, arith, List, ◌∷◌, ◌++◌, some,
  length, inr,
}
use modern_go.Skiplist.Cells.Reach.{reach_avoids, reach_apart}
use modern_go.Skiplist.{Level, SkipList, level_at, set_level}
use modern_go.Skiplist.Update.{link_loop, widen_loop, path_at}
use modern_go.Skiplist.Cells.Heap.{Keeps, Keeps-both, set_level_lem}
use modern_go.Skiplist.Cells.Rechained.{Rechained, Rechained-none, Rechained-suc}
use modern_go.Skiplist.Cells.{
  Cell, All-split, Avoids, AreApart, AreApart_split, Chain, stop, skip, reach,
}
use modern_go.Skiplist.Cells.Links.{Chain-start, Chain-from, Chain-move, Chain-join, Chain-same}
use modern_go.Skiplist.Cells.Walk.{Entries}

module _ {K S : Type 0} where
  link_loop-suc :
      (left i : ℕ) (path : List (ℕ × ℕ)) (rank_0 x : ℕ) (sl : SkipList K S) {sl₁ sl₂ : SkipList K S}
      {u r d : ℕ} {lv : Level}
      → path_at path i ≡ ok (u, r)
      → level_at sl u i ≡ ok lv
      → rank_0 - r ≡ d
      → set_level sl x i (record { forward = lv.forward; span = lv.span - d }) ≡ ok sl₁
      → set_level sl₁ u i (record { forward = some x; span = suc d }) ≡ ok sl₂
      → link_loop (suc left) i path rank_0 x sl ≡ link_loop left (suc i) path rank_0 x sl₂
  unfolding link_loop
  link_loop-suc left i path rank_0 x sl {d = d} got at far ran₁ ran₂ =
      let one : d + 1 ≡ suc d = omega arith in rw (link_loop, got, ◌>>=◌, at, far, ran₁, one, ran₂)

  -- The new cell `c` comes between `lo` and `hi`.
  module _ (lo hi : List (Cell K S)) (c : Cell K S) (fresh_lo : Avoids c.address lo)
      (fresh_hi : Avoids c.address hi) (no_header : Avoids 0 (lo ++ hi)) (not_first : 0 ≢ c.address)
      (apart : AreApart (lo ++ hi)) (path : List (ℕ × ℕ)) {n : ℕ}
      (es : Entries lo 0 (length lo) n path) where
    module _ (i : ℕ) (inside : i < n) (sl : SkipList K S) (chain : Chain sl i 0 0 (lo ++ hi)) where
      abbrev u : ℕ
      u = (reach i 0 0 lo).0

      abbrev behind : ℕ
      behind = (reach i 0 0 lo).1

      from_u : Chain sl i u behind hi
      from_u = Chain-from lo hi chain

      u_fresh : u ≢ c.address
      u_fresh = reach_avoids c.address i 0 0 lo not_first fresh_lo

      u_apart : Avoids u hi
      u_apart = reach_apart i 0 0 lo hi (All-split _ lo hi no_header).1 apart

      u_entry : (r : ℕ) × (path_at path i ≡ ok (u, r)) × (r + behind ≡ length lo)
      unfolding path_at
      u_entry =
          let (e, got, (at, far)) = es.entry i inside in
          (e.1, rw (path_at, got) (ap (λ a. ok (a, e.1)) at), far)

      apart_lo : AreApart lo
      apart_lo = (AreApart_split lo hi apart).0

      -- The two writes of a level that the new node reaches.
      link_step :
          i < c.height
          → (old : Level) → level_at sl c.address i ≡ ok old
          → (lv : Level) × (level_at sl u i ≡ ok lv)
            × ((sl₁ : SkipList K S) × (set_level sl c.address i
                    (record { forward = lv.forward; span = lv.span - behind })
                  ≡ ok sl₁)
                × ((sl₂ : SkipList K S) × (set_level sl₁ u i
                        (record { forward = some c.address; span = suc behind })
                      ≡ ok sl₂)
                    × Keeps i (suc i) sl sl₂
                    × Chain sl₂ i 0 0 (lo ++ c ∷ hi)))
      link_step reaches old had =
          let (lv, at, le) = Chain-start from_u in
          let own : Level = record { forward = lv.forward; span = lv.span - behind } in
          let (sl₁, ran₁, wrote₁) = set_level_lem sl c.address i old own had in
          let (sl₂, ran₂, wrote₂) =
            set_level_lem sl₁ u i lv (record { forward = some c.address; span = suc behind })
              (wrote₁.elsewhere u u_fresh ∙ at) in
          let same : (y : ℕ) → y ≢ u → y ≢ c.address → level_at sl₂ y i ≡ level_at sl y i =
            λ y p q. wrote₂.elsewhere y p ∙ wrote₁.elsewhere y q in
          let there = wrote₂.elsewhere c.address (λ e. u_fresh (sym e)) ∙ wrote₁.here in
          let moved : Chain sl₂ i c.address 0 hi =
            Chain-move u c.address same lv own u_apart fresh_hi at there refl (omega arith)
              from_u in
          let joined =
            Chain-join u c.address same lo hi (c ∷ hi) refl not_first
              (All-split _ lo hi no_header).0 apart_lo fresh_lo chain
              (stop reaches wrote₂.here moved) in
          (lv, at, (sl₁, ran₁, (sl₂, ran₂, Keeps-both i (suc i) wrote₁.keeps wrote₂.keeps, joined)))

      -- The write of a level above the new node.
      widen_step :
          c.height ≤ i
          → (lv : Level) × (level_at sl u i ≡ ok lv)
            × ((sl' : SkipList K S) × (set_level sl u i (record lv { span = suc lv.span }) ≡ ok sl')
                × Keeps i (suc i) sl sl'
                × Chain sl' i 0 0 (lo ++ c ∷ hi))
      widen_step low =
          let (lv, at, le) = Chain-start from_u in
          let (sl', ran, wrote) = set_level_lem sl u i lv (record lv { span = suc lv.span }) at in
          let same : (y : ℕ) → y ≢ u → y ≢ c.address → level_at sl' y i ≡ level_at sl y i =
            λ y p q. wrote.elsewhere y p in
          let moved : Chain sl' i u (suc behind) hi =
            Chain-move u c.address same lv (record lv { span = suc lv.span }) u_apart fresh_hi at
              wrote.here refl (omega arith) from_u in
          let joined =
            Chain-join u c.address same lo hi (c ∷ hi) refl not_first
              (All-split _ lo hi no_header).0 apart_lo fresh_lo chain (skip low moved) in
          (lv, at, (sl', ran, wrote.keeps, joined))

    pub link_loop_lem :
        (left i : ℕ) (sl : SkipList K S)
        → i + left ≤ n
        → i + left ≤ c.height
        → ((j : ℕ) → i ≤ j → j < i + left → Chain sl j 0 0 (lo ++ hi))
        → ((j : ℕ) → i ≤ j → j < i + left → (lv : Level) × (level_at sl c.address j ≡ ok lv))
        → Returns
            (link_loop left i path (length lo) c.address sl)
            (Rechained i (i + left) (lo ++ c ∷ hi) sl)
    unfolding link_loop
    link_loop_lem zero i sl inside low chains tall =
        let e : i ≡ i + 0 = omega arith in (sl, refl, rw (← e) (Rechained-none i (lo ++ c ∷ hi) sl))
    link_loop_lem (suc left) i sl inside low chains tall =
        let chain = chains i (omega arith) (omega arith) in
        let (r, got, far) = u_entry i (omega arith) sl chain in
        let (old, had) = tall i (omega arith) (omega arith) in
        let (lv, at, (sl₁, ran₁, (sl₂, ran₂, keeps, here))) =
          link_step i (omega arith) sl chain (omega arith) old had in
        let (sl', rest, done) =
          link_loop_lem left (suc i) sl₂ (omega arith) (omega arith)
            (λ j p q.
              Chain-same (λ y. keeps.other y j (inr p)) (chains j (omega arith) (omega arith)))
            (λ j p q.
              let (lv', e') = tall j (omega arith) (omega arith) in
              keeps.there c.address j lv' e') in
        let e : suc i + left ≡ i + suc left = omega arith in
        let d : length lo - r ≡ behind i (omega arith) sl chain = omega arith in
        (
          sl',
          link_loop-suc left i path (length lo) c.address sl got at d ran₁ ran₂ ∙ rest,
          rw (← e) (Rechained-suc (omega arith) keeps here done),
        )

    pub widen_loop_lem :
        (left i : ℕ) (sl : SkipList K S)
        → i + left ≤ n
        → c.height ≤ i
        → ((j : ℕ) → i ≤ j → j < i + left → Chain sl j 0 0 (lo ++ hi))
        → Returns (widen_loop left i path sl) (Rechained i (i + left) (lo ++ c ∷ hi) sl)
    unfolding widen_loop
    widen_loop_lem zero i sl inside low chains =
        let e : i ≡ i + 0 = omega arith in (sl, refl, rw (← e) (Rechained-none i (lo ++ c ∷ hi) sl))
    widen_loop_lem (suc left) i sl inside low chains =
        let chain = chains i (omega arith) (omega arith) in
        let (r, got, far) = u_entry i (omega arith) sl chain in
        let (lv, at, (sl₁, ran, keeps, here)) = widen_step i (omega arith) sl chain low in
        let (sl', rest, done) =
          widen_loop_lem left (suc i) sl₁ (omega arith) (omega arith) (λ j p q.
            Chain-same (λ y. keeps.other y j (inr p)) (chains j (omega arith) (omega arith))) in
        let e : suc i + left ≡ i + suc left = omega arith in
        (
          sl',
          rw (widen_loop, got, ◌>>=◌, at, ran) rest,
          rw (← e) (Rechained-suc (omega arith) keeps here done),
        )
