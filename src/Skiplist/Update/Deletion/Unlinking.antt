-- ===== src/Skiplist/Update/Deletion/Unlinking.antt =====
-- The loops of `Del` over the levels: each level's chain with the node, and without it.
use modern_go.Base.Outcome.{ok, ◌>>=◌, Returns}
use modern_go.Base.{
  ℕ, zero, suc, ◌+◌, ◌-◌, ◌<◌, ◌≤◌, ◌≡◌, ◌≢◌, refl, sym, ◌∙◌, ap, arith, List, ◌∷◌, ◌++◌, some,
  length, inl, inr, dec_lt, if◌then◌else◌, true, ℕ_discrete,
}
use modern_go.Skiplist.Cells.Reach.{reach_apart}
use modern_go.Skiplist.Cells.Rechained.{Rechained, Rechained-none, Rechained-suc}
use modern_go.Skiplist.{Level, SkipList, level_at, set_level}
use modern_go.Skiplist.Update.{unlink_loop, path_at, is_at}
use modern_go.Skiplist.Cells.Heap.{Keeps, set_level_lem}
use modern_go.Skiplist.Cells.{
  Cell, All-split, Avoids, AreApart, AreApart_split, Chain, stop, skip, reach,
}
use modern_go.Skiplist.Cells.Links.{
  Chain-start, Chain-from, Chain-forward, Chain-move, Chain-join, Chain-same,
}
use modern_go.Skiplist.Cells.Walk.{Entries}

is_at_self : (a : ℕ) → is_at a (some a) ≡ true
unfolding is_at
is_at_self a = ground arith

module _ {K S : Type 0} where
  unlink_loop-suc :
      (left i : ℕ) (path : List (ℕ × ℕ)) (x : ℕ) (sl : SkipList K S) {sl' : SkipList K S} {u r : ℕ}
      (lv own : Level)
      → path_at path i ≡ ok (u, r)
      → level_at sl u i ≡ ok lv
      → level_at sl x i ≡ ok own
      → set_level sl u i (
          if is_at x lv.forward
          then record { forward = own.forward; span = lv.span + own.span - 1 }
          else record lv { span = lv.span - 1 })
        ≡ ok sl'
      → unlink_loop (suc left) i path x sl ≡ unlink_loop left (suc i) path x sl'
  unfolding unlink_loop
  unlink_loop-suc left i path x sl lv own got at at_x ran =
      rw (unlink_loop, got, ◌>>=◌, at, at_x, ran)

  -- The cell `c` between `lo` and `hi` is taken out.
  module _ (lo hi : List (Cell K S)) (c : Cell K S) (fresh_lo : Avoids c.address lo)
      (fresh_hi : Avoids c.address hi) (no_header : Avoids 0 (lo ++ c ∷ hi))
      (apart : AreApart (lo ++ c ∷ hi)) (path : List (ℕ × ℕ)) {n : ℕ}
      (es : Entries lo 0 (length lo) n path) where
    module _ (i : ℕ) (inside : i < n) (sl : SkipList K S) (chain : Chain sl i 0 0 (lo ++ c ∷ hi))
        (own : Level) (at_x : level_at sl c.address i ≡ ok own) where
      abbrev u : ℕ
      u = (reach i 0 0 lo).0

      abbrev before : ℕ
      before = (reach i 0 0 lo).1

      u_apart : Avoids u (c ∷ hi)
      u_apart = reach_apart i 0 0 lo (c ∷ hi) (All-split _ lo (c ∷ hi) no_header).1 apart

      u_entry : (r : ℕ) × (path_at path i ≡ ok (u, r))
      unfolding path_at
      u_entry =
          let (e, got, (at, far)) = es.entry i inside in
          (e.1, rw (path_at, got) (ap (λ a. ok (a, e.1)) at))

      -- The new link of the node before it, and the chain from there.
      abbrev Unlinked : Type 0
      Unlinked =
          (lv : Level) × (level_at sl u i ≡ ok lv)
          × ((sl' : SkipList K S) × (set_level sl u i (
                  if is_at c.address lv.forward
                  then record { forward = own.forward; span = lv.span + own.span - 1 }
                  else record lv { span = lv.span - 1 })
                ≡ ok sl')
              × Keeps i (suc i) sl sl'
              × ((y : ℕ) → y ≢ u → level_at sl' y i ≡ level_at sl y i)
              × Chain sl' i u before hi)

      unlink_write : Chain sl i u before (c ∷ hi) → Unlinked
      unlink_write (stop p at rest) =
          let lv : Level = record { forward = some c.address; span = suc before } in
          let new : Level = record { forward = own.forward; span = suc before + own.span - 1 } in
          let (sl', ran, wrote) = set_level_lem sl u i lv new at in
          (
            lv,
            at,
            (
              sl',
              rw (is_at_self c.address) ran,
              wrote.keeps,
              wrote.elsewhere,
              Chain-move u u (λ y ne ne'. wrote.elsewhere y ne) own new u_apart.1 u_apart.1 at_x
                  wrote.here refl (omega arith) rest,
            ),
          )
      unlink_write (skip p rest) =
          let (lv, at, le) = Chain-start rest in
          let new : Level = record lv { span = lv.span - 1 } in
          let (sl', ran, wrote) = set_level_lem sl u i lv new at in
          (
            lv,
            at,
            (
              sl',
              rw (Chain-forward c.address lv at fresh_hi rest) ran,
              wrote.keeps,
              wrote.elsewhere,
              Chain-move u u (λ y ne ne'. wrote.elsewhere y ne) lv new u_apart.1 u_apart.1 at
                  wrote.here refl (omega arith) rest,
            ),
          )

      unlink-Chain :
          {sl' : SkipList K S}
          → ((y : ℕ) → y ≢ u → level_at sl' y i ≡ level_at sl y i)
          → Chain sl' i u before hi
          → Chain sl' i 0 0 (lo ++ hi)
      unlink-Chain same behind =
          Chain-join u c.address (λ y ne ne'. same y ne) lo (c ∷ hi) hi refl
            (λ e. (All-split _ lo (c ∷ hi) no_header).1.0 (sym e))
            (All-split _ lo (c ∷ hi) no_header).0 (AreApart_split lo (c ∷ hi) apart).0 fresh_lo
            chain behind

      unlink_own :
          {sl' : SkipList K S}
          → Keeps i (suc i) sl sl'
          → ((y : ℕ) → y ≢ u → level_at sl' y i ≡ level_at sl y i)
          → (j : ℕ) → level_at sl' c.address j ≡ level_at sl c.address j
      unlink_own keeps same j = elim (ℕ_discrete j i) [
        | yes e ↦ rw e (same c.address u_apart.0)
        | no ne ↦ elim (dec_lt j i) [
          | yes lt ↦ keeps.other c.address j (inl lt)
          | no ge ↦ keeps.other c.address j (inr (omega arith))
        ]
      ]

    pub unlink_loop_lem :
        (left i : ℕ) (sl : SkipList K S)
        → i + left ≤ n
        → ((j : ℕ) → i ≤ j → j < i + left → Chain sl j 0 0 (lo ++ c ∷ hi))
        → ((j : ℕ) → i ≤ j → j < i + left → (lv : Level) × (level_at sl c.address j ≡ ok lv))
        → Returns (unlink_loop left i path c.address sl) (λ sl'.
          Rechained i (i + left) (lo ++ hi) sl sl'
          × ((j : ℕ) → level_at sl' c.address j ≡ level_at sl c.address j))
    unfolding unlink_loop
    unlink_loop_lem zero i sl inside chains tall =
        let e : i ≡ i + 0 = omega arith in
        (sl, refl, (rw (← e) (Rechained-none i (lo ++ hi) sl), λ j. refl))
    unlink_loop_lem (suc left) i sl inside chains tall =
        let chain = chains i (omega arith) (omega arith) in
        let (own, at_x) = tall i (omega arith) (omega arith) in
        let (r, got) = u_entry i (omega arith) sl chain own at_x in
        let (lv, at, (sl₁, ran, keeps, same, behind)) =
          unlink_write i (omega arith) sl chain own at_x (Chain-from lo (c ∷ hi) chain) in
        let (sl', rest, (done, own_same)) =
          unlink_loop_lem left (suc i) sl₁ (omega arith)
            (λ j p q.
              Chain-same (λ y. keeps.other y j (inr p)) (chains j (omega arith) (omega arith)))
            (λ j p q.
              let (lv', e') = tall j (omega arith) (omega arith) in
              keeps.there c.address j lv' e') in
        let e : suc i + left ≡ i + suc left = omega arith in
        (
          sl',
          unlink_loop-suc left i path c.address sl lv own got at at_x ran ∙ rest,
          (
            rw (← e) (
                Rechained-suc (omega arith) keeps
                  (unlink-Chain i (omega arith) sl chain own at_x same behind) done),
            λ j. own_same j ∙ unlink_own i (omega arith) sl chain own at_x keeps same j,
          ),
        )
