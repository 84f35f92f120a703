-- ===== src/Skiplist/Update/Insertion/Inserted.antt =====
-- `insert` of container/skiplist/skiplist.go keeps the shape of the list.
use modern_go.Base.Outcome.{ok, Returns}
use modern_go.Base.{
  ℕ, suc, ◌+◌, ◌-◌, ◌<◌, ◌≤◌, ◌≡◌, ◌≢◌, refl, sym, ◌∙◌, ap, arith, List, [], ◌∷◌, ◌++◌, none, some,
  length, ◌==◌, if◌then◌else◌, inl, inr, dec_lt, Bool-cases, length-append,
}
use modern_go.Skiplist.Cells.Rechained.{Rechained}
use modern_go.Skiplist.Cells.Pushed.{pushed, push-links, push-held, push-Tall, push-new}
use modern_go.Skiplist.{Level, SkipList, level_at, set_backward}
use modern_go.Skiplist.Update.{link_loop, widen_loop, join_backward, create_node}
use modern_go.Skiplist.Cells.Heap.{Keeps-trans, level_at_ext, held_at_ext}
use modern_go.Skiplist.Cells.{
  Cell, All, All-split, All-weaken, All-insert, All-all, All-both, AreApart_cross, Avoids,
  AreApart_split, AreApart_insert, Chain, reach, Tall, Backs, IsList, held_at,
}
use modern_go.Skiplist.Cells.Links.{Chain-frame, Chain-same, Chain-start, Chain-middle}
use modern_go.Skiplist.Cells.Walk.{Entries}
use modern_go.Skiplist.Update.Insertion.Linking.{link_loop_lem, widen_loop_lem}
use modern_go.Skiplist.Cells.Backward.{
  SameLevels, SameHeld, Backs-split, Backs-join, Backs-frame, Fronts-frame, final, final-reach,
  set_backward_lem, join_backward_lem,
}

module _ {K S : Type 0} where
  -- The new node `c` is at the end of the heap, and takes its place on its levels.
  module _ (lo hi : List (Cell K S)) (key : K) (score : S) (height : ℕ) (sl : SkipList K S)
      (l : IsList sl (lo ++ hi)) (positive : 1 ≤ height) (fits : height ≤ sl.level)
      (path : List (ℕ × ℕ)) (es : Entries lo 0 (length lo) sl.level path) where
    abbrev pub x : ℕ
    x = length sl.nodes

    abbrev pub c : Cell K S
    c = record { address = x; key = key; score = score; height = height }

    abbrev pub with_x : SkipList K S
    with_x = pushed sl key score

    abbrev cells : List (Cell K S)
    cells = lo ++ hi

    fresh : Avoids x cells
    fresh = All-weaken _ _ cells (λ d h. omega arith) l.inside

    not_first : 0 ≢ x
    not_first = omega (arith, l.room)

    fresh_lo : Avoids x lo
    fresh_lo = (All-split _ lo hi fresh).0

    fresh_hi : Avoids x hi
    fresh_hi = (All-split _ lo hi fresh).1

    pushed_chains : (j : ℕ) → j < sl.level → Chain with_x j 0 0 cells
    pushed_chains j lt =
        Chain-frame x x (λ y ne ne'. push-links sl key score y j ne) not_first not_first fresh fresh
          (l.chains j lt)

    -- All levels have their chain through the new cell.
    pub attach_levels :
        (linked : SkipList K S) × (link_loop height 0 path (length lo) x with_x ≡ ok linked)
        × ((widened : SkipList K S) × (widen_loop (sl.level - height) height path linked
              ≡ ok widened)
            × Rechained 0 sl.level (lo ++ c ∷ hi) with_x widened)
    attach_levels =
        let (linked, ran, done) =
          link_loop_lem lo hi c fresh_lo fresh_hi l.no_header not_first l.apart path es height 0
            with_x (omega arith) (omega arith) (λ j p q. pushed_chains j (omega arith))
            (λ j p q. push-Tall sl key score j (omega (arith, l.levels.1))) in
        let (widened, ran', done') =
          widen_loop_lem lo hi c fresh_lo fresh_hi l.no_header not_first l.apart path es
            (sl.level - height) height linked (omega arith) (omega arith)
            (λ j p q.
              Chain-same (λ y. done.keeps.other y j (inr (omega arith)))
                (pushed_chains j (omega arith))) in
        let e : height + (sl.level - height) ≡ sl.level = omega arith in
        let e' : 0 + height ≡ height = omega arith in
        (
          linked,
          ran,
          (
            widened,
            ran',
            record {
              keeps =
                  Keeps-trans 0 height sl.level (omega arith) fits (rw e' at done.keeps)
                    (rw e at done'.keeps);
              chains = λ j p q. elim (dec_lt j height) [
                | yes low ↦
                    Chain-same (λ y. done'.keeps.other y j (inl low))
                      (done.chains j p (omega arith))
                | no high ↦ done'.chains j (omega arith) (omega arith)
              ];
            },
          ),
        )

    abbrev pub u : ℕ
    u = (reach 0 0 0 lo).0

    pub heights_lo : All (λ d. 1 ≤ d.height) lo
    heights_lo = All-weaken _ _ lo (λ d h. h.0) (All-split _ lo hi l.heights).0

    heights_hi : All (λ d. 1 ≤ d.height) hi
    heights_hi = All-weaken _ _ hi (λ d h. h.0) (All-split _ lo hi l.heights).1

    module _ (widened : SkipList K S)
        (done : Rechained 0 sl.level (lo ++ c ∷ hi) with_x widened) where
      abbrev pub Backed : SkipList K S → Type 0
      Backed b =
          SameLevels widened b
          × (b.tail ≡ sl.tail)
          × (held_at b x ≡ ok (key, score, final none lo))
          × ((y : ℕ) → y ≢ x → held_at b y ≡ held_at sl y)

      back : final none lo ≡ (if u == 0 then none else some u)
      back = final-reach 0 0 none lo heights_lo (All-split _ lo hi l.no_header).0 refl

      pub set_back : Returns (if u == 0 then ok widened else set_backward widened x (some u)) Backed
      set_back = elim (Bool-cases (u == 0)) [
        | inl first ↦ (
          widened,
          rw first,
          (
            record { links = λ y j. refl; nodes = refl; size = refl; level = refl },
            done.keeps.tail,
            done.keeps.held x
                ∙ push-new sl key score
                ∙ ap (λ b. ok (key, score, b)) (sym (back ∙ rw first)),
            λ y ne. done.keeps.held y ∙ push-held sl key score y ne,
          ),
        )
        | inr other ↦
            let (b, ran, same, tail, here, elsewhere) =
              set_backward_lem widened x (some u) (done.keeps.held x ∙ push-new sl key score) in
            (
              b,
              rw other ran,
              (
                same,
                tail ∙ done.keeps.tail,
                here ∙ ap (λ b. ok (key, score, b)) (sym (back ∙ rw other)),
                λ y ne. elsewhere y ne ∙ done.keeps.held y ∙ push-held sl key score y ne,
              ),
            )
      ]

      module _ (backed : SkipList K S) (bs : Backed backed) where
        Chain-x : Chain backed 0 x 0 hi
        Chain-x =
            Chain-same (λ y. bs.0.links y 0)
              (Chain-middle lo c hi positive
                (done.chains 0 (omega arith) (omega (arith, l.levels.0))))

        Backs-hi : Backs backed (final none lo) hi
        Backs-hi =
            Backs-frame sl backed (final none lo) hi
              (All-weaken _ _ hi (λ d ne. bs.3 d.address ne) fresh_hi) bs.1
              (Backs-split sl none lo hi l.backs).1

        pub join_all :
            (first : Level) × (level_at backed x 0 ≡ ok first)
            × ((joined : SkipList K S) × (join_backward backed first.forward (some x) ≡ ok joined)
                × IsList (record joined { size = suc joined.size }) (lo ++ c ∷ hi)
                × (held_at (record joined { size = suc joined.size }) 0 ≡ held_at sl 0))
        join_all =
            let (first, at, _) = Chain-start Chain-x in
            let (joined, ran, (same, backs, held)) =
              join_backward_lem backed backed x (final none lo) (some x) hi first at Chain-x
                heights_hi (AreApart_split lo hi l.apart).1 Backs-hi in
            let sl' : SkipList K S = record joined { size = suc joined.size } in
            let links =
              λ (y j : ℕ). level_at_ext joined sl' y refl j ∙ same.links y j ∙ bs.0.links y j in
            let kept = λ (y : ℕ) (t : Tall with_x y) (j : ℕ) (lt : j < 32).
              let (lv, e) = t j lt in
              let (lv', e') = done.keeps.there y j lv e in
              let out : (lv : Level) × (level_at sl' y j ≡ ok lv) = (lv', links y j ∙ e') in out in
            let before : SameHeld sl sl' lo =
              All-both _ _ _ lo
                (λ d apart ne.
                  held_at_ext joined sl' d.address refl ∙ held d.address apart ∙ bs.3 d.address ne)
                (AreApart_cross lo hi l.apart) fresh_lo in
            let nodes : length sl'.nodes ≡ suc x = omega (
              arith,
              same.nodes,
              bs.0.nodes,
              done.keeps.nodes,
              length-append sl.nodes (create_node key score ∷ []),
            ) in
            let level : sl'.level ≡ sl.level = same.level ∙ bs.0.level ∙ done.keeps.level in
            let size : joined.size ≡ length lo + length hi =
              omega (arith, same.size, bs.0.size, done.keeps.size, l.sized, length-append lo hi) in
            let more = length-append lo (c ∷ hi) in
            (
              first,
              at,
              (
                joined,
                ran,
                record {
                  chains = λ j lt.
                      Chain-same (λ y. links y j)
                        (done.chains j (omega arith) (omega (arith, level)));
                  above = λ j le lt.
                      let (lv, e, last) = l.above j (omega (arith, level)) lt in
                      (
                        lv,
                        links 0 j
                            ∙ done.keeps.other 0 j (inr (omega (arith, level)))
                            ∙ push-links sl key score 0 j not_first
                            ∙ e,
                        last,
                      );
                  backs =
                      Backs-join sl' none lo (c ∷ hi)
                        (Fronts-frame sl sl' none lo before (Backs-split sl none lo hi l.backs).0)
                        (
                          held_at_ext joined sl' x refl ∙ held x fresh_hi ∙ bs.2,
                          Backs-frame joined sl' (some x) hi
                              (All-all _ hi (λ d. held_at_ext joined sl' d.address refl)) refl
                              backs,
                        );
                  apart = AreApart_insert c lo hi fresh_lo fresh_hi l.apart;
                  no_header = All-insert _ c lo hi (λ e. not_first (sym e)) l.no_header;
                  inside =
                      All-insert _ c lo hi (omega (arith, nodes))
                        (All-weaken _ _ cells (λ d h. omega (arith, nodes)) l.inside);
                  heights =
                      All-insert _ c lo hi (positive, omega (arith, level))
                        (All-weaken _ _ cells (λ d h. (h.0, omega (arith, level))) l.heights);
                  tall = All-insert _ c lo hi (kept x (push-Tall sl key score)) (
                      All-both _ _ _ cells
                        (λ d t ne. kept d.address (λ j lt.
                          let (lv, e) = t j lt in (lv, push-links sl key score d.address j ne ∙ e)))
                        l.tall fresh);
                  sized = omega (arith, size, more);
                  levels = omega (arith, level, l.levels.0, l.levels.1);
                  room = omega (arith, nodes, more, l.room, length-append lo hi);
                },
                held_at_ext joined sl' 0 refl
                    ∙ held 0 (All-split _ lo hi l.no_header).1
                    ∙ bs.3 0 not_first,
              ),
            )
