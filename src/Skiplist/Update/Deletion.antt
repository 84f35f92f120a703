-- ===== src/Skiplist/Update/Deletion.antt =====
-- `Del` of container/skiplist/skiplist.go takes a key's node out of the list.
pub mod Unlinking
pub mod Lowered
use modern_go.Base.Outcome.{ok, ◌>>=◌, Returns}
use modern_go.Base.{
  ℕ, ◌+◌, ◌-◌, ◌≤◌, ◌<◌, ◌≡◌, refl, ◌∙◌, arith, List, ◌∷◌, ◌++◌, Option, none, some, length,
  length-append, dec_lt, inr,
}
use modern_go.Skiplist.Cells.Rechained.{Rechained}
use modern_go.Skiplist.Update.Deletion.Lowered.{lower_loop_lem}
use modern_go.Skiplist.{Compare, Level, Node, SkipList, node_at, level_at}
use modern_go.Skiplist.Update.{take_out, unlink_loop, lower_loop, join_backward}
use modern_go.Skiplist.Cells.Heap.{level_at_ext, held_at_ext}
use modern_go.Skiplist.Cells.{
  Cell, All, All-split, All-weaken, All-both, All-all, All-remove, Avoids, AreApart, Tall,
  AreApart_split, AreApart_remove, AreApart_cross, Chain, IsList, held_at, Backs,
}
use modern_go.Skiplist.Cells.Links.{Chain-same, Chain-middle, Chain-start}
use modern_go.Skiplist.Cells.Walk.{Entries}
use modern_go.Skiplist.Update.Deletion.Unlinking.{unlink_loop_lem}
use modern_go.Skiplist.Cells.Backward.{
  SameLevels, Backs-split, Backs-join, Backs-frame, Fronts-frame, final, join_backward_lem,
}
use modern_go.Skiplist.Modelled.{node_of_held}

module _ {K S : Type 0} (c : Compare K S) (d : Cell K S) (lo hi : List (Cell K S))
    (sl : SkipList K S) (l : IsList sl (lo ++ d ∷ hi)) (path : List (ℕ × ℕ))
    (es : Entries lo 0 (length lo) sl.level path) where
  take_out_runs :
      {unlinked joined : SkipList K S} {n : Node K S} {first : Level} {back : Option ℕ} {m : ℕ}
      → unlink_loop sl.level 0 path d.address sl ≡ ok unlinked
      → node_at unlinked d.address ≡ ok n
      → level_at unlinked d.address 0 ≡ ok first
      → n.backward ≡ back
      → join_backward unlinked first.forward back ≡ ok joined
      → lower_loop joined joined.level ≡ ok m
      → take_out c path d.address sl ≡ ok (record joined { level = m; size = joined.size - 1 })
  unfolding take_out
  take_out_runs e₁ e₂ e₃ e₄ e₅ e₆ = rw (take_out, e₁, ◌>>=◌, e₂, e₃, e₄, e₅, e₆)

  abbrev apart : AreApart (lo ++ hi) × Avoids d.address lo × Avoids d.address hi
  apart = AreApart_remove d lo hi l.apart

  heights_hi : All (λ c. 1 ≤ c.height) hi
  heights_hi = All-weaken _ _ hi (λ c h. h.0) (All-split _ lo (d ∷ hi) l.heights).1.1

  -- All levels have their chain past the cell, and all else is in place.
  module _ (unlinked joined : SkipList K S) (done : Rechained 0 sl.level (lo ++ hi) sl unlinked)
      (same : SameLevels unlinked joined) (backs : Backs joined (final none lo) hi)
      (held : (y : ℕ) → Avoids y hi → held_at joined y ≡ held_at unlinked y) where
    abbrev level_is : joined.level ≡ sl.level
    level_is = same.level ∙ done.keeps.level

    joined_chains : (j : ℕ) → j < joined.level → Chain joined j 0 0 (lo ++ hi)
    joined_chains j lt =
        Chain-same (λ y. same.links y j) (done.chains j (omega arith) (omega (arith, level_is)))

    low_enough : All (λ c. c.height ≤ joined.level) (lo ++ hi)
    low_enough =
        All-weaken _ _ (lo ++ hi) (λ c h. omega (arith, level_is)) (All-remove _ d lo hi l.heights)

    module _ (m : ℕ) (positive : 1 ≤ m) (le : m ≤ joined.level)
        (low : All (λ c. c.height ≤ m) (lo ++ hi))
        (above : (i : ℕ)
          → m ≤ i
          → i < joined.level
          → (lv : Level) × (level_at joined 0 i ≡ ok lv) × (lv.forward ≡ none)) where
      abbrev taken : SkipList K S
      taken = record joined { level = m; size = joined.size - 1 }

      links : (y j : ℕ) → level_at taken y j ≡ level_at joined y j
      links y j = level_at_ext joined taken y refl j

      taken_held : (y : ℕ) → held_at taken y ≡ held_at joined y
      taken_held y = held_at_ext joined taken y refl

      taken_nodes : length taken.nodes ≡ length sl.nodes
      taken_nodes = same.nodes ∙ done.keeps.nodes

      taken_above :
          (j : ℕ)
          → m ≤ j
          → j < 32
          → (lv : Level) × (level_at taken 0 j ≡ ok lv) × (lv.forward ≡ none)
      taken_above j p lt = elim (dec_lt j joined.level) [
        | yes in_use ↦ let (lv, e, last) = above j p in_use in (lv, links 0 j ∙ e, last)
        | no reserve ↦
            let (lv, e, last) = l.above j (omega (arith, level_is)) lt in
            (
              lv,
              links 0 j ∙ same.links 0 j ∙ done.keeps.other 0 j (inr (omega (arith, level_is))) ∙ e,
              last,
            )
      ]

      taken-Tall : (y : ℕ) → Tall sl y → Tall taken y
      taken-Tall y t j lt =
          let (lv, e) = t j lt in
          let (lv', e') = done.keeps.there y j lv e in (lv', links y j ∙ same.links y j ∙ e')

      taken-Backs : Backs taken none (lo ++ hi)
      taken-Backs =
          Backs-join taken none lo hi
            (Fronts-frame sl taken none lo
              (All-weaken _ _ lo
                (λ c cross. taken_held c.address ∙ held c.address cross ∙ done.keeps.held c.address)
                (AreApart_cross lo hi apart.0))
              (Backs-split sl none lo (d ∷ hi) l.backs).0)
            (Backs-frame joined taken (final none lo) hi (All-all _ hi (λ c. taken_held c.address))
              refl backs)

      taken-IsList : IsList taken (lo ++ hi)
      taken-IsList =
          let left = length-append lo hi in
          let were = length-append lo (d ∷ hi) in
          record {
            chains = λ j lt. Chain-same (λ y. links y j) (joined_chains j (omega arith));
            above = taken_above;
            backs = taken-Backs;
            apart = apart.0;
            no_header = All-remove _ d lo hi l.no_header;
            inside =
                All-weaken _ _ (lo ++ hi) (λ c h. omega (arith, taken_nodes))
                  (All-remove _ d lo hi l.inside);
            heights =
                All-both _ _ _ (lo ++ hi) (λ c h h'. (h.0, h')) (All-remove _ d lo hi l.heights)
                  low;
            tall =
                All-weaken _ _ (lo ++ hi) (λ c t. taken-Tall c.address t)
                  (All-remove _ d lo hi l.tall);
            sized = omega (arith, same.size, done.keeps.size, l.sized, left, were);
            levels = omega (arith, level_is, l.levels.1);
            room = omega (arith, taken_nodes, l.room, left, were);
          }

  unlink_all : Returns (unlink_loop sl.level 0 path d.address sl) (λ sl'.
      Rechained 0 sl.level (lo ++ hi) sl sl'
      × ((j : ℕ) → level_at sl' d.address j ≡ level_at sl d.address j))
  unlink_all =
      let here = (All-split _ lo (d ∷ hi) l.tall).1.0 in
      let (sl', ran, (done, own)) =
        unlink_loop_lem lo hi d apart.1 apart.2 l.no_header l.apart path es sl.level 0 sl
          (omega arith) (λ j p q. l.chains j (omega arith))
          (λ j p q. here j (omega (arith, l.levels.1))) in
      let e : 0 + sl.level ≡ sl.level = omega arith in (sl', ran, (rw e at done, own))

  pub take_out-IsList :
      Returns
        (take_out c path d.address sl)
        (λ sl'. IsList sl' (lo ++ hi) × (held_at sl' 0 ≡ held_at sl 0))
  take_out-IsList =
      let backs = (Backs-split sl none lo (d ∷ hi) l.backs).1 in
      let positive : 1 ≤ d.height = (All-split _ lo (d ∷ hi) l.heights).1.0.0 in
      let (unlinked, ran₁, (done, own)) = unlink_all in
      let (n, at, same_key, same_score, led) =
        node_of_held unlinked d.address (done.keeps.held d.address ∙ backs.0) in
      let chain = Chain-middle lo d hi positive (l.chains 0 (omega (arith, l.levels.0))) in
      let (first, at_first, _) = Chain-start chain in
      let (joined, ran₂, (same, backs', held)) =
        join_backward_lem sl unlinked d.address (some d.address) (final none lo) hi first at_first
          chain heights_hi (AreApart_split lo hi apart.0).1
          (Backs-frame sl unlinked (some d.address) hi
            (All-all _ hi (λ c. done.keeps.held c.address)) done.keeps.tail backs.1) in
      let (m, ran₃, (pos, le, low, above)) =
        lower_loop_lem joined.level (lo ++ hi) joined
          (omega (arith, same.level, done.keeps.level, l.levels.0))
          (low_enough unlinked joined done same backs' held)
          (joined_chains unlinked joined done same backs' held) in
      (
        _,
        take_out_runs ran₁ at (own 0 ∙ at_first) led ran₂ ran₃,
        (
          taken-IsList unlinked joined done same backs' held m pos le low above,
          taken_held unlinked joined done same backs' held m pos le low above 0
              ∙ held 0 (All-split _ lo (d ∷ hi) l.no_header).1.1
              ∙ done.keeps.held 0,
        ),
      )
