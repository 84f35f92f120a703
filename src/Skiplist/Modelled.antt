-- ===== src/Skiplist/Modelled.antt =====
-- What a set of container/skiplist/skiplist.go stands for: its entries in ascending order.
use modern_go.Base.Dict
use modern_go.Base.Dict.{Dict, IsMap}
use modern_go.Base.Outcome.{ok}
use modern_go.Base.{
  ℕ, ◌<◌, ◌≡◌, refl, ◌∙◌, arith, List, [], ◌∷◌, Option, none, some, Bool, not, ◌&&◌, ◌||◌,
  get_elem?, Option-cases, inl, inr,
}
use modern_go.Skiplist.Cells.Pushed.{get_elem?-replicate}
use modern_go.Skiplist.{
  Compare, Level, Node, SkipList, SortedSet, node_at, level_at, precedes, precedes_or_is, new_set,
  new_skip_list,
}
use modern_go.Skiplist.Cells.{Cell, All, All-both, end, Backs, IsList, held_at}
use modern_go.Skiplist.Ordered.{IsOrder, before, IsAscending}
use modern_go.Skiplist.Ordered.Entries.{entry, entries}
use modern_go.Skiplist.Cells.Heap.{level_at_of_node}
use modern_go.Skiplist.Cells.Walk.{Answers}

module _ {K S : Type 0} where
  -- The set has the entries `es`: its dictionary under each key, and its list in order.
  pub record Models (c : Compare K S) (s : SortedSet K S) (es : Dict K S) : Type 0 where
    pub same_dict : (q : K) → Dict.lookup c.key_eq q s.dict ≡ Dict.lookup c.key_eq q es
    pub is_map : IsMap c.key_eq es
    pub ascending : IsAscending c es
    pub cells : List (Cell K S)
    pub held : entries cells ≡ es
    pub shape : IsList s.skip_list cells
    pub header : held_at s.skip_list 0 ≡ ok (c.no_key, c.no_score, none)

  pub node_of_held :
      (sl : SkipList K S) (a : ℕ) {k : K} {v : S} {b : Option ℕ}
      → held_at sl a ≡ ok (k, v, b)
      → (n : Node K S) × (node_at sl a ≡ ok n) × (n.key ≡ k) × (n.score ≡ v) × (n.backward ≡ b)
  unfolding held_at node_at
  node_of_held sl a h = elim (Option-cases (get_elem? sl.nodes a)) [
    | inl missing ↦ absurd (ground arith)
    | inr (n, found) ↦ (n, rw (node_at, found), ground arith, ground arith, ground arith)
  ]

  -- Each cell's node is in the heap, with its key and score.
  abbrev pub Found : SkipList K S → List (Cell K S) → Type 0
  Found sl =
      All (λ d.
        (n : Node K S) × (node_at sl d.address ≡ ok n) × (n.key ≡ d.key) × (n.score ≡ d.score))

  pub Backs-Found :
      (sl : SkipList K S) (prev : Option ℕ) (cs : List (Cell K S)) → Backs sl prev cs → Found sl cs
  Backs-Found sl prev [] h = tt
  Backs-Found sl prev (d ∷ cs) h =
      let (n, at, same_key, same_score, back) = node_of_held sl d.address h.0 in
      ((n, at, same_key, same_score), Backs-Found sl (some d.address) cs h.1)

  module _ (c : Compare K S) (key : K) (score : S) (sl : SkipList K S) where
    -- The test of a walk, read off the entries.
    pub precedes-Answers :
        (b : Bool) (cs : List (Cell K S))
        → Found sl cs
        → All (λ d. before c (entry d) (key, score) ≡ b) cs
        → Answers sl (precedes c key score) b cs
    unfolding precedes
    precedes-Answers b cs =
        All-both _ _ _ cs
          (λ d (n, at, same_key, same_score) h. (n, at, rw (precedes, same_key, same_score) h))

    pub precedes_or_is-Answers :
        (b : Bool) (cs : List (Cell K S))
        → IsOrder c
        → Found sl cs
        → All (λ d. before c (key, score) (entry d) ≡ not b) cs
        → Answers sl (precedes_or_is c key score) b cs
    unfolding precedes_or_is
    precedes_or_is-Answers b cs o = All-both _ _ _ cs (λ d (n, at, same_key, same_score) h.
        (n, at, rw (precedes_or_is, same_key, same_score) (flip d h)))
      where
        flip :
            (d : Cell K S)
            → before c (key, score) (entry d) ≡ not b
            → (c.score_lt d.score score || (c.score_eq d.score score && not (c.key_lt key d.key)))
              ≡ b
        flip d h = ground (
          arith,
          o.score_total d.score score,
          o.score_trans d.score score d.score,
          o.score_irrefl d.score,
          o.score_eq_iff d.score score,
          o.score_eq_iff score d.score,
        )

  new_level :
      (c : Compare K S) (i : ℕ)
      → i < 32
      → level_at (new_set c).skip_list 0 i ≡ ok (record { forward = none; span = 0 })
  unfolding new_set new_skip_list
  new_level c i lt =
      level_at_of_node (new_set c).skip_list 0 i _ refl
      ∙ rw (get_elem?-replicate {A = Level} 32 i (record { forward = none; span = 0 }) lt)

  -- The empty set.
  pub new_set-Models : (c : Compare K S) → Models c (new_set c) []
  unfolding new_set new_skip_list Dict.lookup held_at node_at
  new_set-Models c = record {
    same_dict = λ q. refl;
    is_map = tt;
    ascending = tt;
    cells = [];
    held = refl;
    shape = record {
      chains = λ i lt. end (new_level c i (omega arith));
      above = λ i le lt. (_, new_level c i lt, refl);
      backs = refl;
      apart = tt;
      no_header = tt;
      inside = tt;
      heights = tt;
      tall = tt;
      sized = refl;
      levels = omega arith;
      room = omega arith;
    };
    header = refl;
  }
