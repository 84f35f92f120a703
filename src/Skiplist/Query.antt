-- ===== src/Skiplist/Query.antt =====
-- container/skiplist/skiplist.go: the methods that read the set.
pub mod Ranked
pub mod Positions
pub mod Tops
pub mod Spans
pub mod Elements
pub mod ByRank
use modern_go.Base.Dict
use modern_go.Base.Int.{ℤ, pos, negsuc, pos_part, sub_ℕ}
use modern_go.Base.Outcome.{Outcome, ok, diverges, ◌>>=◌}
use modern_go.Base.{
  ℕ, zero, suc, ◌+◌, List, [], ◌∷◌, Option, none, some, Bool, true, false, ◌==◌, leb, if◌then◌else◌,
  length,
}
use modern_go.Skiplist.{Compare, SkipList, SortedSet, node_at, level_at, precedes_or_is, walk}

module _ {K S : Type 0} where
  -- One level's loop of GetElementByRankASC.
  unfoldable pub walk_rank : SkipList K S → ℕ → ℕ → ℕ → ℕ → ℕ → Outcome (ℕ × ℕ)
  walk_rank sl rank i zero x traversed = diverges
  walk_rank sl rank i (suc fuel) x traversed = do
    lv ← level_at sl x i
    elim lv.forward [
      | none ↦ ok (x, traversed)
      | some f ↦
          let rest = walk_rank sl rank i fuel f (traversed + lv.span) in
          if leb (traversed + lv.span) rank then rest else ok (x, traversed)
    ]

  -- The forward links of the lowest level, `left` of them at most.
  unfoldable pub top_loop : ℕ → SkipList K S → Option ℕ → Outcome (List (K × S))
  top_loop left sl none = ok []
  top_loop zero sl (some x) = ok []
  top_loop (suc left) sl (some x) = do
    n ← node_at sl x
    lv ← level_at sl x 0
    rest ← top_loop left sl lv.forward
    ok ((n.key, n.score) ∷ rest)

  -- The backward links, in the same way.
  unfoldable pub top_desc_loop : ℕ → SkipList K S → Option ℕ → Outcome (List (K × S))
  top_desc_loop left sl none = ok []
  top_desc_loop zero sl (some x) = ok []
  top_desc_loop (suc left) sl (some x) = do
    n ← node_at sl x
    rest ← top_desc_loop left sl n.backward
    ok ((n.key, n.score) ∷ rest)

  -- No node is given for a negative number.
  unfoldable pub get_top_n : ℤ → SortedSet K S → Outcome (List (K × S))
  get_top_n n s = do
    first ← level_at s.skip_list 0 0
    top_loop (pos_part n) s.skip_list first.forward

  unfoldable pub get_top_n_desc : ℤ → SortedSet K S → Outcome (List (K × S))
  get_top_n_desc n s = top_desc_loop (pos_part n) s.skip_list s.skip_list.tail

  unfoldable pub get_lenth : SortedSet K S → ℕ
  get_lenth s = s.skip_list.size

  unfoldable pub get_level : SortedSet K S → ℕ
  get_level s = s.skip_list.level

  module _ (c : Compare K S) where
    -- The levels from `n - 1` down.
    unfoldable pub rank_asc_loop : SkipList K S → ℕ → ℕ → ℕ → ℕ → Outcome (K × S)
    rank_asc_loop sl rank zero x traversed = ok (c.no_key, c.no_score)
    rank_asc_loop sl rank (suc i) x traversed = do
      (x', traversed') ← walk_rank sl rank i (length sl.nodes) x traversed
      n ← node_at sl x'
      let lower = rank_asc_loop sl rank i x' traversed'
      if traversed' == rank then ok (n.key, n.score) else lower

    -- A negative rank is reached by no node.
    unfoldable pub get_element_by_rank_asc : ℤ → SortedSet K S → Outcome (K × S)
    get_element_by_rank_asc (negsuc n) s = ok (c.no_key, c.no_score)
    get_element_by_rank_asc (pos rank) s = rank_asc_loop s.skip_list rank s.skip_list.level 0 0

    -- The rank from the other end, `length - rank + 1`.
    unfoldable pub get_element_by_rank_desc : ℤ → SortedSet K S → Outcome (K × S)
    get_element_by_rank_desc (negsuc n) s =
        get_element_by_rank_asc (pos (suc (suc (get_lenth s + n)))) s
    get_element_by_rank_desc (pos rank) s =
        get_element_by_rank_asc (sub_ℕ (suc (get_lenth s)) rank) s

    unfoldable pub get_score : K → SortedSet K S → Option S
    get_score key s = Dict.lookup c.key_eq key s.dict

    unfoldable pub has_key : K → SortedSet K S → Bool
    has_key key s = elim (Dict.lookup c.key_eq key s.dict) [ none ↦ false | some v ↦ true ]

    unfoldable pub rank_loop : K → S → SkipList K S → ℕ → ℕ → ℕ → Outcome ℕ
    rank_loop key score sl zero x rank = ok 0
    rank_loop key score sl (suc i) x rank = do
      (x', rank') ← walk (precedes_or_is c key score) sl i (length sl.nodes) x rank
      n ← node_at sl x'
      let lower = rank_loop key score sl i x' rank'
      elim (c.key_eq n.key key) [ yes _ ↦ ok rank' | no _ ↦ lower ]

    -- none for a key that the set does not have
    unfoldable pub get_rank : K → SortedSet K S → Outcome (Option ℕ)
    get_rank key s = elim (Dict.lookup c.key_eq key s.dict) [
      | none ↦ ok none
      | some score ↦ do rank ← rank_loop key score s.skip_list s.skip_list.level 0 0; ok (some rank)
    ]

    unfoldable pub get_rank_desc : K → SortedSet K S → Outcome (Option ℤ)
    get_rank_desc key s = do
      found ← get_rank key s
      elim found [ none ↦ ok none | some rank ↦ ok (some (sub_ℕ (suc (get_lenth s)) rank)) ]
