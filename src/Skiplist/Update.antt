-- ===== src/Skiplist/Update.antt =====
-- container/skiplist/skiplist.go: the methods that change the set.
pub mod Insertion
pub mod Deletion
pub mod Refined
use modern_go.Base.Dict
use modern_go.Base.Outcome.{Outcome, ok, panic, index_out_of_range, ◌>>=◌}
use modern_go.Base.{
  ℕ, zero, suc, ◌+◌, ◌-◌, List, [], ◌∷◌, ◌++◌, Option, none, some, Bool, true, false, ◌==◌, ltb,
  if◌then◌else◌, length, get_elem?,
}
use modern_go.Skiplist.{
  Compare, Node, SkipList, SortedSet, no_levels, node_at, level_at, set_level, set_backward,
  precedes, descend,
}

-- `update[i]` and `rank[i]`
unfoldable pub path_at : List (ℕ × ℕ) → ℕ → Outcome (ℕ × ℕ)
path_at path i = elim (get_elem? path i) [ none ↦ panic index_out_of_range | some p ↦ ok p ]

-- `forward == x`
unfoldable pub is_at : ℕ → Option ℕ → Bool
is_at x none = false
is_at x (some f) = f == x

module _ {K S : Type 0} where
  unfoldable pub create_node : K → S → Node K S
  create_node key score = record { key = key; score = score; backward = none; levels = no_levels }

  -- The levels from `i` on, `left` of them, that no node has reached before.
  unfoldable pub raise_loop :
      ℕ → ℕ → List (ℕ × ℕ) → SkipList K S → Outcome (List (ℕ × ℕ) × SkipList K S)
  raise_loop zero i path sl = ok (path, sl)
  raise_loop (suc left) i path sl = do
    lv ← level_at sl 0 i
    sl' ← set_level sl 0 i (record lv { span = sl.size })
    raise_loop left (suc i) (path ++ (0, 0) ∷ []) sl'

  -- The new node `x` goes behind `update[i]`, at the levels from `i` on.
  unfoldable pub link_loop : ℕ → ℕ → List (ℕ × ℕ) → ℕ → ℕ → SkipList K S → Outcome (SkipList K S)
  link_loop zero i path rank_0 x sl = ok sl
  link_loop (suc left) i path rank_0 x sl = do
    (u, rank_i) ← path_at path i
    lv ← level_at sl u i
    sl₁ ← set_level sl x i (record { forward = lv.forward; span = lv.span - (rank_0 - rank_i) })
    sl₂ ← set_level sl₁ u i (record { forward = some x; span = rank_0 - rank_i + 1 })
    link_loop left (suc i) path rank_0 x sl₂

  -- The levels above the new node only get longer.
  unfoldable pub widen_loop : ℕ → ℕ → List (ℕ × ℕ) → SkipList K S → Outcome (SkipList K S)
  widen_loop zero i path sl = ok sl
  widen_loop (suc left) i path sl = do
    (u, rank_i) ← path_at path i
    lv ← level_at sl u i
    sl' ← set_level sl u i (record lv { span = suc lv.span })
    widen_loop left (suc i) path sl'

  -- `x` leaves the levels from `i` on.
  unfoldable pub unlink_loop : ℕ → ℕ → List (ℕ × ℕ) → ℕ → SkipList K S → Outcome (SkipList K S)
  unlink_loop zero i path x sl = ok sl
  unlink_loop (suc left) i path x sl = do
    (u, rank_i) ← path_at path i
    lv ← level_at sl u i
    own ← level_at sl x i
    sl' ← set_level sl u i (
        if is_at x lv.forward
        then record { forward = own.forward; span = lv.span + own.span - 1 }
        else record lv { span = lv.span - 1 })
    unlink_loop left (suc i) path x sl'

  -- The level, without those on which the header has no next node.
  unfoldable pub lower_loop : SkipList K S → ℕ → Outcome ℕ
  lower_loop sl zero = ok zero
  lower_loop sl (suc zero) = ok (suc zero)
  lower_loop sl (suc (suc n)) = do
    lv ← level_at sl 0 (suc n)
    let lower = lower_loop sl (suc n)
    elim lv.forward [ none ↦ lower | some f ↦ ok (suc (suc n)) ]

  -- `back` comes before what follows; none following, it is the tail.
  unfoldable pub join_backward : SkipList K S → Option ℕ → Option ℕ → Outcome (SkipList K S)
  join_backward sl none back = ok (record sl { tail = back })
  join_backward sl (some f) back = set_backward sl f back

  module _ (c : Compare K S) where
    -- The insertion of a key that the set does not have, at `level` levels; the address and the
    -- set.
    unfoldable pub insert : K → S → ℕ → SortedSet K S → Outcome (ℕ × SortedSet K S)
    insert key score level s = do
      let sl = s.skip_list
      path ← descend (precedes c key score) sl sl.level 0 0
      (path', raised) ← raise_loop (level - sl.level) sl.level path sl
      let higher = record raised { level = if ltb sl.level level then level else sl.level }
      let x = length higher.nodes
      let n = create_node key score
      let with_x = record higher { nodes = higher.nodes ++ n ∷ [] }
      (u, rank_0) ← path_at path' 0
      linked ← link_loop level 0 path' rank_0 x with_x
      widened ← widen_loop (higher.level - level) level path' linked
      backed ← if u == 0 then ok widened else set_backward widened x (some u)
      first ← level_at backed x 0
      joined ← join_backward backed first.forward (some x)
      ok (
        x,
        record {
          dict = Dict.insert c.key_eq key score s.dict;
          skip_list = record joined { size = suc joined.size };
        },
      )

    -- The node `x` at the end of its path, if it is the one sought, is taken out.
    unfoldable pub take_out : List (ℕ × ℕ) → ℕ → SkipList K S → Outcome (SkipList K S)
    take_out path x sl = do
      unlinked ← unlink_loop sl.level 0 path x sl
      n ← node_at unlinked x
      first ← level_at unlinked x 0
      joined ← join_backward unlinked first.forward n.backward
      level ← lower_loop joined joined.level
      ok (record joined { level = level; size = joined.size - 1 })

    -- Whether the key was there, and the set.
    unfoldable pub del : K → SortedSet K S → Outcome (Bool × SortedSet K S)
    del key s = elim (Dict.lookup c.key_eq key s.dict) [
      | none ↦ ok (false, s)
      | some score ↦ do
        let sl = s.skip_list
        path ← descend (precedes c key score) sl sl.level 0 0
        (u, rank_0) ← path_at path 0
        first ← level_at sl u 0
        sl' ← elim first.forward [
          | none ↦ ok sl
          | some x ↦ do
            n ← node_at sl x
            let out = take_out path x sl
            elim (c.key_eq key n.key) [
              | no _ ↦ ok sl
              | yes _ ↦ if c.score_eq score n.score then out else ok sl
            ]
        ]
        ok (true, record { dict = Dict.delete c.key_eq key s.dict; skip_list = sl' })
    ]

    unfoldable pub set : K → S → ℕ → SortedSet K S → Outcome (ℕ × SortedSet K S)
    set key score level s = do (_, s') ← del key s; insert key score level s'
