-- ===== src/Skiplist.antt =====
-- container/skiplist/skiplist.go: a set of keys sorted by score, as a skip list with spans. A
-- node's address is its place in a heap, and the header's is 0. Keys and scores are compared by
-- arguments; scores are not NaN. The dictionary's pointer to a score is the score, which no method
-- changes. Spans and ranks are differences of positions in the list, which are not negative.
pub mod Cells
pub mod Ordered
pub mod Modelled
pub mod Runs
pub mod Update
pub mod Query
mod Examples
use modern_go.Base.Dict
use modern_go.Base.Dict.{Dict}
use modern_go.Base.Outcome.{
  Outcome, ok, panic, diverges, index_out_of_range, nil_dereference, ◌>>=◌,
}
use modern_go.Base.{
  ℕ, zero, suc, ◌+◌, ◌-◌, ◌%◌, List, [], ◌∷◌, ◌++◌, Option, none, some, Bool, true, false, not,
  ◌&&◌, ◌||◌, ◌==◌, ltb, leb, if◌then◌else◌, length, get_elem?, set as set_at, replicate, min,
}

abbrev pub default_max_level : ℕ
default_max_level = 32

-- `<` and `==` on keys and scores, and their zero values.
pub record Compare (K S : Type 0) : Type 0 where
  pub key_eq : Discrete K
  pub key_lt : K → K → Bool
  pub score_lt : S → S → Bool
  pub score_eq : S → S → Bool
  pub no_key : K
  pub no_score : S

pub record Level : Type 0 where
  pub forward : Option ℕ
  pub span : ℕ

pub record Node (K S : Type 0) : Type 0 where
  pub key : K
  pub score : S
  pub backward : Option ℕ
  pub levels : List Level

pub record SkipList (K S : Type 0) : Type 0 where
  pub nodes : List (Node K S)
  pub tail : Option ℕ
  pub size : ℕ
  pub level : ℕ

pub record SortedSet (K S : Type 0) : Type 0 where
  pub dict : Dict K S
  pub skip_list : SkipList K S

abbrev pub no_levels : List Level
no_levels = replicate default_max_level (record { forward = none; span = 0 })

-- The number of levels for draws of rand.Int63: one more for every draw in the first quarter.
pub random_level : List ℕ → ℕ
random_level [] = 1
random_level (d ∷ draws) =
    let more = random_level draws in if ltb (d % 65536) 16384 then min 32 (suc more) else 1

module _ {K S : Type 0} where
  pub node_at : SkipList K S → ℕ → Outcome (Node K S)
  node_at sl x = elim (get_elem? sl.nodes x) [ none ↦ panic nil_dereference | some n ↦ ok n ]

  -- `x.level[i]`
  pub level_at : SkipList K S → ℕ → ℕ → Outcome Level
  level_at sl x i = do
    n ← node_at sl x
    elim (get_elem? n.levels i) [ none ↦ panic index_out_of_range | some lv ↦ ok lv ]

  pub set_level : SkipList K S → ℕ → ℕ → Level → Outcome (SkipList K S)
  set_level sl x i lv = do
    n ← node_at sl x
    ok (record sl { nodes = set_at sl.nodes x (record n { levels = set_at n.levels i lv }) })

  pub set_backward : SkipList K S → ℕ → Option ℕ → Outcome (SkipList K S)
  set_backward sl x back = do
    n ← node_at sl x
    ok (record sl { nodes = set_at sl.nodes x (record n { backward = back }) })

  -- One level's loop: on from `x` while `go` holds of the next node, with the rank reached. A level
  -- has no more nodes than the heap, which bounds the rounds.
  pub walk : (Node K S → Bool) → SkipList K S → ℕ → ℕ → ℕ → ℕ → Outcome (ℕ × ℕ)
  walk go sl i zero x rank = diverges
  walk go sl i (suc fuel) x rank = do
    lv ← level_at sl x i
    elim lv.forward [
      | none ↦ ok (x, rank)
      | some f ↦ do
        n ← node_at sl f
        let rest = walk go sl i fuel f (rank + lv.span)
        if go n then rest else ok (x, rank)
    ]

  -- The loop over the levels from `n - 1` down: `update` and `rank`, the entry of level i at i.
  pub descend : (Node K S → Bool) → SkipList K S → ℕ → ℕ → ℕ → Outcome (List (ℕ × ℕ))
  descend go sl zero x rank = ok []
  descend go sl (suc i) x rank = do
    (x', rank') ← walk go sl i (length sl.nodes) x rank
    lower ← descend go sl i x' rank'
    ok (lower ++ (x', rank') ∷ [])

  module _ (c : Compare K S) where
    pub new_skip_list : SkipList K S
    new_skip_list = record {
      nodes =
          (record { key = c.no_key; score = c.no_score; backward = none; levels = no_levels }) ∷ [];
      tail = none;
      size = 0;
      level = 1;
    }

    pub new_set : SortedSet K S
    new_set = record { dict = []; skip_list = new_skip_list }

    -- `n.score < score || (n.score == score && n.key < key)`
    pub precedes : K → S → Node K S → Bool
    precedes key score n =
        c.score_lt n.score score || (c.score_eq n.score score && c.key_lt n.key key)

    -- The same with `n.key <= key`.
    pub precedes_or_is : K → S → Node K S → Bool
    precedes_or_is key score n =
        c.score_lt n.score score || (c.score_eq n.score score && not (c.key_lt key n.key))
