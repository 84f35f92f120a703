-- ===== src/Skiplist/Cells/Pushed.antt =====
-- The node that `insert` of container/skiplist/skiplist.go adds to the heap.
use modern_go.Base.Outcome.{ok}
use modern_go.Base.{
  ℕ, zero, suc, ◌<◌, ◌≡◌, ◌≢◌, refl, ◌∙◌, ap, arith, List, [], ◌∷◌, ◌++◌, none, some, length,
  get_elem?, get_elem?-append, replicate,
}
use modern_go.Skiplist.{Level, SkipList, level_at}
use modern_go.Skiplist.Update.{create_node}
use modern_go.Skiplist.Cells.Heap.{level_at_ext, level_at_of_node, held_at_ext, held_at_of_node}
use modern_go.Skiplist.Cells.{held_at, Tall}

get_elem?-append_ne :
    {A : Type 0} (xs : List A) (x : A) (i : ℕ)
    → i ≢ length xs
    → get_elem? (xs ++ x ∷ []) i ≡ get_elem? xs i
get_elem?-append_ne [] x zero h = absurd (h refl)
get_elem?-append_ne [] x (suc i) h = refl
get_elem?-append_ne (y ∷ xs) x zero h = refl
get_elem?-append_ne (y ∷ xs) x (suc i) h = get_elem?-append_ne xs x i (λ e. h (ap suc e))

pub get_elem?-replicate :
    {A : Type 0} (n i : ℕ) (x : A) → i < n → get_elem? (replicate n x) i ≡ some x
get_elem?-replicate zero i x h = elim h [ ]
get_elem?-replicate (suc n) zero x h = refl
get_elem?-replicate (suc n) (suc i) x h = get_elem?-replicate n i x (omega arith)

module _ {K S : Type 0} where
  -- A node more at the end of the heap.
  module _ (sl : SkipList K S) (key : K) (score : S) where
    abbrev pub pushed : SkipList K S
    pushed = record sl { nodes = sl.nodes ++ create_node key score ∷ [] }

    pub push-links : (y j : ℕ) → y ≢ length sl.nodes → level_at pushed y j ≡ level_at sl y j
    push-links y j ne = level_at_ext sl pushed y (get_elem?-append_ne sl.nodes _ y ne) j

    pub push-held : (y : ℕ) → y ≢ length sl.nodes → held_at pushed y ≡ held_at sl y
    push-held y ne = held_at_ext sl pushed y (get_elem?-append_ne sl.nodes _ y ne)

    pub push-Tall : Tall pushed (length sl.nodes)
    unfolding create_node
    push-Tall i lt = (
      record { forward = none; span = 0 },
      level_at_of_node pushed (length sl.nodes) i _ (get_elem?-append sl.nodes [] _)
          ∙ rw (get_elem?-replicate {A = Level} 32 i (record { forward = none; span = 0 }) lt),
    )

    pub push-new : held_at pushed (length sl.nodes) ≡ ok (key, score, none)
    unfolding create_node
    push-new = held_at_of_node pushed (length sl.nodes) _ (get_elem?-append sl.nodes [] _)
