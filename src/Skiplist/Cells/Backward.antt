-- ===== src/Skiplist/Cells/Backward.antt =====
-- The backward links and the tail.
use modern_go.Base.Outcome.{ok, ◌>>=◌, Returns}
use modern_go.Base.{
  ℕ, ◌≤◌, ◌≡◌, ◌≢◌, refl, sym, ◌∙◌, arith, List, [], ◌∷◌, ◌++◌, Option, none, some, length,
  get_elem?, set as set_at, length-set, get_elem?-set_self, get_elem?-set_ne, if◌then◌else◌, ◌==◌,
  Option-cases, ℕ_discrete, inl, inr,
}
use modern_go.Skiplist.Cells.Reach.{reach_stop}
use modern_go.Skiplist.{Level, Node, SkipList, node_at, level_at, set_backward}
use modern_go.Skiplist.Cells.Walk.{Entries}
use modern_go.Skiplist.Update.{path_at, join_backward}
use modern_go.Skiplist.Cells.Heap.{
  level_at_ext, level_at_of_node, held_at_ext, held_at_of_node, get_elem?-lt,
}
use modern_go.Skiplist.Cells.{
  Cell, All, All-weaken, Avoids, AreApart, Chain, end, stop, skip, reach, held_at, Backs,
}
use modern_go.Skiplist.Cells.Links.{ok_forward}

module _ {K S : Type 0} where
  -- The levels are as they were.
  pub record SameLevels (sl sl' : SkipList K S) : Type 0 where
    pub links : (y j : ℕ) → level_at sl' y j ≡ level_at sl y j
    pub nodes : length sl'.nodes ≡ length sl.nodes
    pub size : sl'.size ≡ sl.size
    pub level : sl'.level ≡ sl.level

  -- What comes before the cells behind `cs`.
  abbrev pub final : Option ℕ → List (Cell K S) → Option ℕ
  final prev [] = prev
  final prev (c ∷ cs) = final (some c.address) cs

  abbrev pub Fronts : SkipList K S → Option ℕ → List (Cell K S) → Type 0
  Fronts sl prev [] = Unit
  Fronts sl prev (c ∷ cs) =
      (held_at sl c.address ≡ ok (c.key, c.score, prev)) × Fronts sl (some c.address) cs

  pub Backs-split :
      (sl : SkipList K S) (prev : Option ℕ) (lo hi : List (Cell K S))
      → Backs sl prev (lo ++ hi)
      → Fronts sl prev lo × Backs sl (final prev lo) hi
  Backs-split sl prev [] hi h = (tt, h)
  Backs-split sl prev (c ∷ lo) hi h =
      let rest = Backs-split sl (some c.address) lo hi h.1 in ((h.0, rest.0), rest.1)

  pub Backs-join :
      (sl : SkipList K S) (prev : Option ℕ) (lo hi : List (Cell K S))
      → Fronts sl prev lo
      → Backs sl (final prev lo) hi
      → Backs sl prev (lo ++ hi)
  Backs-join sl prev [] hi f b = b
  Backs-join sl prev (c ∷ lo) hi f b = (f.0, Backs-join sl (some c.address) lo hi f.1 b)

  -- The cells hold what they held.
  abbrev pub SameHeld : SkipList K S → SkipList K S → List (Cell K S) → Type 0
  SameHeld sl sl' = All (λ c. held_at sl' c.address ≡ held_at sl c.address)

  pub Fronts-frame :
      (sl sl' : SkipList K S) (prev : Option ℕ) (cs : List (Cell K S))
      → SameHeld sl sl' cs
      → Fronts sl prev cs
      → Fronts sl' prev cs
  Fronts-frame sl sl' prev [] same h = tt
  Fronts-frame sl sl' prev (c ∷ cs) same h =
      (same.0 ∙ h.0, Fronts-frame sl sl' (some c.address) cs same.1 h.1)

  pub Backs-frame :
      (sl sl' : SkipList K S) (prev : Option ℕ) (cs : List (Cell K S))
      → SameHeld sl sl' cs
      → sl'.tail ≡ sl.tail
      → Backs sl prev cs
      → Backs sl' prev cs
  Backs-frame sl sl' prev [] same tail h = tail ∙ h
  Backs-frame sl sl' prev (c ∷ cs) same tail h =
      (same.0 ∙ h.0, Backs-frame sl sl' (some c.address) cs same.1 tail h.1)

  -- Every cell reaches level 0, where the walk ends at the last one.
  pub final-reach :
      (x k : ℕ) (prev : Option ℕ) (cs : List (Cell K S))
      → All (λ c. 1 ≤ c.height) cs
      → Avoids 0 cs
      → prev ≡ (if x == 0 then none else some x)
      → final prev cs ≡ (if (reach 0 x k cs).0 == 0 then none else some (reach 0 x k cs).0)
  unfolding reach
  final-reach x k prev [] h ha e = e
  final-reach x k prev (c ∷ cs) h ha e =
      rw (reach_stop 0 x k c cs (omega arith))
        (final-reach c.address 0 (some c.address) cs h.1 ha.1 (ground arith))

  reach-all : (x : ℕ) (cs : List (Cell K S)) → All (λ c. 1 ≤ c.height) cs → (reach 0 x 0 cs).1 ≡ 0
  unfolding reach
  reach-all x [] h = refl
  reach-all x (c ∷ cs) h = rw (reach_stop 0 x 0 c cs (omega arith)) (reach-all c.address cs h.1)

  -- The lowest entry of a path is the last cell of all that were passed, and its rank.
  pub lowest_entry :
      (lo : List (Cell K S)) (path : List (ℕ × ℕ)) {n : ℕ}
      → 1 ≤ n
      → All (λ c. 1 ≤ c.height) lo
      → Entries lo 0 (length lo) n path
      → path_at path 0 ≡ ok ((reach 0 0 0 lo).0, length lo)
  unfolding path_at
  lowest_entry lo path positive high es =
      let ((v, r), got, (at, far)) = es.entry 0 positive in
      let rank : r ≡ length lo = omega (arith, reach-all 0 lo high) in
      rw (path_at, got) (rw (← at, rank))

  held_at-node :
      (sl : SkipList K S) (a : ℕ) {k : K} {v : S} {b : Option ℕ}
      → held_at sl a ≡ ok (k, v, b)
      → (n : Node K S) × (get_elem? sl.nodes a ≡ some n) × (n.key ≡ k) × (n.score ≡ v)
  unfolding held_at node_at
  held_at-node sl a h = elim (Option-cases (get_elem? sl.nodes a)) [
    | inl missing ↦ absurd (ground arith)
    | inr (n, found) ↦ (n, found, ground arith, ground arith)
  ]

  module _ (sl : SkipList K S) (a : ℕ) (back : Option ℕ) (n : Node K S)
      (found : get_elem? sl.nodes a ≡ some n) where
    abbrev rehung : SkipList K S
    rehung = record sl { nodes = set_at sl.nodes a (record n { backward = back }) }

    rehung_node : get_elem? rehung.nodes a ≡ some (record n { backward = back })
    rehung_node = get_elem?-set_self sl.nodes a _ (get_elem?-lt sl.nodes a n found)

    rehung_elsewhere : (y : ℕ) → y ≢ a → get_elem? rehung.nodes y ≡ get_elem? sl.nodes y
    rehung_elsewhere y ne = get_elem?-set_ne sl.nodes _ (λ e. ne (sym e))

    rehung-SameLevels : SameLevels sl rehung
    rehung-SameLevels = record {
      links = λ y j. elim (ℕ_discrete y a) [
        | yes e ↦
            rw e (level_at_of_node rehung a j _ rehung_node ∙ sym (level_at_of_node sl a j n found))
        | no ne ↦ level_at_ext sl rehung y (rehung_elsewhere y ne) j
      ];
      nodes = length-set sl.nodes a _;
      size = refl;
      level = refl;
    }

  pub set_backward_lem :
      (sl : SkipList K S) (a : ℕ) (back : Option ℕ) {k : K} {v : S} {b : Option ℕ}
      → held_at sl a ≡ ok (k, v, b)
      → (sl' : SkipList K S) × (set_backward sl a back ≡ ok sl')
        × SameLevels sl sl'
        × (sl'.tail ≡ sl.tail)
        × (held_at sl' a ≡ ok (k, v, back))
        × ((y : ℕ) → y ≢ a → held_at sl' y ≡ held_at sl y)
  unfolding set_backward node_at
  set_backward_lem sl a back h =
      let (n, found, same_key, same_score) = held_at-node sl a h in
      (
        rehung sl a back n found,
        rw (found, ◌>>=◌),
        rehung-SameLevels sl a back n found,
        refl,
        held_at_of_node (rehung sl a back n found) a _ (rehung_node sl a back n found)
            ∙ rw (same_key, same_score),
        λ y ne.
            held_at_ext sl (rehung sl a back n found) y (rehung_elsewhere sl a back n found y ne),
      )

  -- What followed `x` on level 0 is made to lead back to `back`; nothing following, the tail is.
  pub join_backward_lem :
      (old sl : SkipList K S) (x : ℕ) (prev back : Option ℕ) (hi : List (Cell K S)) (first : Level)
      → level_at old x 0 ≡ ok first
      → Chain old 0 x 0 hi
      → All (λ c. 1 ≤ c.height) hi
      → AreApart hi
      → Backs sl prev hi
      → Returns (join_backward sl first.forward back) (λ sl'.
        SameLevels sl sl'
        × Backs sl' back hi
        × ((y : ℕ) → Avoids y hi → held_at sl' y ≡ held_at sl y))
  unfolding join_backward
  join_backward_lem old sl x prev back [] first at (end e) high apart backs =
      let last : first.forward ≡ none = ok_forward (sym at ∙ e) in
      (
        record sl { tail = back },
        rw last,
        (
          record {
            links = λ y j. level_at_ext sl (record sl { tail = back }) y refl j;
            nodes = refl;
            size = refl;
            level = refl;
          },
          refl,
          λ y h. held_at_ext sl (record sl { tail = back }) y refl,
        ),
      )
  join_backward_lem old sl x prev back (c ∷ hi) first at (skip p rest) high apart backs =
      absurd (omega arith)
  join_backward_lem old sl x prev back (c ∷ hi) first at (stop p e rest) high apart backs =
      let leads : first.forward ≡ some c.address = ok_forward (sym at ∙ e) in
      let (sl', ran, same, tail, here, elsewhere) = set_backward_lem sl c.address back backs.0 in
      (
        sl',
        rw leads ran,
        (
          same,
          (
            here,
            Backs-frame sl sl' (some c.address) hi
                (All-weaken _ _ hi (λ d ne. elsewhere d.address ne) apart.0) tail backs.1,
          ),
          λ y h. elsewhere y (λ e'. h.0 (sym e')),
        ),
      )
