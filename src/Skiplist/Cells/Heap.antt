-- ===== src/Skiplist/Cells/Heap.antt =====
-- What the writes of container/skiplist/skiplist.go to a node leave in the heap.
use modern_go.Base.Outcome.{ok, panic, index_out_of_range, ◌>>=◌}
use modern_go.Base.{
  ℕ, zero, suc, ◌<◌, ◌≤◌, ◌≡◌, ◌≢◌, ◌⊎◌, inl, inr, refl, sym, ◌∙◌, arith, List, [], ◌∷◌, none, some,
  length, get_elem?, set as set_at, length-set, get_elem?-set_self, get_elem?-set_ne, Option-cases,
  ℕ_discrete,
}
use modern_go.Skiplist.{Level, Node, SkipList, node_at, level_at, set_level}
use modern_go.Skiplist.Cells.{held_at}

-- `sl'` is `sl` but for the levels from `i` up to `n`.
pub record Keeps {K S : Type 0} (i n : ℕ) (sl sl' : SkipList K S) : Type 0 where
  pub other : (y j : ℕ) → (j < i) ⊎ (n ≤ j) → level_at sl' y j ≡ level_at sl y j
  pub there :
      (y j : ℕ) (lv : Level) → level_at sl y j ≡ ok lv → (lv' : Level) × (level_at sl' y j ≡ ok lv')
  pub held : (y : ℕ) → held_at sl' y ≡ held_at sl y
  pub nodes : length sl'.nodes ≡ length sl.nodes
  pub tail : sl'.tail ≡ sl.tail
  pub size : sl'.size ≡ sl.size
  pub level : sl'.level ≡ sl.level

-- `sl'` is `sl` with `lv` as level i of `a`.
pub record Wrote {K S : Type 0} (a i : ℕ) (lv : Level) (sl sl' : SkipList K S) : Type 0 where
  pub here : level_at sl' a i ≡ ok lv
  pub elsewhere : (y : ℕ) → y ≢ a → level_at sl' y i ≡ level_at sl y i
  pub keeps : Keeps i (suc i) sl sl'

pub get_elem?-lt :
    {A : Type 0} (xs : List A) (i : ℕ) (x : A) → get_elem? xs i ≡ some x → i < length xs
get_elem?-lt [] i x h = ground arith
get_elem?-lt (y ∷ ys) zero x h = omega arith
get_elem?-lt (y ∷ ys) (suc i) x h = omega (arith, get_elem?-lt ys i x h)

module _ {K S : Type 0} where
  pub Keeps-refl : (i n : ℕ) (sl : SkipList K S) → Keeps i n sl sl
  Keeps-refl i n sl = record {
    other = λ y j o. refl;
    there = λ y j lv e. (lv, e);
    held = λ y. refl;
    nodes = refl;
    tail = refl;
    size = refl;
    level = refl;
  }

  pub Keeps-trans :
      {sl sl' sl'' : SkipList K S} (i m n : ℕ)
      → i ≤ m
      → m ≤ n
      → Keeps i m sl sl'
      → Keeps m n sl' sl''
      → Keeps i n sl sl''
  Keeps-trans {sl} {sl'} {sl''} i m n p q first second = record {
    other = λ y j o. second.other y j (right j o) ∙ first.other y j (left j o);
    there = λ y j lv e. let (lv', e') = first.there y j lv e in second.there y j lv' e';
    held = λ y. second.held y ∙ first.held y;
    nodes = second.nodes ∙ first.nodes;
    tail = second.tail ∙ first.tail;
    size = second.size ∙ first.size;
    level = second.level ∙ first.level;
  }
    where
      left : (j : ℕ) → (j < i) ⊎ (n ≤ j) → (j < i) ⊎ (m ≤ j)
      left j (inl a) = inl a
      left j (inr b) = inr (omega arith)

      right : (j : ℕ) → (j < i) ⊎ (n ≤ j) → (j < m) ⊎ (n ≤ j)
      right j (inl a) = inl (omega arith)
      right j (inr b) = inr b

  -- Two writes to one level.
  pub Keeps-both :
      {sl sl' sl'' : SkipList K S} (i n : ℕ)
      → Keeps i n sl sl'
      → Keeps i n sl' sl''
      → Keeps i n sl sl''
  Keeps-both i n first second = record {
    other = λ y j o. second.other y j o ∙ first.other y j o;
    there = λ y j lv e. let (lv', e') = first.there y j lv e in second.there y j lv' e';
    held = λ y. second.held y ∙ first.held y;
    nodes = second.nodes ∙ first.nodes;
    tail = second.tail ∙ first.tail;
    size = second.size ∙ first.size;
    level = second.level ∙ first.level;
  }

  -- A node that has a level is in the heap.
  level_at-node :
      (sl : SkipList K S) (x i : ℕ) (lv : Level)
      → level_at sl x i ≡ ok lv
      → (n : Node K S) × (get_elem? sl.nodes x ≡ some n) × (get_elem? n.levels i ≡ some lv)
  unfolding level_at node_at
  level_at-node sl x i lv h = elim (Option-cases (get_elem? sl.nodes x)) [
    | inl missing ↦ absurd (ground arith)
    | inr (n, found) ↦ (n, found, ground arith)
  ]

  pub level_at_of_node :
      (sl : SkipList K S) (x i : ℕ) (n : Node K S)
      → get_elem? sl.nodes x ≡ some n
      → level_at sl x i
        ≡ elim (get_elem? n.levels i) [ none ↦ panic index_out_of_range | some lv ↦ ok lv ]
  unfolding level_at node_at
  level_at_of_node sl x i n h = rw (h, ◌>>=◌)

  -- What is read at a place depends on the node there alone.
  pub level_at_ext :
      (sl sl' : SkipList K S) (y : ℕ)
      → get_elem? sl'.nodes y ≡ get_elem? sl.nodes y
      → (j : ℕ) → level_at sl' y j ≡ level_at sl y j
  unfolding level_at node_at
  level_at_ext sl sl' y h j = rw (level_at, node_at, h)

  pub held_at_ext :
      (sl sl' : SkipList K S) (y : ℕ)
      → get_elem? sl'.nodes y ≡ get_elem? sl.nodes y
      → held_at sl' y ≡ held_at sl y
  unfolding held_at node_at
  held_at_ext sl sl' y h = rw (held_at, node_at, h)

  pub held_at_of_node :
      (sl : SkipList K S) (y : ℕ) (n : Node K S)
      → get_elem? sl.nodes y ≡ some n
      → held_at sl y ≡ ok (n.key, n.score, n.backward)
  unfolding held_at node_at
  held_at_of_node sl y n h = rw (h, ◌>>=◌)

  module _ (sl : SkipList K S) (a i : ℕ) (old lv : Level) (n : Node K S)
      (found : get_elem? sl.nodes a ≡ some n) (was : get_elem? n.levels i ≡ some old) where
    abbrev written : SkipList K S
    written = record sl { nodes = set_at sl.nodes a (record n { levels = set_at n.levels i lv }) }

    written_node : get_elem? written.nodes a ≡ some (record n { levels = set_at n.levels i lv })
    written_node = get_elem?-set_self sl.nodes a _ (get_elem?-lt sl.nodes a n found)

    written_level : (j : ℕ) → j ≢ i → level_at written a j ≡ level_at sl a j
    written_level j ne =
        level_at_of_node written a j _ written_node
        ∙ (rw (get_elem?-set_ne n.levels {i = i} {j = j} lv (λ e. ne (sym e))))
        ∙ sym (level_at_of_node sl a j n found)

    written_here : level_at written a i ≡ ok lv
    written_here =
        level_at_of_node written a i _ written_node
        ∙ rw (get_elem?-set_self n.levels i lv (get_elem?-lt n.levels i old was))

    written-Keeps : Keeps i (suc i) sl written
    written-Keeps = record {
      other = λ y j o. elim (ℕ_discrete y a) [
        | yes e ↦ rw e (written_level j (apart j o))
        | no ne ↦ level_at_ext sl written y (get_elem?-set_ne sl.nodes _ (λ e. ne (sym e))) j
      ];
      there = λ y j lv' h. elim (ℕ_discrete y a) [
        | yes e ↦ elim (ℕ_discrete j i) [
          | yes e' ↦ (lv, rw (e, e') written_here)
          | no ne ↦ (lv', rw e (written_level j ne ∙ rw (← e) h))
        ]
        | no ne ↦
            (lv', level_at_ext sl written y (get_elem?-set_ne sl.nodes _ (λ e. ne (sym e))) j ∙ h)
      ];
      held = λ y. elim (ℕ_discrete y a) [
        | yes e ↦
            rw e (held_at_of_node written a _ written_node ∙ sym (held_at_of_node sl a n found))
        | no ne ↦ held_at_ext sl written y (get_elem?-set_ne sl.nodes _ (λ e. ne (sym e)))
      ];
      nodes = length-set sl.nodes a _;
      tail = refl;
      size = refl;
      level = refl;
    }
      where
        apart : (j : ℕ) → (j < i) ⊎ (suc i ≤ j) → j ≢ i
        apart j (inl h) = omega arith
        apart j (inr h) = omega arith

    written-Wrote : Wrote a i lv sl written
    written-Wrote = record {
      here = written_here;
      elsewhere =
          λ y ne. level_at_ext sl written y (get_elem?-set_ne sl.nodes _ (λ e. ne (sym e))) i;
      keeps = written-Keeps;
    }

  -- A level that can be read can be written.
  pub set_level_lem :
      (sl : SkipList K S) (a i : ℕ) (old lv : Level)
      → level_at sl a i ≡ ok old
      → (sl' : SkipList K S) × (set_level sl a i lv ≡ ok sl') × Wrote a i lv sl sl'
  unfolding set_level node_at
  set_level_lem sl a i old lv e =
      let (n, found, was) = level_at-node sl a i old e in
      (
        written sl a i old lv n found was,
        rw (found, ◌>>=◌),
        written-Wrote sl a i old lv n found was,
      )
