-- ===== src/Skiplist/Ordered/Entries.antt =====
-- The entries that the cells hold, as a sorted list: where a key belongs, and where it is.
use mathlib.Core.List.{map-append}
use mathlib.Core.Logic.{if_pos, if_neg}
use modern_go.Base.Dict
use modern_go.Base.Dict.{Dict, IsMap}
use modern_go.Base.{
  ◌≡◌, refl, sym, ◌∙◌, ap, arith, List, [], ◌∷◌, ◌++◌, none, some, true, false, Bool-cases, inl,
  inr, map,
}
use modern_go.Skiplist.{Compare}
use modern_go.Skiplist.Cells.{Cell, All, All-weaken}
use modern_go.Skiplist.Ordered.{
  IsOrder, before, IsAscending, place, before_irrefl, before_trans, before_total,
}

module _ {K S : Type 0} where
  abbrev pub entry : Cell K S → K × S
  entry c = (c.key, c.score)

  abbrev pub entries : List (Cell K S) → Dict K S
  entries = map entry

  entries-append : (xs ys : List (Cell K S)) → entries (xs ++ ys) ≡ entries xs ++ entries ys
  entries-append xs ys = map-append entry xs ys

  module _ (c : Compare K S) (o : IsOrder c) where
    pub before_asym : (d e : K × S) → before c d e ≡ true → before c e d ≡ false
    before_asym d e p = elim (Bool-cases (before c e d)) [
      | inr no_way ↦ no_way
      | inl back ↦ absurd (cc (before_trans c o d e d p back, before_irrefl c o d))
    ]

    after : (d e f : K × S) → before c d e ≡ true → before c d f ≡ false → before c e f ≡ false
    after d e f p q = elim (Bool-cases (before c e f)) [
      | inr no_way ↦ no_way
      | inl on ↦ absurd (cc (before_trans c o d e f p on))
    ]

    -- The cells before an entry, and the others.
    pub split_at :
        (e : K × S) (cells : List (Cell K S))
        → IsAscending c (entries cells)
        → (lo : List (Cell K S)) × (hi : List (Cell K S)) × (cells ≡ lo ++ hi)
          × All (λ d. before c (entry d) e ≡ true) lo
          × All (λ d. before c (entry d) e ≡ false) hi
    split_at e [] h = ([], [], refl, tt, tt)
    split_at e (x ∷ xs) h = elim (Bool-cases (before c (entry x) e)) [
      | inl first ↦
          let (lo, hi, parts, left, right) = split_at e xs h.1 in
          (x ∷ lo, hi, ap (◌∷◌ x) parts, (first, left), right)
      | inr past ↦ ([], x ∷ xs, refl, tt, (past, later xs h.0 past))
    ]
      where
        later :
            (ys : List (Cell K S))
            → All (λ d. before c (entry x) d ≡ true) (entries ys)
            → before c (entry x) e ≡ false
            → All (λ d. before c (entry d) e ≡ false) ys
        later [] g past = tt
        later (y ∷ ys) g past = (after (entry x) (entry y) e g.0 past, later ys g.1 past)

    -- A cell behind those before its entry stands where its entry belongs.
    pub place-entries :
        (key : K) (score : S) (d : Cell K S) (lo hi : List (Cell K S))
        → entry d ≡ (key, score)
        → All (λ x. before c (entry x) (key, score) ≡ true) lo
        → All (λ x. before c (entry x) (key, score) ≡ false) hi
        → place c key score (entries (lo ++ hi)) ≡ entries (lo ++ d ∷ hi)
    unfolding place
    place-entries key score d [] [] e left right = ap (λ t. t ∷ []) (sym e)
    place-entries key score d [] (x ∷ hi) e left right =
        rw (place, right.0) (ap (λ t. t ∷ entry x ∷ entries hi) (sym e))
    place-entries key score d (x ∷ lo) hi e left right =
        rw (left.0, place-entries key score d lo hi e left.1 right)

    before-place :
        (e : K × S) (key : K) (score : S) (es : List (K × S))
        → before c e (key, score) ≡ true
        → All (λ d. before c e d ≡ true) es
        → All (λ d. before c e d ≡ true) (place c key score es)
    unfolding place
    before-place e key score [] h hs = (h, tt)
    before-place e key score (d ∷ es) h hs = elim (Bool-cases (before c d (key, score))) [
      | inl first ↦ rw (place, first) (hs.0, before-place e key score es h hs.1)
      | inr past ↦ rw (place, past) (h, hs)
    ]

    new_before :
        (key : K) (score : S) (d : K × S) (es : List (K × S))
        → Dict.lookup c.key_eq key (d ∷ es) ≡ none
        → before c d (key, score) ≡ false
        → before c (key, score) d ≡ true
    unfolding Dict.lookup
    new_before key score d es absent past = elim (Bool-cases (before c (key, score) d)) [
      | inl first ↦ first
      | inr not_first ↦
          let same : d.0 ≡ key = ap (λ e. e.0) (before_total c o d (key, score) past not_first) in
          absurd (
            ground (arith, if_pos (c.key_eq d.0 key) same (some d.1) (Dict.lookup c.key_eq key es)))
    ]

    -- A new key put where it belongs keeps the order.
    pub place-IsAscending :
        (key : K) (score : S) (es : List (K × S))
        → Dict.lookup c.key_eq key es ≡ none
        → IsAscending c es
        → IsAscending c (place c key score es)
    unfolding place Dict.lookup
    place-IsAscending key score [] absent h = (tt, tt)
    place-IsAscending key score (d ∷ es) absent h = elim (Bool-cases (before c d (key, score))) [
      | inl first ↦
          rw (place, first)
            (
              before-place d key score es first h.0,
              place-IsAscending key score es (ground arith) h.1,
            )
      | inr past ↦
          let first = new_before key score d es absent past in
          rw (place, past)
            ((first, All-weaken _ _ es (λ e g. before_trans c o (key, score) d e first g) h.0), h)
    ]

    -- The cell of a key, with those before it and behind it.
    pub find_cell :
        (key : K) (score : S) (cells : List (Cell K S))
        → Dict.lookup c.key_eq key (entries cells) ≡ some score
        → (lo : List (Cell K S)) × (d : Cell K S) × (hi : List (Cell K S)) × (cells ≡ lo ++ d ∷ hi)
          × (d.key ≡ key)
          × (d.score ≡ score)
          × (Dict.lookup c.key_eq key (entries lo) ≡ none)
    unfolding Dict.lookup
    find_cell key score [] h = absurd (ground arith)
    find_cell key score (x ∷ xs) h = elim (c.key_eq x.key key) [
      | yes e ↦ (
        [],
        x,
        xs,
        refl,
        e,
        ground (
          arith,
          if_pos (c.key_eq x.key key) e (some x.score) (Dict.lookup c.key_eq key (entries xs)),
        ),
        refl,
      )
      | no ne ↦
          let step =
            if_neg (c.key_eq x.key key) ne (some x.score) (Dict.lookup c.key_eq key (entries xs)) in
          let (lo, d, hi, parts, same_key, same_score, absent) =
            find_cell key score xs (sym step ∙ h) in
          (
            x ∷ lo,
            d,
            hi,
            ap (◌∷◌ x) parts,
            same_key,
            same_score,
            if_neg (c.key_eq x.key key) ne (some x.score) (Dict.lookup c.key_eq key (entries lo))
                ∙ absent,
          )
    ]

    -- In ascending order the cells before a cell have entries before its entry, and those behind it
    -- have not.
    pub split_around :
        (d : Cell K S) (lo hi : List (Cell K S))
        → IsAscending c (entries (lo ++ d ∷ hi))
        → All (λ x. before c (entry x) (entry d) ≡ true) lo
          × All (λ x. before c (entry x) (entry d) ≡ false) (d ∷ hi)
          × All (λ x. before c (entry d) (entry x) ≡ true) hi
    split_around d [] hi h = (tt, (before_irrefl c o (entry d), behind hi h.0), ahead hi h.0)
      where
        behind :
            (ys : List (Cell K S))
            → All (λ e. before c (entry d) e ≡ true) (entries ys)
            → All (λ x. before c (entry x) (entry d) ≡ false) ys
        behind [] g = tt
        behind (y ∷ ys) g = (before_asym (entry d) (entry y) g.0, behind ys g.1)

        ahead :
            (ys : List (Cell K S))
            → All (λ e. before c (entry d) e ≡ true) (entries ys)
            → All (λ x. before c (entry d) (entry x) ≡ true) ys
        ahead [] g = tt
        ahead (y ∷ ys) g = (g.0, ahead ys g.1)
    split_around d (x ∷ lo) hi h =
        let (left, right, rest) = split_around d lo hi h.1 in
        ((at_middle lo h.0, left), right, rest)
      where
        at_middle :
            (ys : List (Cell K S))
            → All (λ e. before c (entry x) e ≡ true) (entries (ys ++ d ∷ hi))
            → before c (entry x) (entry d) ≡ true
        at_middle [] g = g.0
        at_middle (y ∷ ys) g = at_middle ys g.1

    All-delete :
        (key : K) (P : K × S → Type 0) (es : Dict K S)
        → All P es
        → All P (Dict.delete c.key_eq key es)
    unfolding Dict.delete
    All-delete key P [] h = tt
    All-delete key P (e ∷ es) h = elim (c.key_eq e.0 key) [
      | yes same ↦ rw (Dict.delete, if_pos (c.key_eq e.0 key) same) (All-delete key P es h.1)
      | no other ↦ rw (Dict.delete, if_neg (c.key_eq e.0 key) other) (h.0, All-delete key P es h.1)
    ]

    pub delete-IsAscending :
        (key : K) (es : Dict K S) → IsAscending c es → IsAscending c (Dict.delete c.key_eq key es)
    unfolding Dict.delete
    delete-IsAscending key [] h = tt
    delete-IsAscending key (e ∷ es) h = elim (c.key_eq e.0 key) [
      | yes same ↦ rw (Dict.delete, if_pos (c.key_eq e.0 key) same) (delete-IsAscending key es h.1)
      | no other ↦
          rw (Dict.delete, if_neg (c.key_eq e.0 key) other)
            (All-delete key _ es h.0, delete-IsAscending key es h.1)
    ]
