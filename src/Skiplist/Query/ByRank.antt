-- ===== src/Skiplist/Query/ByRank.antt =====
-- GetElementByRankASC and GetElementByRankDESC of container/skiplist/skiplist.go on the entries.
use mathlib.Core.List.{append_assoc, reverse, reverse-append, reverse-cons, map-append}
use modern_go.Base.Dict.{Dict}
use modern_go.Base.Int.{pos, negsuc}
use modern_go.Base.Outcome.{ok}
use modern_go.Base.{
  ℕ, zero, suc, ◌+◌, ◌-◌, ◌≤◌, ◌<◌, ◌≡◌, refl, sym, ◌∙◌, ap, arith, List, [], ◌∷◌, ◌++◌, none,
  length, length-append, length-map, get_or, dec_lt, leb, true, false,
}
use modern_go.Skiplist.{Compare, SortedSet}
use modern_go.Skiplist.Query.{
  rank_asc_loop, get_element_by_rank_asc, get_element_by_rank_desc, get_lenth,
}
use modern_go.Skiplist.Cells.{All-split, All-weaken}
use modern_go.Skiplist.Ordered.Entries.{entry, entries}
use modern_go.Skiplist.Modelled.{Models, Backs-Found, node_of_held}
use modern_go.Skiplist.Query.Elements.{rank_zero_lem, rank_asc_lem, rank_past_lem}

-- The parts of a list around a place.
split_nth :
    {A : Type 0} (r : ℕ) (xs : List A)
    → r < length xs
    → (ys : List A) × (d : A) × (zs : List A) × (xs ≡ ys ++ d ∷ zs) × (length ys ≡ r)
split_nth r [] h = absurd (omega arith)
split_nth zero (x ∷ xs) h = ([], x, xs, refl, refl)
split_nth (suc r) (x ∷ xs) h =
    let (ys, d, zs, parts, size) = split_nth r xs (omega arith) in
    (x ∷ ys, d, zs, ap (◌∷◌ x) parts, ap suc size)

get_or-middle :
    {A : Type 0} (ys : List A) (d : A) (zs : List A) (e : A)
    → get_or (ys ++ d ∷ zs) (length ys) e ≡ d
get_or-middle [] d zs e = refl
get_or-middle (y ∷ ys) d zs e = get_or-middle ys d zs e

get_or-past : {A : Type 0} (xs : List A) (r : ℕ) (e : A) → length xs ≤ r → get_or xs r e ≡ e
get_or-past [] r e h = refl
get_or-past (x ∷ xs) zero e h = absurd (omega arith)
get_or-past (x ∷ xs) (suc r) e h = get_or-past xs r e (omega arith)

module _ {K S : Type 0} (c : Compare K S) where
  -- The entry at a rank, counted from 1 on; the zero values at a rank that there is not.
  unfoldable pub ranked : ℕ → List (K × S) → K × S
  ranked zero es = (c.no_key, c.no_score)
  ranked (suc r) es = get_or es r (c.no_key, c.no_score)

  pub get_element_by_rank_asc-ranked :
      (rank : ℕ) (s : SortedSet K S) (es : Dict K S)
      → Models c s es
      → get_element_by_rank_asc c (pos rank) s ≡ ok (ranked rank es)
  unfolding get_element_by_rank_asc ranked
  get_element_by_rank_asc-ranked zero s es m =
      let l = m.shape in
      let (n, at, n_key, n_score, _) = node_of_held s.skip_list 0 m.header in
      let e : suc (s.skip_list.level - 1) ≡ s.skip_list.level = omega (arith, l.levels.0) in
      ap (λ v. rank_asc_loop c s.skip_list 0 v 0 0) (sym e)
      ∙ rank_zero_lem s.skip_list 0 c (s.skip_list.level - 1) m.cells n refl (omega (arith, l.room))
          (l.chains _ (omega (arith, l.levels.0))) at
      ∙ rw (n_key, n_score) refl
  get_element_by_rank_asc-ranked (suc r) s es m =
      let l = m.shape in
      let sl = s.skip_list in
      let (n, at, n_key, n_score, _) = node_of_held sl 0 m.header in
      let found = Backs-Found sl none m.cells l.backs in
      let size : length es ≡ length m.cells = ap length (sym m.held) ∙ length-map m.cells entry in
      elim (dec_lt r (length m.cells)) [
        | no past ↦
            rank_past_lem sl (suc r) c sl.level 0 0 m.cells (omega arith) found l.room l.chains
              (n, at)
            ∙ ap ok (sym (get_or-past es r (c.no_key, c.no_score) (omega (arith, size))))
        | yes there ↦
            let (ys, d, hi, parts, before) = split_nth r m.cells there in
            let more = length-append ys (d ∷ []) in
            let all = length-append ys (d ∷ hi) in
            let regroup : m.cells ≡ (ys ++ d ∷ []) ++ hi =
              parts ∙ sym (append_assoc ys (d ∷ []) hi) in
            let found' = All-split _ (ys ++ d ∷ []) hi (rw regroup at found) in
            let high = All-split _ (ys ++ d ∷ []) hi (rw regroup at l.heights) in
            let found_es : es ≡ entries ys ++ entry d ∷ entries hi =
              sym m.held ∙ ap entries parts ∙ map-append entry ys (d ∷ hi) in
            let at_r : length (entries ys) ≡ r = length-map ys entry ∙ before in
            rank_asc_lem sl (suc r) c sl.level 0 0 ys d hi l.levels.0 (omega (arith, more, before))
              found'.0 (All-weaken _ _ (ys ++ d ∷ []) (λ e h. h.0) high.0)
              (omega (arith, l.room, more, all, ap length parts))
              (λ j lt. rw regroup at (l.chains j lt)) (n, at)
            ∙ ap ok (
                sym (
                  ap (λ t. get_or t r (c.no_key, c.no_score)) found_es
                  ∙ ap (λ k. get_or (entries ys ++ entry d ∷ entries hi) k (c.no_key, c.no_score))
                      (sym at_r)
                  ∙ get_or-middle (entries ys) (entry d) (entries hi) (c.no_key, c.no_score)))
      ]

length-reverse : {A : Type 0} (xs : List A) → length (reverse xs) ≡ length xs
length-reverse [] = refl
length-reverse (x ∷ xs) =
    ap length (reverse-cons x xs)
    ∙ omega (arith, length-append (reverse xs) (x ∷ []), length-reverse xs)

module _ {K S : Type 0} (c : Compare K S) where
  ranked-reverse :
      (rank other : ℕ) (es : List (K × S))
      → rank + other ≡ suc (length es)
      → ranked c other es ≡ ranked c rank (reverse es)
  unfolding ranked
  ranked-reverse zero zero es h = refl
  ranked-reverse zero (suc r) es h = get_or-past es r (c.no_key, c.no_score) (omega arith)
  ranked-reverse (suc k) zero es h =
      sym (get_or-past (reverse es) k (c.no_key, c.no_score) (omega (arith, length-reverse es)))
  ranked-reverse (suc k) (suc r) es h =
      let none_such : K × S = (c.no_key, c.no_score) in
      let (ys, d, zs, parts, before) = split_nth r es (omega arith) in
      let after : length (reverse zs) ≡ k =
        omega (arith, length-reverse zs, ap length parts, length-append ys (d ∷ zs)) in
      let turned : reverse es ≡ reverse zs ++ d ∷ reverse ys =
        ap reverse parts
        ∙ reverse-append ys (d ∷ zs)
        ∙ ap (λ t. t ++ reverse ys) (reverse-cons d zs)
        ∙ append_assoc (reverse zs) (d ∷ []) (reverse ys) in
      ap (λ t. get_or t r none_such) parts
      ∙ ap (λ n. get_or (ys ++ d ∷ zs) n none_such) (sym before)
      ∙ get_or-middle ys d zs none_such
      ∙ sym (
          ap (λ t. get_or t k none_such) turned
          ∙ ap (λ n. get_or (reverse zs ++ d ∷ reverse ys) n none_such) (sym after)
          ∙ get_or-middle (reverse zs) d (reverse ys) none_such)

  get_element_by_rank_desc-ranked :
      (rank : ℕ) (s : SortedSet K S) (es : Dict K S)
      → Models c s es
      → get_element_by_rank_desc c (pos rank) s ≡ ok (ranked c rank (reverse es))
  unfolding get_element_by_rank_desc get_lenth get_element_by_rank_asc ranked
  get_element_by_rank_desc-ranked rank s es m =
      let size : s.skip_list.size ≡ length es =
        m.shape.sized ∙ sym (length-map m.cells entry) ∙ ap length m.held in
      elim (dec_lt (suc (length es)) rank) [
        | no inside ↦
            let within : leb rank (suc s.skip_list.size) ≡ true = ground arith in
            rw within (
              get_element_by_rank_asc-ranked c (suc s.skip_list.size - rank) s es m
              ∙ ap ok (ranked-reverse rank (suc s.skip_list.size - rank) es (omega (arith, size))))
        | yes past ↦
            let beyond : leb rank (suc s.skip_list.size) ≡ false = ground arith in
            let e : suc (rank - 1) ≡ rank = omega arith in
            rw beyond (
              ap ok (
                sym (
                  get_or-past (reverse es) (rank - 1) (c.no_key, c.no_score)
                    (omega (arith, length-reverse es)))
                ∙ ap (λ k. ranked c k (reverse es)) e))
      ]

  negative_rank :
      (n : ℕ) (s : SortedSet K S) (es : Dict K S)
      → Models c s es
      → get_element_by_rank_desc c (negsuc n) s ≡ ok (c.no_key, c.no_score)
  unfolding get_element_by_rank_desc get_lenth ranked
  negative_rank n s es m =
      let size : s.skip_list.size ≡ length es =
        m.shape.sized ∙ sym (length-map m.cells entry) ∙ ap length m.held in
      get_element_by_rank_asc-ranked c (suc (suc (s.skip_list.size + n))) s es m
      ∙ ap ok
          (get_or-past es (suc (s.skip_list.size + n)) (c.no_key, c.no_score) (omega (arith, size)))

  -- On a set that stands for some entries GetElementByRankASC gives the entry at a rank in
  -- ascending order, and GetElementByRankDESC in descending order, from 1 on; at 0, past the last
  -- one and at a negative rank both give the zero values.
  pub elements-ranked :
      (s : SortedSet K S) (es : Dict K S)
      → Models c s es
      → ((rank : ℕ)
          → (get_element_by_rank_asc c (pos rank) s ≡ ok (ranked c rank es))
            × (get_element_by_rank_desc c (pos rank) s ≡ ok (ranked c rank (reverse es))))
        × ((n : ℕ)
            → (get_element_by_rank_asc c (negsuc n) s ≡ ok (c.no_key, c.no_score))
              × (get_element_by_rank_desc c (negsuc n) s ≡ ok (c.no_key, c.no_score)))
  unfolding get_element_by_rank_asc
  elements-ranked s es m = (
    λ rank.
        (get_element_by_rank_asc-ranked c rank s es m, get_element_by_rank_desc-ranked rank s es m),
    λ n. (refl, negative_rank n s es m),
  )
