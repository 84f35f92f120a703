-- ===== src/Skiplist/Query/Tops.antt =====
-- GetTopN and GetTopNDESC of container/skiplist/skiplist.go on the entries.
use mathlib.Core.List.{reverse, reverse-append, map-append, append-nil}
use modern_go.Base.Dict.{Dict}
use modern_go.Base.Outcome.{ok, ◌>>=◌}
use modern_go.Base.{
  ℕ, zero, suc, ◌≤◌, ◌≡◌, refl, sym, ◌∙◌, ap, arith, List, [], ◌∷◌, ◌++◌, Option, none, some, ◌⊎◌,
  inl, inr, take,
}
use modern_go.Skiplist.{Compare, Level, SkipList, SortedSet, level_at}
use modern_go.Base.Int.{ℤ, pos_part}
use modern_go.Skiplist.Query.{get_top_n, get_top_n_desc, top_loop, top_desc_loop}
use modern_go.Skiplist.Cells.{Cell, All, All-weaken, Chain, end, stop, skip, held_at}
use modern_go.Skiplist.Cells.Links.{Chain-start, ok_forward}
use modern_go.Skiplist.Cells.Backward.{Fronts, final, Backs-split}
use modern_go.Skiplist.Ordered.Entries.{entry, entries}
use modern_go.Skiplist.Modelled.{Models, Found, Backs-Found, node_of_held}

module _ {K S : Type 0} where
  -- Every cell reaches level 0, so its links lead through all of them.
  top_loop_lem :
      (n : ℕ) (sl : SkipList K S) (cs : List (Cell K S)) (lv : Level) {x k : ℕ}
      → level_at sl x 0 ≡ ok lv
      → All (λ d. 1 ≤ d.height) cs
      → Found sl cs
      → Chain sl 0 x k cs
      → top_loop n sl lv.forward ≡ ok (take n (entries cs))
  unfolding top_loop
  top_loop_lem zero sl [] lv at high found (end e) =
      let last = ok_forward (sym at ∙ e) in rw (top_loop, last) refl
  top_loop_lem (suc n) sl [] lv at high found (end e) =
      let last = ok_forward (sym at ∙ e) in rw (top_loop, last) refl
  top_loop_lem n sl (d ∷ cs) lv at high found (skip p rest) = absurd (omega arith)
  top_loop_lem zero sl (d ∷ cs) lv at high found (stop p e rest) =
      let leads = ok_forward (sym at ∙ e) in rw (top_loop, leads) refl
  top_loop_lem (suc n) sl (d ∷ cs) lv at high found (stop p e rest) =
      let leads = ok_forward (sym at ∙ e) in
      let (m, at_d, same_key, same_score) = found.0 in
      let (next, at_next, _) = Chain-start rest in
      rw (
        top_loop,
        leads,
        at_d,
        ◌>>=◌,
        at_next,
        top_loop_lem n sl cs next at_next high.1 found.1 rest,
        same_key,
        same_score,
      )

  last-cases :
      (cs : List (Cell K S))
      → (cs ≡ []) ⊎ ((xs : List (Cell K S)) × (d : Cell K S) × (cs ≡ xs ++ d ∷ []))
  last-cases [] = inl refl
  last-cases (x ∷ cs) = elim (last-cases cs) [
    | inl nothing ↦ inr ([], x, ap (◌∷◌ x) nothing)
    | inr (xs, d, e) ↦ inr (x ∷ xs, d, ap (◌∷◌ x) e)
  ]

  final-snoc :
      (prev : Option ℕ) (xs : List (Cell K S)) (d : Cell K S)
      → final prev (xs ++ d ∷ []) ≡ some d.address
  final-snoc prev [] d = refl
  final-snoc prev (x ∷ xs) d = final-snoc (some x.address) xs d

  Fronts-snoc :
      (sl : SkipList K S) (prev : Option ℕ) (xs : List (Cell K S)) (d : Cell K S)
      → Fronts sl prev (xs ++ d ∷ [])
      → Fronts sl prev xs × (held_at sl d.address ≡ ok (d.key, d.score, final prev xs))
  Fronts-snoc sl prev [] d h = (tt, h.0)
  Fronts-snoc sl prev (x ∷ xs) d h =
      let (front, last) = Fronts-snoc sl (some x.address) xs d h.1 in ((h.0, front), last)

  none_left : (sl : SkipList K S) (x : Option ℕ) → top_desc_loop zero sl x ≡ ok []
  unfolding top_desc_loop
  none_left sl none = refl
  none_left sl (some x) = refl

  desc_step :
      (n : ℕ) (sl : SkipList K S) (xs : List (Cell K S)) (d : Cell K S)
      → Fronts sl none (xs ++ d ∷ [])
      → top_desc_loop n sl (final none xs) ≡ ok (take n (reverse (entries xs)))
      → top_desc_loop (suc n) sl (final none (xs ++ d ∷ []))
        ≡ ok (take (suc n) (reverse (entries (xs ++ d ∷ []))))
  unfolding top_desc_loop
  desc_step n sl xs d h rest =
      let (fronts, holds) = Fronts-snoc sl none xs d h in
      let (m, at, same_key, same_score, back) = node_of_held sl d.address holds in
      rw (
        final-snoc none xs d,
        map-append entry xs (d ∷ []),
        reverse-append (entries xs) (entry d ∷ []),
        top_desc_loop,
        at,
        ◌>>=◌,
        back,
        rest,
        same_key,
        same_score,
      )

  -- The backward links lead from any cell to the first one.
  top_desc_loop_lem :
      (n : ℕ) (sl : SkipList K S) (cs : List (Cell K S))
      → Fronts sl none cs
      → top_desc_loop n sl (final none cs) ≡ ok (take n (reverse (entries cs)))
  unfolding top_desc_loop
  top_desc_loop_lem zero sl cs h = none_left sl (final none cs)
  top_desc_loop_lem (suc n) sl cs h = elim (last-cases cs) [
    | inl nothing ↦ rw nothing refl
    | inr (xs, d, parts) ↦ rw parts (
        desc_step n sl xs d (rw parts at h)
          (top_desc_loop_lem n sl xs (Fronts-snoc sl none xs d (rw parts at h)).0))
  ]

  get_top_n-take :
      (c : Compare K S) (n : ℤ) (s : SortedSet K S) (es : Dict K S)
      → Models c s es
      → get_top_n n s ≡ ok (take (pos_part n) es)
  unfolding get_top_n
  get_top_n-take c n s es m =
      let l = m.shape in
      let chain = l.chains 0 (omega (arith, l.levels.0)) in
      let (lv, at, _) = Chain-start chain in
      rw (get_top_n, at, ◌>>=◌)
        (top_loop_lem (pos_part n) s.skip_list m.cells lv at
            (All-weaken _ _ m.cells (λ d h. h.0) l.heights)
            (Backs-Found s.skip_list none m.cells l.backs) chain
          ∙ ap (λ t. ok (take (pos_part n) t)) m.held)

  get_top_n_desc-take :
      (c : Compare K S) (n : ℤ) (s : SortedSet K S) (es : Dict K S)
      → Models c s es
      → get_top_n_desc n s ≡ ok (take (pos_part n) (reverse es))
  unfolding get_top_n_desc
  get_top_n_desc-take c n s es m =
      let (fronts, tail) =
        Backs-split s.skip_list none m.cells [] (rw (append-nil) m.shape.backs) in
      ap (top_desc_loop (pos_part n) s.skip_list) tail
      ∙ top_desc_loop_lem (pos_part n) s.skip_list m.cells fronts
      ∙ ap (λ t. ok (take (pos_part n) (reverse t))) m.held

  -- On a set that stands for some entries GetTopN gives the first entries in ascending order, and
  -- GetTopNDESC the last ones in descending order, as many as are asked for or as there are; for a
  -- negative number none.
  pub tops-take :
      (c : Compare K S) (n : ℤ) (s : SortedSet K S) (es : Dict K S)
      → Models c s es
      → (get_top_n n s ≡ ok (take (pos_part n) es))
        × (get_top_n_desc n s ≡ ok (take (pos_part n) (reverse es)))
  tops-take c n s es m = (get_top_n-take c n s es m, get_top_n_desc-take c n s es m)
