-- ===== src/Skiplist/Query/Positions.antt =====
-- GetRank of container/skiplist/skiplist.go on the entries.
use mathlib.Core.List.{append_assoc}
use mathlib.Core.Logic.{ite, if_pos, if_neg}
use mathlib.Core.Option
use modern_go.Base.Dict
use modern_go.Base.Dict.{Dict}
use modern_go.Base.Int.{sub_ℕ}
use modern_go.Base.Outcome.{ok, ◌>>=◌}
use modern_go.Base.{
  ℕ, suc, ◌≤◌, ◌≡◌, ◌≢◌, refl, sym, ◌∙◌, ap, arith, List, [], ◌∷◌, ◌++◌, none, some, true, false,
  length, length-append, length-map, Option-cases, ◌⊎◌, inl, inr,
}
use modern_go.Skiplist.{Compare, Node, SortedSet, node_at}
use modern_go.Skiplist.Query.{get_rank, get_rank_desc, rank_loop, get_lenth}
use modern_go.Skiplist.Cells.{Cell, All, All-split, All-append, All-weaken, All-both, IsList}
use modern_go.Skiplist.Ordered.{IsOrder, before, before_irrefl}
use modern_go.Skiplist.Ordered.Entries.{entry, entries, find_cell, split_around, before_asym}
use modern_go.Skiplist.Modelled.{Models, Backs-Found, node_of_held, precedes_or_is-Answers}
use modern_go.Skiplist.Query.Ranked.{rank_loop_lem}

module _ {K S : Type 0} (c : Compare K S) where
  -- The place of a key in the list, from 1 on.
  unfoldable pub position : K → Dict K S → ℕ
  position key [] = 0
  position key (e ∷ es) = ite (c.key_eq e.0 key) 1 (suc (position key es))

  position-middle :
      (key : K) (lo : List (Cell K S)) (d : Cell K S) (hi : List (Cell K S))
      → d.key ≡ key
      → Dict.lookup c.key_eq key (entries lo) ≡ none
      → position key (entries (lo ++ d ∷ hi)) ≡ length (lo ++ d ∷ [])
  unfolding position Dict.lookup
  position-middle key [] d hi same absent = if_pos (c.key_eq d.key key) same 1 _
  position-middle key (x ∷ lo) d hi same absent = ground (arith, position-middle key lo d hi same)

  absent-All :
      (key : K) (cs : List (Cell K S))
      → Dict.lookup c.key_eq key (entries cs) ≡ none
      → All (λ e. e.key ≢ key) cs
  unfolding Dict.lookup
  absent-All key [] h = tt
  absent-All key (x ∷ cs) h = elim (c.key_eq x.key key) [
    | yes e ↦ absurd (
        ground (
          arith,
          if_pos (c.key_eq x.key key) e (some x.score) (Dict.lookup c.key_eq key (entries cs)),
        ))
    | no ne ↦ (ne, absent-All key cs (sym (if_neg (c.key_eq x.key key) ne (some x.score) _) ∙ h))
  ]

  rank-present :
      (o : IsOrder c) (key : K) (score : S) (s : SortedSet K S) (es : Dict K S)
      → key ≢ c.no_key
      → Dict.lookup c.key_eq key es ≡ some score
      → Models c s es
      → rank_loop c key score s.skip_list s.skip_list.level 0 0 ≡ ok (position key es)
  rank-present o key score s es ne there m =
      let sl = s.skip_list in
      let (lo, d, hi, parts, same_key, same_score, absent) =
        find_cell c o key score m.cells (ap (Dict.lookup c.key_eq key) m.held ∙ there) in
      let l : IsList sl (lo ++ d ∷ hi) = rw parts at m.shape in
      let es_is : entries (lo ++ d ∷ hi) ≡ es = ap entries (sym parts) ∙ m.held in
      let (left, right, ahead) = split_around c o d lo hi (rw es_is m.ascending) in
      let holds : entry d ≡ (key, score) = cc in
      let found = All-split _ lo (d ∷ hi) (Backs-Found sl none (lo ++ d ∷ hi) l.backs) in
      let heights = All-split _ lo (d ∷ hi) l.heights in
      let high =
        All-append (λ e. 1 ≤ e.height) lo (d ∷ []) (All-weaken _ _ lo (λ e h. h.0) heights.0)
          (heights.1.0.0, tt) in
      let passed =
        precedes_or_is-Answers c key score sl true (lo ++ d ∷ []) o
          (All-append _ lo (d ∷ []) found.0 (found.1.0, tt))
          (All-append _ lo (d ∷ [])
            (All-weaken _ _ lo
              (λ e h.
                ap (λ t. before c t (entry e)) (sym holds) ∙ before_asym c o (entry e) (entry d) h)
              left)
            (ap (λ t. before c t (entry d)) (sym holds) ∙ before_irrefl c o (entry d), tt)) in
      let refused =
        precedes_or_is-Answers c key score sl false hi o found.1.1
          (All-weaken _ _ hi (λ e h. ap (λ t. before c t (entry e)) (sym holds) ∙ h) ahead) in
      let (n, at, n_key, _, _) = node_of_held sl 0 m.header in
      let others : All (λ e. (n : Node K S) × (node_at sl e.address ≡ ok n) × (n.key ≢ key)) lo =
        All-both _ _ _ lo
          (λ e (n, at, n_key, _) no_match. (n, at, λ same. no_match (sym n_key ∙ same))) found.0
          (absent-All key lo absent) in
      let rank = length (lo ++ d ∷ []) in
      rank_loop_lem c key score sl d hi same_key refused sl.level 0 0 lo l.levels.0 passed others
        (found.1.0, tt) high
        (omega (arith, l.room, length-append lo (d ∷ hi), length-append lo (d ∷ [])))
        (λ j lt. rw (append_assoc lo (d ∷ []) hi) (l.chains j lt))
        (n, at, λ same. ne (sym same ∙ n_key))
      ∙ ap ok (
          omega arith ∙ sym (position-middle key lo d hi same_key absent) ∙ ap (position key) es_is)

  pub get_rank-position :
      (o : IsOrder c) (key : K) (s : SortedSet K S) (es : Dict K S)
      → key ≢ c.no_key
      → Models c s es
      → get_rank c key s ≡ ok (Option.map (λ v. position key es) (Dict.lookup c.key_eq key es))
  unfolding get_rank
  get_rank-position o key s es ne m = elim (Option-cases (Dict.lookup c.key_eq key es)) [
    | inl absent ↦ rw (get_rank, m.same_dict key ∙ absent, absent) refl
    | inr (score, there) ↦
        rw
          (
            get_rank,
            m.same_dict key ∙ there,
            there,
            rank-present o key score s es ne there m,
            ◌>>=◌,
          )
          refl
  ]

  -- With strict orders on keys and scores, on a set that stands for some entries, and for a key
  -- other than the empty one, GetRank gives the key's place among the entries, from 1 on, and
  -- GetRankDESC its place from the end; both give an error for a key without an entry.
  pub ranks-position :
      (o : IsOrder c) (key : K) (s : SortedSet K S) (es : Dict K S)
      → key ≢ c.no_key
      → Models c s es
      → (get_rank c key s ≡ ok (Option.map (λ v. position key es) (Dict.lookup c.key_eq key es)))
        × (get_rank_desc c key s
            ≡ ok (
                Option.map
                  (λ v. sub_ℕ (suc (length es)) (position key es))
                  (Dict.lookup c.key_eq key es)))
  unfolding get_rank_desc get_lenth
  ranks-position o key s es ne m =
      let ascending = get_rank-position o key s es ne m in
      let size : s.skip_list.size ≡ length es =
        m.shape.sized ∙ sym (length-map m.cells entry) ∙ ap length m.held in
      (ascending, turned ascending size (Option-cases (Dict.lookup c.key_eq key es)))
    where
      turned :
          get_rank c key s ≡ ok (Option.map (λ v. position key es) (Dict.lookup c.key_eq key es))
          → s.skip_list.size ≡ length es
          → (Dict.lookup c.key_eq key es ≡ none)
            ⊎ ((v : S) × (Dict.lookup c.key_eq key es ≡ some v))
          → get_rank_desc c key s
            ≡ ok (
                Option.map
                  (λ v. sub_ℕ (suc (length es)) (position key es))
                  (Dict.lookup c.key_eq key es))
      turned ran size (inl absent) =
          let got : get_rank c key s ≡ ok none =
            ran ∙ ap (λ o. ok (Option.map (λ v. position key es) o)) absent in
          rw (get_rank_desc, got, ◌>>=◌, absent) refl
      turned ran size (inr (v, there)) =
          let got : get_rank c key s ≡ ok (some (position key es)) =
            ran ∙ ap (λ o. ok (Option.map (λ v. position key es) o)) there in
          rw (get_rank_desc, got, ◌>>=◌, size, there) refl
