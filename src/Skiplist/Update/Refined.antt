-- ===== src/Skiplist/Update/Refined.antt =====
-- `Set` and `Del` of container/skiplist/skiplist.go on the entries.
use mathlib.Core.Logic.{ite, if_pos}
use modern_go.Base.Dict
use modern_go.Base.Dict.{Dict}
use modern_go.Base.Outcome.{ok, ◌>>=◌, Returns}
use modern_go.Base.{
  ℕ, ◌≤◌, ◌≡◌, refl, sym, ◌∙◌, ap, arith, List, ◌∷◌, ◌++◌, Option, none, some, Bool, true, false,
  if◌then◌else◌, Option-cases, inl, inr,
}
use modern_go.Skiplist.{
  Compare, Level, Node, SkipList, SortedSet, descend, precedes, node_at, level_at,
}
use modern_go.Skiplist.Update.{set, del, take_out, path_at}
use modern_go.Skiplist.Cells.{All-split, All-weaken, IsList}
use modern_go.Skiplist.Cells.Links.{Chain-from, Chain-next}
use modern_go.Skiplist.Cells.Backward.{lowest_entry}
use modern_go.Skiplist.Ordered.{IsOrder, before, place}
use modern_go.Skiplist.Ordered.Entries.{entry, entries, find_cell, split_around, delete-IsAscending}
use modern_go.Skiplist.Ordered.Keyed.{delete-absent, delete-entries}
use modern_go.Skiplist.Modelled.{Models, Backs-Found}
use modern_go.Skiplist.Update.Insertion.{descend-Entries, insert-Models}
use modern_go.Skiplist.Update.Deletion.{take_out-IsList}

-- Whether there is something.
abbrev pub is_some : {A : Type 0} → Option A → Bool
is_some none = false
is_some (some a) = true

pick {ℓ} :
    {A : Type ℓ} {P : Type 0} (d : Dec P) (x y : A)
    → P
    → elim d as (λ _. A) [ no _ ↦ x | yes _ ↦ y ] ≡ y
pick (yes p) x y h = refl
pick (no n) x y h = absurd (n h)

module _ {K S : Type 0} (c : Compare K S) (key : K) where
  del_runs :
      {score : S} (s : SortedSet K S) {path : List (ℕ × ℕ)} {u r : ℕ} {first : Level} {x : ℕ}
      {n : Node K S} {sl' : SkipList K S}
      → Dict.lookup c.key_eq key s.dict ≡ some score
      → descend (precedes c key score) s.skip_list s.skip_list.level 0 0 ≡ ok path
      → path_at path 0 ≡ ok (u, r)
      → level_at s.skip_list u 0 ≡ ok first
      → first.forward ≡ some x
      → node_at s.skip_list x ≡ ok n
      → key ≡ n.key
      → c.score_eq score n.score ≡ true
      → take_out c path x s.skip_list ≡ ok sl'
      → del c key s ≡ ok (true, record { dict = Dict.delete c.key_eq key s.dict; skip_list = sl' })
  unfolding del
  del_runs {score} s {path = path} {x = x} {n = n} e₁ e₂ e₃ e₄ e₅ e₆ e₇ e₈ e₉ = rw (
    del,
    e₁,
    ◌>>=◌,
    e₂,
    e₃,
    e₄,
    e₅,
    e₆,
    pick (c.key_eq key n.key) (ok s.skip_list)
        (if c.score_eq score n.score then take_out c path x s.skip_list else ok s.skip_list) e₇,
    e₈,
    e₉,
  )

  -- The key's node is found and taken out.
  del-present :
      (s : SortedSet K S) (es : Dict K S) (score : S)
      → IsOrder c
      → Dict.lookup c.key_eq key es ≡ some score
      → Models c s es
      → Returns (del c key s) (λ r. (r.0 ≡ true) × Models c r.1 (Dict.delete c.key_eq key es))
  del-present s es score o there m =
      let sl = s.skip_list in
      let (lo, d, hi, parts, same_key, same_score, absent) =
        find_cell c o key score m.cells (ap (Dict.lookup c.key_eq key) m.held ∙ there) in
      let l : IsList sl (lo ++ d ∷ hi) = rw parts at m.shape in
      let es_is : entries (lo ++ d ∷ hi) ≡ es = ap entries (sym parts) ∙ m.held in
      let (left, right, ahead) = split_around c o d lo hi (rw es_is m.ascending) in
      let holds : entry d ≡ (key, score) = cc in
      let (path, ran₁, ps) =
        descend-Entries c key score sl lo (d ∷ hi) l
          (All-weaken _ _ lo (λ x h. ap (before c (entry x)) (sym holds) ∙ h) left)
          (All-weaken _ _ (d ∷ hi) (λ x h. ap (before c (entry x)) (sym holds) ∙ h) right) in
      let heights = All-split _ lo (d ∷ hi) l.heights in
      let lowest =
        lowest_entry lo path (omega (arith, l.levels.0)) (All-weaken _ _ lo (λ e h. h.0) heights.0)
          ps in
      let at_first =
        Chain-next heights.1.0.0
          (Chain-from lo (d ∷ hi) (l.chains 0 (omega (arith, l.levels.0)))) in
      let (n, at, n_key, n_score) =
        (All-split _ lo (d ∷ hi) (Backs-Found sl none (lo ++ d ∷ hi) l.backs)).1.0 in
      let (sl', ran₂, (l', kept)) = take_out-IsList c d lo hi sl l path ps in
      (
        (true, record { dict = Dict.delete c.key_eq key s.dict; skip_list = sl' }),
        del_runs s (m.same_dict key ∙ there) ran₁ lowest at_first refl at (sym (n_key ∙ same_key))
            ((o.score_eq_iff score n.score).1 (sym (n_score ∙ same_score))) ran₂,
        (
          refl,
          record {
            same_dict = λ q.
                Dict.lookup-delete c.key_eq key q s.dict
                ∙ ap (ite (c.key_eq key q) none) (m.same_dict q)
                ∙ sym (Dict.lookup-delete c.key_eq key q es);
            is_map = Dict.delete-IsMap c.key_eq key es m.is_map;
            ascending = delete-IsAscending c o key es m.ascending;
            cells = lo ++ hi;
            held =
                sym (delete-entries c key d lo hi same_key absent (rw es_is m.is_map))
                ∙ ap (Dict.delete c.key_eq key) es_is;
            shape = l';
            header = kept ∙ m.header;
          },
        ),
      )

  -- With strict orders on keys and scores, on a set that stands for some entries Del returns, says
  -- whether the key had an entry, and leaves a set that stands for the entries without it.
  pub del-Models :
      (s : SortedSet K S) (es : Dict K S)
      → IsOrder c
      → Models c s es
      → Returns (del c key s) (λ r.
        (r.0 ≡ is_some (Dict.lookup c.key_eq key es)) × Models c r.1 (Dict.delete c.key_eq key es))
  unfolding del
  del-Models s es o m = elim (Option-cases (Dict.lookup c.key_eq key es)) [
    | inl absent ↦ (
      (false, s),
      rw (del, m.same_dict key ∙ absent),
      (rw absent, rw (delete-absent c key es absent) m),
    )
    | inr (score, there) ↦
        let (r, ran, (was, m')) = del-present s es score o there m in (r, ran, (rw there was, m'))
  ]

  -- Set puts the key's one entry where it belongs, whether there was one or not.
  pub set-Models :
      (score : S) (level : ℕ) (s : SortedSet K S) (es : Dict K S)
      → IsOrder c
      → 1 ≤ level
      → level ≤ 32
      → Models c s es
      → Returns
          (set c key score level s)
          (λ r. Models c r.1 (place c key score (Dict.delete c.key_eq key es)))
  unfolding set
  set-Models score level s es o positive top m =
      let ((was, s'), ran, (_, m')) = del-Models s es o m in
      let gone = Dict.lookup-delete c.key_eq key key es ∙ if_pos (c.key_eq key key) refl none _ in
      let (r, ran', m'') =
        insert-Models c key score level s' (Dict.delete c.key_eq key es) o positive top gone m' in
      (r, rw (set, ran, ◌>>=◌) ran', m'')
