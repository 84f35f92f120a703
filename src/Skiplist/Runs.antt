-- ===== src/Skiplist/Runs.antt =====
-- Runs of Set and Del of container/skiplist/skiplist.go from the empty set, and what the readers
-- say at the end of one.
use mathlib.Core.Logic.{if_pos, if_neg}
use modern_go.Base.Dict
use modern_go.Base.Dict.{Dict}
use modern_go.Base.Int.{pos}
use modern_go.Base.Outcome.{Outcome, ok, ◌>>=◌, Returns}
use modern_go.Base.{
  ℕ, suc, ◌≤◌, ◌≡◌, ◌≢◌, refl, sym, ◌∙◌, ap, arith, List, [], ◌∷◌, none, some, length, length-map,
  get_or, Option-cases, ◌⊎◌, inl, inr,
}
use modern_go.Skiplist.{Compare, SortedSet, new_set, random_level}
use modern_go.Skiplist.Update.{set, del}
use modern_go.Skiplist.Query.{get_score, has_key, get_lenth, get_rank, get_element_by_rank_asc}
use modern_go.Skiplist.Ordered.{IsOrder, place}
use modern_go.Skiplist.Ordered.Entries.{entry}
use modern_go.Skiplist.Modelled.{Models, new_set-Models}
use modern_go.Skiplist.Update.Refined.{is_some, set-Models, del-Models}
use modern_go.Skiplist.Query.Positions.{position, get_rank-position}
use modern_go.Skiplist.Query.ByRank.{ranked, get_element_by_rank_asc-ranked}

-- The level drawn is at least 1 and at most 32.
pub random_level_bounds : (draws : List ℕ) → (1 ≤ random_level draws) × (random_level draws ≤ 32)
unfolding random_level
random_level_bounds [] = omega arith
random_level_bounds (d ∷ draws) = ground (arith, random_level_bounds draws)

-- A call of Set, with the draws of its node's level, or of Del.
pub data Call (K S : Type 0) : Type 0 where
  set_call : K → S → List ℕ → Call K S
  del_call : K → Call K S

module _ {K S : Type 0} (c : Compare K S) where
  -- What a call does to the set.
  unfoldable pub run : Call K S → SortedSet K S → Outcome (SortedSet K S)
  run (set_call key score draws) s = do (_, s') ← set c key score (random_level draws) s; ok s'
  run (del_call key) s = do (_, s') ← del c key s; ok s'

  unfoldable pub run_all : List (Call K S) → SortedSet K S → Outcome (SortedSet K S)
  run_all [] s = ok s
  run_all (call ∷ calls) s = do s' ← run call s; run_all calls s'

  -- What it does to the entries.
  unfoldable pub apply : Call K S → Dict K S → Dict K S
  apply (set_call key score draws) es = place c key score (Dict.delete c.key_eq key es)
  apply (del_call key) es = Dict.delete c.key_eq key es

  unfoldable pub apply_all : List (Call K S) → Dict K S → Dict K S
  apply_all [] es = es
  apply_all (call ∷ calls) es = apply_all calls (apply call es)

  run-Models :
      (o : IsOrder c) (call : Call K S) (s : SortedSet K S) (es : Dict K S)
      → Models c s es
      → Returns (run call s) (λ s'. Models c s' (apply call es))
  unfolding run apply
  run-Models o (set_call key score draws) s es m =
      let (low, high) = random_level_bounds draws in
      let ((x, s'), ran, m') = set-Models c key score (random_level draws) s es o low high m in
      (s', rw (run, ran, ◌>>=◌) refl, m')
  run-Models o (del_call key) s es m =
      let ((was, s'), ran, (_, m')) = del-Models c key s es o m in
      (s', rw (run, ran, ◌>>=◌) refl, m')

  run_all_from :
      (o : IsOrder c) (calls : List (Call K S)) (s : SortedSet K S) (es : Dict K S)
      → Models c s es
      → Returns (run_all calls s) (λ s'. Models c s' (apply_all calls es))
  unfolding run_all apply_all
  run_all_from o [] s es m = (s, refl, m)
  run_all_from o (call ∷ calls) s es m =
      let (s', ran, m') = run-Models o call s es m in
      let (s'', rest, m'') = run_all_from o calls s' (apply call es) m' in
      (s'', rw (run_all, ran, ◌>>=◌) rest, m'')

  -- With strict orders on keys and scores, any calls of Set and Del on a new set return, whatever
  -- the draws, and leave a set that stands for the entries that the same calls leave in a sorted
  -- list.
  pub run_all-Models :
      (o : IsOrder c) (calls : List (Call K S))
      → Returns (run_all calls (new_set c)) (λ s. Models c s (apply_all calls []))
  run_all-Models o calls = run_all_from o calls (new_set c) [] (new_set-Models c)

  -- GetScore and HasKey answer from the entries, and GetLenth counts them.
  readers_agree :
      (s : SortedSet K S) (es : Dict K S)
      → Models c s es
      → ((key : K) → get_score c key s ≡ Dict.lookup c.key_eq key es)
        × ((key : K) → has_key c key s ≡ is_some (Dict.lookup c.key_eq key es))
        × (get_lenth s ≡ length es)
  unfolding get_score has_key get_lenth
  readers_agree s es m = (
    m.same_dict,
    λ key. known key (Option-cases (Dict.lookup c.key_eq key es)),
    m.shape.sized ∙ sym (length-map m.cells entry) ∙ ap length m.held,
  )
    where
      known :
          (key : K)
          → (Dict.lookup c.key_eq key es ≡ none)
            ⊎ ((v : S) × (Dict.lookup c.key_eq key es ≡ some v))
          → has_key c key s ≡ is_some (Dict.lookup c.key_eq key es)
      known key (inl e) = rw (has_key, m.same_dict key ∙ e, e) refl
      known key (inr (v, e)) = rw (has_key, m.same_dict key ∙ e, e) refl

  position-get_or :
      (key : K) (score : S) (es : Dict K S) (e : K × S)
      → Dict.lookup c.key_eq key es ≡ some score
      → (p : ℕ) × (position c key es ≡ suc p) × (get_or es p e ≡ (key, score))
  unfolding position Dict.lookup
  position-get_or key score [] e h = absurd (ground arith)
  position-get_or key score ((k, v) ∷ es) e h = elim (c.key_eq k key) [
    | yes same ↦
        let found = if_pos (c.key_eq k key) same (some v) (Dict.lookup c.key_eq key es) in
        (0, if_pos (c.key_eq k key) same 1 _, ground arith)
    | no other ↦
        let later = if_neg (c.key_eq k key) other (some v) (Dict.lookup c.key_eq key es) in
        let (p, at, got) = position-get_or key score es e (sym later ∙ h) in
        (suc p, if_neg (c.key_eq k key) other 1 _ ∙ ap suc at, got)
  ]

  -- The element at the rank that GetRank gives for a key is the key, with its score.
  pub rank_roundtrip :
      (o : IsOrder c) (key : K) (score : S) (s : SortedSet K S) (es : Dict K S)
      → key ≢ c.no_key
      → Models c s es
      → get_score c key s ≡ some score
      → (rank : ℕ) × (get_rank c key s ≡ ok (some rank))
        × (get_element_by_rank_asc c (pos rank) s ≡ ok (key, score))
  unfolding get_score ranked
  rank_roundtrip o key score s es ne m there =
      let at = sym (m.same_dict key) ∙ there in
      let (p, place_is, got) = position-get_or key score es (c.no_key, c.no_score) at in
      (
        suc p,
        get_rank-position c o key s es ne m ∙ rw (at, place_is) refl,
        get_element_by_rank_asc-ranked c (suc p) s es m ∙ ap ok got,
      )
