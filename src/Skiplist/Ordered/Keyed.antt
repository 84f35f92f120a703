-- ===== src/Skiplist/Ordered/Keyed.antt =====
-- The entries as a map: what placing and deleting leave under each key.
use mathlib.Core.Logic.{ite}
use modern_go.Base.Dict
use modern_go.Base.Dict.{Dict, IsMap}
use modern_go.Base.{◌≡◌, refl, arith, List, [], ◌∷◌, ◌++◌, none, some, Bool-cases, inl, inr}
use modern_go.Skiplist.{Compare}
use modern_go.Skiplist.Cells.{Cell}
use modern_go.Skiplist.Ordered.{before, place}
use modern_go.Skiplist.Ordered.Entries.{entries}

module _ {K S : Type 0} (c : Compare K S) where
  pub delete-absent :
      (key : K) (es : Dict K S)
      → Dict.lookup c.key_eq key es ≡ none
      → Dict.delete c.key_eq key es ≡ es
  unfolding Dict.lookup Dict.delete
  delete-absent key [] h = refl
  delete-absent key (e ∷ es) h = ground (arith, delete-absent key es)

  -- Deleting a key takes out its one cell.
  pub delete-entries :
      (key : K) (d : Cell K S) (lo hi : List (Cell K S))
      → d.key ≡ key
      → Dict.lookup c.key_eq key (entries lo) ≡ none
      → IsMap c.key_eq (entries (lo ++ d ∷ hi))
      → Dict.delete c.key_eq key (entries (lo ++ d ∷ hi)) ≡ entries (lo ++ hi)
  unfolding Dict.lookup Dict.delete
  delete-entries key d [] hi same absent h = ground (arith, delete-absent key (entries hi))
  delete-entries key d (x ∷ lo) hi same absent h = ground (arith, delete-entries key d lo hi same)

  pub lookup-place :
      (key q : K) (score : S) (es : Dict K S)
      → Dict.lookup c.key_eq key es ≡ none
      → Dict.lookup c.key_eq q (place c key score es)
        ≡ ite (c.key_eq key q) (some score) (Dict.lookup c.key_eq q es)
  unfolding Dict.lookup place
  lookup-place key q score [] absent = refl
  lookup-place key q score (e ∷ es) absent = elim (Bool-cases (before c e (key, score))) [
    | inl first ↦ rw (place, first) (ground (arith, lookup-place key q score es))
    | inr past ↦ rw (place, past) refl
  ]

  pub place-IsMap :
      (key : K) (score : S) (es : Dict K S)
      → Dict.lookup c.key_eq key es ≡ none
      → IsMap c.key_eq es
      → IsMap c.key_eq (place c key score es)
  unfolding Dict.lookup place
  place-IsMap key score [] absent h = (refl, tt)
  place-IsMap key score (e ∷ es) absent h = elim (Bool-cases (before c e (key, score))) [
    | inl first ↦
        rw (place, first) (ground (arith, lookup-place key e.0 score es, place-IsMap key score es))
    | inr past ↦ rw (place, past) (absent, h)
  ]
