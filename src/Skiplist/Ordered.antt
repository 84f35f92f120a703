-- ===== src/Skiplist/Ordered.antt =====
-- The order of the cells, by score and then by key.
pub mod Entries
pub mod Keyed
use modern_go.Base.{
  ◌≡◌, ◌↔◌, refl, arith, List, [], ◌∷◌, Bool, true, false, ◌&&◌, ◌||◌, if◌then◌else◌,
}
use modern_go.Skiplist.{Compare}
use modern_go.Skiplist.Cells.{All}

module _ {K S : Type 0} where
  -- What is used of `<` and `==` on strings and on numbers: each `<` is a strict total order, and
  -- `==` is equality. (Scores are not NaN, and 0 and -0 count as one score.)
  pub record IsOrder (c : Compare K S) : Type 0 where
    pub key_irrefl : (k : K) → c.key_lt k k ≡ false
    pub key_trans : (i j k : K) → c.key_lt i j ≡ true → c.key_lt j k ≡ true → c.key_lt i k ≡ true
    pub key_total : (i j : K) → c.key_lt i j ≡ false → c.key_lt j i ≡ false → i ≡ j
    pub score_irrefl : (s : S) → c.score_lt s s ≡ false
    pub score_trans :
        (s t u : S) → c.score_lt s t ≡ true → c.score_lt t u ≡ true → c.score_lt s u ≡ true
    pub score_total : (s t : S) → c.score_lt s t ≡ false → c.score_lt t s ≡ false → s ≡ t
    pub score_eq_iff : (s t : S) → (c.score_eq s t ≡ true) ↔ (s ≡ t)

  module _ (c : Compare K S) where
    -- The entry (i, s) comes before (j, t).
    abbrev pub before : K × S → K × S → Bool
    before (i, s) (j, t) = c.score_lt s t || (c.score_eq s t && c.key_lt i j)

    abbrev pub IsAscending : List (K × S) → Type 0
    IsAscending [] = Unit
    IsAscending (e ∷ es) = All (λ d. before e d ≡ true) es × IsAscending es

    -- An entry put where it belongs.
    unfoldable pub place : K → S → List (K × S) → List (K × S)
    place key score [] = (key, score) ∷ []
    place key score (e ∷ es) =
        let rest = place key score es in
        if before e (key, score) then e ∷ rest else (key, score) ∷ e ∷ es

    module _ (o : IsOrder c) where
      pub before_irrefl : (e : K × S) → before e e ≡ false
      before_irrefl (i, s) = rw (o.score_irrefl s, (o.score_eq_iff s s).1 refl) (o.key_irrefl i)

      pub before_trans : (d e f : K × S) → before d e ≡ true → before e f ≡ true → before d f ≡ true
      before_trans (i, s) (j, t) (k, u) p q = ground (
        arith,
        o.key_trans i j k,
        o.score_trans s t u,
        o.score_eq_iff s t,
        o.score_eq_iff t u,
        o.score_eq_iff s u,
      )

      pub before_total : (d e : K × S) → before d e ≡ false → before e d ≡ false → d ≡ e
      before_total (i, s) (j, t) p q =
          ground (arith, o.key_total i j, o.score_total s t, o.score_eq_iff s t, o.score_eq_iff t s)
