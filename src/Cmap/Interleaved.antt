-- ===== src/Cmap/Interleaved.antt =====
-- GetAll, Keys and Count of container/templates/cmap/cmap_template.go beside other goroutines. The
-- loop locks one shard at a time, so that calls of other goroutines run between two shards.
pub mod Seen
pub mod Counted
mod Examples
use modern_go.Base.Dict
use modern_go.Base.Dict.{Dict}
use modern_go.Base.Outcome.{Outcome, ok, ◌>>=◌}
use modern_go.Base.{ℕ, ◌+◌, ◌≡◌, refl, List, [], ◌∷◌, ◌++◌, map, length}
use modern_go.Cmap.{Key, at, RangeOrder, ConcurrentMap}
use modern_go.Cmap.Single.{Call, run_all, spec_all}

pub flat {ℓ} : {A : Type ℓ} → List (List A) → List A
flat [] = []
flat (xs ∷ xss) = xs ++ flat xss

module _ {ℓ} {K V : Type ℓ} ⦃key : Key K⦄ (order : RangeOrder K V) where
  -- The entries that the loop comes to from the i-th shard on, and the map after it; each list has
  -- the calls of others that take their locks before the loop takes the lock of its next shard.
  pub entries_among :
      ℕ → ConcurrentMap K V → List (List (Call K V)) → Outcome (Dict K V × ConcurrentMap K V)
  entries_among i m [] = ok ([], m)
  entries_among i m (cs ∷ css) = do
    (_, m') ← run_all m cs
    shard ← at m' i
    (es, last) ← entries_among (i + 1) m' css
    ok (order.visit i shard ++ es, last)

  pub keys_among : ConcurrentMap K V → List (List (Call K V)) → Outcome (List K × ConcurrentMap K V)
  keys_among m css = do (es, last) ← entries_among 0 m css; ok (map (λ e. e.0) es, last)

  pub get_all_among :
      ConcurrentMap K V → List (List (Call K V)) → Outcome (Dict K V × ConcurrentMap K V)
  get_all_among m css = do
    (es, last) ← entries_among 0 m css
    ok (Dict.insert_all key.equal es [], last)

-- `Count` from the i-th shard on, and the map after it.
module _ {ℓ} {K V : Type ℓ} ⦃key : Key K⦄ where
  pub count_among :
      ℕ → ConcurrentMap K V → ℕ → List (List (Call K V)) → Outcome (ℕ × ConcurrentMap K V)
  count_among i m count' [] = ok (count', m)
  count_among i m count' (cs ∷ css) = do
    (_, m') ← run_all m cs
    shard ← at m' i
    count_among (i + 1) m' (count' + length shard) css
