-- ===== src/Cmap.antt =====
-- container/templates/cmap/cmap_template.go, the sharded map from which every file gen_*.go of
-- container/cmap is generated, and container/cmap/hashkey.go. A shard is its map. Every method
-- holds a shard's lock while it uses the shard, and the methods here run one after another, so the
-- locks leave no trace. A method that changes the map returns the new one.
pub mod KeyHash
pub mod Shards
pub mod Single
pub mod Whole
pub mod Bulk
pub mod Interleaved
mod Examples
use mathlib.Core.List.{Permᴰ}
use modern_go.Base.Dict
use modern_go.Base.Dict.{Dict}
use modern_go.Base.Outcome.{Outcome, ok, panic, index_out_of_range, ◌>>=◌}
use modern_go.Base.{
  ℕ, zero, suc, ◌+◌, ◌%◌, List, [], ◌∷◌, ◌++◌, map, Option, none, some, Bool, true, false, ◌==◌,
  length, get_elem?, replicate, set as set_at,
}

-- The template parameters KType and KeyHash: keys have Go's `==`, and a hash.
pub record Key {ℓ} (K : Type ℓ) : Type ℓ where
  pub equal : Discrete K
  pub hash : K → ℕ

-- How the loops over a map's entries run: the i-th loop of a method visits every entry of its map
-- once, in some order.
pub record RangeOrder {ℓ} (K V : Type ℓ) : Type ℓ where
  pub visit : ℕ → Dict K V → Dict K V
  pub visits_all : (i : ℕ) (m : Dict K V) → Permᴰ m (visit i m)

abbrev pub shard_count : ℕ
shard_count = 32

abbrev pub ConcurrentMap {ℓ} : Type ℓ → Type ℓ → Type ℓ
ConcurrentMap K V = List (Dict K V)

-- `m[i]`
pub at {ℓ} : {A : Type ℓ} → List A → ℕ → Outcome A
at xs i = elim (get_elem? xs i) [ none ↦ panic index_out_of_range | some x ↦ ok x ]

pub has_value {ℓ} : {A : Type ℓ} → Option A → Bool
has_value none = false
has_value (some v) = true

module _ {ℓ} {K V : Type ℓ} ⦃key : Key K⦄ where
  pub new : ConcurrentMap K V
  new = replicate shard_count []

  -- The shard is its place in the list and its map.
  pub get_shard : ConcurrentMap K V → K → Outcome (ℕ × Dict K V)
  get_shard m k = do let i = key.hash k % shard_count; shard ← at m i; ok (i, shard)

  pub set : ConcurrentMap K V → K → V → Outcome (ConcurrentMap K V)
  set m k v = do (i, shard) ← get_shard m k; ok (set_at m i (Dict.insert key.equal k v shard))

  pub get : ConcurrentMap K V → K → Outcome (Option V)
  get m k = do (_, shard) ← get_shard m k; ok (Dict.lookup key.equal k shard)

  pub has : ConcurrentMap K V → K → Outcome Bool
  has m k = do (_, shard) ← get_shard m k; ok (has_value (Dict.lookup key.equal k shard))

  pub remove : ConcurrentMap K V → K → Outcome (ConcurrentMap K V)
  remove m k = do (i, shard) ← get_shard m k; ok (set_at m i (Dict.delete key.equal k shard))

  pub get_and_remove : ConcurrentMap K V → K → Outcome (Option V × ConcurrentMap K V)
  get_and_remove m k = do
    (i, shard) ← get_shard m k
    ok (Dict.lookup key.equal k shard, set_at m i (Dict.delete key.equal k shard))

  -- The answer is the constant that the source returns.
  pub set_nx : ConcurrentMap K V → K → V → Outcome (Bool × ConcurrentMap K V)
  set_nx m k v = do
    (i, shard) ← get_shard m k
    elim (Dict.lookup key.equal k shard) [
      | none ↦ ok (true, set_at m i (Dict.insert key.equal k v shard))
      | some _ ↦ ok (true, m)
    ]

  -- The loop of `Count` over the `n` indices from `i` on.
  pub count_loop : ℕ → ℕ → ConcurrentMap K V → ℕ → Outcome ℕ
  count_loop zero i m count' = ok count'
  count_loop (suc n) i m count' = at m i >>= λ shard. count_loop n (i + 1) m (count' + length shard)

  pub count : ConcurrentMap K V → Outcome ℕ
  unfolding count_loop
  count m = count_loop shard_count 0 m 0

  pub is_empty : ConcurrentMap K V → Outcome Bool
  is_empty m = do n ← count m; ok (n == 0)

  pub clear : ConcurrentMap K V → ConcurrentMap K V
  clear m = map (λ _. []) m

  pub m_get_loop : ConcurrentMap K V → List K → Dict K V → Outcome (Dict K V)
  m_get_loop m [] data' = ok data'
  m_get_loop m (k ∷ ks) data' = do
    found ← get m k
    elim found [
      | none ↦ m_get_loop m ks data'
      | some v ↦ m_get_loop m ks (Dict.insert key.equal k v data')
    ]

  pub m_get : ConcurrentMap K V → List K → Outcome (Dict K V)
  m_get m ks = m_get_loop m ks []

  pub m_set_loop : ConcurrentMap K V → Dict K V → Outcome (ConcurrentMap K V)
  m_set_loop m [] = ok m
  m_set_loop m ((k, v) ∷ es) = set m k v >>= λ m'. m_set_loop m' es

  module _ (order : RangeOrder K V) where
    pub m_set : ConcurrentMap K V → Dict K V → Outcome (ConcurrentMap K V)
    m_set m data' = m_set_loop m (order.visit 0 data')

    -- The entries in the order in which the two nested loops come to them, from the i-th shard on.
    pub entries_from : ℕ → ConcurrentMap K V → Dict K V
    entries_from i [] = []
    entries_from i (shard ∷ m) = order.visit i shard ++ entries_from (i + 1) m

    pub keys : ConcurrentMap K V → List K
    keys m = map (λ e. e.0) (entries_from 0 m)

    pub get_all : ConcurrentMap K V → Dict K V
    get_all m = Dict.insert_all key.equal (entries_from 0 m) []

    -- What a receiver reads from the channel before it is closed.
    pub iter : ConcurrentMap K V → List (K × V)
    iter m = entries_from 0 m

    -- The capacity of the channel, and what is sent on it.
    pub iter_buffered : ConcurrentMap K V → Outcome (ℕ × List (K × V))
    iter_buffered m = do capacity ← count m; ok (capacity, entries_from 0 m)
