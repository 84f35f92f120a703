-- ===== src/Cmap/Shards.antt =====
-- Where the entries of a sharded map stand, and what the map means: a function from keys to values.
use mathlib.Core.Logic.{ite}
use modern_go.Base.Dict
use modern_go.Base.Dict.{Dict}
use modern_go.Base.Outcome.{ok}
use modern_go.Base.{
  ℕ, zero, suc, ◌%◌, ◌<◌, ◌≡◌, ◌≢◌, refl, sym, ◌∙◌, arith, List, [], ◌∷◌, Option, none, length,
  get_or, get_or-set, get_or-replicate, replicate, set as set_at, length-set, length-replicate,
  ℕ_discrete,
}
use modern_go.Cmap.{Key, shard_count, ConcurrentMap, at, new, get_shard}

module _ {ℓ} {A : Type ℓ} where
  pub at-get_or : (i : ℕ) (d : A) (xs : List A) → i < length xs → ok (get_or xs i d) ≡ at xs i
  unfolding at
  at-get_or (suc i) d (x ∷ xs) inside = at-get_or i d xs (omega arith)
  at-get_or zero d (x ∷ xs) inside = refl
  at-get_or i d [] inside = absurd (omega arith)

module _ {ℓ} {K : Type ℓ} ⦃key : Key K⦄ where
  -- The index of a key's shard.
  abbrev pub home : K → ℕ
  home k = key.hash k % shard_count

module _ {ℓ} {K V : Type ℓ} ⦃key : Key K⦄ where
  abbrev pub shard_at : ConcurrentMap K V → ℕ → Dict K V
  shard_at m i = get_or m i []

  pub record IsValid (m : ConcurrentMap K V) : Type ℓ where
    pub width : length m ≡ shard_count
    pub maps : (i : ℕ) → Dict.IsMap key.equal (shard_at m i)
    pub placed : (i : ℕ) (k : K) → home k ≢ i → Dict.lookup key.equal k (shard_at m i) ≡ none

  -- The abstract map: a key's value is the one in its own shard.
  unfoldable pub view : ConcurrentMap K V → K → Option V
  view m k = Dict.lookup key.equal k (shard_at m (home k))

  -- `m` is well formed and stands for `f`.
  pub record Models (f : K → Option V) (m : ConcurrentMap K V) : Type ℓ where
    pub valid : IsValid m
    pub reads : (k : K) → view m k ≡ f k

  abbrev pub update : (K → Option V) → K → Option V → K → Option V
  update f k v q = ite (key.equal k q) v (f q)

  pub get_shard-home :
      (m : ConcurrentMap K V) (k : K)
      → length m ≡ shard_count
      → get_shard m k ≡ ok (home k, shard_at m (home k))
  unfolding get_shard
  get_shard-home m k h = rw (sym (at-get_or (home k) [] m (omega arith)))

  -- Every method on one key replaces the shard of its key by some `s`.
  pub set_at-Models :
      (m : ConcurrentMap K V) (k : K) (v : Option V) (s : Dict K V)
      → IsValid m
      → Dict.IsMap key.equal s
      → ((q : K)
          → Dict.lookup key.equal q s
            ≡ ite (key.equal k q) v (Dict.lookup key.equal q (shard_at m (home k))))
      → Models (update (view m) k v) (set_at m (home k) s)
  unfolding view
  set_at-Models m k v s valid s_map s_reads = record {
    valid = record {
      width = length-set m (home k) s ∙ valid.width;
      maps = λ i. rw there (ground (arith, valid.maps i));
      placed = λ i q away. rw there (ground (arith, valid.placed i q away, s_reads q));
    };
    reads = λ q. rw there (ground (arith, s_reads q));
  }
    where
      there :
          (j : ℕ) → shard_at (set_at m (home k) s) j ≡ ite (ℕ_discrete (home k) j) s (shard_at m j)
      there j = get_or-set s [] m (home k) j (omega (arith, valid.width))

  -- A new map is well formed and holds no key.
  pub new-Models : Models (λ _. none) new
  unfolding new view Dict.lookup
  new-Models = record {
    valid = record {
      width = length-replicate {A = Dict K V} shard_count [];
      maps = λ i. rw (empty i) tt;
      placed = λ i k away. rw (empty i);
    };
    reads = λ k. rw (empty (home k));
  }
    where
      empty : (i : ℕ) → shard_at (replicate shard_count []) i ≡ []
      empty i = get_or-replicate [] i shard_count
