-- ===== src/Cmap/Whole.antt =====
-- The methods of the sharded map that loop over its shards, against a function from keys to values.
use mathlib.Core.Option.{or_else}
use modern_go.Base.Dict
use modern_go.Base.Dict.{Dict}
use modern_go.Base.Outcome.{ok, ◌>>=◌}
use modern_go.Base.{
  ℕ, zero, suc, ◌+◌, ◌<◌, ◌≡◌, ◌≢◌, refl, sym, ◌∙◌, ap, arith, [], ◌∷◌, none, some, length,
  length-append, length-map, Permᴰ-length, get_elem?, dec_lt,
}
use modern_go.Cmap.{
  Key, at, RangeOrder, ConcurrentMap, shard_count, count_loop, count, entries_from, keys, get_all,
  iter,
}
use modern_go.Cmap.Shards.{home, shard_at, IsValid, view}

module _ {ℓ} {K V : Type ℓ} ⦃key : Key K⦄ (order : RangeOrder K V) where
  pub visited :
      (i : ℕ) (s : Dict K V)
      → Dict.IsMap key.equal s
      → ((q : K) → Dict.lookup key.equal q (order.visit i s) ≡ Dict.lookup key.equal q s)
        × Dict.IsMap key.equal (order.visit i s)
  visited i s h =
      let (same, is_map) = Dict.IsMap-perm key.equal (order.visits_all i s) h in
      (λ q. sym (same q), is_map)

  -- The shards from the `i`-th on, and what stands in them.
  record ShardsFrom (i : ℕ) (m : ConcurrentMap K V) : Type ℓ where
    maps : (j : ℕ) → Dict.IsMap key.equal (shard_at m j)
    placed : (j : ℕ) (k : K) → home k ≢ i + j → Dict.lookup key.equal k (shard_at m j) ≡ none

  later_shards :
      (i : ℕ) (s : Dict K V) (m : ConcurrentMap K V) → ShardsFrom i (s ∷ m) → ShardsFrom (i + 1) m
  later_shards i s m t = record {
    maps = λ j. t.maps (suc j);
    placed = λ j k away. t.placed (suc j) k (omega arith);
  }

  entries_before :
      (i : ℕ) (m : ConcurrentMap K V) (q : K)
      → ShardsFrom i m
      → home q < i
      → Dict.lookup key.equal q (entries_from order i m) ≡ none
  unfolding entries_from Dict.lookup or_else
  entries_before i [] q t h = refl
  entries_before i (s ∷ m) q t h =
      rw (Dict.lookup-append, (visited i s (t.maps 0)).0 q, t.placed 0 q (omega arith))
        (entries_before (i + 1) m q (later_shards i s m t) (omega arith))

  lookup-entries_from :
      (i d : ℕ) (m : ConcurrentMap K V) (q : K)
      → ShardsFrom i m
      → home q ≡ i + d
      → Dict.lookup key.equal q (entries_from order i m) ≡ Dict.lookup key.equal q (shard_at m d)
  unfolding entries_from Dict.lookup or_else
  lookup-entries_from i d [] q t h = refl
  lookup-entries_from i zero (s ∷ m) q t h =
      rw
        (
          Dict.lookup-append,
          (visited i s (t.maps 0)).0 q,
          entries_before (i + 1) m q (later_shards i s m t) (omega arith),
        )
        (elim (Dict.lookup key.equal q s) as (λ o. or_else o none ≡ o) [
          | none ↦ refl
          | some v ↦ refl
        ])
  lookup-entries_from i (suc d) (s ∷ m) q t h =
      rw (Dict.lookup-append, (visited i s (t.maps 0)).0 q, t.placed 0 q (omega arith))
        (lookup-entries_from (i + 1) d m q (later_shards i s m t) (omega arith))

  entries_from-IsMap :
      (i : ℕ) (m : ConcurrentMap K V)
      → ShardsFrom i m
      → Dict.IsMap key.equal (entries_from order i m)
  unfolding entries_from
  entries_from-IsMap i [] t = tt
  entries_from-IsMap i (s ∷ m) t =
      Dict.append-IsMap key.equal _ _ (visited i s (t.maps 0)).1
        (entries_from-IsMap (i + 1) m (later_shards i s m t))
        λ q v e. elim (dec_lt (home q) (i + 1)) [
          | yes before ↦ entries_before (i + 1) m q (later_shards i s m t) before
          | no after ↦ cc ((visited i s (t.maps 0)).0 q, t.placed 0 q (omega arith))
        ]

  all_shards : (m : ConcurrentMap K V) → IsValid m → ShardsFrom 0 m
  all_shards m v = record { maps = v.maps; placed = λ j k away. v.placed j k (omega arith) }

  -- The channel of `Iter` carries every entry of the map once, and nothing else.
  pub iter-view :
      (m : ConcurrentMap K V)
      → IsValid m
      → Dict.IsMap key.equal (iter order m)
        × ((q : K) → Dict.lookup key.equal q (iter order m) ≡ view m q)
  unfolding iter view
  iter-view m v = (
    entries_from-IsMap 0 m (all_shards m v),
    λ q. lookup-entries_from 0 (home q) m q (all_shards m v) (omega arith),
  )

  -- The map that `GetAll` returns is the abstract map.
  pub get_all-view :
      (m : ConcurrentMap K V)
      → IsValid m
      → Dict.IsMap key.equal (get_all order m)
        × ((q : K) → Dict.lookup key.equal q (get_all order m) ≡ view m q)
  unfolding get_all iter or_else Dict.lookup
  get_all-view m v =
      let (is_map, reads) = iter-view m v in
      (
        Dict.insert_all-IsMap key.equal _ [] tt,
        λ q.
            Dict.lookup-insert_all key.equal _ [] q is_map
            ∙ rw (reads q)
                (elim (view m q) as (λ o. or_else o none ≡ o) [ none ↦ refl | some v ↦ refl ]),
      )

  -- `Keys` lists every key that has a value once, and no other key.
  pub keys-view :
      (m : ConcurrentMap K V) (q : K)
      → IsValid m
      → Dict.occurs key.equal q (keys order m) ≡ Dict.present (view m q)
  unfolding keys iter
  keys-view m q v =
      let (is_map, reads) = iter-view m v in Dict.occurs-keys key.equal q _ is_map ∙ rw (reads q)

  length-visit : (i : ℕ) (s : Dict K V) → length (order.visit i s) ≡ length s
  length-visit i s = Permᴰ-length _ _ (order.visits_all i s)

  count_loop-entries_from :
      (n i c : ℕ) (m tail : ConcurrentMap K V)
      → n ≡ length tail
      → ((j : ℕ) → get_elem? m (i + j) ≡ get_elem? tail j)
      → count_loop n i m c ≡ ok (c + length (entries_from order i tail))
  unfolding count_loop at entries_from
  count_loop-entries_from zero i c m [] e same = ap ok (omega arith)
  count_loop-entries_from zero i c m (s ∷ tail) e same = absurd (omega arith)
  count_loop-entries_from (suc n) i c m [] e same = absurd (omega arith)
  count_loop-entries_from (suc n) i c m (s ∷ tail) e same =
      rw (first, ◌>>=◌)
        (count_loop-entries_from n (i + 1) (c + length s) m tail (omega arith) later
          ∙ ap ok (
              omega (
                arith,
                length-append (order.visit i s) (entries_from order (i + 1) tail),
                length-visit i s,
              )))
    where
      first : get_elem? m i ≡ some s
      first = ap (get_elem? m) (omega arith) ∙ same 0

      later : (j : ℕ) → get_elem? m (i + 1 + j) ≡ get_elem? tail j
      later j = ap (get_elem? m) (omega arith) ∙ same (suc j)

  -- `Count` is the number of keys that `Keys` lists, and of entries that `Iter` sends.
  pub count-keys : (m : ConcurrentMap K V) → IsValid m → count m ≡ ok (length (keys order m))
  unfolding count keys
  count-keys m v = rw length-map (
      count_loop-entries_from shard_count 0 0 m m (sym v.width)
        (λ j. ap (get_elem? m) (omega arith))
      ∙ ap ok (omega arith))
