-- ===== src/Cmap/Interleaved/Counted.antt =====
-- Count of the sharded map beside calls that add keys.
use modern_go.Base.Dict
use modern_go.Base.Dict.{Dict}
use modern_go.Base.Outcome.{ok, ◌>>=◌, Returns}
use modern_go.Base.{
  ℕ, zero, suc, ◌+◌, ◌≤◌, ◌≡◌, refl, sym, ◌∙◌, ap, arith, List, [], ◌∷◌, ◌++◌, length, Bool, true,
  false, get_or-set, Option-cases, inl, inr, set as set_at,
}
use modern_go.Cmap.{Key, at, ConcurrentMap, shard_count, count_loop, count, set, set_nx, get, has}
use modern_go.Cmap.Shards.{home, shard_at, IsValid, at-get_or, get_shard-home}
use modern_go.Cmap.Single.{
  Call, set_call, set_nx_call, get_call, has_call, remove_call, get_and_remove_call, Reply, done,
  flag, run, run_all, run-Refines,
}
use modern_go.Cmap.Interleaved.{flat, count_among}

module _ {ℓ} {K V : Type ℓ} where
  abbrev adds : Call K V → Bool
  adds (remove_call k) = false
  adds (get_and_remove_call k) = false
  adds c = true

  abbrev pub OnlyAdds : List (Call K V) → Type ℓ
  OnlyAdds [] = Unit
  OnlyAdds (c ∷ cs) = (adds c ≡ true) × OnlyAdds cs

  OnlyAdds-append : (cs ds : List (Call K V)) → OnlyAdds (cs ++ ds) → OnlyAdds cs × OnlyAdds ds
  OnlyAdds-append [] ds h = (tt, h)
  OnlyAdds-append (c ∷ cs) ds (a, h) = let (hc, hd) = OnlyAdds-append cs ds h in ((a, hc), hd)

module _ {ℓ} {K V : Type ℓ} ⦃key : Key K⦄ where
  -- No shard has fewer entries.
  Grows : ConcurrentMap K V → ConcurrentMap K V → Type 0
  Grows m m' = (i : ℕ) → length (shard_at m i) ≤ length (shard_at m' i)

  -- The entries in `n` shards from the i-th on.
  total : ℕ → ℕ → ConcurrentMap K V → ℕ
  total zero i m = 0
  total (suc n) i m = length (shard_at m i) + total n (i + 1) m

  total-Grows : (n i : ℕ) (m m' : ConcurrentMap K V) → Grows m m' → total n i m ≤ total n i m'
  unfolding total Grows
  total-Grows zero i m m' h = omega arith
  total-Grows (suc n) i m m' h = omega (arith, h i, total-Grows n (i + 1) m m' h)

  count_loop-total :
      (n i c : ℕ) (m : ConcurrentMap K V)
      → i + n ≤ length m
      → count_loop n i m c ≡ ok (c + total n i m)
  unfolding count_loop total
  count_loop-total zero i c m h = ap ok (omega arith)
  count_loop-total (suc n) i c m h =
      let shard : at m i ≡ ok (shard_at m i) = sym (at-get_or i [] m (omega arith)) in
      rw (count_loop, shard, ◌>>=◌)
        (count_loop-total n (i + 1) (c + length (shard_at m i)) m (omega arith)
          ∙ ap ok (omega arith))

  count-total : (m : ConcurrentMap K V) → IsValid m → count m ≡ ok (total 32 0 m)
  unfolding count
  count-total m valid = count_loop-total 32 0 0 m (omega (arith, valid.width)) ∙ ap ok (omega arith)

  longer : (k : K) (v : V) (s : Dict K V) → length s ≤ length (Dict.insert key.equal k v s)
  longer k v s = ground (arith, Dict.length-insert key.equal k v s)

  insert-Grows :
      (m : ConcurrentMap K V) (k : K) (v : V)
      → IsValid m
      → Grows m (set_at m (home k) (Dict.insert key.equal k v (shard_at m (home k))))
  unfolding Grows
  insert-Grows m k v valid i =
      rw
        (get_or-set (Dict.insert key.equal k v (shard_at m (home k))) [] m (home k) i
          (omega (arith, valid.width)))
        (ground (arith, longer k v (shard_at m (home k))))

  ends-Grows :
      (m m' : ConcurrentMap K V) (reply : Reply V) (r : Reply V × ConcurrentMap K V)
      → Grows m m'
      → ok (reply, m') ≡ ok r
      → Grows m r.1
  ends-Grows m m' reply r g e = let same : (reply, m') ≡ r = cc e in rw (← same) g

  same-Grows : (m : ConcurrentMap K V) → Grows m m
  unfolding Grows
  same-Grows m i = omega arith

  run-Grows :
      (m : ConcurrentMap K V) (c : Call K V) (r : Reply V × ConcurrentMap K V)
      → IsValid m
      → adds c ≡ true
      → run m c ≡ ok r
      → Grows m r.1
  unfolding run set set_nx get has
  run-Grows m (set_call k v) r valid a ran =
      ends-Grows m _ done r (insert-Grows m k v valid) (rw (get_shard-home m k valid.width) at ran)
  run-Grows m (set_nx_call k v) r valid a ran =
      elim (Option-cases (Dict.lookup key.equal k (shard_at m (home k)))) [
        | inl absent ↦
            ends-Grows m _ (flag true) r (insert-Grows m k v valid)
              (rw (get_shard-home m k valid.width, ◌>>=◌, absent) at ran)
        | inr (w, present) ↦
            ends-Grows m m (flag true) r (same-Grows m)
              (rw (get_shard-home m k valid.width, ◌>>=◌, present) at ran)
      ]
  run-Grows m (get_call k) r valid a ran =
      ends-Grows m m _ r (same-Grows m) (rw (get_shard-home m k valid.width) at ran)
  run-Grows m (has_call k) r valid a ran =
      ends-Grows m m _ r (same-Grows m) (rw (get_shard-home m k valid.width) at ran)
  run-Grows m (remove_call k) r valid a ran = absurd (cc a)
  run-Grows m (get_and_remove_call k) r valid a ran = absurd (cc a)

  trans-Grows : (a b c : ConcurrentMap K V) → Grows a b → Grows b c → Grows a c
  unfolding Grows
  trans-Grows a b c g h i = omega (arith, g i, h i)

  run_all-Grows :
      (cs : List (Call K V)) (m : ConcurrentMap K V)
      → IsValid m
      → OnlyAdds cs
      → Returns (run_all m cs) (λ r. IsValid r.1 × Grows m r.1)
  unfolding run_all
  run_all-Grows [] m valid h = (([], m), refl, (valid, same-Grows m))
  run_all-Grows (c ∷ cs) m valid (a, h) =
      let (r, ran, refines) = run-Refines m c valid in
      let (rs, rans, (valid', more)) = run_all-Grows cs r.1 refines.state.valid h in
      (
        (r.0 ∷ rs.0, rs.1),
        rw (ran, rans),
        (valid', trans-Grows m r.1 rs.1 (run-Grows m c r valid a ran) more),
      )

  -- What was counted from the i-th shard on.
  record Counted (i c : ℕ) (m : ConcurrentMap K V) (n : ℕ) (r : ℕ × ConcurrentMap K V)
      : Type ℓ where
    valid : IsValid r.1
    grows : Grows m r.1
    least : c + total n i m ≤ r.0
    most : r.0 ≤ c + total n i r.1

  count_among-Counted :
      (css : List (List (Call K V))) (i c : ℕ) (m : ConcurrentMap K V)
      → i + length css ≤ shard_count
      → IsValid m
      → OnlyAdds (flat css)
      → Returns (count_among i m c css) (Counted i c m (length css))
  unfolding count_among flat total Grows
  count_among-Counted [] i c m le valid h = (
    (c, m),
    refl,
    record { valid = valid; grows = same-Grows m; least = omega arith; most = omega arith },
  )
  count_among-Counted (cs ∷ css) i c m le valid h =
      let (h_now, h_later) = OnlyAdds-append cs (flat css) h in
      let (r, ran, (valid', grown)) = run_all-Grows cs m valid h_now in
      let (r', goes, counted) =
        count_among-Counted css (i + 1) (c + length (shard_at r.1 i)) r.1 (omega arith) valid'
          h_later in
      let shard : at r.1 i ≡ ok (shard_at r.1 i) =
        sym (at-get_or i [] r.1 (omega (arith, valid'.width))) in
      (
        r',
        rw (count_among, ran, ◌>>=◌, shard, goes) refl,
        record {
          valid = counted.valid;
          grows = trans-Grows m r.1 r'.1 grown counted.grows;
          least =
              omega (arith, grown i, total-Grows (length css) (i + 1) m r.1 grown, counted.least);
          most = omega (arith, counted.grows i, counted.most);
        },
      )

  -- If 32 lists of calls of Set, SetNX, Get and Has run beside Count, each before it takes the lock
  -- of its next shard, then on a well-formed map Count does not panic, and answers a number between
  -- what it would answer before all of the calls and after them.
  pub count_among-between :
      (css : List (List (Call K V))) (m : ConcurrentMap K V)
      → length css ≡ 32
      → IsValid m
      → OnlyAdds (flat css)
      → Returns (count_among 0 m 0 css) (λ r.
        (before after : ℕ) × (count m ≡ ok before)
        × (count r.1 ≡ ok after)
        × (before ≤ r.0)
        × (r.0 ≤ after))
  count_among-between css m size valid h =
      let (r, goes, counted) = count_among-Counted css 0 0 m (omega arith) valid h in
      (
        r,
        goes,
        (
          total 32 0 m,
          total 32 0 r.1,
          count-total m valid,
          count-total r.1 counted.valid,
          omega (arith, counted.least, ap (λ n. total n 0 m) size),
          omega (arith, counted.most, ap (λ n. total n 0 r.1) size),
        ),
      )
