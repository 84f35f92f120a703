-- ===== src/Cmap/Interleaved/Seen.antt =====
-- What GetAll and Keys of the sharded map see of the calls that run beside them.
use mathlib.Core.Option.{or_else}
use modern_go.Base.Dict
use modern_go.Base.Dict.{Dict}
use modern_go.Base.Outcome.{ok, ◌>>=◌, Returns}
use modern_go.Base.{
  ℕ, zero, suc, ◌+◌, ◌≤◌, ◌<◌, ◌≡◌, ◌≢◌, refl, sym, ◌∙◌, ap, arith, List, [], ◌∷◌, ◌++◌, Option,
  none, some, length, take, map, dec_lt,
}
use modern_go.Cmap.{Key, at, RangeOrder, ConcurrentMap, shard_count}
use modern_go.Cmap.Shards.{home, shard_at, view, Models, at-get_or}
use modern_go.Cmap.Single.{Call, spec_all, run_all-RefinesAll}
use modern_go.Cmap.Whole.{visited}
use modern_go.Cmap.Interleaved.{flat, entries_among, keys_among, get_all_among}

or_none {ℓ} : {V : Type ℓ} (o : Option V) → or_else o none ≡ o
unfolding or_else
or_none none = refl
or_none (some v) = refl

module _ {ℓ} {K V : Type ℓ} ⦃key : Key K⦄ where
  -- The abstract map after some calls and more.
  spec_all-append :
      (cs ds : List (Call K V)) (f : K → Option V)
      → (spec_all f (cs ++ ds)).1 ≡ (spec_all (spec_all f cs).1 ds).1
  unfolding spec_all
  spec_all-append [] ds f = refl
  spec_all-append (c ∷ cs) ds f = spec_all-append cs ds _

  -- The entries seen from the i-th shard on: a key has the value that it had when its shard was
  -- read.
  pub record Seen (i : ℕ) (f : K → Option V) (css : List (List (Call K V)))
      (r : Dict K V × ConcurrentMap K V) : Type ℓ where
    pub is_map : Dict.IsMap key.equal r.0
    pub earlier : (q : K) → home q < i → Dict.lookup key.equal q r.0 ≡ none
    pub seen :
        (q : K) (d : ℕ)
        → home q ≡ i + d
        → d < length css
        → Dict.lookup key.equal q r.0 ≡ (spec_all f (flat (take (suc d) css))).1 q
    pub last : Models (spec_all f (flat css)).1 r.1

module _ {ℓ} {K V : Type ℓ} ⦃key : Key K⦄ (order : RangeOrder K V) where
  module _ (i : ℕ) (f : K → Option V) (cs : List (Call K V)) (css : List (List (Call K V)))
      (m : ConcurrentMap K V) (now : Models (spec_all f cs).1 m) (es : Dict K V)
      (end : ConcurrentMap K V) (rest : Seen (i + 1) (spec_all f cs).1 css (es, end)) where
    reads :
        (q : K)
        → Dict.lookup key.equal q (order.visit i (shard_at m i))
          ≡ Dict.lookup key.equal q (shard_at m i)
    reads q = (visited order i (shard_at m i) (now.valid.maps i)).0 q

    elsewhere :
        (q : K)
        → home q ≢ i
        → Dict.lookup key.equal q (order.visit i (shard_at m i) ++ es) ≡ Dict.lookup key.equal q es
    unfolding or_else
    elsewhere q away = rw (Dict.lookup-append, reads q, now.valid.placed i q away)

    in_shard :
        (q : K)
        → home q ≡ i
        → Dict.lookup key.equal q (order.visit i (shard_at m i) ++ es) ≡ (spec_all f cs).1 q
    unfolding view
    in_shard q e =
        rw (Dict.lookup-append, reads q, rest.earlier q (omega arith))
          (or_none (Dict.lookup key.equal q (shard_at m i))
            ∙ ap (λ j. Dict.lookup key.equal q (shard_at m j)) (sym e)
            ∙ now.reads q)

    seen_at :
        (d : ℕ) (q : K)
        → home q ≡ i + d
        → d < length (cs ∷ css)
        → Dict.lookup key.equal q (order.visit i (shard_at m i) ++ es)
          ≡ (spec_all f (flat (take (suc d) (cs ∷ css)))).1 q
    unfolding flat spec_all
    seen_at zero q e inside =
        in_shard q (omega arith) ∙ ap (λ g. g q) (sym (spec_all-append cs [] f))
    seen_at (suc d) q e inside =
        elsewhere q (omega arith)
        ∙ rest.seen q d (omega arith) (omega arith)
        ∙ ap (λ g. g q) (sym (spec_all-append cs (flat (take (suc d) css)) f))

    step-Seen : Seen i f (cs ∷ css) (order.visit i (shard_at m i) ++ es, end)
    unfolding flat
    step-Seen = record {
      is_map =
          Dict.append-IsMap key.equal _ _ (visited order i (shard_at m i) (now.valid.maps i)).1
            rest.is_map
            (λ q v found. elim (dec_lt (home q) (i + 1)) [
              | yes before ↦ rest.earlier q before
              | no after ↦ cc (reads q, now.valid.placed i q (omega arith))
            ]);
      earlier = λ q lt. elsewhere q (omega arith) ∙ rest.earlier q (omega arith);
      seen = λ q d e inside. seen_at d q e inside;
      last = rw (spec_all-append cs (flat css) f) rest.last;
    }

  -- A loop over the shards from the i-th on, as many as there are left.
  entries_among-Seen :
      (css : List (List (Call K V))) (i : ℕ) (f : K → Option V) (m : ConcurrentMap K V)
      → i + length css ≤ shard_count
      → Models f m
      → Returns (entries_among order i m css) (Seen i f css)
  unfolding entries_among flat spec_all Dict.lookup
  entries_among-Seen [] i f m le h = (
    ([], m),
    refl,
    record {
      is_map = tt;
      earlier = λ q lt. refl;
      seen = λ q d e inside. absurd (omega arith);
      last = h;
    },
  )
  entries_among-Seen (cs ∷ css) i f m le h =
      let (r, ran, one) = run_all-RefinesAll cs f m h in
      let ((es, end), goes, rest) =
        entries_among-Seen css (i + 1) (spec_all f cs).1 r.1 (omega arith) one.state in
      let shard : at r.1 i ≡ ok (shard_at r.1 i) =
        sym (at-get_or i [] r.1 (omega (arith, one.state.valid.width))) in
      (
        (order.visit i (shard_at r.1 i) ++ es, end),
        rw (entries_among, ran, ◌>>=◌, shard, goes) refl,
        step-Seen i f cs css r.1 one.state es end rest,
      )

  -- If 32 lists of calls on single keys run beside GetAll, each before it takes the lock of its
  -- next shard, then from a map that stands for a function from keys to values GetAll does not
  -- panic; its result has under every key the value that the function has after the calls up to the
  -- read of the key's shard, and the map stands for the function after all calls.
  pub get_all_among-Sees :
      (css : List (List (Call K V))) (f : K → Option V) (m : ConcurrentMap K V)
      → length css ≡ 32
      → Models f m
      → Returns (get_all_among order m css) (λ r.
        ((q : K) → Dict.lookup key.equal q r.0 ≡ (spec_all f (flat (take (suc (home q)) css))).1 q)
        × Models (spec_all f (flat css)).1 r.1)
  unfolding get_all_among Dict.lookup
  get_all_among-Sees css f m size h =
      let ((es, end), goes, among) = entries_among-Seen css 0 f m (omega arith) h in
      (
        (Dict.insert_all key.equal es [], end),
        rw (get_all_among, goes, ◌>>=◌) refl,
        (
          λ q.
              Dict.lookup-insert_all key.equal es [] q among.is_map
              ∙ or_none (Dict.lookup key.equal q es)
              ∙ among.seen q (home q) (omega arith) (omega arith),
          among.last,
        ),
      )

  -- If 32 lists of calls on single keys run beside Keys, each before it takes the lock of its next
  -- shard, then from a map that stands for a function from keys to values Keys does not panic; a
  -- key is listed once if the function has a value for it after the calls up to the read of the
  -- key's shard, and not at all otherwise, and the map stands for the function after all calls.
  pub keys_among-Sees :
      (css : List (List (Call K V))) (f : K → Option V) (m : ConcurrentMap K V)
      → length css ≡ 32
      → Models f m
      → Returns (keys_among order m css) (λ r.
        ((q : K)
          → Dict.occurs key.equal q r.0
            ≡ Dict.present ((spec_all f (flat (take (suc (home q)) css))).1 q))
        × Models (spec_all f (flat css)).1 r.1)
  unfolding keys_among
  keys_among-Sees css f m size h =
      let ((es, end), goes, among) = entries_among-Seen css 0 f m (omega arith) h in
      (
        (map (λ e. e.0) es, end),
        rw (keys_among, goes, ◌>>=◌) refl,
        (
          λ q.
              Dict.occurs-keys key.equal q es among.is_map
              ∙ ap Dict.present (among.seen q (home q) (omega arith) (omega arith)),
          among.last,
        ),
      )
