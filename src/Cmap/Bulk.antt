-- ===== src/Cmap/Bulk.antt =====
-- Clear, IsEmpty, IterBuffered, MGet and MSet of the sharded map.
use mathlib.Core.Logic.{if_pos, if_neg}
use mathlib.Core.Option.{or_else}
use mathlib.Core.List.Permᴰ
use modern_go.Base.Dict
use modern_go.Base.Dict.{Dict}
use modern_go.Base.Outcome.{ok, ◌>>=◌, Returns}
use modern_go.Base.{
  ℕ, zero, suc, ◌≡◌, refl, sym, ◌∙◌, ap, arith, List, [], ◌∷◌, Option, none, some, true, ◌↔◌,
  length, map, length-map, get_or, ◌==◌, Option-cases, inl, inr,
}
use modern_go.Cmap.{
  Key, RangeOrder, ConcurrentMap, count, is_empty, clear, m_get_loop, m_get, m_set_loop, m_set,
  entries_from, keys, iter, iter_buffered,
}
use modern_go.Cmap.Shards.{home, IsValid, view, Models}
use modern_go.Cmap.Single.{set-Models, get-view}
use modern_go.Cmap.Whole.{iter-view, count-keys}

as_stored {ℓ} : {K V : Type ℓ} → RangeOrder K V
as_stored = record { visit = λ i m. m; visits_all = λ i m. Permᴰ.refl m }

emptied {ℓ} :
    {K V : Type ℓ} (m : ConcurrentMap K V) (i : ℕ)
    → get_or (map {B = Dict K V} (λ _. []) m) i [] ≡ []
emptied [] i = refl
emptied (s ∷ m) zero = refl
emptied (s ∷ m) (suc i) = emptied m i

-- The value of a key that was asked for `n` times.
pub requested {ℓ} : {V : Type ℓ} → ℕ → Option V → Option V
requested zero v = none
requested (suc n) v = v

requested-none {ℓ} : {V : Type ℓ} (n : ℕ) → requested {V = V} n none ≡ none
unfolding requested
requested-none zero = refl
requested-none (suc n) = refl

-- Once a value is stored it does not matter whether its key is asked for again.
requested_again {ℓ} :
    {V : Type ℓ} (n : ℕ) (v : V) → or_else (requested n (some v)) (some v) ≡ some v
unfolding requested or_else
requested_again zero v = refl
requested_again (suc n) v = refl

module _ {ℓ} {K V : Type ℓ} ⦃key : Key K⦄ where
  count-iter :
      (order : RangeOrder K V) (m : ConcurrentMap K V)
      → IsValid m
      → count m ≡ ok (length (iter order m))
  unfolding iter keys
  count-iter order m v = count-keys order m v ∙ ap ok (length-map (iter order m) (λ e. e.0))

  -- The channel of `IterBuffered` has room for exactly the entries that are sent on it, so its
  -- sender never waits; they are those of `Iter`.
  iter_buffered-iter :
      (order : RangeOrder K V) (m : ConcurrentMap K V)
      → IsValid m
      → iter_buffered order m ≡ ok (length (iter order m), iter order m)
  unfolding iter_buffered iter entries_from
  iter_buffered-iter order m v = rw (count-iter order m v)

  no_entries :
      (es : Dict K V) (f : K → Option V)
      → ((q : K) → Dict.lookup key.equal q es ≡ f q)
      → ((length es == 0) ≡ true) ↔ ((q : K) → f q ≡ none)
  unfolding Dict.lookup
  no_entries [] f reads = (λ _ q. sym (reads q), λ _. refl)
  no_entries ((k, v) ∷ es) f reads =
      (λ e. absurd (ground arith), λ empty. absurd (ground (arith, reads k, empty k)))

  -- `IsEmpty` answers, and it is true exactly when no key has a value.
  is_empty-view :
      (m : ConcurrentMap K V)
      → IsValid m
      → Returns (is_empty m) λ b. (b ≡ true) ↔ ((q : K) → view m q ≡ none)
  unfolding is_empty
  is_empty-view m v = (
    length (iter as_stored m) == 0,
    rw (count-iter as_stored m v),
    no_entries (iter as_stored m) (view m) (iter-view as_stored m v).1,
  )

  -- `Clear` leaves a well-formed map in which no key has a value.
  clear-Models : (m : ConcurrentMap K V) → IsValid m → Models (λ _. none) (clear m)
  unfolding clear view Dict.lookup
  clear-Models m v = record {
    valid = record {
      width = length-map m (λ _. []) ∙ v.width;
      maps = λ i. rw (emptied m i) tt;
      placed = λ i k away. rw (emptied m i);
    };
    reads = λ k. rw (emptied m (home k));
  }

  m_set_loop-Models :
      (es : Dict K V) (m : ConcurrentMap K V)
      → Dict.IsMap key.equal es
      → IsValid m
      → Returns (m_set_loop m es) (Models (λ q. or_else (Dict.lookup key.equal q es) (view m q)))
  unfolding m_set_loop Dict.lookup or_else
  m_set_loop-Models [] m h v = (m, refl, record { valid = v; reads = λ q. refl })
  m_set_loop-Models ((k, w) ∷ es) m h v =
      let (m', ran, one) = set-Models m k w v in
      let (last, rans, rest) = m_set_loop-Models es m' h.1 one.valid in
      (
        last,
        rw ran rans,
        record { valid = rest.valid; reads = λ q. rest.reads q ∙ ground (arith, one.reads q, h.0) },
      )

  -- `MSet` stores every entry of its argument, in whatever order it visits them, and keeps the
  -- other keys.
  pub m_set-Models :
      (order : RangeOrder K V) (m : ConcurrentMap K V) (es : Dict K V)
      → Dict.IsMap key.equal es
      → IsValid m
      → Returns (m_set order m es) (Models (λ q. or_else (Dict.lookup key.equal q es) (view m q)))
  unfolding m_set
  m_set-Models order m es h v =
      let (same, is_map) = Dict.IsMap-perm key.equal (order.visits_all 0 es) h in
      let (last, ran, models) = m_set_loop-Models (order.visit 0 es) m is_map v in
      (last, ran, record { valid = models.valid; reads = λ q. models.reads q ∙ rw (same q) })

  -- One more key, which has no value.
  absent_key :
      (f : K → Option V) (k q : K) (ks : List K)
      → f k ≡ none
      → requested (Dict.occurs key.equal q ks) (f q)
        ≡ requested (Dict.occurs key.equal q (k ∷ ks)) (f q)
  unfolding requested
  absent_key f k q ks e = elim (key.equal k q) [
    | yes same ↦
        let gone : f q ≡ none = rw (← same) e in
        rw (gone) (requested-none _ ∙ sym (requested-none _))
    | no other ↦ rw (Dict.occurs_later key.equal k q ks other)
  ]

  -- One more key, whose value `w` is stored.
  present_key :
      (f : K → Option V) (k q : K) (ks : List K) (w : V) (es : Dict K V)
      → f k ≡ some w
      → or_else
          (requested (Dict.occurs key.equal q ks) (f q))
          (Dict.lookup key.equal q (Dict.insert key.equal k w es))
        ≡ or_else (requested (Dict.occurs key.equal q (k ∷ ks)) (f q)) (Dict.lookup key.equal q es)
  unfolding requested or_else
  present_key f k q ks w es e = elim (key.equal k q) [
    | yes same ↦
        let there : f q ≡ some w = rw (← same) e in
        rw
          (
            Dict.lookup-insert,
            if_pos (key.equal k q) same (some w),
            Dict.occurs_here key.equal k q ks same,
            there,
          )
          (requested_again _ w)
    | no other ↦ rw (
      Dict.lookup-insert,
      if_neg (key.equal k q) other (some w),
      Dict.occurs_later key.equal k q ks other,
    )
  ]

  m_get_loop-requested :
      (m : ConcurrentMap K V) (ks : List K) (es : Dict K V)
      → IsValid m
      → Returns (m_get_loop m ks es) λ r.
        (q : K)
        → Dict.lookup key.equal q r
          ≡ or_else (requested (Dict.occurs key.equal q ks) (view m q)) (Dict.lookup key.equal q es)
  unfolding m_get_loop Dict.occurs requested or_else
  m_get_loop-requested m [] es v = (es, refl, λ q. refl)
  m_get_loop-requested m (k ∷ ks) es v = elim (Option-cases (view m k)) [
    | inl absent ↦
        let (r, ran, reads) = m_get_loop-requested m ks es v in
        (
          r,
          rw (get-view m k v, ◌>>=◌, absent) ran,
          λ q.
              reads q
              ∙ ap (λ o. or_else o (Dict.lookup key.equal q es))
                  (absent_key (view m) k q ks absent),
        )
    | inr (w, there) ↦
        let (r, ran, reads) = m_get_loop-requested m ks (Dict.insert key.equal k w es) v in
        (
          r,
          rw (get-view m k v, ◌>>=◌, there) ran,
          λ q. reads q ∙ present_key (view m) k q ks w es there,
        )
  ]

  -- `MGet` returns the values of the keys that it is asked for and of no others; a key without a
  -- value is left out.
  m_get-requested :
      (m : ConcurrentMap K V) (ks : List K)
      → IsValid m
      → Returns (m_get m ks) λ r.
        (q : K) → Dict.lookup key.equal q r ≡ requested (Dict.occurs key.equal q ks) (view m q)
  unfolding m_get or_else Dict.lookup
  m_get-requested m ks v =
      let (r, ran, reads) = m_get_loop-requested m ks [] v in
      (
        r,
        ran,
        λ q.
            reads q
            ∙ elim (requested (Dict.occurs key.equal q ks) (view m q))
                as (λ o. or_else o none ≡ o) [ none ↦ refl | some w ↦ refl ],
      )
