-- ===== src/Cmap/Single.antt =====
-- The methods of the sharded map that work on one key, against a function from keys to values.
use mathlib.Core.Path.{fun_ext, ap₂}
use modern_go.Base.Dict
use modern_go.Base.Outcome.{Outcome, ok, ◌>>=◌, Returns}
use modern_go.Base.{
  ◌≡◌, refl, arith, List, [], ◌∷◌, Option, none, some, Bool, true, Option-cases, inl, inr,
  set as set_at,
}
use modern_go.Cmap.{
  Key, ConcurrentMap, has_value, set, get, has, remove, get_and_remove, set_nx, get_shard,
}
use modern_go.Cmap.Shards.{
  home, shard_at, IsValid, view, Models, update, get_shard-home, set_at-Models,
}

-- A call of a method on one key.
pub data Call {ℓ} (K V : Type ℓ) : Type ℓ where
  set_call set_nx_call : K → V → Call K V
  get_call has_call remove_call get_and_remove_call : K → Call K V

-- What a call answers.
pub data Reply {ℓ} (V : Type ℓ) : Type ℓ where
  done : Reply V
  value : Option V → Reply V
  flag : Bool → Reply V

module _ {ℓ} {K V : Type ℓ} ⦃key : Key K⦄ where
  unfoldable pub run : ConcurrentMap K V → Call K V → Outcome (Reply V × ConcurrentMap K V)
  run m (set_call k v) = do m' ← set m k v; ok (done, m')
  run m (set_nx_call k v) = do (b, m') ← set_nx m k v; ok (flag b, m')
  run m (get_call k) = do v ← get m k; ok (value v, m)
  run m (has_call k) = do b ← has m k; ok (flag b, m)
  run m (remove_call k) = do m' ← remove m k; ok (done, m')
  run m (get_and_remove_call k) = do (v, m') ← get_and_remove m k; ok (value v, m')

  -- The same call on a function from keys to values.
  unfoldable pub spec : (K → Option V) → Call K V → Reply V × (K → Option V)
  spec f (set_call k v) = (done, update f k (some v))
  spec f (set_nx_call k v) = (flag true, update f k (some (elim (f k) [ none ↦ v | some w ↦ w ])))
  spec f (get_call k) = (value (f k), f)
  spec f (has_call k) = (flag (has_value (f k)), f)
  spec f (remove_call k) = (done, update f k none)
  spec f (get_and_remove_call k) = (value (f k), update f k none)

  -- A call ended with the reply and the state of the abstract map.
  pub record Refines (f : K → Option V) (c : Call K V) (r : Reply V × ConcurrentMap K V)
      : Type ℓ where
    pub reply : r.0 ≡ (spec f c).0
    pub state : Models (spec f c).1 r.1

  unchanged-Models : (m : ConcurrentMap K V) → IsValid m → Models (view m) m
  unchanged-Models m valid = record { valid = valid; reads = λ q. refl }

  module _ (m : ConcurrentMap K V) (k : K) (valid : IsValid m) where
    home_shard : get_shard m k ≡ ok (home k, shard_at m (home k))
    home_shard = get_shard-home m k valid.width

    stored-Models :
        (v : V)
        → Models
            (update (view m) k (some v))
            (set_at m (home k) (Dict.insert key.equal k v (shard_at m (home k))))
    stored-Models v =
        set_at-Models m k (some v) _ valid (Dict.insert-IsMap key.equal k v _ (valid.maps (home k)))
          (λ q. Dict.lookup-insert key.equal k q v _)

    deleted-Models :
        Models
          (update (view m) k none)
          (set_at m (home k) (Dict.delete key.equal k (shard_at m (home k))))
    deleted-Models =
        set_at-Models m k none _ valid (Dict.delete-IsMap key.equal k _ (valid.maps (home k)))
          (λ q. Dict.lookup-delete key.equal k q _)

    -- A value that stands already.
    present-Models : (w : V) → view m k ≡ some w → Models (update (view m) k (some w)) m
    present-Models w e = record { valid = valid; reads = λ q. ground (arith, e) }

  pub set-Models :
      (m : ConcurrentMap K V) (k : K) (v : V)
      → IsValid m
      → Returns (set m k v) (Models (update (view m) k (some v)))
  unfolding set
  set-Models m k v valid = (_, rw (home_shard m k valid), stored-Models m k valid v)

  pub get-view : (m : ConcurrentMap K V) (k : K) → IsValid m → get m k ≡ ok (view m k)
  unfolding get view
  get-view m k valid = rw (home_shard m k valid)

  -- A call on one key of a well-formed map does not panic; it answers as the abstract map does, and
  -- leaves a well-formed map that stands for the abstract map's next state.
  pub run-Refines :
      (m : ConcurrentMap K V) (c : Call K V) → IsValid m → Returns (run m c) (Refines (view m) c)
  unfolding run spec view set get has remove get_and_remove set_nx
  run-Refines m (set_call k v) valid =
      (_, rw (home_shard m k valid), record { reply = refl; state = stored-Models m k valid v })
  run-Refines m (set_nx_call k v) valid = elim (Option-cases (view m k)) [
    | inl absent ↦ (
      (flag true, set_at m (home k) (Dict.insert key.equal k v (shard_at m (home k)))),
      rw (home_shard m k valid, ◌>>=◌, absent),
      record { reply = refl; state = rw absent (stored-Models m k valid v) },
    )
    | inr (w, present) ↦ (
      (flag true, m),
      rw (home_shard m k valid, ◌>>=◌, present),
      record { reply = refl; state = rw present (present-Models m k valid w present) },
    )
  ]
  run-Refines m (get_call k) valid =
      (_, rw (home_shard m k valid), record { reply = refl; state = unchanged-Models m valid })
  run-Refines m (has_call k) valid =
      (_, rw (home_shard m k valid), record { reply = refl; state = unchanged-Models m valid })
  run-Refines m (remove_call k) valid =
      (_, rw (home_shard m k valid), record { reply = refl; state = deleted-Models m k valid })
  run-Refines m (get_and_remove_call k) valid =
      (_, rw (home_shard m k valid), record { reply = refl; state = deleted-Models m k valid })

  -- The calls of one run, in the order in which they take their shards' locks.
  unfoldable pub run_all :
      ConcurrentMap K V → List (Call K V) → Outcome (List (Reply V) × ConcurrentMap K V)
  run_all m [] = ok ([], m)
  run_all m (c ∷ cs) = do
    (reply, m') ← run m c
    (replies, last) ← run_all m' cs
    ok (reply ∷ replies, last)

  unfoldable pub spec_all : (K → Option V) → List (Call K V) → List (Reply V) × (K → Option V)
  spec_all f [] = ([], f)
  spec_all f (c ∷ cs) =
      let (reply, f') = spec f c in let (replies, last) = spec_all f' cs in (reply ∷ replies, last)

  -- The calls ended with the replies and the state of the abstract map.
  pub record RefinesAll (f : K → Option V) (cs : List (Call K V))
      (r : List (Reply V) × ConcurrentMap K V) : Type ℓ where
    pub replies : r.0 ≡ (spec_all f cs).0
    pub state : Models (spec_all f cs).1 r.1

  -- A sequence of calls on single keys does not panic, and has the replies and the final state of
  -- the same sequence on a function from keys to values, from any map that stands for such a
  -- function.
  pub run_all-RefinesAll :
      (cs : List (Call K V)) (f : K → Option V) (m : ConcurrentMap K V)
      → Models f m
      → Returns (run_all m cs) (RefinesAll f cs)
  unfolding run_all spec_all
  run_all-RefinesAll [] f m h = (([], m), refl, record { replies = refl; state = h })
  run_all-RefinesAll (c ∷ cs) f m h =
      let same : view m ≡ f = fun_ext h.reads in
      let (r, ran, one) = run-Refines m c h.valid in
      let (rs, rans, rest) = run_all-RefinesAll cs (spec f c).1 r.1 (rw same at one.state) in
      (
        (r.0 ∷ rs.0, rs.1),
        rw (ran, rans),
        record { replies = ap₂ ◌∷◌ (rw same at one.reply) rest.replies; state = rest.state },
      )
