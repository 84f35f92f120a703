-- ===== src/Gls/Store.antt =====
-- gls/gls_slot.go: the slots and the heap as a function from goroutines to their data.
use mathlib.Core.Logic.{ite}
use modern_go.Base.Dict
use modern_go.Base.{
  ℕ, zero, suc, ◌%◌, ◌<◌, ◌≡◌, ◌≢◌, refl, ◌∙◌, arith, List, [], ◌∷◌, ◌++◌, Option, none, some,
  Option-cases, inl, inr, length, get_or, get_or-set, get_or-replicate, length-set, ℕ_discrete,
  length-append, length-replicate, replicate,
}
use modern_go.Gls.{
  Pointer, GlsData, Env, World, shards_count, empty_data, load, store, slot, get_gls_data,
  new_gls_data, del_gls_data, new_world,
}

get_or-append :
    {A : Type 0} (xs : List A) (i : ℕ) (d : A) → get_or (xs ++ d ∷ []) i d ≡ get_or xs i d
get_or-append [] zero d = refl
get_or-append [] (suc i) d = refl
get_or-append (x ∷ xs) zero d = refl
get_or-append (x ∷ xs) (suc i) d = get_or-append xs i d

get_or-length : {A : Type 0} (xs : List A) (d : A) → get_or xs (length xs) d ≡ d
get_or-length [] d = refl
get_or-length (x ∷ xs) d = get_or-length xs d

module _ {K H : Type 0} (env : Env K H) where
  abbrev pub home : Pointer → ℕ
  home gp = env.goid gp % shards_count

  -- Where a goroutine's data lies.
  abbrev pub address : World K H → Pointer → Option ℕ
  address w gp = get_gls_data w (home gp) gp

  -- A goroutine's data.
  unfoldable pub view : World K H → Pointer → Option (GlsData K)
  view w gp = elim (address w gp) [ none ↦ none | some a ↦ some (load w a) ]

  -- Every slot is there; data lies within the heap, and at two places for two goroutines.
  pub record IsValid (w : World K H) : Type 0 where
    pub width : length w.global_slots ≡ shards_count
    pub within : (gp : Pointer) (a : ℕ) → address w gp ≡ some a → a < length w.heap
    pub apart : (gp gq : Pointer) (a : ℕ) → address w gp ≡ some a → address w gq ≡ some a → gp ≡ gq

  abbrev pub update :
      (Pointer → Option (GlsData K)) → Pointer → Option (GlsData K) → Pointer → Option (GlsData K)
  update f gp d q = ite (ℕ_discrete gp q) d (f q)

  pub record Models (f : Pointer → Option (GlsData K)) (w : World K H) : Type 0 where
    pub valid : IsValid w
    pub reads : (q : Pointer) → view w q ≡ f q

  -- The slots and the heap are all that matters.
  pub same-Models :
      (f : Pointer → Option (GlsData K)) (w w' : World K H)
      → w'.global_slots ≡ w.global_slots
      → w'.heap ≡ w.heap
      → Models f w
      → Models f w'
  unfolding view get_gls_data
  same-Models f w w' slots heap m = record {
    valid = record {
      width = rw slots m.valid.width;
      within = rw (slots, heap) m.valid.within;
      apart = rw slots m.valid.apart;
    };
    reads = rw (slots, heap) m.reads;
  }

  -- The data of one goroutine changes in its place.
  pub store-Models :
      (w : World K H) (gp : Pointer) (a : ℕ) (d : GlsData K)
      → IsValid w
      → address w gp ≡ some a
      → Models (update (view w) gp (some d)) (store w a d)
  unfolding view get_gls_data
  store-Models w gp a d valid here = record {
    valid = record {
      width = valid.width;
      within = λ q b e. omega (arith, length-set w.heap a d, valid.within q b e);
      apart = valid.apart;
    };
    reads = λ q. elim (Option-cases (address w q)) [
      | inl absent ↦ ground (arith, absent, here)
      | inr (b, there) ↦ elim (ℕ_discrete gp q) [
        | yes same ↦
            ground (arith, there, here, get_or-set d empty_data w.heap a b, valid.within gp a here)
        | no other ↦
            let away : a ≢ b = λ e. other (valid.apart gp q a here (rw (← e) at there)) in
            ground (arith, there, here, get_or-set d empty_data w.heap a b, valid.within gp a here)
      ]
    ];
  }

  module _ (w : World K H) (gp : Pointer) (valid : IsValid w) where
    new-address :
        (q : Pointer)
        → address (new_gls_data w (home gp) gp).1 q
          ≡ ite (ℕ_discrete gp q) (some (length w.heap)) (address w q)
    unfolding get_gls_data new_gls_data
    new-address q = ground (
      arith,
      get_or-set (Dict.insert ℕ_discrete gp (length w.heap) (slot w (home gp))) [] w.global_slots
          (home gp) (home q),
      valid.width,
      Dict.lookup-insert ℕ_discrete gp q (length w.heap) (slot w (home gp)),
    )

    pub new-place :
        (h : H)
        → address (record (new_gls_data w (home gp) gp).1 { host = h }) gp
          ≡ some (new_gls_data w (home gp) gp).0
    unfolding get_gls_data new_gls_data
    new-place h = ground (arith, new-address gp)

    del-address :
        (q : Pointer)
        → address (del_gls_data w (home gp) gp) q ≡ ite (ℕ_discrete gp q) none (address w q)
    unfolding get_gls_data del_gls_data
    del-address q = ground (
      arith,
      get_or-set (Dict.delete ℕ_discrete gp (slot w (home gp))) [] w.global_slots (home gp)
          (home q),
      valid.width,
      Dict.lookup-delete ℕ_discrete gp q (slot w (home gp)),
    )

    -- A goroutine without data gets empty data.
    pub new-Models :
        address w gp ≡ none
        → Models (update (view w) gp (some empty_data)) (new_gls_data w (home gp) gp).1
    unfolding view new_gls_data
    new-Models absent =
        let at_end =
          get_or-append w.heap (length w.heap) empty_data ∙ get_or-length w.heap empty_data in
        record {
          valid = record {
            width = length-set w.global_slots (home gp) _ ∙ valid.width;
            within = λ q a e.
                ground (
                  arith,
                  new-address q,
                  e,
                  valid.within q a,
                  length-append w.heap (empty_data ∷ []),
                );
            apart = λ p q a ep eq. ground (
              arith,
              new-address p,
              new-address q,
              ep,
              eq,
              valid.within p a,
              valid.within q a,
              valid.apart p q a,
            );
          };
          reads = λ q. elim (Option-cases (address w q)) [
            | inl none_there ↦ rw (view, new-address q) (ground (arith, none_there, at_end))
            | inr (b, there) ↦
                rw (view, new-address q)
                  (ground (arith, there, get_or-append w.heap b empty_data, at_end))
          ];
        }

    -- A goroutine loses its data.
    pub del-Models : Models (update (view w) gp none) (del_gls_data w (home gp) gp)
    unfolding view del_gls_data
    del-Models = record {
      valid = record {
        width = length-set w.global_slots (home gp) _ ∙ valid.width;
        within = λ q a e. ground (arith, del-address q, e, valid.within q a);
        apart =
            λ p q a ep eq. ground (arith, del-address p, del-address q, ep, eq, valid.apart p q a);
      };
      reads = λ q. rw (view, del-address q) (ground arith);
    }

  -- The store that `init` makes has no goroutine's data.
  pub new_world-Models : (h : H) → Models (λ gp. none) (new_world h)
  unfolding new_world view get_gls_data Dict.lookup
  new_world-Models h = record {
    valid = record {
      width = length-replicate {A = Dict.Dict Pointer ℕ} shards_count [];
      within = λ gp a e. ground (arith, none_there gp, e);
      apart = λ gp gq a e e'. ground (arith, none_there gp, e);
    };
    reads = λ gp. rw (view, none_there gp);
  }
    where
      empty :
          (gp : Pointer)
          → get_or {A = Dict.Dict Pointer ℕ} (replicate shards_count []) (home gp) [] ≡ []
      empty gp = get_or-replicate [] (home gp) shards_count

      none_there : (gp : Pointer) → address (new_world h) gp ≡ none
      none_there gp = rw (get_gls_data, empty gp)
