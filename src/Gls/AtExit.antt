-- ===== src/Gls/AtExit.antt =====
-- gls/gls_slot.go: what happens when a goroutine exits.
use mathlib.Core.List
use mathlib.Core.List.{append-nil, append_assoc}
use modern_go.Base.Dict.{Dict}
use modern_go.Base.Outcome.{◌>>=◌, Returns}
use modern_go.Base.{
  ℕ, zero, suc, ◌≤◌, ◌<◌, ◌≡◌, refl, sym, ◌∙◌, ap, arith, List, [], ◌∷◌, ◌++◌, none, some, true,
  Option-cases, inl, inr, map, length, take, take_all, get_elem?, get_elem?-inside, get_or,
  get_or-set,
}
use modern_go.Gls.{
  Pointer, GlsData, empty_data, Env, World, load, store, del_gls_data, close_all, safe_close,
  safe_run, run_down, reset_at_exit,
}
use modern_go.Gls.Store.{
  home, address, view, IsValid, Models, update, store-Models, same-Models, del-Models,
}

-- What the clients' code does, as it can be seen in their state.
pub data Event : Type 0 where
  ran closed : ℕ → Event

-- Functions and Close methods, which may panic, leave their mark and keep to their own state.
pub record IsTraced {K H : Type 0} (env : Env K H) (trace : H → List Event) : Type 0 where
  pub call_trace :
      (f : ℕ) (w : World K H) → trace (env.call f w).0.host ≡ trace w.host ++ ran f ∷ []
  pub call_slots : (f : ℕ) (w : World K H) → (env.call f w).0.global_slots ≡ w.global_slots
  pub call_heap : (f : ℕ) (w : World K H) → (env.call f w).0.heap ≡ w.heap
  pub close_trace :
      (d : ℕ) (w : World K H) → trace (env.close d w).0.host ≡ trace w.host ++ closed d ∷ []
  pub close_slots : (d : ℕ) (w : World K H) → (env.close d w).0.global_slots ≡ w.global_slots
  pub close_heap : (d : ℕ) (w : World K H) → (env.close d w).0.heap ≡ w.heap

-- The closing of the values, in the order of the loop.
abbrev pub closings : {K : Type 0} → Dict K ℕ → List Event
closings [] = []
closings ((k, d) ∷ es) = closed d ∷ closings es

-- The calls of the functions, the last one first.
abbrev pub last_first : List ℕ → List Event
last_first funcs = map ran (List.reverse funcs)

take-suc : (i f : ℕ) (xs : List ℕ) → get_elem? xs i ≡ some f → take (suc i) xs ≡ take i xs ++ f ∷ []
take-suc i f [] h = ground arith
take-suc zero f (x ∷ xs) h = ground arith
take-suc (suc i) f (x ∷ xs) h = ap (◌∷◌ x) (take-suc i f xs h)

last_first-append : (xs : List ℕ) (f : ℕ) → last_first (xs ++ f ∷ []) ≡ ran f ∷ last_first xs
last_first-append xs f = rw List.reverse-append

module _ {K H : Type 0} (env : Env K H) (trace : H → List Event) (traced : IsTraced env trace) where
  -- The store is as it was, and `es` has happened.
  record Passed (w : World K H) (es : List Event) (w' : World K H) : Type 0 where
    slots : w'.global_slots ≡ w.global_slots
    heap : w'.heap ≡ w.heap
    happened : trace w'.host ≡ trace w.host ++ es

  Passed-refl : (w : World K H) → Passed w [] w
  Passed-refl w = record { slots = refl; heap = refl; happened = sym (append-nil _) }

  Passed-trans :
      (u v w : World K H) (es ds : List Event)
      → Passed u es v
      → Passed v ds w
      → Passed u (es ++ ds) w
  Passed-trans u v w es ds p q = record {
    slots = q.slots ∙ p.slots;
    heap = q.heap ∙ p.heap;
    happened = q.happened ∙ rw p.happened (append_assoc (trace u.host) es ds);
  }

  close_all-Passed : (es : Dict K ℕ) (w : World K H) → Passed w (closings es) (close_all env es w)
  unfolding close_all safe_close
  close_all-Passed [] w = Passed-refl w
  close_all-Passed ((k, d) ∷ es) w =
      Passed-trans w _ _ (closed d ∷ []) (closings es)
        (record {
          slots = traced.close_slots d w;
          heap = traced.close_heap d w;
          happened = traced.close_trace d w;
        })
        (close_all-Passed es _)

  run_down-Passed :
      (n : ℕ) (funcs : List ℕ) (w : World K H)
      → n ≤ length funcs
      → Returns (run_down env n funcs w) (Passed w (last_first (take n funcs)))
  unfolding run_down safe_run
  run_down-Passed zero funcs w h = (w, refl, Passed-refl w)
  run_down-Passed (suc i) funcs w h =
      let (f, there) = get_elem?-inside funcs i (omega arith) in
      let (r, run, rest) = run_down-Passed i funcs (env.call f w).0 (omega arith) in
      (
        r,
        rw (run_down, there) run,
        rw (take-suc i f funcs there, last_first-append)
            (Passed-trans w _ r (ran f ∷ []) (last_first (take i funcs))
              (record {
                slots = traced.call_slots f w;
                heap = traced.call_heap f w;
                happened = traced.call_trace f w;
              })
              rest),
      )

  -- What a goroutine's exit does: the events, and a store without its data.
  pub record Exited (w : World K H) (gp : Pointer) (d : GlsData K) (r : World K H) : Type 0 where
    pub happened :
        trace r.host
        ≡ trace w.host ++ (last_first d.at_exit_funcs ++ closings (env.visit d.data_map))
    pub left : Models env (update env (view env w) gp none) r

  load-store :
      (w : World K H) (a : ℕ) (d : GlsData K) → a < length w.heap → load (store w a d) a ≡ d
  load-store w a d h = ground (arith, get_or-set d empty_data w.heap a a)

  -- The end of an exit, when the functions have run in `ran_world`.
  module _ (w ran_world : World K H) (gp : Pointer) (a : ℕ) (d marked : GlsData K) where
    exit_end :
        Models env (update env (view env w) gp (some marked)) ran_world
        → trace ran_world.host ≡ trace w.host ++ last_first d.at_exit_funcs
        → Exited w gp d
            (close_all env (env.visit d.data_map) (del_gls_data ran_world (home env gp) gp))
    unfolding del_gls_data
    exit_end m happened =
        let left = del_gls_data ran_world (home env gp) gp in
        let gone = del-Models env ran_world gp m.valid in
        let closed_all = close_all-Passed (env.visit d.data_map) left in
        record {
          happened =
              closed_all.happened
              ∙ rw happened (
                  append_assoc (trace w.host) (last_first d.at_exit_funcs)
                    (closings (env.visit d.data_map)));
          left =
              same-Models env _ left _ closed_all.slots closed_all.heap record {
                valid = gone.valid;
                reads = λ q. gone.reads q ∙ ground (arith, m.reads q);
              };
        }

  -- The data at its place.
  exit_at :
      (w : World K H) (gp : Pointer) (a : ℕ)
      → IsValid env w
      → 0 < gp
      → address env w gp ≡ some a
      → Returns (reset_at_exit env (some (home env gp)) gp w) (Exited w gp (load w a))
  unfolding reset_at_exit del_gls_data
  exit_at w zero a valid positive there = absurd (omega arith)
  exit_at w (suc n) a valid positive there =
      let d = load w a in
      let marked = record d { at_exit_funcs = []; done = true } in
      let m = store-Models env w (suc n) a marked valid there in
      let (r, run, passed) =
        run_down-Passed (length d.at_exit_funcs) d.at_exit_funcs (store w a marked) (omega arith) in
      let happened : trace r.host ≡ trace w.host ++ last_first d.at_exit_funcs =
        rw (take_all (length d.at_exit_funcs) d.at_exit_funcs (omega arith)) at passed.happened in
      let loaded : load r a ≡ marked =
        ap (λ h. get_or h a empty_data) passed.heap
        ∙ load-store w a marked (valid.within (suc n) a there) in
      (
        _,
        rw (reset_at_exit, there, run, ◌>>=◌, loaded) refl,
        exit_end w r (suc n) a d marked
            (same-Models env _ (store w a marked) r passed.slots passed.heap m) happened,
      )

  -- On the exit of a goroutine that has data, its AtExit functions run, each once and the last one
  -- first, whether or not they panic, then Close is called on its values as the loop visits them,
  -- and then its data is gone and that of the others as before. The functions and Close methods are
  -- such as keep to their own state and leave a mark there.
  pub reset_at_exit-Exited :
      (w : World K H) (gp : Pointer) (d : GlsData K)
      → IsValid env w
      → 0 < gp
      → view env w gp ≡ some d
      → Returns (reset_at_exit env (some (home env gp)) gp w) (Exited w gp d)
  unfolding view
  reset_at_exit-Exited w gp d valid positive has = elim (Option-cases (address env w gp)) [
    | inl absent ↦ ground (arith, absent, has)
    | inr (a, there) ↦
        let same : load w a ≡ d = ground (arith, there, has) in
        rw same at (exit_at w gp a valid positive there)
  ]
