-- ===== src/Gls/Methods/Access.antt =====
-- gls/gls.go: the methods that read and write the data do so on a function from goroutines to their
-- data.
use modern_go.Base.Dict
use modern_go.Base.Outcome.{ok, ◌>>=◌, Returns}
use modern_go.Base.{
  ℕ, zero, suc, ◌<◌, ◌≡◌, refl, arith, [], ◌∷◌, ◌++◌, none, some, true, false, Option-cases, inl,
  inr,
}
use modern_go.Gls.{Pointer, GlsData, Env, World, load, store}
use modern_go.Gls.Store.{address, view, IsValid, Models, update, store-Models}
use modern_go.Gls.Methods.{get, set, del, at_exit, is_gls_enabled}
use modern_go.Gls.Methods.Single.{
  set_call, get_call, del_call, at_exit_call, enabled_call, done, value, flag, IsTame, run, spec,
  present_data, Refines, find_slot-home, fetched, fetched_writer, rewritten-Models, load-present,
}

module _ {K H : Type 0} (env : Env K H) (tame : IsTame env) where
  is_gls_enabled_lem :
      (w : World K H) (gp : Pointer)
      → IsValid env w
      → 0 < gp
      → is_gls_enabled env gp w ≡ ok (elim (address env w gp) [ none ↦ false | some a ↦ true ])
  unfolding is_gls_enabled
  is_gls_enabled_lem w zero valid positive = absurd (omega arith)
  is_gls_enabled_lem w (suc n) valid positive = elim (Option-cases (address env w (suc n))) [
    | inl absent ↦ rw (is_gls_enabled, find_slot-home env w (suc n) valid positive, ◌>>=◌, absent)
    | inr (a, there) ↦
        rw (is_gls_enabled, find_slot-home env w (suc n) valid positive, ◌>>=◌, there)
  ]

  module _ (w : World K H) (gp : Pointer) (valid : IsValid env w) (positive : 0 < gp) where
    pub unchanged : Models env (view env w) w
    unchanged = record { valid = valid; reads = λ q. refl }

    -- A writer's change of the data it finds.
    written :
        (change : GlsData K → GlsData K) (a : ℕ) (w' : World K H)
        → address env w' gp ≡ some a
        → Models env (update env (view env w) gp (some (present_data env (view env w gp)))) w'
        → Models env
            (update env (view env w) gp (some (change (present_data env (view env w gp)))))
            (store w' a (change (load w' a)))
    written change a w' there m =
        let d = present_data env (view env w gp) in
        let found = load-present env (view env w) gp d a w' m there in
        rewritten-Models env (view env w) gp d (some (change d)) w' _ m
          (rw found (store-Models env w' gp a (change d) m.valid there))

    pub set-Refines :
        (k : K) (v : ℕ)
        → Returns (run env gp (set_call k v) w) (Refines env (view env w) gp (set_call k v))
    unfolding run spec set
    set-Refines k v =
        let (r, ran, (a, is_a, there, m)) = fetched_writer env w gp valid positive tame in
        (
          _,
          rw (run, set, ran, ◌>>=◌, is_a),
          record {
            reply = refl;
            state =
                written (λ d. record d { data_map = Dict.insert env.equal k v d.data_map }) a r.1
                  there m;
          },
        )

    pub at_exit-Refines :
        (g : ℕ)
        → Returns (run env gp (at_exit_call g) w) (Refines env (view env w) gp (at_exit_call g))
    unfolding run spec at_exit
    at_exit-Refines g =
        let (r, ran, (a, is_a, there, m)) = fetched_writer env w gp valid positive tame in
        (
          _,
          rw (run, at_exit, ran, ◌>>=◌, is_a),
          record {
            reply = refl;
            state =
                written (λ d. record d { at_exit_funcs = d.at_exit_funcs ++ g ∷ [] }) a r.1 there m;
          },
        )

    pub absent-view : address env w gp ≡ none → view env w gp ≡ none
    unfolding view
    absent-view absent = rw (view, absent)

    pub there-view : (a : ℕ) → address env w gp ≡ some a → view env w gp ≡ some (load w a)
    unfolding view
    there-view a there = rw (view, there)

    pub get-Refines :
        (k : K) → Returns (run env gp (get_call k) w) (Refines env (view env w) gp (get_call k))
    unfolding run spec get
    get-Refines k = elim (Option-cases (address env w gp)) [
      | inl absent ↦ (
        (value none, w),
        rw (run, get, fetched env w gp valid positive, ◌>>=◌, absent),
        record { reply = rw (spec, absent-view absent) refl; state = unchanged },
      )
      | inr (a, there) ↦ (
        (value (Dict.lookup env.equal k (load w a).data_map), w),
        rw (run, get, fetched env w gp valid positive, ◌>>=◌, there),
        record { reply = rw (spec, there-view a there) refl; state = unchanged },
      )
    ]

    pub del-Refines :
        (k : K) → Returns (run env gp (del_call k) w) (Refines env (view env w) gp (del_call k))
    unfolding run spec del
    del-Refines k = elim (Option-cases (address env w gp)) [
      | inl absent ↦ (
        (done, w),
        rw (run, del, fetched env w gp valid positive, ◌>>=◌, absent),
        record {
          reply = rw (spec, absent-view absent) refl;
          state = rw (spec, absent-view absent) unchanged;
        },
      )
      | inr (a, there) ↦
          let d = record (load w a) { data_map = Dict.delete env.equal k (load w a).data_map } in
          (
            (done, store w a d),
            rw (run, del, fetched env w gp valid positive, ◌>>=◌, there),
            record {
              reply = rw (spec, there-view a there) refl;
              state = rw (spec, there-view a there) (store-Models env w gp a d valid there);
            },
          )
    ]

    pub enabled-Refines :
        Returns (run env gp enabled_call w) (Refines env (view env w) gp enabled_call)
    unfolding run spec
    enabled-Refines = elim (Option-cases (address env w gp)) [
      | inl absent ↦ (
        (flag false, w),
        rw (run, is_gls_enabled_lem w gp valid positive, absent),
        record { reply = rw (spec, absent-view absent) refl; state = unchanged },
      )
      | inr (a, there) ↦ (
        (flag true, w),
        rw (run, is_gls_enabled_lem w gp valid positive, there),
        record { reply = rw (spec, there-view a there) refl; state = unchanged },
      )
    ]
