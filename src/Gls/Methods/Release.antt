-- ===== src/Gls/Methods/Release.antt =====
-- gls/gls.go: Reset and Unload on a function from goroutines to their data.
use modern_go.Base.Dict
use modern_go.Base.Outcome.{◌>>=◌, Returns}
use modern_go.Base.{ℕ, ◌<◌, ◌≡◌, refl, ◌∙◌, [], ◌∷◌, Option, Option-cases, Bool-cases, inl, inr}
use modern_go.Gls.{
  Pointer, GlsData, Env, World, load, store, del_gls_data, reset, close_all, safe_close,
}
use modern_go.Gls.Store.{
  home, address, view, IsValid, Models, store-Models, same-Models, del-Models,
}
use modern_go.Gls.Methods.{reset_gls, unload}
use modern_go.Gls.Methods.Access.{unchanged, absent-view, there-view}
use modern_go.Gls.Methods.Single.{
  reset_call, unload_call, done, IsTame, run, spec, Refines, find_slot-home,
}

module _ {K H : Type 0} (env : Env K H) (tame : IsTame env) where
  -- Closing values leaves the store alone.
  close_all-slots :
      (es : Dict.Dict K ℕ) (w : World K H)
      → ((close_all env es w).global_slots ≡ w.global_slots) × ((close_all env es w).heap ≡ w.heap)
  unfolding close_all safe_close
  close_all-slots [] w = (refl, refl)
  close_all-slots ((k, d) ∷ es) w =
      let (slots, heap) = close_all-slots es (env.close d w).0 in
      (slots ∙ tame.slots_kept d w, heap ∙ tame.heap_kept d w)

  close_all-Models :
      (f : Pointer → Option (GlsData K)) (es : Dict.Dict K ℕ) (w : World K H)
      → Models env f w
      → Models env f (close_all env es w)
  close_all-Models f es w m =
      let (slots, heap) = close_all-slots es w in same-Models env f w _ slots heap m

  module _ (w : World K H) (gp : Pointer) (valid : IsValid env w) (positive : 0 < gp) where
    pub reset-Refines : Returns (run env gp reset_call w) (Refines env (view env w) gp reset_call)
    unfolding run spec reset_gls reset
    reset-Refines = elim (Option-cases (address env w gp)) [
      | inl absent ↦ (
        (done, w),
        rw (run, reset_gls, find_slot-home env w gp valid positive, ◌>>=◌, reset, absent),
        record {
          reply = rw (spec, absent-view env tame w gp valid positive absent) refl;
          state =
              rw (spec, absent-view env tame w gp valid positive absent)
                (unchanged env tame w gp valid positive);
        },
      )
      | inr (a, there) ↦ elim (Bool-cases (load w a).done) [
        | inl is_done ↦ (
          (done, w),
          rw (run, reset_gls, find_slot-home env w gp valid positive, ◌>>=◌, reset, there, is_done),
          record {
            reply = rw (spec, there-view env tame w gp valid positive a there) refl;
            state =
                rw (spec, there-view env tame w gp valid positive a there, is_done)
                  (unchanged env tame w gp valid positive);
          },
        )
        | inr not_done ↦
            let d = record (load w a) { data_map = [] } in
            (
              (done, close_all env (env.visit (load w a).data_map) (store w a d)),
              rw (
                run,
                reset_gls,
                find_slot-home env w gp valid positive,
                ◌>>=◌,
                reset,
                there,
                not_done,
              ),
              record {
                reply = rw (spec, there-view env tame w gp valid positive a there) refl;
                state =
                    rw (spec, there-view env tame w gp valid positive a there, not_done)
                      (rw not_done at (
                        close_all-Models _ (env.visit (load w a).data_map) _
                          (store-Models env w gp a d valid there)));
              },
            )
      ]
    ]

    pub unload-Refines :
        Returns (run env gp unload_call w) (Refines env (view env w) gp unload_call)
    unfolding run spec unload reset
    unload-Refines = elim (Option-cases (address env w gp)) [
      | inl absent ↦ (
        (done, record w { host = env.unhack gp w.host }),
        rw (run, unload, find_slot-home env w gp valid positive, ◌>>=◌, reset, absent),
        record {
          reply = rw (spec, absent-view env tame w gp valid positive absent) refl;
          state =
              rw (spec, absent-view env tame w gp valid positive absent)
                (same-Models env _ w _ refl refl (unchanged env tame w gp valid positive));
        },
      )
      | inr (a, there) ↦ elim (Bool-cases (load w a).done) [
        | inl is_done ↦ (
          (done, w),
          rw (run, unload, find_slot-home env w gp valid positive, ◌>>=◌, reset, there, is_done),
          record {
            reply = rw (spec, there-view env tame w gp valid positive a there) refl;
            state =
                rw (spec, there-view env tame w gp valid positive a there, is_done)
                  (unchanged env tame w gp valid positive);
          },
        )
        | inr not_done ↦
            let w' =
              close_all env (env.visit (load w a).data_map) (del_gls_data w (home env gp) gp) in
            (
              (done, record w' { host = env.unhack gp w'.host }),
              rw (
                run,
                unload,
                find_slot-home env w gp valid positive,
                ◌>>=◌,
                reset,
                there,
                not_done,
              ),
              record {
                reply = rw (spec, there-view env tame w gp valid positive a there) refl;
                state =
                    rw (spec, there-view env tame w gp valid positive a there, not_done)
                      (same-Models env _ w' _ refl refl (
                        close_all-Models _ (env.visit (load w a).data_map) _
                          (del-Models env w gp valid)));
              },
            )
      ]
    ]
