-- ===== src/Gls/Methods.antt =====
-- gls/gls.go: the methods, called in the goroutine `gp`.
pub mod Single
pub mod Access
pub mod Release
pub mod Runs
use modern_go.Base.Dict
use modern_go.Base.Outcome.{Outcome, ok, panic, nil_dereference, ◌>>=◌}
use modern_go.Base.{
  ℕ, zero, List, [], ◌∷◌, ◌++◌, Option, none, some, Bool, true, false, if◌then◌else◌,
}
use modern_go.Gls.{Pointer, Env, World, load, store, get_gls_data, find_slot, reset, fetch_data_map}

module _ {K H : Type 0} (env : Env K H) (gp : Pointer) where
  pub get : K → World K H → Outcome (Option ℕ × World K H)
  get key w = do
    (dm, w') ← fetch_data_map env gp true w
    elim dm [
      | none ↦ ok (none, w')
      | some a ↦ ok (Dict.lookup env.equal key (load w' a).data_map, w')
    ]

  -- A write to the data of no goroutine is one through a nil pointer.
  pub set : K → ℕ → World K H → Outcome (World K H)
  set key value w = do
    (dm, w') ← fetch_data_map env gp false w
    elim dm [
      | none ↦ panic nil_dereference
      | some a ↦ ok (
          store w' a (record (load w' a) {
            data_map = Dict.insert env.equal key value (load w' a).data_map;
          }))
    ]

  pub del : K → World K H → Outcome (World K H)
  del key w = do
    (dm, w') ← fetch_data_map env gp true w
    elim dm [
      | none ↦ ok w'
      | some a ↦ ok (
          store w' a
            (record (load w' a) { data_map = Dict.delete env.equal key (load w' a).data_map }))
    ]

  pub id : Pointer
  id = gp

  pub at_exit : ℕ → World K H → Outcome (World K H)
  at_exit f w = do
    (dm, w') ← fetch_data_map env gp false w
    elim dm [
      | none ↦ panic nil_dereference
      | some a ↦
          ok (
            store w' a (record (load w' a) { at_exit_funcs = (load w' a).at_exit_funcs ++ f ∷ [] }))
    ]

  pub reset_gls : World K H → Outcome (World K H)
  reset_gls w = do
    slot ← find_slot env w gp
    elim slot [ none ↦ ok w | some se ↦ ok (reset env se gp false w).1 ]

  pub unload : World K H → Outcome (World K H)
  unload w = do
    slot ← find_slot env w gp
    elim slot [
      | none ↦ ok w
      | some se ↦
          let (already_reset, w') = reset env se gp true w in
          ok (if already_reset then w' else record w' { host = env.unhack gp w'.host })
    ]

module _ {K H : Type 0} (env : Env K H) where
  pub is_gls_enabled : Pointer → World K H → Outcome Bool
  is_gls_enabled zero w = ok false
  is_gls_enabled id w = do
    slot ← find_slot env w id
    elim slot [
      | none ↦ ok false
      | some se ↦ elim (get_gls_data w se id) [ none ↦ ok false | some _ ↦ ok true ]
    ]
