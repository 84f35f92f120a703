-- ===== src/Gls.antt =====
-- gls/gls_slot.go: the data of the goroutines, sharded by goroutine id, and its release. A `*g` is
-- a number and 0 is nil. The slots map a goroutine to the place of its `glsData` in a heap, since a
-- method still holds that pointer when the slot has dropped it. The runtime, the hook into a
-- goroutine's exit and the code of the clients (AtExit functions and Close methods) are arguments;
-- they may change everything, and the Boolean tells whether they panicked. The locks of the slots
-- leave no trace in a run of one method after another.
pub mod Store
pub mod Methods
pub mod Value
pub mod AtExit
pub mod Lifecycle
mod Examples
use modern_go.Base.Dict
use modern_go.Base.Dict.{Dict}
use modern_go.Base.Outcome.{Outcome, ok, panic, index_out_of_range, ◌>>=◌}
use modern_go.Base.{
  ℕ, zero, suc, ◌%◌, List, [], ◌∷◌, ◌++◌, Option, none, some, Bool, true, false, not, ◌&&◌, ◌||◌,
  ◌==◌, if◌then◌else◌, length, get_elem?, get_or, set as set_at, replicate, ℕ_discrete,
}

abbrev pub Pointer : Type 0
Pointer = ℕ

abbrev pub shards_count : ℕ
shards_count = 31

-- The data of one goroutine: its values by key, and its exit functions in the order of AtExit.
pub record GlsData (K : Type 0) : Type 0 where
  pub data_map : Dict K ℕ
  pub at_exit_funcs : List ℕ
  pub done : Bool

-- `globalSlots`, the heap of `glsData`, and all else that the program has.
pub record World (K H : Type 0) : Type 0 where
  pub global_slots : List (Dict Pointer ℕ)
  pub heap : List (GlsData K)
  pub host : H

pub record Env (K H : Type 0) : Type 0 where
  pub equal : Discrete K
  -- routineGoId
  pub goid : Pointer → ℕ
  -- routineHack and routineUnhack
  pub hack : Pointer → H → Bool × H
  pub unhack : Pointer → H → H
  -- How a loop over the values of a goroutine runs.
  pub visit : Dict K ℕ → Dict K ℕ
  pub call : ℕ → World K H → World K H × Bool
  pub close : ℕ → World K H → World K H × Bool

abbrev pub empty_data : {K : Type 0} → GlsData K
empty_data = record { data_map = []; at_exit_funcs = []; done = false }

module _ {K H : Type 0} where
  -- The state that `init` makes.
  pub new_world : H → World K H
  new_world host = record { global_slots = replicate shards_count []; heap = []; host = host }

  abbrev pub load : World K H → ℕ → GlsData K
  load w dm = get_or w.heap dm empty_data

  abbrev pub store : World K H → ℕ → GlsData K → World K H
  store w dm d = record w { heap = set_at w.heap dm d }

  abbrev pub slot : World K H → ℕ → Dict Pointer ℕ
  slot w se = get_or w.global_slots se []

  pub get_gls_data : World K H → ℕ → Pointer → Option ℕ
  get_gls_data w se gp = Dict.lookup ℕ_discrete gp (slot w se)

  pub new_gls_data : World K H → ℕ → Pointer → ℕ × World K H
  new_gls_data w se gp =
      let dm = length w.heap in
      (
        dm,
        record w {
          global_slots = set_at w.global_slots se (Dict.insert ℕ_discrete gp dm (slot w se));
          heap = w.heap ++ empty_data ∷ [];
        },
      )

  pub del_gls_data : World K H → ℕ → Pointer → World K H
  del_gls_data w se gp = record w {
    global_slots = set_at w.global_slots se (Dict.delete ℕ_discrete gp (slot w se));
  }

module _ {K H : Type 0} (env : Env K H) where
  -- recover() drops the panic.
  pub safe_run : ℕ → World K H → World K H
  safe_run f w = (env.call f w).0

  pub safe_close : ℕ → World K H → World K H
  safe_close d w = (env.close d w).0

  pub close_all : Dict K ℕ → World K H → World K H
  close_all [] w = w
  close_all ((k, d) ∷ es) w = close_all es (safe_close d w)

  -- The index of a goroutine's slot, and none for nil.
  pub find_slot : World K H → Pointer → Outcome (Option ℕ)
  find_slot w zero = ok none
  find_slot w gp =
      let shard_index = env.goid gp % shards_count in
      elim (get_elem? w.global_slots shard_index) [
        | none ↦ panic index_out_of_range
        | some _ ↦ ok (some shard_index)
      ]

  -- Whether the data had been reset, and the world.
  pub reset : ℕ → Pointer → Bool → World K H → Bool × World K H
  reset se gp complete w = elim (get_gls_data w se gp) [
    | none ↦ (false, w)
    | some dm ↦
        if (load w dm).done
        then (true, w)
        else let values = (load w dm).data_map in
          let w' =
            if complete
            then del_gls_data w se gp
            else store w dm (record (load w dm) { data_map = [] }) in
          (false, close_all (env.visit values) w')
  ]

  -- `funcs[n - 1]` down to `funcs[0]`
  pub run_down : ℕ → List ℕ → World K H → Outcome (World K H)
  run_down zero funcs w = ok w
  run_down (suc i) funcs w = elim (get_elem? funcs i) [
    | none ↦ panic index_out_of_range
    | some f ↦ run_down i funcs (safe_run f w)
  ]

  pub reset_at_exit : Option ℕ → Pointer → World K H → Outcome (World K H)
  reset_at_exit none gp w = ok w
  reset_at_exit (some se) zero w = ok w
  reset_at_exit (some se) gp w = elim (get_gls_data w se gp) [
    | none ↦ ok w
    | some dm ↦
        let funcs = (load w dm).at_exit_funcs in
        let marked = store w dm (record (load w dm) { at_exit_funcs = []; done = true }) in
        do
          ran ← run_down (length funcs) funcs marked
          let left = del_gls_data ran se gp
          ok (close_all (env.visit (load left dm).data_map) left)
  ]

  -- The goroutine's data, none for nil; it is made for a writer, and given up again if the
  -- goroutine cannot be hacked.
  pub fetch_data_map : Pointer → Bool → World K H → Outcome (Option ℕ × World K H)
  fetch_data_map gp readonly w = do
    slot ← find_slot w gp
    elim slot [
      | none ↦ ok (none, w)
      | some se ↦ elim (get_gls_data w se gp) [
        | some dm ↦ ok (some dm, w)
        | none ↦
            if readonly
            then ok (none, w)
            else let (dm, made) = new_gls_data w se gp in
              let (hacked, host) = env.hack gp made.host in
              let after = record made { host = host } in
              ok (some dm, if hacked then after else del_gls_data after se gp)
      ]
    ]
