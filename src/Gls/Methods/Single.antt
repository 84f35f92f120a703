-- ===== src/Gls/Methods/Single.antt =====
-- gls/gls.go: the calls of the methods, and the same on a function from goroutines to their data.
use modern_go.Base.Dict
use modern_go.Base.Dict.{Dict}
use modern_go.Base.Outcome.{Outcome, ok, ◌>>=◌, Returns}
use modern_go.Base.{
  ℕ, zero, suc, ◌<◌, ◌≡◌, refl, ◌∙◌, arith, [], ◌∷◌, ◌++◌, Option, none, some, Bool, true, false,
  if◌then◌else◌, Option-cases, inl, inr, get_elem?-inside,
}
use modern_go.Gls.{
  Pointer, GlsData, Env, World, empty_data, load, find_slot, new_gls_data, fetch_data_map,
}
use modern_go.Gls.Store.{
  home, address, view, IsValid, Models, update, same-Models, new-place, new-Models,
}
use modern_go.Gls.Methods.{get, set, del, at_exit, reset_gls, unload, is_gls_enabled}

-- A call of a method in a goroutine, and what it answers.
pub data Call (K : Type 0) : Type 0 where
  set_call : K → ℕ → Call K
  get_call del_call : K → Call K
  at_exit_call : ℕ → Call K
  enabled_call reset_call unload_call : Call K

pub data Reply : Type 0 where
  done : Reply
  value : Option ℕ → Reply
  flag : Bool → Reply

-- What the methods rely on: the goroutine can be hacked, and a Close method leaves the store alone.
pub record IsTame {K H : Type 0} (env : Env K H) : Type 0 where
  pub hacks : (gp : Pointer) (h : H) → (env.hack gp h).0 ≡ true
  pub slots_kept : (d : ℕ) (w : World K H) → (env.close d w).0.global_slots ≡ w.global_slots
  pub heap_kept : (d : ℕ) (w : World K H) → (env.close d w).0.heap ≡ w.heap

module _ {K H : Type 0} (env : Env K H) where
  unfoldable pub run : Pointer → Call K → World K H → Outcome (Reply × World K H)
  run gp (set_call k v) w = do w' ← set env gp k v w; ok (done, w')
  run gp (get_call k) w = do (v, w') ← get env gp k w; ok (value v, w')
  run gp (del_call k) w = do w' ← del env gp k w; ok (done, w')
  run gp (at_exit_call f) w = do w' ← at_exit env gp f w; ok (done, w')
  run gp enabled_call w = do b ← is_gls_enabled env gp w; ok (flag b, w)
  run gp reset_call w = do w' ← reset_gls env gp w; ok (done, w')
  run gp unload_call w = do w' ← unload env gp w; ok (done, w')

  -- The data that a writer finds or makes.
  abbrev pub present_data : Option (GlsData K) → GlsData K
  present_data none = empty_data
  present_data (some d) = d

  -- The same call on a function from goroutines to their data.
  unfoldable pub spec :
      (Pointer → Option (GlsData K)) → Pointer → Call K → Reply × (Pointer → Option (GlsData K))
  spec f gp (set_call k v) =
      let d = present_data (f gp) in
      (done, update env f gp (some (record d { data_map = Dict.insert env.equal k v d.data_map })))
  spec f gp (get_call k) =
      (value (elim (f gp) [ none ↦ none | some d ↦ Dict.lookup env.equal k d.data_map ]), f)
  spec f gp (del_call k) = elim (f gp) [
    | none ↦ (done, f)
    | some d ↦
        (done, update env f gp (some (record d { data_map = Dict.delete env.equal k d.data_map })))
  ]
  spec f gp (at_exit_call g) =
      let d = present_data (f gp) in
      (done, update env f gp (some (record d { at_exit_funcs = d.at_exit_funcs ++ g ∷ [] })))
  spec f gp enabled_call = (flag (elim (f gp) [ none ↦ false | some d ↦ true ]), f)
  spec f gp reset_call = elim (f gp) [
    | none ↦ (done, f)
    | some d ↦ (done, if d.done then f else update env f gp (some (record d { data_map = [] })))
  ]
  spec f gp unload_call = elim (f gp) [
    | none ↦ (done, f)
    | some d ↦ (done, if d.done then f else update env f gp none)
  ]

  pub record Refines (f : Pointer → Option (GlsData K)) (gp : Pointer) (c : Call K)
      (r : Reply × World K H) : Type 0 where
    pub reply : r.0 ≡ (spec f gp c).0
    pub state : Models env (spec f gp c).1 r.1

  pub find_slot-home :
      (w : World K H) (gp : Pointer)
      → IsValid env w
      → 0 < gp
      → find_slot env w gp ≡ ok (some (home env gp))
  unfolding find_slot
  find_slot-home w zero valid positive = absurd (omega arith)
  find_slot-home w (suc n) valid positive =
      let (s, there) =
        get_elem?-inside w.global_slots (home env (suc n)) (omega (arith, valid.width)) in
      rw (find_slot, there)

  module _ (w : World K H) (gp : Pointer) (valid : IsValid env w) (positive : 0 < gp) where
    pub fetched : fetch_data_map env gp true w ≡ ok (address env w gp, w)
    unfolding fetch_data_map
    fetched = elim (Option-cases (address env w gp)) [
      | inl absent ↦ rw (fetch_data_map, find_slot-home w gp valid positive, ◌>>=◌, absent)
      | inr (a, there) ↦ rw (fetch_data_map, find_slot-home w gp valid positive, ◌>>=◌, there)
    ]

    -- A writer finds data, and the others lose none.
    pub fetched_writer :
        IsTame env
        → Returns (fetch_data_map env gp false w) (λ r.
          (a : ℕ) × (r.0 ≡ some a)
          × (address env r.1 gp ≡ some a)
          × Models env (update env (view env w) gp (some (present_data (view env w gp)))) r.1)
    unfolding fetch_data_map view
    fetched_writer tame = elim (Option-cases (address env w gp)) [
      | inl absent ↦
          let (dm, made) = new_gls_data w (home env gp) gp in
          let empty : view env w gp ≡ none = rw (view, absent) in
          (
            (some dm, record made { host = (env.hack gp made.host).1 }),
            rw (fetch_data_map, find_slot-home w gp valid positive, ◌>>=◌, absent, tame.hacks),
            (
              dm,
              refl,
              new-place env w gp valid _,
              rw empty (same-Models env _ made _ refl refl (new-Models env w gp valid absent)),
            ),
          )
      | inr (a, there) ↦ (
        (some a, w),
        rw (fetch_data_map, find_slot-home w gp valid positive, ◌>>=◌, there),
        (a, refl, there, record { valid = valid; reads = λ q. ground (arith, there) }),
      )
    ]

  -- Two changes of the data of one goroutine are one.
  pub rewritten-Models :
      (f : Pointer → Option (GlsData K)) (gp : Pointer) (d : GlsData K) (e : Option (GlsData K))
      (w w' : World K H)
      → Models env (update env f gp (some d)) w
      → Models env (update env (view env w) gp e) w'
      → Models env (update env f gp e) w'
  rewritten-Models f gp d e w w' first second = record {
    valid = second.valid;
    reads = λ q. second.reads q ∙ ground (arith, first.reads q);
  }

  -- What a writer finds where the data lies.
  pub load-present :
      (f : Pointer → Option (GlsData K)) (gp : Pointer) (d : GlsData K) (a : ℕ) (w : World K H)
      → Models env (update env f gp (some d)) w
      → address env w gp ≡ some a
      → load w a ≡ d
  unfolding view
  load-present f gp d a w m there = ground (arith, there, m.reads gp)
