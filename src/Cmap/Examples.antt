-- ===== src/Cmap/Examples.antt =====
-- Runs of the sharded map, and its theorems at a map with two keys in one shard.
use mathlib.Core.List.Permᴰ
use mathlib.Core.List.{reverse}
use mathlib.Core.Option.{or_else}
use modern_go.Base.Dict
use modern_go.Base.Outcome.{ok, ◌>>=◌, Returns}
use modern_go.Base.{ℕ, ◌≡◌, refl, List, [], ◌∷◌, none, some, true, false, ℕ_discrete}
use modern_go.Cmap.{
  RangeOrder, ConcurrentMap, at, has_value, new, get_shard, set, get, set_nx, count, is_empty,
  clear, m_get, m_set, keys, get_all, iter, iter_buffered, remove, get_and_remove, entries_from,
  has, m_get_loop, m_set_loop,
}
use modern_go.Cmap.KeyHash.{uint32_key, string_key, key_hash_str, key_hash_uint32}
use modern_go.Cmap.Shards.{IsValid, view, Models, new-Models}
use modern_go.Cmap.Single.{
  Call, set_call, set_nx_call, get_call, has_call, remove_call, get_and_remove_call, done, value,
  flag, run, run_all, RefinesAll, run_all-RefinesAll,
}
use modern_go.Cmap.Whole.{get_all-view}
use modern_go.Cmap.Bulk.{m_set-Models}

program : Unit {0}
unfolding key_hash_uint32 new get_shard at set get has has_value remove get_and_remove set_nx count
    is_empty clear m_get_loop m_get m_set_loop m_set entries_from keys get_all iter iter_buffered
    run run_all Dict.lookup Dict.insert Dict.delete Dict.insert_all ℕ_discrete
program = tt

-- The loops run from the last entry to the first.
abbrev backwards : RangeOrder ℕ ℕ
backwards = record { visit = λ i m. reverse m; visits_all = λ i m. Permᴰ.symm (Permᴰ.reverse m) }

abbrev empty : ConcurrentMap ℕ ℕ
empty = new

abbrev calls : List (Call ℕ ℕ)
calls =
    set_call 1 10
    ∷ set_call 33 30
    ∷ set_nx_call 1 11
    ∷ get_call 1
    ∷ has_call 2
    ∷ get_and_remove_call 33
    ∷ remove_call 7
    ∷ []

calls_run :
    (run_all empty calls >>= λ r. ok r.0)
    ≡ ok (done ∷ done ∷ flag true ∷ value (some 10) ∷ flag false ∷ value (some 30) ∷ done ∷ [])
unfolding program
calls_run = refl

-- FNV of "a".
hash_a : key_hash_str (b'a' ∷ []) ≡ 0x050c_5d7e
unfolding key_hash_str
hash_a = refl

run_all-RefinesAll_example : Returns (run_all empty calls) (RefinesAll (λ _. none) calls)
run_all-RefinesAll_example = run_all-RefinesAll calls (λ _. none) empty new-Models

-- The keys 1 and 33 share a shard.
abbrev sample_run :
    Returns
      (run_all empty (set_call 1 10 ∷ set_call 33 30 ∷ []))
      (RefinesAll (λ _. none) (set_call 1 10 ∷ set_call 33 30 ∷ []))
sample_run = run_all-RefinesAll (set_call 1 10 ∷ set_call 33 30 ∷ []) (λ _. none) empty new-Models

abbrev sample : ConcurrentMap ℕ ℕ
sample = sample_run.0.1

sample-IsValid : IsValid sample
sample-IsValid = sample_run.2.state.valid

get_all-view_example :
    Dict.IsMap ℕ_discrete (get_all backwards sample)
    × ((q : ℕ) → Dict.lookup ℕ_discrete q (get_all backwards sample) ≡ view sample q)
get_all-view_example = get_all-view backwards sample sample-IsValid

m_set-Models_example :
    Returns
      (m_set backwards sample ((1, 12) ∷ (2, 20) ∷ []))
      (Models (λ q. or_else (Dict.lookup ℕ_discrete q ((1, 12) ∷ (2, 20) ∷ [])) (view sample q)))
unfolding program
m_set-Models_example =
    m_set-Models backwards sample ((1, 12) ∷ (2, 20) ∷ []) (refl, (refl, tt)) sample-IsValid
