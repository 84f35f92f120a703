-- ===== src/Cmap/Interleaved/Examples.antt =====
-- GetAll, Keys and Count of the sharded map beside calls that come before and after the read of
-- their key's shard.
use mathlib.Core.List.Permᴰ
use mathlib.Core.List.{reverse}
use modern_go.Base.Dict
use modern_go.Base.Outcome.{ok, Returns}
use modern_go.Base.{ℕ, suc, ◌≤◌, ◌≡◌, refl, List, [], ◌∷◌, none, replicate, take, ℕ_discrete}
use modern_go.Cmap.{RangeOrder, ConcurrentMap, count, new}
use modern_go.Cmap.KeyHash.{uint32_key}
use modern_go.Cmap.Shards.{home, Models, new-Models}
use modern_go.Cmap.Single.{Call, set_call, remove_call, get_call, spec_all}
use modern_go.Cmap.Interleaved.{flat, get_all_among, keys_among, count_among}
use modern_go.Cmap.Interleaved.Seen.{get_all_among-Sees, keys_among-Sees}
use modern_go.Cmap.Interleaved.Counted.{OnlyAdds, count_among-between}

abbrev backwards : RangeOrder ℕ ℕ
backwards = record { visit = λ i m. reverse m; visits_all = λ i m. Permᴰ.symm (Permᴰ.reverse m) }

abbrev empty : ConcurrentMap ℕ ℕ
empty = new

-- The key 33 is gone before its shard is read, and 32 comes after the read of its shard.
abbrev calls : List (List (Call ℕ ℕ))
calls =
    (set_call 33 5 ∷ set_call 1 7 ∷ []) ∷ (remove_call 33 ∷ set_call 32 9 ∷ []) ∷ replicate 30 []

get_all_among-Sees_example : Returns (get_all_among backwards empty calls) (λ r.
    ((q : ℕ)
      → Dict.lookup ℕ_discrete q r.0
        ≡ (spec_all (λ _. none) (flat (take (suc (home q)) calls))).1 q)
    × Models (spec_all (λ _. none) (flat calls)).1 r.1)
get_all_among-Sees_example = get_all_among-Sees backwards calls (λ _. none) empty refl new-Models

keys_among-Sees_example : Returns (keys_among backwards empty calls) (λ r.
    ((q : ℕ)
      → Dict.occurs ℕ_discrete q r.0
        ≡ Dict.present ((spec_all (λ _. none) (flat (take (suc (home q)) calls))).1 q))
    × Models (spec_all (λ _. none) (flat calls)).1 r.1)
keys_among-Sees_example = keys_among-Sees backwards calls (λ _. none) empty refl new-Models

abbrev additions : List (List (Call ℕ ℕ))
additions = (set_call 33 5 ∷ get_call 1 ∷ []) ∷ (set_call 32 9 ∷ []) ∷ replicate 30 []

additions-OnlyAdds : OnlyAdds (flat additions)
unfolding flat
additions-OnlyAdds = (refl, (refl, (refl, tt)))

count_among-between_example : Returns (count_among 0 empty 0 additions) (λ r.
    (before after : ℕ) × (count empty ≡ ok before)
    × (count r.1 ≡ ok after)
    × (before ≤ r.0)
    × (r.0 ≤ after))
count_among-between_example =
    count_among-between additions empty refl new-Models.valid additions-OnlyAdds
