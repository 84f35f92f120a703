-- ===== src/Carray/Examples.antt =====
-- Runs of the methods on one item of the array of container/carray, and their theorems at concrete
-- arrays.
use modern_go.Base.Int.{negsuc}
use modern_go.Base.{ℕ, ◌≡◌, refl, [], ◌∷◌, some, true}
use modern_go.Carray.{Array, set, out_of_array_range}

abbrev sample : Array ℕ
sample = record { safe = true; array = 1 ∷ 2 ∷ 3 ∷ 4 ∷ [] }

-- An error names the index and the length, and nothing is written.
set_outside : set sample (negsuc 0) 9 ≡ (some (out_of_array_range (negsuc 0) 4), sample)
unfolding set
set_outside = refl
