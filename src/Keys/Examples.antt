-- ===== src/Keys/Examples.antt =====
-- Keys of crypto/key.go for the draws 0, 1, 2 and so on.
use modern_go.Base.Int.{pos}
use modern_go.Base.Outcome.{panic, bad_argument, Returns}
use modern_go.Base.{ℕ, ◌≡◌, arith, true}
use modern_go.Keys.{generate_key}
use modern_go.Keys.Drawn.{Generated, generate_key-Generated, generate_key-panics}

abbrev counting : ℕ → ℕ
counting k = k

generate_key-Generated_example : Returns (generate_key counting (pos 8) true) (Generated 8 true)
generate_key-Generated_example = generate_key-Generated counting 8 true (λ t. omega arith)

generate_key-panics_example : generate_key counting (pos 2) true ≡ panic bad_argument
generate_key-panics_example = generate_key-panics counting 2 (omega arith) (omega arith)
