-- ===== src/Reflect/Examples.antt =====
-- A lookup of gls/g/reflect.go: types are numbers, and a type's string is read off it.
use modern_go.Base.Outcome.{Returns}
use modern_go.Base.{ℕ, zero, suc, arith, [], ◌∷◌, true}
use modern_go.Reflect.{Bytes, Runtime, str_le, type_by_string}
use modern_go.Reflect.Search.{IsSorted}
use modern_go.Reflect.Found.{Found, type_by_string-Found}

-- The type 0 is `*g`, and points to every other type, each of them `g`.
abbrev string : ℕ → Bytes
string zero = 42 ∷ 103 ∷ []
string (suc n) = 103 ∷ []

abbrev runtime : Runtime ℕ
runtime = record { string = string; is_ptr = λ t. true; elem = λ t. suc t }

pair-IsSorted : IsSorted runtime (0 ∷ 1 ∷ [])
unfolding str_le
pair-IsSorted zero zero t u le e e' = ground (arith, e, e')
pair-IsSorted zero (suc zero) t u le e e' = ground (arith, e, e')
pair-IsSorted (suc zero) (suc zero) t u le e e' = ground (arith, e, e')
pair-IsSorted (suc zero) zero t u le e e' = absurd (omega arith)
pair-IsSorted (suc (suc i)) j t u le e e' = ground (arith, e)
pair-IsSorted i (suc (suc j)) t u le e e' = ground (arith, e')

type_by_string-Found_example :
    Returns
      (type_by_string runtime (103 ∷ []) ((0 ∷ 1 ∷ []) ∷ []))
      (Found runtime (103 ∷ []) ((0 ∷ 1 ∷ []) ∷ []))
type_by_string-Found_example =
    type_by_string-Found runtime (103 ∷ []) ((0 ∷ 1 ∷ []) ∷ []) (pair-IsSorted, tt)
