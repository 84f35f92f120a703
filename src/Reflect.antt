-- ===== src/Reflect.antt =====
-- gls/g/reflect.go: finding a runtime type by its string in the tables of the modules. A string is
-- its bytes. What package reflect knows of a type is an argument; a module's table is the list of
-- its types, in place of offsets into a section.
pub mod Search
pub mod Found
mod Examples
use modern_go.Base.Outcome.{Outcome, ok, panic, diverges, index_out_of_range, ◌>>=◌}
use modern_go.Base.{
  ℕ, zero, suc, ◌+◌, ◌-◌, ◌/◌, List, [], ◌∷◌, Option, none, some, Bool, true, false, not, ◌&&◌,
  ◌||◌, ◌==◌, ltb, if◌then◌else◌, length, get_elem?,
}

abbrev pub Bytes : Type 0
Bytes = List ℕ

-- `a <= b` and `a == b` on strings
pub str_le : Bytes → Bytes → Bool
str_le [] b = true
str_le (x ∷ a) [] = false
str_le (x ∷ a) (y ∷ b) = ltb x y || (x == y && str_le a b)

pub str_eq : Bytes → Bytes → Bool
str_eq [] [] = true
str_eq [] (y ∷ b) = false
str_eq (x ∷ a) [] = false
str_eq (x ∷ a) (y ∷ b) = x == y && str_eq a b

-- String, Kind() == reflect.Ptr, and Elem.
pub record Runtime (T : Type 0) : Type 0 where
  pub string : T → Bytes
  pub is_ptr : T → Bool
  pub elem : T → T

-- The search target: the string with a `*` in front.
pub target : Bytes → Bytes
target [] = 42 ∷ []
target (c ∷ str) = if not (c == 42) then 42 ∷ c ∷ str else c ∷ str

module _ {T : Type 0} (rt : Runtime T) where
  -- The loop `for i < j`, with a bound on its rounds.
  pub search_loop : ℕ → List T → Bytes → ℕ → ℕ → Outcome ℕ
  search_loop zero offs s i j = if ltb i j then diverges else ok i
  search_loop (suc fuel) offs s i j =
      let h = i + (j - i) / 2 in
      let right = search_loop fuel offs s (h + 1) j in
      let left = search_loop fuel offs s i h in
      if ltb i j
      then elim (get_elem? offs h) [
        | none ↦ panic index_out_of_range
        | some typ ↦ if not (str_le s (rt.string typ)) then right else left
      ]
      else ok i

  -- Every round makes the span from `i` to `j` shorter, so its length is enough rounds.
  pub binary_search : List T → Bytes → Outcome ℕ
  binary_search offs s = search_loop (length offs) offs s 0 (length offs)

  -- What the entry at the index that was found gives.
  pub entry : Bytes → Option T → Option T
  entry str none = none
  entry str (some typ) =
      if rt.is_ptr typ
      then (if str_eq (rt.string typ) str
          then some typ
          else if str_eq (rt.string (rt.elem typ)) str
          then some (rt.elem typ)
          else none)
      else none

  pub type_loop : Bytes → List (List T) → Outcome (Option T)
  type_loop str [] = ok none
  type_loop str (offs ∷ rest) = do
    i ← binary_search offs (target str)
    elim (entry str (get_elem? offs i)) [ some typ ↦ ok (some typ) | none ↦ type_loop str rest ]

  pub type_by_string : Bytes → List (List T) → Outcome (Option T)
  type_by_string str offset = type_loop str offset
