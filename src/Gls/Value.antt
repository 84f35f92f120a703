-- ===== src/Gls/Value.antt =====
-- gls/value.go: a value that is closed once. Closers act on a state of their own; a type assertion
-- tells which values are closers.
use modern_go.Base.{
  ℕ, zero, suc, ◌≡◌, refl, List, [], ◌∷◌, Option, none, some, Option-cases, inl, inr,
}

pub record DataImpl {ℓ} (V C : Type ℓ) : Type ℓ where
  pub value : V
  pub closer : Option C

module _ {ℓ} {V C S E : Type ℓ} (as_closer : V → Option C)
    (close_method : C → S → S × Option E) where
  pub make_data : V → DataImpl V C
  make_data v = record { value = v; closer = as_closer v }

  pub value_of : DataImpl V C → V
  value_of d = d.value

  -- The value, the closers' state and the error.
  pub close : DataImpl V C → S → DataImpl V C × S × Option E
  close d s = elim d.closer [
    | none ↦ (d, s, none)
    | some c ↦ let (s', err) = close_method c s in (record d { closer = none }, s', err)
  ]

  -- As many calls of Close, with their errors.
  unfoldable pub closes : ℕ → DataImpl V C → S → DataImpl V C × S × List (Option E)
  closes zero d s = (d, s, [])
  closes (suc n) d s =
      let (d', s', err) = close d s in
      let (last, s'', errs) = closes n d' s' in (last, s'', err ∷ errs)

  abbrev pub no_errors : ℕ → List (Option E)
  no_errors zero = []
  no_errors (suc n) = none ∷ no_errors n

  closes-closed :
      (n : ℕ) (v : V) (s : S)
      → closes n (record { value = v; closer = none }) s
        ≡ (record { value = v; closer = none }, s, no_errors n)
  unfolding closes close
  closes-closed zero v s = refl
  closes-closed (suc n) v s = rw (closes-closed n v s)

  -- What any number of calls of Close, one at least, do to a value that MakeData made: the closer's
  -- own Close runs once, its error is that of the first call, the later ones return none, and Value
  -- is as before.
  pub closes-make_data :
      (n : ℕ) (v : V) (s : S)
      → closes (suc n) (make_data v) s ≡ elim (as_closer v) [
        | none ↦ (record { value = v; closer = none }, s, none ∷ no_errors n)
        | some c ↦ (
          record { value = v; closer = none },
          (close_method c s).0,
          (close_method c s).1 ∷ no_errors n,
        )
      ]
  unfolding closes close make_data
  closes-make_data n v s = elim (Option-cases (as_closer v)) [
    | inl plain ↦ rw (plain, make_data, plain, closes-closed n v s)
    | inr (c, closer) ↦ rw (closer, closes-closed n v (close_method c s).0)
  ]
