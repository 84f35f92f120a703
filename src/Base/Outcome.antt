-- ===== src/Base/Outcome.antt =====
-- How a call of the program ends: with a value, or in a panic that nothing recovers.
use modern_go.Base.{◌≡◌}

-- The panics of the modelled code, by what raises them.
pub data Panic : Type 0 where
  zero_public_key zero_private_key index_out_of_range slice_out_of_range divide_by_zero bad_argument
        nil_dereference not_full_blocks :
      Panic

-- `diverges` is a call that has used up the rounds that the model gives it.
pub data Outcome {ℓ} (A : Type ℓ) : Type ℓ where
  ok : A → Outcome A
  panic : Panic → Outcome A
  diverges : Outcome A

infixl 5 ◌>>=◌
abbrev pub ◌>>=◌ {ℓ κ} : {A : Type ℓ} {B : Type κ} → Outcome A → (A → Outcome B) → Outcome B
ok a >>= f = f a
panic e >>= f = panic e
diverges >>= f = diverges

-- The call returns, with a value that satisfies `P`.
abbrev pub Returns {ℓ κ} : {A : Type ℓ} → Outcome A → (A → Type κ) → Type (ℓ ⊔ κ)
Returns {A} r P = (a : A) × (r ≡ ok a) × P a
