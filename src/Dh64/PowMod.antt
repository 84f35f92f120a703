-- ===== src/Dh64/PowMod.antt =====
-- The exponentiation modulo p of crypto/dh64/dh64.go.
use native.Mathlib.Nat.{pow-suc, pow-zero, mul_comm, mod-mod}
use modern_go.Base.{
  ℕ, zero, suc, ◌*◌, ◌/◌, ◌%◌, ◌^◌, ◌≤◌, ◌<◌, ◌≡◌, sym, ◌∙◌, ap, arith, none, some, true,
  Bool-cases, inl, inr, ltb, ◌==◌, ◌≡⟨◌⟩◌, ◌∎, refl,
}
use modern_go.Base.Arith.{pow-add, pow-one, mod-mul-mod}
use modern_go.Dh64.{p, square_and_multiply, pow_mod_p}
use modern_go.Dh64.MulMod.{mul_mod_p_lem}

-- What a call of `pow_mod_p a b` hands back: a residue of the power, in range as `a` is.
pub record IsPower (a b t : ℕ) : Type 0 where
  pub residue : t % p ≡ a ^ b % p
  pub within : t ≤ p
  pub reduced : a < p → t < p

square_lem : (a k t : ℕ) → t % p ≡ a ^ k % p → t * t % p ≡ a ^ (k * 2) % p
square_lem a k t e =
    t * t % p
    ≡⟨ sym (mod-mul-mod t t p) ∙ ap (λ r. r * t % p) e ⟩ a ^ k % p * t % p
    ≡⟨ mod-mul-mod (a ^ k) t p ∙ ap (λ r. r % p) (mul_comm (a ^ k) t) ⟩ t * a ^ k % p
    ≡⟨ sym (mod-mul-mod t (a ^ k) p) ∙ ap (λ r. r * a ^ k % p) e ⟩ a ^ k % p * a ^ k % p
    ≡⟨ mod-mul-mod (a ^ k) (a ^ k) p ∙ ap (λ r. r % p) (sym (pow-double a k)) ⟩ a ^ (k * 2) % p ∎
  where
    pow-double : (a k : ℕ) → a ^ (k * 2) ≡ a ^ k * a ^ k
    pow-double a k = ap (λ n. a ^ n) (omega arith) ∙ pow-add a k k

-- One more factor `a`.
multiply_lem : (a k s : ℕ) → s % p ≡ a ^ k % p → s * a % p ≡ a ^ suc k % p
multiply_lem a k s e =
    sym (mod-mul-mod s a p)
    ∙ ap (λ r. r * a % p) e
    ∙ mod-mul-mod (a ^ k) a p
    ∙ ap (λ r. r % p) (sym (pow-suc a k))

square_and_multiply_lem :
    (a b t : ℕ) → a ≤ p → t ≤ p → t % p ≡ a ^ (b / 2) % p → square_and_multiply a b t ≡ a ^ b % p
unfolding square_and_multiply
square_and_multiply_lem a b t ha ht e = elim (Bool-cases (ltb 0 (b % 2))) [
  | inl odd ↦
      rw (odd, mul_mod_p_lem t t ht, mul_mod_p_lem (t * t % p) a (omega arith))
        (multiply_lem a (b / 2 * 2) (t * t % p) (mod-mod (t * t) p ∙ square)
          ∙ ap (λ k. a ^ k % p) (ground arith))
  | inr even ↦ rw (even, mul_mod_p_lem t t ht) (square ∙ ap (λ k. a ^ k % p) (ground arith))
]
  where
    square : t * t % p ≡ a ^ (b / 2 * 2) % p
    square = square_lem a (b / 2) t e

square_and_multiply-IsPower :
    (a b t : ℕ) → a ≤ p → IsPower a (b / 2) t → IsPower a b (square_and_multiply a b t)
square_and_multiply-IsPower a b t ha v =
    let e = square_and_multiply_lem a b t ha v.within v.residue in
    record { residue = rw e (mod-mod (a ^ b) p); within = omega arith; reduced = λ _. omega arith }

pub pow_mod_p-IsPower :
    (calls a b : ℕ)
    → a ≤ p
    → 0 < b
    → b < 2 ^ calls
    → (t : ℕ) × (pow_mod_p calls a b ≡ some t) × IsPower a b t
unfolding pow_mod_p
pow_mod_p-IsPower zero a b ha pos h = absurd (omega (arith, pow-zero 2))
pow_mod_p-IsPower (suc calls) a b ha pos h = elim (Bool-cases (b == 1)) [
  | inl one ↦ (a, rw one, first one)
  | inr more ↦
      let (t, run, v) =
        pow_mod_p-IsPower calls a (b / 2) ha (ground arith) (omega (arith, pow-suc 2 calls)) in
      (square_and_multiply a b t, rw (more, run), square_and_multiply-IsPower a b t ha v)
]
  where
    first : (b == 1) ≡ true → IsPower a b a
    first one = record {
      residue = ap (λ r. r % p) (sym (pow-one a) ∙ ap (λ k. a ^ k) (ground arith));
      within = ha;
      reduced = λ lt. lt;
    }

-- For `b == 0` no number of nested calls is enough: the recursion never comes to `b == 1`.
pub pow_mod_p-zero : (calls a : ℕ) → pow_mod_p calls a 0 ≡ none
unfolding pow_mod_p
pow_mod_p-zero zero a = refl
pow_mod_p-zero (suc calls) a = rw (pow_mod_p-zero calls a)
