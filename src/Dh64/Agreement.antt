-- ===== src/Dh64/Agreement.antt =====
-- Keys and secrets of crypto/dh64/dh64.go: what `powmodp` answers, and that two sides agree.
use native.Mathlib.Nat.{pow-suc, mul_comm}
use modern_go.Base.{
  ℕ, zero, suc, ◌+◌, ◌*◌, ◌%◌, ◌^◌, ◌<◌, ◌≡◌, ◌≢◌, refl, sym, ◌∙◌, ap, arith, ◌==◌, if◌then◌else◌,
}
use modern_go.Base.Arith.{pow-mul, mod-pow-mod, le-bit_or, bit_or-lt}
use modern_go.Base.Outcome.{Outcome, ok, panic, zero_public_key, zero_private_key, ◌>>=◌, Returns}
use modern_go.Dh64.{
  u64_mod, u32_mod, p, g, pow_from, powmodp, public_key, secret, private_key_of, key_pair,
}
use modern_go.Dh64.PowMod.{pow_mod_p-IsPower}

-- The modular power as the mathematics has it, with the two keys that are refused.
pub power_or_panic : ℕ → ℕ → Outcome ℕ
power_or_panic a b =
    if a == 0
    then panic zero_public_key
    else if b == 0
    then panic zero_private_key
    else ok (a ^ b % p)

pow_from_lem : (a b : ℕ) → a < p → 0 < b → b < u64_mod → pow_from a b ≡ ok (a ^ b % p)
unfolding pow_from
pow_from_lem a b ha pos hb =
    let (t, run, v) = pow_mod_p-IsPower 64 a b (omega arith) pos hb in
    rw (run, pow_from) (ap ok (omega (arith, v.residue, v.reduced ha)))

-- `powmodp` is the modular power, and panics on a zero key of either kind; the one word that it
-- does not reduce is p itself.
pub powmodp-power_or_panic :
    (a b : ℕ) → a < u64_mod → b < u64_mod → a ≢ p → powmodp a b ≡ power_or_panic a b
unfolding powmodp power_or_panic
powmodp-power_or_panic a b ha hb other =
    ground (arith, pow_from_lem a b, pow_from_lem (a % p) b, mod-pow-mod a b p)

five_cancels : (x : ℕ) → g * x % p ≡ 0 → x % p ≡ 0
five_cancels x h = omega arith

power-ne-zero : (n : ℕ) → g ^ n % p ≢ 0
power-ne-zero zero h = absurd (omega arith)
power-ne-zero (suc n) h =
    power-ne-zero n (five_cancels (g ^ n) (ap (λ t. t % p) (mul_comm g _ ∙ sym (pow-suc g n)) ∙ h))

-- What a side publishes for a private key.
public_key_lem : (a : ℕ) → 0 < a → a < u64_mod → public_key a ≡ ok (g ^ a % p)
unfolding public_key power_or_panic
public_key_lem a pos ha = ground (arith, powmodp-power_or_panic g a (omega arith) ha (omega arith))

secret_lem : (a b : ℕ) → 0 < a → a < u64_mod → secret a (g ^ b % p) ≡ ok (g ^ (b * a) % p)
unfolding secret power_or_panic
secret_lem a b pos ha = ground (
  arith,
  powmodp-power_or_panic (g ^ b % p) a (omega arith) ha (omega arith),
  power-ne-zero b,
  mod-pow-mod (g ^ b) a p,
  pow-mul g b a,
)

-- What two sides with private keys `a` and `b` compute of one another's public key.
pub record Agreed (a b s : ℕ) : Type 0 where
  pub left : (public_key b >>= secret a) ≡ ok s
  pub right : (public_key a >>= secret b) ≡ ok s
  pub value : s ≡ g ^ (a * b) % p

-- Both sides come to the same secret, the power of the generator to the product of the private
-- keys, whatever two non-zero words they chose.
pub secret-Agreed : (a b : ℕ) → 0 < a → a < u64_mod → 0 < b → b < u64_mod → (s : ℕ) × Agreed a b s
secret-Agreed a b pos_a ha pos_b hb = (
  g ^ (a * b) % p,
  record {
    left = rw (public_key_lem b pos_b hb, secret_lem a b pos_a ha, mul_comm b a);
    right = rw (public_key_lem a pos_a ha, secret_lem b a pos_b hb);
    value = refl;
  },
)

-- A pair as `KeyPair` returns it, in range and usable on both sides.
pub record IsKeyPair (pair : ℕ × ℕ) : Type 0 where
  pub usable : 0 < pair.0
  pub word : pair.0 < u64_mod
  pub public_is_power : pair.1 ≡ g ^ pair.0 % p
  pub public_usable : pair.1 ≢ 0

private_key_of_lem :
    (r₁ r₂ : ℕ)
    → r₁ < u32_mod
    → r₂ < u32_mod
    → (0 < private_key_of r₁ r₂) × (private_key_of r₁ r₂ < u64_mod)
unfolding private_key_of
private_key_of_lem r₁ r₂ h₁ h₂ =
    let hi : ℕ = r₁ * 2 ^ 32 % u64_mod in
    let lo : ℕ = (r₂ + 1) % u64_mod in
    (omega (arith, le-bit_or hi lo), bit_or-lt 64 hi lo (omega arith) (omega arith))

-- Whatever two words the random source yields, `KeyPair` does not panic, its private key is not
-- zero, and its public key is the power that belongs to it and is not zero either.
pub key_pair-IsKeyPair :
    (r₁ r₂ : ℕ) → r₁ < u32_mod → r₂ < u32_mod → Returns (key_pair r₁ r₂) IsKeyPair
unfolding key_pair
key_pair-IsKeyPair r₁ r₂ h₁ h₂ =
    let k = private_key_of r₁ r₂ in
    let (pos, word) = private_key_of_lem r₁ r₂ h₁ h₂ in
    (
      (k, g ^ k % p),
      rw (public_key_lem k pos word),
      record { usable = pos; word = word; public_is_power = refl; public_usable = power-ne-zero k },
    )
