-- ===== src/Dh64/Examples.antt =====
-- Runs of crypto/dh64/dh64.go, and its theorems at concrete keys.
use modern_go.Base.{ℕ, ◌≡◌, refl, arith}
use modern_go.Base.Outcome.{ok, ◌>>=◌, Returns}
use modern_go.Dh64.{
  p, mul_mod_p, square_and_multiply, pow_mod_p, pow_from, powmodp, public_key, secret,
  private_key_of, key_pair,
}
use modern_go.Dh64.Agreement.{
  power_or_panic, powmodp-power_or_panic, Agreed, secret-Agreed, IsKeyPair, key_pair-IsKeyPair,
}

program : Unit {0}
unfolding mul_mod_p square_and_multiply pow_mod_p pow_from powmodp public_key secret private_key_of
    key_pair
program = tt

-- 2^63 * 4 wraps twice round the modulus.
mul_wraps : mul_mod_p 0x8000_0000_0000_0000 4 ≡ 118
unfolding program
mul_wraps = refl

small_public_key : public_key 3 ≡ ok 125
unfolding program
small_public_key = refl

-- The exchange of two small keys.
exchange : (public_key 21 >>= secret 34) ≡ (public_key 34 >>= secret 21)
unfolding program
exchange = refl

-- The word p is not reduced, so the secret for the private key 1 is p itself.
unreduced : secret 1 p ≡ ok p
unfolding program
unreduced = refl

-- The largest second word sets the lowest bit of the first one.
key_pair_carry : private_key_of 1 0xffff_ffff ≡ 0x1_0000_0000
unfolding program
key_pair_carry = refl

powmodp-power_or_panic_example :
    powmodp 0xffff_ffff_ffff_ffff 3 ≡ power_or_panic 0xffff_ffff_ffff_ffff 3
powmodp-power_or_panic_example =
    powmodp-power_or_panic 0xffff_ffff_ffff_ffff 3 (omega arith) (omega arith) (omega arith)

secret-Agreed_example : (s : ℕ) × Agreed 0x1234_5678_9abc 77 s
secret-Agreed_example =
    secret-Agreed 0x1234_5678_9abc 77 (omega arith) (omega arith) (omega arith) (omega arith)

key_pair-IsKeyPair_example : Returns (key_pair 0xdead_beef 0xffff_ffff) IsKeyPair
key_pair-IsKeyPair_example = key_pair-IsKeyPair 0xdead_beef 0xffff_ffff (omega arith) (omega arith)
