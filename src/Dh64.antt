-- ===== src/Dh64.antt =====
-- crypto/dh64/dh64.go: Diffie-Hellman over the residues modulo the prime p = 2^64 - 59. A uint64 is
-- a number below 2^64, and each operation that can wrap is reduced. The two words that `KeyPair`
-- draws from math/rand are arguments.
pub mod MulMod
pub mod PowMod
pub mod Agreement
mod Examples
use Prim.Native.Nat.{bit_or}
use mathlib.Core.Logic.{dite}
use mathlib.Core.WellFounded.{Acc}
use modern_go.Base.{
  ℕ, zero, suc, ◌+◌, ◌-◌, ◌*◌, ◌/◌, ◌%◌, ◌^◌, ◌<◌, Option, none, some, arith, ltb, leb, ◌==◌,
  if◌then◌else◌, dec_lt,
}
use modern_go.Base.Order.{lt_wf}
use modern_go.Base.Outcome.{Outcome, ok, panic, diverges, zero_public_key, zero_private_key, ◌>>=◌}

abbrev pub u64_mod : ℕ
u64_mod = 2 ^ 64

abbrev pub u32_mod : ℕ
u32_mod = 2 ^ 32

abbrev pub p : ℕ
p = 0xffff_ffff_ffff_ffc5

abbrev pub g : ℕ
g = 5

-- uint64 a - b.
abbrev pub sub64 : ℕ → ℕ → ℕ
sub64 a b = (a + u64_mod - b) % u64_mod

-- The body of the `if b&1 > 0` of a round: `m` plus `a`, or less `p - a`.
pub add_mod_p : ℕ → ℕ → ℕ
add_mod_p m a = let t = sub64 p a in if leb t m then sub64 m t else (m + a) % u64_mod

-- The doubling of `a` in a round.
pub double_mod_p : ℕ → ℕ
double_mod_p a = if leb (sub64 p a) a then sub64 (a * 2 % u64_mod) p else a * 2 % u64_mod

-- The `if b&1 > 0` of a round.
pub add_bit : ℕ → ℕ → ℕ → ℕ
add_bit m a b = if ltb 0 (b % 2) then add_mod_p m a else m

-- The loop runs while `b > 0`, and `b` is halved in each round.
pub mul_loop : (m a b : ℕ) → Acc ◌<◌ b → ℕ
mul_loop m a b (Acc.intro _ smaller) =
    dite (dec_lt 0 b)
      (λ h. mul_loop (add_bit m a b) (double_mod_p a) (b / 2) (smaller (b / 2) (omega arith)))
      (λ _. m)

pub mul_mod_p : ℕ → ℕ → ℕ
unfolding mul_loop lt_wf dec_lt add_bit add_mod_p double_mod_p
mul_mod_p a b = mul_loop 0 a b (lt_wf.apply b)

-- The lines of `pow_mod_p` after its recursive call has handed back `t`.
pub square_and_multiply : ℕ → ℕ → ℕ → ℕ
square_and_multiply a b t =
    let square = mul_mod_p t t in if ltb 0 (b % 2) then mul_mod_p square a else square

-- The recursion of `pow_mod_p` on `b >> 1`, with the calls that it may nest; `none` when it has not
-- come to `b == 1` by then.
pub pow_mod_p : ℕ → ℕ → ℕ → Option ℕ
pow_mod_p zero a b = none
pow_mod_p (suc calls) a b =
    let rest : Option ℕ = elim (pow_mod_p calls a (b / 2)) [
      | none ↦ none
      | some t ↦ some (square_and_multiply a b t)
    ] in
    if b == 1 then some a else rest

-- A word has 64 bits, and each call drops one.
abbrev pub max_calls : ℕ
max_calls = 64

pub pow_from : ℕ → ℕ → Outcome ℕ
pow_from a b = elim (pow_mod_p max_calls a b) [ none ↦ diverges | some t ↦ ok t ]

pub powmodp : ℕ → ℕ → Outcome ℕ
powmodp a b =
    if a == 0
    then panic zero_public_key
    else if b == 0
    then panic zero_private_key
    else pow_from (if ltb p a then a % p else a) b

pub public_key : ℕ → Outcome ℕ
public_key private_key = powmodp g private_key

pub secret : ℕ → ℕ → Outcome ℕ
secret private_key another_public_key = powmodp another_public_key private_key

-- `(a << 32) | b` of the two drawn words, where `b` is one more than the second.
pub private_key_of : ℕ → ℕ → ℕ
private_key_of r₁ r₂ = bit_or (r₁ * 2 ^ 32 % u64_mod) ((r₂ + 1) % u64_mod)

pub key_pair : ℕ → ℕ → Outcome (ℕ × ℕ)
key_pair r₁ r₂ = do
  let private_key = private_key_of r₁ r₂
  public ← public_key private_key
  ok (private_key, public)
