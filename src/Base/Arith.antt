-- ===== src/Base/Arith.antt =====
-- Powers, remainders of products, and the bitwise or and xor, on the native numbers.
use Prim.Native.Nat.{max, bit_or, bit_xor, digits, differ, bit_or-bitwise, bit_xor-bitwise}
use native.Mathlib.Nat.{
  pow-zero, pow-suc, mod-add-div, add-mul-mod_self_left, mul_assoc, mul_comm, add-suc, add-zero,
  mul-suc, mul-zero,
}
use modern_go.Base.{
  ℕ, zero, suc, ◌+◌, ◌*◌, ◌-◌, ◌/◌, ◌%◌, ◌^◌, ◌≤◌, ◌<◌, ◌≡◌, refl, sym, ◌∙◌, ap, ◌≡⟨◌⟩◌, ◌∎, arith,
}

pub pow-one : (a : ℕ) → a ^ 1 ≡ a
pow-one a = pow-suc a 0 ∙ rw pow-zero (omega arith)

pub pow-add : (a m n : ℕ) → a ^ (m + n) ≡ a ^ m * a ^ n
pow-add a m zero = rw (add-zero, pow-zero) (omega arith)
pow-add a m (suc n) = simp (add-suc, pow-suc, pow-add a m n) (mul_assoc _ _ _)

pub pow-mul : (a m n : ℕ) → a ^ (m * n) ≡ (a ^ m) ^ n
pow-mul a m zero = simp (mul-zero, pow-zero)
pow-mul a m (suc n) = rw (mul-suc, pow-suc, pow-add, pow-mul a m n)

-- A factor may be reduced first.
pub mod-mul-mod : (x y n : ℕ) → x % n * y % n ≡ x * y % n
mod-mul-mod x y n = sym (
    ap (λ t. t * y % n) (sym (mod-add-div x n))
    ∙ split
    ∙ add-mul-mod_self_left (x % n * y) n (x / n * y))
  where
    split : (x % n + n * (x / n)) * y % n ≡ (x % n * y + n * (x / n * y)) % n
    split = ap (λ t. t % n) (omega arith)

pub mod-pow-mod : (x k n : ℕ) → (x % n) ^ k % n ≡ x ^ k % n
mod-pow-mod x zero n = simp pow-zero
mod-pow-mod x (suc k) n =
    (x % n) ^ suc k % n
    ≡⟨ ap (λ t. t % n) (pow-suc (x % n) k ∙ mul_comm _ _) ⟩ x % n * (x % n) ^ k % n
    ≡⟨ mod-mul-mod x ((x % n) ^ k) n ∙ ap (λ t. t % n) (mul_comm x _) ⟩ (x % n) ^ k * x % n
    ≡⟨ sym (mod-mul-mod ((x % n) ^ k) x n) ∙ ap (λ t. t * x % n) (mod-pow-mod x k n) ⟩
      x ^ k % n * x % n
    ≡⟨ mod-mul-mod (x ^ k) x n ∙ ap (λ t. t % n) (sym (pow-suc x k)) ⟩ x ^ suc k % n ∎

-- The binary digits of two numbers, combined by `op`, on `fuel` digits at most.
abbrev combined : (ℕ → ℕ → ℕ) → ℕ → ℕ → ℕ → ℕ
combined op fuel x y = digits (λ rest. rest) op fuel x y

one_more :
    (op : ℕ → ℕ → ℕ) (fuel x y : ℕ) → x ≤ fuel → combined op (suc fuel) x y ≡ combined op fuel x y
one_more op (suc fuel) (suc x) y le =
    omega (arith, one_more op fuel (suc x / 2) (y / 2) (omega arith))
one_more op zero (suc x) y le = absurd (omega arith)
one_more op zero zero y le = refl
one_more op (suc fuel) zero y le = refl

many_more :
    (op : ℕ → ℕ → ℕ) (extra fuel x y : ℕ)
    → extra + x ≡ fuel
    → combined op fuel x y ≡ combined op x x y
many_more op zero fuel x y e = let same : fuel ≡ x = omega arith in rw same
many_more op (suc extra) zero x y e = absurd (omega arith)
many_more op (suc extra) (suc fuel) x y e =
    one_more op fuel x y (omega arith) ∙ many_more op extra fuel x y (omega arith)

halved :
    (op : ℕ → ℕ → ℕ) (x y : ℕ)
    → combined op x (suc x / 2) (y / 2) ≡ combined op (suc x / 2) (suc x / 2) (y / 2)
halved op x y = many_more op (x - suc x / 2) x (suc x / 2) (y / 2) (omega arith)

pub zero-bit_or : (b : ℕ) → bit_or 0 b ≡ b
zero-bit_or b = bit_or-bitwise 0 b

pub bit_or_step : (a b : ℕ) → bit_or a b ≡ bit_or (a / 2) (b / 2) * 2 + max (a % 2) (b % 2)
bit_or_step zero b = omega (arith, zero-bit_or b, zero-bit_or (b / 2))
bit_or_step (suc a) b =
    omega (arith, bit_or-bitwise (suc a) b, bit_or-bitwise (suc a / 2) (b / 2), halved max a b)

le-bit_or_fuel : (n a b : ℕ) → a ≤ n → b ≤ bit_or a b
le-bit_or_fuel n zero b h = omega (arith, zero-bit_or b)
le-bit_or_fuel zero (suc a) b h = absurd (omega arith)
le-bit_or_fuel (suc n) (suc a) b h =
    omega (arith, bit_or_step (suc a) b, le-bit_or_fuel n (suc a / 2) (b / 2) (omega arith))

pub le-bit_or : (a b : ℕ) → b ≤ bit_or a b
le-bit_or a b = le-bit_or_fuel a a b (omega arith)

-- Two words of `w` bits have an or of `w` bits.
pub bit_or-lt : (w a b : ℕ) → a < 2 ^ w → b < 2 ^ w → bit_or a b < 2 ^ w
bit_or-lt zero a b p q =
    let one = pow-zero 2 in let e : a ≡ 0 = omega arith in rw (e, zero-bit_or) q
bit_or-lt (suc w) a b p q = omega (
  arith,
  pow-suc 2 w,
  bit_or_step a b,
  bit_or-lt w (a / 2) (b / 2) (omega (arith, pow-suc 2 w)) (omega (arith, pow-suc 2 w)),
)

pub zero-bit_xor : (b : ℕ) → bit_xor 0 b ≡ b
zero-bit_xor b = bit_xor-bitwise 0 b

differ-lt : (a b n : ℕ) → a < n → b < n → differ a b < n
differ-lt zero b n ha hb = hb
differ-lt (suc a) zero n ha hb = ha
differ-lt (suc a) (suc b) n ha hb = differ-lt a b n (omega arith) (omega arith)

pub bit_xor_step : (a b : ℕ) → bit_xor a b ≡ bit_xor (a / 2) (b / 2) * 2 + differ (a % 2) (b % 2)
bit_xor_step zero b = omega (arith, zero-bit_xor b, zero-bit_xor (b / 2))
bit_xor_step (suc a) b =
    omega (arith, bit_xor-bitwise (suc a) b, bit_xor-bitwise (suc a / 2) (b / 2), halved differ a b)

-- Two words of `w` bits have an xor of `w` bits.
pub bit_xor-lt : (w a b : ℕ) → a < 2 ^ w → b < 2 ^ w → bit_xor a b < 2 ^ w
bit_xor-lt zero a b p q =
    let one = pow-zero 2 in let e : a ≡ 0 = omega arith in rw (e, zero-bit_xor) q
bit_xor-lt (suc w) a b p q = omega (
  arith,
  pow-suc 2 w,
  bit_xor_step a b,
  differ-lt (a % 2) (b % 2) 2 (omega arith) (omega arith),
  bit_xor-lt w (a / 2) (b / 2) (omega (arith, pow-suc 2 w)) (omega (arith, pow-suc 2 w)),
)

differ-differ : (a b : ℕ) → a < 2 → b < 2 → differ (differ a b) b ≡ a
differ-differ zero zero p q = refl
differ-differ zero (suc zero) p q = refl
differ-differ (suc zero) zero p q = refl
differ-differ (suc zero) (suc zero) p q = refl
differ-differ (suc (suc a)) b p q = absurd (omega arith)
differ-differ a (suc (suc b)) p q = absurd (omega arith)

bit_xor-bit_xor_fuel : (n a b : ℕ) → a ≤ n → b ≤ n → bit_xor (bit_xor a b) b ≡ a
bit_xor-bit_xor_fuel zero a b p q =
    let ea : a ≡ 0 = omega arith in let eb : b ≡ 0 = omega arith in rw (ea, eb)
bit_xor-bit_xor_fuel (suc n) a b p q =
    let rest = bit_xor-bit_xor_fuel n (a / 2) (b / 2) (omega arith) (omega arith) in
    let bit = differ-lt (a % 2) (b % 2) 2 (omega arith) (omega arith) in
    let high : bit_xor a b / 2 ≡ bit_xor (a / 2) (b / 2) = omega (arith, bit_xor_step a b) in
    let low : bit_xor a b % 2 ≡ differ (a % 2) (b % 2) = omega (arith, bit_xor_step a b) in
    bit_xor_step (bit_xor a b) b
    ∙ rw (high, low, rest, differ-differ (a % 2) (b % 2) (omega arith) (omega arith)) (omega arith)

-- An xor is undone by the same again.
pub bit_xor-bit_xor : (a b : ℕ) → bit_xor (bit_xor a b) b ≡ a
bit_xor-bit_xor a b = bit_xor-bit_xor_fuel (a + b) a b (omega arith) (omega arith)
