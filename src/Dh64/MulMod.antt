-- ===== src/Dh64/MulMod.antt =====
-- The multiplication modulo p of crypto/dh64/dh64.go.
use mathlib.Core.Logic.{dif_pos, dif_neg}
use mathlib.Core.WellFounded.{Acc}
use native.Mathlib.Bridge.{le_prop}
use native.Mathlib.Nat.{add-mod}
use modern_go.Base.{ℕ, ◌+◌, ◌*◌, ◌/◌, ◌%◌, ◌≤◌, ◌<◌, ◌≡◌, sym, ◌∙◌, ap, arith, dec_lt, ◌≡⟨◌⟩◌, ◌∎}
use modern_go.Base.Arith.{mod-mul-mod}
use modern_go.Base.Order.{lt_wf}
use modern_go.Dh64.{p, add_mod_p, add_bit, double_mod_p, mul_loop, mul_mod_p}

add_mod_p_lem : (m a : ℕ) → m < p → a ≤ p → add_mod_p m a ≡ (m + a) % p
unfolding add_mod_p
add_mod_p_lem m a hm ha = ground arith

double_mod_p_lem : (a : ℕ) → a ≤ p → (double_mod_p a ≤ p) × (double_mod_p a % p ≡ 2 * a % p)
unfolding double_mod_p
double_mod_p_lem a ha = ground arith

-- `m` and `a` of the next round stand for the same sum.
round_lem :
    (m a b m' a' : ℕ)
    → m' % p ≡ (m + a * (b % 2)) % p
    → a' % p ≡ 2 * a % p
    → (m' + a' * (b / 2)) % p ≡ (m + a * b) % p
round_lem m a b m' a' hm ha =
    (m' + a' * (b / 2)) % p
    ≡⟨ add-mod m' (a' * (b / 2)) p ⟩ (m' % p + a' * (b / 2) % p) % p
    ≡⟨ ap (λ t. (m' % p + t) % p) product ⟩ (m' % p + 2 * a * (b / 2) % p) % p
    ≡⟨ ap (λ t. (t + 2 * a * (b / 2) % p) % p) hm ⟩
      ((m + a * (b % 2)) % p + 2 * a * (b / 2) % p) % p
    ≡⟨ sym (add-mod (m + a * (b % 2)) (2 * a * (b / 2)) p) ⟩ (m + a * (b % 2) + 2 * a * (b / 2)) % p
    ≡⟨ ap (λ t. t % p) (total (b / 2) (b % 2) (omega arith)) ⟩ (m + a * b) % p ∎
  where
    product : a' * (b / 2) % p ≡ 2 * a * (b / 2) % p
    product =
        sym (mod-mul-mod a' (b / 2) p)
        ∙ ap (λ t. t * (b / 2) % p) ha
        ∙ mod-mul-mod (2 * a) (b / 2) p

    total : (q r : ℕ) → q * 2 + r ≡ b → m + a * r + 2 * a * q ≡ m + a * b
    total q r e = rw (← e) (omega arith)

add_bit_lem :
    (m a b : ℕ) → m < p → a ≤ p → (add_bit m a b < p) × (add_bit m a b % p ≡ (m + a * (b % 2)) % p)
unfolding add_bit
add_bit_lem m a b hm ha = ground (arith, add_mod_p_lem m a)

mul_loop_lem : (m a b : ℕ) (w : Acc ◌<◌ b) → m < p → a ≤ p → mul_loop m a b w ≡ (m + a * b) % p
unfolding mul_loop
mul_loop_lem m a b (Acc.intro _ smaller) hm ha = elim (dec_lt 0 b) [
  | no stop ↦ let e : b ≡ 0 = omega arith in rw (dif_neg _ stop, e) (omega arith)
  | yes go ↦
      let (m_lt, m_mod) = add_bit_lem m a b hm ha in
      let (a_le, a_mod) = double_mod_p_lem a ha in
      rw (dif_pos _ le_prop go) (
        mul_loop_lem (add_bit m a b) (double_mod_p a) (b / 2) (smaller (b / 2) _) m_lt a_le
        ∙ round_lem m a b _ _ m_mod a_mod)
]

pub mul_mod_p_lem : (a b : ℕ) → a ≤ p → mul_mod_p a b ≡ a * b % p
unfolding mul_mod_p
mul_mod_p_lem a b ha =
    mul_loop_lem 0 a b (lt_wf.apply b) (omega arith) ha ∙ ap (λ t. t % p) (omega arith)
