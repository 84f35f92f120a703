-- ===== src/Passport/Verified.antt =====
-- crypto/passport.go: a password is accepted for the hash of a password with the same key.
use mathlib.Core.List.{append-nil}
use mathlib.Core.Path.{ap₂}
use modern_go.Base.Outcome.{ok, Returns}
use modern_go.Base.{
  ℕ, ◌-◌, ◌*◌, ◌/◌, ◌%◌, ◌<◌, ◌≡◌, refl, arith, ◌⊎◌, inr, ◌↔◌, [], ◌∷◌, none, true, length,
}
use modern_go.Passport.{Bytes, hex_digit, hex, hex_encode, same, hash_password, verify_password}

abbrev pub IsBytes : Bytes → Type 0
IsBytes [] = Unit
IsBytes (b ∷ bs) = (b < 256) × IsBytes bs

-- What the program relies on of scrypt, asked for a key of 32 bytes.
pub record IsScrypt {E : Type 0} (scrypt : Bytes → Bytes → E ⊎ Bytes) : Type 0 where
  pub size : (p s k : Bytes) → scrypt p s ≡ inr k → length k ≡ 32
  pub bytes : (p s k : Bytes) → scrypt p s ≡ inr k → IsBytes k

pub length-hex : (bs : Bytes) → length (hex bs) ≡ 2 * length bs
unfolding hex
length-hex [] = refl
length-hex (b ∷ bs) = omega (arith, length-hex bs)

same_self : (xs : Bytes) → same xs xs ≡ true
unfolding same
same_self [] = refl
same_self (x ∷ xs) = ground (arith, same_self xs)

hex_digit-inj : (m n : ℕ) → m < 16 → n < 16 → hex_digit m ≡ hex_digit n → m ≡ n
hex_digit-inj m n hm hn e = ground arith

-- Two keys of the same length with the same digits are the same.
same-hex : (xs ys : Bytes) → IsBytes xs → IsBytes ys → same (hex xs) (hex ys) ≡ true → xs ≡ ys
unfolding hex same
same-hex [] [] hx hy e = refl
same-hex [] (y ∷ ys) hx hy e = ground (arith, e)
same-hex (x ∷ xs) [] hx hy e = ground (arith, e)
same-hex (x ∷ xs) (y ∷ ys) hx hy e =
    let high = hex_digit-inj (x / 16) (y / 16) (omega arith) (omega arith) (ground (arith, e)) in
    let low = hex_digit-inj (x % 16) (y % 16) (omega arith) (omega arith) (ground (arith, e)) in
    let first : x ≡ y = omega arith in ap₂ ◌∷◌ first (same-hex xs ys hx.1 hy.1 (ground (arith, e)))

hex_encode-full :
    (size : ℕ) (src : Bytes) → size ≡ 2 * length src → hex_encode size src ≡ ok (hex src)
unfolding hex_encode
hex_encode-full size src h =
    let rest : size - 2 * length src ≡ 0 = omega arith in ground (arith, rest, append-nil (hex src))

module _ {E : Type 0} (scrypt : Bytes → Bytes → E ⊎ Bytes) (laws : IsScrypt scrypt) where
  hash_password_lem :
      (p s k : Bytes) → scrypt p s ≡ inr k → hash_password scrypt p s ≡ ok (hex k, none)
  unfolding hash_password
  hash_password_lem p s k h =
      rw (hash_password, h, hex_encode-full 64 k (omega (arith, laws.size p s k h)))

  -- When scrypt makes a key of both passwords with a salt, HashPassword returns a hash of the first
  -- without an error, and VerifyPassword accepts the second for it exactly if the two keys are
  -- equal.
  pub verify_password-hash_password :
      (p q s k j : Bytes)
      → scrypt p s ≡ inr k
      → scrypt q s ≡ inr j
      → Returns (hash_password scrypt p s) (λ r.
        (r.1 ≡ none)
        × Returns (verify_password scrypt r.0 q s) (λ accepted. (accepted ≡ true) ↔ (k ≡ j)))
  unfolding verify_password
  verify_password-hash_password p q s k j hp hq = (
    (hex k, none),
    hash_password_lem p s k hp,
    (
      refl,
      (
        same (hex k) (hex j),
        rw (verify_password, hash_password_lem q s j hq),
        (same-hex k j (laws.bytes p s k hp) (laws.bytes q s j hq), λ e. rw e (same_self (hex j))),
      ),
    ),
  )
