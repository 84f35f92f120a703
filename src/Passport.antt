-- ===== src/Passport.antt =====
-- crypto/passport.go: salted password hashes. scrypt.Key of golang.org/x/crypto is an argument, as
-- is what reading 16 random bytes gives, none for an error. Strings are lists of bytes;
-- encoding/hex is written out.
pub mod Verified
mod Examples
use modern_go.Base.Outcome.{Outcome, ok, panic, index_out_of_range, ◌>>=◌}
use modern_go.Base.{
  ℕ, ◌⊎◌, inl, inr, ◌+◌, ◌-◌, ◌*◌, ◌/◌, ◌%◌, List, [], ◌∷◌, ◌++◌, Option, none, some, Bool, true,
  false, ◌==◌, ◌&&◌, ltb, leb, if◌then◌else◌, length, replicate,
}

abbrev pub Bytes : Type 0
Bytes = List ℕ

abbrev pub hex_digit : ℕ → ℕ
hex_digit n = if ltb n 10 then 48 + n else 87 + n

pub hex : Bytes → Bytes
hex [] = []
hex (b ∷ bs) = hex_digit (b / 16) ∷ hex_digit (b % 16) ∷ hex bs

-- hex.Encode into `size` zero bytes.
pub hex_encode : ℕ → Bytes → Outcome Bytes
hex_encode size src =
    if ltb size (2 * length src)
    then panic index_out_of_range
    else ok (hex src ++ replicate (size - 2 * length src) 0)

-- "yqs04UUMewGQZd0g"
abbrev pub salt_pass_default : Bytes
salt_pass_default =
    121 ∷ 113 ∷ 115 ∷ 48 ∷ 52 ∷ 85 ∷ 85 ∷ 77 ∷ 101 ∷ 119 ∷ 71 ∷ 81 ∷ 90 ∷ 100 ∷ 48 ∷ 103 ∷ []

-- `==` on strings
pub same : Bytes → Bytes → Bool
same [] [] = true
same [] (y ∷ ys) = false
same (x ∷ xs) [] = false
same (x ∷ xs) (y ∷ ys) = x == y && same xs ys

pub generate_salt : Option Bytes → Outcome Bytes
generate_salt none = ok salt_pass_default
generate_salt (some salt_bytes) = hex_encode 32 salt_bytes

module _ {E : Type 0} (scrypt : Bytes → Bytes → E ⊎ Bytes) where
  -- The hash and the error; with an error the password itself is in the hash's place.
  pub hash_password : Bytes → Bytes → Outcome (Bytes × Option E)
  hash_password password salt = elim (scrypt password salt) [
    | inl err ↦ ok (password, some err)
    | inr hashed ↦ do hashed_password ← hex_encode 64 hashed; ok (hashed_password, none)
  ]

  pub verify_password : Bytes → Bytes → Bytes → Outcome Bool
  verify_password pass_hash pass_plain salt = do
    (hashed_password, err) ← hash_password pass_plain salt
    elim err [ some e ↦ ok false | none ↦ ok (same pass_hash hashed_password) ]
