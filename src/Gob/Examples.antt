-- ===== src/Gob/Examples.antt =====
-- Runs of crypto/gob.go with small stand-ins for the libraries.
use modern_go.Passport.{Bytes}
use modern_go.Gob.{Libraries, encrypt_with_gob, decrypt_with_gob, create_hash}
use modern_go.Gob.Opened.{AreSound, Opens, decrypt-encrypt_gob, decrypt_with_gob-Opens}
use modern_go.Base.Outcome.{ok, panic, slice_out_of_range, Returns}
use modern_go.Base.{
  ℕ, ◌≡◌, ◌≤◌, ◌<◌, refl, [], ◌∷◌, Option, none, some, ◌⊎◌, inr, ◌==◌, if◌then◌else◌, length,
  replicate,
}

abbrev open_byte : Bytes → Option Bytes
open_byte [] = none
open_byte (x ∷ rest) = if x == 7 then some rest else none

abbrev read_byte : Bytes → Option ℕ
read_byte [] = none
read_byte (x ∷ rest) = some x

-- A seal is the byte 7, and a text its bytes.
abbrev stand_ins : Libraries ℕ Bytes
stand_ins = record {
  md5 = λ b. replicate 16 (length b);
  seal = λ key nonce plaintext. 7 ∷ plaintext;
  open_sealed = λ key nonce ciphertext. open_byte ciphertext;
  marshal = λ v. v ∷ [];
  unmarshal = read_byte;
  encode = λ b. b;
  decode = λ t. t;
}

stand_ins-AreSound : AreSound stand_ins
stand_ins-AreSound = record {
  digest_size = λ b. refl;
  opens = λ key nonce plaintext. refl;
  reads = λ b. refl;
}

abbrev some_nonce : Bytes
some_nonce = replicate 12 5

decrypt-encrypt_gob_example :
    (t : Bytes) × (encrypt_with_gob stand_ins 42 (1 ∷ []) (some some_nonce) ≡ inr t)
    × (decrypt_with_gob stand_ins t (1 ∷ []) ≡ ok (inr 42))
decrypt-encrypt_gob_example =
    decrypt-encrypt_gob stand_ins stand_ins-AreSound 42 42 (1 ∷ []) some_nonce refl refl

abbrev two_bytes : Bytes
two_bytes = 9 ∷ 9 ∷ []

decrypt_with_gob-Opens_example :
    ((length two_bytes < 12)
      × (decrypt_with_gob stand_ins two_bytes (1 ∷ []) ≡ panic slice_out_of_range))
    ⊎ ((12 ≤ length two_bytes)
        × Returns
            (decrypt_with_gob stand_ins two_bytes (1 ∷ []))
            (Opens stand_ins (create_hash stand_ins (1 ∷ [])) two_bytes))
decrypt_with_gob-Opens_example =
    decrypt_with_gob-Opens stand_ins stand_ins-AreSound (1 ∷ []) two_bytes
