-- ===== src/Gob.antt =====
-- crypto/gob.go, and the digest of crypto/md5.go. MD5, AES in GCM mode, encoding/gob and
-- encoding/base64 are arguments. A key is the 32 digits of a digest, which aes.NewCipher takes, and
-- GCM takes the blocks of AES, so that the two of the errors that cannot arise have no value here.
pub mod Opened
mod Examples
use modern_go.Aes.{new_cipher, Failure}
use modern_go.Passport.{Bytes, hex, hex_digit}
use modern_go.Base.Outcome.{Outcome, ok, panic, slice_out_of_range, ◌>>=◌}
use modern_go.Base.{
  ℕ, zero, suc, ◌/◌, ◌%◌, List, [], ◌∷◌, ◌++◌, Option, none, some, ◌⊎◌, inl, inr, ltb, ◌==◌,
  if◌then◌else◌, length, take, drop,
}

-- `gcm.NonceSize()`
abbrev pub nonce_size : ℕ
nonce_size = 12

-- The libraries: `seal` and `open_sealed` under a key and a nonce, `marshal` what Encode has
-- written, also when it fails, and `unmarshal` what Decode reads; `decode` is what DecodeString
-- gives before it meets an error, which the code drops.
pub record Libraries (A T : Type 0) : Type 0 where
  pub md5 : Bytes → Bytes
  pub seal : Bytes → Bytes → Bytes → Bytes
  pub open_sealed : Bytes → Bytes → Bytes → Option Bytes
  pub marshal : A → Bytes
  pub unmarshal : Bytes → Option A
  pub encode : Bytes → T
  pub decode : T → Bytes

pub data GobFailure : Type 0 where
  no_cipher : Failure → GobFailure
  no_random not_authentic not_decoded : GobFailure

module _ {A T : Type 0} (lib : Libraries A T) where
  pub md5_string : Bytes → Bytes
  md5_string b = hex (lib.md5 b)

  pub create_hash : Bytes → Bytes
  create_hash key = hex (lib.md5 key)

  -- `nonce` is what reading 12 random bytes gives, none for an error.
  pub encrypt_with_gob : A → Bytes → Option Bytes → GobFailure ⊎ T
  encrypt_with_gob value passphrase none = inl no_random
  encrypt_with_gob value passphrase (some nonce) =
      inr (lib.encode (nonce ++ lib.seal (create_hash passphrase) nonce (lib.marshal value)))

  -- `data[:nonceSize]` and `data[nonceSize:]`
  pub split_nonce : Bytes → Outcome (Bytes × Bytes)
  split_nonce bytes =
      if ltb (length bytes) nonce_size
      then panic slice_out_of_range
      else ok (take nonce_size bytes, drop nonce_size bytes)

  pub decrypt_with_gob : T → Bytes → Outcome (GobFailure ⊎ A)
  decrypt_with_gob ss passphrase = elim (new_cipher (create_hash passphrase)) [
    | inl err ↦ ok (inl (no_cipher err))
    | inr key ↦ do
      (nonce, ciphertext) ← split_nonce (lib.decode ss)
      elim (lib.open_sealed key nonce ciphertext) [
        | none ↦ ok (inl not_authentic)
        | some plaintext ↦ elim (lib.unmarshal plaintext) [
          | none ↦ ok (inl not_decoded)
          | some v ↦ ok (inr v)
        ]
      ]
  ]
