-- ===== src/Aes.antt =====
-- crypto/aes.go: encryption in CBC mode with a padded last block. A byte is a number below 256 and
-- a byte slice a list. The block cipher of crypto/aes and the coding of encoding/base64 are
-- arguments; the chaining of crypto/cipher is written out.
pub mod Padding
pub mod Chain
pub mod RoundTrip
mod Examples
use Prim.Native.Nat.{bit_xor}
use modern_go.Base.Outcome.{Outcome, ok, panic, not_full_blocks, slice_out_of_range, ◌>>=◌}
use modern_go.Base.{
  ℕ, zero, suc, ◌+◌, ◌-◌, ◌/◌, ◌%◌, List, [], ◌∷◌, ◌++◌, Option, none, some, ◌⊎◌, inl, inr, ◌==◌,
  ◌||◌, ltb, if◌then◌else◌, length, get_elem?, take, drop, replicate,
}

abbrev pub Bytes : Type 0
Bytes = List ℕ

-- The errors: of aes.NewCipher for a key of the wrong length, the two of this file, and that of
-- DecodeString.
pub data Failure : Type 0 where
  key_size : ℕ → Failure
  encrypted_len_invalid un_padding_failed corrupt_input : Failure

-- The block cipher under a key, on blocks of 16 bytes.
pub record Cipher : Type 0 where
  pub encrypt : Bytes → Bytes → Bytes
  pub decrypt : Bytes → Bytes → Bytes

abbrev pub block_size : ℕ
block_size = 16

pub pkcs5_padding : Bytes → ℕ → Bytes
pkcs5_padding orig size =
    let padding = size - length orig % size in orig ++ replicate padding (padding % 256)

-- `orig[:len(orig) - n]`, which panics where the bound is negative.
pub shortened : Bytes → ℕ → Outcome Bytes
shortened orig n =
    if ltb (length orig) n then panic slice_out_of_range else ok (take (length orig - n) orig)

pub pkcs5_un_padding : Bytes → Outcome (Failure ⊎ Bytes)
pkcs5_un_padding orig_data =
    let length_of = length orig_data in
    if length_of == 0 then ok (inr orig_data) else elim (get_elem? orig_data (length_of - 1)) [
      | none ↦ panic slice_out_of_range
      | some un_padding ↦
          if ltb length_of un_padding
          then ok (inl un_padding_failed)
          else do out ← shortened orig_data un_padding; ok (inr out)
    ]

-- aes.NewCipher: the key has 16, 24 or 32 bytes.
unfoldable pub new_cipher : Bytes → Failure ⊎ Bytes
new_cipher key =
    let n = length key in if n == 16 || n == 24 || n == 32 then inr key else inl (key_size n)

-- `key[:size]`, for a size within the capacity; the key's capacity is its length.
pub prefix : Bytes → ℕ → Outcome Bytes
prefix key size = if ltb (length key) size then panic slice_out_of_range else ok (take size key)

pub xor_bytes : Bytes → Bytes → Bytes
xor_bytes [] ys = []
xor_bytes (x ∷ xs) [] = x ∷ xs
xor_bytes (x ∷ xs) (y ∷ ys) = bit_xor x y ∷ xor_bytes xs ys

-- The chaining of cipher.NewCBCEncrypter, over `blocks` blocks from the initial vector `iv`.
pub chain : (Bytes → Bytes) → ℕ → Bytes → Bytes → Bytes
chain encrypt zero iv src = []
chain encrypt (suc blocks) iv src =
    let block = encrypt (xor_bytes (take block_size src) iv) in
    block ++ chain encrypt blocks block (drop block_size src)

-- The chaining of cipher.NewCBCDecrypter.
pub unchain : (Bytes → Bytes) → ℕ → Bytes → Bytes → Bytes
unchain decrypt zero iv src = []
unchain decrypt (suc blocks) iv src =
    let block = take block_size src in
    xor_bytes (decrypt block) iv ++ unchain decrypt blocks block (drop block_size src)

-- CryptBlocks takes full blocks only.
pub crypt_blocks : (ℕ → Bytes → Bytes → Bytes) → Bytes → Bytes → Outcome Bytes
crypt_blocks mode iv src =
    if length src % block_size == 0
    then ok (mode (length src / block_size) iv src)
    else panic not_full_blocks

module _ (cipher : Cipher) where
  pub aes_encrypt_cbc : Bytes → Bytes → Outcome (Failure ⊎ Bytes)
  aes_encrypt_cbc key orig_data = elim (new_cipher key) [
    | inl err ↦ ok (inl err)
    | inr block ↦ do
      iv ← prefix key block_size
      bts ← crypt_blocks (chain (cipher.encrypt block)) iv (pkcs5_padding orig_data block_size)
      ok (inr bts)
  ]

  pub aes_decrypt_cbc : Bytes → Bytes → Outcome (Failure ⊎ Bytes)
  aes_decrypt_cbc key encrypted = elim (new_cipher key) [
    | inl err ↦ ok (inl err)
    | inr block ↦
        let decrypted = do
          iv ← prefix key block_size
          decrypted ← crypt_blocks (unchain (cipher.decrypt block)) iv encrypted
          pkcs5_un_padding decrypted
        in if length encrypted % block_size == 0 then decrypted else ok (inl encrypted_len_invalid)
  ]

  -- The text is returned along with the error; encoding no bytes gives no text.
  pub aes_encrypt_cbc_with_base64 {ℓ} :
      {Text : Type ℓ} → (Bytes → Text) → Bytes → Bytes → Outcome (Text × Option Failure)
  aes_encrypt_cbc_with_base64 encode orig_data key = do
    result ← aes_encrypt_cbc key orig_data
    elim result [ inl err ↦ ok (encode [], some err) | inr bts ↦ ok (encode bts, none) ]

  pub aes_decrypt_cbc_with_base64 {ℓ} :
      {Text : Type ℓ} → (Text → Option Bytes) → Text → Bytes → Outcome (Failure ⊎ Bytes)
  aes_decrypt_cbc_with_base64 decode encrypted key = elim (decode encrypted) [
    | none ↦ ok (inl corrupt_input)
    | some bts ↦ aes_decrypt_cbc key bts
  ]
