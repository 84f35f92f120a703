-- ===== src/Aes/RoundTrip.antt =====
-- crypto/aes.go: what is encrypted is decrypted again, and neither direction panics.
use modern_go.Base.Outcome.{◌>>=◌, ok, Returns}
use modern_go.Base.{
  ◌+◌, ◌*◌, ◌/◌, ◌%◌, ◌≤◌, ◌<◌, ◌≡◌, refl, arith, Option, none, some, ◌⊎◌, inl, inr, ◌≢◌,
  ℕ_discrete, length, take,
}
use modern_go.Aes.{
  Bytes, Cipher, Failure, key_size, encrypted_len_invalid, block_size, pkcs5_padding, new_cipher,
  prefix, chain, unchain, crypt_blocks, aes_encrypt_cbc, aes_decrypt_cbc,
  aes_encrypt_cbc_with_base64, aes_decrypt_cbc_with_base64,
}
use modern_go.Aes.Chain.{IsBlockCipher, length-chain, unchain-chain}
use modern_go.Aes.Padding.{length-pkcs5_padding, un_padding-padding, un_padding-Returns, Unpadded}

-- A key of 128, 192 or 256 bits.
abbrev pub IsKey : Bytes → Type 0
IsKey key = ((length key ≡ 16) ⊎ (length key ≡ 24)) ⊎ (length key ≡ 32)

new_cipher-inr : (key : Bytes) → IsKey key → new_cipher key ≡ inr key
unfolding new_cipher
new_cipher-inr key h = ground arith

new_cipher-inl : (key : Bytes) → ¬ IsKey key → new_cipher key ≡ inl (key_size (length key))
unfolding new_cipher
new_cipher-inl key h = ground arith

IsKey-cases : (key : Bytes) → IsKey key ⊎ (¬ IsKey key)
IsKey-cases key = elim (ℕ_discrete (length key) 16) [
  | yes a ↦ inl (inl (inl a))
  | no a ↦ elim (ℕ_discrete (length key) 24) [
    | yes b ↦ inl (inl (inr b))
    | no b ↦ elim (ℕ_discrete (length key) 32) [
      | yes c ↦ inl (inr c)
      | no c ↦ inr (λ h. elim h [ inl (inl x) ↦ a x | inl (inr y) ↦ b y | inr z ↦ c z ])
    ]
  ]
]

-- What decryption may answer, by the three conditions of the code.
pub data Decrypted (cipher : Cipher) (key encrypted : Bytes) : Failure ⊎ Bytes → Type 0 where
  refused : ¬ IsKey key → Decrypted cipher key encrypted (inl (key_size (length key)))
  uneven :
      IsKey key
      → length encrypted % block_size ≢ 0
      → Decrypted cipher key encrypted (inl encrypted_len_invalid)
  unpadded :
      IsKey key
      → length encrypted % block_size ≡ 0
      → {r : Failure ⊎ Bytes}
      → Unpadded
          (unchain
            (cipher.decrypt key)
            (length encrypted / block_size)
            (take block_size key)
            encrypted)
          r
      → Decrypted cipher key encrypted r

prefix-ok : (key : Bytes) → IsKey key → prefix key block_size ≡ ok (take block_size key)
unfolding prefix
prefix-ok key h = ground arith

module _ (cipher : Cipher) where
  -- For every key of a valid length and every block cipher, encryption returns the chained blocks
  -- of the padded bytes without a panic.
  encrypt-ok :
      (key orig : Bytes)
      → IsKey key
      → aes_encrypt_cbc cipher key orig
        ≡ ok (
            inr (
              chain
                (cipher.encrypt key)
                (length (pkcs5_padding orig block_size) / block_size)
                (take block_size key)
                (pkcs5_padding orig block_size)))
  unfolding aes_encrypt_cbc crypt_blocks
  encrypt-ok key orig h =
      let (full, longer, bound) = length-pkcs5_padding orig block_size (omega arith) in
      rw (aes_encrypt_cbc, new_cipher-inr key h, prefix-ok key h, crypt_blocks, full)

  -- For every key of a valid length decryption returns what AesEncryptCBC was given.
  pub decrypt-encrypt :
      (key orig : Bytes)
      → IsKey key
      → IsBlockCipher cipher key
      → Returns (aes_encrypt_cbc cipher key orig) (λ r.
        (bts : Bytes) × (r ≡ inr bts)
        × (length orig < length bts)
        × (length bts ≤ length orig + 16)
        × (aes_decrypt_cbc cipher key bts ≡ ok (inr orig)))
  unfolding aes_decrypt_cbc crypt_blocks
  decrypt-encrypt key orig h laws =
      let padded = pkcs5_padding orig block_size in
      let n = length padded / block_size in
      let (full, longer, bound) = length-pkcs5_padding orig block_size (omega arith) in
      let blocks : length padded ≡ n * block_size = omega arith in
      let out = length-chain cipher key laws n (take block_size key) padded blocks in
      let bts = chain (cipher.encrypt key) n (take block_size key) padded in
      let out_full : length bts % block_size ≡ 0 = omega arith in
      let out_blocks : length bts / block_size ≡ n = omega arith in
      (
        inr bts,
        encrypt-ok key orig h,
        (
          bts,
          refl,
          omega arith,
          omega arith,
          rw (
            aes_decrypt_cbc,
            new_cipher-inr key h,
            prefix-ok key h,
            crypt_blocks,
            out_full,
            out_blocks,
            unchain-chain cipher key laws n (take block_size key) padded blocks,
            un_padding-padding orig block_size (omega arith) (omega arith),
          ),
        ),
      )

  -- A key of another length is refused by both directions.
  pub wrong_key :
      (key bts : Bytes)
      → ¬ IsKey key
      → (aes_encrypt_cbc cipher key bts ≡ ok (inl (key_size (length key))))
        × (aes_decrypt_cbc cipher key bts ≡ ok (inl (key_size (length key))))
  unfolding aes_encrypt_cbc aes_decrypt_cbc
  wrong_key key bts h = rw (aes_encrypt_cbc, aes_decrypt_cbc, new_cipher-inl key h) (refl, refl)

  -- Decryption does not panic, whatever the key and the bytes are.
  pub decrypt-Returns :
      (key encrypted : Bytes)
      → Returns (aes_decrypt_cbc cipher key encrypted) (Decrypted cipher key encrypted)
  unfolding aes_decrypt_cbc crypt_blocks
  decrypt-Returns key encrypted = elim (IsKey-cases key) [
    | inr other ↦ rw (aes_decrypt_cbc, new_cipher-inl key other) (_, refl, refused other)
    | inl valid ↦ elim (ℕ_discrete (length encrypted % block_size) 0) [
      | yes full ↦
          let text =
            unchain (cipher.decrypt key) (length encrypted / block_size) (take block_size key)
              encrypted in
          let (r, ran, answer) = un_padding-Returns text in
          (
            r,
            rw (aes_decrypt_cbc, new_cipher-inr key valid, prefix-ok key valid, crypt_blocks, full)
                ran,
            unpadded valid full answer,
          )
      | no odd ↦ (
        _,
        rw (aes_decrypt_cbc, new_cipher-inr key valid) (ground (arith, odd)),
        uneven valid odd,
      )
    ]
  ]

  -- With the base64 texts around it: no error, and the text is decrypted to the same bytes.
  decrypt-encrypt_base64 {ℓ} :
      {Text : Type ℓ} (encode : Bytes → Text) (decode : Text → Option Bytes) (key orig : Bytes)
      → ((bts : Bytes) → decode (encode bts) ≡ some bts)
      → IsKey key
      → IsBlockCipher cipher key
      → Returns
          (aes_encrypt_cbc_with_base64 cipher encode orig key)
          (λ r. (r.1 ≡ none) × (aes_decrypt_cbc_with_base64 cipher decode r.0 key ≡ ok (inr orig)))
  unfolding aes_encrypt_cbc_with_base64 aes_decrypt_cbc_with_base64
  decrypt-encrypt_base64 encode decode key orig codec h laws =
      let (r, ran, (bts, is_bts, longer, bound, back)) = decrypt-encrypt key orig h laws in
      (
        (encode bts, none),
        rw (aes_encrypt_cbc_with_base64, ran, ◌>>=◌, is_bts),
        (refl, rw (aes_decrypt_cbc_with_base64, codec bts) back),
      )
