-- ===== src/Aes/Examples.antt =====
-- Runs of crypto/aes.go over a block cipher that mixes the key into the block.
use modern_go.Base.Outcome.{ok, Returns}
use modern_go.Base.{◌+◌, ◌<◌, ◌≤◌, ◌≡◌, refl, ◌∙◌, [], ◌∷◌, inl, inr, length, replicate}
use modern_go.Aes.{Bytes, Cipher, xor_bytes, aes_encrypt_cbc, aes_decrypt_cbc}
use modern_go.Aes.Chain.{IsBlockCipher, length-xor_bytes, xor_bytes-xor_bytes}
use modern_go.Aes.RoundTrip.{IsKey, Decrypted, decrypt-encrypt, decrypt-Returns}

abbrev mixing : Cipher
mixing = record {
  encrypt = λ key block. xor_bytes block key;
  decrypt = λ key block. xor_bytes block key;
}

abbrev key : Bytes
key = replicate 16 7

abbrev text : Bytes
text = 104 ∷ 105 ∷ []

mixing-IsBlockCipher : IsBlockCipher mixing key
mixing-IsBlockCipher = record {
  full = λ b h. length-xor_bytes b key ∙ h;
  inverse = λ b h. xor_bytes-xor_bytes b key;
}

key-IsKey : IsKey key
key-IsKey = inl (inl refl)

decrypt-encrypt_example : Returns (aes_encrypt_cbc mixing key text) (λ r.
    (bts : Bytes) × (r ≡ inr bts)
    × (length text < length bts)
    × (length bts ≤ length text + 16)
    × (aes_decrypt_cbc mixing key bts ≡ ok (inr text)))
decrypt-encrypt_example = decrypt-encrypt mixing key text key-IsKey mixing-IsBlockCipher

-- The last byte comes out as 5.
abbrev one_block : Bytes
one_block = replicate 16 5

decrypt-Returns_example :
    Returns (aes_decrypt_cbc mixing key one_block) (Decrypted mixing key one_block)
decrypt-Returns_example = decrypt-Returns mixing key one_block
