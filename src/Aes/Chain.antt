-- ===== src/Aes/Chain.antt =====
-- crypto/aes.go: the chaining of blocks, and what undoes it.
use modern_go.Base.Arith.{bit_xor-bit_xor}
use modern_go.Base.{
  ℕ, zero, suc, ◌*◌, ◌≡◌, refl, ap, arith, [], ◌∷◌, ◌++◌, length, take, drop, length-append,
  length-take, length-drop, take-append, drop-append, take-append-drop,
}
use modern_go.Aes.{Bytes, Cipher, block_size, xor_bytes, chain, unchain}

-- What the program relies on of the block cipher under one key: on full blocks, decryption undoes
-- encryption, and both give full blocks.
pub record IsBlockCipher (cipher : Cipher) (key : Bytes) : Type 0 where
  pub full : (b : Bytes) → length b ≡ block_size → length (cipher.encrypt key b) ≡ block_size
  pub inverse : (b : Bytes) → length b ≡ block_size → cipher.decrypt key (cipher.encrypt key b) ≡ b

pub length-xor_bytes : (xs ys : Bytes) → length (xor_bytes xs ys) ≡ length xs
unfolding xor_bytes
length-xor_bytes [] ys = refl
length-xor_bytes (x ∷ xs) [] = refl
length-xor_bytes (x ∷ xs) (y ∷ ys) = ap suc (length-xor_bytes xs ys)

pub xor_bytes-xor_bytes : (xs ys : Bytes) → xor_bytes (xor_bytes xs ys) ys ≡ xs
unfolding xor_bytes
xor_bytes-xor_bytes [] ys = refl
xor_bytes-xor_bytes (x ∷ xs) [] = refl
xor_bytes-xor_bytes (x ∷ xs) (y ∷ ys) = rw (bit_xor-bit_xor x y, xor_bytes-xor_bytes xs ys)

module _ (cipher : Cipher) (key : Bytes) (laws : IsBlockCipher cipher key) where
  pub length-chain :
      (n : ℕ) (iv src : Bytes)
      → length src ≡ n * block_size
      → length (chain (cipher.encrypt key) n iv src) ≡ n * block_size
  unfolding chain
  length-chain zero iv src h = omega arith
  length-chain (suc n) iv src h =
      let block = cipher.encrypt key (xor_bytes (take block_size src) iv) in
      omega (
        arith,
        length-append block (chain (cipher.encrypt key) n block (drop block_size src)),
        laws.full (xor_bytes (take block_size src) iv)
            (omega (arith, length-xor_bytes (take block_size src) iv, length-take block_size src)),
        length-chain n block (drop block_size src) (omega (arith, length-drop block_size src)),
      )

  pub unchain-chain :
      (n : ℕ) (iv src : Bytes)
      → length src ≡ n * block_size
      → unchain (cipher.decrypt key) n iv (chain (cipher.encrypt key) n iv src) ≡ src
  unfolding chain unchain
  unchain-chain zero iv [] h = refl
  unchain-chain zero iv (b ∷ src) h = absurd (omega arith)
  unchain-chain (suc n) iv src h =
      let mixed = xor_bytes (take block_size src) iv in
      let block = cipher.encrypt key mixed in
      let is_full : length mixed ≡ block_size =
        omega (arith, length-xor_bytes (take block_size src) iv, length-take block_size src) in
      let behind = chain (cipher.encrypt key) n block (drop block_size src) in
      let first : take block_size (block ++ behind) ≡ block =
        rw (laws.full mixed is_full) at (take-append block behind) in
      let others : drop block_size (block ++ behind) ≡ behind =
        rw (laws.full mixed is_full) at (drop-append block behind) in
      rw (
        first,
        others,
        laws.inverse mixed is_full,
        xor_bytes-xor_bytes,
        unchain-chain n block (drop block_size src) (omega (arith, length-drop block_size src)),
        take-append-drop,
      )
