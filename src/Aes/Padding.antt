-- ===== src/Aes/Padding.antt =====
-- crypto/aes.go: pkcs5Padding and pkcs5UnPadding.
use native.Mathlib.Nat.{mod-lt, mod-add-mod, mod_self, mod-eq_of_lt}
use modern_go.Base.Outcome.{ok, Returns}
use modern_go.Base.{
  ℕ, zero, suc, ◌+◌, ◌-◌, ◌%◌, ◌≤◌, ◌<◌, ◌≡◌, refl, arith, [], ◌∷◌, ◌++◌, some, ◌⊎◌, inl, inr,
  length, get_elem?, get_elem?-inside, take, replicate, length-append, length-replicate,
  take-append, sym, ◌∙◌, dec_lt, ap, drop, take-append-drop, length-drop,
}
use modern_go.Aes.{Bytes, Failure, un_padding_failed, pkcs5_padding, shortened, pkcs5_un_padding}

-- The last entry of a list with copies of one entry behind it.
get_elem?-replicate : (n i b : ℕ) → i < n → get_elem? (replicate n b) i ≡ some b
get_elem?-replicate zero i b h = absurd (omega arith)
get_elem?-replicate (suc n) zero b h = refl
get_elem?-replicate (suc n) (suc i) b h = get_elem?-replicate n i b (omega arith)

get_elem?-behind :
    (xs ys : Bytes) (i n : ℕ) → n ≡ length xs + i → get_elem? (xs ++ ys) n ≡ get_elem? ys i
get_elem?-behind [] ys i n h = let e : n ≡ i = omega arith in rw e
get_elem?-behind (x ∷ xs) ys i zero h = absurd (omega arith)
get_elem?-behind (x ∷ xs) ys i (suc n) h = get_elem?-behind xs ys i n (omega arith)

-- The padding fills the last block, and is a whole block when that is full.
pub length-pkcs5_padding :
    (orig : Bytes) (size : ℕ)
    → 0 < size
    → (length (pkcs5_padding orig size) % size ≡ 0)
      × (length orig < length (pkcs5_padding orig size))
      × (length (pkcs5_padding orig size) ≤ length orig + size)
unfolding pkcs5_padding
length-pkcs5_padding orig size h =
    let below = mod-lt (length orig) h in
    let full : length orig % size + (size - length orig % size) ≡ size = omega arith in
    rw (length-append, length-replicate)
      (sym (mod-add-mod _ size _) ∙ rw full (mod_self size), omega arith, omega arith)

-- Copies of their own number are taken off.
un_padded :
    (orig : Bytes) (n : ℕ) → pkcs5_un_padding (orig ++ replicate (suc n) (suc n)) ≡ ok (inr orig)
unfolding pkcs5_un_padding shortened
un_padded orig n =
    let last =
      get_elem?-behind orig (replicate (suc n) (suc n)) n (length orig + suc n - 1) (omega arith) in
    let some_last = last ∙ get_elem?-replicate (suc n) n (suc n) (omega arith) in
    let kept : length orig + suc n - suc n ≡ length orig = omega arith in
    ground (
      arith,
      length-append orig (replicate (suc n) (suc n)),
      length-replicate (suc n) (suc n),
      some_last,
      kept,
      take-append orig (replicate (suc n) (suc n)),
    )

-- For every size of blocks below 256, taking the padding off gives back the padded bytes.
pub un_padding-padding :
    (orig : Bytes) (size : ℕ)
    → 0 < size
    → size < 256
    → pkcs5_un_padding (pkcs5_padding orig size) ≡ ok (inr orig)
unfolding pkcs5_padding
un_padding-padding orig size h small =
    let below = mod-lt (length orig) h in
    let n = size - length orig % size - 1 in
    let e : size - length orig % size ≡ suc n = omega arith in
    let byte : suc n % 256 ≡ suc n = mod-eq_of_lt (omega arith) in rw (e, byte) (un_padded orig n)

-- What is left of bytes when the padding is off: as many bytes as the last one says are dropped,
-- and it is an error if there are fewer; no bytes are left as they are.
pub data Unpadded (orig : Bytes) : Failure ⊎ Bytes → Type 0 where
  nothing : orig ≡ [] → Unpadded orig (inr [])
  too_many :
      (front : Bytes) (last : ℕ)
      → orig ≡ front ++ last ∷ []
      → length orig < last
      → Unpadded orig (inl un_padding_failed)
  dropped :
      (front kept padding : Bytes) (last : ℕ)
      → orig ≡ front ++ last ∷ []
      → orig ≡ kept ++ padding
      → length padding ≡ last
      → Unpadded orig (inr kept)

-- A list up to its last entry.
up_to_last :
    (xs : Bytes) (n x : ℕ) → length xs ≡ suc n → get_elem? xs n ≡ some x → xs ≡ take n xs ++ x ∷ []
up_to_last [] n x size e = absurd (omega arith)
up_to_last (y ∷ []) zero x size e = ap (λ z. z ∷ []) (cc e)
up_to_last (y ∷ z ∷ xs) zero x size e = absurd (omega arith)
up_to_last (y ∷ xs) (suc n) x size e = ap (◌∷◌ y) (up_to_last xs n x (omega arith) e)

-- Taking the padding off does not panic.
pub un_padding-Returns : (orig : Bytes) → Returns (pkcs5_un_padding orig) (Unpadded orig)
unfolding pkcs5_un_padding shortened
un_padding-Returns [] = (_, refl, Unpadded.nothing refl)
un_padding-Returns (b ∷ orig) =
    let (x, e) = get_elem?-inside (b ∷ orig) (length orig) (omega arith) in
    let at_last : suc (length orig) - 1 ≡ length orig = omega arith in
    let front = take (length orig) (b ∷ orig) in
    let n = suc (length orig) - x in
    let parts = up_to_last (b ∷ orig) (length orig) x refl e in
    elim (dec_lt (suc (length orig)) x) [
      | yes over ↦
          (inl un_padding_failed, ground (arith, at_last, e), Unpadded.too_many front x parts over)
      | no within ↦ (
        inr (take n (b ∷ orig)),
        ground (arith, at_last, e),
        Unpadded.dropped front (take n (b ∷ orig)) (drop n (b ∷ orig)) x parts
            (sym (take-append-drop n (b ∷ orig))) (length-drop n (b ∷ orig) ∙ omega arith),
      )
    ]
