-- ===== src/Keys/Drawn.antt =====
-- crypto/key.go and crypto/rand.go: what is drawn, and when drawing panics.
use native.Mathlib.Nat.{mod-lt}
use modern_go.Base.Int.{pos}
use modern_go.Base.Outcome.{panic, bad_argument, ◌>>=◌, Returns}
use modern_go.Base.{
  ℕ, zero, suc, ◌+◌, ◌-◌, ◌%◌, ◌≤◌, ◌<◌, ◌≡◌, refl, ap, arith, ◌⊎◌, inl, inr, List, [], ◌∷◌, some,
  Bool, true, false, if◌then◌else◌, length, get_elem?, get_elem?-inside,
}
use modern_go.Keys.{
  allowed_chars, special_chars, int_to_bool, next, pick, key_loop, generate_key, bytes_loop,
  random_byte_slice,
}

-- A character of `chars`.
abbrev pub IsIn : List ℕ → ℕ → Type 0
IsIn chars c = (i : ℕ) × (get_elem? chars i ≡ some c)

-- A character that a key may have: a special one only if it is to be strong.
abbrev pub IsAllowed : Bool → ℕ → Type 0
IsAllowed strong c = IsIn allowed_chars c ⊎ ((strong ≡ true) × IsIn special_chars c)

abbrev pub All : (ℕ → Type 0) → List ℕ → Type 0
All P [] = Unit
All P (c ∷ cs) = P c × All P cs

pub record Generated (size : ℕ) (strong : Bool) (cs : List ℕ) : Type 0 where
  pub size_of : length cs ≡ size
  pub chars : All (IsAllowed strong) cs

module _ (draws : ℕ → ℕ) where
  next-ok :
      (k min max : ℕ) → min < max → Returns (next draws k min max) (λ n. (min ≤ n) × (n < max))
  unfolding next
  next-ok k min max h =
      let below = mod-lt (draws k) {m = max - min} (omega arith) in
      (min + draws k % (max - min), ground arith, (omega arith, omega arith))

  pick-ok : (k : ℕ) (chars : List ℕ) → 0 < length chars → Returns (pick draws k chars) (IsIn chars)
  unfolding pick
  pick-ok k chars h =
      let (i, drawn, (low, high)) = next-ok k 0 (length chars) h in
      let (c, there) = get_elem?-inside chars i high in
      (c, rw (pick, drawn, ◌>>=◌, there), (i, there))

  drawn_char :
      (k : ℕ) (special : Bool)
      → Returns (pick draws k (if special then special_chars else allowed_chars)) (IsAllowed true)
  drawn_char k true =
      let (c, drawn, there) = pick-ok k special_chars (omega arith) in (c, drawn, inr (refl, there))
  drawn_char k false =
      let (c, drawn, there) = pick-ok k allowed_chars (omega arith) in (c, drawn, inl there)

  weak_loop :
      (left i size k : ℕ) → Returns (key_loop draws left i size false k) (Generated left false)
  unfolding key_loop
  weak_loop zero i size k = ([], refl, record { size_of = refl; chars = tt })
  weak_loop (suc left) i size k =
      let (c, drawn, there) = pick-ok k allowed_chars (omega arith) in
      let (cs, run, rest) = weak_loop left (suc i) size (suc k) in
      (
        c ∷ cs,
        rw (drawn, run),
        record { size_of = ap suc rest.size_of; chars = (inl there, rest.chars) },
      )

  strong_loop :
      (left i size k : ℕ)
      → 3 < size
      → Returns (key_loop draws left i size true k) (Generated left true)
  unfolding key_loop
  strong_loop zero i size k h = ([], refl, record { size_of = refl; chars = tt })
  strong_loop (suc left) i size k h =
      let (m, modulus, bounds) = next-ok k 3 size h in
      let (c, drawn, there) = drawn_char (suc k) (int_to_bool (i % m)) in
      let (cs, run, rest) = strong_loop left (suc i) size (suc (suc k)) h in
      (
        c ∷ cs,
        rw (key_loop, modulus, ◌>>=◌, drawn, ◌>>=◌, run),
        record { size_of = ap suc rest.size_of; chars = (there, rest.chars) },
      )

  -- For every sequence of draws GenerateKey returns as many characters as it is asked for, from the
  -- letters and digits, and for a strong key also from the special characters, if the key is not to
  -- be strong or has more than three characters.
  pub generate_key-Generated :
      (size : ℕ) (strong : Bool)
      → (strong ≡ true → 3 < size)
      → Returns (generate_key draws (pos size) strong) (Generated size strong)
  unfolding generate_key
  generate_key-Generated size true h = strong_loop size 0 size 0 (h refl)
  generate_key-Generated size false h = weak_loop size 0 size 0

  -- A strong key of one, two or three characters makes GenerateKey panic, whatever is drawn.
  pub generate_key-panics :
      (size : ℕ) → 0 < size → size ≤ 3 → generate_key draws (pos size) true ≡ panic bad_argument
  unfolding generate_key key_loop next
  generate_key-panics zero some_char short = absurd (omega arith)
  generate_key-panics (suc n) some_char short = ground arith

  bytes_loop-printable : (left i : ℕ) → All (λ b. (33 ≤ b) × (b < 126)) (bytes_loop draws left i)
  unfolding bytes_loop
  bytes_loop-printable zero i = tt
  bytes_loop-printable (suc left) i =
      ((omega arith, omega arith), bytes_loop-printable left (suc i))

  length-bytes_loop : (left i : ℕ) → length (bytes_loop draws left i) ≡ left
  unfolding bytes_loop
  length-bytes_loop zero i = refl
  length-bytes_loop (suc left) i = ap suc (length-bytes_loop left (suc i))

  -- RandomByteSlice returns as many bytes as it is asked for, printable ones from `!` on, and never
  -- the last printable one, `~`.
  pub random_byte_slice-printable :
      (size : ℕ)
      → Returns
          (random_byte_slice draws (pos size))
          (λ bs. (length bs ≡ size) × All (λ b. (33 ≤ b) × (b < 126)) bs)
  unfolding random_byte_slice
  random_byte_slice-printable size =
      (bytes_loop draws size 0, refl, (length-bytes_loop size 0, bytes_loop-printable size 0))
