-- ===== src/Keys.antt =====
-- crypto/key.go and crypto/rand.go: random passwords and bytes. A character is its code point. The
-- draws of math/rand are a sequence of numbers, and a call says which of them is the next;
-- rand.Intn takes the remainder. The length is an int, which may be negative.
pub mod Drawn
mod Examples
use modern_go.Base.Int.{ℤ, pos, negsuc}
use modern_go.Base.Outcome.{
  Outcome, ok, panic, bad_argument, index_out_of_range, slice_out_of_range, ◌>>=◌,
}
use modern_go.Base.{
  ℕ, zero, suc, ◌+◌, ◌-◌, ◌%◌, List, [], ◌∷◌, Option, none, some, Bool, true, false, ◌&&◌, ◌==◌,
  leb, if◌then◌else◌, length, get_elem?,
}

abbrev pub allowed_chars : List ℕ
allowed_chars =
    81 ∷ 87 ∷ 69 ∷ 82 ∷ 84 ∷ 89 ∷ 85 ∷ 73 ∷ 79 ∷ 80 ∷ 65 ∷ 83 ∷ 68 ∷ 70 ∷ 71 ∷ 72 ∷ 74 ∷ 75 ∷ 76
    ∷ 90 ∷ 88 ∷ 67 ∷ 86 ∷ 66 ∷ 78 ∷ 77 ∷ 113 ∷ 119 ∷ 101 ∷ 114 ∷ 116 ∷ 121 ∷ 117 ∷ 105 ∷ 111 ∷ 112
    ∷ 97 ∷ 115 ∷ 100 ∷ 102 ∷ 103 ∷ 104 ∷ 106 ∷ 107 ∷ 108 ∷ 122 ∷ 120 ∷ 99 ∷ 118 ∷ 98 ∷ 110 ∷ 109
    ∷ 48 ∷ 57 ∷ 56 ∷ 55 ∷ 54 ∷ 53 ∷ 52 ∷ 51 ∷ 50 ∷ 49 ∷ []

abbrev pub special_chars : List ℕ
special_chars =
    126 ∷ 33 ∷ 64 ∷ 35 ∷ 36 ∷ 94 ∷ 38 ∷ 42 ∷ 40 ∷ 41 ∷ 95 ∷ 43 ∷ 45 ∷ 61 ∷ 124 ∷ 123 ∷ 125 ∷ 91 ∷ 93
    ∷ []

pub int_to_bool : ℕ → Bool
int_to_bool i = i == 1

module _ (draws : ℕ → ℕ) where
  -- `min + rand.Intn(max - min)` at the draw `k`; Intn panics for no number below which to draw.
  pub next : ℕ → ℕ → ℕ → Outcome ℕ
  next k min max = if leb max min then panic bad_argument else ok (min + draws k % (max - min))

  -- A character of `chars`.
  pub pick : ℕ → List ℕ → Outcome ℕ
  pick k chars = do
    i ← next k 0 (length chars)
    elim (get_elem? chars i) [ none ↦ panic index_out_of_range | some c ↦ ok c ]

  -- The characters from index `i` on, `left` of them, with the draws from `k` on.
  pub key_loop : ℕ → ℕ → ℕ → Bool → ℕ → Outcome (List ℕ)
  key_loop zero i size strong k = ok []
  key_loop (suc left) i size true k = do
    m ← next k 3 size
    c ← pick (suc k) (if int_to_bool (i % m) then special_chars else allowed_chars)
    cs ← key_loop left (suc i) size true (suc (suc k))
    ok (c ∷ cs)
  key_loop (suc left) i size false k = do
    c ← pick k allowed_chars
    cs ← key_loop left (suc i) size false (suc k)
    ok (c ∷ cs)

  -- make panics for a negative length.
  pub generate_key : ℤ → Bool → Outcome (List ℕ)
  generate_key (pos size) strong = key_loop size 0 size strong 0
  generate_key (negsuc n) strong = panic slice_out_of_range

  abbrev pub min_char : ℕ
  min_char = 33

  abbrev pub max_char : ℕ
  max_char = 126

  pub bytes_loop : ℕ → ℕ → List ℕ
  bytes_loop zero i = []
  bytes_loop (suc left) i =
      ((min_char + draws i % (max_char - min_char)) % 256) ∷ bytes_loop left (suc i)

  pub random_byte_slice : ℤ → Outcome (List ℕ)
  random_byte_slice (pos size) = ok (bytes_loop size 0)
  random_byte_slice (negsuc n) = panic slice_out_of_range

  -- The conversion to a string keeps the bytes.
  pub random_string : ℤ → Outcome (List ℕ)
  random_string size = random_byte_slice size
