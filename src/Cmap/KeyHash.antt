-- ===== src/Cmap/KeyHash.antt =====
-- container/cmap/hashkey.go: the hashes of the generated maps. A Go string is the list of its
-- bytes.
use Prim.Native.Nat.{bit_xor}
use modern_go.Base.{ℕ, ◌*◌, ◌%◌, ◌^◌, ◌<◌, arith, List, [], ◌∷◌, ℕ_discrete}
use modern_go.Base.Arith.{bit_xor-lt}
use modern_go.Cmap.{Key}

-- The loop over the bytes: multiply, then xor, in 32 bits.
pub hash_loop : List ℕ → ℕ → ℕ
hash_loop [] hash = hash
hash_loop (c ∷ cs) hash = hash_loop cs (bit_xor (hash * 16777619 % 2 ^ 32) c)

unfoldable pub key_hash_str : List ℕ → ℕ
unfolding hash_loop
key_hash_str key = hash_loop key 2166136261

unfoldable pub key_hash_uint32 : ℕ → ℕ
key_hash_uint32 key = key

pub key_hash_uint64 : ℕ → ℕ
key_hash_uint64 key = key

abbrev pub AreBytes : List ℕ → Type 0
AreBytes [] = Unit
AreBytes (c ∷ cs) = (c < 256) × AreBytes cs

hash_loop-lt : (cs : List ℕ) (hash : ℕ) → AreBytes cs → hash < 2 ^ 32 → hash_loop cs hash < 2 ^ 32
unfolding hash_loop
hash_loop-lt [] hash bytes h = h
hash_loop-lt (c ∷ cs) hash bytes h =
    hash_loop-lt cs _ bytes.1
      (bit_xor-lt 32 (hash * 16777619 % 2 ^ 32) c (omega arith) (omega arith))

-- The hash of a string fits a uint32, whatever its bytes and its length.
key_hash_str-lt : (key : List ℕ) → AreBytes key → key_hash_str key < 2 ^ 32
unfolding key_hash_str
key_hash_str-lt key bytes = hash_loop-lt key 2166136261 bytes (omega arith)

pub string_discrete : Discrete (List ℕ)
string_discrete = hlevel ℕ_discrete

-- The keys of ConcurrentMap, ConcurrentMapStringString and ConcurrentMapStringUint64.
instance abbrev pub string_key : Key (List ℕ)
string_key = record { equal = string_discrete; hash = key_hash_str }

-- The keys of ConcurrentMapUint32Set, ConcurrentMapUint32Uint32 and ConcurrentMapUint32Uint64.
instance abbrev pub uint32_key : Key ℕ
uint32_key = record { equal = ℕ_discrete; hash = key_hash_uint32 }
