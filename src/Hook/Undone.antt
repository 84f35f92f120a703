-- ===== src/Hook/Undone.antt =====
-- Unhack after Hack, of gls/hook/goexit.go.
use mathlib.Core.List.{append_assoc}
use modern_go.Hook.{Bytes, word_at, write_word, swap_goexit, hack, unhack}
use modern_go.Hook.LastMatch.{Swapped, absent, last_match, swap_loop-Swapped, swap_goexit_lem}
use modern_go.Base.{
  ℕ, suc, ◌+◌, ◌*◌, ◌≤◌, ◌<◌, ◌≡◌, ◌≢◌, sym, ◌∙◌, ap, arith, ◌++◌, Bool, true, length, take, drop,
  length-take, take-append-drop, take-append, drop-append, length-append, drop_sum, dec_lt,
}

-- The m-th word is the last one that is `from`.
abbrev pub IsLast : Bytes → Bytes → ℕ → ℕ → Type 0
IsLast from sp n m =
    (m ≤ n) × (word_at sp (4 * m) ≡ from) × ((j : ℕ) → m < j → j ≤ n → word_at sp (4 * j) ≢ from)

Swapped-last :
    (from to sp : Bytes) (n m : ℕ) (r : Bool × Bytes)
    → IsLast from sp n m
    → Swapped from to sp n r
    → r ≡ (true, write_word sp (4 * m) to)
Swapped-last from to sp n m r (le, at, past) (absent none_of) = absurd (none_of m le at)
Swapped-last from to sp n m r (le, at, past) (last_match m' le' at' past') = elim (dec_lt m m') [
  | yes lt ↦ absurd (past m' lt le' at')
  | no ge ↦ elim (dec_lt m' m) [
    | yes lt ↦ absurd (past' m lt le at)
    | no ge' ↦ let e : m' ≡ m = omega arith in rw e
  ]
]

-- A word in its place.
module _ (a w b : Bytes) (eight : length w ≡ 8) where
  word_at_lem : word_at (a ++ (w ++ b)) (length a) ≡ w
  word_at_lem = rw (drop-append a (w ++ b), ← eight, take-append w b)

  write_word_lem : (v : Bytes) → write_word (a ++ (w ++ b)) (length a) v ≡ a ++ (v ++ b)
  write_word_lem v =
      rw
        (
          take-append a (w ++ b),
          drop_sum (length a) 8 (a ++ (w ++ b)),
          drop-append a (w ++ b),
          ← eight,
          drop-append w b,
        )
        (append_assoc a v b)

word_parts : (sp w : Bytes) (o : ℕ) → word_at sp o ≡ w → sp ≡ take o sp ++ (w ++ drop (o + 8) sp)
word_parts sp w o at =
    sym (take-append-drop o sp)
    ∙ ap (λ rest. take o sp ++ rest)
        (sym (take-append-drop 8 (drop o sp)) ∙ (rw (at, drop_sum o 8 sp)))

length-parts : (a v b : Bytes) → length (a ++ (v ++ b)) ≡ length a + (length v + length b)
length-parts a v b = length-append a (v ++ b) ∙ ap (λ n. length a + n) (length-append v b)

-- One word written over another, and back.
module _ (sp w v : Bytes) (o : ℕ) (at : word_at sp o ≡ w) (eight_w : length w ≡ 8)
    (eight_v : length v ≡ 8) (room : o ≤ length sp) where
  offset_lem : length (take o sp) ≡ o
  offset_lem = rw (length-take o sp) (omega arith)

  written_parts : write_word sp o v ≡ take o sp ++ (v ++ drop (o + 8) sp)
  written_parts =
      ap (λ s. write_word s o v) (word_parts sp w o at)
      ∙ ap (λ n. write_word (take o sp ++ (w ++ drop (o + 8) sp)) n v) (sym offset_lem)
      ∙ write_word_lem (take o sp) w (drop (o + 8) sp) eight_w v

  word_at-written : word_at (write_word sp o v) o ≡ v
  word_at-written =
      ap (λ s. word_at s o) written_parts
      ∙ ap (word_at (take o sp ++ (v ++ drop (o + 8) sp))) (sym offset_lem)
      ∙ word_at_lem (take o sp) v (drop (o + 8) sp) eight_v

  written_back : write_word (write_word sp o v) o w ≡ sp
  written_back =
      ap (λ s. write_word s o w) written_parts
      ∙ ap (λ n. write_word (take o sp ++ (v ++ drop (o + 8) sp)) n w) (sym offset_lem)
      ∙ write_word_lem (take o sp) v (drop (o + 8) sp) eight_v w
      ∙ sym (word_parts sp w o at)

  written_length : length (write_word sp o v) ≡ length sp
  written_length =
      ap length written_parts
      ∙ length-parts (take o sp) v (drop (o + 8) sp)
      ∙ ap (λ n. length (take o sp) + (n + length (drop (o + 8) sp))) (eight_v ∙ sym eight_w)
      ∙ sym (length-parts (take o sp) w (drop (o + 8) sp))
      ∙ ap length (sym (word_parts sp w o at))

module _ (original_goexit hacked_goexit below sp : Bytes) (k m : ℕ) where
  searched_last :
      (from to sp' : Bytes)
      → length below < 16
      → length sp' ≡ 16 * suc k
      → IsLast from sp' (4 * k + 2) m
      → swap_goexit from to (below ++ sp') ≡ (true, below ++ write_word sp' (4 * m) to)
  searched_last from to sp' low full last =
      swap_goexit_lem from to below sp' k low full
      ∙ ap (λ r. (r.0, below ++ r.1))
          (Swapped-last from to sp' (4 * k + 2) m _ last
            (swap_loop-Swapped from to sp' (4 * k + 2)))

  -- If a stack is fewer than 16 bytes and then a positive multiple of 16 bytes, in which goexit's
  -- address stands in a word at a multiple of four bytes and in no later one, and no later one is
  -- the hacked address once that is written there, then Hack succeeds, and Unhack after it succeeds
  -- and gives the stack back, the two addresses being of eight bytes.
  pub unhack-hack :
      length original_goexit ≡ 8
      → length hacked_goexit ≡ 8
      → length below < 16
      → length sp ≡ 16 * suc k
      → IsLast original_goexit sp (4 * k + 2) m
      → ((j : ℕ)
          → m < j
          → j ≤ 4 * k + 2
          → word_at (write_word sp (4 * m) hacked_goexit) (4 * j) ≢ hacked_goexit)
      → (frame : Bytes) × (hack original_goexit hacked_goexit (below ++ sp) ≡ (true, frame))
        × (unhack original_goexit hacked_goexit frame ≡ (true, below ++ sp))
  unfolding hack swap_goexit unhack
  unhack-hack eight_o eight_h low full (le, at, past) no_later =
      let room : 4 * m ≤ length sp = omega arith in
      let hacked : Bytes = write_word sp (4 * m) hacked_goexit in
      (
        below ++ hacked,
        searched_last original_goexit hacked_goexit sp low full (le, at, past),
        searched_last hacked_goexit original_goexit hacked low
              (written_length sp original_goexit hacked_goexit (4 * m) at eight_o eight_h room
                ∙ full)
              (
                le,
                word_at-written sp original_goexit hacked_goexit (4 * m) at eight_o eight_h room,
                no_later,
              )
            ∙ ap (λ s. (true, below ++ s))
                (written_back sp original_goexit hacked_goexit (4 * m) at eight_o eight_h room),
      )
