-- ===== src/Hook/LastMatch.antt =====
-- Hack and Unhack of gls/hook/goexit.go: the last match is swapped, and swapped back.
use mathlib.Core.Path.{subst}
use mathlib.Core.Logic.{if_pos, if_neg}
use modern_go.Hook.{Bytes, Bytes-discrete, align, word_at, write_word, swap_loop, swap_goexit}
use modern_go.Base.{
  ℕ, zero, suc, ◌+◌, ◌-◌, ◌*◌, ◌/◌, ◌%◌, ◌≤◌, ◌<◌, ◌≡◌, ◌≢◌, refl, ◌∙◌, ap, arith, ◌++◌, Bool, true,
  false, ltb, length, take, drop, length-append, length-take, length-drop, take-append-drop,
  take-append, drop-append, dec_lt,
}

-- The result on the aligned offsets up to `4 * n`.
pub data Swapped (from to sp : Bytes) (n : ℕ) : Bool × Bytes → Type 0 where
  absent : ((m : ℕ) → m ≤ n → word_at sp (4 * m) ≢ from) → Swapped from to sp n (false, sp)
  last_match :
      (m : ℕ)
      → m ≤ n
      → word_at sp (4 * m) ≡ from
      → ((j : ℕ) → m < j → j ≤ n → word_at sp (4 * j) ≢ from)
      → Swapped from to sp n (true, write_word sp (4 * m) to)

module _ (from to sp : Bytes) where
  Swapped-suc :
      (n : ℕ) (r : Bool × Bytes)
      → word_at sp (4 * suc n) ≢ from
      → Swapped from to sp n r
      → Swapped from to sp (suc n) r
  Swapped-suc n r ne (absent none_of) = absent (λ m le. elim (dec_lt m (suc n)) [
    | yes lt ↦ none_of m (omega arith)
    | no ge ↦ let e : suc n ≡ m = omega arith in rw (← e) ne
  ])
  Swapped-suc n r ne (last_match m le at past) = last_match m (omega arith) at (λ j lt le'.
      elim (dec_lt j (suc n)) [
        | yes lt' ↦ past j lt (omega arith)
        | no ge ↦ let e : suc n ≡ j = omega arith in rw (← e) ne
      ])

  pub swap_loop-Swapped : (n : ℕ) → Swapped from to sp n (swap_loop from to sp n)
  unfolding swap_loop
  swap_loop-Swapped zero = elim (Bytes-discrete (word_at sp 0) from) [
    | yes e ↦
        rw (swap_loop, if_pos (Bytes-discrete (word_at sp 0) from) e)
          (last_match 0 (omega arith) e (λ j p q. absurd (omega arith)))
    | no ne ↦
        rw (swap_loop, if_neg (Bytes-discrete (word_at sp 0) from) ne)
          (absent (λ m le. let e : 0 ≡ m = omega arith in rw (← e) ne))
  ]
  swap_loop-Swapped (suc n) = elim (Bytes-discrete (word_at sp (4 * suc n)) from) [
    | yes e ↦
        rw (swap_loop, if_pos (Bytes-discrete (word_at sp (4 * suc n)) from) e)
          (last_match (suc n) (omega arith) e (λ j p q. absurd (omega arith)))
    | no ne ↦
        rw (swap_loop, if_neg (Bytes-discrete (word_at sp (4 * suc n)) from) ne)
          (Swapped-suc n _ ne (swap_loop-Swapped n))
  ]

-- The part of the stack that is searched.
module _ (from to below sp : Bytes) (k : ℕ) (low : length below < 16)
    (full : length sp ≡ 16 * suc k) where
  frame_size : length (below ++ sp) ≡ length below + 16 * suc k
  frame_size = length-append below sp ∙ ap (λ n. length below + n) full

  stack_size_lem : length (below ++ sp) - length (below ++ sp) % 16 ≡ 16 * suc k
  stack_size_lem = rw frame_size (omega arith)

  below_lem : length (below ++ sp) - 16 * suc k ≡ length below
  below_lem = rw frame_size (omega arith)

  some_size : ltb (16 * suc k) 8 ≡ false
  some_size = ground arith

  steps : (16 * suc k - 8) / align ≡ 4 * k + 2
  steps = omega arith

  pub swap_goexit_lem :
      swap_goexit from to (below ++ sp)
      ≡ ((swap_loop from to sp (4 * k + 2)).0, below ++ (swap_loop from to sp (4 * k + 2)).1)
  unfolding swap_goexit
  swap_goexit_lem = rw (
    swap_goexit,
    stack_size_lem,
    some_size,
    below_lem,
    take-append below sp,
    drop-append below sp,
    steps,
  )

-- What a search of the whole stack comes to.
pub data SwappedLast (from to frame : Bytes) : Bool × Bytes → Type 0 where
  too_short : length frame < 16 → SwappedLast from to frame (false, frame)
  searched :
      (below sp : Bytes) (k : ℕ) (r : Bool × Bytes)
      → frame ≡ below ++ sp
      → length below < 16
      → length sp ≡ 16 * suc k
      → Swapped from to sp (4 * k + 2) r
      → SwappedLast from to frame (r.0, below ++ r.1)

long_stack-SwappedLast :
    (from to below sp : Bytes) (k : ℕ)
    → length below < 16
    → length sp ≡ 16 * suc k
    → SwappedLast from to (below ++ sp) (swap_goexit from to (below ++ sp))
long_stack-SwappedLast from to below sp k low full =
    rw (swap_goexit_lem from to below sp k low full)
      (searched below sp k _ refl low full (swap_loop-Swapped from to sp (4 * k + 2)))

-- For every two words and every stack, swapGoexit swaps the last one of the first words that stands
-- at a multiple of four bytes, in the stack's end as far as that is a multiple of 16 bytes, and
-- changes and answers nothing if there is none.
pub swap_goexit-SwappedLast :
    (from to frame : Bytes) → SwappedLast from to frame (swap_goexit from to frame)
unfolding swap_goexit
swap_goexit-SwappedLast from to frame = elim (dec_lt (length frame) 16) [
  | yes short ↦
      let none_left : length frame - length frame % 16 ≡ 0 = omega arith in
      rw (swap_goexit, none_left) (too_short short)
  | no long ↦
      subst (λ f. SwappedLast from to f (swap_goexit from to f))
        (take-append-drop (length frame % 16) frame)
        (long_stack-SwappedLast from to (take (length frame % 16) frame)
          (drop (length frame % 16) frame) (length frame / 16 - 1)
          (rw (length-take (length frame % 16) frame) (omega arith))
          (rw (length-drop (length frame % 16) frame) (omega arith)))
]
