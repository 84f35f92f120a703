-- ===== src/Hook/Examples.antt =====
-- A stack with goexit's address on it.
use modern_go.Hook.{Bytes, word_at, write_word, swap_goexit, hack, unhack}
use modern_go.Hook.LastMatch.{SwappedLast, swap_goexit-SwappedLast}
use modern_go.Hook.Undone.{unhack-hack}
use modern_go.Base.{ℕ, ◌*◌, ◌<◌, ◌≤◌, ◌≡◌, ◌≢◌, refl, arith, ap, ◌++◌, true, replicate, get_or}

abbrev original : Bytes
original = replicate 8 1

abbrev hacked : Bytes
hacked = replicate 8 2

abbrev below : Bytes
below = replicate 3 1

abbrev stack_end : Bytes
stack_end = replicate 4 9 ++ original ++ replicate 4 9

abbrev fifth : Bytes → ℕ
fifth s = get_or s 4 0

no_later_original : (j : ℕ) → 1 < j → j ≤ 2 → word_at stack_end (4 * j) ≢ original
no_later_original j lt le =
    let e : 2 ≡ j = omega arith in
    rw (← e) (λ h. let nine_one : Path ℕ 9 1 = ap fifth h in absurd (omega arith))

no_later_hacked : (j : ℕ) → 1 < j → j ≤ 2 → word_at (write_word stack_end 4 hacked) (4 * j) ≢ hacked
no_later_hacked j lt le =
    let e : 2 ≡ j = omega arith in
    rw (← e) (λ h. let nine_two : Path ℕ 9 2 = ap fifth h in absurd (omega arith))

unhack-hack_example :
    (frame : Bytes) × (hack original hacked (below ++ stack_end) ≡ (true, frame))
    × (unhack original hacked frame ≡ (true, below ++ stack_end))
unhack-hack_example =
    unhack-hack original hacked below stack_end 0 1 refl refl (omega arith) refl
      (omega arith, refl, no_later_original) no_later_hacked

swap_goexit-SwappedLast_example :
    SwappedLast original hacked
      (below ++ stack_end)
      (swap_goexit original hacked (below ++ stack_end))
swap_goexit-SwappedLast_example = swap_goexit-SwappedLast original hacked (below ++ stack_end)
