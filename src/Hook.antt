-- ===== src/Hook.antt =====
-- gls/hook/goexit.go, before Go 1.17: the search for goexit's address on a goroutine's stack. The
-- stack from the place of the argument up to its end is a list of bytes; a uintptr is the eight
-- bytes that it takes there, in their order in memory.
pub mod LastMatch
pub mod Undone
mod Examples
use mathlib.Core.Logic.{ite}
use modern_go.Base.{
  ℕ, zero, suc, ◌+◌, ◌-◌, ◌*◌, ◌/◌, ◌%◌, List, ◌++◌, Bool, true, false, ltb, if◌then◌else◌, length,
  take, drop, ℕ_discrete,
}

abbrev pub Bytes : Type 0
Bytes = List ℕ

pub Bytes-discrete : Discrete Bytes
Bytes-discrete = hlevel ℕ_discrete

abbrev pub align : ℕ
align = 4

-- `*(*uintptr)(unsafe.Pointer(&sp[offset]))`, read and written.
abbrev pub word_at : Bytes → ℕ → Bytes
word_at sp offset = take 8 (drop offset sp)

abbrev pub write_word : Bytes → ℕ → Bytes → Bytes
write_word sp offset word = take offset sp ++ word ++ drop (offset + 8) sp

-- The offsets from `align * n` down to 0: whether there was a match, and the stack.
unfoldable pub swap_loop : Bytes → Bytes → Bytes → ℕ → Bool × Bytes
swap_loop from to sp zero =
    ite (Bytes-discrete (word_at sp 0) from) (true, write_word sp 0 to) (false, sp)
swap_loop from to sp (suc n) =
    let rest = swap_loop from to sp n in
    ite (Bytes-discrete (word_at sp (align * suc n)) from) (true, write_word sp (align * suc n) to)
      rest

-- `sp` is the stack's end, cut to a multiple of 16 bytes; the first offset is `len(sp) - 8`.
pub swap_goexit : Bytes → Bytes → Bytes → Bool × Bytes
swap_goexit from to frame =
    let stack_size = length frame - length frame % 16 in
    let below = length frame - stack_size in
    let (success, sp) = swap_loop from to (drop below frame) ((stack_size - 8) / align) in
    if ltb stack_size 8 then (false, frame) else (success, take below frame ++ sp)

module _ (original_goexit hacked_goexit : Bytes) where
  pub hack : Bytes → Bool × Bytes
  hack = swap_goexit original_goexit hacked_goexit

  pub unhack : Bytes → Bool × Bytes
  unhack = swap_goexit hacked_goexit original_goexit
