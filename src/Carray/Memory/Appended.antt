-- ===== src/Carray/Memory/Appended.antt =====
-- What `append` does to the items of a slice, and of others over the same block.
use mathlib.Core.Logic.{if_pos}
use mathlib.Core.List.{append_assoc}
use modern_go.Base.{
  ℕ, ◌+◌, ◌-◌, ◌≤◌, ◌<◌, ◌≡◌, refl, sym, ◌∙◌, ap, arith, List, [], ◌∷◌, ◌++◌, true, false, leb,
  length, take, drop, replicate, get_or, get_or-set, get_or_last, get_or_front, set as set_at,
  write, length-append, length-take, length-drop, take-append, drop-take_append, take-take_append,
  take-append_more, drop-take, drop_sum, dec_lt, ℕ_discrete,
}
use modern_go.Carray.Memory.{Slice, Memory, up_to, block_of, items, go_append}

module _ {ℓ} {A : Type ℓ} where
  pub record IsValid (mem : Memory A) (s : Slice) : Type 0 where
    pub in_memory : s.block < length mem
    pub in_block : s.offset + s.cap ≤ length (block_of mem s)
    pub in_cap : s.len ≤ s.cap

  behind : (b ys : List A) (p : ℕ) → p ≤ length b → drop p (take p b ++ ys) ≡ ys
  behind b ys p le =
      let e : p ≡ p + 0 = omega arith in
      ap (λ n. drop p (take n b ++ ys)) e ∙ drop-take_append p 0 b ys le

  -- A part of a block in which others are written.
  read_over :
      (b vs : List A) (p l : ℕ)
      → p ≤ length b
      → length vs ≤ l
      → take l (drop p (write b p vs)) ≡ vs ++ drop (length vs) (take l (drop p b))
  read_over b vs p l le fits =
      rw
        (
          behind b (vs ++ drop (p + length vs) b) p le,
          take-append_more l vs (drop (p + length vs) b) fits,
          drop_sum p (length vs) b,
          drop-take (length vs) l (drop p b),
        )
        refl

  read_before :
      (b vs : List A) (o l p : ℕ)
      → o + l ≤ p
      → p ≤ length b
      → take l (drop o (write b p vs)) ≡ take l (drop o b)
  read_before b vs o l p le fits =
      let e : p ≡ o + (p - o) = omega arith in
      ap (λ n. take l (drop o (take n b ++ (vs ++ drop (p + length vs) b)))) e
      ∙ ap (take l) (drop-take_append o (p - o) b (vs ++ drop (p + length vs) b) (omega arith))
      ∙ take-take_append l (p - o) (drop o b) (vs ++ drop (p + length vs) b) (omega arith)
          (omega (arith, length-drop o b))

  read_up_to :
      (b vs : List A) (o n : ℕ)
      → o + n ≤ length b
      → take (n + length vs) (drop o (write b (o + n) vs)) ≡ take n (drop o b) ++ vs
  read_up_to b vs o n fits =
      let w = drop (o + n + length vs) b in
      let u = take n (drop o b) in
      let size : length (u ++ vs) ≡ n + length vs =
        omega (arith, length-append u vs, length-take n (drop o b), length-drop o b) in
      ap (take (n + length vs))
        (drop-take_append o n b (vs ++ w) (omega arith) ∙ sym (append_assoc u vs w))
      ∙ ap (λ m. take m ((u ++ vs) ++ w)) (sym size)
      ∙ take-append (u ++ vs) w

  module _ (grow : ℕ → ℕ) (nil : A) (mem : Memory A) (s : Slice) (vs : List A)
      (valid : IsValid mem s) where
    -- There is room in the block.
    in_place :
        s.len + length vs ≤ s.cap
        → go_append grow nil mem s vs ≡ (
          set_at mem s.block (write (block_of mem s) (s.offset + s.len) vs),
          up_to s (s.len + length vs),
        )
    unfolding go_append
    in_place room =
        let yes : leb (s.len + length vs) s.cap ≡ true = ground arith in rw (go_append, yes) refl

    moved :
        s.cap < s.len + length vs
        → go_append grow nil mem s vs ≡ (
          mem ++ ((items mem s ++ vs) ++ replicate (grow (s.len + length vs)) nil) ∷ [],
          record {
            block = length mem;
            offset = 0;
            len = s.len + length vs;
            cap = s.len + length vs + grow (s.len + length vs);
          },
        )
    unfolding go_append
    moved full =
        let no : leb (s.len + length vs) s.cap ≡ false = ground arith in rw (go_append, no) refl

    written : (b : List A) → get_or (set_at mem s.block b) s.block [] ≡ b
    written b =
        get_or-set b [] mem s.block s.block valid.in_memory
        ∙ if_pos (ℕ_discrete s.block s.block) refl b (get_or mem s.block [])

    -- The items before and then those appended.
    pub go_append-items :
        items (go_append grow nil mem s vs).0 (go_append grow nil mem s vs).1 ≡ items mem s ++ vs
    go_append-items = elim (dec_lt s.cap (s.len + length vs)) [
      | yes full ↦
          let whole = (items mem s ++ vs) ++ replicate (grow (s.len + length vs)) nil in
          let size : length (items mem s ++ vs) ≡ s.len + length vs = omega (
            arith,
            length-append (items mem s) vs,
            length-take s.len (drop s.offset (block_of mem s)),
            length-drop s.offset (block_of mem s),
            valid.in_block,
            valid.in_cap,
          ) in
          rw (moved full, get_or_last mem whole [], ← size) (take-append (items mem s ++ vs) _)
      | no room ↦
          rw (in_place (omega arith), written (write (block_of mem s) (s.offset + s.len) vs))
            (read_up_to (block_of mem s) vs s.offset s.len
              (omega (arith, valid.in_block, valid.in_cap)))
    ]

    -- What is before the end of the slice stays.
    pub go_append-before :
        (o l : ℕ)
        → o + l ≤ s.offset + s.len
        → take l (drop o (get_or (go_append grow nil mem s vs).0 s.block []))
          ≡ take l (drop o (block_of mem s))
    go_append-before o l le = elim (dec_lt s.cap (s.len + length vs)) [
      | yes full ↦ rw (moved full, get_or_front mem _ s.block [] valid.in_memory) refl
      | no room ↦
          rw (in_place (omega arith), written (write (block_of mem s) (s.offset + s.len) vs))
            (read_before (block_of mem s) vs o l (s.offset + s.len) le
              (omega (arith, valid.in_block, valid.in_cap)))
    ]

    -- What is behind it is written over.
    pub go_append-behind :
        (l : ℕ)
        → s.len + length vs ≤ s.cap
        → length vs ≤ l
        → take l (drop (s.offset + s.len) (get_or (go_append grow nil mem s vs).0 s.block []))
          ≡ vs ++ drop (length vs) (take l (drop (s.offset + s.len) (block_of mem s)))
    go_append-behind l room fits =
        rw (in_place room, written (write (block_of mem s) (s.offset + s.len) vs))
          (read_over (block_of mem s) vs (s.offset + s.len) l (omega (arith, valid.in_block)) fits)
