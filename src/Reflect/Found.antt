-- ===== src/Reflect/Found.antt =====
-- gls/g/reflect.go: what typeByString finds.
use modern_go.Base.Outcome.{◌>>=◌, Returns}
use modern_go.Base.{
  ℕ, ◌≡◌, refl, ◌∙◌, arith, List, [], ◌∷◌, Option, none, some, true, length, get_elem?,
  get_elem?-inside, dec_lt, Option-cases, inl, inr, ◌⊎◌,
}
use modern_go.Reflect.{Bytes, str_le, str_eq, Runtime, target, entry, type_loop, type_by_string}
use modern_go.Reflect.Search.{IsSorted, IsFirst, binary_search-IsFirst, get_elem?-beyond}

str_eq_sound : (a b : Bytes) → str_eq a b ≡ true → a ≡ b
unfolding str_eq
str_eq_sound [] [] e = refl
str_eq_sound [] (y ∷ b) e = ground (arith, e)
str_eq_sound (x ∷ a) [] e = ground (arith, e)
str_eq_sound (x ∷ a) (y ∷ b) e = ground (arith, e, str_eq_sound a b)

str_eq_self : (a : Bytes) → str_eq a a ≡ true
unfolding str_eq
str_eq_self [] = refl
str_eq_self (x ∷ a) = ground (arith, str_eq_self a)

str_le_self : (a : Bytes) → str_le a a ≡ true
unfolding str_le
str_le_self [] = refl
str_le_self (x ∷ a) = ground (arith, str_le_self a)

str_le_antisym : (a b : Bytes) → str_le a b ≡ true → str_le b a ≡ true → a ≡ b
unfolding str_le
str_le_antisym [] [] p q = refl
str_le_antisym [] (y ∷ b) p q = ground (arith, q)
str_le_antisym (x ∷ a) [] p q = ground (arith, p)
str_le_antisym (x ∷ a) (y ∷ b) p q = ground (arith, p, q, str_le_antisym a b)

module _ {T : Type 0} (rt : Runtime T) where
  -- Every module's table is sorted.
  abbrev pub AllSorted : List (List T) → Type 0
  AllSorted [] = Unit
  AllSorted (offs ∷ rest) = IsSorted rt offs × AllSorted rest

  -- Some module lists a type of the string `s`.
  abbrev pub Listed : Bytes → List (List T) → Type 0
  Listed s [] = ⊥
  Listed s (offs ∷ rest) =
      ((j : ℕ) × (t : T) × (get_elem? offs j ≡ some t) × (rt.string t ≡ s)) ⊎ Listed s rest

  -- A type with the target's string is a pointer to a type of the string that is sought.
  abbrev pub IsPointed : Bytes → Type 0
  IsPointed str =
      (t : T)
      → rt.string t ≡ target str
      → (rt.is_ptr t ≡ true) × ((rt.string t ≡ str) ⊎ (rt.string (rt.elem t) ≡ str))

  -- What is found has the string; and something is found if the target is listed.
  pub record Found (str : Bytes) (offset : List (List T)) (r : Option T) : Type 0 where
    pub sound : (t : T) → r ≡ some t → rt.string t ≡ str
    pub complete : IsPointed str → Listed (target str) offset → ¬ (r ≡ none)

  entry_sound : (str : Bytes) (o : Option T) (t : T) → entry rt str o ≡ some t → rt.string t ≡ str
  unfolding entry
  entry_sound str none t e = ground (arith, e)
  entry_sound str (some typ) t e =
      ground
        (arith, e, str_eq_sound (rt.string typ) str, str_eq_sound (rt.string (rt.elem typ)) str)

  entry_complete :
      (str : Bytes) (typ : T)
      → IsPointed str
      → rt.string typ ≡ target str
      → ¬ (entry rt str (some typ) ≡ none)
  unfolding entry
  entry_complete str typ pointed is_target e =
      ground (arith, e, pointed typ is_target, str_eq_self str)

  -- The first index at the target or above is the target's if the table has it.
  first-target :
      (offs : List T) (s : Bytes) (i j : ℕ) (t : T)
      → IsSorted rt offs
      → IsFirst rt offs s i
      → get_elem? offs j ≡ some t
      → rt.string t ≡ s
      → (u : T) × (get_elem? offs i ≡ some u) × (rt.string u ≡ s)
  first-target offs s i j t sorted first there is_s = elim (dec_lt j i) [
    | yes early ↦
        let not_below = first.below j t early there in
        absurd (ground (arith, rw is_s at not_below, str_le_self s))
    | no later ↦ elim (dec_lt j (length offs)) [
      | no beyond ↦ absurd (ground (arith, get_elem?-beyond offs j (omega arith), there))
      | yes inside ↦
          let (u, here) = get_elem?-inside offs i (omega arith) in
          let above = first.above i u (omega arith) here in
          let under = sorted i j u t (omega arith) here there in
          (u, here, str_le_antisym (rt.string u) s (rw is_s at under) above)
    ]
  ]

  type_loop-Found :
      (str : Bytes) (offset : List (List T))
      → AllSorted offset
      → Returns (type_loop rt str offset) (Found str offset)
  unfolding type_loop
  type_loop-Found str [] sorted = (
    none,
    refl,
    record { sound = λ t e. ground (arith, e); complete = λ pointed listed. absurd listed },
  )
  type_loop-Found str (offs ∷ rest) sorted =
      let (i, ran, first) = binary_search-IsFirst rt offs (target str) sorted.0 in
      elim (Option-cases (entry rt str (get_elem? offs i))) [
        | inr (typ, hit) ↦ (
          some typ,
          rw (type_loop, ran, ◌>>=◌, hit),
          record {
            sound = λ t e. entry_sound str (get_elem? offs i) t (hit ∙ e);
            complete = λ pointed listed e. ground (arith, e);
          },
        )
        | inl miss ↦
            let (r, run, found) = type_loop-Found str rest sorted.1 in
            (
              r,
              rw (type_loop, ran, ◌>>=◌, miss) run,
              record {
                sound = found.sound;
                complete = λ pointed listed. elim listed [
                  | inl (j, t, there, is_target) ↦
                      let (u, here, is_u) =
                        first-target offs (target str) i j t sorted.0 first there is_target in
                      absurd (entry_complete str u pointed is_u (rw here at miss))
                  | inr elsewhere ↦ found.complete pointed elsewhere
                ];
              },
            )
      ]

  -- Over sorted tables typeByString returns without a panic; a type that it returns has the string
  -- that was asked for, and if some table lists the string with a `*` in front, and every type of
  -- that string points to a type of the string asked for, then it returns a type.
  pub type_by_string-Found :
      (str : Bytes) (offset : List (List T))
      → AllSorted offset
      → Returns (type_by_string rt str offset) (Found str offset)
  unfolding type_by_string
  type_by_string-Found str offset sorted = type_loop-Found str offset sorted
