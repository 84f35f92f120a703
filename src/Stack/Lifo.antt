-- ===== src/Stack/Lifo.antt =====
-- container/stack/stack.go against its contract: last in, first out.
use mathlib.Core.Path.{ap₂}
use mathlib.Core.List.{append-nil}
use modern_go.Base.{
  ℕ, ◌+◌, ◌≡◌, refl, arith, ap, ◌∙◌, Option-cases, inl, inr, List, [], ◌∷◌, ◌++◌, Option, none,
  some, length as length_of,
}
use modern_go.Linked
use modern_go.Linked.{Element, Linked, last_of, erase}
use modern_go.Linked.Places.{
  IsValid, occurs-append, last-cases, last_of-append, erase-middle, new-IsValid, init-IsValid,
  push_back-IsValid, remove-IsValid,
}
use modern_go.Stack.{Stack, new_stack, length, push, pop, clear}

-- A call of a method, and what it answers.
pub data Call {ℓ} (A : Type ℓ) : Type ℓ where
  push_call : A → Call A
  pop_call length_call clear_call : Call A

pub data Reply {ℓ} (A : Type ℓ) : Type ℓ where
  item : Option A → Reply A
  size : ℕ → Reply A
  done : Reply A

module _ {ℓ} {A : Type ℓ} where
  -- The items from the top down.
  abbrev downward : List (Element A) → List A → List A
  downward [] below = below
  downward (e ∷ es) below = downward es (e.value ∷ below)

  abbrev pub view : Stack A → List A
  view s = downward s.list.elements []

  unfoldable pub run : Stack A → Call A → Reply A × Stack A
  run s (push_call v) = (done, push s v)
  run s pop_call = let (v, s') = pop s in (item v, s')
  run s length_call = (size (length s), s)
  run s clear_call = (done, clear s)

  -- The same on a plain list of items, the top first.
  unfoldable pub spec : List A → Call A → Reply A × List A
  spec xs (push_call v) = (done, v ∷ xs)
  spec [] pop_call = (item none, [])
  spec (x ∷ xs) pop_call = (item (some x), xs)
  spec xs length_call = (size (length_of xs), xs)
  spec xs clear_call = (done, [])

  unfoldable pub run_all : Stack A → List (Call A) → List (Reply A) × Stack A
  run_all s [] = ([], s)
  run_all s (c ∷ cs) = let (r, s') = run s c in let (rs, last) = run_all s' cs in (r ∷ rs, last)

  unfoldable pub spec_all : List A → List (Call A) → List (Reply A) × List A
  spec_all xs [] = ([], xs)
  spec_all xs (c ∷ cs) =
      let (r, xs') = spec xs c in let (rs, last) = spec_all xs' cs in (r ∷ rs, last)

module _ {A : Type 0} where
  downward-append :
      (es : List (Element A)) (e : Element A) (below : List A)
      → downward (es ++ e ∷ []) below ≡ e.value ∷ downward es below
  downward-append [] e below = refl
  downward-append (d ∷ es) e below = downward-append es e (d.value ∷ below)

  length-downward :
      (es : List (Element A)) (below : List A)
      → length_of (downward es below) ≡ length_of es + length_of below
  length-downward [] below = omega arith
  length-downward (e ∷ es) below = omega (arith, length-downward es (e.value ∷ below))

  -- The top element's address stands nowhere below it.
  erase-last :
      (l : Linked A) (es : List (Element A)) (e : Element A)
      → IsValid l
      → l.elements ≡ es ++ e ∷ []
      → erase e.address (es ++ e ∷ []) ≡ es
  erase-last l es e valid ends =
      erase-middle e es []
        (ground (arith, rw ends at valid.once e.address, occurs-append e.address es (e ∷ [])))
      ∙ append-nil es

  run-IsValid : (s : Stack A) (c : Call A) → IsValid s.list → IsValid (run s c).1.list
  unfolding run push pop clear
  run-IsValid s (push_call v) valid = push_back-IsValid s.list v valid
  run-IsValid s pop_call valid = elim (Option-cases (Linked.back s.list)) [
    | inl empty ↦ rw (run, pop, empty) valid
    | inr (e, present) ↦ rw (run, pop, present) (remove-IsValid s.list e.address valid)
  ]
  run-IsValid s length_call valid = valid
  run-IsValid s clear_call valid = init-IsValid s.list

  run-spec :
      (s : Stack A) (c : Call A)
      → IsValid s.list
      → ((run s c).0 ≡ (spec (view s) c).0) × (view (run s c).1 ≡ (spec (view s) c).1)
  unfolding run spec length push pop clear last_of Linked.len Linked.back Linked.push_back
      Linked.remove Linked.init
  run-spec s (push_call v) valid = (refl, downward-append s.list.elements _ [])
  run-spec s pop_call valid = elim (last-cases s.list.elements) [
    | inl empty ↦ rw empty (refl, refl)
    | inr (es, e, ends) ↦
        rw
          (
            pop,
            Linked.back,
            ends,
            last_of-append e es,
            Linked.remove,
            ends,
            erase-last s.list es e valid ends,
            downward-append,
          )
          (refl, refl)
  ]
  run-spec s length_call valid = (ap size (omega (arith, length-downward s.list.elements [])), refl)
  run-spec s clear_call valid = (refl, refl)

  run_all-spec_from :
      (cs : List (Call A)) (s : Stack A)
      → IsValid s.list
      → ((run_all s cs).0 ≡ (spec_all (view s) cs).0)
        × (view (run_all s cs).1 ≡ (spec_all (view s) cs).1)
  unfolding run_all spec_all
  run_all-spec_from [] s valid = (refl, refl)
  run_all-spec_from (c ∷ cs) s valid =
      let (reply, items) = run-spec s c valid in
      let rest = run_all-spec_from cs (run s c).1 (run-IsValid s c valid) in
      let (replies, last) = rw items at rest in (ap₂ ◌∷◌ reply replies, last)

  -- A sequence of calls of Push, Pop, Length and Clear on a new stack has the answers that it has
  -- on an empty list of items, pushed and popped at its head, and leaves the same items.
  pub run_all-lifo :
      (cs : List (Call A))
      → ((run_all new_stack cs).0 ≡ (spec_all [] cs).0)
        × (view (run_all new_stack cs).1 ≡ (spec_all [] cs).1)
  unfolding new_stack Linked.new
  run_all-lifo cs = run_all-spec_from cs new_stack new-IsValid
