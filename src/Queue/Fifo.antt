-- ===== src/Queue/Fifo.antt =====
-- container/queue/queue.go against its contract: first in, first out.
use mathlib.Core.Path.{ap₂}
use modern_go.Base.{
  ℕ, ◌≡◌, refl, arith, inl, inr, List, [], ◌∷◌, ◌++◌, Option, none, some, map, length-map, ap,
  length as length_of,
}
use modern_go.Linked
use modern_go.Linked.{Element, Linked, first_of, erase}
use modern_go.Linked.Places.{first-cases}
use modern_go.Queue.{Queue, length, front, push, pop, clear}

-- A call of a method that does not name an element, and what it answers.
pub data Call {ℓ} (A : Type ℓ) : Type ℓ where
  push_call : A → Call A
  pop_call front_call length_call clear_call : Call A

pub data Reply {ℓ} (A : Type ℓ) : Type ℓ where
  item : Option A → Reply A
  size : ℕ → Reply A
  done : Reply A

module _ {ℓ} {A : Type ℓ} where
  -- The items from front to back.
  abbrev pub view : Queue A → List A
  view q = map (λ e. e.value) q.list.elements

  unfoldable pub run : Queue A → Call A → Reply A × Queue A
  run q (push_call v) = (done, (push q v).1)
  run q pop_call = let (v, q') = pop q in (item v, q')
  run q front_call = (item (front q), q)
  run q length_call = (size (length q), q)
  run q clear_call = (done, clear q)

  -- The same on a plain list of items.
  unfoldable pub spec : List A → Call A → Reply A × List A
  spec xs (push_call v) = (done, xs ++ v ∷ [])
  spec [] pop_call = (item none, [])
  spec (x ∷ xs) pop_call = (item (some x), xs)
  spec [] front_call = (item none, [])
  spec (x ∷ xs) front_call = (item (some x), x ∷ xs)
  spec xs length_call = (size (length_of xs), xs)
  spec xs clear_call = (done, [])

  unfoldable pub run_all : Queue A → List (Call A) → List (Reply A) × Queue A
  run_all q [] = ([], q)
  run_all q (c ∷ cs) = let (r, q') = run q c in let (rs, last) = run_all q' cs in (r ∷ rs, last)

  unfoldable pub spec_all : List A → List (Call A) → List (Reply A) × List A
  spec_all xs [] = ([], xs)
  spec_all xs (c ∷ cs) =
      let (r, xs') = spec xs c in let (rs, last) = spec_all xs' cs in (r ∷ rs, last)

module _ {A : Type 0} where
  -- A pushed item comes last.
  map-append :
      (es ds : List (Element A))
      → map (λ e. e.value) (es ++ ds) ≡ map (λ e. e.value) es ++ map (λ e. e.value) ds
  map-append [] ds = refl
  map-append (e ∷ es) ds = ap (◌∷◌ e.value) (map-append es ds)

  erase-first : (e : Element A) (es : List (Element A)) → erase e.address (e ∷ es) ≡ es
  unfolding erase
  erase-first e es = ground arith

  run-spec :
      (q : Queue A) (c : Call A)
      → ((run q c).0 ≡ (spec (view q) c).0) × (view (run q c).1 ≡ (spec (view q) c).1)
  unfolding run spec length front push pop clear first_of Linked.len Linked.front Linked.push_back
      Linked.remove Linked.init
  run-spec q (push_call v) = (refl, map-append q.list.elements _)
  run-spec q pop_call = elim (first-cases q.list.elements) [
    | inl empty ↦ rw empty (refl, refl)
    | inr (e, es, starts) ↦ rw starts (refl, rw (erase-first e es))
  ]
  run-spec q front_call = elim (first-cases q.list.elements) [
    | inl empty ↦ rw empty (refl, refl)
    | inr (e, es, starts) ↦ rw starts (refl, refl)
  ]
  run-spec q length_call = (rw length-map, refl)
  run-spec q clear_call = (refl, refl)

  -- A sequence of calls of Push, Pop, Front, Length and Clear has on a queue the answers that it
  -- has on the list of its items, pushed at the end and popped at the front, and leaves the same
  -- items.
  pub run_all-fifo :
      (cs : List (Call A)) (q : Queue A)
      → ((run_all q cs).0 ≡ (spec_all (view q) cs).0)
        × (view (run_all q cs).1 ≡ (spec_all (view q) cs).1)
  unfolding run_all spec_all
  run_all-fifo [] q = (refl, refl)
  run_all-fifo (c ∷ cs) q =
      let (reply, items) = run-spec q c in
      let rest = run_all-fifo cs (run q c).1 in
      let (replies, last) = rw items at rest in (ap₂ ◌∷◌ reply replies, last)
