-- ===== src/Queue/Handles.antt =====
-- container/queue/queue.go: the elements that Push hands out, and Remove and MoveBack of them.
use modern_go.Base.Outcome.{Outcome, ok, panic, diverges, Returns}
use modern_go.Base.{
  ℕ, ◌≡◌, refl, arith, Option-cases, ap, inl, inr, List, [], ◌∷◌, ◌++◌, Option, none, some,
}
use modern_go.Linked
use modern_go.Linked.{Element, Linked, find, erase}
use modern_go.Linked.Places.{
  IsValid, occurs, occurs-append, find-middle, erase-middle, new-IsValid, init-IsValid,
  push_back-IsValid, remove-IsValid, move_to_back-IsValid,
}
use modern_go.Queue.{Queue, new_queue, push, pop, remove, move_back, clear}

-- How a queue is reached: by the methods that change it, MoveBack of an element that is not nil. An
-- element that the queue does not hold any more changes nothing, as container/list documents; one
-- that Clear dropped is taken for such an element.
pub data Reachable {A : Type 0} : Queue A → Type 0 where
  created : Reachable new_queue
  pushed : {q : Queue A} (v : A) → Reachable q → Reachable (push q v).1
  popped : {q : Queue A} → Reachable q → Reachable (pop q).1
  removed : {q : Queue A} (e : Option ℕ) → Reachable q → Reachable (remove q e)
  moved : {q r : Queue A} (e : ℕ) → Reachable q → move_back q (some e) ≡ ok r → Reachable r
  cleared : {q : Queue A} → Reachable q → Reachable (clear q)

module _ {A : Type 0} where
  pub pop-IsValid : (q : Queue A) → IsValid q.list → IsValid (pop q).1.list
  unfolding pop
  pop-IsValid q valid = elim (Option-cases (Linked.front q.list)) [
    | inl empty ↦ rw (pop, empty) valid
    | inr (e, present) ↦ rw (pop, present) (remove-IsValid q.list e.address valid)
  ]

  abbrev list_of : Outcome (Queue A) → Linked A
  list_of (ok q) = q.list
  list_of (panic e) = Linked.new
  list_of diverges = Linked.new

  -- In every queue that the methods can reach an address belongs to one element at most, and the
  -- next address to none.
  pub Reachable-IsValid : (q : Queue A) → Reachable q → IsValid q.list
  unfolding new_queue push remove move_back clear
  Reachable-IsValid _ Reachable.created = new-IsValid
  Reachable-IsValid _ (Reachable.pushed v h) = push_back-IsValid _ v (Reachable-IsValid _ h)
  Reachable-IsValid _ (Reachable.popped {q} h) = pop-IsValid q (Reachable-IsValid _ h)
  Reachable-IsValid _ (Reachable.removed none h) = Reachable-IsValid _ h
  Reachable-IsValid _ (Reachable.removed (some e) h) = remove-IsValid _ e (Reachable-IsValid _ h)
  Reachable-IsValid r (Reachable.moved {q} e h step) =
      let same : Linked.move_to_back q.list e ≡ r.list = ap list_of step in
      rw same at (move_to_back-IsValid q.list e (Reachable-IsValid q h))
  Reachable-IsValid _ (Reachable.cleared h) = init-IsValid _

  -- In a reachable queue that holds `e` behind `before` and in front of `behind`, Remove of `e`
  -- leaves the two in their order, and MoveBack returns with `e` behind both.
  pub remove-move_back :
      (q : Queue A) (before behind : List (Element A)) (e : Element A)
      → Reachable q
      → q.list.elements ≡ before ++ e ∷ behind
      → ((remove q (some e.address)).list.elements ≡ before ++ behind)
        × Returns
            (move_back q (some e.address))
            (λ r. r.list.elements ≡ (before ++ behind) ++ e ∷ [])
  unfolding remove move_back Linked.remove Linked.move_to_back
  remove-move_back q before behind e h holds =
      rw
        (
          Linked.move_to_back,
          holds,
          find-middle e before behind once,
          erase-middle e before behind once,
        )
        (refl, (_, refl, rw (holds, erase-middle e before behind once) refl))
    where
      once : occurs e.address before ≡ 0
      once =
          let valid = Reachable-IsValid q h in
          ground
            (arith, rw holds at valid.once e.address, occurs-append e.address before (e ∷ behind))
