-- ===== src/Queue.antt =====
-- container/queue/queue.go: a queue over a linked list. Every method holds the queue's lock from
-- its first line to its last, and the methods here run one after another, so the lock leaves no
-- trace. An `*list.Element` is the element's address, and none is nil.
pub mod Fifo
pub mod Handles
mod Examples
use modern_go.Base.Outcome.{Outcome, ok, panic, nil_dereference}
use modern_go.Base.{ℕ, Option, none, some}
use modern_go.Linked
use modern_go.Linked.{Linked}

pub record Queue {ℓ} (A : Type ℓ) : Type ℓ where
  pub list : Linked A

module _ {ℓ} {A : Type ℓ} where
  pub new_queue : Queue A
  new_queue = record { list = Linked.new }

  pub length : Queue A → ℕ
  length q = Linked.len q.list

  pub front : Queue A → Option A
  front q = elim (Linked.front q.list) [ none ↦ none | some e ↦ some e.value ]

  pub push : Queue A → A → Option ℕ × Queue A
  push q v = let (e, l) = Linked.push_back q.list v in (some e, record q { list = l })

  pub remove : Queue A → Option ℕ → Queue A
  remove q none = q
  remove q (some e) = record q { list = Linked.remove q.list e }

  pub pop : Queue A → Option A × Queue A
  pop q = elim (Linked.front q.list) [
    | none ↦ (none, q)
    | some e ↦ (some e.value, record q { list = Linked.remove q.list e.address })
  ]

  -- MoveToBack reads its element's list first, which a nil element has not.
  pub move_back : Queue A → Option ℕ → Outcome (Queue A)
  move_back q none = panic nil_dereference
  move_back q (some e) = ok (record q { list = Linked.move_to_back q.list e })

  pub clear : Queue A → Queue A
  clear q = record q { list = Linked.init q.list }
