-- ===== src/Stack.antt =====
-- container/stack/stack.go: a stack over a linked list. Every method holds the stack's lock from
-- its first line to its last, and the methods here run one after another, so the lock leaves no
-- trace.
pub mod Lifo
mod Examples
use modern_go.Base.{ℕ, Option, none, some}
use modern_go.Linked
use modern_go.Linked.{Linked}

pub record Stack {ℓ} (A : Type ℓ) : Type ℓ where
  pub list : Linked A

module _ {ℓ} {A : Type ℓ} where
  pub new_stack : Stack A
  new_stack = record { list = Linked.new }

  pub length : Stack A → ℕ
  length s = Linked.len s.list

  pub push : Stack A → A → Stack A
  push s v = record s { list = (Linked.push_back s.list v).1 }

  pub pop : Stack A → Option A × Stack A
  pop s = elim (Linked.back s.list) [
    | none ↦ (none, s)
    | some e ↦ (some e.value, record s { list = Linked.remove s.list e.address })
  ]

  pub clear : Stack A → Stack A
  clear s = record s { list = Linked.init s.list }
