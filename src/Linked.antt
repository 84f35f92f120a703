-- ===== src/Linked.antt =====
-- container/list of Go's standard library, as much of it as container/queue and container/stack
-- use. A list is its elements from front to back, each with the address that the caller may keep,
-- and the next free address. An address that the list does not hold, or holds no more, changes
-- nothing. Only an element that the list held when Init emptied it would still count as the list's
-- own; such an address is not given again here.
pub mod Places
use modern_go.Base.{ℕ, suc, List, [], ◌∷◌, ◌++◌, Option, none, some, ◌==◌, if◌then◌else◌, length}

pub record Element {ℓ} (A : Type ℓ) : Type ℓ where
  pub address : ℕ
  pub value : A

pub record Linked {ℓ} (A : Type ℓ) : Type ℓ where
  pub elements : List (Element A)
  pub next : ℕ

module _ {ℓ} {A : Type ℓ} where
  unfoldable pub new : Linked A
  new = record { elements = []; next = 0 }

  unfoldable pub init : Linked A → Linked A
  init l = record l { elements = [] }

  unfoldable pub len : Linked A → ℕ
  len l = length l.elements

  unfoldable pub first_of : List (Element A) → Option (Element A)
  first_of [] = none
  first_of (e ∷ es) = some e

  unfoldable pub last_of : List (Element A) → Option (Element A)
  last_of [] = none
  last_of (e ∷ es) = elim (last_of es) [ none ↦ some e | some d ↦ some d ]

  unfoldable pub find : ℕ → List (Element A) → Option (Element A)
  find a [] = none
  find a (e ∷ es) = if e.address == a then some e else find a es

  unfoldable pub erase : ℕ → List (Element A) → List (Element A)
  erase a [] = []
  erase a (e ∷ es) = if e.address == a then es else e ∷ erase a es

  unfoldable pub front : Linked A → Option (Element A)
  front l = first_of l.elements

  unfoldable pub back : Linked A → Option (Element A)
  back l = last_of l.elements

  -- The new element's address, and the list.
  unfoldable pub push_back : Linked A → A → ℕ × Linked A
  push_back l v = (
    l.next,
    record {
      elements = l.elements ++ (record { address = l.next; value = v }) ∷ [];
      next = suc l.next;
    },
  )

  unfoldable pub remove : Linked A → ℕ → Linked A
  remove l a = record l { elements = erase a l.elements }

  unfoldable pub move_to_back : Linked A → ℕ → Linked A
  move_to_back l a = elim (find a l.elements) [
    | none ↦ l
    | some e ↦ record l { elements = erase a l.elements ++ e ∷ [] }
  ]
