-- ===== src/Linked/Places.antt =====
-- The addresses of a list's elements: each is held once, and the free ones not at all.
use modern_go.Base.{
  ℕ, suc, ◌+◌, ◌≤◌, ◌≡◌, refl, arith, List, [], ◌∷◌, ◌++◌, none, some, ◌==◌, if◌then◌else◌,
  Option-cases, inl, inr, ◌⊎◌,
}
use modern_go.Linked.{
  Element, Linked, find, erase, last_of, new, init, push_back, remove, move_to_back,
}

module _ {ℓ} {A : Type ℓ} where
  abbrev pub occurs : ℕ → List (Element A) → ℕ
  occurs a [] = 0
  occurs a (e ∷ es) = if e.address == a then suc (occurs a es) else occurs a es

  pub record IsValid (l : Linked A) : Type ℓ where
    pub once : (a : ℕ) → occurs a l.elements ≤ 1
    pub free : (a : ℕ) → l.next ≤ a → occurs a l.elements ≡ 0

module _ {A : Type 0} where
  pub occurs-append :
      (a : ℕ) (xs ys : List (Element A)) → occurs a (xs ++ ys) ≡ occurs a xs + occurs a ys
  occurs-append a [] ys = omega arith
  occurs-append a (x ∷ xs) ys = ground (arith, occurs-append a xs ys)

  -- The element of an address, with those before it and behind it.
  pub find-middle :
      (e : Element A) (xs ys : List (Element A))
      → occurs e.address xs ≡ 0
      → find e.address (xs ++ e ∷ ys) ≡ some e
  unfolding find
  find-middle e [] ys h = ground arith
  find-middle e (x ∷ xs) ys h = ground (arith, find-middle e xs ys)

  pub erase-middle :
      (e : Element A) (xs ys : List (Element A))
      → occurs e.address xs ≡ 0
      → erase e.address (xs ++ e ∷ ys) ≡ xs ++ ys
  unfolding erase
  erase-middle e [] ys h = ground arith
  erase-middle e (x ∷ xs) ys h = ground (arith, erase-middle e xs ys)

  pub find-absent : (a : ℕ) (es : List (Element A)) → occurs a es ≡ 0 → find a es ≡ none
  unfolding find
  find-absent a [] h = refl
  find-absent a (e ∷ es) h = ground (arith, find-absent a es)

  pub erase-absent : (a : ℕ) (es : List (Element A)) → occurs a es ≡ 0 → erase a es ≡ es
  unfolding erase
  erase-absent a [] h = refl
  erase-absent a (e ∷ es) h = ground (arith, erase-absent a es)

  -- The last element is the one at the end.
  pub last_of-append : (e : Element A) (xs : List (Element A)) → last_of (xs ++ e ∷ []) ≡ some e
  unfolding last_of
  last_of-append e [] = refl
  last_of-append e (x ∷ xs) = rw (last_of-append e xs)

  pub first-cases :
      (es : List (Element A))
      → (es ≡ []) ⊎ ((e : Element A) × (xs : List (Element A)) × (es ≡ e ∷ xs))
  first-cases [] = inl refl
  first-cases (e ∷ xs) = inr (e, xs, refl)

  pub last-cases :
      (es : List (Element A))
      → (es ≡ []) ⊎ ((xs : List (Element A)) × (e : Element A) × (es ≡ xs ++ e ∷ []))
  last-cases [] = inl refl
  last-cases (x ∷ es) = elim (last-cases es) [
    | inl none_left ↦ inr ([], x, rw none_left)
    | inr (xs, e, ends) ↦ inr (x ∷ xs, e, rw ends)
  ]

  -- What is found and what is left make up the list.
  pub occurs-erase :
      (a b : ℕ) (e : Element A) (es : List (Element A))
      → find a es ≡ some e
      → occurs b (e ∷ erase a es) ≡ occurs b es
  unfolding find erase
  occurs-erase a b e [] h = ground arith
  occurs-erase a b e (x ∷ es) h = ground (arith, occurs-erase a b e es)

  find-address :
      (a : ℕ) (e : Element A) (es : List (Element A)) → find a es ≡ some e → e.address ≡ a
  unfolding find
  find-address a e [] h = ground arith
  find-address a e (x ∷ es) h = ground (arith, find-address a e es)

  -- What the operations leave of an address: no more than was there, but for the new one.
  pub erase-le : (a b : ℕ) (es : List (Element A)) → occurs b (erase a es) ≤ occurs b es
  unfolding erase
  erase-le a b [] = omega arith
  erase-le a b (e ∷ es) = ground (arith, erase-le a b es)

  pub new-IsValid : IsValid {A = A} new
  unfolding new
  new-IsValid = record { once = λ a. omega arith; free = λ a h. refl }

  pub init-IsValid : (l : Linked A) → IsValid (init l)
  unfolding init
  init-IsValid l = record { once = λ a. omega arith; free = λ a h. refl }

  pub push_back-IsValid : (l : Linked A) (v : A) → IsValid l → IsValid (push_back l v).1
  unfolding push_back
  push_back-IsValid l v valid = record {
    once = λ a. ground (
      arith,
      occurs-append a l.elements ((record { address = l.next; value = v }) ∷ []),
      valid.once a,
      valid.free a,
    );
    free = λ a h. ground (
      arith,
      occurs-append a l.elements ((record { address = l.next; value = v }) ∷ []),
      valid.free a,
    );
  }

  pub remove-IsValid : (l : Linked A) (a : ℕ) → IsValid l → IsValid (remove l a)
  unfolding remove
  remove-IsValid l a valid = record {
    once = λ b. omega (arith, erase-le a b l.elements, valid.once b);
    free = λ b h. omega (arith, erase-le a b l.elements, valid.free b h);
  }

  pub move_to_back-IsValid : (l : Linked A) (a : ℕ) → IsValid l → IsValid (move_to_back l a)
  unfolding move_to_back
  move_to_back-IsValid l a valid = elim (Option-cases (find a l.elements)) [
    | inl absent ↦ rw (move_to_back, absent) valid
    | inr (e, present) ↦
        rw (move_to_back, present)
          record {
            once = λ b. omega (arith, kept b e present, valid.once b);
            free = λ b h. omega (arith, kept b e present, valid.free b h);
          }
  ]
    where
      kept :
          (b : ℕ) (e : Element A)
          → find a l.elements ≡ some e
          → occurs b (erase a l.elements ++ e ∷ []) ≡ occurs b l.elements
      kept b e present = ground (
        arith,
        occurs-append b (erase a l.elements) (e ∷ []),
        occurs-erase a b e l.elements present,
      )
