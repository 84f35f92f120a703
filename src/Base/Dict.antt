-- ===== src/Base/Dict.antt =====
-- Go's built-in maps: a list of entries with no key twice. Iteration visits every entry once, in an
-- order that the language leaves open.
use mathlib.Core.List.{Permᴰ}
use mathlib.Core.Logic.{ite, if_pos, if_neg}
use mathlib.Core.Option.{or_else}
use mathlib.Core.Path.{subst₂}
use modern_go.Base.{
  ℕ, suc, ◌≡◌, refl, sym, ◌∙◌, ap, arith, List, [], ◌∷◌, ◌++◌, Option, none, some, length, map,
}

abbrev pub Dict {ℓ} : Type ℓ → Type ℓ → Type ℓ
Dict K V = List (K × V)

-- One for a value, none for a missing one.
unfoldable pub present {ℓ} : {V : Type ℓ} → Option V → ℕ
present none = 0
present (some v) = 1

-- How often a key stands in a list of keys.
unfoldable pub occurs {ℓ} : {K : Type ℓ} → Discrete K → K → List K → ℕ
occurs key_eq q [] = 0
occurs key_eq q (k ∷ ks) = let rest = occurs key_eq q ks in ite (key_eq k q) (suc rest) rest

module _ {ℓ} {K : Type ℓ} (key_eq : Discrete K) (k q : K) (ks : List K) where
  pub occurs_here : k ≡ q → occurs key_eq q (k ∷ ks) ≡ suc (occurs key_eq q ks)
  unfolding occurs
  occurs_here e = if_pos (key_eq k q) e _ _

  pub occurs_later : ¬ (k ≡ q) → occurs key_eq q (k ∷ ks) ≡ occurs key_eq q ks
  unfolding occurs
  occurs_later n = if_neg (key_eq k q) n _ _

module _ {ℓ} {K V : Type ℓ} (key_eq : Discrete K) where
  -- `val, ok := items[key]`
  unfoldable pub lookup : K → Dict K V → Option V
  lookup k [] = none
  lookup k ((j, v) ∷ m) = ite (key_eq j k) (some v) (lookup k m)

  -- `items[key] = value`
  unfoldable pub insert : K → V → Dict K V → Dict K V
  insert k v [] = (k, v) ∷ []
  insert k v ((j, w) ∷ m) = ite (key_eq j k) ((k, v) ∷ m) ((j, w) ∷ insert k v m)

  -- `delete(items, key)`
  unfoldable pub delete : K → Dict K V → Dict K V
  delete k [] = []
  delete k ((j, w) ∷ m) = let rest = delete k m in ite (key_eq j k) rest ((j, w) ∷ rest)

  -- Every entry in turn is stored into a second map.
  unfoldable pub insert_all : Dict K V → Dict K V → Dict K V
  insert_all [] data' = data'
  insert_all ((k, v) ∷ es) data' = insert_all es (insert k v data')

  -- No key stands twice.
  abbrev pub IsMap : Dict K V → Type ℓ
  IsMap [] = Unit
  IsMap ((k, v) ∷ m) = (lookup k m ≡ none) × IsMap m

  pub lookup-insert :
      (k q : K) (v : V) (m : Dict K V)
      → lookup q (insert k v m) ≡ ite (key_eq k q) (some v) (lookup q m)
  unfolding lookup insert
  lookup-insert k q v [] = refl
  lookup-insert k q v ((j, w) ∷ m) = ground (arith, lookup-insert k q v m)

  pub lookup-delete :
      (k q : K) (m : Dict K V) → lookup q (delete k m) ≡ ite (key_eq k q) none (lookup q m)
  unfolding lookup delete
  lookup-delete k q [] = ground arith
  lookup-delete k q ((j, w) ∷ m) = ground (arith, lookup-delete k q m)

  pub insert-IsMap : (k : K) (v : V) (m : Dict K V) → IsMap m → IsMap (insert k v m)
  unfolding insert lookup
  insert-IsMap k v [] h = (refl, tt)
  insert-IsMap k v ((j, w) ∷ m) h = ground (arith, insert-IsMap k v m h.1, lookup-insert k j v m)

  pub delete-IsMap : (k : K) (m : Dict K V) → IsMap m → IsMap (delete k m)
  unfolding delete
  delete-IsMap k [] h = tt
  delete-IsMap k ((j, w) ∷ m) h = ground (arith, delete-IsMap k m h.1, lookup-delete k j m)

  pub length-insert :
      (k : K) (v : V) (m : Dict K V)
      → length (insert k v m) ≡ elim (lookup k m) [ none ↦ suc (length m) | some _ ↦ length m ]
  unfolding insert lookup
  length-insert k v [] = refl
  length-insert k v ((j, w) ∷ m) = ground (arith, length-insert k v m)

  pub lookup-append :
      (q : K) (a b : Dict K V) → lookup q (a ++ b) ≡ or_else (lookup q a) (lookup q b)
  unfolding lookup or_else
  lookup-append q [] b = refl
  lookup-append q ((j, w) ∷ a) b = ground (arith, lookup-append q a b)

  IsMap-swap : (x y : K × V) (l : Dict K V) → IsMap (x ∷ y ∷ l) → IsMap (y ∷ x ∷ l)
  unfolding lookup
  IsMap-swap (i, v) (j, w) l h = ground arith

  -- The order of a map's entries matters neither to its look-ups nor to its being one.
  pub IsMap-perm :
      {a b : Dict K V} → Permᴰ a b → IsMap a → ((q : K) → lookup q a ≡ lookup q b) × IsMap b
  unfolding lookup
  IsMap-perm Permᴰ.nil h = (λ q. refl, tt)
  IsMap-perm (Permᴰ.cons {a = x} {b = y} {l₁ = l₁} e p) h =
      let (same, rest) = IsMap-perm p h.1 in
      (λ q. rw (← e) (ground (arith, same q)), rw (← e) (sym (same x.0) ∙ h.0, rest))
  IsMap-perm (Permᴰ.swap {a = x} {b = y} {l = l} e f) h = (
    λ q. rw (← e, ← f) (ground arith),
    subst₂ (λ s t. IsMap (s ∷ t ∷ l)) f e (IsMap-swap x y l h),
  )
  IsMap-perm (Permᴰ.trans p p') h =
      let (same, mid) = IsMap-perm p h in
      let (same', last) = IsMap-perm p' mid in (λ q. same q ∙ same' q, last)

  -- The last store under a key is the one that stays; in a map it is the only one.
  pub lookup-insert_all :
      (es m : Dict K V) (q : K)
      → IsMap es
      → lookup q (insert_all es m) ≡ or_else (lookup q es) (lookup q m)
  unfolding insert_all lookup or_else
  lookup-insert_all [] m q h = refl
  lookup-insert_all ((k, v) ∷ es) m q h =
      ground (arith, lookup-insert_all es (insert k v m) q h.1, lookup-insert k q v m)

  pub insert_all-IsMap : (es m : Dict K V) → IsMap m → IsMap (insert_all es m)
  unfolding insert_all
  insert_all-IsMap [] m h = h
  insert_all-IsMap ((k, v) ∷ es) m h = insert_all-IsMap es (insert k v m) (insert-IsMap k v m h)

  -- Two maps with no key in common, one behind the other.
  pub append-IsMap :
      (a b : Dict K V)
      → IsMap a
      → IsMap b
      → ((q : K) (v : V) → lookup q a ≡ some v → lookup q b ≡ none)
      → IsMap (a ++ b)
  unfolding lookup or_else
  append-IsMap [] b ha hb apart = hb
  append-IsMap ((k, v) ∷ a) b ha hb apart = (
    ground (arith, lookup-append k a b, apart k v),
    append-IsMap a b ha.1 hb (λ q w e. ground (arith, apart q w)),
  )

  -- The keys of a map, each of them once.
  pub occurs-keys :
      (q : K) (m : Dict K V) → IsMap m → occurs key_eq q (map (λ e. e.0) m) ≡ present (lookup q m)
  unfolding occurs lookup present
  occurs-keys q [] h = refl
  occurs-keys q ((k, v) ∷ m) h = elim (key_eq k q) [
    | yes e ↦
        if_pos (key_eq k q) e (suc (occurs key_eq q (map (λ e. e.0) m))) _
        ∙ ap suc (occurs-keys q m h.1 ∙ rw (← e, h.0))
        ∙ ap present (sym (if_pos (key_eq k q) e (some v) _))
    | no n ↦
        if_neg (key_eq k q) n _ _
        ∙ occurs-keys q m h.1
        ∙ ap present (sym (if_neg (key_eq k q) n (some v) _))
  ]
