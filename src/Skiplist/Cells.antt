-- ===== src/Skiplist/Cells.antt =====
-- The shape of the heap of container/skiplist/skiplist.go: the cells of a list in their order, and
-- the links of each level, which skip the cells that do not reach it.
pub mod Heap
pub mod Reach
pub mod Links
pub mod Walk
pub mod Backward
pub mod Pushed
pub mod Rechained
use modern_go.Base.Outcome.{Outcome, ok, ◌>>=◌}
use modern_go.Base.{
  ℕ, suc, ◌≤◌, ◌<◌, ◌≡◌, ◌≢◌, sym, List, [], ◌∷◌, ◌++◌, Option, none, some, ltb, if◌then◌else◌,
  length,
}
use modern_go.Skiplist.{Level, SkipList, node_at, level_at}

-- A node of the list: where it is, what it holds, and how many levels it reaches.
pub record Cell (K S : Type 0) : Type 0 where
  pub address : ℕ
  pub key : K
  pub score : S
  pub height : ℕ

abbrev pub All {ℓ κ} : {A : Type ℓ} → (A → Type κ) → List A → Type κ
All P [] = Unit
All P (x ∷ xs) = P x × All P xs

pub All-append {ℓ κ} :
    {A : Type ℓ} (P : A → Type κ) (front back : List A)
    → All P front
    → All P back
    → All P (front ++ back)
All-append P (x ∷ front) back (first, rest) h = (first, All-append P front back rest h)
All-append P [] back none_before h = h

pub All-split {ℓ κ} :
    {A : Type ℓ} (P : A → Type κ) (xs ys : List A) → All P (xs ++ ys) → All P xs × All P ys
All-split P [] ys h = (tt, h)
All-split P (x ∷ xs) ys h = let rest = All-split P xs ys h.1 in ((h.0, rest.0), rest.1)

pub All-weaken {ℓ κ μ} :
    {A : Type ℓ} (P : A → Type κ) (Q : A → Type μ) (xs : List A)
    → ((x : A) → P x → Q x)
    → All P xs
    → All Q xs
All-weaken P Q [] f h = tt
All-weaken P Q (x ∷ xs) f h = (f x h.0, All-weaken P Q xs f h.1)

pub All-both {ℓ κ μ ν} :
    {A : Type ℓ} (P : A → Type κ) (Q : A → Type μ) (R : A → Type ν) (xs : List A)
    → ((x : A) → P x → Q x → R x)
    → All P xs
    → All Q xs
    → All R xs
All-both P Q R [] f hp hq = tt
All-both P Q R (x ∷ xs) f hp hq = (f x hp.0 hq.0, All-both P Q R xs f hp.1 hq.1)

pub All-all {ℓ κ} : {A : Type ℓ} (P : A → Type κ) (xs : List A) → ((x : A) → P x) → All P xs
All-all P [] f = tt
All-all P (x ∷ xs) f = (f x, All-all P xs f)

pub All-insert {ℓ κ} :
    {A : Type ℓ} (P : A → Type κ) (x : A) (xs ys : List A)
    → P x
    → All P (xs ++ ys)
    → All P (xs ++ x ∷ ys)
All-insert P x [] ys p h = (p, h)
All-insert P x (y ∷ xs) ys p h = (h.0, All-insert P x xs ys p h.1)

pub All-remove {ℓ κ} :
    {A : Type ℓ} (P : A → Type κ) (x : A) (xs ys : List A) → All P (xs ++ x ∷ ys) → All P (xs ++ ys)
All-remove P x [] ys h = h.1
All-remove P x (y ∷ xs) ys h = (h.0, All-remove P x xs ys h.1)

module _ {K S : Type 0} where
  -- None of the cells is at `a`.
  abbrev pub Avoids : ℕ → List (Cell K S) → Type 0
  Avoids a = All (λ c. c.address ≢ a)

  -- The cells are at different places.
  abbrev pub AreApart : List (Cell K S) → Type 0
  AreApart [] = Unit
  AreApart (c ∷ cs) = Avoids c.address cs × AreApart cs

  pub AreApart_split : (xs ys : List (Cell K S)) → AreApart (xs ++ ys) → AreApart xs × AreApart ys
  AreApart_split [] ys h = (tt, h)
  AreApart_split (x ∷ xs) ys h =
      let rest = AreApart_split xs ys h.1 in
      (((All-split (λ c. c.address ≢ x.address) xs ys h.0).0, rest.0), rest.1)

  pub AreApart_insert :
      (d : Cell K S) (xs ys : List (Cell K S))
      → Avoids d.address xs
      → Avoids d.address ys
      → AreApart (xs ++ ys)
      → AreApart (xs ++ d ∷ ys)
  AreApart_insert d [] ys hx hy h = (hy, h)
  AreApart_insert d (x ∷ xs) ys hx hy h = (
    All-insert (λ c. c.address ≢ x.address) d xs ys (λ e. hx.0 (sym e)) h.0,
    AreApart_insert d xs ys hx.1 hy h.1,
  )

  pub AreApart_remove :
      (d : Cell K S) (xs ys : List (Cell K S))
      → AreApart (xs ++ d ∷ ys)
      → AreApart (xs ++ ys) × Avoids d.address xs × Avoids d.address ys
  AreApart_remove d [] ys h = (h.1, tt, h.0)
  AreApart_remove d (x ∷ xs) ys h =
      let (rest, left, right) = AreApart_remove d xs ys h.1 in
      (
        (All-remove (λ c. c.address ≢ x.address) d xs ys h.0, rest),
        (λ e. (All-split (λ c. c.address ≢ x.address) xs (d ∷ ys) h.0).1.0 (sym e), left),
        right,
      )

  pub AreApart_cross :
      (xs ys : List (Cell K S)) → AreApart (xs ++ ys) → All (λ d. Avoids d.address ys) xs
  AreApart_cross [] ys h = tt
  AreApart_cross (x ∷ xs) ys h =
      ((All-split (λ c. c.address ≢ x.address) xs ys h.0).1, AreApart_cross xs ys h.1)

  -- What the node at `a` holds, but for its levels.
  unfoldable pub held_at : SkipList K S → ℕ → Outcome (K × S × Option ℕ)
  held_at sl a = do n ← node_at sl a; ok (n.key, n.score, n.backward)

  -- From `x`, the links of level i lead through the cells that reach it, with the distances as
  -- spans; the last span is the distance to the end. `k` cells have been skipped since `x`.
  pub data Chain (sl : SkipList K S) (i : ℕ) : ℕ → ℕ → List (Cell K S) → Type 0 where
    end : {x k : ℕ} → level_at sl x i ≡ ok (record { forward = none; span = k }) → Chain sl i x k []
    stop :
        {x k : ℕ} {c : Cell K S} {cs : List (Cell K S)}
        → i < c.height
        → level_at sl x i ≡ ok (record { forward = some c.address; span = suc k })
        → Chain sl i c.address 0 cs
        → Chain sl i x k (c ∷ cs)
    skip :
        {x k : ℕ} {c : Cell K S} {cs : List (Cell K S)}
        → c.height ≤ i
        → Chain sl i x (suc k) cs
        → Chain sl i x k (c ∷ cs)

  -- The cells hold their keys and scores, and each leads back to the one before; `prev` comes
  -- before the first, and the last one is the tail.
  abbrev pub Backs : SkipList K S → Option ℕ → List (Cell K S) → Type 0
  Backs sl prev [] = sl.tail ≡ prev
  Backs sl prev (c ∷ cs) =
      (held_at sl c.address ≡ ok (c.key, c.score, prev)) × Backs sl (some c.address) cs

  -- Where a walk along level i ends that starts at `x` and passes the cells, and how many of them
  -- lie behind its end; `k` cells have been skipped since `x`.
  unfoldable pub reach : ℕ → ℕ → ℕ → List (Cell K S) → ℕ × ℕ
  reach i x k [] = (x, k)
  reach i x k (c ∷ cs) =
      reach i (if ltb i c.height then c.address else x) (if ltb i c.height then 0 else suc k) cs

  abbrev pub Tall : SkipList K S → ℕ → Type 0
  Tall sl a = (i : ℕ) → i < 32 → (lv : Level) × (level_at sl a i ≡ ok lv)

  pub record IsList (sl : SkipList K S) (cells : List (Cell K S)) : Type 0 where
    pub chains : (i : ℕ) → i < sl.level → Chain sl i 0 0 cells
    -- On the levels in reserve the header has no next node.
    pub above :
        (i : ℕ)
        → sl.level ≤ i
        → i < 32
        → (lv : Level) × (level_at sl 0 i ≡ ok lv) × (lv.forward ≡ none)
    pub backs : Backs sl none cells
    pub apart : AreApart cells
    pub no_header : Avoids 0 cells
    pub inside : All (λ c. c.address < length sl.nodes) cells
    pub heights : All (λ c. (1 ≤ c.height) × (c.height ≤ sl.level)) cells
    -- A node has all the levels, also those that it does not reach.
    pub tall : All (λ c. Tall sl c.address) cells
    pub sized : sl.size ≡ length cells
    pub levels : (1 ≤ sl.level) × (sl.level ≤ 32)
    pub room : length cells < length sl.nodes
