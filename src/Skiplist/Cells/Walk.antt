-- ===== src/Skiplist/Cells/Walk.antt =====
-- The walks of container/skiplist/skiplist.go along the levels: where they end, and at what rank.
use mathlib.Core.List.{append_assoc}
use modern_go.Base.Outcome.{ok, ◌>>=◌, Returns}
use modern_go.Base.{
  ℕ, zero, suc, ◌+◌, ◌<◌, ◌≤◌, ◌≡◌, refl, ◌∙◌, ap, arith, List, [], ◌∷◌, ◌++◌, some, Bool, true,
  false, length, get_elem?, inl, inr, dec_lt, length-append, get_elem?-append,
}
use modern_go.Skiplist.Cells.Reach.{reach_stop, reach_skip, reach_flat, reach_middle, last_tall}
use modern_go.Skiplist.{Node, SkipList, node_at, walk, descend}
use modern_go.Skiplist.Cells.{Cell, All, All-split, Chain, end, stop, skip, reach}
use modern_go.Skiplist.Cells.Links.{Chain-middle}

pub get_elem?-append_left :
    {A : Type 0} (xs ys : List A) (i : ℕ) → i < length xs → get_elem? (xs ++ ys) i ≡ get_elem? xs i
get_elem?-append_left [] ys i h = elim h [ ]
get_elem?-append_left (x ∷ xs) ys zero h = refl
get_elem?-append_left (x ∷ xs) ys (suc i) h = get_elem?-append_left xs ys i (omega arith)

module _ {K S : Type 0} where
  -- An entry of `update` and `rank`: where the walk of level i over `lo` ends, and its distance to
  -- `total`, the rank of the last cell of `lo`.
  abbrev pub Entry : List (Cell K S) → ℕ → ℕ → ℕ → ℕ × ℕ → Type 0
  Entry lo x total i e = (e.0 ≡ (reach i x 0 lo).0) × (e.1 + (reach i x 0 lo).1 ≡ total)

  -- The entries of the levels below `n`.
  pub record Entries (lo : List (Cell K S)) (x total n : ℕ) (path : List (ℕ × ℕ)) : Type 0 where
    pub count : length path ≡ n
    pub entry : (j : ℕ) → j < n → (e : ℕ × ℕ) × (get_elem? path j ≡ some e) × Entry lo x total j e

  pub Entries-snoc :
      {lo : List (Cell K S)} {x total n : ℕ} {path : List (ℕ × ℕ)} (e : ℕ × ℕ)
      → Entries lo x total n path
      → Entry lo x total n e
      → Entries lo x total (suc n) (path ++ e ∷ [])
  Entries-snoc {lo} {x} {total} {n} {path} e es last = record {
    count = omega (arith, length-append path (e ∷ []), es.count);
    entry = λ j h. elim (dec_lt j n) [
      | yes p ↦
          let (f, got, is) = es.entry j p in
          (f, get_elem?-append_left path (e ∷ []) j (omega (arith, es.count)) ∙ got, is)
      | no p ↦
          let at : j ≡ length path = omega (arith, es.count) in
          let top : n ≡ j = omega arith in
          (e, ap (get_elem? (path ++ e ∷ [])) at ∙ get_elem?-append path [] e, rw top at last)
    ];
  }

  -- The same entries for a longer walk, if it comes by the cell where this one starts.
  Entries-middle :
      (xs : List (Cell K S)) (c : Cell K S) (ys : List (Cell K S)) {x total n : ℕ}
      {path : List (ℕ × ℕ)}
      → n ≤ c.height
      → Entries ys c.address total n path
      → Entries (xs ++ c ∷ ys) x total n path
  Entries-middle xs c ys {x} h es = record {
    count = es.count;
    entry = λ j lt.
        let (e, got, is) = es.entry j lt in
        (e, got, rw (reach_middle j x 0 xs c ys (omega arith)) is);
  }

module _ {K S : Type 0} (sl : SkipList K S) where
  -- The test of the walk gives `b` on each cell's node.
  abbrev pub Answers : (Node K S → Bool) → Bool → List (Cell K S) → Type 0
  Answers go b = All (λ c. (n : Node K S) × (node_at sl c.address ≡ ok n) × (go n ≡ b))

  module _ (go : Node K S → Bool) (hi : List (Cell K S)) (refused : Answers go false hi) where
    walk_stop :
        (i : ℕ) {x k : ℕ} (fuel rank : ℕ) (cs : List (Cell K S))
        → Answers go false cs
        → Chain sl i x k cs
        → walk go sl i (suc fuel) x rank ≡ ok (x, rank)
    unfolding walk
    walk_stop i fuel rank [] h (end e) = rw (e, ◌>>=◌)
    walk_stop i fuel rank (c ∷ cs) h (stop p e rest) =
        let (n, found, no_go) = h.0 in rw (walk, e, ◌>>=◌, found, no_go)
    walk_stop i fuel rank (c ∷ cs) h (skip p rest) = walk_stop i fuel rank cs h.1 rest

    pub walk_lem :
        (i fuel rank : ℕ) (lo : List (Cell K S)) {x k : ℕ}
        → Answers go true lo
        → length lo < fuel
        → Chain sl i x k (lo ++ hi)
        → Returns
            (walk go sl i fuel x rank)
            (λ (u, r). (u ≡ (reach i x k lo).0) × (r + (reach i x k lo).1 ≡ rank + (k + length lo)))
    unfolding walk reach
    walk_lem i zero rank lo h enough chain = absurd (omega arith)
    walk_lem i (suc fuel) rank [] {x} {k} h enough chain =
        ((x, rank), walk_stop i fuel rank hi refused chain, (refl, omega arith))
    walk_lem i (suc fuel) rank (c ∷ lo) {x} {k} h enough (stop p e rest) =
        let (n, found, goes) = h.0 in
        let s = reach_stop i x k c lo p in
        let ((u, r), ran, (at, far)) = walk_lem i fuel (rank + suc k) lo h.1 (omega arith) rest in
        ((u, r), rw (walk, e, ◌>>=◌, found, goes) ran, (rw s at, rw s (omega arith)))
    walk_lem i (suc fuel) rank (c ∷ lo) {x} {k} h enough (skip p rest) =
        let s = reach_skip i x k c lo p in
        let ((u, r), ran, (at, far)) = walk_lem i (suc fuel) rank lo h.1 (omega arith) rest in
        ((u, r), ran, (rw s at, rw s (omega arith)))

    descend_step :
        (i rank x : ℕ) (lo : List (Cell K S)) {u r : ℕ}
        → walk go sl i (length sl.nodes) x rank ≡ ok (u, r)
        → Entry lo x (rank + length lo) i (u, r)
        → Returns (descend go sl i u r) (Entries lo x (rank + length lo) i)
        → Returns (descend go sl (suc i) x rank) (Entries lo x (rank + length lo) (suc i))
    unfolding descend
    descend_step i rank x lo {u} {r} ran at (lower, below, es) =
        (lower ++ (u, r) ∷ [], rw (descend, ran, ◌>>=◌, below), Entries-snoc (u, r) es at)

    descend_below :
        (i rank x : ℕ) (lo : List (Cell K S)) (e : ℕ × ℕ) (xs : List (Cell K S)) (c : Cell K S)
        (ys : List (Cell K S))
        → lo ≡ xs ++ c ∷ ys
        → i < c.height
        → All (λ c. c.height ≤ i) ys
        → Entry lo x (rank + (0 + length lo)) i e
        → Returns (descend go sl i c.address e.1) (Entries ys c.address (e.1 + length ys) i)
        → Returns (descend go sl i e.0 e.1) (Entries lo x (rank + length lo) i)
    descend_below i rank x lo e xs c ys parts tall flat (at, far) (path, ran, es) =
        let end : reach i x 0 lo ≡ (c.address, 0 + length ys) =
          rw parts (reach_middle i x 0 xs c ys tall ∙ reach_flat i c.address 0 ys flat) in
        let same : e.0 ≡ c.address = at ∙ ap (λ p. p.0) end in
        let total : e.1 + length ys ≡ rank + length lo = omega (arith, far, ap (λ p. p.1) end) in
        (
          path,
          rw same ran,
          rw (parts) (Entries-middle xs c ys (omega arith) (rw (total, parts) at es)),
        )

    -- Each level is walked from where the one above ended.
    pub descend_lem :
        (n rank x : ℕ) (lo : List (Cell K S))
        → Answers go true lo
        → length lo < length sl.nodes
        → ((j : ℕ) → j < n → Chain sl j x 0 (lo ++ hi))
        → Returns (descend go sl n x rank) (Entries lo x (rank + length lo) n)
    unfolding descend
    descend_lem zero rank x lo h enough chains =
        ([], refl, record { count = refl; entry = λ j lt. absurd (omega arith) })
    descend_lem (suc i) rank x lo h enough chains =
        let ((u, r), ran, (at, far)) =
          walk_lem i (length sl.nodes) rank lo h enough (chains i (omega arith)) in
        descend_step i rank x lo ran (at, omega arith)
          (elim (last_tall i lo) [
            | inl flat ↦
                let flat_end = reach_flat i x 0 lo flat in
                let same : u ≡ x = at ∙ ap (λ e. e.0) flat_end in
                let still : r ≡ rank = omega (arith, far, ap (λ e. e.1) flat_end) in
                rw (same, still) (descend_lem i rank x lo h enough (λ j lt. chains j (omega arith)))
            | inr (xs, c, ys, parts, tall, flat) ↦
                descend_below i rank x lo (u, r) xs c ys parts tall flat (at, far)
                  (descend_lem i r c.address ys (All-split _ xs (c ∷ ys) (rw parts at h)).1.1
                    (omega (arith, ap length parts, length-append xs (c ∷ ys)))
                    (λ j lt.
                      Chain-middle xs c (ys ++ hi) (omega arith)
                        (rw (parts, append_assoc) at (chains j (omega arith)))))
          ])
