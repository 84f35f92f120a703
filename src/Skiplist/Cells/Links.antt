-- ===== src/Skiplist/Cells/Links.antt =====
-- How the chain of a level is cut where a walk ends, changed there, and joined again.
use modern_go.Base.Outcome.{Outcome, ok}
use modern_go.Base.{
  ℕ, suc, ◌+◌, ◌<◌, ◌≤◌, ◌≡◌, ◌≢◌, sym, ◌∙◌, ap, arith, List, [], ◌∷◌, ◌++◌, none, some, length,
  false, ◌==◌,
}
use modern_go.Skiplist.{Level, SkipList, level_at}
use modern_go.Skiplist.Update.{is_at}
use modern_go.Skiplist.Cells.Reach.{reach_stop, reach_skip, reach_avoids}
use modern_go.Skiplist.Cells.{Cell, All, Avoids, AreApart, Chain, end, stop, skip, reach}

==_ne : (a b : ℕ) → a ≢ b → (a == b) ≡ false
==_ne a b h = ground arith

pub ok_forward :
    {lv lv' : Level} → ◌≡◌ {A = Outcome Level} (ok lv) (ok lv') → lv.forward ≡ lv'.forward
ok_forward h = ground arith

module _ {K S : Type 0} where
  module _ {sl : SkipList K S} {i : ℕ} where
    -- The link at the start of a chain.
    pub Chain-start :
        {x k : ℕ} {cs : List (Cell K S)}
        → Chain sl i x k cs
        → (lv : Level) × (level_at sl x i ≡ ok lv) × (k ≤ lv.span)
    Chain-start (end e) = (_, e, omega arith)
    Chain-start (stop p e rest) = (_, e, omega arith)
    Chain-start (skip p rest) = let (lv, e, le) = Chain-start rest in (lv, e, omega arith)

    -- The chain from where a walk over `xs` ends.
    pub Chain-from :
        (xs cs : List (Cell K S)) {x k : ℕ}
        → Chain sl i x k (xs ++ cs)
        → Chain sl i (reach i x k xs).0 (reach i x k xs).1 cs
    unfolding reach
    Chain-from [] cs chain = chain
    Chain-from (c ∷ xs) cs {x} {k} (stop p e rest) =
        rw (reach_stop i x k c xs p) (Chain-from xs cs rest)
    Chain-from (c ∷ xs) cs {x} {k} (skip p rest) =
        rw (reach_skip i x k c xs p) (Chain-from xs cs rest)

    -- A chain passes through each cell that reaches its level.
    pub Chain-middle :
        (xs : List (Cell K S)) (c : Cell K S) (cs : List (Cell K S)) {x k : ℕ}
        → i < c.height
        → Chain sl i x k (xs ++ c ∷ cs)
        → Chain sl i c.address 0 cs
    Chain-middle [] c cs tall (stop p e rest) = rest
    Chain-middle [] c cs tall (skip p rest) = absurd (omega arith)
    Chain-middle (d ∷ xs) c cs tall (stop p e rest) = Chain-middle xs c cs tall rest
    Chain-middle (d ∷ xs) c cs tall (skip p rest) = Chain-middle xs c cs tall rest

    pub Chain-flat :
        {x : ℕ} (k : ℕ) (lv : Level) (cs : List (Cell K S))
        → All (λ c. c.height ≤ i) cs
        → level_at sl x i ≡ ok lv
        → lv.forward ≡ none
        → lv.span ≡ k + length cs
        → Chain sl i x k cs
    Chain-flat k lv [] h e last far = end (rw e (ap ok (ground arith)))
    Chain-flat k lv (c ∷ cs) h e last far =
        skip h.0 (Chain-flat (suc k) lv cs h.1 e last (omega arith))

    -- The link leads to one of the cells, if anywhere.
    pub Chain-forward :
        (a : ℕ) (lv : Level) {x k : ℕ} {cs : List (Cell K S)}
        → level_at sl x i ≡ ok lv
        → Avoids a cs
        → Chain sl i x k cs
        → is_at a lv.forward ≡ false
    unfolding is_at
    Chain-forward a lv h ha (end e) = ground arith
    Chain-forward a lv h ha (stop {c = c} p e rest) =
        rw (ok_forward (sym h ∙ e)) (==_ne c.address a ha.0)
    Chain-forward a lv h ha (skip p rest) = Chain-forward a lv h ha.1 rest

    -- The link to a next cell that reaches the level.
    pub Chain-next :
        {x k : ℕ} {c : Cell K S} {cs : List (Cell K S)}
        → i < c.height
        → Chain sl i x k (c ∷ cs)
        → level_at sl x i ≡ ok (record { forward = some c.address; span = suc k })
    Chain-next tall (stop p e rest) = e
    Chain-next tall (skip p rest) = absurd (omega arith)

    -- A level that ends at the start of its chain is reached by no cell.
    pub Chain-last :
        (lv : Level) {x k : ℕ} {cs : List (Cell K S)}
        → level_at sl x i ≡ ok lv
        → lv.forward ≡ none
        → Chain sl i x k cs
        → All (λ c. c.height ≤ i) cs
    Chain-last lv h last (end e) = tt
    Chain-last lv h last (stop p e rest) = absurd (ground (arith, ok_forward (sym h ∙ e)))
    Chain-last lv h last (skip p rest) = (p, Chain-last lv h last rest)

  pub Chain-same :
      {sl sl' : SkipList K S} {i x k : ℕ} {cs : List (Cell K S)}
      → ((y : ℕ) → level_at sl' y i ≡ level_at sl y i)
      → Chain sl i x k cs
      → Chain sl' i x k cs
  Chain-same {x = x} same (end e) = end (same x ∙ e)
  Chain-same {x = x} same (stop p e rest) = stop p (same x ∙ e) (Chain-same same rest)
  Chain-same same (skip p rest) = skip p (Chain-same same rest)

  module _ {sl sl' : SkipList K S} {i : ℕ} (a b : ℕ)
      (same : (y : ℕ) → y ≢ a → y ≢ b → level_at sl' y i ≡ level_at sl y i) where
    pub Chain-frame :
        {x k : ℕ} {cs : List (Cell K S)}
        → x ≢ a
        → x ≢ b
        → Avoids a cs
        → Avoids b cs
        → Chain sl i x k cs
        → Chain sl' i x k cs
    Chain-frame {x} na nb ha hb (end e) = end (same x na nb ∙ e)
    Chain-frame {x} na nb ha hb (stop p e rest) =
        stop p (same x na nb ∙ e) (Chain-frame ha.0 hb.0 ha.1 hb.1 rest)
    Chain-frame na nb ha hb (skip p rest) = skip p (Chain-frame na nb ha.1 hb.1 rest)

    -- The same cells behind another start, which links to where the old one did.
    pub Chain-move :
        {x y k m : ℕ} {cs : List (Cell K S)} (lv lv' : Level)
        → Avoids a cs
        → Avoids b cs
        → level_at sl x i ≡ ok lv
        → level_at sl' y i ≡ ok lv'
        → lv'.forward ≡ lv.forward
        → lv'.span + k ≡ lv.span + m
        → Chain sl i x k cs
        → Chain sl' i y m cs
    Chain-move {m} lv lv' ha hb e e' f d (end link) = end (e' ∙ ap ok (ground arith))
    Chain-move {m} lv lv' ha hb e e' f d (stop p link rest) =
        stop p (e' ∙ ap ok (ground arith)) (Chain-frame ha.0 hb.0 ha.1 hb.1 rest)
    Chain-move lv lv' ha hb e e' f d (skip p rest) =
        skip p (Chain-move lv lv' ha.1 hb.1 e e' f (omega arith) rest)

    -- What comes before the end of a walk stays, and what comes behind is replaced.
    pub Chain-join :
        (xs old new : List (Cell K S)) {x k : ℕ}
        → (reach i x k xs).0 ≡ a
        → x ≢ b
        → Avoids x xs
        → AreApart xs
        → Avoids b xs
        → Chain sl i x k (xs ++ old)
        → Chain sl' i (reach i x k xs).0 (reach i x k xs).1 new
        → Chain sl' i x k (xs ++ new)
    unfolding reach
    Chain-join [] old new at nb hx apart hb chain behind = behind
    Chain-join (c ∷ xs) old new {x} {k} at nb hx apart hb (stop p e rest) behind =
        let s = reach_stop i x k c xs p in
        let ne : x ≢ a = λ same.
          reach_avoids x i c.address 0 xs hx.0 hx.1 (ap (λ r. r.0) (sym s) ∙ at ∙ sym same) in
        stop p (same x ne nb ∙ e) (
          Chain-join xs old new (ap (λ r. r.0) (sym s) ∙ at) hb.0 apart.0 apart.1 hb.1 rest
            (rw s at behind))
    Chain-join (c ∷ xs) old new {x} {k} at nb hx apart hb (skip p rest) behind =
        let s = reach_skip i x k c xs p in
        skip p (
          Chain-join xs old new (ap (λ r. r.0) (sym s) ∙ at) nb hx.1 apart.1 hb.1 rest
            (rw s at behind))
