-- ===== src/Gls/Lifecycle/Looked.antt =====
-- gls/lifecycle.go: what a registration goes by, told without its code: the labels that it looks at
-- last, and whether the goroutine is over.
use mathlib.Core.Logic.{ite}
use modern_go.Base.Dict
use modern_go.Base.Dict.{Dict}
use modern_go.Base.{
  ℕ, ◌≡◌, ◌≢◌, refl, arith, List, [], ◌∷◌, Option, none, some, true, false, inl, inr, ◌⊎◌,
  Option-cases, Bool-cases, ℕ_discrete,
}
use modern_go.Gls.Lifecycle.{
  Routine, GStatus, g_idle, g_runnable, g_running, g_syscall, g_waiting, g_moribund, g_dead,
  g_enqueue, g_copystack, g_preempted, is_dead, label_of, copy, is_over,
}

module _ {S : Type 0} where
  -- A goroutine that is over: it is dead, its memory serves another one by now, or its labels are
  -- gone.
  pub data IsOver (g : Routine S) : Type 0 where
    dead : g.status ≡ g_dead → IsOver g
    reused : g.id_then ≢ g.id_first → IsOver g
    unlabelled : g.labels ≡ none → IsOver g

  pub record IsAlive (g : Routine S) : Type 0 where
    pub not_dead : g.status ≢ g_dead
    pub same : g.id_then ≡ g.id_first
    pub labelled : g.labels ≢ none

is_dead-dead : (s : GStatus) → is_dead s ≡ true → s ≡ g_dead
unfolding is_dead
is_dead-dead g_dead h = refl
is_dead-dead g_idle h = absurd (cc h)
is_dead-dead g_runnable h = absurd (cc h)
is_dead-dead g_running h = absurd (cc h)
is_dead-dead g_syscall h = absurd (cc h)
is_dead-dead g_waiting h = absurd (cc h)
is_dead-dead g_moribund h = absurd (cc h)
is_dead-dead g_enqueue h = absurd (cc h)
is_dead-dead g_copystack h = absurd (cc h)
is_dead-dead g_preempted h = absurd (cc h)

module _ {S : Type 0} (equal : Discrete S) (key : S) where
  -- What labels have under a key, where nil has nothing.
  unfoldable pub reads : Option (Dict S S) → S → Option S
  reads none q = none
  reads (some m) q = Dict.lookup equal q m

  -- The labels that a registration in its own goroutine looks at last: the first ones with the id,
  -- or those at the end.
  unfoldable pub last_in_goroutine :
      S → Option (Dict S S) → List (Option (Dict S S)) → Option (Dict S S)
  last_in_goroutine id l [] = l
  last_in_goroutine id l (other ∷ others) =
      let rest = last_in_goroutine id other others in
      elim (reads l key) [ none ↦ rest | some old ↦ ite (equal old id) l rest ]

  -- Elsewhere: the first ones that are nil or have an id, or those at the end.
  unfoldable pub last_elsewhere : Option (Dict S S) → List (Option (Dict S S)) → Option (Dict S S)
  last_elsewhere l [] = l
  last_elsewhere none (other ∷ others) = none
  last_elsewhere (some m) (other ∷ others) =
      let rest = last_elsewhere other others in
      elim (Dict.lookup equal key m) [ none ↦ rest | some old ↦ some m ]

  pub reads-label_of :
      (itoa : ℕ → S) (l : Option (Dict S S)) → label_of equal key itoa l ≡ reads l key
  unfolding label_of reads
  reads-label_of itoa none = refl
  reads-label_of itoa (some m) = refl

  pub reads-copy : (l : Option (Dict S S)) (q : S) → Dict.lookup equal q (copy l) ≡ reads l q
  unfolding copy Dict.lookup reads
  reads-copy none q = refl
  reads-copy (some m) q = refl

  -- The test of the code tells the two apart.
  pub is_over-cases :
      (itoa : ℕ → S) (g : Routine S)
      → (IsOver g × (is_over equal key itoa g ≡ true))
        ⊎ (IsAlive g × (is_over equal key itoa g ≡ false))
  unfolding is_over is_dead
  is_over-cases itoa g = elim (Bool-cases (is_dead g.status)) [
    | inl is ↦ inl (dead (is_dead-dead g.status is), rw (is_over, is) refl)
    | inr is_not ↦ elim (ℕ_discrete g.id_then g.id_first) [
      | no other ↦ inl (reused other, ground (arith, is_not, other))
      | yes same_id ↦ elim (Option-cases g.labels) [
        | inl gone ↦ inl (unlabelled gone, ground (arith, is_not, same_id, gone))
        | inr (m, there) ↦ inr (
          record {
            not_dead =
                λ e. let true_false : is_dead g_dead ≡ false = rw e at is_not in cc true_false;
            same = same_id;
            labelled = λ e. cc (e, there);
          },
          ground (arith, is_not, same_id, there),
        )
      ]
    ]
  ]
