-- ===== src/Gls/Lifecycle/Elsewhere.antt =====
-- registerFinalizer of gls/lifecycle.go, called from elsewhere: whether it registers the goroutine.
use mathlib.Core.Logic.{if_pos, if_neg}
use modern_go.Base.Dict
use modern_go.Base.Dict.{Dict}
use modern_go.Base.{
  ℕ, ◌≡◌, ◌≢◌, refl, ap, ◌∙◌, List, [], ◌∷◌, Option, none, some, Bool, true, false, inl, inr,
  Option-cases,
}
use modern_go.Gls.Lifecycle.{Routine, g_dead, label_of, is_over, attempt, register_finalizer}
use modern_go.Gls.Lifecycle.Looked.{dead, reused, unlabelled, reads, last_elsewhere, is_over-cases}
use modern_go.Gls.Lifecycle.Registered.{id, Labelled, found, fresh}

module _ {S : Type 0} (equal : Discrete S) (key : S) (itoa : ℕ → S) (g : Routine S) where
  abbrev own_id : S
  own_id = id equal key itoa g

  abbrev holding : Option (Dict S S) → Routine S
  holding l = record g { labels = l }

  -- What a registration from elsewhere comes to for a goroutine that is neither dead nor replaced.
  pub data Attempted (l : Option (Dict S S)) : Bool × Routine S → Type 0 where
    gone : l ≡ none → Attempted l (false, record g { labels = l })
    taken :
        (old : S)
        → reads equal key l key ≡ some old
        → old ≢ own_id
        → Attempted l (false, record g { labels = l })
    labelled :
        {r : Routine S}
        → l ≢ none
        → ((old : S) → reads equal key l key ≡ some old → old ≡ own_id)
        → Labelled equal key itoa g l r
        → Attempted l (true, r)

  module _ (not_dead : g.status ≢ g_dead) (same : g.id_then ≡ g.id_first) where
    gone_is_over : is_over equal key itoa (holding none) ≡ true
    gone_is_over = elim (is_over-cases equal key itoa (holding none)) [
      | inl (_, e) ↦ e
      | inr (alive, _) ↦ absurd (alive.labelled refl)
    ]

    alive_is_not : (m : Dict S S) → is_over equal key itoa (holding (some m)) ≡ false
    alive_is_not m = elim (is_over-cases equal key itoa (holding (some m))) [
      | inl (dead e, _) ↦ absurd (not_dead e)
      | inl (reused ne, _) ↦ absurd (ne same)
      | inl (unlabelled e, _) ↦ cc e
      | inr (_, e) ↦ e
    ]

    module _ (x : Bool × Routine S) where
      attempt_gone : attempt equal key itoa false (holding none) x ≡ (false, holding none)
      unfolding attempt
      attempt_gone = rw (attempt, gone_is_over) refl

      module _ (m : Dict S S) where
        attempt_absent :
            Dict.lookup equal key m ≡ none → attempt equal key itoa false (holding (some m)) x ≡ x
        unfolding attempt label_of
        attempt_absent absent = rw (attempt, alive_is_not m, absent) refl

        attempt_held :
            Dict.lookup equal key m ≡ some own_id
            → attempt equal key itoa false (holding (some m)) x ≡ (true, holding (some m))
        unfolding attempt label_of
        attempt_held e = rw (attempt, alive_is_not m, e, if_pos (equal own_id own_id) refl) refl

        attempt_taken :
            (old : S)
            → Dict.lookup equal key m ≡ some old
            → old ≢ own_id
            → attempt equal key itoa false (holding (some m)) x ≡ (false, holding (some m))
        unfolding attempt label_of
        attempt_taken old e ne = rw (attempt, alive_is_not m, e, if_neg (equal old own_id) ne) refl

    last_gone : (others : List (Option (Dict S S))) → last_elsewhere equal key none others ≡ none
    unfolding last_elsewhere
    last_gone [] = refl
    last_gone (other ∷ others) = refl

    last_present :
        (m : Dict S S) (old : S) (others : List (Option (Dict S S)))
        → Dict.lookup equal key m ≡ some old
        → last_elsewhere equal key (some m) others ≡ some m
    unfolding last_elsewhere
    last_present m old [] e = refl
    last_present m old (other ∷ others) e = rw (last_elsewhere, e) refl

    last_absent :
        (m : Dict S S) (other : Option (Dict S S)) (others : List (Option (Dict S S)))
        → Dict.lookup equal key m ≡ none
        → last_elsewhere equal key (some m) (other ∷ others) ≡ last_elsewhere equal key other others
    unfolding last_elsewhere
    last_absent m other others e = rw (last_elsewhere, e) refl

    -- One attempt under labels that are there.
    attempt-Attempted :
        (m : Dict S S) (others : List (Option (Dict S S))) (x : Bool × Routine S)
        → (Dict.lookup equal key m ≡ none → Attempted (last_elsewhere equal key (some m) others) x)
        → Attempted
            (last_elsewhere equal key (some m) others)
            (attempt equal key itoa false (holding (some m)) x)
    unfolding reads
    attempt-Attempted m others x goes_on = elim (Option-cases (Dict.lookup equal key m)) [
      | inl absent ↦ rw (attempt_absent x m absent) (goes_on absent)
      | inr (old, present) ↦ elim (equal old own_id) [
        | yes e ↦
            let held = present ∙ ap some e in
            rw (attempt_held x m held, last_present m own_id others held)
              (labelled (λ z. cc z) (λ o there. cc (there, held)) (found held))
        | no ne ↦
            rw (attempt_taken x m old present ne, last_present m old others present)
              (taken old present ne)
      ]
    ]

    elsewhere-Attempted :
        (others : List (Option (Dict S S))) (l : Option (Dict S S))
        → Attempted
            (last_elsewhere equal key l others)
            (register_finalizer equal key itoa others false (holding l))
    unfolding register_finalizer reads last_elsewhere
    elsewhere-Attempted [] none = rw (register_finalizer, attempt_gone, last_gone []) (gone refl)
    elsewhere-Attempted (other ∷ others) none =
        rw (register_finalizer, attempt_gone, last_gone (other ∷ others)) (gone refl)
    elsewhere-Attempted [] (some m) = attempt-Attempted m [] _ (λ absent.
        labelled (λ z. cc z) (λ o there. cc (there, absent))
          (fresh equal key itoa g (some m) (λ e. cc (e, absent))))
    elsewhere-Attempted (other ∷ others) (some m) =
        attempt-Attempted m (other ∷ others) _
          (λ absent. rw (last_absent m other others absent) (elsewhere-Attempted others other))

    pub register_finalizer-Attempted :
        (others : List (Option (Dict S S)))
        → Attempted
            (last_elsewhere equal key g.labels others)
            (register_finalizer equal key itoa others false g)
    register_finalizer-Attempted others = elsewhere-Attempted others g.labels
