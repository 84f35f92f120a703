-- ===== src/Gls/Lifecycle/Registered.antt =====
-- registerFinalizer of gls/lifecycle.go, called in its own goroutine: which labels that has when it
-- returns.
use mathlib.Core.Logic.{if_pos, if_neg}
use modern_go.Base.Dict
use modern_go.Base.Dict.{Dict}
use modern_go.Base.{
  ℕ, ◌≡◌, ◌≢◌, refl, ap, ◌∙◌, arith, List, [], ◌∷◌, Option, some, Bool, true, inl, inr,
  Option-cases,
}
use modern_go.Gls.Lifecycle.{Routine, copy, attempt, register_finalizer}
use modern_go.Gls.Lifecycle.Looked.{reads, last_in_goroutine, reads-label_of, reads-copy}

module _ {S : Type 0} (equal : Discrete S) (key : S) (itoa : ℕ → S) (g : Routine S) where
  abbrev pub id : S
  id = itoa g.id_first

  -- The goroutine as it is once registered, `l` being the labels looked at last: these, if they
  -- have the id, and else labels with the id and under the other keys what `l` has, with a
  -- finalizer.
  pub data Labelled (l : Option (Dict S S)) : Routine S → Type 0 where
    found : reads equal key l key ≡ some id → Labelled l (record g { labels = l })
    renewed :
        reads equal key l key ≢ some id
        → (m : Dict S S) → Dict.lookup equal key m ≡ some id
        → ((q : S) → key ≢ q → Dict.lookup equal q m ≡ reads equal key l q)
        → Labelled l (record g { labels = some m; finalizer_set = true })

  abbrev pub with_labels : Option (Dict S S) → Routine S
  with_labels l = record g { labels = l }

  -- The exchange that succeeds.
  pub fresh :
      (l : Option (Dict S S))
      → reads equal key l key ≢ some id
      → Labelled l
          (record g { labels = some (Dict.insert equal key id (copy l)); finalizer_set = true })
  fresh l other =
      renewed other (Dict.insert equal key id (copy l))
        (ground (arith, Dict.lookup-insert equal key key id (copy l)))
        (λ q away.
          ground
            (arith, away, Dict.lookup-insert equal key q id (copy l), reads-copy equal key l q))

  module _ (l : Option (Dict S S)) (x : Bool × Routine S) where
    attempt_found :
        reads equal key l key ≡ some id
        → attempt equal key itoa true (with_labels l) x ≡ (true, with_labels l)
    unfolding attempt
    attempt_found e =
        rw (attempt, reads-label_of equal key itoa l, e, if_pos (equal id id) refl) refl

    attempt_open :
        reads equal key l key ≢ some id → attempt equal key itoa true (with_labels l) x ≡ x
    unfolding attempt
    attempt_open ne = elim (Option-cases (reads equal key l key)) [
      | inl absent ↦ rw (attempt, reads-label_of equal key itoa l, absent) refl
      | inr (old, present) ↦
          rw
            (
              attempt,
              reads-label_of equal key itoa l,
              present,
              if_neg (equal old id) (λ e. ne (present ∙ ap some e)),
            )
            refl
    ]

  module _ (l : Option (Dict S S)) where
    last_found :
        (others : List (Option (Dict S S)))
        → reads equal key l key ≡ some id
        → last_in_goroutine equal key id l others ≡ l
    unfolding last_in_goroutine
    last_found [] e = refl
    last_found (other ∷ others) e = rw (last_in_goroutine, e, if_pos (equal id id) refl) refl

    last_open :
        (other : Option (Dict S S)) (others : List (Option (Dict S S)))
        → reads equal key l key ≢ some id
        → last_in_goroutine equal key id l (other ∷ others)
          ≡ last_in_goroutine equal key id other others
    unfolding last_in_goroutine
    last_open other others ne = elim (Option-cases (reads equal key l key)) [
      | inl absent ↦ rw (last_in_goroutine, absent) refl
      | inr (old, present) ↦
          rw (last_in_goroutine, present, if_neg (equal old id) (λ e. ne (present ∙ ap some e)))
            refl
    ]

  is_own : (l : Option (Dict S S)) → Dec (reads equal key l key ≡ some id)
  is_own l = elim (Option-cases (reads equal key l key)) [
    | inl absent ↦ no (λ e. cc (e, absent))
    | inr (old, present) ↦ elim (equal old id) [
      | yes e ↦ yes (present ∙ ap some e)
      | no ne ↦ no (λ e. ne (cc (e, present)))
    ]
  ]

  in_goroutine-Labelled :
      (others : List (Option (Dict S S))) (l : Option (Dict S S))
      → ((register_finalizer equal key itoa others true (with_labels l)).0 ≡ true)
        × Labelled
            (last_in_goroutine equal key id l others)
            (register_finalizer equal key itoa others true (with_labels l)).1
  unfolding register_finalizer last_in_goroutine
  in_goroutine-Labelled [] l = elim (is_own l) [
    | yes e ↦ rw (register_finalizer, attempt_found l _ e) (refl, found e)
    | no ne ↦ rw (register_finalizer, attempt_open l _ ne) (refl, fresh l ne)
  ]
  in_goroutine-Labelled (other ∷ others) l = elim (is_own l) [
    | yes e ↦
        rw (register_finalizer, attempt_found l _ e, last_found l (other ∷ others) e)
          (refl, found e)
    | no ne ↦
        rw (register_finalizer, attempt_open l _ ne, last_open l other others ne)
          (in_goroutine-Labelled others other)
  ]

  -- In its own goroutine a registration succeeds, however often others put labels in between. The
  -- labels looked at last are the first ones with the goroutine's id, or those after the last
  -- exchange that failed. With the id they stay as they are; else the goroutine gets labels with
  -- its id and what these have under the other keys, and their finalizer is set.
  pub register_finalizer-Labelled :
      (others : List (Option (Dict S S)))
      → ((register_finalizer equal key itoa others true g).0 ≡ true)
        × Labelled
            (last_in_goroutine equal key id g.labels others)
            (register_finalizer equal key itoa others true g).1
  register_finalizer-Labelled others = in_goroutine-Labelled others g.labels
