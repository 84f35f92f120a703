-- ===== src/Skiplist/Update/Insertion.antt =====
-- `insert` of container/skiplist/skiplist.go puts an entry where it belongs.
pub mod Raised
pub mod Linking
pub mod Inserted
use mathlib.Core.Logic.{ite}
use modern_go.Base.Dict
use modern_go.Base.Dict.{Dict}
use modern_go.Base.Outcome.{ok, ◌>>=◌, Returns}
use modern_go.Base.{
  ℕ, suc, ◌+◌, ◌==◌, ◌-◌, ◌≤◌, ◌≡◌, refl, sym, ◌∙◌, ap, arith, List, ◌∷◌, ◌++◌, none, some, true,
  false, length, ltb, if◌then◌else◌, length-append,
}
use modern_go.Skiplist.Cells.Pushed.{pushed}
use modern_go.Skiplist.{
  Compare, Level, SkipList, SortedSet, descend, precedes, level_at, set_backward,
}
use modern_go.Skiplist.Update.{insert, raise_loop, link_loop, widen_loop, path_at, join_backward}
use modern_go.Skiplist.Cells.{Cell, All, All-split, IsList, held_at}
use modern_go.Skiplist.Cells.Walk.{Entries, descend_lem}
use modern_go.Skiplist.Ordered.{IsOrder, before, place}
use modern_go.Skiplist.Ordered.Entries.{entry, entries, split_at, place-entries, place-IsAscending}
use modern_go.Skiplist.Ordered.Keyed.{lookup-place, place-IsMap}
use modern_go.Skiplist.Modelled.{Models, Backs-Found, precedes-Answers}
use modern_go.Skiplist.Update.Insertion.Raised.{raise-IsList}
use modern_go.Skiplist.Update.Insertion.Inserted.{attach_levels, heights_lo, set_back, join_all, u}
use modern_go.Skiplist.Cells.Backward.{lowest_entry}

module _ {K S : Type 0} (c : Compare K S) (key : K) (score : S) where
  -- The search for the place of an entry, level by level.
  pub descend-Entries :
      (sl : SkipList K S) (lo hi : List (Cell K S))
      → IsList sl (lo ++ hi)
      → All (λ d. before c (entry d) (key, score) ≡ true) lo
      → All (λ d. before c (entry d) (key, score) ≡ false) hi
      → Returns (descend (precedes c key score) sl sl.level 0 0) (Entries lo 0 (length lo) sl.level)
  descend-Entries sl lo hi l left right =
      let found = All-split _ lo hi (Backs-Found sl none (lo ++ hi) l.backs) in
      let e : 0 + length lo ≡ length lo = omega arith in
      let (path, ran, es) =
        descend_lem sl (precedes c key score) hi
          (precedes-Answers c key score sl false hi found.1 right) sl.level 0 0 lo
          (precedes-Answers c key score sl true lo found.0 left)
          (omega (arith, l.room, length-append lo hi)) l.chains in
      (path, ran, rw e at es)

  -- The list with the new cell.
  pub Added : SortedSet K S → ℕ → List (Cell K S) → List (Cell K S) → ℕ × SortedSet K S → Type 0
  Added s level lo hi r =
      (d : Cell K S) × IsList r.1.skip_list (lo ++ d ∷ hi)
      × (d.address ≡ r.0)
      × (entry d ≡ (key, score))
      × (held_at r.1.skip_list 0 ≡ held_at s.skip_list 0)
      × (r.1.dict ≡ Dict.insert c.key_eq key score s.dict)

  -- The steps of `insert`, one after the other.
  insert_runs :
      (level : ℕ) (s : SortedSet K S) (path path' : List (ℕ × ℕ))
      (raised linked widened backed joined : SkipList K S) (u rank_0 n : ℕ) (first : Level)
      → descend (precedes c key score) s.skip_list s.skip_list.level 0 0 ≡ ok path
      → raise_loop (level - s.skip_list.level) s.skip_list.level path s.skip_list
        ≡ ok (path', raised)
      → (if ltb s.skip_list.level level then level else s.skip_list.level) ≡ n
      → path_at path' 0 ≡ ok (u, rank_0)
      → link_loop level 0 path' rank_0
          (length raised.nodes)
          (pushed (record raised { level = n }) key score)
        ≡ ok linked
      → widen_loop (n - level) level path' linked ≡ ok widened
      → (if u == 0 then ok widened else set_backward widened (length raised.nodes) (some u))
        ≡ ok backed
      → level_at backed (length raised.nodes) 0 ≡ ok first
      → join_backward backed first.forward (some (length raised.nodes)) ≡ ok joined
      → insert c key score level s
        ≡ ok (
          length raised.nodes,
          record {
            dict = Dict.insert c.key_eq key score s.dict;
            skip_list = record joined { size = suc joined.size };
          },
        )
  unfolding insert
  insert_runs level s path path' raised linked widened backed joined u rank_0 n first e₁ e₂ e₃ e₄ e₅
        e₆ e₇ e₈ e₉ =
      rw (insert, e₁, ◌>>=◌, e₂, e₃, e₄, e₅, e₆, e₇, e₈, e₉)

  insert-IsList :
      (level : ℕ) (s : SortedSet K S) (lo hi : List (Cell K S))
      → 1 ≤ level
      → level ≤ 32
      → IsList s.skip_list (lo ++ hi)
      → All (λ d. before c (entry d) (key, score) ≡ true) lo
      → All (λ d. before c (entry d) (key, score) ≡ false) hi
      → Returns (insert c key score level s) (Added s level lo hi)
  unfolding insert Added
  insert-IsList level s lo hi positive top l left right =
      let sl = s.skip_list in
      let (path, ran, es) = descend-Entries sl lo hi l left right in
      let ((path', raised), ran', (es', l', kept)) = raise-IsList level path sl lo hi top l es in
      let n : ℕ = if ltb sl.level level then level else sl.level in
      let higher : SkipList K S = record raised { level = n } in
      let fits : level ≤ n = ground arith in
      let lowest =
        lowest_entry lo path' (omega (arith, l'.levels.0))
          (heights_lo lo hi key score level higher l' positive fits path' es') es' in
      let (linked, ran₁, (widened, ran₂, done)) =
        attach_levels lo hi key score level higher l' positive fits path' es' in
      let (backed, ran₃, bs) =
        set_back lo hi key score level higher l' positive fits path' es' widened done in
      let (first, at, (joined, ran₄, list, kept')) =
        join_all lo hi key score level higher l' positive fits path' es' widened done backed bs in
      (
        (
          length higher.nodes,
          record {
            dict = Dict.insert c.key_eq key score s.dict;
            skip_list = record joined { size = suc joined.size };
          },
        ),
        insert_runs level s path path' raised linked widened backed joined
            (u lo hi key score level higher l' positive fits path' es') (length lo) n first ran ran'
            refl lowest ran₁ ran₂ ran₃ at ran₄,
        (_, list, refl, refl, kept' ∙ kept, refl),
      )

  -- The entry of a new key is put where it belongs.
  pub insert-Models :
      (level : ℕ) (s : SortedSet K S) (es : Dict K S)
      → IsOrder c
      → 1 ≤ level
      → level ≤ 32
      → Dict.lookup c.key_eq key es ≡ none
      → Models c s es
      → Returns (insert c key score level s) (λ r. Models c r.1 (place c key score es))
  unfolding Added
  insert-Models level s es o positive top absent m =
      let (lo, hi, parts, left, right) =
        split_at c o (key, score) m.cells (rw m.held m.ascending) in
      let (r, ran, (d, list, at, holds, kept, dict)) =
        insert-IsList level s lo hi positive top (rw parts at m.shape) left right in
      (
        r,
        ran,
        record {
          same_dict = λ q.
              ap (Dict.lookup c.key_eq q) dict
              ∙ Dict.lookup-insert c.key_eq key q score s.dict
              ∙ ap (ite (c.key_eq key q) (some score)) (m.same_dict q)
              ∙ sym (lookup-place c key q score es absent);
          is_map = place-IsMap c key score es absent m.is_map;
          ascending = place-IsAscending c o key score es absent m.ascending;
          cells = lo ++ d ∷ hi;
          held =
              sym (place-entries c o key score d lo hi holds left right)
              ∙ ap (place c key score) (ap entries (sym parts) ∙ m.held);
          shape = list;
          header = kept ∙ m.header;
        },
      )
