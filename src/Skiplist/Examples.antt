-- ===== src/Skiplist/Examples.antt =====
-- Runs of container/skiplist/skiplist.go with numbers for keys and scores.
use modern_go.Base.Dict
use mathlib.Core.List.{reverse}
use mathlib.Core.Option
use modern_go.Base.Dict.{Dict}
use modern_go.Base.Int.{pos, negsuc, sub_ℕ}
use modern_go.Base.Outcome.{Outcome, ok, ◌>>=◌, Returns}
use modern_go.Base.{
  ℕ, suc, ◌≡◌, refl, arith, List, [], ◌∷◌, some, ◌==◌, ==_iff, ltb, length, take, ℕ_discrete,
}
use modern_go.Skiplist.{
  Compare, SortedSet, new_set, new_skip_list, descend, walk, precedes, precedes_or_is, set_backward,
  set_level, level_at, node_at,
}
use modern_go.Skiplist.Update.{
  set, insert, del, take_out, lower_loop, unlink_loop, is_at, widen_loop, link_loop, raise_loop,
  path_at, join_backward, create_node,
}
use modern_go.Skiplist.Query.{
  get_rank, rank_loop, get_element_by_rank_asc, rank_asc_loop, walk_rank, get_top_n, get_top_n_desc,
  top_loop, top_desc_loop, get_rank_desc, get_element_by_rank_desc,
}
use modern_go.Skiplist.Ordered.{IsOrder, place}
use modern_go.Skiplist.Modelled.{Models}
use modern_go.Skiplist.Update.Refined.{del-Models, is_some}
use modern_go.Skiplist.Query.Positions.{position, ranks-position}
use modern_go.Skiplist.Query.Tops.{tops-take}
use modern_go.Skiplist.Query.ByRank.{ranked, elements-ranked}
use modern_go.Skiplist.Runs.{Call, set_call, del_call, apply, apply_all, run_all, run_all-Models}

abbrev numbers : Compare ℕ ℕ
numbers = record {
  key_eq = ℕ_discrete;
  key_lt = ltb;
  score_lt = ltb;
  score_eq = ◌==◌;
  no_key = 0;
  no_score = 0;
}

-- Four keys at different heights, one of them moved.
abbrev four : Outcome (SortedSet ℕ ℕ)
four = do
  (_, s₁) ← set numbers 5 50 1 (new_set numbers)
  (_, s₂) ← set numbers 3 30 3 s₁
  (_, s₃) ← set numbers 4 30 2 s₂
  (_, s₄) ← set numbers 9 10 1 s₃
  (_, s₅) ← set numbers 5 20 2 s₄
  ok s₅

-- The program of the tests.
program : Unit {0}
unfolding set insert del take_out lower_loop unlink_loop is_at widen_loop link_loop raise_loop
    path_at join_backward create_node descend walk precedes precedes_or_is set_backward set_level
    level_at node_at new_set new_skip_list get_top_n get_top_n_desc top_loop top_desc_loop get_rank
    rank_loop get_element_by_rank_asc rank_asc_loop walk_rank Dict.lookup Dict.insert Dict.delete
    ℕ_discrete
program = tt

four_in_order :
    (do s ← four; get_top_n (pos 10) s) ≡ ok ((9, 10) ∷ (5, 20) ∷ (3, 30) ∷ (4, 30) ∷ [])
unfolding program
four_in_order = refl

four_from_the_end : (do s ← four; get_top_n_desc (pos 3) s) ≡ ok ((4, 30) ∷ (3, 30) ∷ (5, 20) ∷ [])
unfolding program
four_from_the_end = refl

rank_of_four : (do s ← four; get_rank numbers 4 s) ≡ ok (some 4)
unfolding program
rank_of_four = refl

third_of_four : (do s ← four; get_element_by_rank_asc numbers (pos 3) s) ≡ ok (3, 30)
unfolding program
third_of_four = refl

three_in_order :
    (do s ← four; (_, s') ← del numbers 3 s; get_top_n_desc (pos 9) s')
    ≡ ok ((4, 30) ∷ (5, 20) ∷ (9, 10) ∷ [])
unfolding program
three_in_order = refl

rank_of_three : (do s ← four; (_, s') ← del numbers 3 s; get_rank numbers 4 s') ≡ ok (some 3)
unfolding program
rank_of_three = refl

-- The key that the header bears, 0 here and the empty string in the program, is taken for found at
-- the header as soon as there is a level that it does not reach: its rank is 1, and 0 is answered.
rank_of_no_key :
    (do
      (_, s₁) ← set numbers 0 5 1 (new_set numbers)
      (_, s₂) ← set numbers 1 6 2 s₁
      get_rank numbers 0 s₂)
    ≡ ok (some 0)
unfolding program
rank_of_no_key = refl

numbers-IsOrder : IsOrder numbers
numbers-IsOrder = record {
  key_irrefl = λ k. ground arith;
  key_trans = λ i j k p q. ground arith;
  key_total = λ i j p q. ground arith;
  score_irrefl = λ s. ground arith;
  score_trans = λ s t u p q. ground arith;
  score_total = λ s t p q. ground arith;
  score_eq_iff = λ s t. ==_iff s t;
}

-- Keys at the levels 1, 3 and 2, one of them moved, one deleted, one never there.
abbrev five_calls : List (Call ℕ ℕ)
five_calls =
    set_call 5 50 (20000 ∷ [])
    ∷ set_call 3 30 (70000 ∷ 0 ∷ 65535 ∷ [])
    ∷ set_call 4 30 (1 ∷ [])
    ∷ del_call 3
    ∷ set_call 5 20 (2 ∷ 2 ∷ 2 ∷ [])
    ∷ del_call 9
    ∷ []

abbrev five_left : Dict ℕ ℕ
five_left = apply_all numbers five_calls []

five_left_is : five_left ≡ (5, 20) ∷ (4, 30) ∷ []
unfolding apply_all apply place Dict.delete ℕ_discrete
five_left_is = refl

run_all-Models_example :
    Returns
      (run_all numbers five_calls (new_set numbers))
      (λ s. Models numbers s (apply_all numbers five_calls []))
run_all-Models_example = run_all-Models numbers numbers-IsOrder five_calls

-- The set after the calls.
abbrev built : SortedSet ℕ ℕ
built = (run_all-Models numbers numbers-IsOrder five_calls).0

built-Models : Models numbers built five_left
built-Models = (run_all-Models numbers numbers-IsOrder five_calls).2

del-Models_example : Returns (del numbers 5 built) (λ r.
    (r.0 ≡ is_some (Dict.lookup ℕ_discrete 5 five_left))
    × Models numbers r.1 (Dict.delete ℕ_discrete 5 five_left))
del-Models_example = del-Models numbers 5 built five_left numbers-IsOrder built-Models

ranks-position_example :
    (get_rank numbers 4 built
      ≡ ok (Option.map (λ v. position numbers 4 five_left) (Dict.lookup ℕ_discrete 4 five_left)))
    × (get_rank_desc numbers 4 built
        ≡ ok (
            Option.map
              (λ v. sub_ℕ (suc (length five_left)) (position numbers 4 five_left))
              (Dict.lookup ℕ_discrete 4 five_left)))
ranks-position_example =
    ranks-position numbers numbers-IsOrder 4 built five_left (omega arith) built-Models

tops-take_example :
    (get_top_n (pos 1) built ≡ ok (take 1 five_left))
    × (get_top_n_desc (pos 1) built ≡ ok (take 1 (reverse five_left)))
tops-take_example = tops-take numbers (pos 1) built five_left built-Models

elements-ranked_example :
    ((rank : ℕ)
      → (get_element_by_rank_asc numbers (pos rank) built ≡ ok (ranked numbers rank five_left))
        × (get_element_by_rank_desc numbers (pos rank) built
            ≡ ok (ranked numbers rank (reverse five_left))))
    × ((n : ℕ)
        → (get_element_by_rank_asc numbers (negsuc n) built ≡ ok (0, 0))
          × (get_element_by_rank_desc numbers (negsuc n) built ≡ ok (0, 0)))
elements-ranked_example = elements-ranked numbers built five_left built-Models
