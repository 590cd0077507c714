-- ===== src/Ranking/Tests.antt =====
-- Ranks of three pupils, two of them tied.
use widget_demo.Prelude.{ℕ, ◌≡◌, refl, ◌+◌, List, [], ◌∷◌, map, All, arith, ltb, ◌=ℕ◌, true}
use mathlib.Core.List.{Perm}
use widget_demo.Ranking.{
  Row, RankedRow, Comparison, competition_ranks, rank_from, is_tie, comes_first,
}
use widget_demo.Sorting.{sort, insert}
use widget_demo.Ranking.Order.{IsOrder, count_above}
use widget_demo.Ranking.Places.{rows_of, competition_ranks-count_above}

abbrev by_number : Comparison ℕ
by_number = record { lt = ltb; same = λ a b. a =ℕ b; locale_le = λ a b. true }

by_number-IsOrder : IsOrder by_number
by_number-IsOrder = record {
  asym = λ a b h. ground arith;
  cotrans = λ x y z h k. ground arith;
  same_lem = λ a b. ground arith;
}

abbrev pupils : List (Row ℕ)
pupils =
    record { id = "a"; value = 90 }
    ∷ record { id = "b"; value = 70 }
    ∷ record { id = "c"; value = 90 }
    ∷ record { id = "d"; value = 80 }
    ∷ []

ranks_of_pupils :
    map (λ (r : RankedRow ℕ). r.rank) (competition_ranks by_number pupils) ≡ 1 ∷ 1 ∷ 3 ∷ 4 ∷ []
unfolding competition_ranks rank_from is_tie comes_first sort insert
ranks_of_pupils = refl

competition_ranks-count_above_example :
    All
      (λ (r : RankedRow ℕ). r.rank ≡ 1 + count_above by_number r.value pupils)
      (competition_ranks by_number pupils)
    × Perm (rows_of (competition_ranks by_number pupils)) pupils
competition_ranks-count_above_example =
    competition_ranks-count_above by_number by_number-IsOrder pupils
