-- ===== src/Results/Tests.antt =====
-- Results of the sample school.
use widget_demo.Prelude.{ℕ, ◌+◌, ◌≡◌, ◌↔◌, refl, true, none, some, List, arith, count_if, All, ok}
use widget_demo.Sorting.{sort, insert}
use widget_demo.Sorting.Ordered.{IsTotal}
use widget_demo.Table.{string_eq, lookup}
use widget_demo.School.{same_type, is_teacher, is_staff}
use widget_demo.Samples.{hundredths, school, ann, dad, miss_lee}
use widget_demo.Ranking.{competition_ranks, rank_from, is_tie, comes_first}
use widget_demo.Ranking.Order.{IsOrder}
use widget_demo.Results.{
  Collation, ExamResult, comparison, assert_access, value_row, values_of, rank_in, subject_rank,
  read_results, for_student,
}
use widget_demo.Results.Access.{MayRead, for_student-MayRead}
use widget_demo.Results.Published.{AreShown, for_student-AreShown}
use widget_demo.Results.Ranks.{beats, HasValue, subject_rank-count}
use widget_demo.Results.Teacher.{active_assignments, allowed_keys, latest_rows, for_teacher}
use widget_demo.Results.Taught.{IsTeacherRow, for_teacher-IsTeacherRow}

abbrev any_order : Collation
any_order = record { column_le = λ a b. true; locale_le = λ a b. true }

hundredths-IsOrder : IsOrder (comparison hundredths any_order)
hundredths-IsOrder = record {
  asym = λ a b h. ground arith;
  cotrans = λ x y z h k. ground arith;
  same_lem = λ a b. ground arith;
}

for_student-MayRead_example :
    (((results : List (ExamResult ℕ)) × ((for_student hundredths any_order dad "ann" none school).0
          ≡ ok results))
      ↔ MayRead dad "ann" school)
    × ((for_student hundredths any_order dad "ann" none school).1 ≡ school)
for_student-MayRead_example = for_student-MayRead hundredths any_order dad "ann" none school

any_order-IsTotal : IsTotal any_order.column_le
any_order-IsTotal = record { trans = λ a b c h k. refl; total = λ a b h. refl }

for_student-AreShown_example :
    AreShown hundredths any_order ann "ann" school
      (some 1)
      (read_results hundredths any_order ann "ann" (some 1) school)
unfolding for_student assert_access same_type
for_student-AreShown_example =
    for_student-AreShown hundredths any_order ann "ann" school any_order-IsTotal (some 1)
      (read_results hundredths any_order ann "ann" (some 1) school) refl

subject_rank-count_example :
    (v : ℕ) × HasValue hundredths any_order "bob" "old1" school.scores v
    × (2 ≡ 1 + count_if (beats hundredths any_order "old1" v) school.scores)
unfolding subject_rank rank_in values_of value_row competition_ranks rank_from is_tie comes_first
    sort insert
subject_rank-count_example =
    subject_rank-count hundredths any_order hundredths-IsOrder "bob" "old1" school.scores 2 refl

for_teacher-IsTeacherRow_example :
    All
      (IsTeacherRow hundredths any_order miss_lee school)
      (latest_rows hundredths any_order miss_lee school)
unfolding for_teacher is_teacher is_staff allowed_keys active_assignments lookup
for_teacher-IsTeacherRow_example =
    for_teacher-IsTeacherRow hundredths any_order miss_lee school
      (latest_rows hundredths any_order miss_lee school) refl
