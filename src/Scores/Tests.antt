-- ===== src/Scores/Tests.antt =====
-- Grids of scores of the sample school.
use widget_demo.Prelude.{ℕ, refl, true, false, none, some, List, [], ◌∷◌}
use widget_demo.Table.{string_eq, lookup, insert}
use widget_demo.School.{same_type, is_teacher, is_staff}
use widget_demo.Samples.{hundredths, school, miss_lee}
use widget_demo.Exams.{subjects_of, assert_staff_actor, in_tenant, is_draft, has_person}
use widget_demo.Scores.{
  ScoreCell, validate, apply, save, subject_of, by_external_id, assigned_courses, active_students,
  class_members, course_of, course_ids_of, assert_assigned, out_of_range, check_cell, check_cells,
  prepare, prepare_cells, external_ids_of, some_unknown, some_outside, find_students,
}
use widget_demo.Scores.Saved.{IsSaved, save_ok}

abbrev grid : List (ScoreCell ℕ)
grid =
    record { student_eduplus_id = "3"; subject_id = "new1"; score = some 9950; absent = false }
    ∷ record { student_eduplus_id = "4"; subject_id = "new1"; score = none; absent = true }
    ∷ []

save_ok_example :
    IsSaved hundredths miss_lee "new" grid school 2 (save hundredths miss_lee "new" grid school).1
unfolding save validate apply subject_of by_external_id assigned_courses active_students
    class_members course_of course_ids_of assert_assigned out_of_range check_cell check_cells
    prepare prepare_cells external_ids_of some_unknown some_outside find_students subjects_of
    assert_staff_actor in_tenant is_draft has_person lookup insert is_teacher is_staff same_type
save_ok_example = save_ok hundredths miss_lee "new" grid school 2 refl
