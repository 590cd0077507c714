-- ===== src/Exams/Tests.antt =====
-- Requests on the exams of the sample school.
use widget_demo.Prelude.{◌≡◌, ◌≤◌, ◌<◌, ◌↔◌, refl, some, List, [], ◌∷◌, forbidden, ok, err, length}
use widget_demo.Table.{string_eq, lookup}
use widget_demo.School.{draft, withdrawn, Exam, Database, ActorContext, is_teacher, is_staff}
use widget_demo.Samples.{school, draft_exam, miss_lee, ann}
use widget_demo.Exams.{publish, subjects_of}
use widget_demo.Exams.Guards.{MayChange}
use widget_demo.Exams.Requests.{ExamRequest, publish_request, withdraw_request, handle}
use widget_demo.Exams.Lifecycle.{Step, handle-Step}
use widget_demo.Exams.History.{
  run, phase, IsStamped, opened_exam, run_forward, run-IsStamped, handle_outsider, publish_iff,
}

abbrev requests : List (ActorContext × ExamRequest)
requests = (miss_lee, publish_request "new" 5) ∷ (miss_lee, withdraw_request "new" 6) ∷ []

handle-Step_example :
    Step miss_lee
      (lookup "new" school.exams)
      (lookup "new" (handle miss_lee (publish_request "new" 5) school).1.exams)
handle-Step_example = handle-Step miss_lee (publish_request "new" 5) school "new"

run_forward_example :
    phase (lookup "new" school.exams) ≤ phase (lookup "new" (run requests school).exams)
run_forward_example = run_forward requests school "new"

run-IsStamped_example : IsStamped (lookup "new" (run requests school).exams)
unfolding lookup
run-IsStamped_example = run-IsStamped requests school "new" (refl, refl)

abbrev gone : Exam
gone = record draft_exam { status = withdrawn; published_at = some 1; withdrawn_at = some 2 }

abbrev old_school : Database
old_school = record school { exams = ("gone", gone) ∷ school.exams }

handle_outsider_example :
    handle ann (publish_request "new" 5) school
    ≡ (err (forbidden "A staff identity is required"), school)
unfolding is_teacher is_staff
handle_outsider_example = handle_outsider ann (publish_request "new" 5) school refl refl

publish_iff_example :
    ((publish miss_lee "new" 5 school).0
      ≡ ok (opened_exam miss_lee "new" 5 school draft_exam (unfold lookup in refl)))
    ↔ (MayChange miss_lee draft_exam
        × (draft_exam.status ≡ draft)
        × (0 < length (subjects_of "t" "new" school)))
unfolding lookup
publish_iff_example = publish_iff miss_lee "new" 5 school draft_exam refl
