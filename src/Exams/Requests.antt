-- ===== src/Exams/Requests.antt =====
-- The requests on exams, as backend/src/exams/exams.controller.ts sends them: all but `options`,
-- which only reads the choices of the form.
use widget_demo.Prelude.{ℕ, String, List, ◌>>=◌, pure}
use widget_demo.School.{Exam, ActorContext}
use widget_demo.Exams.{
  Service, CreateExam, UpdateExam, ExamDetail, create, list, detail, update, publish, withdraw,
}

-- `now` is what `new Date()` returns while the request runs
pub data ExamRequest : Type 0 where
  create_request : (id : String) → (ids : ℕ → String) → CreateExam → ExamRequest
  list_request : ExamRequest
  detail_request : (id : String) → ExamRequest
  update_request : (id : String) → UpdateExam → ExamRequest
  publish_request : (id : String) → (now : ℕ) → ExamRequest
  withdraw_request : (id : String) → (now : ℕ) → ExamRequest

-- what the handlers return
pub data ExamAnswer : Type 0 where
  one_exam : Exam → ExamAnswer
  with_subjects : ExamDetail → ExamAnswer
  exams_of_tenant : List (String × Exam) → ExamAnswer

unfoldable pub handle : ActorContext → ExamRequest → Service ExamAnswer
handle actor (create_request id ids command) = do
  found ← create id ids actor command
  pure (with_subjects found)
handle actor list_request = do rows ← list actor; pure (exams_of_tenant rows)
handle actor (detail_request id) = do found ← detail actor id; pure (with_subjects found)
handle actor (update_request id command) = do exam ← update actor id command; pure (one_exam exam)
handle actor (publish_request id now) = do exam ← publish actor id now; pure (one_exam exam)
handle actor (withdraw_request id now) = do exam ← withdraw actor id now; pure (one_exam exam)
