-- ===== src/WidgetData.antt =====
-- Batches of widget data: backend/src/widgets/widget-data.service.ts. A batch writes nothing, so it is
-- a function of the tables; results that the source keeps for the batch are read again from the same
-- tables.
pub mod Item
pub mod Batch
pub mod Served
pub mod Collected
pub mod Answered
mod Tests
use Prim.Native.String.{◌++◌ as concat}
use widget_demo.Prelude.{
  chars, ℕ, String, Bool, true, false, ◌&&◌, ◌||◌, not, Option, none, some, List, [], ◌∷◌, map,
  ◌==◌, ltb, ◌=ℕ◌, if◌then◌else◌, any, length, or_else, is_some,
}
use widget_demo.Results.{SubjectResult, ExamResult}
use widget_demo.Results.Teacher.{TeacherRow}

-- `params`: missing, no object, or an object that has a `student_id` (`none` if it is no text) and
-- perhaps other keys
pub data Params : Type 0 where
  missing : Params
  malformed : Params
  given : (student_id : Option (Option String)) → (has_others : Bool) → Params

pub record BatchItem : Type 0 where
  pub widget_key : String
  pub data_endpoint_key : String
  pub query_preset_key : Option String
  pub params : Params

-- an item of the body: `none` for what is no object; a key is `none` if it is no text. A
-- preset is a text or missing, as its type says.
pub record BodyItem : Type 0 where
  pub widget_key : Option String
  pub data_endpoint_key : Option String
  pub query_preset_key : Option String
  pub params : Params

pub record BatchBody : Type 0 where
  pub request_id : Option String
  pub widgets : Option (List (Option BodyItem))

pub record BatchRequest : Type 0 where
  pub request_id : String
  pub widgets : List BatchItem

-- `ItemFailure`, or the code and message of an error result
pub record Failure : Type 0 where
  pub code : String
  pub message : String

pub record ScoreLine (N : Type 0) : Type 0 where
  pub student_name : String
  pub subject : String
  pub score : Option N
  pub rank : Option ℕ

pub record Summary (N : Type 0) : Type 0 where
  pub title : String
  pub total : N
  pub average : N
  pub class_rank : Option ℕ

pub record TrendItem : Type 0 where
  pub exam_id : String
  pub title : String
  pub exam_date : String
  pub summary : String

pub data WidgetPayload (N : Type 0) : Type 0 where
  latest : Option (Summary N) → WidgetPayload N
  rows : List (ScoreLine N) → WidgetPayload N
  items : List TrendItem → WidgetPayload N

-- how JavaScript writes numbers and dates
pub record Format (N : Type 0) : Type 0 where
  pub number : N → String
  pub whole : ℕ → String
  pub iso_date : ℕ → String

-- `EXAMINATION_WIDGET_KEYS` of backend/src/widgets/widget-catalog.ts
unfoldable pub is_examination_widget : String → Bool
is_examination_widget key =
    key == "exam-latest-summary" || (key == "exam-score-table" || key == "exam-score-trend")

unfoldable pub last : {A : Type 0} → List A → Option A
last [] = none
last (x ∷ []) = some x
last (x ∷ y ∷ l) = last (y ∷ l)

abbrev pub rank_text : {N : Type 0} → Format N → Option ℕ → String
rank_text format none = "-"
rank_text format (some n) = format.whole n

abbrev pub summary_text : {N : Type 0} → Format N → ExamResult N → String
summary_text format exam = concat "总分 " (
    concat (format.number exam.total) (
      concat "，平均分 "
        (concat (format.number exam.average) (concat "，班级排名 " (rank_text format exam.class_rank)))))

abbrev pub summary_of : {N : Type 0} → Option (ExamResult N) → Option (Summary N)
summary_of none = none
summary_of (some exam) = some (record {
  title = exam.title;
  total = exam.total;
  average = exam.average;
  class_rank = exam.class_rank;
})

abbrev pub lines_of : {N : Type 0} → String → Option (ExamResult N) → List (ScoreLine N)
lines_of student_name none = []
lines_of student_name (some exam) =
    map
      (λ subject. record {
        student_name = student_name;
        subject = subject.name;
        score = subject.score;
        rank = subject.rank;
      })
      exam.subjects

unfoldable pub student_payload :
    {N : Type 0} → Format N → String → List (ExamResult N) → String → WidgetPayload N
student_payload format key exams student_name =
    if key == "exam-latest-summary"
    then latest (summary_of (last exams))
    else if key == "exam-score-table"
    then rows (lines_of student_name (last exams))
    else items (
        map
          (λ exam. record {
            exam_id = exam.exam_id;
            title = exam.title;
            exam_date = format.iso_date exam.exam_date;
            summary = summary_text format exam;
          })
          exams)

unfoldable pub teacher_rows : {N : Type 0} → List (TeacherRow N) → List (ScoreLine N)
teacher_rows found =
    map
      (λ row. record {
        student_name = row.student_name;
        subject = row.subject;
        score = row.score;
        rank = row.rank;
      })
      found
