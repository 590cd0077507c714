-- ===== src/Scores.antt =====
-- backend/src/exams/score-entry.service.ts: a grid of scores is checked as a whole, and then each
-- cell is written under its unique key.
pub mod Checks
pub mod Writes
pub mod Accepted
pub mod Saved
mod Tests
use Prim.Native.String.{◌++◌ as concat}
use widget_demo.Prelude.{
  ℕ, String, Bool, true, false, ◌&&◌, ◌||◌, not, Option, none, some, List, [], ◌∷◌, map, ◌==◌,
  if◌then◌else◌, filter, any, all, length, is_some, find?, find_last?, dedupe, filter_some,
  HttpError, bad_request, forbidden, not_found, foreign_key_violation, type_error, raise, Result,
  ok, err, Exec, pure, gets, or_raise, raise_if, lift, modify, transaction, ◌>>=◌, ◌>>◌,
}
use widget_demo.Table.{string_eq, lookup, insert}
use widget_demo.School.{
  PersonType, student, same_type, ExamStatus, Exam, ExamSubject, Person, TeachingAssignment,
  StudentClassRelation, ScoreKey, Score, Database, ActorContext, is_teacher, is_staff, score_key_eq,
}
use widget_demo.Exams.{Service, in_tenant, is_draft, subjects_of, assert_staff_actor, has_person}
use widget_demo.Numbers.{Numbers}

pub record ScoreCell (N : Type 0) : Type 0 where
  pub student_eduplus_id : String
  pub subject_id : String
  pub score : Option N
  pub absent : Bool

pub record PreparedScoreCell : Type 0 where
  pub student_id : String
  pub subject_id : String
  pub value : Option ℕ
  pub absent : Bool

-- `${studentEduplusId}\u0000${subjectId}`
abbrev pub cell_key : {N : Type 0} → ScoreCell N → String
cell_key cell = concat cell.student_eduplus_id (concat "\0" cell.subject_id)

abbrev pub Student : Type 0
Student = String × Person

-- `new Map(exam.subjects.map((subject) => [subject.id, subject])).get(id)`
unfoldable pub subject_of : List (String × ExamSubject) → String → Option (String × ExamSubject)
subject_of subjects id = find_last? (λ s. s.0 == id) subjects

-- `byExternalId.get(id)`
unfoldable pub by_external_id : List Student → String → Option Student
by_external_id students id = find_last? (λ s. s.1.eduplus_id == id) students

abbrev pub contains : String → List String → Bool
contains x = any (λ y. y == x)

-- the query of the teacher's assignments, as the set of their courses
unfoldable pub assigned_courses : ActorContext → Exam → List String → Database → List String
assigned_courses actor exam course_ids db =
    map (λ a. a.course_id)
      (filter
        (λ a.
          a.tenant_id == actor.tenant_id
          && (a.teacher_id == actor.person_id
              && (a.classroom_id == exam.classroom_id
                  && (contains a.course_id course_ids && a.active))))
        db.assignments)

unfoldable pub active_students : ActorContext → List String → Database → List Student
active_students actor external_ids db =
    filter
      (λ s.
        s.1.tenant_id == actor.tenant_id
        && (contains s.1.eduplus_id external_ids && (same_type s.1.type student && s.1.active)))
      db.people

unfoldable pub class_members : ActorContext → Exam → List String → Database → List String
class_members actor exam student_ids db =
    map (λ m. m.student_id)
      (filter
        (λ m.
          m.tenant_id == actor.tenant_id
          && (m.classroom_id == exam.classroom_id
              && (contains m.student_id student_ids && m.active)))
        db.class_relations)

module _ (num : Numbers) where
  open num use {Number, is_finite, lt, zero, of_decimal, to_decimal}

  unfoldable pub course_of : List (String × ExamSubject) → ScoreCell Number → Option String
  course_of subjects cell = elim (subject_of subjects cell.subject_id) [
    | none ↦ none
    | some s ↦ some s.1.course_id
  ]

  -- `[...new Set(… .filter(Boolean))]`
  unfoldable pub course_ids_of : List (String × ExamSubject) → List (ScoreCell Number) → List String
  unfolding course_of
  course_ids_of subjects cells =
      dedupe (λ a b. a == b)
        (filter (λ c. not (c == "")) (filter_some (map (course_of subjects) cells)))

  unfoldable pub assert_assigned :
      ActorContext → Exam → List (String × ExamSubject) → List (ScoreCell Number) → Service Unit
  unfolding course_ids_of assigned_courses
  assert_assigned actor exam subjects cells db =
      let course_ids = course_ids_of subjects cells in
      let assigned = assigned_courses actor exam course_ids db in
      raise_if (is_teacher actor.identity_type && any (λ c. not (contains c assigned)) course_ids)
        (forbidden "Teacher is not assigned to one or more subjects") db

  unfoldable pub out_of_range : Option Number → ExamSubject → Bool
  out_of_range none subject = false
  out_of_range (some score) subject =
      not (is_finite score) || (lt score zero || lt (of_decimal subject.maximum_score) score)

  unfoldable pub check_cell : Option (String × ExamSubject) → ScoreCell Number → Service Unit
  unfolding out_of_range
  check_cell none cell = raise (bad_request "Unknown exam subject")
  check_cell (some subject) cell = do
    raise_if (cell.absent && is_some cell.score)
        (bad_request "Absent students cannot have a numeric score")
    raise_if (out_of_range cell.score subject.1) (bad_request "Score is outside the allowed range")

  -- the `for` over the cells; `seen` holds the keys of the cells before
  unfoldable pub check_cells :
      List (String × ExamSubject) → List String → List (ScoreCell Number) → Service Unit
  unfolding check_cell
  check_cells subjects seen [] = pure tt
  check_cells subjects seen (cell ∷ rest) =
      raise_if (contains (cell_key cell) seen) (bad_request "Duplicate student and subject cell")
      >> (check_cell (subject_of subjects cell.subject_id) cell
          >> check_cells subjects (cell_key cell ∷ seen) rest)

  unfoldable pub prepare : Student → ScoreCell Number → PreparedScoreCell
  prepare s cell = record {
    student_id = s.0;
    subject_id = cell.subject_id;
    value = elim cell.score [ none ↦ none | some score ↦ some (to_decimal score) ];
    absent = cell.absent;
  }

  -- the `map` at the end; a student that is missing there would be a `TypeError`
  unfoldable pub prepare_cells :
      List Student → List (ScoreCell Number) → Service (List PreparedScoreCell)
  unfolding prepare
  prepare_cells students [] = pure []
  prepare_cells students (cell ∷ rest) = do
    s ← or_raise (by_external_id students cell.student_eduplus_id) type_error
    prepared ← prepare_cells students rest
    pure (prepare s cell ∷ prepared)

  -- `[...new Set(cells.map((cell) => cell.studentEduplusId))]`
  unfoldable pub external_ids_of : List (ScoreCell Number) → List String
  external_ids_of cells = dedupe (λ a b. a == b) (map (λ c. c.student_eduplus_id) cells)

  -- `externalIds.some(…)`
  unfoldable pub some_unknown : List Student → List String → Bool
  unfolding by_external_id
  some_unknown students ids = any (λ x. not (is_some (by_external_id students x))) ids

  -- `students.some(…)`
  unfoldable pub some_outside : ActorContext → Exam → List Student → Database → Bool
  unfolding class_members
  some_outside actor exam students db =
      let members = class_members actor exam (map (λ s. s.0) students) db in
      any (λ s. not (contains s.0 members)) students

  unfoldable pub find_students :
      ActorContext → Exam → List (ScoreCell Number) → Service (List Student)
  find_students actor exam cells = do
    let ids = external_ids_of cells
    students ← gets (active_students actor ids)
    raise_if (some_unknown students ids) (bad_request "Unknown student")
    outside ← gets (some_outside actor exam students)
    raise_if outside (bad_request "Student is outside the exam class")
    pure students

  unfoldable pub validate :
      ActorContext → String → List (ScoreCell Number) → Service (List PreparedScoreCell)
  unfolding assert_staff_actor in_tenant is_draft
  validate actor exam_id cells = do
    assert_staff_actor actor
    found ← gets (λ db. in_tenant actor.tenant_id (lookup exam_id db.exams))
    exam ← or_raise found (not_found "Exam was not found")
    raise_if (not (is_draft exam.status)) (forbidden "Published scores cannot be changed")
    subjects ← gets (subjects_of actor.tenant_id exam_id)
    assert_assigned actor exam subjects cells
    check_cells subjects [] cells
    students ← find_students actor exam cells
    prepare_cells students cells

abbrev pub score_key : ActorContext → String → PreparedScoreCell → ScoreKey
score_key actor exam_id cell = record {
  tenant_id = actor.tenant_id;
  exam_id = exam_id;
  student_id = cell.student_id;
  subject_id = cell.subject_id;
}

abbrev pub score_row : ActorContext → PreparedScoreCell → Score
score_row actor cell = record {
  grader_id = actor.person_id;
  value = cell.value;
  absent = cell.absent;
}

-- `create` and `update` of the `upsert` write the same columns. Its grader is a person of the
-- tenant; the exam, the subject and the student of a cell were found before.
unfoldable pub apply : ActorContext → String → List PreparedScoreCell → Service Unit
apply actor exam_id [] = pure tt
apply actor exam_id (cell ∷ rest) =
    (do
      known ← gets (has_person actor.tenant_id actor.person_id)
      raise_if (not known) foreign_key_violation
      modify (λ db. record db {
        scores = insert (score_key actor exam_id cell) (score_row actor cell) db.scores;
      }))
    >> apply actor exam_id rest

-- `{ saved: prepared.length }`
unfoldable pub save :
    (num : Numbers) → ActorContext → String → List (ScoreCell num.Number) → Service ℕ
unfolding apply
save num actor exam_id cells = do
  prepared ← validate num actor exam_id cells
  transaction (apply actor exam_id prepared)
  pure (length prepared)
