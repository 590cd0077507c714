-- ===== src/Exams.antt =====
-- backend/src/exams/exams.service.ts: the life cycle of an exam. One request runs at a time, and a
-- request that raises inside its transaction leaves the database as it was.
pub mod Requests
pub mod Guards
pub mod Lifecycle
pub mod History
mod Tests
use widget_demo.Prelude.{
  ℕ, ◌+◌, String, Bool, true, false, ◌&&◌, ◌||◌, not, Option, none, some, List, [], ◌∷◌, map, ◌==◌,
  ◌=ℕ◌, leb, if◌then◌else◌, filter, any, all, length, or_else, is_some, HttpError, forbidden,
  not_found, unique_violation, foreign_key_violation, Exec, pure, gets, or_raise, raise_if, modify,
  transaction, ◌>>=◌, ◌>>◌,
}
use widget_demo.Sorting.{sort}
use mathlib.Core.List.{reverse}
use widget_demo.Table.{string_eq, lookup, insert}
use widget_demo.School.{
  PersonType, staff, ExamStatus, draft, published, withdrawn, Exam, ExamSubject, Classroom,
  TeachingAssignment, Database, ActorContext, is_teacher, is_staff,
}

abbrev pub Service : Type 0 → Type 0
Service A = Exec HttpError Database A

pub record CreateExamSubject : Type 0 where
  pub course_id : String
  pub maximum_score : ℕ

-- `exam_date` is the instant that `new Date(command.examDate)` reads
pub record CreateExam : Type 0 where
  pub classroom_id : String
  pub title : String
  pub type : String
  pub exam_date : ℕ
  pub subjects : List CreateExamSubject

pub record UpdateExam : Type 0 where
  pub title : Option String
  pub type : Option String
  pub exam_date : Option ℕ

-- an exam with its subjects by display order
pub record ExamDetail : Type 0 where
  pub id : String
  pub exam : Exam
  pub subjects : List (String × ExamSubject)

unfoldable pub is_draft : ExamStatus → Bool
is_draft draft = true
is_draft _ = false

unfoldable pub is_published : ExamStatus → Bool
is_published published = true
is_published _ = false

unfoldable pub assert_staff_actor : ActorContext → Service Unit
assert_staff_actor actor =
    raise_if (not (is_teacher actor.identity_type) && not (is_staff actor.identity_type))
      (forbidden "A staff identity is required")

unfoldable pub assert_owner : ActorContext → String → Service Unit
assert_owner actor creator_id =
    raise_if (is_teacher actor.identity_type && not (creator_id == actor.person_id))
      (forbidden "Only the creating teacher may change this exam")

unfoldable pub is_assigned : ActorContext → String → String → TeachingAssignment → Bool
is_assigned actor classroom_id course_id a =
    a.tenant_id == actor.tenant_id
    && (a.teacher_id == actor.person_id
        && (a.classroom_id == classroom_id && (a.course_id == course_id && a.active)))

unfoldable pub assert_teaching_assignment : ActorContext → String → String → Service Unit
unfolding is_staff is_assigned
assert_teaching_assignment actor classroom_id course_id db =
    raise_if
      (not (is_staff actor.identity_type)
        && not (any (is_assigned actor classroom_id course_id) db.assignments))
      (forbidden "Teacher is not assigned to this class and subject") db

-- the `for` over `command.subjects`
unfoldable pub assert_assignments : ActorContext → String → List CreateExamSubject → Service Unit
unfolding assert_teaching_assignment
assert_assignments actor classroom_id [] = pure tt
assert_assignments actor classroom_id (subject ∷ rest) =
    assert_teaching_assignment actor classroom_id subject.course_id
    >> assert_assignments actor classroom_id rest

-- a row of a table by its id and tenant
unfoldable pub in_tenant : String → Option Exam → Option Exam
in_tenant tenant_id none = none
in_tenant tenant_id (some e) = if e.tenant_id == tenant_id then some e else none

unfoldable pub active_classroom : String → Option Classroom → Bool
active_classroom tenant_id none = false
active_classroom tenant_id (some c) = c.tenant_id == tenant_id && c.active

unfoldable pub subjects_of : String → String → Database → List (String × ExamSubject)
subjects_of tenant_id exam_id db =
    filter (λ s. s.1.tenant_id == tenant_id && s.1.exam_id == exam_id) db.exam_subjects

-- `include: { subjects: { orderBy: { displayOrder: 'asc' } } }`
abbrev pub detail_of : String → String → Exam → Database → ExamDetail
detail_of tenant_id id exam db = record {
  id = id;
  exam = exam;
  subjects = sort (λ a b. leb a.1.display_order b.1.display_order) (subjects_of tenant_id id db);
}

unfoldable pub detail : ActorContext → String → Service ExamDetail
unfolding in_tenant subjects_of
detail actor id = do
  found ← gets (λ db. in_tenant actor.tenant_id (lookup id db.exams))
  exam ← or_raise found (not_found "Exam was not found")
  gets (detail_of actor.tenant_id id exam)

unfoldable pub mutable_exam : ActorContext → String → Service ExamDetail
unfolding assert_staff_actor assert_owner
mutable_exam actor id = do
  assert_staff_actor actor
  found ← detail actor id
  assert_owner actor found.exam.creator_id
  raise_if (not (is_draft found.exam.status)) (forbidden "Only draft exams may be changed")
  pure found

abbrev pub put_exam : String → Exam → Service Exam
put_exam id exam db = (modify (λ d. record d { exams = insert id exam d.exams }) >> pure exam) db

unfoldable pub update : ActorContext → String → UpdateExam → Service Exam
update actor id command = do
  found ← mutable_exam actor id
  put_exam id (record found.exam {
    title = or_else command.title found.exam.title;
    type = or_else command.type found.exam.type;
    exam_date = or_else command.exam_date found.exam.exam_date;
  })

unfoldable pub publish : ActorContext → String → ℕ → Service Exam
publish actor id now = do
  found ← mutable_exam actor id
  subject_count ← gets (λ db. length (subjects_of actor.tenant_id id db))
  raise_if (subject_count =ℕ 0) (forbidden "At least one subject is required")
  put_exam id
      (record found.exam { status = published; published_at = some now; withdrawn_at = none })

unfoldable pub withdraw : ActorContext → String → ℕ → Service Exam
unfolding assert_staff_actor assert_owner
withdraw actor id now = do
  assert_staff_actor actor
  found ← detail actor id
  assert_owner actor found.exam.creator_id
  raise_if (not (is_published found.exam.status))
      (forbidden "Only published exams may be withdrawn")
  put_exam id (record found.exam { status = withdrawn; withdrawn_at = some now })

-- a row of the `map` over `command.subjects`
abbrev pub new_subject : String → String → ℕ → CreateExamSubject → ExamSubject
new_subject tenant_id exam_id display_order subject = record {
  tenant_id = tenant_id;
  exam_id = exam_id;
  course_id = subject.course_id;
  maximum_score = subject.maximum_score;
  display_order = display_order;
}

-- the constraints of the table: a course of the tenant, once for each exam, and a new id
unfoldable pub is_taken : ExamSubject → String → Database → Bool
is_taken s id db =
    is_some (lookup id db.exam_subjects)
    || any
        (λ old.
          old.1.tenant_id == s.tenant_id
          && (old.1.exam_id == s.exam_id && old.1.course_id == s.course_id))
        db.exam_subjects

unfoldable pub has_course : String → String → Database → Bool
has_course tenant_id course_id db = elim (lookup course_id db.courses) [
  | none ↦ false
  | some c ↦ c.tenant_id == tenant_id
]

unfoldable pub create_rows :
    (ids : ℕ → String) → String → String → ℕ → List CreateExamSubject → Service Unit
unfolding is_taken
create_rows ids tenant_id exam_id index [] = pure tt
create_rows ids tenant_id exam_id index (subject ∷ rest) =
    let row = new_subject tenant_id exam_id index subject in
    (do
      taken ← gets (is_taken row (ids index))
      raise_if taken unique_violation
      modify (λ db. record db { exam_subjects = insert (ids index) row db.exam_subjects }))
    >> create_rows ids tenant_id exam_id (index + 1) rest

-- `examSubject.createMany`; references are checked when all of the rows are in
unfoldable pub create_subjects :
    (ids : ℕ → String) → String → String → List CreateExamSubject → Service Unit
unfolding has_course
create_subjects ids tenant_id exam_id subjects = do
  create_rows ids tenant_id exam_id 0 subjects
  known ← gets (λ db. all (λ subject. has_course tenant_id subject.course_id db) subjects)
  raise_if (not known) foreign_key_violation

-- the exam's row: its creator is a person of the tenant (the classroom was found before)
unfoldable pub has_person : String → String → Database → Bool
has_person tenant_id person_id db = elim (lookup person_id db.people) [
  | none ↦ false
  | some p ↦ p.tenant_id == tenant_id
]

unfoldable pub create_exam : ActorContext → String → CreateExam → Service Exam
unfolding has_person
create_exam actor id command = do
  taken ← gets (λ db. is_some (lookup id db.exams))
  raise_if taken unique_violation
  known ← gets (has_person actor.tenant_id actor.person_id)
  raise_if (not known) foreign_key_violation
  put_exam id (record {
    tenant_id = actor.tenant_id;
    is_demo = false;
    creator_id = actor.person_id;
    classroom_id = command.classroom_id;
    title = command.title;
    type = command.type;
    exam_date = command.exam_date;
    status = draft;
    published_at = none;
    withdrawn_at = none;
  })

-- `id` and `ids` are the `uuid()` defaults of the new rows
unfoldable pub create :
    (id : String) → (ids : ℕ → String) → ActorContext → CreateExam → Service ExamDetail
unfolding assert_staff_actor
create id ids actor command = do
  assert_staff_actor actor
  found ← gets (λ db. active_classroom actor.tenant_id (lookup command.classroom_id db.classrooms))
  raise_if (not found) (not_found "Classroom was not found")
  assert_assignments actor command.classroom_id command.subjects
  transaction (do
    exam ← create_exam actor id command
    create_subjects ids actor.tenant_id id command.subjects
    gets (detail_of actor.tenant_id id exam))

-- `orderBy`: the latest date first, and of one date the exam that was created last
unfoldable pub list : ActorContext → Service (List (String × Exam))
list actor = gets (λ db.
    sort (λ a b. leb b.1.exam_date a.1.exam_date)
      (reverse (filter (λ e. e.1.tenant_id == actor.tenant_id) db.exams)))
