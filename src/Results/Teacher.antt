-- ===== src/Results/Teacher.antt =====
-- `forTeacher` of backend/src/results/results.service.ts.
use Prim.Native.String.{◌++◌ as concat}
use mathlib.Core.List.{flat_map}
use widget_demo.Prelude.{
  ℕ, String, Bool, false, ◌&&◌, ◌||◌, not, Option, none, some, List, [], map, ◌==◌, ◌=ℕ◌,
  if◌then◌else◌, filter, any, length, find_last?, head?, forbidden, gets, raise_if, ◌>>=◌, ◌>>◌,
}
use widget_demo.Sorting.{sort}
use widget_demo.Table.{string_eq, lookup}
use widget_demo.School.{
  Exam, ExamSubject, TeachingAssignment, Database, ActorContext, is_teacher, is_staff,
}
use widget_demo.Numbers.{Numbers}
use widget_demo.Ranking.{RankedRow, competition_ranks}
use widget_demo.Exams.{Service, is_published, subjects_of}
use widget_demo.Scores.{contains}
use widget_demo.Results.{
  Collation, comparison, number_of, values_of, scores_of, course_name, sorted_subjects, is_earlier,
}

pub record TeacherRow (N : Type 0) : Type 0 where
  pub exam_id : String
  pub exam_title : String
  pub exam_date : ℕ
  pub student_id : String
  pub student_name : String
  pub subject : String
  pub score : Option N
  pub absent : Bool
  pub rank : Option ℕ

module _ (num : Numbers) (order : Collation) where
  open num use {Number}

  unfoldable pub active_assignments : ActorContext → Database → List TeachingAssignment
  active_assignments actor db =
      filter
        (λ a.
          a.tenant_id == actor.tenant_id
          && (a.teacher_id == actor.person_id
              && (a.active && (is_active_class a.classroom_id && is_active_course a.course_id))))
        db.assignments
    where
      is_active_class : String → Bool
      is_active_class id = elim (lookup id db.classrooms) [ none ↦ false | some c ↦ c.active ]

      is_active_course : String → Bool
      is_active_course id = elim (lookup id db.courses) [ none ↦ false | some c ↦ c.active ]

  -- `${classroomId}\0${courseId}`
  abbrev pub class_key : String → String → String
  class_key classroom_id course_id = concat classroom_id (concat "\0" course_id)

  unfoldable pub allowed_keys : ActorContext → Database → List String
  allowed_keys actor db =
      map (λ a. class_key a.classroom_id a.course_id) (active_assignments actor db)

  -- the `where` of `forTeacher`
  unfoldable pub is_taught : ActorContext → Database → String × Exam → Bool
  is_taught actor db exam =
      exam.1.tenant_id == actor.tenant_id
      && (is_published exam.1.status
          && (not (is_teacher actor.identity_type)
              || any
                  (λ a.
                    a.classroom_id == exam.1.classroom_id
                    && any (λ s. s.1.course_id == a.course_id)
                        (subjects_of actor.tenant_id exam.0 db))
                  (active_assignments actor db)))

  -- `new Map(… .map((rank) => [rank.id, rank.rank])).get(studentId) ?? null`
  unfoldable pub last_rank : String → List (RankedRow Number) → Option ℕ
  last_rank student_id ranks = elim (find_last? (λ r. r.row.id == student_id) ranks) [
    | none ↦ none
    | some r ↦ some r.rank
  ]

  unfoldable pub person_name : String → Database → String
  person_name id db = elim (lookup id db.people) [ none ↦ "" | some p ↦ p.name ]

  unfoldable pub teacher_rows :
      ActorContext → Database → String × Exam → String × ExamSubject → List (TeacherRow Number)
  teacher_rows actor db exam subject =
      let rows = filter (λ s. s.0.subject_id == subject.0) (scores_of actor.tenant_id exam.0 db) in
      let ranks = competition_ranks (comparison num order) (values_of num order rows) in
      if is_teacher actor.identity_type
        && not
            (contains (class_key exam.1.classroom_id subject.1.course_id) (allowed_keys actor db))
      then []
      else map
          (λ s. record {
            exam_id = exam.0;
            exam_title = exam.1.title;
            exam_date = exam.1.exam_date;
            student_id = s.0.student_id;
            student_name = person_name s.0.student_id db;
            subject = course_name subject.1.course_id db;
            score = number_of num order (some s);
            absent = s.1.absent;
            rank = last_rank s.0.student_id ranks;
          })
          rows

  -- `orderBy` and `take: 1`
  unfoldable pub latest_taught : ActorContext → Database → Option (String × Exam)
  latest_taught actor db =
      head? (sort (λ a b. is_earlier order b a) (filter (is_taught actor db) db.exams))

  -- the `flatMap` over the exams, of which there is at most one
  unfoldable pub exam_rows :
      ActorContext → Database → Option (String × Exam) → List (TeacherRow Number)
  exam_rows actor db none = []
  exam_rows actor db (some exam) =
      flat_map (teacher_rows actor db exam) (sorted_subjects actor.tenant_id exam.0 db)

  unfoldable pub latest_rows : ActorContext → Database → List (TeacherRow Number)
  latest_rows actor db = exam_rows actor db (latest_taught actor db)

  unfoldable pub for_teacher : ActorContext → Service (List (TeacherRow Number))
  for_teacher actor = do
    raise_if (not (is_teacher actor.identity_type) && not (is_staff actor.identity_type))
        (forbidden "A staff identity is required")
    keys ← gets (allowed_keys actor)
    gets (λ db.
        if is_teacher actor.identity_type && length keys =ℕ 0 then [] else latest_rows actor db)
