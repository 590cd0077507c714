-- ===== src/Results/Taught.antt =====
-- Which scores a teacher reads.
use mathlib.Core.List.{Memᴰ}
use mathlib.Core.Path.{subst}
use mathlib.Core.Option.{map as map_option}
use widget_demo.Prelude.{
  ℕ, String, filter, ◌≡◌, refl, sym, ◌∙◌, ◌⊎◌, inl, inr, true, false, ◌&&◌, not, Option, none, some,
  List, [], arith, ◌==◌, ◌=ℕ◌, eq_iff, Bool-cases, length, All, ok,
}
use widget_demo.Prelude.Search.{filter_sound, any_sound, mem-map_sound}
use widget_demo.Prelude.Every.{All_of_mem, All-map, All-flat_map, mem-head?}
use widget_demo.Sorting.{mem_of_sort}
use widget_demo.School.{
  published, Exam, ExamSubject, TeachingAssignment, Database, ActorContext, is_teacher, is_staff,
}
use widget_demo.Numbers.{Numbers}
use widget_demo.Exams.{subjects_of}
use widget_demo.Scores.{contains}
use widget_demo.Ranking.{competition_ranks}
use widget_demo.Results.{
  Collation, ScoreRow, scores_of, sorted_subjects, course_name, comparison, values_of,
}
use widget_demo.Results.Published.{is_published-eq}
use widget_demo.Results.Teacher.{
  TeacherRow, last_rank, person_name, class_key, active_assignments, allowed_keys, is_taught,
  teacher_rows, latest_taught, exam_rows, latest_rows, for_teacher,
}

module _ (num : Numbers) (order : Collation) (actor : ActorContext) (db : Database) where
  -- an active assignment of the teacher with the key of the class and course
  pub record IsAssigned (key : String) : Type 0 where
    pub assignment : TeachingAssignment
    pub known : Memᴰ assignment db.assignments
    pub tenant : assignment.tenant_id ≡ actor.tenant_id
    pub teacher : assignment.teacher_id ≡ actor.person_id
    pub active : assignment.active ≡ true
    pub same_key : class_key num order assignment.classroom_id assignment.course_id ≡ key

  pub record IsTeacherRow (row : TeacherRow num.Number) : Type 0 where
    pub exam : String × Exam
    pub known : Memᴰ exam db.exams
    pub tenant : exam.1.tenant_id ≡ actor.tenant_id
    pub is_public : exam.1.status ≡ published
    pub subject : String × ExamSubject
    pub of_exam : Memᴰ subject (subjects_of actor.tenant_id exam.0 db)
    pub score : ScoreRow
    pub scored : Memᴰ score (scores_of actor.tenant_id exam.0 db)
    pub of_subject : score.0.subject_id ≡ subject.0
    pub of_exam_row :
        (row.exam_id ≡ exam.0)
        × (row.exam_title ≡ exam.1.title)
        × (row.exam_date ≡ exam.1.exam_date)
    pub of_student :
        (row.student_id ≡ score.0.student_id)
        × (row.student_name ≡ person_name num order score.0.student_id db)
    pub subject_name : row.subject ≡ course_name subject.1.course_id db
    pub value : row.score ≡ map_option num.of_decimal score.1.value
    pub absent : row.absent ≡ score.1.absent
    pub rank :
        row.rank
        ≡ last_rank num order score.0.student_id (
            competition_ranks (comparison num order) (
              values_of num order
                (filter (λ s. s.0.subject_id == subject.0) (scores_of actor.tenant_id exam.0 db))))
    pub assigned :
        (is_teacher actor.identity_type ≡ false)
        ⊎ IsAssigned (class_key num order exam.1.classroom_id subject.1.course_id)

  number_of-map :
      (value : Option ℕ)
      → ◌≡◌ {A = Option num.Number}
          (elim value [ none ↦ none | some v ↦ some (num.of_decimal v) ])
          (map_option num.of_decimal value)
  number_of-map none = refl
  number_of-map (some v) = refl

  contains-IsAssigned :
      (key : String) → contains key (allowed_keys num order actor db) ≡ true → IsAssigned key
  unfolding allowed_keys active_assignments
  contains-IsAssigned key h =
      let (k, listed, same) = any_sound (λ y. y == key) _ h in
      let (a, in_filter, e) =
        mem-map_sound (λ (r : TeachingAssignment). class_key num order r.classroom_id r.course_id) _
          listed in
      let (test, known) = filter_sound _ db.assignments in_filter in
      record {
        assignment = a;
        known = known;
        tenant = (eq_iff _ _).0 (ground (arith, test));
        teacher = (eq_iff _ _).0 (ground (arith, test));
        active = ground (arith, test);
        same_key = sym e ∙ (eq_iff _ _).0 same;
      }

  module _ (exam : String × Exam) (known : Memᴰ exam db.exams)
      (tenant : exam.1.tenant_id ≡ actor.tenant_id) (is_public : exam.1.status ≡ published) where
    rows-IsTeacherRow :
        (subject : String × ExamSubject)
        → Memᴰ subject (sorted_subjects actor.tenant_id exam.0 db)
        → All IsTeacherRow (teacher_rows num order actor db exam subject)
    unfolding teacher_rows sorted_subjects
    rows-IsTeacherRow subject m =
        let key = class_key num order exam.1.classroom_id subject.1.course_id in
        elim (Bool-cases (
          is_teacher actor.identity_type && not (contains key (allowed_keys num order actor db)))) [
            | inl refused ↦ rw refused tt
            | inr passed ↦ rw passed (
                All-map _ IsTeacherRow _ (
                  All_of_mem _ _ (λ s kept.
                    let (test, scored) =
                      filter_sound (λ (s : ScoreRow). s.0.subject_id == subject.0) _ kept in
                    record {
                      exam = exam;
                      known = known;
                      tenant = tenant;
                      is_public = is_public;
                      subject = subject;
                      of_exam = mem_of_sort _ _ m;
                      score = s;
                      scored = scored;
                      of_subject = (eq_iff _ _).0 test;
                      of_exam_row = (refl, refl, refl);
                      of_student = (refl, refl);
                      subject_name = refl;
                      value = number_of-map s.1.value;
                      absent = refl;
                      rank = refl;
                      assigned = elim (Bool-cases (is_teacher actor.identity_type)) [
                        | inr other ↦ inl other
                        | inl is_t ↦ inr (contains-IsAssigned key (ground (arith, is_t, passed)))
                      ];
                    })))
          ]

  exam_rows-IsTeacherRow :
      (latest : Option (String × Exam))
      → latest_taught num order actor db ≡ latest
      → All IsTeacherRow (exam_rows num order actor db latest)
  unfolding exam_rows latest_taught is_taught
  exam_rows-IsTeacherRow none h = tt
  exam_rows-IsTeacherRow (some exam) h =
      let (test, known) = filter_sound _ db.exams (mem_of_sort _ _ (mem-head? _ h)) in
      All-flat_map _ IsTeacherRow _ (
        rows-IsTeacherRow exam known ((eq_iff _ _).0 (ground (arith, test)))
          (is_published-eq exam.1.status (ground (arith, test))))

  latest-IsTeacherRow : All IsTeacherRow (latest_rows num order actor db)
  unfolding latest_rows
  latest-IsTeacherRow = exam_rows-IsTeacherRow (latest_taught num order actor db) refl

  -- Every row that a teacher or a member of staff gets shows a score of a published exam of the
  -- tenant in one of its subjects: its value and absence, the exam's title and date, the names of the
  -- student and of the course, and the rank among the scores of that exam and subject. A teacher has
  -- an active assignment with the key of the exam's class and the subject's course.
  pub for_teacher-IsTeacherRow :
      (rows : List (TeacherRow num.Number))
      → (for_teacher num order actor db).0 ≡ ok rows
      → All IsTeacherRow rows
  unfolding for_teacher
  for_teacher-IsTeacherRow rows h =
      elim (Bool-cases
        (not (is_teacher actor.identity_type) && not (is_staff actor.identity_type))) [
          | inl outsider ↦ absurd (cc (rw outsider at h))
          | inr insider ↦
              elim (Bool-cases
                (is_teacher actor.identity_type && length (allowed_keys num order actor db) =ℕ 0)) [
                  | inl unassigned ↦
                      let none_at_all : [] ≡ rows = cc (rw (insider, unassigned) at h) in
                      subst (All IsTeacherRow) none_at_all tt
                  | inr some_class ↦
                      let same : latest_rows num order actor db ≡ rows =
                        cc (rw (insider, some_class) at h) in
                      subst (All IsTeacherRow) same latest-IsTeacherRow
                ]
        ]
