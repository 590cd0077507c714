-- ===== src/Scores/Accepted.antt =====
-- A grid that `validate` accepts, and what saving it does.
use mathlib.Core.List.{Memᴰ}
use widget_demo.Prelude.{
  String, ◌≡◌, refl, sym, ◌∙◌, ◌⊎◌, inl, inr, true, false, not, ◌&&◌, ◌||◌, some, List, [], ◌∷◌,
  map, arith, any, ◌==◌, eq_iff, Bool-cases, Option-cases, HttpError, type_error, forbidden,
  not_found, ok, err, All,
}
use widget_demo.Prelude.Search.{
  filter_sound, any_sound, any-false, find_last?_sound, mem-map_sound, filter-complete,
  dedupe-complete, mem-map, mem-filter_some,
}
use widget_demo.Table.{string_eq, lookup}
use widget_demo.School.{
  TeachingAssignment, Exam, ExamSubject, draft, Database, ActorContext, is_teacher, is_staff,
  score_key_eq,
}
use widget_demo.Numbers.{Numbers}
use widget_demo.Exams.{in_tenant, subjects_of, is_draft}
use widget_demo.Exams.Lifecycle.{is_draft-eq}
use widget_demo.Scores.{
  ScoreCell, PreparedScoreCell, Student, contains, by_external_id, course_of, course_ids_of,
  assigned_courses, assert_assigned, prepare, prepare_cells, validate,
}
use widget_demo.Scores.Checks.{
  Fits, IsDistinct, IsEnrolled, check_cells-cases, IsChecked-All, IsFresh-IsDistinct,
  IsChecked-IsFresh, find_students-cases,
}

-- the actor teaches the course of the cell's subject in the exam's class
pub record IsTaught (actor : ActorContext) (exam : Exam) (db : Database) (course_id : String)
    : Type 0 where
  pub assignment : TeachingAssignment
  pub known : Memᴰ assignment db.assignments
  pub tenant : assignment.tenant_id ≡ actor.tenant_id
  pub teacher : assignment.teacher_id ≡ actor.person_id
  pub same_class : assignment.classroom_id ≡ exam.classroom_id
  pub same_course : assignment.course_id ≡ course_id
  pub active : assignment.active ≡ true

by_external_id_sound :
    (students : List Student) (id : String) (s : Student)
    → by_external_id students id ≡ some s
    → ((s.1.eduplus_id == id) ≡ true) × Memᴰ s students
unfolding by_external_id
by_external_id_sound students id s h =
    find_last?_sound (λ (x : Student). x.1.eduplus_id == id) students h

module _ (num : Numbers) (actor : ActorContext) (exam : Exam) (db : Database) where
  pub record IsPrepared (cell : ScoreCell num.Number) (p : PreparedScoreCell) : Type 0 where
    pub student : Student
    pub external : student.1.eduplus_id ≡ cell.student_eduplus_id
    pub enrolled : IsEnrolled actor exam db student
    pub result : p ≡ prepare num student cell

  abbrev pub Prepares : List (ScoreCell num.Number) → List PreparedScoreCell → Type 0
  Prepares [] [] = Unit
  Prepares (c ∷ cs) (p ∷ ps) = IsPrepared c p × Prepares cs ps
  Prepares _ _ = ⊥

  prepare_cells-cases :
      (students : List Student)
      → ((s : Student) → Memᴰ s students → IsEnrolled actor exam db s)
      → (cells : List (ScoreCell num.Number))
      → ((why : HttpError) × (prepare_cells num students cells db ≡ (err why, db)))
        ⊎ ((ps : List PreparedScoreCell) × (prepare_cells num students cells db ≡ (ok ps, db))
            × Prepares cells ps)
  unfolding prepare_cells
  prepare_cells-cases students enrolled [] = inr ([], refl, tt)
  prepare_cells-cases students enrolled (cell ∷ rest) =
      elim (Option-cases (by_external_id students cell.student_eduplus_id)) [
        | inl missing ↦ inl (type_error, rw missing)
        | inr (s, found) ↦ elim (prepare_cells-cases students enrolled rest) [
          | inl (why, stopped) ↦ inl (why, rw (found, stopped))
          | inr (ps, done, match) ↦
              let (same, listed) = by_external_id_sound students cell.student_eduplus_id s found in
              inr (
                prepare num s cell ∷ ps,
                rw (found, done),
                (
                  record {
                    student = s;
                    external = (eq_iff _ _).0 same;
                    enrolled = enrolled s listed;
                    result = refl;
                  },
                  match,
                ),
              )
        ]
      ]

  course-IsTaught :
      (ids : List String) (c : String)
      → contains c (assigned_courses actor exam ids db) ≡ true
      → IsTaught actor exam db c
  unfolding assigned_courses
  course-IsTaught ids c h =
      let (y, listed, same) = any_sound (λ y. y == c) _ h in
      let (a, in_filter, e) = mem-map_sound (λ (r : TeachingAssignment). r.course_id) _ listed in
      let (test, known) = filter_sound _ db.assignments in_filter in
      record {
        assignment = a;
        known = known;
        tenant = (eq_iff _ _).0 (ground (arith, test));
        teacher = (eq_iff _ _).0 (ground (arith, test));
        same_class = (eq_iff _ _).0 (ground (arith, test));
        same_course = sym e ∙ (eq_iff y c).0 same;
        active = ground (arith, test);
      }

  course_ids_of-complete :
      (subjects : List (String × ExamSubject)) (cells : List (ScoreCell num.Number))
      (cell : ScoreCell num.Number) (c : String)
      → Memᴰ cell cells
      → course_of num subjects cell ≡ some c
      → (c == "") ≡ false
      → Memᴰ c (course_ids_of num subjects cells)
  unfolding course_ids_of
  course_ids_of-complete subjects cells cell c m e named =
      dedupe-complete (λ a b. a == b) eq_iff _
        (filter-complete (λ x. not (x == "")) _
          (mem-filter_some (map (course_of num subjects) cells)
            (rw (← e) (mem-map (course_of num subjects) cells m)))
          (rw named))

  -- a teacher's assignments cover the courses of all cells
  abbrev pub Covers : List (String × ExamSubject) → List (ScoreCell num.Number) → Type 0
  Covers subjects cells =
      is_teacher actor.identity_type ≡ true
      → (cell : ScoreCell num.Number) (c : String) → Memᴰ cell cells
      → course_of num subjects cell ≡ some c
      → (c == "") ≡ false
      → IsTaught actor exam db c

  assert_assigned-cases :
      (subjects : List (String × ExamSubject)) (cells : List (ScoreCell num.Number))
      → ((why : HttpError) × (assert_assigned num actor exam subjects cells db ≡ (err why, db)))
        ⊎ ((assert_assigned num actor exam subjects cells db ≡ (ok tt, db)) × Covers subjects cells)
  unfolding assert_assigned
  assert_assigned-cases subjects cells =
      let ids = course_ids_of num subjects cells in
      let assigned = assigned_courses actor exam ids db in
      elim (Bool-cases
        (is_teacher actor.identity_type && any (λ c. not (contains c assigned)) ids)) [
          | inl refused ↦
              inl (forbidden "Teacher is not assigned to one or more subjects", rw refused)
          | inr passed ↦ inr (
            rw passed,
            λ is_t cell c m e named.
                let all_assigned : any (λ x. not (contains x assigned)) ids ≡ false =
                  ground (arith, is_t, passed) in
                let one : not (contains c assigned) ≡ false =
                  any-false (λ x. not (contains x assigned)) ids all_assigned
                    (course_ids_of-complete subjects cells cell c m e named) in
                course-IsTaught ids c (ground (arith, one)),
          )
        ]

-- An accepted grid and what has been made of it.
pub record IsAccepted (num : Numbers) (actor : ActorContext) (exam_id : String)
    (cells : List (ScoreCell num.Number)) (db : Database) (prepared : List PreparedScoreCell)
    : Type 0 where
  pub exam : Exam
  pub stored : lookup exam_id db.exams ≡ some exam
  pub tenant : exam.tenant_id ≡ actor.tenant_id
  pub open_exam : exam.status ≡ draft
  pub staff_like : (is_teacher actor.identity_type || is_staff actor.identity_type) ≡ true
  pub covers : Covers num actor exam db (subjects_of actor.tenant_id exam_id db) cells
  pub fits : All (Fits num (subjects_of actor.tenant_id exam_id db)) cells
  pub distinct : IsDistinct cells
  pub prepares : Prepares num actor exam db cells prepared

module _ (num : Numbers) (actor : ActorContext) (exam_id : String)
    (cells : List (ScoreCell num.Number)) (db : Database) where
  -- the checks behind those on the actor and the exam
  module _ (exam : Exam) (stored : lookup exam_id db.exams ≡ some exam)
      (own : (exam.tenant_id == actor.tenant_id) ≡ true) (open_exam : is_draft exam.status ≡ true)
      (staff_like : (is_teacher actor.identity_type || is_staff actor.identity_type) ≡ true) where
    abbrev End : Type 0
    End =
        ((why : HttpError) × (validate num actor exam_id cells db ≡ (err why, db)))
        ⊎ ((ps : List PreparedScoreCell) × (validate num actor exam_id cells db ≡ (ok ps, db))
            × IsAccepted num actor exam_id cells db ps)

    insider : (not (is_teacher actor.identity_type) && not (is_staff actor.identity_type)) ≡ false
    insider = ground arith

    validate_open : End
    unfolding validate
    validate_open =
        let subjects = subjects_of actor.tenant_id exam_id db in
        elim (assert_assigned-cases num actor exam db subjects cells) [
          | inl (why, stopped) ↦ inl (why, rw (insider, stored, in_tenant, own, open_exam, stopped))
          | inr (assigned, covers) ↦ elim (check_cells-cases num subjects [] cells db) [
            | inl (why, stopped) ↦
                inl (why, rw (insider, stored, in_tenant, own, open_exam, assigned, stopped))
            | inr (checked, facts) ↦ elim (find_students-cases num actor exam db cells) [
              | inl (why, stopped) ↦
                  inl (
                    why,
                    rw (insider, stored, in_tenant, own, open_exam, assigned, checked, stopped),
                  )
              | inr (students, listed, enrolled) ↦
                  elim (prepare_cells-cases num actor exam db students enrolled cells) [
                    | inl (why, stopped) ↦ inl (
                      why,
                      rw (
                        insider, stored, in_tenant, own, open_exam, assigned, checked, listed,
                        stopped,
                      ),
                    )
                    | inr (ps, done, prepares) ↦ inr (
                      ps,
                      rw (
                        insider, stored, in_tenant, own, open_exam, assigned, checked, listed, done,
                      ),
                      record {
                        exam = exam;
                        stored = stored;
                        tenant = (eq_iff _ _).0 own;
                        open_exam = is_draft-eq exam.status open_exam;
                        staff_like = staff_like;
                        covers = covers;
                        fits = IsChecked-All num subjects [] cells facts;
                        distinct =
                            IsFresh-IsDistinct [] cells
                              (IsChecked-IsFresh num subjects [] cells facts);
                        prepares = prepares;
                      },
                    )
                  ]
            ]
          ]
        ]

  -- `validate` only reads: it refuses the grid, or every cell of it satisfies every rule.
  pub validate-cases :
      ((why : HttpError) × (validate num actor exam_id cells db ≡ (err why, db)))
      ⊎ ((ps : List PreparedScoreCell) × (validate num actor exam_id cells db ≡ (ok ps, db))
          × IsAccepted num actor exam_id cells db ps)
  unfolding validate
  validate-cases =
      elim (Bool-cases (is_teacher actor.identity_type || is_staff actor.identity_type)) [
        | inr outsider ↦ inl (forbidden "A staff identity is required", ground arith)
        | inl staff_like ↦ elim (Option-cases (lookup exam_id db.exams)) [
          | inl missing ↦
              inl (not_found "Exam was not found", rw (insider_of staff_like, missing, in_tenant))
          | inr (exam, stored) ↦ elim (Bool-cases (exam.tenant_id == actor.tenant_id)) [
            | inr other ↦ inl (
              not_found "Exam was not found",
              rw (insider_of staff_like, stored, in_tenant, other),
            )
            | inl own ↦ elim (Bool-cases (is_draft exam.status)) [
              | inr fixed ↦ inl (
                forbidden "Published scores cannot be changed",
                rw (insider_of staff_like, stored, in_tenant, own, fixed),
              )
              | inl open_exam ↦ validate_open exam stored own open_exam staff_like
            ]
          ]
        ]
      ]
    where
      insider_of :
          (is_teacher actor.identity_type || is_staff actor.identity_type) ≡ true
          → (not (is_teacher actor.identity_type) && not (is_staff actor.identity_type)) ≡ false
      insider_of h = ground arith
