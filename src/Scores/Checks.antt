-- ===== src/Scores/Checks.antt =====
-- What the checks of `validate` establish of the cells.
use mathlib.Core.List.{Memᴰ}
use widget_demo.Prelude.{
  String, ◌≡◌, refl, sym, ap, ◌∙◌, ◌⊎◌, inl, inr, true, false, not, ◌&&◌, some, List, [], ◌∷◌, map,
  arith, is_some, ◌==◌, eq_iff, Bool-cases, Option-cases, HttpError, bad_request, ok, err, All,
}
use widget_demo.Prelude.Search.{filter_sound, any_sound, any-false, mem-map_sound}
use widget_demo.School.{
  StudentClassRelation, student, same_type, Exam, ExamSubject, Database, ActorContext,
}
use widget_demo.Numbers.{Numbers}
use widget_demo.Scores.{
  ScoreCell, Student, cell_key, contains, subject_of, out_of_range, check_cell, check_cells,
  active_students, class_members, find_students, external_ids_of, some_unknown, some_outside,
}

-- the cell's subject belongs to the exam, and its score, if it has one, lies within bounds
pub record Fits (num : Numbers) (subjects : List (String × ExamSubject))
    (cell : ScoreCell num.Number) : Type 0 where
  pub subject : String × ExamSubject
  pub found : subject_of subjects cell.subject_id ≡ some subject
  pub bounds :
      (score : num.Number)
      → cell.score ≡ some score
      → (cell.absent ≡ false)
        × (num.is_finite score ≡ true)
        × (num.lt score num.zero ≡ false)
        × (num.lt (num.of_decimal subject.1.maximum_score) score ≡ false)

-- no two cells are for the same student and subject
abbrev pub IsDistinct : {N : Type 0} → List (ScoreCell N) → Type 0
IsDistinct [] = Unit {0}
IsDistinct (c ∷ cs) =
    All (λ d. ¬ ((d.student_eduplus_id ≡ c.student_eduplus_id) × (d.subject_id ≡ c.subject_id))) cs
    × IsDistinct cs

module _ {N : Type 0} where
  -- no cell has a key that was seen before it
  abbrev pub IsFresh : List String → List (ScoreCell N) → Type 0
  IsFresh seen [] = Unit
  IsFresh seen (cell ∷ rest) =
      (contains (cell_key cell) seen ≡ false) × IsFresh (cell_key cell ∷ seen) rest

  IsFresh-unseen :
      (seen : List String) (c : ScoreCell N) (cells : List (ScoreCell N))
      → contains (cell_key c) seen ≡ true
      → IsFresh seen cells
      → All
          (λ d. ¬ ((d.student_eduplus_id ≡ c.student_eduplus_id) × (d.subject_id ≡ c.subject_id)))
          cells
  IsFresh-unseen seen c [] in_seen h = tt
  IsFresh-unseen seen c (d ∷ rest) in_seen h = (
    λ (same_student, same_subject).
        let same_key : cell_key d ≡ cell_key c = cc in
        let seen_too : contains (cell_key d) seen ≡ true =
          ap (λ k. contains k seen) same_key ∙ in_seen in
        absurd (ground (arith, h.0, seen_too)),
    IsFresh-unseen (cell_key d ∷ seen) c rest (ground (arith, in_seen)) h.1,
  )

  pub IsFresh-IsDistinct :
      (seen : List String) (cells : List (ScoreCell N)) → IsFresh seen cells → IsDistinct cells
  IsFresh-IsDistinct seen [] h = tt
  IsFresh-IsDistinct seen (c ∷ rest) h = (
    IsFresh-unseen (cell_key c ∷ seen) c rest (ground (arith, eq_iff (cell_key c) (cell_key c)))
        h.1,
    IsFresh-IsDistinct (cell_key c ∷ seen) rest h.1,
  )

module _ (num : Numbers) (subjects : List (String × ExamSubject)) where
  abbrev IsChecked : List String → List (ScoreCell num.Number) → Type 0
  IsChecked seen [] = Unit
  IsChecked seen (cell ∷ rest) =
      (contains (cell_key cell) seen ≡ false)
      × Fits num subjects cell
      × IsChecked (cell_key cell ∷ seen) rest

  Fits-check :
      (cell : ScoreCell num.Number) (db : Database)
      → ((why : HttpError) × (check_cell num (subject_of subjects cell.subject_id) cell db
            ≡ (err why, db)))
        ⊎ ((check_cell num (subject_of subjects cell.subject_id) cell db ≡ (ok tt, db))
            × Fits num subjects cell)
  unfolding check_cell
  Fits-check cell db = elim (Option-cases (subject_of subjects cell.subject_id)) [
    | inl missing ↦ inl (bad_request "Unknown exam subject", rw (missing, check_cell))
    | inr (s, found) ↦ elim (Bool-cases (cell.absent && is_some cell.score)) [
      | inl absent ↦ inl (
        bad_request "Absent students cannot have a numeric score",
        rw (found, check_cell, absent),
      )
      | inr present ↦ elim (Bool-cases (out_of_range num cell.score s.1)) [
        | inl out ↦
            inl (
              bad_request "Score is outside the allowed range",
              rw (found, check_cell, present, out),
            )
        | inr inside ↦ inr (
          rw (found, check_cell, present, inside),
          record { subject = s; found = found; bounds = λ score e. ground (arith, e) },
        )
      ]
    ]
  ]

  pub check_cells-cases :
      (seen : List String) (cells : List (ScoreCell num.Number)) (db : Database)
      → ((why : HttpError) × (check_cells num subjects seen cells db ≡ (err why, db)))
        ⊎ ((check_cells num subjects seen cells db ≡ (ok tt, db)) × IsChecked seen cells)
  unfolding check_cells
  check_cells-cases seen [] db = inr (refl, tt)
  check_cells-cases seen (cell ∷ rest) db = elim (Bool-cases (contains (cell_key cell) seen)) [
    | inl twice ↦ inl (bad_request "Duplicate student and subject cell", rw twice)
    | inr fresh ↦ elim (Fits-check cell db) [
      | inl (why, refused) ↦ inl (why, rw (fresh, refused))
      | inr (passed, fits) ↦ elim (check_cells-cases (cell_key cell ∷ seen) rest db) [
        | inl (why, refused) ↦ inl (why, rw (fresh, passed, refused))
        | inr (done, checked) ↦ inr (rw (fresh, passed, done), (fresh, fits, checked))
      ]
    ]
  ]

  pub IsChecked-All :
      (seen : List String) (cells : List (ScoreCell num.Number))
      → IsChecked seen cells
      → All (Fits num subjects) cells
  IsChecked-All seen [] h = tt
  IsChecked-All seen (cell ∷ rest) h = (h.1, IsChecked-All (cell_key cell ∷ seen) rest h.2)

  pub IsChecked-IsFresh :
      (seen : List String) (cells : List (ScoreCell num.Number))
      → IsChecked seen cells
      → IsFresh seen cells
  IsChecked-IsFresh seen [] h = tt
  IsChecked-IsFresh seen (cell ∷ rest) h = (h.0, IsChecked-IsFresh (cell_key cell ∷ seen) rest h.2)

-- the student of a prepared cell: an active student of the tenant who belongs to the exam's class
pub record IsEnrolled (actor : ActorContext) (exam : Exam) (db : Database) (s : Student)
    : Type 0 where
  pub listed : Memᴰ s db.people
  pub tenant : s.1.tenant_id ≡ actor.tenant_id
  pub is_student : same_type s.1.type student ≡ true
  pub active : s.1.active ≡ true
  pub membership : StudentClassRelation
  pub known : Memᴰ membership db.class_relations
  pub same_student : membership.student_id ≡ s.0
  pub same_class : membership.classroom_id ≡ exam.classroom_id
  pub same_tenant : membership.tenant_id ≡ actor.tenant_id
  pub current : membership.active ≡ true

module _ (actor : ActorContext) (exam : Exam) (db : Database) where
  active_student-facts :
      (ids : List String) (s : Student)
      → Memᴰ s (active_students actor ids db)
      → Memᴰ s db.people
        × (s.1.tenant_id ≡ actor.tenant_id)
        × (same_type s.1.type student ≡ true)
        × (s.1.active ≡ true)
  unfolding active_students
  active_student-facts ids s m =
      let (test, listed) = filter_sound _ db.people m in
      (listed, (eq_iff _ _).0 (ground (arith, test)), ground (arith, test), ground (arith, test))

  member-facts :
      (ids : List String) (id : String)
      → contains id (class_members actor exam ids db) ≡ true
      → (m : StudentClassRelation) × Memᴰ m db.class_relations
        × (m.student_id ≡ id)
        × (m.classroom_id ≡ exam.classroom_id)
        × (m.tenant_id ≡ actor.tenant_id)
        × (m.active ≡ true)
  unfolding class_members
  member-facts ids id h =
      let (y, in_members, same) = any_sound (λ y. y == id) _ h in
      let (m, in_filter, e) =
        mem-map_sound (λ (r : StudentClassRelation). r.student_id) _ in_members in
      let (test, known) = filter_sound _ db.class_relations in_filter in
      (
        m,
        known,
        sym e ∙ (eq_iff y id).0 same,
        (eq_iff m.classroom_id exam.classroom_id).0 (ground (arith, test)),
        (eq_iff m.tenant_id actor.tenant_id).0 (ground (arith, test)),
        ground (arith, test),
      )

module _ (num : Numbers) (actor : ActorContext) (exam : Exam) (db : Database) where
  enrolled :
      (ids : List String) (s : Student)
      → Memᴰ s (active_students actor ids db)
      → some_outside num actor exam (active_students actor ids db) db ≡ false
      → IsEnrolled actor exam db s
  unfolding some_outside
  enrolled ids s m inside =
      let students = active_students actor ids db in
      let members = class_members actor exam (map (λ (x : Student). x.0) students) db in
      let is_member : contains s.0 members ≡ true =
        ground (arith, any-false (λ (x : Student). not (contains x.0 members)) students inside m) in
      let (listed, tenant, is_student, active) = active_student-facts actor exam db ids s m in
      let (membership, known, same_student, same_class, same_tenant, current) =
        member-facts actor exam db (map (λ (x : Student). x.0) students) s.0 is_member in
      record {
        listed = listed;
        tenant = tenant;
        is_student = is_student;
        active = active;
        membership = membership;
        known = known;
        same_student = same_student;
        same_class = same_class;
        same_tenant = same_tenant;
        current = current;
      }

  pub find_students-cases :
      (cells : List (ScoreCell num.Number))
      → ((why : HttpError) × (find_students num actor exam cells db ≡ (err why, db)))
        ⊎ ((students : List Student) × (find_students num actor exam cells db ≡ (ok students, db))
            × ((s : Student) → Memᴰ s students → IsEnrolled actor exam db s))
  unfolding find_students
  find_students-cases cells =
      let ids = external_ids_of num cells in
      let students = active_students actor ids db in
      elim (Bool-cases (some_unknown num students ids)) [
        | inl unknown ↦ inl (bad_request "Unknown student", rw unknown)
        | inr known ↦ elim (Bool-cases (some_outside num actor exam students db)) [
          | inl outside ↦ inl (bad_request "Student is outside the exam class", rw (known, outside))
          | inr inside ↦ inr (students, rw (known, inside), λ s m. enrolled ids s m inside)
        ]
      ]
