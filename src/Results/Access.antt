-- ===== src/Results/Access.antt =====
-- Who may read the results of a student.
use mathlib.Core.List.{Memᴰ}
use widget_demo.Prelude.{
  ℕ, String, ◌≡◌, ◌↔◌, ◌⊎◌, inl, inr, true, Option, List, arith, ◌==◌, eq_iff, Bool-cases,
  HttpError, forbidden, ok, err,
}
use widget_demo.Prelude.Search.{any_sound, any_of_mem}
use widget_demo.School.{
  PersonType, student, parent, same_type, ParentStudentRelation, Database, ActorContext,
}
use widget_demo.Numbers.{Numbers}
use widget_demo.Results.{
  Collation, ExamResult, is_relation_of, has_child, assert_access, read_results, for_student,
}

-- a student reads the own results, a parent those of the children
pub data MayRead (actor : ActorContext) (student_id : String) (db : Database) : Type 0 where
  self : actor.identity_type ≡ student → actor.person_id ≡ student_id → MayRead actor student_id db
  child :
      actor.identity_type ≡ parent
      → (r : ParentStudentRelation) → Memᴰ r db.parent_relations
      → r.tenant_id ≡ actor.tenant_id
      → r.parent_id ≡ actor.person_id
      → r.student_id ≡ student_id
      → r.active ≡ true
      → MayRead actor student_id db

same_type-eq : (a b : PersonType) → same_type a b ≡ true → a ≡ b
unfolding same_type
same_type-eq a b h = ground arith

module _ (actor : ActorContext) (student_id : String) (db : Database) where
  has_child_sound :
      has_child actor student_id db ≡ true
      → actor.identity_type ≡ parent
      → MayRead actor student_id db
  unfolding has_child is_relation_of
  has_child_sound h is_parent =
      let (r, known, test) = any_sound _ db.parent_relations h in
      child is_parent r known ((eq_iff _ _).0 (ground (arith, test)))
        ((eq_iff _ _).0 (ground (arith, test))) ((eq_iff _ _).0 (ground (arith, test)))
        (ground (arith, test))

  has_child_complete :
      (r : ParentStudentRelation)
      → Memᴰ r db.parent_relations
      → r.tenant_id ≡ actor.tenant_id
      → r.parent_id ≡ actor.person_id
      → r.student_id ≡ student_id
      → r.active ≡ true
      → has_child actor student_id db ≡ true
  unfolding has_child is_relation_of
  has_child_complete r known t p s a = any_of_mem _ db.parent_relations known (
      ground (
        arith,
        eq_iff r.tenant_id actor.tenant_id,
        eq_iff r.parent_id actor.person_id,
        eq_iff r.student_id student_id,
        t,
        p,
        s,
        a,
      ))

  assert_access_complete :
      MayRead actor student_id db → assert_access actor student_id db ≡ (ok tt, db)
  unfolding assert_access same_type
  assert_access_complete (self is_student same) =
      ground (arith, is_student, same, eq_iff actor.person_id student_id)
  assert_access_complete (child is_parent r known t p s a) =
      ground (arith, is_parent, has_child_complete r known t p s a)

  assert_access_sound :
      ((why : HttpError) × (assert_access actor student_id db ≡ (err why, db)))
      ⊎ ((assert_access actor student_id db ≡ (ok tt, db)) × MayRead actor student_id db)
  unfolding assert_access
  assert_access_sound = elim (Bool-cases (same_type actor.identity_type student)) [
    | inl is_student ↦ elim (Bool-cases (actor.person_id == student_id)) [
      | inl same ↦
          inr (rw (is_student, same), self (same_type-eq _ _ is_student) ((eq_iff _ _).0 same))
      | inr other ↦
          inl (forbidden "Students may read only their own results", rw (is_student, other))
    ]
    | inr no_student ↦ elim (Bool-cases (same_type actor.identity_type parent)) [
      | inl is_parent ↦ elim (Bool-cases (has_child actor student_id db)) [
        | inl found ↦
            inr (
              rw (no_student, is_parent, found),
              has_child_sound found (same_type-eq _ _ is_parent),
            )
        | inr missing ↦ inl (
          forbidden "An active parent-child relationship is required",
          rw (no_student, is_parent, missing),
        )
      ]
      | inr no_parent ↦
          inl (forbidden "Student or parent identity is required", rw (no_student, no_parent))
    ]
  ]

  pub assert_access-cases :
      ((why : HttpError) × (assert_access actor student_id db ≡ (err why, db))
        × ¬ MayRead actor student_id db)
      ⊎ ((assert_access actor student_id db ≡ (ok tt, db)) × MayRead actor student_id db)
  assert_access-cases = elim assert_access_sound [
    | inl (why, stopped) ↦
        inl (why, stopped, λ may. absurd (cc (stopped, assert_access_complete may)))
    | inr (passed, may) ↦ inr (passed, may)
  ]

module _ (num : Numbers) (order : Collation) (actor : ActorContext) (student_id : String)
    (limit : Option ℕ) (db : Database) where
  -- The results of a student are returned to the student and to parents with an active relation in
  -- the same tenant, and to nobody else; nothing is written in either case.
  pub for_student-MayRead :
      (((results : List (ExamResult num.Number)) × ((for_student num order actor student_id limit
              db).0
            ≡ ok results))
        ↔ MayRead actor student_id db)
      × ((for_student num order actor student_id limit db).1 ≡ db)
  unfolding for_student
  for_student-MayRead = elim (assert_access-cases actor student_id db) [
    | inl (why, stopped, stranger) ↦
        ((λ (rs, h). absurd (cc (rw stopped at h)), λ may. absurd (stranger may)), rw stopped)
    | inr (passed, may) ↦ (
      (λ found. may, λ m. (read_results num order actor student_id limit db, rw passed)),
      rw passed,
    )
  ]
