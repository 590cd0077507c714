-- ===== src/School.antt =====
-- The tables of backend/prisma/schema.prisma that the examination domain reads and writes, the
-- people and classes among them. Columns that no modelled code reads (`createdAt`, `updatedAt`)
-- are left out. An instant is its number of milliseconds, a `Decimal(8, 2)` its number of
-- hundredths.
use widget_demo.Prelude.{
  ℕ, String, ◌≡◌, ◌↔◌, Bool, true, false, ◌&&◌, Option, List, arith, eq_iff, ◌==◌,
}
use widget_demo.Table.{Eq, Table}

pub data PersonType : Type 0 where
  staff teacher student parent : PersonType

unfoldable pub same_type : PersonType → PersonType → Bool
same_type staff staff = true
same_type teacher teacher = true
same_type student student = true
same_type parent parent = true
same_type _ _ = false

pub data ExamStatus : Type 0 where
  draft published withdrawn : ExamStatus

pub data ImportStatus : Type 0 where
  validating failed applied : ImportStatus

pub record Person : Type 0 where
  pub tenant_id : String
  pub eduplus_id : String
  pub eduplus_user_id : Option String
  pub type : PersonType
  pub name : String
  pub email : Option String
  pub active : Bool

pub record Classroom : Type 0 where
  pub tenant_id : String
  pub eduplus_id : String
  pub name : String
  pub grade_name : Option String
  pub active : Bool

pub record Course : Type 0 where
  pub tenant_id : String
  pub eduplus_id : String
  pub code : Option String
  pub name : String
  pub active : Bool

pub record TeachingAssignment : Type 0 where
  pub tenant_id : String
  pub eduplus_id : String
  pub teacher_id : String
  pub classroom_id : String
  pub course_id : String
  pub active : Bool

pub record ParentStudentRelation : Type 0 where
  pub tenant_id : String
  pub eduplus_id : String
  pub parent_id : String
  pub student_id : String
  pub relation : Option String
  pub active : Bool

pub record StudentClassRelation : Type 0 where
  pub tenant_id : String
  pub eduplus_id : String
  pub student_id : String
  pub classroom_id : String
  pub active : Bool

pub record Exam : Type 0 where
  pub tenant_id : String
  pub is_demo : Bool
  pub creator_id : String
  pub classroom_id : String
  pub title : String
  pub type : String
  pub exam_date : ℕ
  pub status : ExamStatus
  pub published_at : Option ℕ
  pub withdrawn_at : Option ℕ

pub record ExamSubject : Type 0 where
  pub tenant_id : String
  pub exam_id : String
  pub course_id : String
  pub maximum_score : ℕ
  pub display_order : ℕ

-- `@@unique([tenantId, examId, studentId, subjectId])`
pub record ScoreKey : Type 0 where
  pub tenant_id : String
  pub exam_id : String
  pub student_id : String
  pub subject_id : String

pub record Score : Type 0 where
  pub grader_id : String
  pub value : Option ℕ
  pub absent : Bool

pub record ScoreImportError : Type 0 where
  pub row_number : ℕ
  pub code : String
  pub message : String
  pub raw_value : Option (List String)

pub record ScoreImport : Type 0 where
  pub tenant_id : String
  pub exam_id : String
  pub created_by_id : String
  pub filename : String
  pub status : ImportStatus
  pub total_rows : ℕ
  pub applied_rows : ℕ
  pub completed_at : Option ℕ
  pub errors : List ScoreImportError

pub record Database : Type 0 where
  pub people : Table String Person
  pub classrooms : Table String Classroom
  pub courses : Table String Course
  pub assignments : List TeachingAssignment
  pub parent_relations : List ParentStudentRelation
  pub class_relations : List StudentClassRelation
  pub exams : Table String Exam
  pub exam_subjects : Table String ExamSubject
  pub scores : Table ScoreKey Score
  pub score_imports : Table String ScoreImport

abbrev pub same_score_key : ScoreKey → ScoreKey → Bool
same_score_key a b =
    a.tenant_id == b.tenant_id
    && (a.exam_id == b.exam_id && (a.student_id == b.student_id && a.subject_id == b.subject_id))

pub same_score_key_iff : (a b : ScoreKey) → (same_score_key a b ≡ true) ↔ (a ≡ b)
same_score_key_iff a b = (
  λ h. ground (
    arith,
    eq_iff a.tenant_id b.tenant_id,
    eq_iff a.exam_id b.exam_id,
    eq_iff a.student_id b.student_id,
    eq_iff a.subject_id b.subject_id,
  ),
  λ h. ground (
    arith,
    eq_iff a.tenant_id b.tenant_id,
    eq_iff a.exam_id b.exam_id,
    eq_iff a.student_id b.student_id,
    eq_iff a.subject_id b.subject_id,
  ),
)

instance abbrev pub score_key_eq : Eq ScoreKey
score_key_eq = record { beq = same_score_key; beq_iff = same_score_key_iff }

-- `ActorContext` of backend/src/exams/exam.types.ts
pub record ActorContext : Type 0 where
  pub tenant_id : String
  pub person_id : String
  pub identity_type : PersonType

-- `identityType !== TEACHER && identityType !== STAFF` is the negation
unfoldable pub is_teacher : PersonType → Bool
is_teacher teacher = true
is_teacher _ = false

unfoldable pub is_staff : PersonType → Bool
is_staff staff = true
is_staff _ = false
