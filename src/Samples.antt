-- ===== src/Samples.antt =====
-- A small school, for the tests of the other modules.
use Prim.Native.Char.{code}
use widget_demo.Prelude.{
  Option, ◌==◌, if◌then◌else◌, zero, suc, chars, ℕ, ◌+◌, ◌-◌, ◌*◌, String, true, false, none, some,
  List, [], ◌∷◌, map, ltb, ◌=ℕ◌,
}
use Prim.Native.String.{◌++◌ as concat}
use widget_demo.Crypto.{Crypto}
use widget_demo.School.{
  teacher, staff, student, parent, draft, published, Person, StudentClassRelation, Exam,
  ExamSubject, Score, ScoreKey, Database, ActorContext,
}
use widget_demo.Numbers.{Numbers}

abbrev digits_from : ℕ → List ℕ → ℕ
digits_from n [] = n
digits_from n (d ∷ ds) = digits_from (n * 10 + (d - 48)) ds

-- whole numbers of hundredths
abbrev pub hundredths : Numbers
hundredths = record {
  Number = ℕ;
  is_finite = λ n. true;
  lt = ltb;
  same = λ a b. a =ℕ b;
  zero = 0;
  add = λ a b. a + b;
  divide = λ n k. n;
  of_decimal = λ n. n;
  to_decimal = λ n. n;
  parse = λ s. digits_from 0 (map code (chars s)) * 100;
}

abbrev pub miss_lee : ActorContext
miss_lee = record { tenant_id = "t"; person_id = "lee"; identity_type = teacher }

abbrev pub head_office : ActorContext
head_office = record { tenant_id = "t"; person_id = "office"; identity_type = staff }

abbrev pub ann : ActorContext
ann = record { tenant_id = "t"; person_id = "ann"; identity_type = student }

abbrev pub dad : ActorContext
dad = record { tenant_id = "t"; person_id = "dad"; identity_type = parent }

abbrev person : String → String → Person
person name number = record {
  tenant_id = "t";
  eduplus_id = number;
  eduplus_user_id = none;
  type = student;
  name = name;
  email = none;
  active = true;
}

abbrev member : String → StudentClassRelation
member id = record {
  tenant_id = "t";
  eduplus_id = id;
  student_id = id;
  classroom_id = "5a";
  active = true;
}

abbrev pub draft_exam : Exam
draft_exam = record {
  tenant_id = "t";
  is_demo = true;
  creator_id = "lee";
  classroom_id = "5a";
  title = "Midterm";
  type = "midterm";
  exam_date = 1000;
  status = draft;
  published_at = none;
  withdrawn_at = none;
}

abbrev pub published_exam : Exam
published_exam = record draft_exam { status = published; published_at = some 2000 }

abbrev subject : String → String → ℕ → ExamSubject
subject exam_id course_id order = record {
  tenant_id = "t";
  exam_id = exam_id;
  course_id = course_id;
  maximum_score = 10000;
  display_order = order;
}

abbrev pub key_of : String → String → ScoreKey
key_of student_id subject_id = record {
  tenant_id = "t";
  exam_id = "old";
  student_id = student_id;
  subject_id = subject_id;
}

abbrev graded : ℕ → Score
graded n = record { grader_id = "lee"; value = some n; absent = false }

-- the exam `new` is a draft, the exam `old` is published
abbrev pub school : Database
school = record {
  people =
      ("lee", record (person "Lee" "1") { type = teacher })
      ∷ ("office", record (person "Office" "2") { type = staff })
      ∷ ("ann", person "Ann" "3")
      ∷ ("bob", person "Bob" "4")
      ∷ ("dad", record (person "Dad" "5") { type = parent })
      ∷ [];
  classrooms =
      (
        "5a",
        record {
          tenant_id = "t";
          eduplus_id = "5a";
          name = "5A";
          grade_name = none;
          active = true;
        },
      )
      ∷ [];
  courses =
      (
        "maths",
        record { tenant_id = "t"; eduplus_id = "m"; code = none; name = "Maths"; active = true },
      )
      ∷ [];
  assignments =
      record {
        tenant_id = "t";
        eduplus_id = "a";
        teacher_id = "lee";
        classroom_id = "5a";
        course_id = "maths";
        active = true;
      }
      ∷ [];
  parent_relations =
      record {
        tenant_id = "t";
        eduplus_id = "r";
        parent_id = "dad";
        student_id = "ann";
        relation = none;
        active = true;
      }
      ∷ [];
  class_relations = member "ann" ∷ member "bob" ∷ [];
  exams = ("old", published_exam) ∷ ("new", draft_exam) ∷ [];
  exam_subjects = ("old1", subject "old" "maths" 0) ∷ ("new1", subject "new" "maths" 0) ∷ [];
  scores = (key_of "ann" "old1", graded 9000) ∷ (key_of "bob" "old1", graded 8000) ∷ [];
  score_imports = [];
}

abbrev replicate : ℕ → ℕ → List ℕ
replicate zero x = []
replicate (suc n) x = x ∷ replicate n x

abbrev open_box : String → String × String → Option String
open_box associated_data (label, text) = if label == associated_data then some text else none

-- a box with a label, and a digest of thirty-two equal bytes
abbrev pub toy_crypto : Crypto
toy_crypto = record {
  Sealed = String × String;
  encrypt = λ iv associated_data text. (associated_data, text);
  decrypt = open_box;
  hash = λ text. concat "#" text;
  hmac = λ text. replicate 32 1;
}
