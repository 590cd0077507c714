-- ===== src/Results.antt =====
-- backend/src/results/results.service.ts: what students, parents and teachers may read.
pub mod Teacher
pub mod Access
pub mod Published
pub mod Ranks
pub mod Taught
mod Tests
use Prim.Native.String.{◌++◌ as concat}
use mathlib.Core.List.{reverse}
use widget_demo.Prelude.{
  ℕ, zero, suc, ◌+◌, String, Bool, true, false, ◌&&◌, ◌||◌, not, Option, none, some, List, [], ◌∷◌,
  map, ◌==◌, ◌=ℕ◌, ltb, leb, if◌then◌else◌, filter, any, length, or_else, is_some, find?,
  find_last?, filter_some, head?, take, HttpError, forbidden, Exec, pure, gets, raise_if, raise,
  ◌>>=◌, ◌>>◌,
}
use widget_demo.Sorting.{sort}
use widget_demo.Table.{string_eq, Table, lookup, insert}
use widget_demo.School.{
  PersonType, student, parent, same_type, Person, Classroom, Course, Exam, ExamSubject,
  TeachingAssignment, ParentStudentRelation, ScoreKey, Score, Database, ActorContext, is_teacher,
  is_staff,
}
use widget_demo.Numbers.{Numbers}
use widget_demo.Ranking.{Row, RankedRow, Comparison, competition_ranks}
use widget_demo.Exams.{Service, is_published, subjects_of}
use widget_demo.Scores.{contains}

-- the orders of texts: the database's, and `localeCompare`'s
pub record Collation : Type 0 where
  pub column_le : String → String → Bool
  pub locale_le : String → String → Bool

pub record Child : Type 0 where
  pub id : String
  pub eduplus_id : String
  pub name : String

pub record SubjectResult (N : Type 0) : Type 0 where
  pub id : String
  pub name : String
  pub maximum_score : N
  pub score : Option N
  pub absent : Bool
  pub rank : Option ℕ

pub record ExamResult (N : Type 0) : Type 0 where
  pub exam_id : String
  pub title : String
  pub is_demo : Bool
  pub type : String
  pub exam_date : ℕ
  pub total : N
  pub average : N
  pub class_rank : Option ℕ
  pub subjects : List (SubjectResult N)

abbrev pub ScoreRow : Type 0
ScoreRow = ScoreKey × Score

unfoldable pub is_relation_of : ActorContext → ParentStudentRelation → Bool
is_relation_of actor r =
    r.tenant_id == actor.tenant_id && (r.parent_id == actor.person_id && r.active)

-- the `student` of a relation, if active
unfoldable pub active_child : Database → ParentStudentRelation → Option Child
active_child db r = elim (lookup r.student_id db.people) [
  | none ↦ none
  | some p ↦
      if p.active
      then some (record { id = r.student_id; eduplus_id = p.eduplus_id; name = p.name })
      else none
]

unfoldable pub children : Collation → ActorContext → Service (List Child)
unfolding is_relation_of active_child
children order actor =
    raise_if (not (same_type actor.identity_type parent))
      (forbidden "A parent identity is required")
    >> gets (λ db.
      sort (λ a b. order.column_le a.name b.name)
        (filter_some (map (active_child db) (filter (is_relation_of actor) db.parent_relations))))

unfoldable pub has_child : ActorContext → String → Database → Bool
unfolding is_relation_of
has_child actor student_id db =
    any (λ r. is_relation_of actor r && r.student_id == student_id) db.parent_relations

unfoldable pub assert_access : ActorContext → String → Service Unit
assert_access actor student_id db =
    if same_type actor.identity_type student
    then raise_if (not (actor.person_id == student_id))
        (forbidden "Students may read only their own results") db
    else if same_type actor.identity_type parent
    then raise_if (not (has_child actor student_id db))
        (forbidden "An active parent-child relationship is required") db
    else raise (forbidden "Student or parent identity is required") db

-- `Math.max(1, Math.min(50, limit))`
unfoldable pub bounded_limit : ℕ → ℕ
bounded_limit limit = if ltb 50 limit then 50 else if ltb limit 1 then 1 else limit

-- the rows of the relation `scores` of an exam
unfoldable pub scores_of : String → String → Database → List ScoreRow
scores_of tenant_id exam_id db =
    filter (λ s. s.0.tenant_id == tenant_id && s.0.exam_id == exam_id) db.scores

-- `course.name`; the foreign key makes the course exist
unfoldable pub course_name : String → Database → String
course_name course_id db = elim (lookup course_id db.courses) [ none ↦ "" | some c ↦ c.name ]

unfoldable pub sorted_subjects : String → String → Database → List (String × ExamSubject)
unfolding subjects_of
sorted_subjects tenant_id exam_id db =
    sort (λ a b. leb a.1.display_order b.1.display_order) (subjects_of tenant_id exam_id db)

-- `[{ examDate: 'asc' }, { id: 'asc' }]`
unfoldable pub is_earlier : Collation → String × Exam → String × Exam → Bool
is_earlier order a b =
    if ltb a.1.exam_date b.1.exam_date
    then true
    else if ltb b.1.exam_date a.1.exam_date
    then false
    else order.column_le a.0 b.0

-- `filter((score) => score.studentId === studentId)`
unfoldable pub scores_by : String → List ScoreRow → List ScoreRow
scores_by student_id rows = filter (λ s. s.0.student_id == student_id) rows

module _ (num : Numbers) (order : Collation) where
  open num use {Number, add, divide, of_decimal}

  abbrev pub comparison : Comparison Number
  comparison = record { lt = num.lt; same = num.same; locale_le = order.locale_le }

  -- `filter((score) => score.value !== null)` and the `map` behind it
  unfoldable pub value_row : ScoreRow → Option (Row Number)
  value_row s = elim s.1.value [
    | none ↦ none
    | some v ↦ some (record { id = s.0.student_id; value = of_decimal v })
  ]

  unfoldable pub values_of : List ScoreRow → List (Row Number)
  values_of rows = filter_some (map value_row rows)

  abbrev pub rank_of : Option (RankedRow Number) → Option ℕ
  rank_of none = none
  rank_of (some r) = some r.rank

  -- `ranks.find((row) => row.id === studentId)?.rank ?? null`
  unfoldable pub rank_in : String → List (RankedRow Number) → Option ℕ
  rank_in student_id ranks = rank_of (find? (λ r. r.row.id == student_id) ranks)

  unfoldable pub sum : Number → List (Row Number) → Number
  sum total [] = total
  sum total (r ∷ rows) = sum (add total r.value) rows

  -- the loop over `exam.scores`; a `Map` keeps the place of its keys
  unfoldable pub add_totals : Table String Number → List (Row Number) → Table String Number
  add_totals totals [] = totals
  add_totals totals (r ∷ rows) =
      add_totals (insert r.id (add (or_else (lookup r.id totals) num.zero) r.value) totals) rows

  unfoldable pub class_rank : String → List ScoreRow → Option ℕ
  class_rank student_id rows = rank_in student_id (
      competition_ranks comparison
        (map (λ t. record { id = t.0; value = t.1 }) (add_totals [] (values_of rows))))

  unfoldable pub subject_rank : String → String → List ScoreRow → Option ℕ
  subject_rank student_id subject_id rows =
      rank_in student_id
        (competition_ranks comparison (values_of (filter (λ s. s.0.subject_id == subject_id) rows)))

  abbrev pub number_of : Option ScoreRow → Option Number
  number_of none = none
  number_of (some s) = elim s.1.value [ none ↦ none | some v ↦ some (of_decimal v) ]

  abbrev is_absent : Option ScoreRow → Bool
  is_absent none = false
  is_absent (some s) = s.1.absent

  unfoldable pub subject_result :
      String → List ScoreRow → Database → String × ExamSubject → SubjectResult Number
  subject_result student_id rows db subject =
      let score = find? (λ s. s.0.subject_id == subject.0) (scores_by student_id rows) in
      record {
        id = subject.0;
        name = course_name subject.1.course_id db;
        maximum_score = of_decimal subject.1.maximum_score;
        score = number_of score;
        absent = is_absent score;
        rank = subject_rank student_id subject.0 rows;
      }

  unfoldable pub exam_result : String → String → Database → String × Exam → ExamResult Number
  exam_result tenant_id student_id db exam =
      let rows = scores_of tenant_id exam.0 db in
      let numeric = values_of (scores_by student_id rows) in
      let total = sum num.zero numeric in
      record {
        exam_id = exam.0;
        title = exam.1.title;
        is_demo = exam.1.is_demo;
        type = exam.1.type;
        exam_date = exam.1.exam_date;
        total = total;
        average = if length numeric =ℕ 0 then num.zero else divide total (length numeric);
        class_rank = class_rank student_id rows;
        subjects = map (subject_result student_id rows db) (sorted_subjects tenant_id exam.0 db);
      }

  -- the `where` of `forStudent`
  unfoldable pub shows : String → String → Database → String × Exam → Bool
  shows tenant_id student_id db exam =
      exam.1.tenant_id == tenant_id
      && (is_published exam.1.status
          && any (λ s. s.0.student_id == student_id) (scores_of tenant_id exam.0 db))

  unfoldable pub select_exams : String → String → Option ℕ → Database → List (String × Exam)
  select_exams tenant_id student_id none db =
      sort (is_earlier order) (filter (shows tenant_id student_id db) db.exams)
  select_exams tenant_id student_id (some limit) db =
      take (bounded_limit limit)
        (sort (λ a b. is_earlier order b a) (filter (shows tenant_id student_id db) db.exams))

  abbrev reverse_if : {A : Type 0} → Option ℕ → List A → List A
  reverse_if none l = l
  reverse_if (some n) l = reverse l

  unfoldable pub read_results :
      ActorContext → String → Option ℕ → Database → List (ExamResult Number)
  read_results actor student_id limit db = reverse_if limit (
      map (exam_result actor.tenant_id student_id db)
        (select_exams actor.tenant_id student_id limit db))

  unfoldable pub for_student : ActorContext → String → Option ℕ → Service (List (ExamResult Number))
  for_student actor student_id limit =
      assert_access actor student_id >> gets (read_results actor student_id limit)
