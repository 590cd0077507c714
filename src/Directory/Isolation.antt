-- ===== src/Directory/Isolation.antt =====
-- What a synchronisation leaves alone: the rows of other tenants, and the identifiers of all rows.
use widget_demo.Prelude.{
  String, Bool, false, ◌≡◌, refl, ap, ◌∙◌, some, List, [], ◌∷◌, inl, inr, Bool-cases, ◌==◌, sym,
  ◌⊎◌, HttpError, Result, ok, err, Result-cases,
}
use widget_demo.Table.{string_eq, Table, lookup}
use widget_demo.School.{PersonType, teacher, student, parent, Person, Classroom, Course, Database}
use widget_demo.Pages.{MasterDataRecord}
use widget_demo.Directory.{
  Records, records_of, upsert_row, is_person, is_classroom, is_course, person_id, record_id,
  sync_group, sync_classes, sync_courses, sync_people, sync_records, store_courses, is_code_taken,
  text_field,
}

-- every row that the test excludes is kept
pub Kept : {V : Type 0} → (V → Bool) → Table String V → Table String V → Type 0
Kept {V} mine before after =
    (id : String) (row : V)
    → lookup id before ≡ some row
    → mine row ≡ false
    → lookup id after ≡ some row

ok_inj : {A : Type 0} (a b : A) → ◌≡◌ {A = Result HttpError A} (ok a) (ok b) → a ≡ b
ok_inj a b h = cc

module _ (new_id : String → String) (tenant_id : String) where
  upsert_row-keeps :
      {V : Type 0} (same : V → Bool) (eduplus_id : String) (create : V) (update : V → V)
      (rows : Table String V) (id : String) (row : V)
      → lookup id rows ≡ some row
      → same row ≡ false
      → lookup id (upsert_row new_id tenant_id same eduplus_id create update rows) ≡ some row
  unfolding lookup
  upsert_row-keeps same eduplus_id create update [] id row h other = absurd (cc)
  upsert_row-keeps same eduplus_id create update ((j, v) ∷ rows) id row h other =
      elim (Bool-cases (j == id)) [
        | inl here ↦
            let now : v ≡ row = cc (rw here at h) in rw (ap same now ∙ other, here) (ap some now)
        | inr elsewhere ↦ elim (Bool-cases (same v)) [
          | inl changed ↦ rw (changed, elsewhere) (rw elsewhere at h)
          | inr unchanged ↦
              rw (unchanged, elsewhere)
                (upsert_row-keeps same eduplus_id create update rows id row (rw elsewhere at h)
                  other)
        ]
      ]

  people-Kept :
      (entity_type : String) (type : PersonType) (items : List MasterDataRecord)
      (people : Table String Person)
      → Kept
          (λ row. row.tenant_id == tenant_id)
          people
          (sync_group new_id tenant_id entity_type type items people)
  unfolding Kept sync_group
  people-Kept entity_type type [] people id row h other = h
  people-Kept entity_type type (item ∷ rest) people id row h other =
      people-Kept entity_type type rest _ id row
        (upsert_row-keeps (is_person new_id tenant_id (person_id entity_type item)) _ _ _ people id
          row h (rw other))
        other

  classes-Kept :
      (items : List MasterDataRecord) (rows : Table String Classroom)
      → Kept (λ row. row.tenant_id == tenant_id) rows (sync_classes new_id tenant_id items rows)
  unfolding Kept sync_classes
  classes-Kept [] rows id row h other = h
  classes-Kept (item ∷ rest) rows id row h other =
      classes-Kept rest _ id row
        (upsert_row-keeps (is_classroom new_id tenant_id (record_id item)) _ _ _ rows id row h
          (rw other))
        other

  courses-Kept :
      (items : List MasterDataRecord) (rows after : Table String Course)
      → sync_courses new_id tenant_id items rows ≡ ok after
      → Kept (λ row. row.tenant_id == tenant_id) rows after
  unfolding Kept sync_courses
  courses-Kept [] rows after done id row h other = ap (lookup id) (sym (ok_inj rows after done)) ∙ h
  courses-Kept (item ∷ rest) rows after done id row h other =
      elim (Bool-cases
        (is_code_taken new_id tenant_id (record_id item) (text_field item "code") rows)) [
          | inl taken ↦ absurd (cc (rw taken at done))
          | inr free ↦
              courses-Kept rest _ after (rw free at done) id row
                (upsert_row-keeps (is_course new_id tenant_id (record_id item)) _ _ _ rows id row h
                  (rw other))
                other
        ]

  sync_people-Kept :
      (records : Records) (people : Table String Person)
      → Kept
          (λ row. row.tenant_id == tenant_id)
          people
          (sync_people new_id tenant_id records people)
  unfolding Kept sync_people
  sync_people-Kept records people id row h other =
      people-Kept "parent" parent _ _ id row
        (people-Kept "student" student _ _ id row
          (people-Kept "teacher" teacher _ people id row h other) other)
        other

  -- what a synchronisation for the tenant does not touch
  pub record IsIsolated (before after : Database) : Type 0 where
    pub people : Kept (λ row. row.tenant_id == tenant_id) before.people after.people
    pub classrooms : Kept (λ row. row.tenant_id == tenant_id) before.classrooms after.classrooms
    pub courses : Kept (λ row. row.tenant_id == tenant_id) before.courses after.courses
    pub assignments : after.assignments ≡ before.assignments
    pub parent_relations : after.parent_relations ≡ before.parent_relations
    pub class_relations : after.class_relations ≡ before.class_relations
    pub exams : after.exams ≡ before.exams
    pub exam_subjects : after.exam_subjects ≡ before.exam_subjects
    pub scores : after.scores ≡ before.scores
    pub score_imports : after.score_imports ≡ before.score_imports

  -- the courses fail, and only people and classes are synchronised, or all are
  pub sync_records-cases :
      (records : Records) (db : Database)
      → ((why : HttpError) × (sync_courses new_id tenant_id (records_of "course" records) db.courses
            ≡ err why)
          × (sync_records new_id tenant_id records db ≡ (
            err why,
            record db {
              people = sync_people new_id tenant_id records db.people;
              classrooms = sync_classes new_id tenant_id (records_of "class" records) db.classrooms;
            },
          )))
        ⊎ ((rows : Table String Course) × (sync_courses new_id tenant_id
                (records_of "course" records)
                db.courses
              ≡ ok rows)
            × (sync_records new_id tenant_id records db ≡ (
              ok tt,
              record db {
                people = sync_people new_id tenant_id records db.people;
                classrooms =
                    sync_classes new_id tenant_id (records_of "class" records) db.classrooms;
                courses = rows;
              },
            )))
  unfolding sync_records store_courses
  sync_records-cases records db =
      elim (Result-cases (sync_courses new_id tenant_id (records_of "course" records) db.courses)) [
        | inl (why, e) ↦ inl (why, e, rw e)
        | inr (rows, e) ↦ inr (rows, e, rw e)
      ]

  -- Whatever the records say, and also if the courses fail, their synchronisation for a tenant keeps
  -- each person, class and course of every other tenant under its identifier, and changes no
  -- relation, assignment, exam or score.
  pub sync_records-IsIsolated :
      (records : Records) (db : Database)
      → IsIsolated db (sync_records new_id tenant_id records db).1
  sync_records-IsIsolated records db = elim (sync_records-cases records db) [
    | inl (why, failure, e) ↦ rw e (record {
      people = sync_people-Kept records db.people;
      classrooms = classes-Kept (records_of "class" records) db.classrooms;
      courses = unfold Kept in λ id row h other. h;
      assignments = refl;
      parent_relations = refl;
      class_relations = refl;
      exams = refl;
      exam_subjects = refl;
      scores = refl;
      score_imports = refl;
    })
    | inr (rows, done, e) ↦ rw e (record {
      people = sync_people-Kept records db.people;
      classrooms = classes-Kept (records_of "class" records) db.classrooms;
      courses = courses-Kept (records_of "course" records) db.courses rows done;
      assignments = refl;
      parent_relations = refl;
      class_relations = refl;
      exams = refl;
      exam_subjects = refl;
      scores = refl;
      score_imports = refl;
    })
  ]
