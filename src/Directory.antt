-- ===== src/Directory.antt =====
-- backend/src/directory-sync/directory-sync.service.ts: people, classes and courses from the records
-- of the remote directory. `new_id` gives the identifier that a new row gets, from its external one.
pub mod Isolation
pub mod LastRecord
mod Tests
use package.text.Mathlib.TextBridge.{of_list}
use Prim.Native.String.{◌++◌ as concat}
use Prim.Native.Char.{Char, code}
use widget_demo.Prelude.{
  chars, ℕ, String, Bool, true, false, ◌&&◌, not, Option, none, some, List, [], ◌∷◌, ◌++◌, ◌==◌,
  leb, if◌then◌else◌, any, all, map, length, take, filter, is_some, or_else, upsert_where, find?,
  find_last?, HttpError, bad_gateway, unique_violation, Result, ok, err,
}
use widget_demo.Table.{string_eq, Table, lookup, insert}
use widget_demo.Texts.{trim, codes, lower, same_codes, is_truthy}
use widget_demo.Sorting.{sort}
use widget_demo.School.{
  PersonType, teacher, student, parent, Person, Classroom, Course, TeachingAssignment,
  ParentStudentRelation, StudentClassRelation, Database, same_type,
}
use widget_demo.Pages.{
  Response, Collected, collect_pages, get_page, Field, text, number, other, MasterDataRecord,
}

-- `this.text(record.fields[key])`
unfoldable pub text_of : Option Field → Option String
text_of (some (text value)) = is_truthy (some value)
text_of _ = none

abbrev pub text_field : MasterDataRecord → String → Option String
text_field record_ key = text_of (lookup key record_.fields)

unfoldable pub all_digits : String → Option String
all_digits value =
    let trimmed = trim (chars value) in
    let digits = map code trimmed in
    if not (same_codes digits []) && all (λ n. leb b'0' n && leb n b'9') digits
    then some (of_list trimmed)
    else none

unfoldable pub user_id : Option Field → Option String
user_id (some (number safe_positive shown)) = if safe_positive then some shown else none
user_id (some (text value)) = all_digits value
user_id _ = none

abbrev pub inactive_words : List String
inactive_words = "inactive" ∷ "disabled" ∷ "revoked" ∷ "deleted" ∷ []

unfoldable pub is_inactive : Option String → Bool
is_inactive none = false
is_inactive (some status) =
    any (λ word. same_codes (map lower (codes status)) (codes word)) inactive_words

unfoldable pub is_active_by : String → MasterDataRecord → Bool
is_active_by status_field item =
    if item.deleted then false else not (is_inactive (text_field item status_field))

abbrev pub is_active : MasterDataRecord → Bool
is_active = is_active_by "account_status"

unfoldable pub record_id : MasterDataRecord → String
record_id item = or_else item.external_id item.id

abbrev pub join : String → String → String
join entity_type id = concat entity_type (concat ":" id)

abbrev pub person_id : String → MasterDataRecord → String
person_id entity_type item = join entity_type item.id

abbrev pub name_of : String → MasterDataRecord → String
name_of eduplus_id item =
    or_else (text_field item "name") (or_else (text_field item "username") eduplus_id)

abbrev pub person_user_id : PersonType → MasterDataRecord → Option String
person_user_id type item =
    if same_type type student then user_id (lookup "user_id" item.fields) else none

abbrev pub Records : Type 0
Records = Table String (List MasterDataRecord)

-- `records.get(entityType)`
abbrev pub records_of : String → Records → List MasterDataRecord
records_of entity_type records = or_else (lookup entity_type records) []

module _ (new_id : String → String) (tenant_id : String) where
  -- `upsert` of the row with the tenant and the external identifier
  abbrev pub upsert_row :
      {V : Type 0} → (V → Bool) → String → V → (V → V) → Table String V → Table String V
  upsert_row same eduplus_id create update rows =
      upsert_where (λ row. same row.1) (new_id eduplus_id, create) (λ row. (row.0, update row.1))
        rows

  abbrev pub is_person : String → Person → Bool
  is_person eduplus_id row = row.tenant_id == tenant_id && row.eduplus_id == eduplus_id

  abbrev pub is_classroom : String → Classroom → Bool
  is_classroom eduplus_id row = row.tenant_id == tenant_id && row.eduplus_id == eduplus_id

  abbrev pub is_course : String → Course → Bool
  is_course eduplus_id row = row.tenant_id == tenant_id && row.eduplus_id == eduplus_id

  abbrev pub new_person : String → PersonType → MasterDataRecord → Person
  new_person entity_type type item =
      let eduplus_id = person_id entity_type item in
      record {
        tenant_id = tenant_id;
        eduplus_id = eduplus_id;
        eduplus_user_id = person_user_id type item;
        type = type;
        name = name_of eduplus_id item;
        email = text_field item "email";
        active = is_active item;
      }

  abbrev pub changed_person : String → PersonType → MasterDataRecord → Person → Person
  changed_person entity_type type item row = record row {
    eduplus_user_id = person_user_id type item;
    type = type;
    name = name_of (person_id entity_type item) item;
    email = text_field item "email";
    active = is_active item;
  }

  abbrev pub new_classroom : MasterDataRecord → Classroom
  new_classroom item = record {
    tenant_id = tenant_id;
    eduplus_id = record_id item;
    name = or_else (text_field item "name") (record_id item);
    grade_name = text_field item "grade_code";
    active = is_active item;
  }

  abbrev pub changed_classroom : MasterDataRecord → Classroom → Classroom
  changed_classroom item row = record row {
    name = or_else (text_field item "name") (record_id item);
    grade_name = text_field item "grade_code";
    active = is_active item;
  }

  abbrev pub new_course : MasterDataRecord → Course
  new_course item = record {
    tenant_id = tenant_id;
    eduplus_id = record_id item;
    code = text_field item "code";
    name = or_else (text_field item "name") (record_id item);
    active = is_active item;
  }

  abbrev pub changed_course : MasterDataRecord → Course → Course
  changed_course item row = record row {
    code = text_field item "code";
    name = or_else (text_field item "name") (record_id item);
    active = is_active item;
  }

  unfoldable pub sync_group :
      String → PersonType → List MasterDataRecord → Table String Person → Table String Person
  sync_group entity_type type [] people = people
  sync_group entity_type type (item ∷ rest) people = sync_group entity_type type rest (
      upsert_row (is_person (person_id entity_type item)) (person_id entity_type item)
        (new_person entity_type type item) (changed_person entity_type type item) people)

  unfoldable pub sync_classes :
      List MasterDataRecord → Table String Classroom → Table String Classroom
  sync_classes [] rows = rows
  sync_classes (item ∷ rest) rows = sync_classes rest (
      upsert_row (is_classroom (record_id item)) (record_id item) (new_classroom item)
        (changed_classroom item) rows)

  -- the constraint of the table: a course other than the one that is written, of the tenant and with
  -- the code; several courses may have none
  unfoldable pub is_code_taken : String → Option String → Table String Course → Bool
  is_code_taken eduplus_id none rows = false
  is_code_taken eduplus_id (some code) rows =
      any
        (λ row.
          row.1.tenant_id == tenant_id
          && (not (row.1.eduplus_id == eduplus_id)
              && elim row.1.code [ none ↦ false | some other_code ↦ other_code == code ]))
        rows

  unfoldable pub sync_courses :
      List MasterDataRecord → Table String Course → Result HttpError (Table String Course)
  sync_courses [] rows = ok rows
  sync_courses (item ∷ rest) rows =
      let done = sync_courses rest (
        upsert_row (is_course (record_id item)) (record_id item) (new_course item)
          (changed_course item) rows) in
      if is_code_taken (record_id item) (text_field item "code") rows
      then err unique_violation
      else done

  unfoldable pub sync_people : Records → Table String Person → Table String Person
  sync_people records people = sync_group "parent" parent (records_of "parent" records) (
      sync_group "student" student (records_of "student" records)
        (sync_group "teacher" teacher (records_of "teacher" records) people))

  -- the transaction of the courses, after those of the people and of the classes
  unfoldable pub store_courses :
      Result HttpError (Table String Course) → Database → Result {0, 0} HttpError Unit × Database
  store_courses (err why) db = (err why, db)
  store_courses (ok rows) db = (ok tt, record db { courses = rows })

  unfoldable pub sync_records : Records → Database → Result {0, 0} HttpError Unit × Database
  sync_records records db =
      store_courses (sync_courses (records_of "course" records) db.courses) (record db {
        people = sync_people records db.people;
        classrooms = sync_classes (records_of "class" records) db.classrooms;
      })
