-- ===== src/Directory/Tests.antt =====
-- Runs of the synchronisation of people and classes.
use widget_demo.Prelude.{
  String, true, false, ◌≡◌, refl, none, some, [], ◌∷◌, chars, ◌==◌, All, ok, err, unique_violation,
}
use widget_demo.Table.{string_eq, Table, lookup}
use widget_demo.Texts.{is_truthy, trim, codes, lower, is_space, trim_start}
use widget_demo.School.{same_type, student, Classroom, Course}
use widget_demo.Samples.{school}
use widget_demo.Pages.{text, MasterDataRecord}
use widget_demo.Directory.{
  text_of, all_digits, user_id, is_inactive, is_active_by, record_id, sync_group, sync_people,
  sync_classes, sync_courses, is_code_taken, sync_records,
}
use widget_demo.Directory.Isolation.{IsIsolated, sync_records-IsIsolated}

abbrev item : String → String → String → MasterDataRecord
item id name status = record {
  id = id;
  external_id = none;
  deleted = false;
  fields = ("name", text name) ∷ ("account_status", text status) ∷ ("user_id", text " 42 ") ∷ [];
}

abbrev first_class : MasterDataRecord
first_class = item "c1" "Class 1" "active"

abbrev renamed_class : MasterDataRecord
renamed_class = item "c1" "Class 1A" "Disabled"

abbrev other_class : MasterDataRecord
other_class = item "c2" "Class 2" ""

abbrev foreign_class : Classroom
foreign_class = record {
  tenant_id = "other";
  eduplus_id = "c1";
  name = "Theirs";
  grade_name = none;
  active = true;
}

last_class_counts :
    sync_classes
      (λ id. id)
      "t"
      (first_class ∷ other_class ∷ renamed_class ∷ [])
      (("x", foreign_class) ∷ [])
    ≡ ("x", foreign_class)
      ∷ (
        "c1",
        record {
          tenant_id = "t";
          eduplus_id = "c1";
          name = "Class 1A";
          grade_name = none;
          active = false;
        },
      )
      ∷ (
        "c2",
        record {
          tenant_id = "t";
          eduplus_id = "c2";
          name = "Class 2";
          grade_name = none;
          active = true;
        },
      )
      ∷ []
unfolding sync_classes record_id is_active_by is_inactive text_of lookup is_truthy codes lower chars
last_class_counts = refl

student_number :
    sync_people (λ id. id) "t" (("student", first_class ∷ []) ∷ []) []
    ≡ (
      "student:c1",
      record {
        tenant_id = "t";
        eduplus_id = "student:c1";
        eduplus_user_id = some "42";
        type = student;
        name = "Class 1";
        email = none;
        active = true;
      },
    )
      ∷ []
unfolding sync_people sync_group user_id all_digits is_active_by is_inactive text_of lookup
    is_truthy codes lower chars trim trim_start is_space same_type
student_number = refl

sync_records-IsIsolated_example :
    IsIsolated
      (λ id. id)
      "t"
      school
      (sync_records (λ id. id) "t" (("class", first_class ∷ other_class ∷ []) ∷ []) school).1
sync_records-IsIsolated_example =
    sync_records-IsIsolated (λ id. id) "t" (("class", first_class ∷ other_class ∷ []) ∷ []) school

other_id : All (λ r. (record_id r == record_id renamed_class) ≡ false) (other_class ∷ [])
unfolding record_id
other_id = (refl, tt)

abbrev course_item : String → String → MasterDataRecord
course_item id code = record {
  id = id;
  external_id = none;
  deleted = false;
  fields = ("name", text "Latin") ∷ ("code", text code) ∷ [];
}

-- the second course of the tenant with one code is refused, and so are the ones before it
course_codes_clash :
    sync_courses (λ id. id) "t" (course_item "a" "LAT" ∷ course_item "b" "LAT" ∷ []) []
    ≡ err unique_violation
unfolding sync_courses is_code_taken record_id is_active_by is_inactive text_of lookup is_truthy
    codes lower chars
course_codes_clash = refl

course_kept_code :
    ((rows : Table String Course) × (sync_courses
          (λ id. id)
          "t"
          (course_item "a" "LAT" ∷ course_item "a" "LAT" ∷ [])
          []
        ≡ ok rows))
unfolding sync_courses is_code_taken record_id is_active_by is_inactive text_of lookup is_truthy
    codes lower chars
course_kept_code = (_, refl)
