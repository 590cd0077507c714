-- ===== src/WidgetData/Served.antt =====
-- What an item of a batch gives, and to whom.
use mathlib.Core.List.{Memᴰ}
use mathlib.Core.Path.{subst}
use widget_demo.Prelude.{
  String, true, ◌&&◌, ◌||◌, ◌≡◌, ◌⊎◌, refl, sym, inl, inr, Option, none, some, List, ◌==◌, eq_iff,
  or_else, arith, HttpError, Result, ok, err, Bool-cases, Result-cases,
}
use widget_demo.Prelude.Search.{any_sound}
use widget_demo.School.{
  PersonType, teacher, staff, student, parent, same_type, Database, ActorContext, is_teacher,
  is_staff,
}
use widget_demo.Numbers.{Numbers}
use widget_demo.Results.{Collation, Child, ExamResult, children, for_student}
use widget_demo.Results.Access.{MayRead, for_student-MayRead}
use widget_demo.Results.Teacher.{TeacherRow, for_teacher}
use widget_demo.WidgetSessions.{EndpointPair}
use widget_demo.Claims.{WidgetIdentity, contains_key}
use widget_demo.WidgetData.{
  BatchItem, Failure, WidgetPayload, rows, Format, is_examination_widget, student_payload,
  teacher_rows,
}
use widget_demo.WidgetData.Item.{
  is_pair_of, is_authorized, check_params, unless_raised, select_child, limit_of, data_of,
  for_child, for_staff, for_role, item_result,
}

-- the token allows the widget and its endpoint, by its lists and by one of its pairs
pub record IsAuthorized (item : BatchItem) (identity : WidgetIdentity) : Type 0 where
  pub widget : is_examination_widget item.widget_key ≡ true
  pub endpoint : item.data_endpoint_key ≡ item.widget_key
  pub listed : Memᴰ item.widget_key identity.widget_keys
  pub listed_endpoint : Memᴰ item.data_endpoint_key identity.data_endpoint_keys
  pub pair : EndpointPair
  pub known : Memᴰ pair identity.endpoint_pairs
  pub pair_widget : pair.widget_key ≡ item.widget_key
  pub pair_endpoint : pair.data_endpoint_key ≡ item.data_endpoint_key
  pub pair_preset : or_else pair.query_preset_key "" ≡ or_else item.query_preset_key ""

contains_key_sound :
    (key : String) (keys : List String) → contains_key key keys ≡ true → Memᴰ key keys
contains_key_sound key keys h =
    let (k, m, e) = any_sound (λ k. k == key) keys h in
    subst (λ x. Memᴰ x keys) ((eq_iff k key).0 e) m

is_authorized_sound :
    (item : BatchItem) (identity : WidgetIdentity)
    → is_authorized item identity ≡ true
    → IsAuthorized item identity
unfolding is_authorized is_pair_of
is_authorized_sound item identity h =
    let (pair, m, e) =
      any_sound
        (λ pair.
          pair.widget_key == item.widget_key
          && (pair.data_endpoint_key == item.data_endpoint_key
              && or_else pair.query_preset_key "" == or_else item.query_preset_key ""))
        identity.endpoint_pairs (ground arith) in
    record {
      widget = ground arith;
      endpoint = (eq_iff _ _).0 (ground arith);
      listed = contains_key_sound item.widget_key identity.widget_keys (ground arith);
      listed_endpoint =
          contains_key_sound item.data_endpoint_key identity.data_endpoint_keys (ground arith);
      pair = pair;
      known = m;
      pair_widget = (eq_iff _ _).0 (ground arith);
      pair_endpoint = (eq_iff _ _).0 (ground arith);
      pair_preset = (eq_iff _ _).0 (ground arith);
    }

unless_raised-cases :
    {A : Type 0} (r : Result HttpError A)
    → ((why : Failure) × (unless_raised r ≡ err why))
      ⊎ ((a : A) × (r ≡ ok a) × (unless_raised r ≡ ok a))
unless_raised-cases (ok a) = inr (a, refl, refl)
unless_raised-cases (err why) = inl (_, refl)

module _ (num : Numbers) (order : Collation) (format : Format num.Number)
    (identity : WidgetIdentity) (actor : ActorContext) (name : String) (db : Database) where
  -- the data of an item: what a teacher or a member of staff sees, or the results of a student whom
  -- the actor may read
  pub data IsRead (item : BatchItem) (payload : WidgetPayload num.Number) : Type 0 where
    as_staff :
        (found : List (TeacherRow num.Number))
        → (actor.identity_type ≡ teacher) ⊎ (actor.identity_type ≡ staff)
        → item.widget_key ≡ "exam-score-table"
        → (for_teacher num order actor db).0 ≡ ok found
        → payload ≡ rows (teacher_rows found)
        → IsRead item payload
    of_student :
        (student_id student_name : String) (exams : List (ExamResult num.Number))
        → MayRead actor student_id db
        → (for_student num order actor student_id (some (limit_of item.widget_key)) db).0 ≡ ok exams
        → payload ≡ student_payload format item.widget_key exams student_name
        → IsRead item payload

  data_of-IsRead :
      (item : BatchItem) (student_id student_name : String) (payload : WidgetPayload num.Number)
      → data_of num order format identity actor name db item student_id student_name ≡ ok payload
      → IsRead item payload
  unfolding data_of
  data_of-IsRead item student_id student_name payload h =
      let found = (for_student num order actor student_id (some (limit_of item.widget_key)) db).0 in
      elim (unless_raised-cases found) [
        | inl (why, e) ↦ absurd (cc (rw e at h))
        | inr (exams, read, e) ↦
            let same : student_payload format item.widget_key exams student_name ≡ payload =
              cc (rw e at h) in
            let may =
              (for_student-MayRead num order actor student_id (some (limit_of item.widget_key))
                  db).0.0
                (exams, read) in
            IsRead.of_student student_id student_name exams may read (sym same)
      ]

  for_staff-IsRead :
      (item : BatchItem) (payload : WidgetPayload num.Number)
      → (actor.identity_type ≡ teacher) ⊎ (actor.identity_type ≡ staff)
      → for_staff num order format identity actor name db item ≡ ok payload
      → IsRead item payload
  unfolding for_staff
  for_staff-IsRead item payload who h = elim (Bool-cases (item.widget_key == "exam-score-table")) [
    | inr other ↦ absurd (cc (rw other at h))
    | inl table ↦ elim (unless_raised-cases (for_teacher num order actor db).0) [
      | inl (why, e) ↦ absurd (cc (rw (table, e) at h))
      | inr (found, read, e) ↦
          let same : rows (teacher_rows found) ≡ payload = cc (rw (table, e) at h) in
          IsRead.as_staff found who ((eq_iff _ _).0 table) read (sym same)
    ]
  ]

  staff_kinds : (t : PersonType) → (is_teacher t || is_staff t) ≡ true → (t ≡ teacher) ⊎ (t ≡ staff)
  unfolding is_teacher is_staff
  staff_kinds staff h = inr refl
  staff_kinds teacher h = inl refl
  staff_kinds student h = absurd (cc)
  staff_kinds parent h = absurd (cc)

  for_child-IsRead :
      (item : BatchItem) (child : Option Child) (payload : WidgetPayload num.Number)
      → for_child num order format identity actor name db item child ≡ ok payload
      → IsRead item payload
  unfolding for_child
  for_child-IsRead item none payload h = absurd (cc)
  for_child-IsRead item (some child) payload h = data_of-IsRead item child.id child.name payload h

  for_role-IsRead :
      (item : BatchItem) (requested : Option String) (payload : WidgetPayload num.Number)
      → for_role num order format identity actor name db item requested ≡ ok payload
      → IsRead item payload
  unfolding for_role
  for_role-IsRead item requested payload h =
      elim (Bool-cases (is_teacher actor.identity_type || is_staff actor.identity_type)) [
        | inl works ↦
            for_staff-IsRead item payload (staff_kinds actor.identity_type works) (rw works at h)
        | inr no_staff ↦ elim (Bool-cases (same_type actor.identity_type parent)) [
          | inl is_parent ↦ elim (unless_raised-cases (children order actor db).0) [
            | inl (why, e) ↦ absurd (cc (rw (no_staff, is_parent, e) at h))
            | inr (available, read, e) ↦
                for_child-IsRead item (select_child requested available) payload
                  (rw (no_staff, is_parent, e) at h)
          ]
          | inr no_parent ↦ elim (Bool-cases (same_type actor.identity_type student)) [
            | inl is_student ↦
                data_of-IsRead item actor.person_id name payload
                  (rw (no_staff, no_parent, is_student) at h)
            | inr other ↦ absurd (cc (rw (no_staff, no_parent, other) at h))
          ]
        ]
      ]

  pub record IsServed (item : BatchItem) (payload : WidgetPayload num.Number) : Type 0 where
    pub authorized : IsAuthorized item identity
    pub read : IsRead item payload

  pub item_result-IsServed :
      (item : BatchItem) (payload : WidgetPayload num.Number)
      → item_result num order format identity actor name db item ≡ ok payload
      → IsServed item payload
  unfolding item_result
  item_result-IsServed item payload h = elim (Bool-cases (is_authorized item identity)) [
    | inr refused ↦ absurd (cc (rw refused at h))
    | inl allowed ↦
        elim (Result-cases (check_params (same_type actor.identity_type parent) item.params)) [
          | inl (why, e) ↦ absurd (cc (rw (allowed, e) at h))
          | inr (requested, e) ↦ record {
            authorized = is_authorized_sound item identity allowed;
            read = for_role-IsRead item requested payload (rw (allowed, e) at h);
          }
        ]
  ]
