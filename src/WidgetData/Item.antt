-- ===== src/WidgetData/Item.antt =====
-- One item of a batch: the body of the loop in `batch` of backend/src/widgets/widget-data.service.ts.
use widget_demo.Prelude.{
  chars, ℕ, String, Bool, true, false, ◌&&◌, ◌||◌, not, Option, none, some, List, ◌==◌, ltb,
  if◌then◌else◌, any, or_else, find?, head?, HttpError, Result, ok, err, and_then,
}
use widget_demo.Texts.{units}
use widget_demo.School.{student, parent, same_type, Database, ActorContext, is_teacher, is_staff}
use widget_demo.Numbers.{Numbers}
use widget_demo.Results.{Collation, Child, children, for_student}
use widget_demo.Results.Teacher.{for_teacher}
use widget_demo.WidgetSessions.{EndpointPair}
use widget_demo.Claims.{WidgetIdentity, contains_key, is_blank}
use widget_demo.WidgetData.{
  Params, missing, malformed, given, BatchItem, Failure, WidgetPayload, rows, Format,
  is_examination_widget, student_payload, teacher_rows,
}

unfoldable pub is_pair_of : BatchItem → EndpointPair → Bool
is_pair_of item pair =
    pair.widget_key == item.widget_key
    && (pair.data_endpoint_key == item.data_endpoint_key
        && or_else pair.query_preset_key "" == or_else item.query_preset_key "")

unfoldable pub is_authorized : BatchItem → WidgetIdentity → Bool
is_authorized item identity =
    is_examination_widget item.widget_key
    && (item.data_endpoint_key == item.widget_key
        && (contains_key item.widget_key identity.widget_keys
            && (contains_key item.data_endpoint_key identity.data_endpoint_keys
                && any (is_pair_of item) identity.endpoint_pairs)))

-- the student that a parent asks for; no other identity may ask for one
unfoldable pub check_student : Bool → Option String → Result Failure (Option String)
check_student is_parent none = err (record { code = "INVALID_WIDGET_PARAMS"; message = "组件参数无效" })
check_student is_parent (some id) =
    if not is_parent || (is_blank id || ltb 200 (units (chars id)))
    then err (record { code = "INVALID_WIDGET_PARAMS"; message = "组件参数无效" })
    else ok (some id)

unfoldable pub check_params : Bool → Params → Result Failure (Option String)
check_params is_parent missing = ok none
check_params is_parent malformed =
    err (record { code = "INVALID_WIDGET_PARAMS"; message = "组件参数无效" })
check_params is_parent (given asked true) =
    err (record { code = "INVALID_WIDGET_PARAMS"; message = "组件参数无效" })
check_params is_parent (given none false) = ok none
check_params is_parent (given (some asked) false) = check_student is_parent asked

abbrev pub not_applicable : Failure
not_applicable = record { code = "ROLE_NOT_APPLICABLE"; message = "当前身份不适用此组件" }

-- of an exception that is no `ItemFailure`
abbrev pub unless_raised : {A : Type 0} → Result HttpError A → Result Failure A
unless_raised (ok a) = ok a
unless_raised (err why) = err (record { code = "WIDGET_DATA_UNAVAILABLE"; message = "组件数据暂时不可用" })

-- the child that is asked for, or the first one
unfoldable pub select_child : Option String → List Child → Option Child
select_child none available = head? available
select_child (some requested) available = find? (λ c. c.eduplus_id == requested) available

abbrev pub limit_of : String → ℕ
limit_of key = if key == "exam-score-trend" then 12 else 1

module _ (num : Numbers) (order : Collation) (format : Format num.Number)
    (identity : WidgetIdentity) (actor : ActorContext) (name : String) (db : Database) where
  unfoldable pub data_of :
      BatchItem → (student_id student_name : String) → Result Failure (WidgetPayload num.Number)
  data_of item student_id student_name =
      and_then
        (unless_raised
          (for_student num order actor student_id (some (limit_of item.widget_key)) db).0)
        (λ exams. ok (student_payload format item.widget_key exams student_name))

  unfoldable pub for_child : BatchItem → Option Child → Result Failure (WidgetPayload num.Number)
  for_child item none = err (record { code = "CHILD_NOT_AUTHORIZED"; message = "未找到可访问的关联学生" })
  for_child item (some child) = data_of item child.id child.name

  unfoldable pub for_staff : BatchItem → Result Failure (WidgetPayload num.Number)
  for_staff item =
      if item.widget_key == "exam-score-table"
      then and_then (unless_raised (for_teacher num order actor db).0)
          (λ found. ok (rows (teacher_rows found)))
      else err not_applicable

  unfoldable pub for_role : BatchItem → Option String → Result Failure (WidgetPayload num.Number)
  for_role item requested =
      if is_teacher actor.identity_type || is_staff actor.identity_type
      then for_staff item
      else if same_type actor.identity_type parent
      then and_then (unless_raised (children order actor db).0)
          (λ available. for_child item (select_child requested available))
      else if same_type actor.identity_type student
      then data_of item actor.person_id name
      else err not_applicable

  unfoldable pub item_result : BatchItem → Result Failure (WidgetPayload num.Number)
  item_result item =
      if is_authorized item identity
      then and_then (check_params (same_type actor.identity_type parent) item.params)
          (for_role item)
      else err (record { code = "WIDGET_NOT_AUTHORIZED"; message = "组件或数据端点未获授权" })
