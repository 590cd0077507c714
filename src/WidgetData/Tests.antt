-- ===== src/WidgetData/Tests.antt =====
-- A batch for a student of the sample school.
use widget_demo.Prelude.{
  chars, ℕ, String, true, ◌≡◌, ◌==◌, ◌⊎◌, refl, Option, none, some, [], ◌∷◌, map, All, is_some, ok,
  err, filter,
}
use widget_demo.Sorting.{sort}
use widget_demo.Table.{string_eq, lookup, insert}
use widget_demo.Texts.{trim, trim_start, is_space, units, bearer, after_mark, codes, is_truthy}
use widget_demo.School.{Person, Database, same_type, is_teacher, is_staff}
use widget_demo.Samples.{hundredths, school}
use widget_demo.WidgetSamples.{tenancy, verify}
use widget_demo.Sessions.{is_active_tenant}
use widget_demo.Results.{
  Collation, comparison, assert_access, value_row, values_of, rank_in, subject_rank, shows,
  read_results, for_student,
}
use widget_demo.Claims.{text, absent, role, inherited, contains_key, is_blank}
use widget_demo.WidgetRequests.{bearer_token}
use widget_demo.WidgetAuth.{client_matches, add_match, with_issuer, only_client, load_credential}
use widget_demo.WidgetAuth.Access.{Routing, of_tenant, of_client, of_routing, verify_access_token}
use widget_demo.WidgetData.{
  missing, BodyItem, BatchBody, WidgetPayload, rows, Format, is_examination_widget, last,
  student_payload,
}
use widget_demo.WidgetData.Item.{
  is_pair_of, is_authorized, check_params, data_of, for_role, item_result,
}
use widget_demo.WidgetData.Batch.{
  keyed_item, check_items, check_widgets, check_request_id, validate_batch, people_of, put_result,
  collect, BatchAnswer, results_for, batch_for, batch,
}
use widget_demo.WidgetData.Answered.{IsBatch, batch-covers}

abbrev any_order : Collation
any_order = record { column_le = λ a b. true; locale_le = λ a b. true }

abbrev format : Format ℕ
format = record { number = λ n. "0"; whole = λ n. "0"; iso_date = λ n. "1970" }

-- everybody has the account of the token
abbrev synced : Person → Person
synced person = record person { eduplus_user_id = some "9" }

-- the sample school, where Ann is known by her account
abbrev db : Database
db = record school {
  people = map (λ row. (row.0, synced row.1)) (filter (λ row. row.0 == "ann") school.people);
}

abbrev item : String → Option BodyItem
item key = some (record {
  widget_key = some key;
  data_endpoint_key = some key;
  query_preset_key = none;
  params = missing;
})

abbrev body : Option BatchBody
body = some (record {
  request_id = some "r1";
  widgets = some (item "exam-score-table" ∷ item "exam-score-trend" ∷ []);
})

abbrev decode : String → Option Routing
decode token = some (record { azp = absent; client_id = text "client"; app_code = text "exams" })

abbrev table : WidgetPayload ℕ
table =
    rows (record { student_name = "Ann"; subject = "Maths"; score = some 9000; rank = some 1 } ∷ [])

abbrev answer : BatchAnswer ℕ
answer = record {
  request_id = "r1";
  results =
      ("exam-score-table", ok table)
      ∷ (
        "exam-score-trend",
        err (record { code = "WIDGET_NOT_AUTHORIZED"; message = "组件或数据端点未获授权" }),
      )
      ∷ [];
}

answered :
    batch hundredths any_order format db "exams" decode verify tenancy body (some "bearer at")
    ≡ ok answer
unfolding batch batch_for results_for collect put_result people_of validate_batch check_request_id
    check_widgets check_items keyed_item widget_demo.Claims.required_text trim chars
    widget_demo.Claims.shown units bearer_token bearer after_mark codes widget_demo.Texts.lower
    verify_access_token of_routing widget_demo.Claims.text_or_none load_credential only_client
    client_matches widget_demo.WidgetAuth.add_match is_active_tenant with_issuer is_truthy of_client
    of_tenant same_type insert item_result is_authorized is_examination_widget is_pair_of
    check_params for_role is_teacher is_staff data_of widget_demo.Results.for_student assert_access
    student_payload last read_results widget_demo.Results.select_exams
    widget_demo.Results.bounded_limit sort shows widget_demo.Exams.is_published
    widget_demo.Results.scores_of widget_demo.Results.exam_result
    widget_demo.Results.sorted_subjects widget_demo.Results.subject_result
    widget_demo.Results.course_name widget_demo.Results.scores_by subject_rank lookup rank_in
    widget_demo.Ranking.competition_ranks widget_demo.Results.values_of value_row
answered = refl

batch-covers_example :
    (b : IsBatch hundredths any_order format db "exams" decode verify tenancy body
      (some "bearer at")
      answer)
    × All
        (λ item.
          (item.widget_key ≡ "__proto__")
          ⊎ (is_some (lookup item.widget_key answer.results) ≡ true))
        b.request.widgets
batch-covers_example =
    batch-covers hundredths any_order format db "exams" decode verify tenancy body
      (some "bearer at") answer answered
