-- ===== src/WidgetData/Batch.antt =====
-- `batch` and `validateBatch` of backend/src/widgets/widget-data.service.ts.
use widget_demo.Prelude.{
  chars, String, true, ◌&&◌, ◌||◌, Option, none, some, List, [], ◌∷◌, ◌==◌, ltb, if◌then◌else◌,
  length, filter, HttpError, bad_request, type_error, Result, ok, err, and_then,
}
use widget_demo.Table.{string_eq, Table, insert}
use widget_demo.Texts.{units}
use widget_demo.School.{PersonType, same_type, Person, Database, ActorContext}
use widget_demo.Tenancy.{Tenant, Tenancy}
use widget_demo.Sessions.{has_text}
use widget_demo.Numbers.{Numbers}
use widget_demo.Results.{Collation}
use widget_demo.Claims.{
  Kind, role, inherited, WidgetIdentity, WidgetVerifyContext, contains_key, is_blank,
}
use widget_demo.WidgetRequests.{bearer_token}
use widget_demo.WidgetAuth.Access.{Routing, verify_access_token}
use widget_demo.WidgetData.{
  BodyItem, BatchBody, BatchItem, BatchRequest, Failure, WidgetPayload, Format,
}
use widget_demo.WidgetData.Item.{item_result}

abbrev pub bad_item : {A : Type 0} → Result HttpError A
bad_item = err (bad_request "Invalid or duplicate widget request item")

abbrev pub bad_batch : {A : Type 0} → Result HttpError A
bad_batch = err (bad_request "Invalid widget batch request")

unfoldable pub keyed_item :
    List String → BodyItem → Option String → Option String → Result HttpError BatchItem
keyed_item seen item (some key) (some endpoint) =
    if key == "" || (endpoint == "" || contains_key key seen)
    then bad_item
    else ok (record {
      widget_key = key;
      data_endpoint_key = endpoint;
      query_preset_key = item.query_preset_key;
      params = item.params;
    })
keyed_item seen item _ _ = bad_item

-- the loop over the items, with the keys that have come up
unfoldable pub check_items :
    List String → List (Option BodyItem) → Result HttpError (List BatchItem)
check_items seen [] = ok []
check_items seen (none ∷ items) = bad_item
check_items seen (some body ∷ items) =
    and_then (keyed_item seen body body.widget_key body.data_endpoint_key)
      (λ item. and_then (check_items (item.widget_key ∷ seen) items) (λ rest. ok (item ∷ rest)))

unfoldable pub check_widgets :
    String → Option (List (Option BodyItem)) → Result HttpError BatchRequest
check_widgets request_id none = bad_batch
check_widgets request_id (some widgets) =
    if ltb (length widgets) 1 || ltb 20 (length widgets)
    then bad_batch
    else and_then (check_items [] widgets)
        (λ items. ok (record { request_id = request_id; widgets = items }))

unfoldable pub check_request_id : BatchBody → Option String → Result HttpError BatchRequest
check_request_id body none = bad_batch
check_request_id body (some request_id) =
    if is_blank request_id || ltb 512 (units (chars request_id))
    then bad_batch
    else check_widgets request_id body.widgets

unfoldable pub validate_batch : Option BatchBody → Result HttpError BatchRequest
validate_batch none = bad_batch
validate_batch (some body) = check_request_id body body.request_id

-- the people of the identity; the database refuses a kind that is no person type
unfoldable pub people_of :
    String → WidgetIdentity → Kind → Table String Person → Result HttpError (List (String × Person))
people_of tenant_id identity inherited people = err type_error
people_of tenant_id identity (role type) people = ok (
    filter
      (λ row.
        row.1.tenant_id == tenant_id
        && (has_text row.1.eduplus_user_id identity.identity_id
            && (same_type row.1.type type && row.1.active)))
      people)

abbrev pub Output : Type 0 → Type 0
Output N = Table String (Result Failure (WidgetPayload N))

-- `output[key] = result`: under this key an object has its prototype
unfoldable pub put_result :
    {N : Type 0} → String → Result Failure (WidgetPayload N) → Output N → Output N
put_result key result output = if key == "__proto__" then output else insert key result output

unfoldable pub collect :
    {N : Type 0}
    → (BatchItem → Result Failure (WidgetPayload N))
    → List BatchItem
    → Output N
    → Output N
collect result_of [] output = output
collect result_of (item ∷ items) output =
    collect result_of items (put_result item.widget_key (result_of item) output)

pub record BatchAnswer (N : Type 0) : Type 0 where
  pub request_id : String
  pub results : Output N

module _ (num : Numbers) (order : Collation) (format : Format num.Number) (db : Database) where
  abbrev pub not_synced : Failure
  not_synced = record { code = "IDENTITY_NOT_SYNCED"; message = "当前身份尚未同步到考试应用" }

  abbrev pub actor_of : Tenant → PersonType → String → ActorContext
  actor_of tenant type id = record { tenant_id = tenant.id; person_id = id; identity_type = type }

  -- what a batch gives for the people of the identity: exactly one has to be there
  unfoldable pub results_for :
      List BatchItem → Tenant → WidgetIdentity → Kind → List (String × Person) → Output num.Number
  results_for widgets tenant identity (role type) ((id, person) ∷ []) =
      collect (item_result num order format identity (actor_of tenant type id) person.name db)
        widgets []
  results_for widgets tenant identity kind people = collect (λ item. err not_synced) widgets []

  module _ {Sealed : Type 0} (app_code : String) (decode : String → Option Routing)
      (verify : String → WidgetVerifyContext → Result HttpError WidgetIdentity)
      (tenancy : Tenancy Sealed) where
    unfoldable pub batch_for :
        BatchRequest → Tenant → WidgetIdentity → Result HttpError (BatchAnswer num.Number)
    batch_for request tenant identity =
        and_then (people_of tenant.id identity identity.identity_type db.people) (λ people.
          ok (record {
            request_id = request.request_id;
            results = results_for request.widgets tenant identity identity.identity_type people;
          }))

    unfoldable pub batch :
        Option BatchBody → Option String → Result HttpError (BatchAnswer num.Number)
    batch body authorization = and_then (validate_batch body) (λ request.
        and_then (bearer_token true authorization) (λ token.
          and_then (verify_access_token app_code decode verify tenancy token)
            (λ verified. batch_for request verified.0 verified.1)))
