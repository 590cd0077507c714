-- ===== src/WidgetRequests.antt =====
-- The requests to backend/src/widgets/widget-auth.service.ts and how they are checked.
use widget_demo.Prelude.{
  chars, String, Bool, true, false, ◌||◌, Option, none, some, ◌==◌, ltb, if◌then◌else◌, HttpError,
  bad_request, unauthorized, Result, ok, err,
}
use widget_demo.Texts.{units, bearer}
use widget_demo.Claims.{is_blank}

-- A request's body: a property is `none` if it is no text, and `has_others` says whether there are
-- more than the known ones. A body that JavaScript takes for false is `none`.
pub record AuthBody : Type 0 where
  pub grant_type : Option String
  pub client_id : Option String
  pub handoff_code : Option String
  pub idempotency_key : Option String
  pub has_others : Bool

pub record RefreshBody : Type 0 where
  pub grant_type : Option String
  pub refresh_session_id : Option String
  pub request_id : Option String
  pub has_others : Bool

-- a body that has passed `validateAuthInput`
pub record AuthRequest : Type 0 where
  pub client_id : String
  pub handoff_code : String
  pub idempotency_key : String

-- a text that is given and not too long
unfoldable pub good_text : Option String → Option String
good_text none = none
good_text (some value) =
    if is_blank value || ltb 512 (units (chars value)) then none else some value

abbrev pub has_grant : Option String → String → Bool
has_grant none grant = false
has_grant (some value) grant = value == grant

unfoldable pub read_auth :
    Bool → (client_id handoff_code idempotency_key : Option String) → Result HttpError AuthRequest
read_auth has_others none code key = err (bad_request "client_id is required")
read_auth has_others (some client_id) none key = err (bad_request "handoff_code is required")
read_auth has_others (some client_id) (some code) none =
    err (bad_request "idempotency_key is required")
read_auth true (some client_id) (some code) (some key) =
    err (bad_request "Widget auth request contains unsupported fields")
read_auth false (some client_id) (some code) (some key) =
    ok (record { client_id = client_id; handoff_code = code; idempotency_key = key })

unfoldable pub validate_auth_input : Option AuthBody → Result HttpError AuthRequest
validate_auth_input none = err (bad_request "grant_type must be eduplus_widget_handoff")
validate_auth_input (some body) =
    if has_grant body.grant_type "eduplus_widget_handoff"
    then read_auth body.has_others (good_text body.client_id) (good_text body.handoff_code)
        (good_text body.idempotency_key)
    else err (bad_request "grant_type must be eduplus_widget_handoff")

-- the identifier of the session
unfoldable pub read_refresh : Bool → Option String → Option String → Result HttpError String
read_refresh has_others none request_id = err (bad_request "refresh_session_id is required")
read_refresh has_others (some id) none = err (bad_request "request_id is required")
read_refresh true (some id) (some request_id) =
    err (bad_request "Widget refresh request contains unsupported fields")
read_refresh false (some id) (some request_id) = ok id

unfoldable pub validate_refresh_input : Option RefreshBody → Result HttpError String
validate_refresh_input none = err (bad_request "grant_type must be eduplus_widget_token_refresh")
validate_refresh_input (some body) =
    if has_grant body.grant_type "eduplus_widget_token_refresh"
    then read_refresh body.has_others (good_text body.refresh_session_id)
        (good_text body.request_id)
    else err (bad_request "grant_type must be eduplus_widget_token_refresh")

abbrev bearer_of : Option String → Result HttpError String
bearer_of none = err (unauthorized "Bearer access token is required")
bearer_of (some token) = ok token

-- `/^Bearer ([^\s]+)$/`, with the flag `i` or without
unfoldable pub bearer_token : Bool → Option String → Result HttpError String
bearer_token any_case none = err (unauthorized "Bearer access token is required")
bearer_token any_case (some header) = bearer_of (bearer any_case (chars header))
