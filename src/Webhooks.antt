-- ===== src/Webhooks.antt =====
-- The payload of a webhook, as backend/src/subscriptions/subscriptions.service.ts reads it.
use text.Mathlib.TextBridge.{of_list}
use widget_demo.Prelude.{
  String, Option, none, some, ◌==◌, or_else, if◌then◌else◌, HttpError, bad_request, type_error,
  Result, ok, err, chars,
}
use widget_demo.Texts.{is_truthy, drop_suffix}

pub record OauthClient : Type 0 where
  pub client_id : Option String
  pub client_secret : Option String
  pub auth_server_url : Option String
  pub authorization_endpoint : Option String
  pub token_endpoint : Option String
  pub jwks_uri : Option String

pub record Credential : Type 0 where
  pub client_id : Option String
  pub new_secret : Option String

-- What the code reads of the JSON object: the first three are `none` if they are no strings, and
-- `tenant_id` is `String(payload.tenant.id)`. The other optional properties are texts or absent.
pub record Payload : Type 0 where
  pub event : Option String
  pub event_id : Option String
  pub tenant_code : Option String
  pub tenant_id : String
  pub tenant_name : String
  pub oauth_client : Option OauthClient
  pub credential : Option Credential

-- what `JSON.parse` returns
pub data Json : Type 0 where
  null : Json
  value : Payload → Json

-- a payload that has passed `parsePayload`
pub record WebhookPayload : Type 0 where
  pub event : String
  pub event_id : String
  pub code : String
  pub rest : Payload

unfoldable pub check_payload : Payload → Result HttpError WebhookPayload
check_payload payload = elim payload.event [
  | none ↦ err (bad_request "Webhook payload is missing required fields")
  | some event ↦ elim payload.event_id [
    | none ↦ err (bad_request "Webhook payload is missing required fields")
    | some event_id ↦ elim payload.tenant_code [
      | none ↦ err (bad_request "Webhook payload is missing required fields")
      | some code ↦
          if code == ""
          then err (bad_request "Webhook payload is missing required fields")
          else ok (record { event = event; event_id = event_id; code = code; rest = payload })
    ]
  ]
]

-- of `JSON.parse`'s result, if it returns; reading a property of `null` is a `TypeError`
unfoldable pub parse_payload : Option Json → Result HttpError WebhookPayload
parse_payload none = err (bad_request "Webhook body must be valid JSON")
parse_payload (some null) = err type_error
parse_payload (some (value payload)) = check_payload payload

-- `issuerFromEndpoint`, the suffix given
unfoldable pub issuer_from_endpoint : String → Option String → Option String
issuer_from_endpoint suffix none = none
issuer_from_endpoint suffix (some endpoint) =
    if endpoint == ""
    then none
    else elim (drop_suffix (chars suffix)
        (or_else (drop_suffix (chars "/") (chars endpoint)) (chars endpoint))) [
          | none ↦ none
          | some issuer ↦ some (of_list issuer)
        ]

abbrev pub first_of : {A : Type 0} → Option A → Option A → Option A
first_of none o = o
first_of (some a) o = some a

unfoldable pub issuer_of : OauthClient → Option String
issuer_of oauth =
    first_of (issuer_from_endpoint "/protocol/openid-connect/token" oauth.token_endpoint) (
      first_of (issuer_from_endpoint "/protocol/openid-connect/certs" oauth.jwks_uri) (
        first_of (issuer_from_endpoint "/protocol/openid-connect/auth" oauth.authorization_endpoint)
          oauth.auth_server_url))

-- `!oauth?.client_id || !oauth.client_secret`, and both if they are there
unfoldable pub oauth_secret : Option OauthClient → Option (OauthClient × String × String)
oauth_secret none = none
oauth_secret (some oauth) = elim (is_truthy oauth.client_id) [
  | none ↦ none
  | some client_id ↦ elim (is_truthy oauth.client_secret) [
    | none ↦ none
    | some secret ↦ some (oauth, client_id, secret)
  ]
]

unfoldable pub rotated_secret : Option Credential → Option (String × String)
rotated_secret none = none
rotated_secret (some credential) = elim (is_truthy credential.client_id) [
  | none ↦ none
  | some client_id ↦ elim (is_truthy credential.new_secret) [
    | none ↦ none
    | some secret ↦ some (client_id, secret)
  ]
]
