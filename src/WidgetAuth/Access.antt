-- ===== src/WidgetAuth/Access.antt =====
-- `verifyWidgetAccessToken` of backend/src/widgets/widget-auth.service.ts. `decode`, which reads a
-- token without checking it, and the verifier are parameters.
use widget_demo.Prelude.{
  String, not, ◌&&◌, Option, none, some, ◌==◌, if◌then◌else◌, HttpError, unauthorized, Result, ok,
  err, and_then, or_else,
}
use widget_demo.Tenancy.{Tenant, Tenancy}
use widget_demo.Sessions.{has_text}
use widget_demo.Claims.{Scalar, ◌or◌, text_or_none, WidgetIdentity, WidgetVerifyContext}
use widget_demo.WidgetAuth.{Client, load_credential, verify_context}

-- what `decodeJwt` gives of the claims that route a token
pub record Routing : Type 0 where
  pub azp : Scalar
  pub client_id : Scalar
  pub app_code : Scalar

abbrev pub text_of : Scalar → String
text_of value = or_else (text_or_none value) ""

module _ {Sealed : Type 0} (app_code : String) (decode : String → Option Routing)
    (verify : String → WidgetVerifyContext → Result HttpError WidgetIdentity)
    (tenancy : Tenancy Sealed) (token : String) where
  unfoldable pub of_tenant :
      Client Sealed → WidgetIdentity → Result HttpError (Tenant × WidgetIdentity)
  of_tenant client identity =
      if has_text client.context.tenant.eduplus_tenant_id identity.tenant_id
      then ok (client.context.tenant, identity)
      else err (unauthorized "Widget access token tenant does not match")

  unfoldable pub of_client : Client Sealed → Result HttpError (Tenant × WidgetIdentity)
  of_client client = and_then (verify token (verify_context app_code 0 client)) (of_tenant client)

  unfoldable pub of_routing : Option Routing → Result HttpError (Tenant × WidgetIdentity)
  of_routing none = err (unauthorized "Widget access token is invalid")
  of_routing (some routing) =
      if not (text_of (routing.azp or routing.client_id) == "")
        && text_of routing.app_code == app_code
      then and_then (load_credential (text_of (routing.azp or routing.client_id)) tenancy) of_client
      else err (unauthorized "Widget access token routing claims are invalid")

  unfoldable pub verify_access_token : Result HttpError (Tenant × WidgetIdentity)
  verify_access_token = of_routing (decode token)
