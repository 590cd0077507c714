-- ===== src/Claims/App.antt =====
-- `verify` of backend/src/integration/eduplus/oidc-verifier.ts.
use widget_demo.Prelude.{
  String, Bool, ◌&&◌, not, Option, none, some, ◌==◌, if◌then◌else◌, HttpError, unauthorized, Result,
  ok, err, is_some, or_else,
}
use widget_demo.Texts.{is_truthy}
use widget_demo.Claims.{
  Payload, Kind, AppIdentity, ◌or◌, shown, text_or_none, to_person_type, scalar_of, JwtVerify,
}

abbrev pub invalid_token : HttpError
invalid_token = unauthorized "OIDC token validation failed"

unfoldable pub app_identity : Payload → Kind → AppIdentity
app_identity payload kind = record {
  sub = or_else payload.sub "";
  tenant_id = shown (payload.tenant_id or payload.tid);
  identity_id = shown (payload.identity_id or (payload.eui or scalar_of payload.sub));
  identity_type = kind;
  client_id = shown (payload.azp or payload.client_id);
  name = text_or_none payload.name;
  email = text_or_none payload.email;
  handoff_type = text_or_none payload.handoff_type;
}

unfoldable pub is_complete : String → Payload → AppIdentity → Bool
is_complete client_id payload identity =
    is_some (is_truthy payload.sub)
    && (not (identity.tenant_id == "")
        && (not (identity.identity_id == "") && identity.client_id == client_id))

unfoldable pub check_app : String → Payload → Option Kind → Result HttpError AppIdentity
check_app client_id payload none = err invalid_token
check_app client_id payload (some kind) =
    if is_complete client_id payload (app_identity payload kind)
    then ok (app_identity payload kind)
    else err invalid_token

unfoldable pub read_app : String → Option Payload → Result HttpError AppIdentity
read_app client_id none = err invalid_token
read_app client_id (some payload) =
    check_app client_id payload (to_person_type (payload.identity_type or payload.eit))

-- `verify` of the token against the issuer, the key address and the client
unfoldable pub verify_app :
    JwtVerify → String → (issuer jwks_uri client_id : String) → Result HttpError AppIdentity
verify_app jwt_verify token issuer jwks_uri client_id =
    read_app client_id (jwt_verify token jwks_uri issuer client_id 0)
