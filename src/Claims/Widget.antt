-- ===== src/Claims/Widget.antt =====
-- `verifyWidget` of backend/src/integration/eduplus/oidc-verifier.ts.
use widget_demo.Prelude.{
  String, Bool, ◌&&◌, ◌||◌, not, Option, none, some, ◌==◌, if◌then◌else◌, any, HttpError,
  unauthorized, Result, ok, err, is_some, or_else,
}
use widget_demo.Texts.{is_truthy}
use widget_demo.Claims.{
  Payload, Kind, WidgetIdentity, WidgetVerifyContext, ◌or◌, text_or_none, required_text,
  to_person_type, string_array, endpoint_pair_array, has_exact_audience, contains_key, is_empty,
  expected_audience, scalar_of, JwtVerify,
}

-- the identity that the claims give, before they are checked
unfoldable pub widget_identity : Payload → Kind → WidgetIdentity
widget_identity payload kind = record {
  sub = or_else payload.sub "";
  tenant_id = required_text (payload.tenant_id or payload.tid);
  identity_id = required_text (payload.identity_id or (payload.eui or scalar_of payload.sub));
  identity_type = kind;
  client_id = required_text (payload.azp or payload.client_id);
  app_code = required_text payload.app_code;
  config_snapshot_id = required_text payload.config_snapshot_id;
  scope = required_text payload.scope;
  widget_keys = string_array payload.widget_keys;
  data_endpoint_keys = string_array payload.data_endpoint_keys;
  endpoint_pairs = endpoint_pair_array payload.widget_endpoint_pairs;
}

-- the pairs name keys that the token allows
unfoldable pub has_allowed_pairs : WidgetIdentity → Bool
has_allowed_pairs identity = not (
    any
      (λ pair.
        not (contains_key pair.widget_key identity.widget_keys)
        || not (contains_key pair.data_endpoint_key identity.data_endpoint_keys))
      identity.endpoint_pairs)

unfoldable pub is_permitted : WidgetVerifyContext → Payload → WidgetIdentity → Bool
is_permitted context payload identity =
    is_some (is_truthy payload.sub)
    && (is_some (is_truthy payload.jti)
        && (payload.has_expiry
            && (not (identity.tenant_id == "")
                && (not (identity.identity_id == "")
                    && (identity.client_id == context.client_id
                        && (identity.app_code == context.app_code
                            && (has_exact_audience payload.aud (expected_audience context.app_code)
                                && (or_else (text_or_none payload.handoff_type) "" == "widget_data"
                                    && (identity.scope == "widget.data.read"
                                        && (not (is_empty identity.widget_keys)
                                            && (not (is_empty identity.data_endpoint_keys)
                                                && (not (is_empty identity.endpoint_pairs)
                                                    && has_allowed_pairs identity))))))))))))

abbrev pub invalid_widget_token : HttpError
invalid_widget_token = unauthorized "OIDC widget token validation failed"

unfoldable pub check_widget :
    WidgetVerifyContext → Payload → Option Kind → Result HttpError WidgetIdentity
check_widget context payload none = err invalid_widget_token
check_widget context payload (some kind) =
    if is_permitted context payload (widget_identity payload kind)
    then ok (widget_identity payload kind)
    else err invalid_widget_token

unfoldable pub read_widget : WidgetVerifyContext → Option Payload → Result HttpError WidgetIdentity
read_widget context none = err invalid_widget_token
read_widget context (some payload) =
    check_widget context payload (to_person_type (payload.identity_type or payload.eit))

unfoldable pub verify_widget :
    JwtVerify → String → WidgetVerifyContext → Result HttpError WidgetIdentity
verify_widget jwt_verify token context = read_widget context (
    jwt_verify token context.jwks_uri context.issuer (expected_audience context.app_code)
      context.clock_tolerance)
