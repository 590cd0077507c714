-- ===== src/WidgetAuth/Refresh.antt =====
-- `refresh` of backend/src/widgets/widget-auth.service.ts.
use widget_demo.Prelude.{
  ℕ, ◌+◌, ◌*◌, String, Bool, false, not, ◌&&◌, Option, none, some, ◌==◌, if◌then◌else◌, or_else,
  HttpError, unauthorized, type_error, Result, ok, err, pure, gets, lift, raise_if, required, ◌>>=◌,
  ◌>>◌,
}
use widget_demo.Table.{string_eq, lookup}
use widget_demo.Crypto.{Crypto}
use widget_demo.Texts.{is_truthy}
use widget_demo.Sorting.{sort}
use widget_demo.Tenancy.{Tenant, Tenancy}
use widget_demo.Sessions.{has_text, is_active_tenant, tenant_of, usable_credential}
use widget_demo.Sessions.SignIn.{endpoint_of}
use widget_demo.WidgetSessions.{
  SessionContext, WidgetAuthorization, WidgetSession, Json, same_authorization, LoadedSession, load,
  rotate,
}
use widget_demo.Claims.{WidgetIdentity, WidgetVerifyContext}
use widget_demo.WidgetRequests.{RefreshBody, validate_refresh_input, bearer_token}
use widget_demo.WidgetAuth.{
  WidgetTokenResponse, WidgetTokens, Client, Action, in_sessions, positive, refresh_after_of,
  verify_context, session_context,
}

abbrev unavailable : {A : Type 0} → Result HttpError A
unavailable = err (unauthorized "Widget refresh session is unavailable")

module _ {Sealed : Type 0} where
  unfoldable pub client_with :
      Tenant → Option (String × Sealed) → Option String → Result HttpError (Client Sealed)
  client_with tenant (some (client_id, secret)) (some issuer) = ok (record {
    context = record { tenant = tenant; client_id = client_id; secret = secret };
    issuer = issuer;
  })
  client_with tenant _ _ = unavailable

  unfoldable pub client_of_tenant :
      Tenancy Sealed → Option (String × Tenant) → Result HttpError (Client Sealed)
  client_of_tenant tenancy none = unavailable
  client_of_tenant tenancy (some (tenant_code, tenant)) =
      if is_active_tenant tenant.status
      then client_with tenant (usable_credential (lookup tenant.id tenancy.credentials))
          (is_truthy tenant.issuer_url)
      else unavailable

  unfoldable pub client_of_session :
      Tenancy Sealed → Option (WidgetSession Sealed) → Result HttpError (Client Sealed)
  client_of_session tenancy none = unavailable
  client_of_session tenancy (some session) =
      client_of_tenant tenancy (tenant_of session.context.tenant_id tenancy)

module _ (json : Json) where
  -- the authorization of `canonicalContext`
  unfoldable pub canonical : WidgetAuthorization → WidgetAuthorization
  canonical a = record {
    widget_keys = sort json.text_le a.widget_keys;
    data_endpoint_keys = sort json.text_le a.data_endpoint_keys;
    endpoint_pairs = sort json.pair_le a.endpoint_pairs;
  }

  -- the JSON texts of two canonical contexts are the same
  unfoldable pub is_same_context : SessionContext → SessionContext → Bool
  is_same_context a b =
      a.tenant_id == b.tenant_id
      && (a.user_id == b.user_id
          && (a.identity_id == b.identity_id
              && (a.identity_type == b.identity_type
                  && (a.app_code == b.app_code
                      && (a.config_snapshot_id == b.config_snapshot_id
                          && (a.scope == b.scope
                              && same_authorization (canonical a.authorization)
                                  (canonical b.authorization)))))))

abbrev pub expiry_of : ℕ → Option ℕ → Option ℕ
expiry_of now none = none
expiry_of now (some seconds) = some (now + seconds * 1000)

-- `exchange` gets the token endpoint, the client's identifier, its secret and the refresh token. The
-- session is loaded at `loaded_at`, and rotated between `rotated` and `later`.
module _ (crypto : Crypto) (json : Json) (app_code : String)
    (exchange : String → String → String → String → Result HttpError WidgetTokens)
    (verify : String → WidgetVerifyContext → Result HttpError WidgetIdentity)
    (loaded_at rotated later : ℕ) (iv : String) where
  module _ (id token : String) (client : Client crypto.Sealed) where
    abbrev pub tenant : Tenant
    tenant = client.context.tenant

    unfoldable pub renew :
        LoadedSession crypto json
        → WidgetTokens
        → ℕ
        → WidgetIdentity
        → Action crypto json WidgetTokenResponse
    renew session tokens expires_in identity =
        raise_if
          (not (
            has_text tenant.eduplus_tenant_id identity.tenant_id
            && is_same_context json (session_context tenant.id identity) session.context))
          (unauthorized "Refreshed widget token context changed")
        >> in_sessions crypto json (
            rotate crypto json rotated later id iv token session.context tokens.access_token
              (or_else tokens.refresh_token session.refresh_token)
              (expiry_of rotated (positive tokens.refresh_expires_in)))
        >> pure (record {
          access_token = tokens.access_token;
          expires_in = expires_in;
          scope = identity.scope;
          refresh_session_id = id;
          refresh_after = refresh_after_of expires_in;
        })

    unfoldable pub refresh_tokens :
        LoadedSession crypto json → Action crypto json WidgetTokenResponse
    refresh_tokens session =
        lift (required (crypto.decrypt "" client.context.secret) type_error) >>= λ secret.
        lift (
          exchange
            (endpoint_of tenant.token_endpoint client.issuer "/protocol/openid-connect/token")
            client.context.client_id secret session.refresh_token)
        >>= λ tokens.
            lift (
              required (positive tokens.expires_in)
                (unauthorized "Widget refresh response is incomplete"))
            >>= λ expires_in.
                lift (verify tokens.access_token (verify_context app_code 0 client))
                >>= renew session tokens expires_in

    unfoldable pub load_session : WidgetIdentity → Action crypto json WidgetTokenResponse
    load_session identity =
        raise_if (not (has_text tenant.eduplus_tenant_id identity.tenant_id))
          (unauthorized "Widget refresh token tenant changed")
        >> in_sessions crypto json
            (load crypto json loaded_at id token (session_context tenant.id identity))
        >>= refresh_tokens

    -- the current token may have expired a minute and a half ago
    unfoldable pub verify_current : Action crypto json WidgetTokenResponse
    verify_current = lift (verify token (verify_context app_code 90 client)) >>= load_session

  unfoldable pub refresh_session : String → String → Action crypto json WidgetTokenResponse
  refresh_session id token =
      gets (λ state. client_of_session state.tenancy (lookup id state.sessions))
      >>= lift
      >>= verify_current id token

  unfoldable pub refresh :
      Option RefreshBody → Option String → Action crypto json WidgetTokenResponse
  refresh body authorization = lift (validate_refresh_input body) >>= λ id.
      lift (bearer_token false authorization) >>= refresh_session id
