-- ===== src/Sessions/Refresh.antt =====
-- The refresh of a session: `getAccessTokenForSession` of backend/src/auth/auth.service.ts. The HTTP
-- exchange and the verifier of tokens are parameters.
use widget_demo.Prelude.{
  ℕ, ◌+◌, ◌*◌, String, Bool, not, Option, none, some, ◌==◌, or_else, HttpError, unauthorized,
  type_error, Result, ok, err, pure, gets, lift, raise, raise_if, ◌>>=◌, ◌>>◌, ◌&&◌, required,
  find?, if◌then◌else◌,
}
use widget_demo.Table.{string_eq, lookup}
use widget_demo.Texts.{is_truthy}
use widget_demo.Crypto.{Crypto}
use widget_demo.Tenancy.{Tenant, Tenancy}
use widget_demo.Sessions.{
  AppSession, VerifiedIdentity, OidcTokenResponse, VerifyContext, Accounts, is_live, tenant_of,
  usable_credential, has_text, put_session, Action,
}
use widget_demo.Sessions.SignIn.{endpoint_of, jwks_uri_of}

-- what a refresh needs: the key of the session, its tenant and its refresh token
pub record Refreshable (Sealed : Type 0) : Type 0 where
  pub key : String
  pub session : AppSession Sealed
  pub tenant : Tenant
  pub refresh_token : Sealed

abbrev refuse : {A : Type 0} → Result HttpError A
refuse = err (unauthorized "Application session cannot be refreshed")

module _ {Sealed : Type 0} where
  unfoldable pub with_refresh_token :
      String → AppSession Sealed → Tenant → Option Sealed → Result HttpError (Refreshable Sealed)
  with_refresh_token key session tenant none = refuse
  with_refresh_token key session tenant (some sealed) =
      ok (record { key = key; session = session; tenant = tenant; refresh_token = sealed })

  unfoldable pub with_tenant :
      ℕ
      → String
      → AppSession Sealed
      → Option (String × Tenant)
      → Result HttpError (Refreshable Sealed)
  with_tenant now key session none = refuse
  with_tenant now key session (some (tenant_code, tenant)) =
      if is_live now session tenant
      then with_refresh_token key session tenant session.refresh_token
      else refuse

  unfoldable pub with_session :
      ℕ
      → Option (String × AppSession Sealed)
      → Tenancy Sealed
      → Result HttpError (Refreshable Sealed)
  with_session now none tenancy = refuse
  with_session now (some (key, session)) tenancy =
      with_tenant now key session (tenant_of session.tenant_id tenancy)

  abbrev pub is_session : String → String × AppSession Sealed → Bool
  is_session id row = row.1.id == id

  -- the session of an identifier; sessions are stored by their tokens' hashes
  unfoldable pub find_refreshable :
      ℕ → String → Accounts Sealed → Result HttpError (Refreshable Sealed)
  find_refreshable now id accounts =
      with_session now (find? (is_session id) accounts.sessions) accounts.tenancy

-- the context of a token is still that of the session
unfoldable pub is_same_context :
    {Sealed : Type 0} → Refreshable Sealed → String → VerifiedIdentity → Bool
is_same_context found client_id identity =
    has_text found.tenant.eduplus_tenant_id identity.tenant_id
    && (identity.client_id == client_id && identity.identity_id == found.session.identity_id)

module _ (crypto : Crypto) (verify : String → VerifyContext → Result HttpError VerifiedIdentity)
    (exchange : String → String → String → String → Result HttpError OidcTokenResponse)
    (iv : String) (now : ℕ) where
  -- the session's row with the new refresh token, or the current one if there is none
  abbrev pub refreshed :
      AppSession crypto.Sealed → OidcTokenResponse → String → AppSession crypto.Sealed
  refreshed session tokens current = record session {
    refresh_token = some (crypto.encrypt iv "" (or_else tokens.refresh_token current));
    expires_at = now + or_else tokens.refresh_expires_in 1800 * 1000;
  }

  unfoldable pub store :
      Refreshable crypto.Sealed
      → String
      → OidcTokenResponse
      → String
      → String
      → VerifiedIdentity
      → Action crypto String
  store found client_id tokens current access_token identity =
      raise_if (not (is_same_context found client_id identity))
        (unauthorized "Refreshed token context changed")
      >> put_session crypto found.key (refreshed found.session tokens current)
      >> pure access_token

  unfoldable pub exchange_token :
      Refreshable crypto.Sealed → String → crypto.Sealed → String → Action crypto String
  exchange_token found client_id sealed_secret issuer =
      lift (required (crypto.decrypt "" found.refresh_token) type_error) >>= λ current.
      lift (required (crypto.decrypt "" sealed_secret) type_error) >>= λ secret.
      lift (
        exchange (endpoint_of found.tenant.token_endpoint issuer "/protocol/openid-connect/token")
          client_id secret current)
      >>= λ tokens.
          lift (
            required (is_truthy tokens.access_token)
              (unauthorized "EduPlus refresh response is incomplete"))
          >>= λ access_token.
              lift (
                verify access_token (record {
                  issuer = issuer;
                  jwks_uri = jwks_uri_of found.tenant issuer;
                  client_id = client_id;
                }))
              >>= store found client_id tokens current access_token

  unfoldable pub with_issuer :
      Refreshable crypto.Sealed
      → Option (String × crypto.Sealed)
      → Option String
      → Action crypto String
  with_issuer found none issuer = raise (unauthorized "Tenant OAuth configuration is unavailable")
  with_issuer found (some (client_id, secret)) none =
      raise (unauthorized "Tenant OAuth configuration is unavailable")
  with_issuer found (some (client_id, secret)) (some issuer) =
      exchange_token found client_id secret issuer

  unfoldable pub access_token_for_session : String → Action crypto String
  access_token_for_session id = gets (find_refreshable now id) >>= lift >>= λ found.
      gets (λ accounts. usable_credential (lookup found.tenant.id accounts.tenancy.credentials))
      >>= λ credential. with_issuer found credential (is_truthy found.tenant.issuer_url)
