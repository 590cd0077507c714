-- ===== src/Sessions/SignIn.antt =====
-- Signing in: `acceptHandoff`, `acceptAuthorizationCode` and `acceptOidcTokenResponse` of
-- backend/src/auth/auth.service.ts. The HTTP exchange of a code and the verifier of tokens are
-- parameters.
use Prim.Native.String.{◌++◌ as concat}
use package.text.Mathlib.TextBridge.{of_list}
use widget_demo.Prelude.{
  chars, ℕ, ◌+◌, ◌*◌, String, Bool, true, false, not, Option, none, some, List, [], ◌∷◌, ◌==◌,
  or_else, upsert_where, find?, HttpError, unauthorized, not_found, type_error, Result, pure, gets,
  lift, raise, modify, raise_if, ◌>>=◌, ◌>>◌, ◌&&◌, required,
}
use widget_demo.Texts.{is_truthy, drop_suffix}
use widget_demo.Crypto.{Crypto}
use widget_demo.School.{Person}
use widget_demo.Tenancy.{Tenant}
use widget_demo.Sessions.{
  AppSession, VerifiedIdentity, OidcTokenResponse, VerifyContext, TenantContext, fits_context,
  students_of, put_session, Action, load_tenant_context,
}

abbrev pub without_slash : String → String
without_slash url = of_list (or_else (drop_suffix (chars "/") (chars url)) (chars url))

-- an endpoint of the tenant, or the one below its issuer
abbrev pub endpoint_of : Option String → String → String → String
endpoint_of endpoint issuer path = or_else endpoint (concat (without_slash issuer) path)

abbrev pub jwks_uri_of : Tenant → String → String
jwks_uri_of tenant issuer = endpoint_of tenant.jwks_uri issuer "/protocol/openid-connect/certs"

abbrev pub first_email : Option String → Option String → Option String
first_email none old = old
first_email (some email) old = some email

module _ (crypto : Crypto) (verify : String → VerifyContext → Result HttpError VerifiedIdentity)
    (new_id iv raw_session_token : String) (now : ℕ) where
  abbrev pub is_subject : String → VerifiedIdentity → String × Person → Bool
  is_subject tenant_id identity row =
      row.1.tenant_id == tenant_id && row.1.eduplus_id == identity.sub

  abbrev pub signed_person : String → VerifiedIdentity → Person
  signed_person tenant_id identity = record {
    tenant_id = tenant_id;
    eduplus_id = identity.sub;
    eduplus_user_id = none;
    type = identity.identity_type;
    name = or_else identity.name identity.sub;
    email = identity.email;
    active = true;
  }

  -- `email: undefined` leaves the column as it is
  abbrev pub updated_person : VerifiedIdentity → Person → Person
  updated_person identity row = record row {
    type = identity.identity_type;
    name = or_else identity.name identity.sub;
    email = first_email identity.email row.email;
    active = true;
  }

  abbrev pub row_id : Option (String × Person) → String
  row_id none = new_id
  row_id (some (id, row)) = id

  -- `person.upsert`: the identifier of the row
  unfoldable pub upsert_person : String → VerifiedIdentity → Action crypto String
  upsert_person tenant_id identity =
      gets (λ accounts. row_id (find? (is_subject tenant_id identity) accounts.people)) >>= λ id.
      modify (λ accounts. record accounts {
        people =
            upsert_where (is_subject tenant_id identity) (new_id, signed_person tenant_id identity)
              (λ row. (row.0, updated_person identity row.1)) accounts.people;
      })
      >> pure id

  unfoldable pub choose_person :
      String → VerifiedIdentity → List (String × Person) → Action crypto String
  choose_person tenant_id identity [] = upsert_person tenant_id identity
  choose_person tenant_id identity ((id, row) ∷ []) = pure id
  choose_person tenant_id identity (_ ∷ _ ∷ _) = raise (unauthorized "Ambiguous student identity")

  abbrev pub new_session :
      TenantContext crypto.Sealed
      → OidcTokenResponse
      → VerifiedIdentity
      → String
      → String
      → AppSession crypto.Sealed
  new_session context tokens identity refresh_token person_id = record {
    id = new_id;
    tenant_id = context.tenant.id;
    person_id = some person_id;
    identity_id = identity.identity_id;
    identity_type = identity.identity_type;
    refresh_token = some (crypto.encrypt iv "" refresh_token);
    expires_at = now + or_else tokens.refresh_expires_in 1800 * 1000;
    revoked_at = none;
  }

  unfoldable pub open_session :
      TenantContext crypto.Sealed
      → Bool
      → OidcTokenResponse
      → String
      → VerifiedIdentity
      → Action crypto String
  open_session context require_handoff tokens refresh_token identity =
      raise_if (not (fits_context context require_handoff tokens identity))
        (unauthorized "OIDC token context does not match the selected tenant")
      >> gets (λ accounts. students_of context.tenant.id identity accounts.people)
      >>= choose_person context.tenant.id identity
      >>= λ person_id.
          put_session crypto (crypto.hash raw_session_token)
            (new_session context tokens identity refresh_token person_id)
          >> pure raw_session_token

  unfoldable pub verify_token :
      TenantContext crypto.Sealed
      → Bool
      → OidcTokenResponse
      → String
      → String
      → Option String
      → Action crypto String
  verify_token context require_handoff tokens access_token refresh_token none =
      raise (unauthorized "Tenant OIDC verifier is not configured")
  verify_token context require_handoff tokens access_token refresh_token (some issuer) =
      lift (
        required (is_truthy (some (jwks_uri_of context.tenant issuer)))
          (unauthorized "Tenant OIDC verifier is not configured"))
      >>= λ jwks_uri.
          lift (
            verify access_token
              (record { issuer = issuer; jwks_uri = jwks_uri; client_id = context.client_id }))
          >>= open_session context require_handoff tokens refresh_token

  unfoldable pub accept_tokens :
      TenantContext crypto.Sealed → Bool → OidcTokenResponse → Action crypto String
  accept_tokens context require_handoff tokens =
      lift (
        required (is_truthy tokens.access_token) (unauthorized "OIDC token response is incomplete"))
      >>= λ access_token.
          lift (
            required (is_truthy tokens.refresh_token)
              (unauthorized "OIDC token response is incomplete"))
          >>= λ refresh_token.
              verify_token context require_handoff tokens access_token refresh_token
                (is_truthy context.tenant.issuer_url)

  -- `exchange` of the client's identifier, its secret and the code
  unfoldable pub accept_handoff :
      (String → String → String → Result HttpError OidcTokenResponse)
      → String
      → String
      → Action crypto String
  accept_handoff exchange tenant_code code =
      gets (λ accounts. load_tenant_context crypto tenant_code accounts.tenancy)
      >>= lift
      >>= λ context. lift (required (crypto.decrypt "" context.secret) type_error) >>= λ secret.
          lift (exchange context.client_id secret code) >>= accept_tokens context true

  -- `exchange` of the token endpoint, the client's identifier, its secret and the code
  unfoldable pub accept_authorization_code :
      (String → String → String → String → Result HttpError OidcTokenResponse)
      → String
      → String
      → Action crypto String
  accept_authorization_code exchange tenant_code code =
      gets (λ accounts. load_tenant_context crypto tenant_code accounts.tenancy)
      >>= lift
      >>= λ context.
          lift (
            required (is_truthy context.tenant.issuer_url)
              (not_found "Tenant OIDC token endpoint is not configured"))
          >>= λ issuer.
              lift (
                required
                  (is_truthy (
                    some (
                      endpoint_of context.tenant.token_endpoint issuer
                        "/protocol/openid-connect/token")))
                  (not_found "Tenant OIDC token endpoint is not configured"))
              >>= λ endpoint.
                  lift (required (crypto.decrypt "" context.secret) type_error) >>= λ secret.
                  lift (exchange endpoint context.client_id secret code)
                  >>= accept_tokens context false
