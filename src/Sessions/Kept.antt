-- ===== src/Sessions/Kept.antt =====
-- What a refresh changes.
use widget_demo.Prelude.{
  ℕ, ◌+◌, ◌*◌, ◌<◌, String, true, false, ◌≡◌, refl, ap, Option, none, some, inl, inr, ◌==◌, eq_iff,
  Bool-cases, Option-cases, Result-cases, HttpError, Result, ok, err, is_some, find?, or_else,
  arith,
}
use widget_demo.Table.{string_eq, lookup, insert}
use widget_demo.Texts.{is_truthy}
use widget_demo.Crypto.{Crypto}
use widget_demo.Tenancy.{TenantStatus, active, Tenant}
use widget_demo.Sessions.{
  AppSession, VerifiedIdentity, OidcTokenResponse, VerifyContext, Accounts, usable_credential,
  is_active_tenant, has_text, is_live,
}
use widget_demo.Sessions.SignIn.{endpoint_of, jwks_uri_of}
use widget_demo.Sessions.Refresh.{
  Refreshable, is_session, with_session, with_tenant, with_refresh_token, find_refreshable,
  is_same_context, store, exchange_token, with_issuer, access_token_for_session,
}

is_none-eq : {A : Type 0} (o : Option A) → is_some o ≡ false → o ≡ none
is_none-eq none h = refl
is_none-eq (some a) h = absurd (cc)

is_active-eq : (status : TenantStatus) → is_active_tenant status ≡ true → status ≡ active
unfolding is_active_tenant
is_active-eq status h = ground arith

has_text-eq : (o : Option String) (text : String) → has_text o text ≡ true → o ≡ some text
has_text-eq none text h = absurd (cc)
has_text-eq (some value) text h = ap some ((eq_iff value text).0 h)

module _ (crypto : Crypto) (verify : String → VerifyContext → Result HttpError VerifiedIdentity)
    (exchange : String → String → String → String → Result HttpError OidcTokenResponse)
    (iv : String) (now : ℕ) where
  -- the stored session of the identifier, live at this time, with its active tenant and its refresh
  -- token
  pub record IsLoaded (id : String) (before : Accounts crypto.Sealed)
      (found : Refreshable crypto.Sealed) : Type 0 where
    pub stored : find? (is_session id) before.sessions ≡ some (found.key, found.session)
    pub unrevoked : found.session.revoked_at ≡ none
    pub unexpired : now < found.session.expires_at
    pub code : String
    pub owner :
        find? (λ row. row.1.id == found.session.tenant_id) before.tenancy.tenants
        ≡ some (code, found.tenant)
    pub is_active : found.tenant.status ≡ active
    pub has_refresh_token : found.session.refresh_token ≡ some found.refresh_token

  -- the tenant's client exchanged the session's refresh token for an access token, whose verified
  -- identity has the session's tenant, client and identity
  pub record IsRenewal (before : Accounts crypto.Sealed) (found : Refreshable crypto.Sealed)
      (access_token : String) (renewed : AppSession crypto.Sealed) : Type 0 where
    pub client_id : String
    pub sealed_secret : crypto.Sealed
    pub credential :
        usable_credential (lookup found.tenant.id before.tenancy.credentials)
        ≡ some (client_id, sealed_secret)
    pub secret : String
    pub opened : crypto.decrypt "" sealed_secret ≡ some secret
    pub current : String
    pub opened_token : crypto.decrypt "" found.refresh_token ≡ some current
    pub issuer : String
    pub issued : is_truthy found.tenant.issuer_url ≡ some issuer
    pub tokens : OidcTokenResponse
    pub exchanged :
        exchange
          (endpoint_of found.tenant.token_endpoint issuer "/protocol/openid-connect/token")
          client_id
          secret
          current
        ≡ ok tokens
    pub given : is_truthy tokens.access_token ≡ some access_token
    pub identity : VerifiedIdentity
    pub verified :
        verify access_token (record {
          issuer = issuer;
          jwks_uri = jwks_uri_of found.tenant issuer;
          client_id = client_id;
        })
        ≡ ok identity
    pub same_tenant : found.tenant.eduplus_tenant_id ≡ some identity.tenant_id
    pub same_client : identity.client_id ≡ client_id
    pub same_identity : identity.identity_id ≡ found.session.identity_id
    pub is_renewed : renewed ≡ record found.session {
      refresh_token = some (crypto.encrypt iv "" (or_else tokens.refresh_token current));
      expires_at = now + or_else tokens.refresh_expires_in 1800 * 1000;
    }

  -- how a refresh ends: with an exception and no change, or with an access token and the session's row
  -- renewed
  pub data IsRefreshed (id : String) (before : Accounts crypto.Sealed)
      : Result HttpError String × Accounts crypto.Sealed → Type 0 where
    raised : (why : HttpError) → IsRefreshed id before (err why, before)
    returned :
        (found : Refreshable crypto.Sealed) (access_token : String)
        (renewed : AppSession crypto.Sealed)
        → IsLoaded id before found
        → IsRenewal before found access_token renewed
        → IsRefreshed id before
            (ok access_token, record before { sessions = insert found.key renewed before.sessions })

  abbrev Given :
      String
      → AppSession crypto.Sealed
      → Tenant
      → Option crypto.Sealed
      → Refreshable crypto.Sealed
      → Type 0
  Given key session tenant token found =
      (found.key ≡ key)
      × (found.session ≡ session)
      × (found.tenant ≡ tenant)
      × (token ≡ some found.refresh_token)

  with_refresh_token-Given :
      (key : String) (session : AppSession crypto.Sealed) (tenant : Tenant)
      (token : Option crypto.Sealed) (found : Refreshable crypto.Sealed)
      → with_refresh_token key session tenant token ≡ ok found
      → Given key session tenant token found
  unfolding with_refresh_token
  with_refresh_token-Given key session tenant none found h = absurd (cc)
  with_refresh_token-Given key session tenant (some token) found h = (cc, cc, cc, cc)

  find_refreshable-IsLoaded :
      (id : String) (before : Accounts crypto.Sealed) (found : Refreshable crypto.Sealed)
      → find_refreshable now id before ≡ ok found
      → IsLoaded id before found
  unfolding find_refreshable with_session with_tenant is_live is_active_tenant
  find_refreshable-IsLoaded id before found h =
      elim (Option-cases (find? (is_session id) before.sessions)) [
        | inl missing ↦ absurd (cc (rw missing at h))
        | inr ((key, session), a) ↦
            elim (Option-cases
              (find? (λ row. row.1.id == session.tenant_id) before.tenancy.tenants)) [
                | inl missing ↦ absurd (cc (rw (a, missing) at h))
                | inr ((code, tenant), b) ↦ elim (Bool-cases (is_live now session tenant)) [
                  | inr dead ↦ absurd (cc (rw (a, b, dead) at h))
                  | inl live ↦
                      let (k, s, t, d) =
                        with_refresh_token-Given key session tenant session.refresh_token found
                          (rw (a, b, live) at h) in
                      record {
                        stored = rw (k, s) a;
                        unrevoked = rw s (is_none-eq session.revoked_at (ground (arith, live)));
                        unexpired = rw s (ground (arith, live));
                        code = code;
                        owner = rw (s, t) b;
                        is_active = rw t (is_active-eq tenant.status (ground (arith, live)));
                        has_refresh_token = rw s d;
                      }
                ]
              ]
      ]

  module _ (id : String) (before : Accounts crypto.Sealed) (found : Refreshable crypto.Sealed)
      (is_loaded : IsLoaded id before found) where
    module _ (client_id : String) (sealed_secret : crypto.Sealed)
        (credential : usable_credential (lookup found.tenant.id before.tenancy.credentials)
          ≡ some (client_id, sealed_secret))
        (issuer : String) (issued : is_truthy found.tenant.issuer_url ≡ some issuer) where
      abbrev asked : VerifyContext
      asked = record {
        issuer = issuer;
        jwks_uri = jwks_uri_of found.tenant issuer;
        client_id = client_id;
      }

      store-IsRefreshed :
          (secret current : String) (tokens : OidcTokenResponse) (access_token : String)
          (identity : VerifiedIdentity)
          → crypto.decrypt "" found.refresh_token ≡ some current
          → crypto.decrypt "" sealed_secret ≡ some secret
          → exchange
              (endpoint_of found.tenant.token_endpoint issuer "/protocol/openid-connect/token")
              client_id
              secret
              current
            ≡ ok tokens
          → is_truthy tokens.access_token ≡ some access_token
          → verify access_token asked ≡ ok identity
          → IsRefreshed id before (
              store crypto verify exchange iv now found client_id tokens current access_token
                identity before)
      unfolding store is_same_context
      store-IsRefreshed secret current tokens access_token identity a b c d e =
          elim (Bool-cases (has_text found.tenant.eduplus_tenant_id identity.tenant_id)) [
            | inr other ↦ rw other (IsRefreshed.raised _)
            | inl tenant ↦ elim (Bool-cases (identity.client_id == client_id)) [
              | inr other ↦ rw (tenant, other) (IsRefreshed.raised _)
              | inl client ↦ elim (Bool-cases (identity.identity_id == found.session.identity_id)) [
                | inr other ↦ rw (tenant, client, other) (IsRefreshed.raised _)
                | inl person ↦
                    rw (tenant, client, person)
                      (IsRefreshed.returned found access_token _ is_loaded (record {
                        client_id = client_id;
                        sealed_secret = sealed_secret;
                        credential = credential;
                        secret = secret;
                        opened = b;
                        current = current;
                        opened_token = a;
                        issuer = issuer;
                        issued = issued;
                        tokens = tokens;
                        exchanged = c;
                        given = d;
                        identity = identity;
                        verified = e;
                        same_tenant = has_text-eq _ _ tenant;
                        same_client = (eq_iff _ _).0 client;
                        same_identity = (eq_iff _ _).0 person;
                        is_renewed = refl;
                      }))
              ]
            ]
          ]

      exchange_token-IsRefreshed :
          IsRefreshed id before (
            exchange_token crypto verify exchange iv now found client_id sealed_secret issuer
              before)
      unfolding exchange_token
      exchange_token-IsRefreshed = elim (Option-cases (crypto.decrypt "" found.refresh_token)) [
        | inl missing ↦ rw missing (IsRefreshed.raised _)
        | inr (current, a) ↦ elim (Option-cases (crypto.decrypt "" sealed_secret)) [
          | inl missing ↦ rw (a, missing) (IsRefreshed.raised _)
          | inr (secret, b) ↦
              elim (Result-cases (
                exchange
                  (endpoint_of found.tenant.token_endpoint issuer "/protocol/openid-connect/token")
                  client_id secret current)) [
                    | inl (why, c) ↦ rw (a, b, c) (IsRefreshed.raised _)
                    | inr (tokens, c) ↦ elim (Option-cases (is_truthy tokens.access_token)) [
                      | inl missing ↦ rw (a, b, c, missing) (IsRefreshed.raised _)
                      | inr (access_token, d) ↦ elim (Result-cases (verify access_token asked)) [
                        | inl (why, e) ↦ rw (a, b, c, d, e) (IsRefreshed.raised _)
                        | inr (identity, e) ↦
                            rw (a, b, c, d, e)
                              (store-IsRefreshed secret current tokens access_token identity a b c d
                                e)
                      ]
                    ]
                  ]
        ]
      ]

    with_issuer-IsRefreshed :
        (credential : Option (String × crypto.Sealed)) (issuer : Option String)
        → usable_credential (lookup found.tenant.id before.tenancy.credentials) ≡ credential
        → is_truthy found.tenant.issuer_url ≡ issuer
        → IsRefreshed id before
            (with_issuer crypto verify exchange iv now found credential issuer before)
    unfolding with_issuer
    with_issuer-IsRefreshed none issuer a b = IsRefreshed.raised _
    with_issuer-IsRefreshed (some (client_id, secret)) none a b = IsRefreshed.raised _
    with_issuer-IsRefreshed (some (client_id, secret)) (some issuer) a b =
        exchange_token-IsRefreshed client_id secret a issuer b

  -- `getAccessTokenForSession` either raises and changes nothing, or it has found the session
  -- unrevoked, unexpired and of an active tenant, exchanged its refresh token as the tenant's client,
  -- and returns an access token whose verified identity has the session's tenant, that client and the
  -- session's identity; then nothing has changed but the session's refresh token, which is the new one
  -- if there is one, and its expiry.
  pub access_token_for_session-IsRefreshed :
      (id : String) (before : Accounts crypto.Sealed)
      → IsRefreshed id before (access_token_for_session crypto verify exchange iv now id before)
  unfolding access_token_for_session
  access_token_for_session-IsRefreshed id before =
      elim (Result-cases (find_refreshable now id before)) [
        | inl (why, e) ↦ rw e (IsRefreshed.raised why)
        | inr (found, e) ↦ rw e (
            with_issuer-IsRefreshed id before found (find_refreshable-IsLoaded id before found e)
              (usable_credential (lookup found.tenant.id before.tenancy.credentials))
              (is_truthy found.tenant.issuer_url) refl refl)
      ]
