-- ===== src/WidgetAuth/Renewed.antt =====
-- How `refresh` ends.
use widget_demo.Prelude.{
  ℕ, String, true, false, ◌≡◌, refl, ap, inl, inr, Option, or_else, HttpError, Result, ok, err,
  ◌==◌, leb, is_some, Bool-cases, Option-cases, Result-cases, Outcome-cases,
}
use widget_demo.Table.{string_eq, lookup}
use widget_demo.Crypto.{Crypto}
use widget_demo.Sessions.{has_text}
use widget_demo.Sessions.SignIn.{endpoint_of}
use widget_demo.WidgetSessions.{
  aad_for, SessionContext, Json, Sessions, context_of, context_matches, assert_context,
  assert_usable, LoadedSession, load,
}
use widget_demo.WidgetSessions.Rotation.{IsRotated, rotate-cases}
use widget_demo.Claims.{WidgetIdentity, WidgetVerifyContext}
use widget_demo.WidgetRequests.{RefreshBody, validate_refresh_input, bearer_token}
use widget_demo.WidgetAuth.{
  WidgetTokenResponse, WidgetTokens, Client, WidgetState, positive, verify_context, session_context,
}
use widget_demo.WidgetAuth.Refresh.{
  client_of_session, is_same_context, expiry_of, renew, refresh_tokens, load_session,
  verify_current, refresh_session, refresh,
}

module _ (crypto : Crypto) (json : Json) where
  -- loading a session changes nothing
  load-keeps :
      (now : ℕ) (id token : String) (expected : SessionContext) (db : Sessions crypto json)
      → (load crypto json now id token expected db).1 ≡ db
  unfolding load assert_usable assert_context
  load-keeps now id token expected db = elim (Option-cases (lookup id db)) [
    | inl missing ↦ rw missing refl
    | inr (row, found) ↦ elim (Bool-cases (is_some row.revoked_at)) [
      | inl gone ↦ rw (found, gone) refl
      | inr kept ↦ elim (Bool-cases (leb row.expires_at now)) [
        | inl expired ↦ rw (found, kept, expired) refl
        | inr fresh ↦ elim (Bool-cases (row.access_token_hash == crypto.hash token)) [
          | inr other ↦ rw (found, kept, fresh, other) refl
          | inl same ↦
              elim (Bool-cases
                (context_matches crypto json (context_of crypto json row) expected)) [
                  | inr wrong ↦ rw (found, kept, fresh, same, wrong) refl
                  | inl matches ↦
                      elim (Option-cases (
                        crypto.decrypt (aad_for crypto json id (context_of crypto json row))
                          row.refresh_token)) [
                            | inl broken ↦ rw (found, kept, fresh, same, matches, broken) refl
                            | inr (text, opened) ↦
                                rw (found, kept, fresh, same, matches, opened) refl
                          ]
                ]
        ]
      ]
    ]
  ]

module _ (crypto : Crypto) (json : Json) (app_code : String)
    (exchange : String → String → String → String → Result HttpError WidgetTokens)
    (verify : String → WidgetVerifyContext → Result HttpError WidgetIdentity)
    (loaded_at rotated later : ℕ) (iv : String) (before : WidgetState crypto json)
    (id token : String) where
  -- the session was loaded with the token of an identity, its tokens were exchanged, and the new
  -- access token has an identity with the session's context
  pub record IsRenewed (client : Client crypto.Sealed) (session : LoadedSession crypto json)
      (sessions : Sessions crypto json) (response : WidgetTokenResponse) : Type 0 where
    pub current : WidgetIdentity
    pub is_current : verify token (verify_context app_code 90 client) ≡ ok current
    pub tenant_of_current :
        has_text client.context.tenant.eduplus_tenant_id current.tenant_id ≡ true
    pub loads :
        (load crypto json loaded_at id token
          (session_context client.context.tenant.id current)
          before.sessions).0
        ≡ ok session
    pub secret : String
    pub tokens : WidgetTokens
    pub exchanged :
        exchange
          (endpoint_of client.context.tenant.token_endpoint client.issuer
            "/protocol/openid-connect/token")
          client.context.client_id
          secret
          session.refresh_token
        ≡ ok tokens
    pub identity : WidgetIdentity
    pub is_verified : verify tokens.access_token (verify_context app_code 0 client) ≡ ok identity
    pub tenant_of_identity :
        has_text client.context.tenant.eduplus_tenant_id identity.tenant_id ≡ true
    pub same :
        is_same_context json (session_context client.context.tenant.id identity) session.context
        ≡ true
    pub is_rotated :
        IsRotated crypto json rotated later id iv token session.context tokens.access_token
          (or_else tokens.refresh_token session.refresh_token)
          (expiry_of rotated (positive tokens.refresh_expires_in))
          before.sessions
          sessions
    pub access_token : response.access_token ≡ tokens.access_token
    pub refresh_session : response.refresh_session_id ≡ id

  pub data IsEnded : Result HttpError WidgetTokenResponse × WidgetState crypto json → Type 0 where
    raised : (why : HttpError) → IsEnded (err why, before)
    renewed :
        (client : Client crypto.Sealed) (session : LoadedSession crypto json)
        (sessions : Sessions crypto json) (response : WidgetTokenResponse)
        → client_of_session before.tenancy (lookup id before.sessions) ≡ ok client
        → IsRenewed client session sessions response
        → IsEnded (ok response, record before { sessions = sessions })

  module _ (client : Client crypto.Sealed)
      (known : client_of_session before.tenancy (lookup id before.sessions) ≡ ok client) where
    module _ (current : WidgetIdentity)
        (is_current : verify token (verify_context app_code 90 client) ≡ ok current)
        (tenant_of_current : has_text client.context.tenant.eduplus_tenant_id current.tenant_id
          ≡ true)
        (session : LoadedSession crypto json)
        (loads : (load crypto json loaded_at id token
            (session_context client.context.tenant.id current)
            before.sessions).0
          ≡ ok session) where
      renew-IsEnded :
          (secret : String) (tokens : WidgetTokens) (expires_in : ℕ) (identity : WidgetIdentity)
          → exchange
              (endpoint_of client.context.tenant.token_endpoint client.issuer
                "/protocol/openid-connect/token")
              client.context.client_id
              secret
              session.refresh_token
            ≡ ok tokens
          → verify tokens.access_token (verify_context app_code 0 client) ≡ ok identity
          → IsEnded (
              renew crypto json app_code exchange verify loaded_at rotated later iv id token client
                session tokens expires_in identity before)
      unfolding renew
      renew-IsEnded secret tokens expires_in identity exchanged verified =
          elim (Bool-cases (has_text client.context.tenant.eduplus_tenant_id identity.tenant_id)) [
            | inr other ↦ rw other (IsEnded.raised _)
            | inl owner ↦
                elim (Bool-cases (
                  is_same_context json (session_context client.context.tenant.id identity)
                    session.context)) [
                      | inr changed ↦ rw (owner, changed) (IsEnded.raised _)
                      | inl same ↦
                          elim (rotate-cases crypto json rotated later id iv token session.context
                            tokens.access_token (or_else tokens.refresh_token session.refresh_token)
                            (expiry_of rotated (positive tokens.refresh_expires_in))
                            before.sessions) [
                              | inl (why, failed) ↦ rw (owner, same, failed) (IsEnded.raised _)
                              | inr (sessions, done, is_rotated) ↦
                                  rw (owner, same, done)
                                    (IsEnded.renewed client session sessions _ known (record {
                                      current = current;
                                      is_current = is_current;
                                      tenant_of_current = tenant_of_current;
                                      loads = loads;
                                      secret = secret;
                                      tokens = tokens;
                                      exchanged = exchanged;
                                      identity = identity;
                                      is_verified = verified;
                                      tenant_of_identity = owner;
                                      same = same;
                                      is_rotated = is_rotated;
                                      access_token = refl;
                                      refresh_session = refl;
                                    }))
                            ]
                    ]
          ]

      refresh_tokens-IsEnded : IsEnded (
          refresh_tokens crypto json app_code exchange verify loaded_at rotated later iv id token
            client session before)
      unfolding refresh_tokens
      refresh_tokens-IsEnded = elim (Option-cases (crypto.decrypt "" client.context.secret)) [
        | inl missing ↦ rw missing (IsEnded.raised _)
        | inr (secret, a) ↦
            elim (Result-cases (
              exchange
                (endpoint_of client.context.tenant.token_endpoint client.issuer
                  "/protocol/openid-connect/token")
                client.context.client_id secret session.refresh_token)) [
                  | inl (why, b) ↦ rw (a, b) (IsEnded.raised _)
                  | inr (tokens, b) ↦ elim (Option-cases (positive tokens.expires_in)) [
                    | inl missing ↦ rw (a, b, missing) (IsEnded.raised _)
                    | inr (expires_in, c) ↦
                        elim (Result-cases
                          (verify tokens.access_token (verify_context app_code 0 client))) [
                            | inl (why, d) ↦ rw (a, b, c, d) (IsEnded.raised _)
                            | inr (identity, d) ↦
                                rw (a, b, c, d)
                                  (renew-IsEnded secret tokens expires_in identity b d)
                          ]
                  ]
                ]
      ]

    load_session-IsEnded :
        (current : WidgetIdentity)
        → verify token (verify_context app_code 90 client) ≡ ok current
        → IsEnded (
            load_session crypto json app_code exchange verify loaded_at rotated later iv id token
              client current before)
    unfolding load_session
    load_session-IsEnded current is_current =
        elim (Bool-cases (has_text client.context.tenant.eduplus_tenant_id current.tenant_id)) [
          | inr other ↦ rw other (IsEnded.raised _)
          | inl owner ↦
              let loading =
                load crypto json loaded_at id token
                  (session_context client.context.tenant.id current) before.sessions in
              let kept =
                load-keeps crypto json loaded_at id token
                  (session_context client.context.tenant.id current) before.sessions in
              elim (Outcome-cases loading) [
                | inl (why, e) ↦ rw (owner, e, kept) (IsEnded.raised _)
                | inr (session, e) ↦
                    rw (owner, e, kept)
                      (refresh_tokens-IsEnded current is_current owner session (ap (λ r. r.0) e))
              ]
        ]

  -- `refresh` of a well-formed request either raises and changes nothing, or renews the session: the
  -- current access token was verified (up to a minute and a half late) for the session's tenant and
  -- loaded the session, the new one was verified with the same context, and the session now answers
  -- to the new token; nothing else has changed.
  pub refresh-IsEnded :
      (body : Option RefreshBody) (authorization : Option String)
      → validate_refresh_input body ≡ ok id
      → bearer_token false authorization ≡ ok token
      → IsEnded (
          refresh crypto json app_code exchange verify loaded_at rotated later iv body authorization
            before)
  unfolding refresh refresh_session verify_current
  refresh-IsEnded body authorization valid bearer =
      elim (Result-cases (client_of_session before.tenancy (lookup id before.sessions))) [
        | inl (why, a) ↦ rw (valid, bearer, a) (IsEnded.raised _)
        | inr (client, a) ↦ elim (Result-cases (verify token (verify_context app_code 90 client))) [
          | inl (why, b) ↦ rw (valid, bearer, a, b) (IsEnded.raised _)
          | inr (current, b) ↦ rw (valid, bearer, a, b) (load_session-IsEnded client a current b)
        ]
      ]
