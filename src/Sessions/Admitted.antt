-- ===== src/Sessions/Admitted.antt =====
-- Who is signed in.
use widget_demo.Prelude.{
  ℕ, String, Bool, true, ◌≡◌, refl, sym, ap, ◌∙◌, Option, none, some, List, [], ◌∷◌, inl, inr,
  Bool-cases, Option-cases, Outcome-cases, Result-cases, HttpError, Result, ok, ◌==◌,
}
use widget_demo.Table.{string_eq, insert}
use widget_demo.Texts.{is_truthy}
use widget_demo.Crypto.{Crypto}
use widget_demo.School.{Person}
use widget_demo.Sessions.{
  VerifiedIdentity, OidcTokenResponse, VerifyContext, Accounts, TenantContext, fits_context,
  students_of,
}
use widget_demo.Sessions.SignIn.{
  choose_person, upsert_person, open_session, verify_token, new_session, jwks_uri_of, accept_tokens,
}

module _ (crypto : Crypto) (verify : String → VerifyContext → Result HttpError VerifiedIdentity)
    (new_id iv raw_session_token : String) (now : ℕ) where
  pub choose_person-keeps :
      (tenant_id : String) (identity : VerifiedIdentity) (students : List (String × Person))
      (accounts : Accounts crypto.Sealed)
      → ((choose_person crypto verify new_id iv raw_session_token now tenant_id identity students
            accounts).1.sessions
          ≡ accounts.sessions)
        × ((choose_person crypto verify new_id iv raw_session_token now tenant_id identity students
              accounts).1.tenancy
            ≡ accounts.tenancy)
  unfolding choose_person upsert_person
  choose_person-keeps tenant_id identity [] accounts = (refl, refl)
  choose_person-keeps tenant_id identity (s ∷ []) accounts = (refl, refl)
  choose_person-keeps tenant_id identity (s ∷ t ∷ l) accounts = (refl, refl)

  -- the session of a verified identity of the tenant, stored under the hash of its token
  pub record IsSignedIn (context : TenantContext crypto.Sealed) (require_handoff : Bool)
      (tokens : OidcTokenResponse) (before after : Accounts crypto.Sealed) (token : String)
      : Type 0 where
    pub identity : VerifiedIdentity
    pub access_token : String
    pub asked : VerifyContext
    pub is_given : tokens.access_token ≡ some access_token
    pub is_verified : verify access_token asked ≡ ok identity
    pub issuer : context.tenant.issuer_url ≡ some asked.issuer
    pub client : asked.client_id ≡ context.client_id
    pub is_matching : fits_context context require_handoff tokens identity ≡ true
    pub is_token : token ≡ raw_session_token
    pub person_id : String
    pub refresh_token : String
    pub is_stored :
        after.sessions
        ≡ insert
            (crypto.hash raw_session_token)
            (new_session crypto verify new_id iv raw_session_token now context tokens identity
              refresh_token person_id)
            before.sessions
    pub tenancy : after.tenancy ≡ before.tenancy

  is_truthy-some : (o : Option String) (text : String) → is_truthy o ≡ some text → o ≡ some text
  unfolding is_truthy
  is_truthy-some none text h = absurd (cc)
  is_truthy-some (some t) text h = elim (Bool-cases (t == "")) [
    | inl empty ↦ absurd (cc (rw empty at h))
    | inr full ↦ rw full at h
  ]

  module _ (context : TenantContext crypto.Sealed) (require_handoff : Bool)
      (tokens : OidcTokenResponse) (before after : Accounts crypto.Sealed) (token : String) where
    open_session-IsSignedIn :
        (access_token refresh_token : String) (asked : VerifyContext) (identity : VerifiedIdentity)
        → tokens.access_token ≡ some access_token
        → verify access_token asked ≡ ok identity
        → context.tenant.issuer_url ≡ some asked.issuer
        → asked.client_id ≡ context.client_id
        → open_session crypto verify new_id iv raw_session_token now context require_handoff tokens
            refresh_token identity before
          ≡ (ok token, after)
        → IsSignedIn context require_handoff tokens before after token
    unfolding open_session
    open_session-IsSignedIn access_token refresh_token asked identity given verified issuer client
          h =
        elim (Bool-cases (fits_context context require_handoff tokens identity)) [
          | inr other ↦ absurd (cc (ap (λ r. r.0) (rw other at h)))
          | inl same ↦
              elim (Outcome-cases (
                choose_person crypto verify new_id iv raw_session_token now context.tenant.id
                  identity (students_of context.tenant.id identity before.people) before)) [
                    | inl (why, e) ↦ absurd (cc (ap (λ r. r.0) (rw (same, e) at h)))
                    | inr (person_id, e) ↦
                        let k =
                          choose_person-keeps context.tenant.id identity
                            (students_of context.tenant.id identity before.people) before in
                        let end = rw (same, e) at h in
                        record {
                          identity = identity;
                          access_token = access_token;
                          asked = asked;
                          is_given = given;
                          is_verified = verified;
                          issuer = issuer;
                          client = client;
                          is_matching = same;
                          is_token = cc (ap (λ r. r.0) end);
                          person_id = person_id;
                          refresh_token = refresh_token;
                          is_stored = ap (λ r. r.1.sessions) (sym end) ∙ ap (insert _ _) k.0;
                          tenancy = ap (λ r. r.1.tenancy) (sym end) ∙ k.1;
                        }
                  ]
        ]

    -- If `acceptOidcTokenResponse` returns a token, then it is the new session token; the access
    -- token was verified against the tenant's issuer and client, the identity matches the tenant
    -- and, for a handoff, the scopes; and the session of the identity is stored under the token's
    -- hash and no other session or tenant has changed.
    pub accept_tokens-IsSignedIn :
        accept_tokens crypto verify new_id iv raw_session_token now context require_handoff tokens
            before
          ≡ (ok token, after)
        → IsSignedIn context require_handoff tokens before after token
    unfolding accept_tokens verify_token
    accept_tokens-IsSignedIn h = elim (Option-cases (is_truthy tokens.access_token)) [
      | inl missing ↦ absurd (cc (ap (λ r. r.0) (rw missing at h)))
      | inr (access_token, a) ↦ elim (Option-cases (is_truthy tokens.refresh_token)) [
        | inl missing ↦ absurd (cc (ap (λ r. r.0) (rw (a, missing) at h)))
        | inr (refresh_token, b) ↦ elim (Option-cases (is_truthy context.tenant.issuer_url)) [
          | inl missing ↦ absurd (cc (ap (λ r. r.0) (rw (a, b, missing) at h)))
          | inr (issuer, c) ↦
              elim (Option-cases (is_truthy (some (jwks_uri_of context.tenant issuer)))) [
                | inl missing ↦ absurd (cc (ap (λ r. r.0) (rw (a, b, c, missing) at h)))
                | inr (jwks_uri, d) ↦
                    let asked : VerifyContext = record {
                      issuer = issuer;
                      jwks_uri = jwks_uri;
                      client_id = context.client_id;
                    } in
                    elim (Result-cases (verify access_token asked)) [
                      | inl (why, e) ↦ absurd (cc (ap (λ r. r.0) (rw (a, b, c, d, e) at h)))
                      | inr (identity, e) ↦
                          open_session-IsSignedIn access_token refresh_token asked identity
                            (is_truthy-some tokens.access_token access_token a) e
                            (is_truthy-some context.tenant.issuer_url issuer c) refl
                            (rw (a, b, c, d, e) at h)
                    ]
              ]
        ]
      ]
    ]
