-- ===== src/Sessions/Entered.antt =====
-- A sign-in that succeeds, and the session that it opens.
use widget_demo.Prelude.{
  arith, ℕ, String, Bool, true, false, ◌≡◌, refl, sym, ap, ◌∙◌, none, some, List, [], ◌∷◌, inl, inr,
  Outcome-cases, HttpError, Result, ok, ◌+◌, ◌*◌, or_else, ◌==◌, leb, length,
}
use widget_demo.Table.{string_eq, lookup, insert}
use widget_demo.Table.Laws.{lookup-insert_self}
use widget_demo.Texts.{is_truthy}
use widget_demo.Crypto.{Crypto}
use widget_demo.School.{Person}
use widget_demo.Tenancy.{Tenant}
use widget_demo.Sessions.{
  AppSession, VerifiedIdentity, OidcTokenResponse, VerifyContext, Accounts, TenantContext,
  fits_context, students_of, find_session, session_with, live_with, is_live, is_active_tenant,
  tenant_of,
}
use widget_demo.Sessions.SignIn.{
  choose_person, upsert_person, open_session, verify_token, new_session, jwks_uri_of, accept_tokens,
}
use widget_demo.Sessions.Admitted.{choose_person-keeps}

module _ (crypto : Crypto) (verify : String → VerifyContext → Result HttpError VerifiedIdentity)
    (new_id iv raw_session_token : String) (now : ℕ) where
  choose_person-ends :
      (tenant_id : String) (identity : VerifiedIdentity) (students : List (String × Person))
      (accounts : Accounts crypto.Sealed)
      → leb (length students) 1 ≡ true
      → (id : String) × ((choose_person crypto verify new_id iv raw_session_token now tenant_id
            identity students accounts).0
          ≡ ok id)
  unfolding choose_person upsert_person
  choose_person-ends tenant_id identity [] accounts h = (_, refl)
  choose_person-ends tenant_id identity (s ∷ []) accounts h = (s.0, refl)
  choose_person-ends tenant_id identity (s ∷ t ∷ l) accounts h = absurd (ground arith)

  find_session-new :
      (accounts : Accounts crypto.Sealed) (session : AppSession crypto.Sealed)
      (tenant_code : String) (tenant : Tenant) (later : ℕ)
      → (raw_session_token == "") ≡ false
      → lookup (crypto.hash raw_session_token) accounts.sessions ≡ some session
      → tenant_of session.tenant_id accounts.tenancy ≡ some (tenant_code, tenant)
      → is_live later session tenant ≡ true
      → find_session crypto later (some raw_session_token) accounts ≡ some (session, tenant)
  unfolding find_session session_with live_with
  find_session-new accounts session tenant_code tenant later token stored owner live =
      rw (token, stored, owner, live) refl

  is_live-new :
      (session : AppSession crypto.Sealed) (tenant : Tenant) (later : ℕ)
      → session.revoked_at ≡ none
      → leb session.expires_at later ≡ false
      → is_active_tenant tenant.status ≡ true
      → is_live later session tenant ≡ true
  unfolding is_live
  is_live-new session tenant later kept fresh active = rw (kept, fresh, active) refl

  -- If the response has both tokens, the tenant an issuer and a key address, the access token is
  -- verified, its identity matches, no two active students have it, and the tenant is active and
  -- the one of its identifier, then `acceptOidcTokenResponse` returns the new session token, and
  -- until the session expires `findSession` finds with it a session of the identity and the
  -- tenant.
  pub accept_tokens-find_session :
      (context : TenantContext crypto.Sealed) (require_handoff : Bool) (tokens : OidcTokenResponse)
      (before : Accounts crypto.Sealed)
      (access_token refresh_token issuer jwks_uri tenant_code : String)
      (identity : VerifiedIdentity) (later : ℕ)
      → is_truthy tokens.access_token ≡ some access_token
      → is_truthy tokens.refresh_token ≡ some refresh_token
      → is_truthy context.tenant.issuer_url ≡ some issuer
      → is_truthy (some (jwks_uri_of context.tenant issuer)) ≡ some jwks_uri
      → verify access_token
          (record { issuer = issuer; jwks_uri = jwks_uri; client_id = context.client_id })
        ≡ ok identity
      → fits_context context require_handoff tokens identity ≡ true
      → leb (length (students_of context.tenant.id identity before.people)) 1 ≡ true
      → is_active_tenant context.tenant.status ≡ true
      → tenant_of context.tenant.id before.tenancy ≡ some (tenant_code, context.tenant)
      → (raw_session_token == "") ≡ false
      → leb (now + or_else tokens.refresh_expires_in 1800 * 1000) later ≡ false
      → (after : Accounts crypto.Sealed) × (session : AppSession crypto.Sealed) × (accept_tokens
            crypto verify new_id iv raw_session_token now context require_handoff tokens before
          ≡ (ok raw_session_token, after))
        × (find_session crypto later (some raw_session_token) after
            ≡ some (session, context.tenant))
        × (session.tenant_id ≡ context.tenant.id)
        × (session.identity_id ≡ identity.identity_id)
        × (session.identity_type ≡ identity.identity_type)
  unfolding accept_tokens verify_token open_session
  accept_tokens-find_session context require_handoff tokens before access_token refresh_token issuer
        jwks_uri tenant_code identity later a b c d e same few active owner token fresh =
      let chosen =
        choose_person crypto verify new_id iv raw_session_token now context.tenant.id identity
          (students_of context.tenant.id identity before.people) before in
      let ended =
        choose_person-ends context.tenant.id identity
          (students_of context.tenant.id identity before.people) before few in
      elim (Outcome-cases chosen) [
        | inl (why, f) ↦ absurd (cc (sym ended.1 ∙ ap (λ r. r.0) f))
        | inr (person_id, f) ↦
            let session =
              new_session crypto verify new_id iv raw_session_token now context tokens identity
                refresh_token person_id in
            let after : Accounts crypto.Sealed = record chosen.1 {
              sessions = insert (crypto.hash raw_session_token) session chosen.1.sessions;
            } in
            (
              after,
              session,
              rw (a, b, c, d, e, same, f) refl,
              find_session-new after session tenant_code context.tenant later token
                  (lookup-insert_self (crypto.hash raw_session_token) session chosen.1.sessions)
                  (ap (tenant_of context.tenant.id)
                      (choose_person-keeps crypto verify new_id iv raw_session_token now
                        context.tenant.id identity
                        (students_of context.tenant.id identity before.people) before).1
                    ∙ owner)
                  (is_live-new session context.tenant later refl fresh active),
              refl,
              refl,
              refl,
            )
      ]
