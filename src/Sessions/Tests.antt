-- ===== src/Sessions/Tests.antt =====
-- Runs of sign-in, sign-out and refresh.
use widget_demo.Prelude.{
  ap, ◌==◌, String, true, ◌≡◌, refl, none, some, [], ◌∷◌, HttpError, Result, ok, err, unauthorized,
  chars, leb, length,
}
use widget_demo.Table.{string_eq, lookup}
use widget_demo.Texts.{is_truthy, codes, is_space}
use widget_demo.Samples.{toy_crypto}
use widget_demo.School.{teacher, same_type}
use widget_demo.Tenancy.{active, Tenant}
use widget_demo.Sessions.{
  AppSession, VerifiedIdentity, OidcTokenResponse, VerifyContext, Accounts, TenantContext,
  fits_context, students_of, find_session, is_active_tenant, has_scope, words_from, is_handoff,
  revoke_session, load_tenant_context, context_of_tenant, tenant_context,
}
use widget_demo.Sessions.SignIn.{
  choose_person, upsert_person, open_session, verify_token, accept_tokens, accept_handoff,
}
use widget_demo.Sessions.Kept.{IsRefreshed, access_token_for_session-IsRefreshed}
use widget_demo.Sessions.Refresh.{access_token_for_session}
use widget_demo.Sessions.Found.{revoke_session-find_session}
use widget_demo.Sessions.Admitted.{IsSignedIn, accept_tokens-IsSignedIn}
use widget_demo.Sessions.Entered.{accept_tokens-find_session}

abbrev school_tenant : Tenant
school_tenant = record {
  id = "t";
  eduplus_tenant_id = some "77";
  name = "School";
  issuer_url = some "https://id/";
  authorization_endpoint = none;
  token_endpoint = none;
  jwks_uri = some "https://id/keys";
  status = active;
}

abbrev context : TenantContext toy_crypto.Sealed
context = record {
  tenant = school_tenant;
  client_id = "client";
  secret = toy_crypto.encrypt "iv" "" "secret";
}

abbrev identity : VerifiedIdentity
identity = record {
  sub = "sub-1";
  tenant_id = "77";
  identity_id = "9";
  identity_type = teacher;
  client_id = "client";
  name = some "Lee";
  email = none;
  handoff_type = none;
}

abbrev verify_any : String → VerifyContext → Result HttpError VerifiedIdentity
verify_any token asked = ok identity

abbrev tokens : OidcTokenResponse
tokens = record {
  access_token = some "at";
  refresh_token = some "rt";
  refresh_expires_in = none;
  scope = some "openid profile";
}

abbrev accounts : Accounts toy_crypto.Sealed
accounts = record {
  tenancy = record {
    tenants = ("school", school_tenant) ∷ [];
    credentials =
        (
          "t",
          record {
            client_id = some "client";
            secret = toy_crypto.encrypt "iv" "" "secret";
            revoked_at = none;
          },
        )
        ∷ [];
    receipts = [];
  };
  people = [];
  sessions = [];
}

-- the whole of a launch
handed_over :
    (accept_handoff toy_crypto verify_any "p" "iv" "raw" 0
      (λ client secret code. ok tokens)
      "school"
      "code"
      accounts).0
    ≡ ok "raw"
unfolding accept_handoff load_tenant_context context_of_tenant tenant_context is_active_tenant
    accept_tokens verify_token open_session choose_person upsert_person students_of same_type
    fits_context is_handoff has_scope words_from is_space codes chars lookup is_truthy
handed_over = refl

unknown_tenant :
    (accept_handoff toy_crypto verify_any "p" "iv" "raw" 0
      (λ client secret code. ok tokens)
      "nobody"
      "code"
      accounts).0
    ≡ err (unauthorized "Tenant subscription is not active")
unfolding accept_handoff load_tenant_context context_of_tenant lookup
unknown_tenant = refl

revoke_session-find_session_example :
    (find_session toy_crypto 9 (some "raw") (revoke_session toy_crypto 5 (some "raw") accounts).1
      ≡ none)
    × (find_session toy_crypto 9 (some "next") (revoke_session toy_crypto 5 (some "raw") accounts).1
        ≡ find_session toy_crypto 9 (some "next") accounts)
revoke_session-find_session_example =
    revoke_session-find_session toy_crypto "raw" "next" 5 9 accounts
      (λ e. absurd (cc (ap (λ k. k == "#raw") e)))

truthy_access : is_truthy tokens.access_token ≡ some "at"
unfolding is_truthy
truthy_access = refl

truthy_refresh : is_truthy tokens.refresh_token ≡ some "rt"
unfolding is_truthy
truthy_refresh = refl

truthy_issuer : is_truthy school_tenant.issuer_url ≡ some "https://id/"
unfolding is_truthy
truthy_issuer = refl

truthy_keys : is_truthy (some "https://id/keys") ≡ some "https://id/keys"
unfolding is_truthy
truthy_keys = refl

identity_matches : fits_context context true tokens identity ≡ true
unfolding fits_context is_handoff has_scope words_from is_space codes chars
identity_matches = refl

no_students : leb (length (students_of "t" identity accounts.people)) 1 ≡ true
unfolding students_of same_type
no_students = refl

tenant_is_active : is_active_tenant school_tenant.status ≡ true
unfolding is_active_tenant
tenant_is_active = refl

signed_in :
    (after : Accounts toy_crypto.Sealed) × (session : AppSession toy_crypto.Sealed) × (accept_tokens
        toy_crypto verify_any "p" "iv" "raw" 0 context true tokens accounts
      ≡ (ok "raw", after))
    × (find_session toy_crypto 10 (some "raw") after ≡ some (session, school_tenant))
    × (session.tenant_id ≡ "t")
    × (session.identity_id ≡ "9")
    × (session.identity_type ≡ teacher)
signed_in =
    accept_tokens-find_session toy_crypto verify_any "p" "iv" "raw" 0 context true tokens accounts
      "at" "rt" "https://id/" "https://id/keys" "school" identity 10 truthy_access truthy_refresh
      truthy_issuer truthy_keys refl identity_matches no_students tenant_is_active refl refl refl

accept_tokens-find_session_example :
    (after : Accounts toy_crypto.Sealed) × (session : AppSession toy_crypto.Sealed) × (accept_tokens
        toy_crypto verify_any "p" "iv" "raw" 0 context true tokens accounts
      ≡ (ok "raw", after))
    × (find_session toy_crypto 10 (some "raw") after ≡ some (session, school_tenant))
    × (session.tenant_id ≡ "t")
    × (session.identity_id ≡ "9")
    × (session.identity_type ≡ teacher)
accept_tokens-find_session_example =
    accept_tokens-find_session toy_crypto verify_any "p" "iv" "raw" 0 context true tokens accounts
      "at" "rt" "https://id/" "https://id/keys" "school" identity 10 truthy_access truthy_refresh
      truthy_issuer truthy_keys refl identity_matches no_students tenant_is_active refl refl refl

accept_tokens-IsSignedIn_example :
    IsSignedIn toy_crypto verify_any "p" "iv" "raw" 0 context true tokens accounts signed_in.0 "raw"
accept_tokens-IsSignedIn_example =
    accept_tokens-IsSignedIn toy_crypto verify_any "p" "iv" "raw" 0 context true tokens accounts
      signed_in.0 "raw" signed_in.2

abbrev signed_in_accounts : Accounts toy_crypto.Sealed
signed_in_accounts = record accounts {
  sessions =
      (
        "hash",
        record {
          id = "s";
          tenant_id = "t";
          person_id = none;
          identity_id = "9";
          identity_type = teacher;
          refresh_token = some (toy_crypto.encrypt "iv" "" "rt");
          expires_at = 100;
          revoked_at = none;
        },
      )
      ∷ [];
}

access_token_for_session-IsRefreshed_example :
    IsRefreshed toy_crypto verify_any
      (λ endpoint client secret token. ok tokens)
      "iv"
      5
      "s"
      signed_in_accounts
      (access_token_for_session toy_crypto verify_any
        (λ endpoint client secret token. ok tokens)
        "iv"
        5
        "s"
        signed_in_accounts)
access_token_for_session-IsRefreshed_example =
    access_token_for_session-IsRefreshed toy_crypto verify_any
      (λ endpoint client secret token. ok tokens) "iv" 5 "s" signed_in_accounts
