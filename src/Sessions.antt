-- ===== src/Sessions.antt =====
-- Application sessions: backend/src/auth/auth.service.ts. A session is stored by its token's hash,
-- which is unique.
pub mod SignIn
pub mod Refresh
pub mod Found
pub mod Admitted
pub mod Entered
pub mod Kept
mod Tests
use Prim.Native.Char.{Char, code}
use widget_demo.Prelude.{
  chars, ℕ, ◌+◌, ◌*◌, String, Bool, true, false, ◌&&◌, ◌||◌, not, Option, none, some, List, [], ◌∷◌,
  ◌++◌, map, ◌==◌, leb, if◌then◌else◌, any, is_some, or_else, find?, filter, upsert_where, length,
  HttpError, unauthorized, type_error, Result, ok, err, Exec, pure, raise, gets, or_raise, lift,
  modify, raise_if, ◌>>=◌, ◌>>◌, length,
}
use widget_demo.Table.{string_eq, Table, lookup, insert}
use widget_demo.Texts.{Text, is_space, is_truthy, same_codes, codes}
use widget_demo.Crypto.{Crypto}
use widget_demo.School.{PersonType, student, same_type, Person}
use widget_demo.Tenancy.{TenantStatus, active, Tenant, TenantCredential, Tenancy}

pub record AppSession (Sealed : Type 0) : Type 0 where
  pub id : String
  pub tenant_id : String
  pub person_id : Option String
  pub identity_id : String
  pub identity_type : PersonType
  pub refresh_token : Option Sealed
  pub expires_at : ℕ
  pub revoked_at : Option ℕ

-- what the verifier of backend/src/integration/eduplus/oidc-verifier.ts returns
pub record VerifiedIdentity : Type 0 where
  pub sub : String
  pub tenant_id : String
  pub identity_id : String
  pub identity_type : PersonType
  pub client_id : String
  pub name : Option String
  pub email : Option String
  pub handoff_type : Option String

pub record OidcTokenResponse : Type 0 where
  pub access_token : Option String
  pub refresh_token : Option String
  pub refresh_expires_in : Option ℕ
  pub scope : Option String

-- what the verifier is asked about a token
pub record VerifyContext : Type 0 where
  pub issuer : String
  pub jwks_uri : String
  pub client_id : String

pub record Accounts (Sealed : Type 0) : Type 0 where
  pub tenancy : Tenancy Sealed
  pub people : Table String Person
  pub sessions : Table String (AppSession Sealed)

pub record TenantContext (Sealed : Type 0) : Type 0 where
  pub tenant : Tenant
  pub client_id : String
  pub secret : Sealed

unfoldable pub is_active_tenant : TenantStatus → Bool
is_active_tenant active = true
is_active_tenant _ = false

-- `split(/\s+/).filter(Boolean)`
unfoldable pub words_from : Text → Text → List Text
words_from word [] = word ∷ []
words_from word (c ∷ s) = elim (is_space c) [
  | true ↦ word ∷ words_from [] s
  | false ↦ words_from (word ++ c ∷ []) s
]

unfoldable pub has_scope : String → Option String → Bool
has_scope scope none = false
has_scope scope (some scopes) =
    any (λ word. same_codes (map code word) (codes scope)) (words_from [] (chars scopes))

unfoldable pub is_live : {Sealed : Type 0} → ℕ → AppSession Sealed → Tenant → Bool
is_live now session tenant =
    not (is_some session.revoked_at)
    && (not (leb session.expires_at now) && is_active_tenant tenant.status)

-- the tenant of an identifier; tenants are stored by their codes
abbrev pub tenant_of : {Sealed : Type 0} → String → Tenancy Sealed → Option (String × Tenant)
tenant_of id tenancy = find? (λ row. row.1.id == id) tenancy.tenants

abbrev with_client : {Sealed : Type 0} → Option String → Sealed → Option (String × Sealed)
with_client none secret = none
with_client (some client_id) secret = some (client_id, secret)

-- of the tenant's credentials the one that is not revoked, with its client
abbrev pub usable_credential :
    {Sealed : Type 0} → Option (TenantCredential Sealed) → Option (String × Sealed)
usable_credential none = none
usable_credential (some credential) =
    if is_some credential.revoked_at
    then none
    else with_client (is_truthy credential.client_id) credential.secret

-- the scopes of a token that a launch has handed over
unfoldable pub is_handoff : OidcTokenResponse → VerifiedIdentity → Bool
is_handoff tokens identity =
    has_scope "openid" tokens.scope
    && (not (has_scope "widget.data.read" tokens.scope)
        && or_else identity.handoff_type "app_launch" == "app_launch")

-- `a !== b` with a column that may be null is the negation
abbrev pub has_text : Option String → String → Bool
has_text none text = false
has_text (some value) text = value == text

unfoldable pub fits_context :
    {Sealed : Type 0} → TenantContext Sealed → Bool → OidcTokenResponse → VerifiedIdentity → Bool
fits_context context require_handoff tokens identity =
    has_text context.tenant.eduplus_tenant_id identity.tenant_id
    && (identity.client_id == context.client_id
        && (not require_handoff || is_handoff tokens identity))

abbrev pub is_student_of : String → VerifiedIdentity → String × Person → Bool
is_student_of tenant_id identity row =
    row.1.tenant_id == tenant_id
    && (same_type row.1.type student
        && (has_text row.1.eduplus_user_id identity.identity_id && row.1.active))

unfoldable pub students_of :
    String → VerifiedIdentity → Table String Person → List (String × Person)
students_of tenant_id identity people =
    if same_type identity.identity_type student
    then filter (is_student_of tenant_id identity) people
    else []

module _ (crypto : Crypto) where
  abbrev pub Action : Type 0 → Type 0
  Action A = Exec HttpError (Accounts crypto.Sealed) A

  unfoldable pub live_with :
      ℕ
      → AppSession crypto.Sealed
      → Option (String × Tenant)
      → Option (AppSession crypto.Sealed × Tenant)
  live_with now session none = none
  live_with now session (some (tenant_code, tenant)) =
      if is_live now session tenant then some (session, tenant) else none

  unfoldable pub session_with :
      ℕ
      → Option (AppSession crypto.Sealed)
      → Tenancy crypto.Sealed
      → Option (AppSession crypto.Sealed × Tenant)
  session_with now none tenancy = none
  session_with now (some session) tenancy =
      live_with now session (tenant_of session.tenant_id tenancy)

  unfoldable pub find_session :
      ℕ → Option String → Accounts crypto.Sealed → Option (AppSession crypto.Sealed × Tenant)
  find_session now none accounts = none
  find_session now (some raw_token) accounts =
      if raw_token == ""
      then none
      else session_with now (lookup (crypto.hash raw_token) accounts.sessions) accounts.tenancy

  abbrev pub put_session : String → AppSession crypto.Sealed → Action Unit
  put_session key row =
      modify (λ accounts. record accounts { sessions = insert key row accounts.sessions })

  unfoldable pub revoke_row : ℕ → String → Option (AppSession crypto.Sealed) → Action Unit
  revoke_row now key none = pure tt
  revoke_row now key (some row) =
      if is_some row.revoked_at
      then pure tt
      else put_session key (record row { revoked_at = some now })

  unfoldable pub revoke_session : ℕ → Option String → Action Unit
  revoke_session now none = pure tt
  revoke_session now (some raw_token) =
      if raw_token == ""
      then pure tt
      else gets (λ accounts. lookup (crypto.hash raw_token) accounts.sessions)
        >>= revoke_row now (crypto.hash raw_token)

  unfoldable pub tenant_context :
      Tenant → Option (String × crypto.Sealed) → Result HttpError (TenantContext crypto.Sealed)
  tenant_context tenant none = err (unauthorized "Tenant OAuth credential is unavailable")
  tenant_context tenant (some (client_id, secret)) =
      ok (record { tenant = tenant; client_id = client_id; secret = secret })

  unfoldable pub context_of_tenant :
      Tenancy crypto.Sealed → Option Tenant → Result HttpError (TenantContext crypto.Sealed)
  context_of_tenant tenancy none = err (unauthorized "Tenant subscription is not active")
  context_of_tenant tenancy (some tenant) =
      if is_active_tenant tenant.status
      then tenant_context tenant (usable_credential (lookup tenant.id tenancy.credentials))
      else err (unauthorized "Tenant subscription is not active")

  unfoldable pub load_tenant_context :
      String → Tenancy crypto.Sealed → Result HttpError (TenantContext crypto.Sealed)
  load_tenant_context tenant_code tenancy =
      context_of_tenant tenancy (lookup tenant_code tenancy.tenants)
