-- ===== src/WidgetAuth.antt =====
-- The requests, the state and the shared steps of backend/src/widgets/widget-auth.service.ts. HTTP
-- exchanges, the token verifier, hashes, encryption and JSON texts are parameters.
pub mod Replay
pub mod Authorize
pub mod Refresh
pub mod Access
pub mod Race
pub mod Once
pub mod Retried
pub mod Loaded
pub mod Ended
pub mod Renewed
pub mod ToyCodec
mod Tests
use widget_demo.Prelude.{
  chars, ℕ, ◌+◌, String, Bool, true, false, ◌&&◌, ◌||◌, not, Option, none, some, List, [], ◌∷◌, map,
  ◌==◌, ◌-◌, leb, ltb, ◌=ℕ◌, if◌then◌else◌, any, is_some, HttpError, bad_request, unauthorized,
  conflict, Result, ok, err, Exec,
}
use widget_demo.Table.{Table}
use widget_demo.Texts.{Text, units, bearer, is_truthy}
use widget_demo.Crypto.{Crypto}
use widget_demo.School.{staff, teacher, student, parent}
use widget_demo.Tenancy.{Tenant, TenantCredential, Tenancy}
use widget_demo.Sessions.{TenantContext, is_active_tenant, tenant_of, usable_credential}
use widget_demo.Sessions.SignIn.{jwks_uri_of}
use widget_demo.WidgetSessions.{
  EndpointPair, WidgetAuthorization, SessionContext, SessionError, session_conflict, Json, Sessions,
}
use widget_demo.Claims.{Kind, role, inherited, WidgetIdentity, WidgetVerifyContext, is_blank}

pub record WidgetTokenResponse : Type 0 where
  pub access_token : String
  pub expires_in : ℕ
  pub scope : String
  pub refresh_session_id : String
  pub refresh_after : ℕ

-- what the remote service answers; a number is `none` if it is no natural number
pub record WidgetTokens : Type 0 where
  pub access_token : String
  pub refresh_token : Option String
  pub expires_in : Option ℕ
  pub refresh_expires_in : Option ℕ

-- the JSON text of a response, and of what a stored response is bound to
pub record ReplayCodec : Type 0 where
  pub print : WidgetTokenResponse → String
  pub parse : String → Option WidgetTokenResponse
  pub bound_to : (key_hash client_id request_hash : String) → String

pub record AuthExchange (Sealed : Type 0) : Type 0 where
  pub client_id : String
  pub request_hash : String
  pub response : Option Sealed
  pub expires_at : ℕ

pub record WidgetState (crypto : Crypto) (json : Json) : Type 0 where
  pub tenancy : Tenancy crypto.Sealed
  pub sessions : Sessions crypto json
  pub exchanges : Table String (AuthExchange crypto.Sealed)

abbrev pub positive : Option ℕ → Option ℕ
positive none = none
positive (some n) = if ltb 0 n then some n else none

-- `Math.max(1, expires_in - 60)`; subtraction stops at 0
abbrev pub refresh_after_of : ℕ → ℕ
refresh_after_of expires_in = if ltb (expires_in - 60) 1 then 1 else expires_in - 60

abbrev pub has_client : Option String → String → Bool
has_client none client_id = false
has_client (some value) client_id = value == client_id

unfoldable pub add_match :
    {Sealed : Type 0}
    → String
    → TenantCredential Sealed
    → Option (String × Tenant)
    → List (TenantContext Sealed)
    → List (TenantContext Sealed)
add_match client_id credential none rest = rest
add_match client_id credential (some (tenant_code, tenant)) rest =
    if has_client credential.client_id client_id
      && (not (is_some credential.revoked_at) && is_active_tenant tenant.status)
    then record { tenant = tenant; client_id = client_id; secret = credential.secret } ∷ rest
    else rest

-- the credentials of a client, of active tenants, that are not revoked
unfoldable pub client_matches :
    {Sealed : Type 0}
    → String
    → Tenancy Sealed
    → Table String (TenantCredential Sealed)
    → List (TenantContext Sealed)
client_matches client_id tenancy [] = []
client_matches client_id tenancy ((tenant_id, credential) ∷ rest) =
    add_match client_id credential (tenant_of tenant_id tenancy)
      (client_matches client_id tenancy rest)

-- an OAuth client and the issuer of its tenant
pub record Client (Sealed : Type 0) : Type 0 where
  pub context : TenantContext Sealed
  pub issuer : String

unfoldable pub with_issuer :
    {Sealed : Type 0} → TenantContext Sealed → Option String → Result HttpError (Client Sealed)
with_issuer context none = err (unauthorized "Widget OAuth client is unavailable")
with_issuer context (some issuer) = ok (record { context = context; issuer = issuer })

unfoldable pub only_client :
    {Sealed : Type 0} → List (TenantContext Sealed) → Result HttpError (Client Sealed)
only_client (context ∷ []) = with_issuer context (is_truthy context.tenant.issuer_url)
only_client _ = err (unauthorized "Widget OAuth client is unavailable")

unfoldable pub load_credential :
    {Sealed : Type 0} → String → Tenancy Sealed → Result HttpError (Client Sealed)
load_credential client_id tenancy =
    only_client (client_matches client_id tenancy tenancy.credentials)

-- what `verifyToken` verifies a token against
unfoldable pub verify_context : {Sealed : Type 0} → String → ℕ → Client Sealed → WidgetVerifyContext
verify_context app_code tolerance client = record {
  issuer = client.issuer;
  jwks_uri = jwks_uri_of client.context.tenant client.issuer;
  client_id = client.context.client_id;
  app_code = app_code;
  clock_tolerance = tolerance;
}

-- The text of a kind; no stored session has that of an inherited one.
abbrev pub kind_name : Kind → String
kind_name (role staff) = "STAFF"
kind_name (role teacher) = "TEACHER"
kind_name (role student) = "STUDENT"
kind_name (role parent) = "PARENT"
kind_name inherited = "Object"

-- the empty preset of a pair is left out
abbrev pub clean_preset : EndpointPair → EndpointPair
clean_preset pair = record pair { query_preset_key = is_truthy pair.query_preset_key }

unfoldable pub session_context : String → WidgetIdentity → SessionContext
session_context tenant_id identity = record {
  tenant_id = tenant_id;
  user_id = identity.sub;
  identity_id = identity.identity_id;
  identity_type = kind_name identity.identity_type;
  app_code = identity.app_code;
  config_snapshot_id = identity.config_snapshot_id;
  scope = identity.scope;
  authorization = record {
    widget_keys = identity.widget_keys;
    data_endpoint_keys = identity.data_endpoint_keys;
    endpoint_pairs = map clean_preset identity.endpoint_pairs;
  };
}

unfoldable pub rethrow_session_error : SessionError → HttpError
rethrow_session_error session_conflict = conflict "Widget refresh session changed concurrently"
rethrow_session_error _ = unauthorized "Widget refresh session is invalid"

module _ (crypto : Crypto) (json : Json) where
  abbrev pub Action : Type 0 → Type 0
  Action A = Exec HttpError (WidgetState crypto json) A

  abbrev settle_sessions :
      {A : Type 0}
      → WidgetState crypto json
      → Result SessionError A × Sessions crypto json
      → Result HttpError A × WidgetState crypto json
  settle_sessions state (ok a, sessions) = (ok a, record state { sessions = sessions })
  settle_sessions state (err why, sessions) =
      (err (rethrow_session_error why), record state { sessions = sessions })

  -- an operation of the sessions, its errors rethrown
  abbrev pub in_sessions : {A : Type 0} → Exec SessionError (Sessions crypto json) A → Action A
  in_sessions m state = settle_sessions state (m state.sessions)
