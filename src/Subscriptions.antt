-- ===== src/Subscriptions.antt =====
-- backend/src/subscriptions/subscriptions.service.ts: webhooks that create tenants and change them.
pub mod Signature
pub mod Signed
pub mod Changes
pub mod Delivery
mod Tests
use widget_demo.Prelude.{
  ℕ, String, Bool, true, false, ◌&&◌, ◌||◌, not, Option, none, some, List, [], ◌∷◌, map, ◌==◌, any,
  is_some, or_else, if◌then◌else◌, HttpError, bad_request, not_found, type_error, unique_violation,
  Result, ok, err, Exec, pure, raise, gets, or_raise, raise_if, modify, transaction, attempt, lift,
  ◌>>=◌, ◌>>◌, chars, length,
}
use widget_demo.Table.{string_eq, Table, lookup, insert}
use widget_demo.Texts.{is_truthy}
use widget_demo.Webhooks.{
  OauthClient, Credential, Json, WebhookPayload, parse_payload, first_of, issuer_of, oauth_secret,
  rotated_secret,
}
use widget_demo.Crypto.{Crypto}
use widget_demo.Tenancy.{
  TenantStatus, active, suspended, revoked, Tenant, TenantCredential, WebhookReceipt, Tenancy,
}

pub record Answer : Type 0 where
  pub duplicate : Bool

-- `error.code === 'P2002'`
unfoldable pub is_conflict : HttpError → Bool
is_conflict unique_violation = true
is_conflict _ = false

module _ (crypto : Crypto) where
  abbrev pub Action : Type 0 → Type 0
  Action A = Exec HttpError (Tenancy crypto.Sealed) A

  abbrev put_tenant : String → Tenant → Action Tenant
  put_tenant code tenant db =
      (modify (λ d. record d { tenants = insert code tenant d.tenants }) >> pure tenant) db

  abbrev pub new_credential : (iv client_id secret : String) → TenantCredential crypto.Sealed
  new_credential iv client_id secret = record {
    client_id = some client_id;
    secret = crypto.encrypt iv "" secret;
    revoked_at = none;
  }

  unfoldable pub save_oauth_credential : (iv tenant_id client_id secret : String) → Action Unit
  save_oauth_credential iv tenant_id client_id secret = modify (λ db. record db {
    credentials = insert tenant_id (new_credential iv client_id secret) db.credentials;
  })

  -- the unique column `eduplusTenantId` belongs to another tenant
  unfoldable pub is_claimed : String → String → Tenancy crypto.Sealed → Bool
  is_claimed code eduplus_tenant_id db =
      any
        (λ t.
          not (t.0 == code)
          && elim t.1.eduplus_tenant_id [ none ↦ false | some other ↦ other == eduplus_tenant_id ])
        db.tenants

  abbrev id_of : String → Option Tenant → String
  id_of id none = id
  id_of id (some tenant) = tenant.id

  abbrev kept : (Tenant → Option String) → Option Tenant → Option String
  kept column none = none
  kept column (some tenant) = column tenant

  -- the row after `tenant.upsert`: an update leaves a column as it is where the new value is
  -- `undefined`; `id` is the `uuid()` of a new row
  abbrev pub new_tenant : (id : String) → WebhookPayload → OauthClient → Option Tenant → Tenant
  new_tenant id payload oauth old = record {
    id = id_of id old;
    eduplus_tenant_id = some payload.rest.tenant_id;
    name = payload.rest.tenant_name;
    issuer_url = first_of (issuer_of oauth) (kept (λ t. t.issuer_url) old);
    authorization_endpoint =
        first_of oauth.authorization_endpoint (kept (λ t. t.authorization_endpoint) old);
    token_endpoint = first_of oauth.token_endpoint (kept (λ t. t.token_endpoint) old);
    jwks_uri = first_of oauth.jwks_uri (kept (λ t. t.jwks_uri) old);
    status = active;
  }

  unfoldable pub upsert_tenant : (id : String) → WebhookPayload → OauthClient → Action Tenant
  upsert_tenant id payload oauth = do
    claimed ← gets (is_claimed payload.code payload.rest.tenant_id)
    raise_if claimed unique_violation
    old ← gets (λ db. lookup payload.code db.tenants)
    put_tenant payload.code (new_tenant id payload oauth old)

  unfoldable pub create_subscription : (id iv : String) → WebhookPayload → Action Tenant
  create_subscription id iv payload = do
    given ←
        or_raise (oauth_secret payload.rest.oauth_client)
          (bad_request "subscription.created requires oauth_client credentials")
    tenant ← upsert_tenant id payload given.0
    save_oauth_credential iv tenant.id given.1 given.2
    pure tenant

  -- `...(payload.credential?.client_id ? { clientId } : {})`
  unfoldable pub is_meant : Option Credential → TenantCredential crypto.Sealed → Bool
  is_meant none stored = true
  is_meant (some credential) stored = elim (is_truthy credential.client_id) [
    | none ↦ true
    | some client_id ↦ elim stored.client_id [ none ↦ false | some other ↦ other == client_id ]
  ]

  abbrev mark_revoked :
      (now : ℕ)
      → String
      → Option Credential
      → Option (TenantCredential crypto.Sealed)
      → Tenancy crypto.Sealed
      → Tenancy crypto.Sealed
  mark_revoked now tenant_id credential none db = db
  mark_revoked now tenant_id credential (some stored) db =
      if is_meant credential stored
      then record db {
        credentials = insert tenant_id (record stored { revoked_at = some now }) db.credentials;
      }
      else db

  -- `updateMany` on the one row of the tenant
  unfoldable pub revoke_credential : (now : ℕ) → String → Option Credential → Action Unit
  revoke_credential now tenant_id credential =
      modify (λ db. mark_revoked now tenant_id credential (lookup tenant_id db.credentials) db)

  -- the events behind the first `if`, for the tenant that was found
  unfoldable pub change_tenant : (iv : String) → (now : ℕ) → WebhookPayload → Tenant → Action Tenant
  change_tenant iv now payload tenant =
      if payload.event == "subscription.suspended"
      then put_tenant payload.code (record tenant { status = suspended })
      else if payload.event == "subscription.reactivated"
      then put_tenant payload.code (record tenant { status = active })
      else if payload.event == "subscription.terminated" || payload.event == "subscription.expired"
      then put_tenant payload.code (record tenant { status = revoked })
      else if payload.event == "credential.rotated"
      then (do
        given ←
            or_raise (rotated_secret payload.rest.credential)
              (bad_request "credential.rotated requires a new secret")
        save_oauth_credential iv tenant.id given.0 given.1
        pure tenant)
      else if payload.event == "credential.revoked"
      then revoke_credential now tenant.id payload.rest.credential >> pure tenant
      else pure tenant

  unfoldable pub apply_event : (id iv : String) → (now : ℕ) → WebhookPayload → Action Tenant
  apply_event id iv now payload =
      if payload.event == "subscription.created" then create_subscription id iv payload else (do
        found ← gets (λ db. lookup payload.code db.tenants)
        tenant ← or_raise found (not_found "Webhook tenant has not been initialized")
        change_tenant iv now payload tenant)

  abbrev put_receipt : String → WebhookReceipt → Action Unit
  put_receipt event_id receipt =
      modify (λ db. record db { receipts = insert event_id receipt db.receipts })

  -- the function inside `$transaction`, behind the test for a receipt
  unfoldable pub accept :
      (id iv : String) → (now : ℕ) → (raw_body : String) → WebhookPayload → Action Answer
  accept id iv now raw_body payload = do
    let receipt : WebhookReceipt = record {
      tenant_id = none;
      event_name = payload.event;
      payload_hash = crypto.hash raw_body;
    }
    put_receipt payload.event_id receipt
    tenant ← apply_event id iv now payload
    put_receipt payload.event_id (record receipt { tenant_id = some tenant.id })
    pure (record { duplicate = false })

  unfoldable pub deliver :
      (id iv : String) → (now : ℕ) → (raw_body : String) → WebhookPayload → Action Answer
  deliver id iv now raw_body payload = do
    seen ← gets (λ db. is_some (lookup payload.event_id db.receipts))
    if seen then pure (record { duplicate = true }) else accept id iv now raw_body payload

  -- the `catch`
  abbrev pub on_conflict : HttpError → Action Answer
  on_conflict why = if is_conflict why then pure (record { duplicate = true }) else raise why

  -- `receive`, behind the check of the signature, which has returned `event_name`
  unfoldable pub receive :
      (id iv : String)
      → (now : ℕ) → (event_name raw_body : String) → (parsed : Option Json) → Action Answer
  receive id iv now event_name raw_body parsed = do
    payload ← lift (parse_payload parsed)
    raise_if (not (payload.event == event_name))
        (bad_request "Webhook event header does not match payload")
    attempt (transaction (deliver id iv now raw_body payload)) on_conflict
