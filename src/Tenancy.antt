-- ===== src/Tenancy.antt =====
-- The tenants of backend/prisma/schema.prisma with their credentials and the receipts of webhooks. A
-- tenant is stored by its unique code, the client secret of a tenant by the tenant's id (no code
-- writes credentials of another kind), a receipt by the event's id.
use widget_demo.Prelude.{ℕ, String, Option}
use widget_demo.Table.{Table}

pub data TenantStatus : Type 0 where
  active suspended revoked : TenantStatus

pub record Tenant : Type 0 where
  pub id : String
  pub eduplus_tenant_id : Option String
  pub name : String
  pub issuer_url : Option String
  pub authorization_endpoint : Option String
  pub token_endpoint : Option String
  pub jwks_uri : Option String
  pub status : TenantStatus

pub record TenantCredential (Sealed : Type 0) : Type 0 where
  pub client_id : Option String
  pub secret : Sealed
  pub revoked_at : Option ℕ

pub record WebhookReceipt : Type 0 where
  pub tenant_id : Option String
  pub event_name : String
  pub payload_hash : String

pub record Tenancy (Sealed : Type 0) : Type 0 where
  pub tenants : Table String Tenant
  pub credentials : Table String (TenantCredential Sealed)
  pub receipts : Table String WebhookReceipt
