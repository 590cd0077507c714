-- ===== src/Subscriptions/Changes.antt =====
-- What one event changes.
use mathlib.Core.Path.{subst}
use widget_demo.Prelude.{
  Result, ℕ, String, ◌≡◌, ◌≢◌, refl, sym, ap, inl, inr, true, false, ◌||◌, Option, none, some, ◌==◌,
  eq_iff, arith, Bool-cases, Option-cases, HttpError, ok, if◌then◌else◌,
}
use widget_demo.Table.{Table, string_eq, lookup, insert}
use widget_demo.Table.Laws.{lookup-insert_self, lookup-insert_ne}
use widget_demo.Crypto.{Crypto}
use widget_demo.Webhooks.{Credential, WebhookPayload, oauth_secret, rotated_secret}
use widget_demo.Tenancy.{
  TenantStatus, active, suspended, revoked, Tenant, TenantCredential, Tenancy,
}
use widget_demo.Subscriptions.{
  new_tenant, new_credential, save_oauth_credential, is_claimed, upsert_tenant, create_subscription,
  is_meant, revoke_credential, change_tenant, apply_event,
}

-- the status that a tenant has after an event; events about credentials leave it
abbrev pub status_after : String → TenantStatus → TenantStatus
status_after event old =
    if event == "subscription.created" || event == "subscription.reactivated"
    then active
    else if event == "subscription.suspended"
    then suspended
    else if event == "subscription.terminated" || event == "subscription.expired"
    then revoked
    else old

abbrev pub old_status : Option Tenant → TenantStatus
old_status none = active
old_status (some tenant) = tenant.status

abbrev pub Ended : {S : Type 0} → Tenant → S → Result HttpError Tenant × S
Ended tenant after = (ok tenant, after)

module _ (crypto : Crypto) (payload : WebhookPayload) (db : Tenancy crypto.Sealed) where
  pub record IsApplied (tenant : Tenant) (after : Tenancy crypto.Sealed) : Type 0 where
    pub receipts : after.receipts ≡ db.receipts
    pub stored : lookup payload.code after.tenants ≡ some tenant
    pub status :
        tenant.status ≡ status_after payload.event (old_status (lookup payload.code db.tenants))
    pub other_tenants :
        (code : String) → payload.code ≢ code → lookup code after.tenants ≡ lookup code db.tenants
    pub other_credentials :
        (id : String) → tenant.id ≢ id → lookup id after.credentials ≡ lookup id db.credentials

  -- a row of the tenant has been written, and perhaps its credential
  written_IsApplied :
      (tenant : Tenant) (credentials : Table String (TenantCredential crypto.Sealed))
      → tenant.status ≡ status_after payload.event (old_status (lookup payload.code db.tenants))
      → ((id : String) → tenant.id ≢ id → lookup id credentials ≡ lookup id db.credentials)
      → IsApplied tenant
          (record db { tenants = insert payload.code tenant db.tenants; credentials = credentials })
  written_IsApplied tenant credentials status others = record {
    receipts = refl;
    stored = lookup-insert_self payload.code tenant db.tenants;
    status = status;
    other_tenants = λ code other. lookup-insert_ne payload.code code tenant db.tenants other;
    other_credentials = others;
  }

  transfer :
      {tenant t : Tenant} {after d : Tenancy crypto.Sealed}
      → Ended t d ≡ Ended tenant after
      → IsApplied t d
      → IsApplied tenant after
  transfer {tenant} {t} {after} {d} e h =
      let same_tenant : t ≡ tenant = cc in
      let same_db : d ≡ after = ap (λ r. r.1) e in
      subst (λ x. IsApplied x after) same_tenant (subst (IsApplied t) same_db h)

  create-IsApplied :
      (id iv : String) (tenant : Tenant) (after : Tenancy crypto.Sealed)
      → (payload.event == "subscription.created") ≡ true
      → create_subscription crypto id iv payload db ≡ Ended tenant after
      → IsApplied tenant after
  unfolding create_subscription upsert_tenant save_oauth_credential
  create-IsApplied id iv tenant after created h =
      elim (Option-cases (oauth_secret payload.rest.oauth_client)) [
        | inl missing ↦ absurd (cc (rw missing at h))
        | inr (given, found) ↦
            elim (Bool-cases (is_claimed crypto payload.code payload.rest.tenant_id db)) [
              | inl claimed ↦ absurd (cc (rw (found, claimed) at h))
              | inr free ↦
                  let t = new_tenant crypto id payload given.0 (lookup payload.code db.tenants) in
                  transfer (rw (found, free) at h) (
                    written_IsApplied t
                      (insert t.id (new_credential crypto iv given.1 given.2) db.credentials)
                      (ground (arith, created))
                      (λ other differs. lookup-insert_ne t.id other _ db.credentials differs))
            ]
      ]

  -- only the credential of the stored tenant is written
  credential_IsApplied :
      (tenant : Tenant) (credentials : Table String (TenantCredential crypto.Sealed))
      → lookup payload.code db.tenants ≡ some tenant
      → tenant.status ≡ status_after payload.event tenant.status
      → ((id : String) → tenant.id ≢ id → lookup id credentials ≡ lookup id db.credentials)
      → IsApplied tenant (record db { credentials = credentials })
  credential_IsApplied tenant credentials found status others = record {
    receipts = refl;
    stored = found;
    status = rw found status;
    other_tenants = λ code other. refl;
    other_credentials = others;
  }

  revoke-IsApplied :
      (now : ℕ) (tenant : Tenant) (credential : Option Credential)
      → lookup payload.code db.tenants ≡ some tenant
      → tenant.status ≡ status_after payload.event tenant.status
      → IsApplied tenant (revoke_credential crypto now tenant.id credential db).1
  unfolding revoke_credential
  revoke-IsApplied now tenant credential found status =
      elim (Option-cases (lookup tenant.id db.credentials)) [
        | inl missing ↦
            rw missing (credential_IsApplied tenant db.credentials found status (λ id other. refl))
        | inr (old, stored) ↦ elim (Bool-cases (is_meant crypto credential old)) [
          | inl meant ↦
              rw (stored, meant)
                (credential_IsApplied tenant _ found status
                  (λ id other. lookup-insert_ne tenant.id id _ db.credentials other))
          | inr other ↦
              rw (stored, other)
                (credential_IsApplied tenant db.credentials found status (λ id other. refl))
        ]
      ]

  module _ (iv : String) (now : ℕ) (old : Tenant)
      (found : lookup payload.code db.tenants ≡ some old)
      (changed : (payload.event == "subscription.created") ≡ false) where
    row_IsApplied :
        (status : TenantStatus)
        → status ≡ status_after payload.event old.status
        → IsApplied
            (record old { status = status })
            (record db {
              tenants = insert payload.code (record old { status = status }) db.tenants;
            })
    row_IsApplied status e =
        written_IsApplied (record old { status = status }) db.credentials (rw found e)
          (λ id other. refl)

    change-IsApplied :
        (tenant : Tenant) (after : Tenancy crypto.Sealed)
        → change_tenant crypto iv now payload old db ≡ Ended tenant after
        → IsApplied tenant after
    unfolding change_tenant save_oauth_credential revoke_credential
    change-IsApplied tenant after h =
        elim (Bool-cases (payload.event == "subscription.suspended")) [
          | inl suspend ↦ transfer (rw suspend at h) (
              row_IsApplied suspended (
                sym (
                  ap (λ event. status_after event old.status)
                    ((eq_iff _ "subscription.suspended").0 suspend))))
          | inr e₁ ↦ elim (Bool-cases (payload.event == "subscription.reactivated")) [
            | inl reactivate ↦
                transfer (rw (e₁, reactivate) at h) (row_IsApplied active (ground arith))
            | inr e₂ ↦
                elim (Bool-cases (
                  payload.event == "subscription.terminated"
                  || payload.event == "subscription.expired")) [
                    | inl end ↦
                        transfer (rw (e₁, e₂, end) at h) (row_IsApplied revoked (ground arith))
                    | inr e₃ ↦
                        let same : old.status ≡ status_after payload.event old.status =
                          ground arith in
                        elim (Bool-cases (payload.event == "credential.rotated")) [
                          | inl rotated ↦
                              elim (Option-cases (rotated_secret payload.rest.credential)) [
                                | inl missing ↦ absurd (cc (rw (e₁, e₂, e₃, rotated, missing) at h))
                                | inr (given, known) ↦
                                    transfer (rw (e₁, e₂, e₃, rotated, known) at h) (
                                      credential_IsApplied old _ found same (λ id other.
                                        lookup-insert_ne old.id id _ db.credentials other))
                              ]
                          | inr e₄ ↦ elim (Bool-cases (payload.event == "credential.revoked")) [
                            | inl revoke ↦
                                transfer (rw (e₁, e₂, e₃, e₄, revoke) at h)
                                  (revoke-IsApplied now old payload.rest.credential found same)
                            | inr e₅ ↦ transfer (rw (e₁, e₂, e₃, e₄, e₅) at h) (
                                credential_IsApplied old db.credentials found same
                                  (λ id other. refl))
                          ]
                        ]
                  ]
          ]
        ]

  pub apply_event-IsApplied :
      (id iv : String) (now : ℕ) (tenant : Tenant) (after : Tenancy crypto.Sealed)
      → apply_event crypto id iv now payload db ≡ Ended tenant after
      → IsApplied tenant after
  unfolding apply_event
  apply_event-IsApplied id iv now tenant after h =
      elim (Bool-cases (payload.event == "subscription.created")) [
        | inl created ↦ create-IsApplied id iv tenant after created (rw created at h)
        | inr changed ↦ elim (Option-cases (lookup payload.code db.tenants)) [
          | inl missing ↦ absurd (cc (rw (changed, missing) at h))
          | inr (old, found) ↦
              change-IsApplied iv now old found changed tenant after (rw (changed, found) at h)
        ]
      ]
