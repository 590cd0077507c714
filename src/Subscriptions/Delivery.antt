-- ===== src/Subscriptions/Delivery.antt =====
-- How a delivery ends, the first time and again.
use widget_demo.Prelude.{
  ℕ, String, ◌≡◌, ◌≢◌, sym, ap, ◌∙◌, ◌⊎◌, inl, inr, true, false, Option, none, some, List, [], ◌∷◌,
  ◌==◌, eq_iff, Bool-cases, Option-cases, Outcome-cases, Result-cases, HttpError, bad_request,
  Result, ok, err,
}
use widget_demo.Table.{string_eq, lookup, insert}
use widget_demo.Table.Laws.{lookup-insert_self, lookup-insert_ne}
use widget_demo.Crypto.{Crypto}
use widget_demo.Webhooks.{Json, WebhookPayload, parse_payload}
use widget_demo.Tenancy.{Tenant, WebhookReceipt, Tenancy}
use widget_demo.Subscriptions.{Answer, apply_event, is_conflict, accept, deliver, receive}
use widget_demo.Subscriptions.Changes.{apply_event-IsApplied, status_after, old_status}

abbrev pub accepted : Answer
accepted = record { duplicate = false }

abbrev pub seen_before : Answer
seen_before = record { duplicate = true }

module _ (crypto : Crypto) where
  -- the event has been applied for the first time, and its receipt is stored
  pub record IsDelivered (raw_body : String) (payload : WebhookPayload)
      (before after : Tenancy crypto.Sealed) : Type 0 where
    pub new : lookup payload.event_id before.receipts ≡ none
    pub tenant : Tenant
    pub stored : lookup payload.code after.tenants ≡ some tenant
    pub status :
        tenant.status ≡ status_after payload.event (old_status (lookup payload.code before.tenants))
    pub other_tenants :
        (code : String)
        → payload.code ≢ code
        → lookup code after.tenants ≡ lookup code before.tenants
    pub other_credentials :
        (id : String) → tenant.id ≢ id → lookup id after.credentials ≡ lookup id before.credentials
    pub receipt :
        lookup payload.event_id after.receipts
        ≡ some (record {
          tenant_id = some tenant.id;
          event_name = payload.event;
          payload_hash = crypto.hash raw_body;
        })
    pub other_receipts :
        (event_id : String)
        → payload.event_id ≢ event_id
        → lookup event_id after.receipts ≡ lookup event_id before.receipts

  module _ (id iv : String) (now : ℕ) (raw_body : String) where
    accept-IsDelivered :
        (payload : WebhookPayload) (db : Tenancy crypto.Sealed)
        → lookup payload.event_id db.receipts ≡ none
        → ((why : HttpError) × (d : Tenancy crypto.Sealed) × (accept crypto id iv now raw_body
                payload db
              ≡ (err why, d)))
          ⊎ ((d : Tenancy crypto.Sealed) × (accept crypto id iv now raw_body payload db
                ≡ (ok accepted, d))
              × IsDelivered raw_body payload db d)
    unfolding accept
    accept-IsDelivered payload db new =
        let blank : WebhookReceipt = record {
          tenant_id = none;
          event_name = payload.event;
          payload_hash = crypto.hash raw_body;
        } in
        let start : Tenancy crypto.Sealed = record db {
          receipts = insert payload.event_id blank db.receipts;
        } in
        elim (Outcome-cases (apply_event crypto id iv now payload start)) [
          | inl (why, stopped) ↦
              inl (why, (apply_event crypto id iv now payload start).1, rw stopped)
          | inr (tenant, done) ↦
              let middle = (apply_event crypto id iv now payload start).1 in
              let applied =
                apply_event-IsApplied crypto payload start id iv now tenant middle done in
              let full : WebhookReceipt = record blank { tenant_id = some tenant.id } in
              inr (
                record middle { receipts = insert payload.event_id full middle.receipts },
                rw done,
                record {
                  new = new;
                  tenant = tenant;
                  stored = applied.stored;
                  status = applied.status;
                  other_tenants = applied.other_tenants;
                  other_credentials = applied.other_credentials;
                  receipt = lookup-insert_self payload.event_id full middle.receipts;
                  other_receipts = λ event_id other.
                      lookup-insert_ne payload.event_id event_id full middle.receipts other
                      ∙ ap (lookup event_id) applied.receipts
                      ∙ lookup-insert_ne payload.event_id event_id blank db.receipts other;
                },
              )
        ]

    -- What a delivery does: it leaves everything as it was and does not answer that it has accepted
    -- a new event, or it applies the event of a payload whose identifier was not known before to
    -- the tenant of the payload's code and to nothing else, and stores a receipt.
    pub receive-IsDelivered :
        (event_name : String) (parsed : Option Json) (db : Tenancy crypto.Sealed)
        → ((answer : Result HttpError Answer) × (receive crypto id iv now event_name raw_body parsed
                db
              ≡ (answer, db))
            × (answer ≢ ok accepted))
          ⊎ ((payload : WebhookPayload) × (after : Tenancy crypto.Sealed) × (parse_payload parsed
                ≡ ok payload)
              × (payload.event ≡ event_name)
              × (receive crypto id iv now event_name raw_body parsed db ≡ (ok accepted, after))
              × IsDelivered raw_body payload db after)
    unfolding receive deliver
    receive-IsDelivered event_name parsed db = elim (Result-cases (parse_payload parsed)) [
      | inl (why, wrong) ↦ inl (err why, rw wrong, λ e. absurd (cc))
      | inr (payload, right) ↦ elim (Bool-cases (payload.event == event_name)) [
        | inr other ↦ inl (
          err (bad_request "Webhook event header does not match payload"),
          rw (right, other),
          λ e. absurd (cc),
        )
        | inl same ↦ elim (Option-cases (lookup payload.event_id db.receipts)) [
          | inr (old, known) ↦ inl (ok seen_before, rw (right, same, known), λ e. absurd (cc))
          | inl new ↦ elim (accept-IsDelivered payload db new) [
            | inr (d, done, facts) ↦
                inr (payload, d, right, (eq_iff _ _).0 same, rw (right, same, new, done), facts)
            | inl (why, d, stopped) ↦ elim (Bool-cases (is_conflict why)) [
              | inl conflict ↦
                  inl (ok seen_before, rw (right, same, new, stopped, conflict), λ e. absurd (cc))
              | inr other ↦ inl (err why, rw (right, same, new, stopped, other), λ e. absurd (cc))
            ]
          ]
        ]
      ]
    ]

  -- a request to the webhook; `id` and `iv` are drawn while it runs, at the time `now`
  pub record WebhookDelivery : Type 0 where
    pub id : String
    pub iv : String
    pub now : ℕ
    pub event_name : String
    pub raw_body : String
    pub parsed : Option Json

  abbrev pub receive_one :
      WebhookDelivery → Tenancy crypto.Sealed → Result HttpError Answer × Tenancy crypto.Sealed
  receive_one d db = receive crypto d.id d.iv d.now d.event_name d.raw_body d.parsed db

  -- deliveries one after the other
  unfoldable pub receive_all : List WebhookDelivery → Tenancy crypto.Sealed → Tenancy crypto.Sealed
  receive_all [] db = db
  receive_all (d ∷ rest) db = receive_all rest (receive_one d db).1

  receipt_stays :
      (d : WebhookDelivery) (db : Tenancy crypto.Sealed) (event_id : String) (old : WebhookReceipt)
      → lookup event_id db.receipts ≡ some old
      → lookup event_id (receive_one d db).1.receipts ≡ some old
  receipt_stays d db event_id old known =
      elim (receive-IsDelivered d.id d.iv d.now d.raw_body d.event_name d.parsed db) [
        | inl (answer, kept, other) ↦ rw kept known
        | inr (payload, after, right, named, done, facts) ↦ rw done (
            facts.other_receipts event_id
              (λ same. absurd (cc (facts.new, known, ap (λ k. lookup k db.receipts) same)))
            ∙ known)
      ]

  receipt_stays_through :
      (between : List WebhookDelivery) (db : Tenancy crypto.Sealed) (event_id : String)
      (old : WebhookReceipt)
      → lookup event_id db.receipts ≡ some old
      → lookup event_id (receive_all between db).receipts ≡ some old
  unfolding receive_all
  receipt_stays_through [] db event_id old known = known
  receipt_stays_through (d ∷ rest) db event_id old known =
      receipt_stays_through rest (receive_one d db).1 event_id old
        (receipt_stays d db event_id old known)

  -- An event that has been accepted is a duplicate from then on: whatever deliveries come between,
  -- a later one that has the same identifier and is well formed, with its event in the header, is
  -- answered as a duplicate and changes nothing, whatever else it says.
  pub receive_again :
      (first : WebhookDelivery) (between : List WebhookDelivery) (later : WebhookDelivery)
      (payload payload' : WebhookPayload) (db after : Tenancy crypto.Sealed)
      → parse_payload first.parsed ≡ ok payload
      → receive_one first db ≡ (ok accepted, after)
      → parse_payload later.parsed ≡ ok payload'
      → payload'.event_id ≡ payload.event_id
      → payload'.event ≡ later.event_name
      → receive_one later (receive_all between after) ≡ (ok seen_before, receive_all between after)
  unfolding receive deliver
  receive_again first between later payload payload' db after right done right' same_id named =
      elim (receive-IsDelivered first.id first.iv first.now first.raw_body first.event_name
        first.parsed db) [
          | inl (answer, kept, other) ↦ absurd (other (ap (λ r. r.0) (sym kept ∙ done)))
          | inr (p, d, parsed_p, its_event, done', facts) ↦
              let same_payload : p ≡ payload = cc (parsed_p, right) in
              let same_after : d ≡ after = ap (λ r. r.1) (sym done' ∙ done) in
              let known : lookup payload'.event_id after.receipts ≡ some _ =
                ap (λ k. lookup k after.receipts)
                  (same_id ∙ ap (λ (q : WebhookPayload). q.event_id) (sym same_payload))
                ∙ ap (λ (t : Tenancy crypto.Sealed). lookup p.event_id t.receipts) (sym same_after)
                ∙ facts.receipt in
              rw (
                right',
                (eq_iff payload'.event later.event_name).1 named,
                receipt_stays_through between after payload'.event_id _ known,
              )
        ]
