-- ===== src/Subscriptions/Tests.antt =====
-- Webhooks of one tenant.
use widget_demo.Prelude.{
  String, ◌≡◌, ◌≢◌, ◌↔◌, ◌⊎◌, refl, none, some, [], ◌∷◌, HttpError, Result, ok, ◌==◌, if◌then◌else◌,
}
use widget_demo.Table.{string_eq, lookup, insert}
use widget_demo.Texts.{is_truthy}
use widget_demo.Samples.{toy_crypto}
use widget_demo.Webhooks.{
  Payload, value, WebhookPayload, check_payload, parse_payload, oauth_secret,
}
use widget_demo.Tenancy.{Tenancy}
use widget_demo.Subscriptions.{
  Answer, save_oauth_credential, is_claimed, upsert_tenant, create_subscription, apply_event,
  accept, deliver, receive,
}
use widget_demo.Subscriptions.Delivery.{
  accepted, seen_before, IsDelivered, receive-IsDelivered, WebhookDelivery, receive_one,
  receive_all, receive_again,
}
use widget_demo.Subscriptions.Signature.{Headers, verify}
use widget_demo.Subscriptions.Signed.{IsSigned, verify_iff}

abbrev created : Payload
created = record {
  event = some "subscription.created";
  event_id = some "e1";
  tenant_code = some "north";
  tenant_id = "7";
  tenant_name = "North School";
  oauth_client = some (record {
    client_id = some "client";
    client_secret = some "secret";
    auth_server_url = none;
    authorization_endpoint = none;
    token_endpoint = some "https://sso/realms/north/protocol/openid-connect/token";
    jwks_uri = none;
  });
  credential = none;
}

abbrev empty : Tenancy (toy_crypto.Sealed)
empty = record { tenants = []; credentials = []; receipts = [] }

abbrev after : Tenancy (toy_crypto.Sealed)
after =
    (receive toy_crypto "t1" "iv" 5 "subscription.created" "body" (some (value created)) empty).1

abbrev checked : WebhookPayload
checked = record { event = "subscription.created"; event_id = "e1"; code = "north"; rest = created }

receive-IsDelivered_example :
    ((answer : Result HttpError Answer) × (receive toy_crypto "t1" "iv" 5 "subscription.created"
          "body"
          (some (value created))
          empty
        ≡ (answer, empty))
      × (answer ≢ ok accepted))
    ⊎ ((payload : WebhookPayload) × (end : Tenancy (toy_crypto.Sealed)) × (parse_payload
            (some (value created))
          ≡ ok payload)
        × (payload.event ≡ "subscription.created")
        × (receive toy_crypto "t1" "iv" 5 "subscription.created" "body" (some (value created)) empty
            ≡ (ok accepted, end))
        × IsDelivered toy_crypto "body" payload empty end)
receive-IsDelivered_example =
    receive-IsDelivered toy_crypto "t1" "iv" 5 "body" "subscription.created" (some (value created))
      empty

abbrev first_delivery : WebhookDelivery toy_crypto
first_delivery = record {
  id = "t1";
  iv = "iv";
  now = 5;
  event_name = "subscription.created";
  raw_body = "body";
  parsed = some (value created);
}

abbrev unreadable : WebhookDelivery toy_crypto
unreadable = record first_delivery { now = 6; parsed = none }

abbrev later_delivery : WebhookDelivery toy_crypto
later_delivery = record first_delivery { id = "t2"; iv = "iv2"; now = 7 }

receive_again_example :
    receive_one toy_crypto later_delivery (receive_all toy_crypto (unreadable ∷ []) after)
    ≡ (ok seen_before, receive_all toy_crypto (unreadable ∷ []) after)
unfolding receive deliver accept apply_event create_subscription upsert_tenant save_oauth_credential
    is_claimed oauth_secret parse_payload check_payload is_truthy lookup insert
receive_again_example =
    receive_again toy_crypto first_delivery (unreadable ∷ []) later_delivery checked checked empty
      after refl refl refl refl refl

abbrev ones : String
ones = "sha256=0101010101010101010101010101010101010101010101010101010101010101"

abbrev headers : Headers
headers name =
    if name == "x-eduplus-timestamp"
    then some "1000"
    else if name == "x-eduplus-event"
    then some "credential.revoked"
    else some ones

verify_iff_example :
    (verify toy_crypto (λ text. some 1000) 1200000 "{}" headers ≡ ok "credential.revoked")
    ↔ IsSigned toy_crypto (λ text. some 1000) 1200000 "{}" headers "credential.revoked"
verify_iff_example =
    verify_iff toy_crypto (λ text. some 1000) 1200000 "{}" headers "credential.revoked"
