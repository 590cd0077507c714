-- ===== src/WidgetSamples.antt =====
-- A tenant and a token for the tests of the widgets.
use widget_demo.Prelude.{
  String, true, none, some, [], ◌∷◌, ◌==◌, eq_refl, HttpError, Result, ok, err, unauthorized,
  if◌then◌else◌,
}
use widget_demo.Crypto.{IsCrypto}
use widget_demo.School.{student}
use widget_demo.Samples.{toy_crypto}
use widget_demo.Tenancy.{active, Tenant, Tenancy}
use widget_demo.WidgetSessions.{Json}
use widget_demo.WidgetRequests.{AuthRequest}
use widget_demo.WidgetAuth.{WidgetTokens, WidgetState}
use widget_demo.Claims.{role, WidgetIdentity, WidgetVerifyContext}

abbrev pub toy_json : Json
toy_json = record { text_le = λ a b. true; pair_le = λ a b. true; stringify = λ id context. id }

pub toy_crypto-IsCrypto : IsCrypto toy_crypto
toy_crypto-IsCrypto = record { opens = λ iv associated_data text. rw (eq_refl associated_data) }

abbrev pub school_tenant : Tenant
school_tenant = record {
  id = "t";
  eduplus_tenant_id = some "77";
  name = "School";
  issuer_url = some "https://id";
  authorization_endpoint = none;
  token_endpoint = none;
  jwks_uri = some "https://id/keys";
  status = active;
}

abbrev pub tenancy : Tenancy toy_crypto.Sealed
tenancy = record {
  tenants = ("school", school_tenant) ∷ [];
  credentials =
      (
        "t",
        record {
          client_id = some "client";
          secret = toy_crypto.encrypt "iv" "" "secret";
          revoked_at = none;
        },
      )
      ∷ [];
  receipts = [];
}

abbrev pub identity : WidgetIdentity
identity = record {
  sub = "sub-1";
  tenant_id = "77";
  identity_id = "9";
  identity_type = role student;
  client_id = "client";
  app_code = "exams";
  config_snapshot_id = "c";
  scope = "widget.data.read";
  widget_keys = "exam-score-table" ∷ "exam-score-trend" ∷ [];
  data_endpoint_keys = "exam-score-table" ∷ [];
  endpoint_pairs =
      record {
        widget_key = "exam-score-table";
        data_endpoint_key = "exam-score-table";
        query_preset_key = none;
      }
      ∷ [];
}

-- every token but one is that of the identity
abbrev pub verify : String → WidgetVerifyContext → Result HttpError WidgetIdentity
verify token context = if token == "forged" then err (unauthorized "forged") else ok identity

abbrev pub request : AuthRequest
request = record { client_id = "client"; handoff_code = "code"; idempotency_key = "key" }

abbrev pub empty_state : WidgetState toy_crypto toy_json
empty_state = record { tenancy = tenancy; sessions = []; exchanges = [] }

abbrev pub exchange : String → String → String → Result HttpError WidgetTokens
exchange client secret code = ok (record {
  access_token = "at";
  refresh_token = some "rt";
  expires_in = some 100;
  refresh_expires_in = none;
})
