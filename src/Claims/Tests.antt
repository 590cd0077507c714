-- ===== src/Claims/Tests.antt =====
-- Runs of the claim checks.
use widget_demo.Prelude.{true, ◌≡◌, ◌↔◌, refl, none, some, [], ◌∷◌, ok, err, chars}
use widget_demo.Texts.{is_truthy, trim, trim_start, is_space, codes, lower}
use widget_demo.School.{student}
use widget_demo.Claims.{
  Payload, role, inherited, one, absent, text, other, WidgetIdentity, WidgetVerifyContext, shown,
  required_text, text_or_none, to_person_type, clean_texts, string_array, pair_of, clean_pairs,
  endpoint_pair_array, has_exact_audience, JwtVerify,
}
use widget_demo.Claims.Widget.{
  widget_identity, has_allowed_pairs, is_permitted, invalid_widget_token, check_widget, read_widget,
  verify_widget,
}
use widget_demo.Claims.App.{
  invalid_token, app_identity, is_complete, check_app, read_app, verify_app,
}
use widget_demo.Claims.Permitted.{IsVerified, verify_widget_iff}

abbrev payload : Payload
payload = record {
  sub = some "sub-1";
  jti = some "j";
  has_expiry = true;
  aud = one "app:exams:widget-data";
  tenant_id = absent;
  tid = other "77";
  identity_id = absent;
  eui = text " 9 ";
  identity_type = text "STU";
  eit = absent;
  azp = text "client";
  client_id = absent;
  name = absent;
  email = absent;
  handoff_type = text "widget_data";
  app_code = text "exams";
  config_snapshot_id = text "c";
  scope = text "widget.data.read";
  widget_keys = some (some "table" ∷ some "trend" ∷ some "table" ∷ []);
  data_endpoint_keys = some (some "table" ∷ []);
  widget_endpoint_pairs = some (
      some (record {
        widget_key = text "table";
        data_endpoint_key = text "table ";
        query_preset_key = absent;
      })
      ∷ []);
}

abbrev context : WidgetVerifyContext
context = record {
  issuer = "https://id";
  jwks_uri = "https://id/keys";
  client_id = "client";
  app_code = "exams";
  clock_tolerance = 0;
}

abbrev jwt_verify : JwtVerify
jwt_verify token jwks_uri issuer audience tolerance = some payload

abbrev identity : WidgetIdentity
identity = record {
  sub = "sub-1";
  tenant_id = "77";
  identity_id = "9";
  identity_type = role student;
  client_id = "client";
  app_code = "exams";
  config_snapshot_id = "c";
  scope = "widget.data.read";
  widget_keys = "table" ∷ "trend" ∷ [];
  data_endpoint_keys = "table" ∷ [];
  endpoint_pairs =
      record { widget_key = "table"; data_endpoint_key = "table"; query_preset_key = none } ∷ [];
}

accepted_token : verify_widget jwt_verify "token" context ≡ ok identity
unfolding verify_widget read_widget check_widget is_permitted has_allowed_pairs has_exact_audience
    widget_identity endpoint_pair_array clean_pairs pair_of string_array clean_texts to_person_type
    required_text text_or_none shown is_truthy codes lower chars trim trim_start is_space
accepted_token = refl

other_audience :
    verify_widget jwt_verify "token" (record context { app_code = "other" })
    ≡ err invalid_widget_token
unfolding verify_widget read_widget check_widget is_permitted has_allowed_pairs has_exact_audience
    widget_identity endpoint_pair_array clean_pairs pair_of string_array clean_texts to_person_type
    required_text text_or_none shown is_truthy codes lower chars trim trim_start is_space
other_audience = refl

one_blank_key : string_array (some (some "a" ∷ some " " ∷ [])) ≡ []
unfolding string_array clean_texts required_text shown chars trim trim_start is_space
one_blank_key = refl

-- the names that every object inherits are taken for person types
inherited_name : to_person_type (text "Constructor") ≡ some inherited
unfolding to_person_type shown codes lower chars
inherited_name = refl

unknown_kind : to_person_type (text "guest") ≡ none
unfolding to_person_type shown codes lower chars
unknown_kind = refl

app_token_of_other_client :
    verify_app jwt_verify "token" "https://id" "https://id/keys" "another" ≡ err invalid_token
unfolding verify_app read_app check_app is_complete app_identity to_person_type shown text_or_none
    codes lower chars is_truthy
app_token_of_other_client = refl

verify_widget_iff_example :
    (verify_widget jwt_verify "token" context ≡ ok identity)
    ↔ IsVerified jwt_verify "token" context identity
verify_widget_iff_example = verify_widget_iff jwt_verify "token" context identity
