-- ===== src/WidgetAuth/Tests.antt =====
-- Runs of authorization and refresh.
use widget_demo.Prelude.{
  String, false, ◌≡◌, refl, Option, none, some, HttpError, Result, ok, err, arith, bad_gateway,
  bad_request, chars,
}
use widget_demo.Table.{string_eq, lookup, insert, erase}
use widget_demo.Texts.{is_truthy, trim, trim_start, is_space, codes, units, bearer, after_mark}
use widget_demo.Samples.{toy_crypto}
use widget_demo.WidgetSamples.{
  empty_state, exchange, request, identity, school_tenant, toy_json, toy_crypto-IsCrypto, tenancy,
  verify,
}
use widget_demo.Sessions.{is_active_tenant}
use widget_demo.WidgetSessions.{create}
use widget_demo.Claims.{required_text, shown}
use widget_demo.WidgetRequests.{
  AuthBody, RefreshBody, good_text, read_auth, validate_auth_input, read_refresh,
  validate_refresh_input, bearer_token,
}
use widget_demo.WidgetAuth.{
  Client, WidgetTokenResponse, WidgetTokens, AuthExchange, WidgetState, client_matches, add_match,
  with_issuer, only_client, load_credential,
}
use widget_demo.WidgetAuth.Retried as Retried
use widget_demo.WidgetAuth.Retried.{authorize_retry}
use widget_demo.WidgetAuth.Replay as Replay
use widget_demo.WidgetAuth.Replay.{
  key_hash, request_hash, open_response, replay_of, load_replay, claim_on, claim_exchange,
  new_exchange, release_on, release, store_on, store_replay,
}
use widget_demo.WidgetAuth.Authorize.{
  save_session, accept_identity, accept_tokens, exchange_code, run_exchange, unless_taken,
  unless_replayed, authorize_request, authorize,
}
use widget_demo.WidgetAuth.Ended as Ended
use widget_demo.WidgetAuth.Ended.{authorize-IsEnded}
use widget_demo.WidgetAuth.Once.{authorize_again}
use widget_demo.WidgetAuth.Refresh.{refresh}
use widget_demo.WidgetAuth.Renewed as Renewed
use widget_demo.WidgetAuth.Renewed.{refresh-IsEnded}
use widget_demo.WidgetAuth.ToyCodec.{toy_codec, toy_codec-IsCodec}

abbrev body : Option AuthBody
body = some (record {
  grant_type = some "eduplus_widget_handoff";
  client_id = some "client";
  handoff_code = some "code";
  idempotency_key = some "key";
  has_others = false;
})

valid_body : validate_auth_input body ≡ ok request
unfolding validate_auth_input read_auth good_text required_text shown units chars trim trim_start
    is_space
valid_body = refl

blank_key :
    validate_auth_input (
      some (record {
        grant_type = some "eduplus_widget_handoff";
        client_id = some "client";
        handoff_code = some "code";
        idempotency_key = some "  ";
        has_others = false;
      }))
    ≡ err (bad_request "idempotency_key is required")
unfolding validate_auth_input read_auth good_text required_text shown units chars trim trim_start
    is_space
blank_key = refl

abbrev no_exchange : String → String → String → Result HttpError WidgetTokens
no_exchange client secret code = err (bad_gateway "down")

abbrev response : WidgetTokenResponse
response = record {
  access_token = "at";
  expires_in = 100;
  scope = "widget.data.read";
  refresh_session_id = "s";
  refresh_after = 40;
}

abbrev granted : WidgetState toy_crypto toy_json
granted =
    (authorize toy_crypto toy_json toy_codec "exams" exchange verify 1 2 3 "s" "iv" "iv2" body
      empty_state).1

granted_response :
    (authorize toy_crypto toy_json toy_codec "exams" exchange verify 1 2 3 "s" "iv" "iv2" body
      empty_state).0
    ≡ ok response
unfolding authorize authorize_request unless_replayed unless_taken run_exchange exchange_code
    accept_tokens accept_identity save_session load_replay replay_of claim_exchange claim_on
    store_replay store_on load_credential only_client with_issuer client_matches add_match
    is_active_tenant is_truthy create validate_auth_input read_auth good_text required_text shown
    units chars trim trim_start is_space lookup insert key_hash request_hash
granted_response = refl

failed_exchange :
    authorize toy_crypto toy_json toy_codec "exams" no_exchange verify 1 2 3 "s" "iv" "iv2" body
      empty_state
    ≡ (err (bad_gateway "down"), empty_state)
unfolding authorize authorize_request unless_replayed unless_taken run_exchange exchange_code
    release release_on load_replay replay_of claim_exchange claim_on load_credential only_client
    with_issuer client_matches add_match is_active_tenant is_truthy validate_auth_input read_auth
    good_text required_text shown units chars trim trim_start is_space lookup insert erase key_hash
    request_hash
failed_exchange = refl

authorize-IsEnded_example :
    Ended.IsEnded toy_crypto toy_json toy_codec toy_crypto-IsCrypto toy_codec-IsCodec "exams"
      exchange verify 1 2 3 "s" "iv" "iv2" request empty_state
      (authorize toy_crypto toy_json toy_codec "exams" exchange verify 1 2 3 "s" "iv" "iv2" body
        empty_state)
authorize-IsEnded_example =
    authorize-IsEnded toy_crypto toy_json toy_codec toy_crypto-IsCrypto toy_codec-IsCodec "exams"
      exchange verify 1 2 3 "s" "iv" "iv2" request body empty_state valid_body

abbrev refresh_body : Option RefreshBody
refresh_body = some (record {
  grant_type = some "eduplus_widget_token_refresh";
  refresh_session_id = some "s";
  request_id = some "r";
  has_others = false;
})

refresh-IsEnded_example :
    Renewed.IsEnded toy_crypto toy_json "exams"
      (λ endpoint. exchange)
      verify
      5
      6
      7
      "iv3"
      granted
      "s"
      "at"
      (refresh toy_crypto toy_json "exams"
        (λ endpoint. exchange)
        verify
        5
        6
        7
        "iv3"
        refresh_body
        (some "Bearer at")
        granted)
unfolding validate_refresh_input read_refresh good_text required_text shown units bearer_token
    bearer after_mark chars trim trim_start is_space codes
refresh-IsEnded_example =
    refresh-IsEnded toy_crypto toy_json "exams" (λ endpoint. exchange) verify 5 6 7 "iv3" granted
      "s" "at" refresh_body (some "Bearer at") refl refl

abbrev granted_row : AuthExchange (toy_crypto.Sealed)
granted_row = record (new_exchange toy_crypto toy_json toy_codec request 2) {
  response = some (
      toy_crypto.encrypt "iv2" (Replay.bound_to toy_crypto toy_json toy_codec request)
        (toy_codec.print response));
}

authorize_again_example :
    authorize toy_crypto toy_json toy_codec "exams" no_exchange verify 50000 50001 50002 "s2" "iv3"
      "iv4" body granted
    ≡ (ok response, granted)
unfolding authorize authorize_request unless_replayed unless_taken run_exchange exchange_code
    accept_tokens accept_identity save_session load_replay replay_of claim_exchange claim_on
    store_replay store_on load_credential only_client with_issuer client_matches add_match
    is_active_tenant is_truthy create validate_auth_input read_auth good_text required_text shown
    units chars trim trim_start is_space lookup insert key_hash request_hash
authorize_again_example =
    authorize_again toy_crypto toy_json toy_codec "exams" request toy_crypto-IsCrypto
      toy_codec-IsCodec exchange verify 1 2 3 "s" "iv" "iv2" body empty_state granted response
      granted_row no_exchange verify 50000 50001 50002 "s2" "iv3" "iv4" valid_body refl refl
      (omega arith)

abbrev known_client : Client (toy_crypto.Sealed)
known_client = record {
  context = record { tenant = school_tenant; client_id = "client"; secret = ("", "secret") };
  issuer = "https://id";
}

free_key : lookup (key_hash toy_crypto toy_json toy_codec request) empty_state.exchanges ≡ none
unfolding lookup
free_key = refl

is_known : load_credential "client" tenancy ≡ ok known_client
unfolding load_credential only_client with_issuer client_matches add_match is_active_tenant
    is_truthy
is_known = refl

is_there : is_truthy (some "rt") ≡ some "rt"
unfolding is_truthy
is_there = refl

abbrev is_available :
    Retried.IsAvailable toy_crypto toy_json toy_codec "exams" verify request body valid_body
      empty_state known_client "secret" free_key is_known refl exchange
is_available = record {
  tokens = _;
  given = refl;
  refresh_token = "rt";
  refreshable = is_there;
  expires_in = 100;
  lasts = refl;
  identity = identity;
  verified = refl;
  tenant = refl;
  is_person = refl;
}

authorize_retry_example :
    (between : WidgetState toy_crypto toy_json) × (authorize toy_crypto toy_json toy_codec "exams"
        no_exchange verify 1 2 3 "s" "iv" "iv2" body empty_state
      ≡ (err (bad_gateway "down"), between))
    × Retried.IsGranted toy_crypto toy_json toy_codec "exams" verify request body valid_body
        empty_state known_client "secret" free_key is_known refl "at" "s2"
        (authorize toy_crypto toy_json toy_codec "exams" exchange verify 5 6 7 "s2" "iv" "iv2" body
          between)
authorize_retry_example =
    authorize_retry toy_crypto toy_json toy_codec "exams" verify request body valid_body empty_state
      known_client "secret" free_key is_known refl no_exchange exchange (bad_gateway "down") 1 2 3 5
      6 7 "s" "iv" "iv2" "s2" "iv" "iv2" refl is_available
