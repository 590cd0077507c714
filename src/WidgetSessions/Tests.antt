-- ===== src/WidgetSessions/Tests.antt =====
-- One session of a widget.
use widget_demo.Prelude.{ap, ◌≡◌, refl, none, some, List, [], ◌∷◌, ◌==◌, arith, ok, err}
use widget_demo.Sorting.{sort, insert}
use widget_demo.Table.{string_eq, lookup, insert as insert_row}
use widget_demo.Texts.{is_truthy}
use widget_demo.Samples.{toy_crypto}
use widget_demo.WidgetSamples.{toy_json, toy_crypto-IsCrypto}
use widget_demo.WidgetSessions.{
  SessionContext, WidgetSession, Sessions, session_conflict, session_revoked, access_token_mismatch,
  normalize, normalized, same_authorization, aad_for, context_of, context_matches, assert_context,
  assert_usable, LoadedSession, create, load, is_rotatable, rotate, revoke,
}
use widget_demo.WidgetSessions.Normal.{IsOrdered}
use widget_demo.WidgetSessions.Rotation.{load-create, rotate_replaces}
use widget_demo.WidgetSessions.Revocation.{
  SessionRequest, create_request, load_request, perform_all, perform_all-revoked,
}

toy_json-IsOrdered : IsOrdered toy_json
toy_json-IsOrdered = record {
  texts = record { trans = λ x y z h k. refl; total = λ x y h. refl };
  pairs = record { trans = λ x y z h k. refl; total = λ x y h. refl };
}

abbrev context : SessionContext
context = record {
  tenant_id = "t";
  user_id = "u";
  identity_id = "i";
  identity_type = "teacher";
  app_code = "app";
  config_snapshot_id = "c";
  scope = "widgets";
  authorization = record {
    widget_keys = "b" ∷ "a" ∷ [];
    data_endpoint_keys = "d" ∷ [];
    endpoint_pairs =
        record { widget_key = "a"; data_endpoint_key = "d"; query_preset_key = some "" } ∷ [];
  };
}

abbrev created : Sessions toy_crypto toy_json
created = (create toy_crypto toy_json "s1" "iv" context "access" "refresh" 100 []).1

load-create_example :
    (load toy_crypto toy_json 50 "s1" "access" context created).0
    ≡ ok (record {
      expires_at = 100;
      context = normalized toy_crypto toy_json context;
      refresh_token = "refresh";
    })
load-create_example =
    load-create toy_crypto toy_json toy_crypto-IsCrypto toy_json-IsOrdered 50 "s1" "iv" context
      "access" "refresh" 100 [] (omega arith)

abbrev rotated : Sessions toy_crypto toy_json
rotated =
    (rotate toy_crypto toy_json 50 51 "s1" "iv2" "access" context "access2" "refresh2" (some 200)
      created).1

rotate_replaces_example :
    (rotate toy_crypto toy_json 60 61 "s1" "iv3" "access" context "access3" "refresh3" none rotated
      ≡ (err session_conflict, rotated))
    × (load toy_crypto toy_json 60 "s1" "access" context rotated
        ≡ (err access_token_mismatch, rotated))
    × ((r : LoadedSession toy_crypto toy_json) × (load toy_crypto toy_json 60 "s1" "access2" context
            rotated
          ≡ (ok r, rotated))
        × (r.refresh_token ≡ "refresh2"))
unfolding create rotate assert_usable assert_context is_rotatable context_of context_matches
    same_authorization normalize aad_for sort insert is_truthy lookup insert_row
rotate_replaces_example =
    rotate_replaces toy_crypto toy_json toy_crypto-IsCrypto 50 51 "s1" "iv2" "access" context
      "access2" "refresh2" 200 created rotated refl (λ e. absurd (cc (e))) 60 61 "iv3" "access3"
      "refresh3" context none (omega arith)

abbrev gone : WidgetSession (toy_crypto.Sealed)
gone = record {
  context = context;
  access_token_hash = "#access";
  refresh_token = ("s1", "refresh");
  expires_at = 100;
  revoked_at = some 10;
}

abbrev requests : List SessionRequest
requests = create_request "s2" "iv" context "a" "r" 100 ∷ load_request 20 "s1" "access" context ∷ []

perform_all-revoked_example :
    (lookup "s1" (perform_all toy_crypto toy_json requests (("s1", gone) ∷ [])) ≡ some gone)
    × ((load toy_crypto toy_json 30 "s1" "access" context
          (perform_all toy_crypto toy_json requests (("s1", gone) ∷ []))).0
        ≡ err session_revoked)
    × ((rotate toy_crypto toy_json 30 31 "s1" "iv" "access" context "x" "y" none
          (perform_all toy_crypto toy_json requests (("s1", gone) ∷ []))).0
        ≡ err session_revoked)
    × ((revoke toy_crypto toy_json 30 31 "s1" context
          (perform_all toy_crypto toy_json requests (("s1", gone) ∷ []))).0
        ≡ err session_revoked)
unfolding lookup
perform_all-revoked_example =
    perform_all-revoked toy_crypto toy_json "s1" gone requests (("s1", gone) ∷ []) refl refl
      ((λ e. absurd (cc (ap (λ k. k == "s1") e))), (tt, tt)) 30 31 "iv" "access" "x" "y" context
      none
