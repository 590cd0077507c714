-- ===== src/Security/Tests.antt =====
-- Requests at the guards.
use widget_demo.Prelude.{
  ◌-◌, String, ◌≡◌, ◌≢◌, ◌↔◌, refl, inl, inr, some, List, [], ◌∷◌, ok, leb, if◌then◌else◌, head?,
  chars, arith,
}
use widget_demo.Table.{string_eq, Table, lookup}
use widget_demo.Texts.{codes, lower}
use widget_demo.Security.{Request}
use widget_demo.Security.RateLimit.{RateBucket}
use widget_demo.Security.RateLimit.Window.{Hit, admitted, requests, admitted_lem}
use widget_demo.Security.Csrf.{is_exempt, is_safe_method, is_present, check_csrf, check_csrf_iff}
use widget_demo.Security.Origin.{Origins}
use widget_demo.Security.Redaction.{
  Value, plain, array, object, nil, cons, end, field, is_redacted_key, redacted, redact, IsClean,
  redact-IsClean,
}

abbrev buckets : Table String RateBucket
buckets = ("auth:a", record { count = 1; reset_at = 100 }) ∷ []

abbrev hits : List Hit
hits =
    record { key = "auth:a"; maximum = 2; now = 10 }
    ∷ record { key = "auth:b"; maximum = 2; now = 11 }
    ∷ record { key = "auth:a"; maximum = 2; now = 12 }
    ∷ record { key = "auth:a"; maximum = 2; now = 99 }
    ∷ []

admitted_lem_example :
    admitted 60 "auth:a" hits buckets
    ≡ (if leb (requests 60 "auth:a" hits) (2 - 1) then requests 60 "auth:a" hits else 2 - 1)
unfolding lookup
admitted_lem_example =
    admitted_lem 60 "auth:a" 2 (record { count = 1; reset_at = 100 }) hits buckets refl
      (
        (omega arith, inr refl),
        ((omega arith, inr refl), ((omega arith, inr refl), ((omega arith, inr refl), tt))),
      )

abbrev save_request : Request
save_request = record {
  method = "POST";
  original_url = "/api/exams?x=1";
  ip = some "1.2.3.4";
  remote_address = some "1.2.3.4";
  session_cookie = some "s";
  csrf_cookie = some "c";
  csrf_header = "c" ∷ [];
  origin = some "https://app";
  content_type = some "application/json";
}

check_csrf_iff_example : (check_csrf save_request ≡ ok tt) ↔ (
    (token : String) × (token ≢ "")
    × (save_request.csrf_cookie ≡ some token)
    × (head? save_request.csrf_header ≡ some token))
unfolding is_exempt is_safe_method is_present widget_demo.Security.path_of widget_demo.Texts.before
    codes chars
check_csrf_iff_example = check_csrf_iff save_request refl

abbrev origins : Origins
origins = record { app_origin = some "https://app"; workbench_origin = some "https://bench" }

abbrev login : Value
login =
    array (cons (object (field "Access_Token" (plain "s3cret") (field "path" (plain "/") end))) nil)

abbrev harmless : Value
harmless = object (field "cookie" redacted (field "path" (plain "/") end))

redact-IsClean_example : IsClean (redact login) × (redact harmless ≡ harmless)
unfolding is_redacted_key codes chars lower
redact-IsClean_example =
    redact-IsClean login harmless (tt, (tt, tt)) (inr refl, tt, (inl refl, tt, tt))
