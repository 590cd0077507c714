-- ===== src/Security/Csrf.antt =====
-- backend/src/security/csrf.guard.ts
use widget_demo.Prelude.{
  String, ◌≡◌, ◌≢◌, ◌↔◌, refl, sym, ap, Bool, true, false, ◌&&◌, ◌||◌, not, Option, none, some,
  ◌==◌, eq_iff, eq_refl, arith, head?, Bool-cases, inl, inr, HttpError, forbidden, Result, ok, err,
  if◌then◌else◌,
}
use widget_demo.Texts.{same_codes}
use widget_demo.Security.{Request, path_of, webhook_path}

unfoldable pub is_safe_method : String → Bool
is_safe_method method = method == "GET" || (method == "HEAD" || method == "OPTIONS")

-- a text that is there and not empty
unfoldable pub is_present : Option String → Bool
is_present none = false
is_present (some text) = not (text == "")

-- `timingSafeEqual` of two texts' bytes is their equality
unfoldable pub matches : Option String → Option String → Bool
matches none header_token = false
matches (some cookie) none = false
matches (some cookie) (some header) = not (cookie == "") && (not (header == "") && cookie == header)

unfoldable pub is_exempt : Request → Bool
is_exempt request =
    is_safe_method request.method
    || (same_codes (path_of request) webhook_path || not (is_present request.session_cookie))

unfoldable pub check_csrf : Request → Result HttpError (Unit {0})
check_csrf request =
    if is_exempt request
    then ok tt
    else if matches request.csrf_cookie (head? request.csrf_header)
    then ok tt
    else err (forbidden "A matching CSRF token is required")

matches-some :
    (cookie header : Option String)
    → matches cookie header ≡ true
    → (token : String) × (token ≢ "") × (cookie ≡ some token) × (header ≡ some token)
unfolding matches
matches-some none header h = absurd (cc)
matches-some (some cookie) none h = absurd (cc)
matches-some (some cookie) (some header) h = (
  cookie,
  λ e. absurd (ground (arith, ap (λ t. t == "") e, eq_refl "")),
  refl,
  ap some (sym ((eq_iff cookie header).0 (ground arith))),
)

some-matches : (token : String) → token ≢ "" → matches (some token) (some token) ≡ true
unfolding matches
some-matches token named = elim (Bool-cases (token == "")) [
  | inl empty ↦ absurd (named ((eq_iff _ _).0 empty))
  | inr full ↦ rw full (eq_refl token)
]

-- A request that is not exempt passes exactly if it brings the same text, and one that is not empty,
-- in the cookie and in the first value of the header.
pub check_csrf_iff :
    (request : Request)
    → is_exempt request ≡ false
    → (check_csrf request ≡ ok tt) ↔ (
        (token : String) × (token ≢ "")
        × (request.csrf_cookie ≡ some token)
        × (head? request.csrf_header ≡ some token))
unfolding check_csrf
check_csrf_iff request guarded = (
  λ h. elim (Bool-cases (matches request.csrf_cookie (head? request.csrf_header))) [
    | inl same ↦ matches-some _ _ same
    | inr other ↦ absurd (cc (rw (guarded, other) at h))
  ],
  λ (token, named, cookie, header). rw (guarded, cookie, header, some-matches token named),
)
