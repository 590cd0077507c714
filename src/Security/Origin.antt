-- ===== src/Security/Origin.antt =====
-- `OriginGuard` and `JsonContentTypeGuard` of backend/src/security/origin.guard.ts.
use widget_demo.Prelude.{
  ℕ, String, ◌≡◌, ◌≢◌, ◌↔◌, ◌⊎◌, refl, sym, ap, ◌∙◌, Bool, true, false, ◌&&◌, ◌||◌, not, Option,
  none, some, List, [], ◌∷◌, ◌==◌, ◌=ℕ◌, leb, eq_iff, eq_refl, map, arith, Bool-cases, inl, inr,
  HttpError, forbidden, unsupported_media_type, Result, ok, err, if◌then◌else◌, chars,
}
use Prim.Native.Char.{code}
use widget_demo.Texts.{codes, same_codes, before, lower, strip_prefix, trim}

pub record Origins : Type 0 where
  pub app_origin : Option String
  pub workbench_origin : Option String

abbrev is_text : String → Option String → Bool
is_text text none = false
is_text text (some other) = text == other

-- `is_widget_route` is the route's metadata
unfoldable pub check_origin :
    Origins → (is_widget_route : Bool) → Option String → Result HttpError (Unit {0})
check_origin origins false origin = ok tt
check_origin origins true none = err (forbidden "Request origin is not allowed")
check_origin origins true (some origin) =
    if not (origin == "")
      && (is_text origin origins.app_origin || is_text origin origins.workbench_origin)
    then ok tt
    else err (forbidden "Request origin is not allowed")

some_injective : {a b : String} → some a ≡ some b → a ≡ b
some_injective h = cc

is_text-eq : (text : String) (o : Option String) → is_text text o ≡ true → o ≡ some text
is_text-eq text none h = absurd (cc)
is_text-eq text (some other) h = ap some (sym ((eq_iff _ _).0 h))

eq-is_text : (text : String) (o : Option String) → o ≡ some text → is_text text o ≡ true
eq-is_text text none h = absurd (cc)
eq-is_text text (some other) h = (eq_iff _ _).1 (sym (some_injective h))

-- A widget route answers exactly the requests whose origin, not an empty one, is configured.
pub check_origin_iff :
    (origins : Origins) (origin : Option String)
    → (check_origin origins true origin ≡ ok tt) ↔ (
        (text : String) × (text ≢ "")
        × (origin ≡ some text)
        × ((origins.app_origin ≡ some text) ⊎ (origins.workbench_origin ≡ some text)))
unfolding check_origin
check_origin_iff origins none = (λ h. absurd (cc), λ (text, named, e, known). absurd (cc))
check_origin_iff origins (some origin) = (
  λ h. elim (Bool-cases (origin == "")) [
    | inl empty ↦ absurd (cc (rw empty at h))
    | inr full ↦ elim (Bool-cases (is_text origin origins.app_origin)) [
      | inl app ↦ (
        origin,
        λ e. absurd (ground (arith, full, ap (λ t. t == "") e, eq_refl "")),
        refl,
        inl (is_text-eq origin _ app),
      )
      | inr no_app ↦ elim (Bool-cases (is_text origin origins.workbench_origin)) [
        | inl bench ↦ (
          origin,
          λ e. absurd (ground (arith, full, ap (λ t. t == "") e, eq_refl "")),
          refl,
          inr (is_text-eq origin _ bench),
        )
        | inr no_bench ↦ absurd (cc (rw (full, no_app, no_bench) at h))
      ]
    ]
  ],
  λ (text, named, e, known). elim (Bool-cases (origin == "")) [
    | inl empty ↦ absurd (named (sym (some_injective e) ∙ (eq_iff _ _).0 empty))
    | inr full ↦ elim known [
      | inl app ↦ ground (arith, full, eq-is_text origin origins.app_origin (app ∙ sym e))
      | inr bench ↦ ground (arith, full, eq-is_text origin origins.workbench_origin (bench ∙ sym e))
    ]
  ],
)

-- `[\w.+-]`
unfoldable pub is_subtype_char : ℕ → Bool
is_subtype_char c =
    (leb b'a' c && leb c b'z')
    || ((leb b'A' c && leb c b'Z')
        || ((leb b'0' c && leb c b'9') || (c =ℕ b'_' || (c =ℕ b'.' || (c =ℕ b'+' || c =ℕ b'-')))))

-- `/[\w.+-]+\+json$/` on what is left, of which `some_char` says that there was a character before
unfoldable pub ends_in_json : Bool → List ℕ → Bool
ends_in_json some_char [] = false
ends_in_json some_char (c ∷ s) =
    let later = ends_in_json true s in
    (some_char && same_codes (c ∷ s) (codes "+json")) || (is_subtype_char c && later)

abbrev pub json_suffix : Option (List ℕ) → Bool
json_suffix none = false
json_suffix (some rest) = ends_in_json false rest

-- `split(';', 1)[0].trim().toLowerCase()`
unfoldable pub media_type : String → List ℕ
media_type content_type = map (λ c. lower (code c)) (trim (before b';' (chars content_type)))

unfoldable pub is_json : Option String → Bool
is_json none = false
is_json (some content_type) =
    same_codes (media_type content_type) (codes "application/json")
    || json_suffix (strip_prefix (codes "application/") (media_type content_type))

-- `is_json_only` is the route's metadata
unfoldable pub check_content_type :
    (is_json_only : Bool) → Option String → Result HttpError (Unit {0})
check_content_type false content_type = ok tt
check_content_type true content_type =
    if is_json content_type
    then ok tt
    else err (unsupported_media_type "Content-Type must be application/json")
