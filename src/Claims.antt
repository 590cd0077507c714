-- ===== src/Claims.antt =====
-- The claims of identity tokens: backend/src/integration/eduplus/oidc-verifier.ts. `jwtVerify`, which
-- checks a token's signature, issuer, audience and times and gives its payload, is a parameter.
pub mod Widget
pub mod App
pub mod Permitted
mod Tests
use Prim.Native.String.{◌++◌ as concat}
use package.text.Mathlib.TextBridge.{of_list}
use widget_demo.Prelude.{
  chars, ℕ, String, Bool, true, false, ◌&&◌, ◌||◌, not, Option, none, some, List, [], ◌∷◌, map,
  ◌==◌, if◌then◌else◌, any, dedupe, HttpError, unauthorized, Result, ok, err, is_some, or_else,
}
use widget_demo.Texts.{trim, codes, lower, same_codes, is_truthy}
use widget_demo.School.{PersonType, staff, teacher, student, parent}
use widget_demo.WidgetSessions.{EndpointPair}

-- A claim that is read as a text: null or missing, a text, or anything else with its `String(value)`.
pub data Scalar : Type 0 where
  absent : Scalar
  text other : String → Scalar

-- `aud`: a text, an array (an item is `none` if it is no text), or anything else
pub data Audience : Type 0 where
  one : String → Audience
  many : List (Option String) → Audience
  unreadable : Audience

pub record PairClaim : Type 0 where
  pub widget_key : Scalar
  pub data_endpoint_key : Scalar
  pub query_preset_key : Scalar

-- What the code reads of a payload. `sub` and `jti` are texts or missing; a list is `none` if the
-- claim is no array, and an item of it is `none` if it is no text, or no object.
pub record Payload : Type 0 where
  pub sub : Option String
  pub jti : Option String
  pub has_expiry : Bool
  pub aud : Audience
  pub tenant_id : Scalar
  pub tid : Scalar
  pub identity_id : Scalar
  pub eui : Scalar
  pub identity_type : Scalar
  pub eit : Scalar
  pub azp : Scalar
  pub client_id : Scalar
  pub name : Scalar
  pub email : Scalar
  pub handoff_type : Scalar
  pub app_code : Scalar
  pub config_snapshot_id : Scalar
  pub scope : Scalar
  pub widget_keys : Option (List (Option String))
  pub data_endpoint_keys : Option (List (Option String))
  pub widget_endpoint_pairs : Option (List (Option PairClaim))

-- What `toPersonType` returns but for null: a person type, or what an object inherits.
pub data Kind : Type 0 where
  role : PersonType → Kind
  inherited : Kind

pub record WidgetIdentity : Type 0 where
  pub sub : String
  pub tenant_id : String
  pub identity_id : String
  pub identity_type : Kind
  pub client_id : String
  pub app_code : String
  pub config_snapshot_id : String
  pub scope : String
  pub widget_keys : List String
  pub data_endpoint_keys : List String
  pub endpoint_pairs : List EndpointPair

pub record AppIdentity : Type 0 where
  pub sub : String
  pub tenant_id : String
  pub identity_id : String
  pub identity_type : Kind
  pub client_id : String
  pub name : Option String
  pub email : Option String
  pub handoff_type : Option String

-- what a token is verified against
pub record WidgetVerifyContext : Type 0 where
  pub issuer : String
  pub jwks_uri : String
  pub client_id : String
  pub app_code : String
  pub clock_tolerance : ℕ

infixr 40 ◌or◌
-- `value ?? fallback`
abbrev pub ◌or◌ : Scalar → Scalar → Scalar
absent or fallback = fallback
text value or fallback = text value
other value or fallback = other value

-- `String(value ?? '')`
unfoldable pub shown : Scalar → String
shown absent = ""
shown (text value) = value
shown (other value) = value

unfoldable pub text_or_none : Scalar → Option String
text_or_none (text value) = some value
text_or_none _ = none

unfoldable pub required_text : Scalar → String
required_text value = of_list (trim (chars (shown value)))

abbrev pub same_word : String → String → Bool
same_word value word = same_codes (map lower (codes value)) (codes word)

-- The object of aliases also answers to the two names that every object inherits in lower case.
unfoldable pub to_person_type : Scalar → Option Kind
unfolding shown
to_person_type value =
    let name = shown value in
    if same_word name "staff"
    then some (role staff)
    else if same_word name "teacher" || same_word name "tch"
    then some (role teacher)
    else if same_word name "student" || same_word name "stu"
    then some (role student)
    else if same_word name "parent" || same_word name "par"
    then some (role parent)
    else if same_word name "constructor" || same_word name "__proto__"
    then some inherited
    else none

abbrev pub add_item : {A : Type 0} → A → Option (List A) → Option (List A)
add_item item none = none
add_item item (some items) = some (item ∷ items)

abbrev pub is_blank : String → Bool
is_blank value = required_text (text value) == ""

-- the texts, if all items are texts that are not blank
unfoldable pub clean_texts : List (Option String) → Option (List String)
clean_texts [] = some []
clean_texts (none ∷ items) = none
clean_texts (some item ∷ items) =
    let rest = clean_texts items in if is_blank item then none else add_item item rest

unfoldable pub string_array : Option (List (Option String)) → List String
string_array none = []
string_array (some items) = dedupe (λ a b. a == b) (or_else (clean_texts items) [])

unfoldable pub pair_of : PairClaim → Option EndpointPair
pair_of pair =
    if required_text pair.widget_key == "" || required_text pair.data_endpoint_key == ""
    then none
    else some (record {
      widget_key = required_text pair.widget_key;
      data_endpoint_key = required_text pair.data_endpoint_key;
      query_preset_key = is_truthy (some (required_text pair.query_preset_key));
    })

abbrev pub add_pair : Option EndpointPair → Option (List EndpointPair) → Option (List EndpointPair)
add_pair none rest = none
add_pair (some pair) rest = add_item pair rest

-- `none` where the loop returns an empty array
unfoldable pub clean_pairs : List (Option PairClaim) → Option (List EndpointPair)
clean_pairs [] = some []
clean_pairs (none ∷ items) = none
clean_pairs (some item ∷ items) = add_pair (pair_of item) (clean_pairs items)

unfoldable pub endpoint_pair_array : Option (List (Option PairClaim)) → List EndpointPair
endpoint_pair_array none = []
endpoint_pair_array (some items) = or_else (clean_pairs items) []

unfoldable pub has_exact_audience : Audience → String → Bool
has_exact_audience (one value) expected = value == expected
has_exact_audience (many (some value ∷ [])) expected = value == expected
has_exact_audience _ expected = false

abbrev pub contains_key : String → List String → Bool
contains_key key keys = any (λ k. k == key) keys

abbrev pub is_empty : {A : Type 0} → List A → Bool
is_empty [] = true
is_empty (x ∷ xs) = false

abbrev pub expected_audience : String → String
expected_audience app_code = concat "app:" (concat app_code ":widget-data")

abbrev pub scalar_of : Option String → Scalar
scalar_of none = absent
scalar_of (some value) = text value

-- `jwtVerify` of the token, the key address, the issuer, the audience and the tolerance
abbrev pub JwtVerify : Type 0
JwtVerify = String → String → String → String → ℕ → Option Payload
