-- ===== src/Subscriptions/Signature.antt =====
-- `verify` of backend/src/subscriptions/webhook-signature.service.ts.
use Prim.Native.String.{◌++◌ as concat}
use widget_demo.Prelude.{
  ℕ, ◌+◌, ◌-◌, ◌*◌, String, Bool, false, ◌&&◌, ◌||◌, not, Option, none, some, List, [], ◌∷◌, ◌=ℕ◌,
  ltb, leb, all, length, if◌then◌else◌, HttpError, unauthorized, Result, ok, err, or_else, required,
  and_then,
}
use widget_demo.Texts.{codes, same_codes, strip_prefix, is_truthy}
use widget_demo.Crypto.{Crypto}

-- a header by its lower-case name, if it is there once
abbrev pub Headers : Type 0
Headers = String → Option String

unfoldable pub header : Headers → String → Result HttpError String
header headers name =
    required (is_truthy (headers name)) (unauthorized (concat "Missing " (concat name " header")))

-- `[a-f0-9]` with the flag `i`
unfoldable pub is_hex_digit : ℕ → Bool
is_hex_digit c =
    (leb b'a' c && leb c b'f') || ((leb b'0' c && leb c b'9') || (leb b'A' c && leb c b'F'))

unfoldable pub digit_of : ℕ → ℕ
digit_of c = if leb b'a' c then c - 87 else if leb b'A' c then c - 55 else c - 48

-- `Buffer.from(text, 'hex')`
unfoldable pub decode_hex : List ℕ → List ℕ
decode_hex [] = []
decode_hex (c ∷ []) = []
decode_hex (c ∷ d ∷ s) = (digit_of c * 16 + digit_of d) ∷ decode_hex s

-- `Math.abs(Date.now() / 1000 - requestTime) > 300`, in milliseconds
unfoldable pub is_stale : (now : ℕ) → ℕ → Bool
is_stale now seconds = ltb (seconds * 1000 + 300000) now || ltb (now + 300000) (seconds * 1000)

-- `/^[a-f0-9]{64}$/i`
unfoldable pub is_hex_digest : List ℕ → Bool
is_hex_digest s = length s =ℕ 64 && all is_hex_digit s

abbrev pub canonical_of : (timestamp event_name raw_body : String) → String
canonical_of timestamp event_name raw_body =
    concat timestamp (concat "." (concat event_name (concat "." raw_body)))

-- `safe_integer` is `Number(text)` if `Number.isSafeInteger` of it and it is not negative: a negative
-- one is outside the window
module _ (crypto : Crypto) (safe_integer : String → Option ℕ) where
  unfoldable pub is_fresh : (now : ℕ) → Option ℕ → Bool
  is_fresh now none = false
  is_fresh now (some seconds) = not (is_stale now seconds)

  unfoldable pub check_digest :
      String → (hex : List ℕ) → Result HttpError String → Result HttpError String
  check_digest canonical hex answer =
      if not (is_hex_digest hex)
      then err (unauthorized "Invalid webhook signature")
      else if same_codes (decode_hex hex) (crypto.hmac canonical)
      then answer
      else err (unauthorized "Invalid webhook signature")

  -- the digits after `sha256=`, or nothing
  unfoldable pub hex_of : String → List ℕ
  hex_of signature = or_else (strip_prefix (codes "sha256=") (codes signature)) []

  unfoldable pub check_headers :
      (now : ℕ) → (raw_body timestamp event_name signature : String) → Result HttpError String
  check_headers now raw_body timestamp event_name signature =
      if not (is_fresh now (safe_integer timestamp))
      then err (unauthorized "Webhook timestamp is outside the allowed window")
      else check_digest (canonical_of timestamp event_name raw_body) (hex_of signature)
          (ok event_name)

  -- the event's name
  unfoldable pub verify : (now : ℕ) → (raw_body : String) → Headers → Result HttpError String
  verify now raw_body headers = and_then (header headers "x-eduplus-timestamp") (λ timestamp.
      and_then (header headers "x-eduplus-event") (λ event_name.
        and_then (header headers "x-eduplus-signature")
          (λ signature. check_headers now raw_body timestamp event_name signature)))
