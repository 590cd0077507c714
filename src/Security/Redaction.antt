-- ===== src/Security/Redaction.antt =====
-- `redactSecrets` of backend/src/security/security.module.ts, on plain data and errors.
use widget_demo.Prelude.{
  chars, String, ◌≡◌, refl, ap, ◌⊎◌, Bool, false, List, [], ◌∷◌, map, any, arith, Bool-cases, inl,
  inr, if◌then◌else◌,
}
use widget_demo.Texts.{codes, lower, same_codes}

-- `plain` is a value that is neither an array nor an object: it is returned as it is
mutual
  pub data Value : Type 0 where
    plain : String → Value
    array : Values → Value
    object : Fields → Value
    error : (name message stack : String) → Value

  pub data Values : Type 0 where
    nil : Values
    cons : Value → Values → Values

  pub data Fields : Type 0 where
    end : Fields
    field : String → Value → Fields → Fields

abbrev redacted_keys : List String
redacted_keys =
    "authorization" ∷ "cookie" ∷ "client_secret" ∷ "handoff_code" ∷ "access_token" ∷ "refresh_token"
    ∷ "refresh_session_id" ∷ []

-- `REDACTED_KEYS.has(key.toLowerCase())`
unfoldable pub is_redacted_key : String → Bool
is_redacted_key key =
    any (λ secret. same_codes (map lower (codes key)) (codes secret)) redacted_keys

abbrev pub redacted : Value
redacted = plain "[REDACTED]"

unfoldable mutual
  pub redact : Value → Value
  redact (plain text) = plain text
  redact (array items) = array (redact_items items)
  redact (object fields) = object (redact_fields fields)
  redact (error name message stack) = object (
      field "name" (plain name) (field "message" (plain message) (field "stack" (plain stack) end)))

  pub redact_items : Values → Values
  redact_items nil = nil
  redact_items (cons item items) = cons (redact item) (redact_items items)

  pub redact_fields : Fields → Fields
  redact_fields end = end
  redact_fields (field key value fields) =
      let inner = redact value in
      field key (if is_redacted_key key then redacted else inner) (redact_fields fields)

-- no field with a secret's key holds anything but the mark, at any depth
abbrev mutual
  pub IsClean : Value → Type 0
  IsClean (plain text) = Unit {0}
  IsClean (array items) = IsCleanItems items
  IsClean (object fields) = IsCleanFields fields
  IsClean (error name message stack) = Unit {0}

  pub IsCleanItems : Values → Type 0
  IsCleanItems nil = Unit {0}
  IsCleanItems (cons item items) = IsClean item × IsCleanItems items

  pub IsCleanFields : Fields → Type 0
  IsCleanFields end = Unit {0}
  IsCleanFields (field key value fields) =
      ((is_redacted_key key ≡ false) ⊎ (value ≡ redacted)) × IsClean value × IsCleanFields fields

redact-field :
    (key : String) (value : Value)
    → ((is_redacted_key key ≡ false)
        ⊎ ((if is_redacted_key key then redacted else value) ≡ redacted))
redact-field key value = elim (Bool-cases (is_redacted_key key)) [
  | inl secret ↦ inr (rw secret)
  | inr public ↦ inl public
]

IsClean-field :
    (key : String) (value : Value)
    → IsClean value
    → IsClean (if is_redacted_key key then redacted else value)
IsClean-field key value h = elim (Bool-cases (is_redacted_key key)) [
  | inl secret ↦ rw secret tt
  | inr public ↦ rw public h
]

mutual
  unfolding redact redact_items redact_fields is_redacted_key codes chars lower

  IsClean-redact : (v : Value) → IsClean (redact v)
  IsClean-redact (plain text) = tt
  IsClean-redact (array items) = IsCleanItems-redact items
  IsClean-redact (object fields) = IsCleanFields-redact fields
  IsClean-redact (error name message stack) = (inl refl, tt, (inl refl, tt, (inl refl, tt, tt)))

  IsCleanItems-redact : (items : Values) → IsCleanItems (redact_items items)
  IsCleanItems-redact nil = tt
  IsCleanItems-redact (cons item items) = (IsClean-redact item, IsCleanItems-redact items)

  IsCleanFields-redact : (fields : Fields) → IsCleanFields (redact_fields fields)
  IsCleanFields-redact end = tt
  IsCleanFields-redact (field key value fields) = (
    redact-field key (redact value),
    IsClean-field key (redact value) (IsClean-redact value),
    IsCleanFields-redact fields,
  )

-- a value without errors, as `JSON.parse` makes them
abbrev mutual
  pub IsData : Value → Type 0
  IsData (plain text) = Unit {0}
  IsData (array items) = IsDataItems items
  IsData (object fields) = IsDataFields fields
  IsData (error name message stack) = ⊥

  pub IsDataItems : Values → Type 0
  IsDataItems nil = Unit {0}
  IsDataItems (cons item items) = IsData item × IsDataItems items

  pub IsDataFields : Fields → Type 0
  IsDataFields end = Unit {0}
  IsDataFields (field key value fields) = IsData value × IsDataFields fields

keep-field :
    (key : String) (value : Value)
    → ((is_redacted_key key ≡ false) ⊎ (value ≡ redacted))
    → (if is_redacted_key key then redacted else value) ≡ value
keep-field key value h = ground (arith, h)

mutual
  unfolding redact redact_items redact_fields

  redact-clean : (v : Value) → IsData v → IsClean v → redact v ≡ v
  redact-clean (plain text) d h = refl
  redact-clean (array items) d h = ap array (redact_items-clean items d h)
  redact-clean (object fields) d h = ap object (redact_fields-clean fields d h)
  redact-clean (error name message stack) d h = elim d [ ]

  redact_items-clean :
      (items : Values) → IsDataItems items → IsCleanItems items → redact_items items ≡ items
  redact_items-clean nil d h = refl
  redact_items-clean (cons item items) d h =
      rw (redact-clean item d.0 h.0, redact_items-clean items d.1 h.1)

  redact_fields-clean :
      (fields : Fields) → IsDataFields fields → IsCleanFields fields → redact_fields fields ≡ fields
  redact_fields-clean end d h = refl
  redact_fields-clean (field key value fields) d h =
      rw (redact-clean value d.0 h.1, redact_fields-clean fields d.1 h.2, keep-field key value h.0)

-- What is logged or answered has no secret under any of the keys, at any depth; and data that has
-- none to begin with are left as they are.
pub redact-IsClean : (v w : Value) → IsData w → IsClean w → IsClean (redact v) × (redact w ≡ w)
redact-IsClean v w d h = (IsClean-redact v, redact-clean w d h)
