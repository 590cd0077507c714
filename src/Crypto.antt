-- ===== src/Crypto.antt =====
-- The platform's cryptography, behind backend/src/integration/crypto/credential-crypto.service.ts: a
-- parameter of the services. `encrypt` takes the random initialisation vector as an argument, and the
-- empty text stands for no associated data.
use widget_demo.Prelude.{ℕ, String, Option, some, ◌≡◌, List}

pub record Crypto : Type 1 where
  pub Sealed : Type 0
  pub encrypt : (iv : String) → (associated_data : String) → String → Sealed
  pub decrypt : (associated_data : String) → Sealed → Option String
  -- SHA-256 of a text
  pub hash : String → String
  -- HMAC-SHA256 of a text under the configured secret: bytes
  pub hmac : String → List ℕ

-- What is encrypted can be decrypted with the same associated data.
pub record IsCrypto (crypto : Crypto) : Type 0 where
  pub opens :
      (iv associated_data text : String)
      → crypto.decrypt associated_data (crypto.encrypt iv associated_data text) ≡ some text
