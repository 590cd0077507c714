-- ===== src/Security.antt =====
-- The guards in front of every route, backend/src/security: each lets a request pass or raises.
pub mod RateLimit
pub mod Csrf
pub mod Origin
pub mod Redaction
pub mod JsonType
mod Tests
use Prim.Native.Char.{code}
use widget_demo.Prelude.{ℕ, String, List, Option, map, chars}
use widget_demo.Texts.{codes, before}

-- what the guards read of a request; of a header that comes several times all values are there
pub record Request : Type 0 where
  pub method : String
  pub original_url : String
  pub ip : Option String
  pub remote_address : Option String
  pub session_cookie : Option String
  pub csrf_cookie : Option String
  pub csrf_header : List String
  pub origin : Option String
  pub content_type : Option String

-- `request.originalUrl.split('?', 1)[0]`
unfoldable pub path_of : Request → List ℕ
path_of request = map code (before b'?' (chars request.original_url))

abbrev pub webhook_path : List ℕ
webhook_path = codes "/api/webhooks/eduplus"
