-- ===== src/Security/RateLimit.antt =====
-- `BoundaryRateLimitGuard` of backend/src/security/origin.guard.ts: a window per boundary and address.
pub mod Window
use Prim.Native.String.{◌++◌ as concat}
use widget_demo.Prelude.{
  ℕ, ◌+◌, String, Bool, true, false, Option, none, some, List, [], ◌∷◌, ltb, leb, if◌then◌else◌,
  is_some, or_else, HttpError, too_many_requests, Result, Exec, pure,
}
use widget_demo.Table.{string_eq, Table, lookup, insert}
use widget_demo.Texts.{codes, same_codes, strip_prefix}
use widget_demo.Security.{Request, path_of, webhook_path}

pub record RateBucket : Type 0 where
  pub count : ℕ
  pub reset_at : ℕ

-- `none` is a setting that is missing or no positive number
pub record RateSettings : Type 0 where
  pub auth_maximum : Option ℕ
  pub webhook_maximum : Option ℕ
  pub window : Option ℕ

unfoldable pub number_setting : Option ℕ → ℕ → ℕ
number_setting none fallback = fallback
number_setting (some value) fallback = if ltb 0 value then value else fallback

-- `!current || current.resetAt <= now ? … : current`
unfoldable pub bucket_for : Option RateBucket → (now window : ℕ) → RateBucket
bucket_for none now window = record { count = 0; reset_at = now + window }
bucket_for (some current) now window =
    if leb current.reset_at now then record { count = 0; reset_at = now + window } else current

unfoldable pub hit :
    (maximum window : ℕ)
    → (key : String) → (now : ℕ) → Exec HttpError (Table String RateBucket) Unit
hit maximum window key now buckets =
    let bucket = bucket_for (lookup key buckets) now window in
    let counted = record bucket { count = bucket.count + 1 } in
    (
      if ltb maximum counted.count
          then Result.err (too_many_requests "Too many requests")
          else Result.ok tt,
      insert key counted buckets,
    )

pub data Boundary : Type 0 where
  auth webhook : Boundary

unfoldable pub boundary_of : List ℕ → Option Boundary
boundary_of path =
    if is_some (strip_prefix (codes "/api/auth/") path)
    then some auth
    else if same_codes path webhook_path
    then some webhook
    else none

unfoldable pub address_of : Request → String
address_of request = or_else request.ip (or_else request.remote_address "unknown")

unfoldable pub limit_boundary :
    RateSettings
    → Option Boundary
    → Request
    → (now : ℕ) → Exec HttpError (Table String RateBucket) Unit
limit_boundary settings none request now = pure tt
limit_boundary settings (some auth) request now =
    hit (number_setting settings.auth_maximum 30) (number_setting settings.window 60000)
      (concat "auth:" (address_of request)) now
limit_boundary settings (some webhook) request now =
    hit (number_setting settings.webhook_maximum 120) (number_setting settings.window 60000)
      (concat "webhook:" (address_of request)) now

unfoldable pub limit_rate :
    RateSettings → Request → (now : ℕ) → Exec HttpError (Table String RateBucket) Unit
limit_rate settings request now =
    limit_boundary settings (boundary_of (path_of request)) request now
