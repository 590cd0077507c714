-- ===== src/Security/RateLimit/Window.antt =====
-- How many requests of one key pass within a window.
use widget_demo.Prelude.{
  ℕ, ◌+◌, ◌-◌, ◌<◌, String, ◌≡◌, ◌∙◌, ◌⊎◌, Bool, true, false, some, List, [], ◌∷◌, arith, ltb, leb,
  if◌then◌else◌, ◌==◌, eq_iff, Bool-cases, inl, inr, count_if, All, HttpError, ok, err, Result,
}
use widget_demo.Table.{string_eq, Table, lookup}
use widget_demo.Table.Laws.{lookup-insert}
use widget_demo.Security.RateLimit.{RateBucket, bucket_for, hit}

-- a request of a boundary: its key, the maximum there, and the time
pub record Hit : Type 0 where
  pub key : String
  pub maximum : ℕ
  pub now : ℕ

abbrev passes : {A : Type 0} → Result HttpError A → Bool
passes (ok a) = true
passes (err e) = false

module _ (window : ℕ) (key : String) where
  -- how many requests of the key pass, of a sequence of requests of any keys
  unfoldable pub admitted : List Hit → Table String RateBucket → ℕ
  admitted [] buckets = 0
  admitted (h ∷ hits) buckets =
      let after = hit h.maximum window h.key h.now buckets in
      let later = admitted hits after.1 in
      if (h.key == key) then (if passes after.0 then later + 1 else later) else later

  abbrev pub requests : List Hit → ℕ
  requests = count_if (λ h. h.key == key)

  -- the request comes before the window ends, and one of the key meets the maximum
  abbrev pub IsWithin : (maximum reset_at : ℕ) → Hit → Type 0
  IsWithin maximum reset_at h =
      (h.now < reset_at) × (((h.key == key) ≡ false) ⊎ (h.maximum ≡ maximum))

  hit-other :
      (h : Hit) (buckets : Table String RateBucket)
      → (h.key == key) ≡ false
      → lookup key (hit h.maximum window h.key h.now buckets).1 ≡ lookup key buckets
  unfolding hit
  hit-other h buckets other = rw (lookup-insert, other)

  -- a request of the key within the window
  hit-same :
      (maximum : ℕ) (bucket : RateBucket) (h : Hit) (buckets : Table String RateBucket)
      → lookup key buckets ≡ some bucket
      → IsWithin maximum bucket.reset_at h
      → (h.key == key) ≡ true
      → (lookup key (hit h.maximum window h.key h.now buckets).1
          ≡ some (record bucket { count = bucket.count + 1 }))
        × (passes (hit h.maximum window h.key h.now buckets).0 ≡ ltb bucket.count maximum)
  unfolding hit bucket_for
  hit-same maximum bucket h buckets found within same =
      let its_key : h.key ≡ key = (eq_iff h.key key).0 same in
      let its_bucket : lookup h.key buckets ≡ some bucket = rw its_key found in
      let live : leb bucket.reset_at h.now ≡ false = ground (arith, within.0) in
      let its_maximum : h.maximum ≡ maximum = ground (arith, within.1, same) in
      (
        rw (lookup-insert, same, its_bucket, live),
        rw (its_bucket, live, its_maximum) (ground arith),
      )

  -- While a window lasts, whatever the requests of other keys, exactly as many requests of the key
  -- pass as the bucket has left of the maximum, or all of them if they are fewer.
  pub admitted_lem :
      (maximum : ℕ) (bucket : RateBucket) (hits : List Hit) (buckets : Table String RateBucket)
      → lookup key buckets ≡ some bucket
      → All (IsWithin maximum bucket.reset_at) hits
      → admitted hits buckets ≡ (
          if leb (requests hits) (maximum - bucket.count)
          then requests hits
          else maximum - bucket.count)
  unfolding admitted
  admitted_lem maximum bucket [] buckets found within = ground arith
  admitted_lem maximum bucket (h ∷ hits) buckets found within = elim (Bool-cases (h.key == key)) [
    | inr other ↦ rw other (
        admitted_lem maximum bucket hits (hit h.maximum window h.key h.now buckets).1
          (hit-other h buckets other ∙ found) within.1)
    | inl same ↦
        let (kept, passed) = hit-same maximum bucket h buckets found within.0 same in
        let later =
          admitted_lem maximum (record bucket { count = bucket.count + 1 }) hits
            (hit h.maximum window h.key h.now buckets).1 kept within.1 in
        rw (same, passed) (ground (arith, later))
  ]
