-- ===== src/Subscriptions/Signed.antt =====
-- Which deliveries carry a valid signature.
use widget_demo.Prelude.{
  ℕ, ◌+◌, ◌*◌, String, ◌≡◌, ◌≤◌, ◌↔◌, ap, ◌∙◌, inl, inr, true, false, Option, some, arith,
  Bool-cases, Option-cases, ok,
}
use widget_demo.Texts.{same_codes, is_truthy}
use widget_demo.Crypto.{Crypto}
use widget_demo.Security.JsonType.{same_codes-eq, same_codes_refl}
use widget_demo.Subscriptions.Signature.{
  Headers, header, decode_hex, is_stale, is_hex_digest, canonical_of, is_fresh, check_digest,
  hex_of, check_headers, verify,
}

fresh_of :
    {now : ℕ} (seconds : ℕ)
    → now ≤ seconds * 1000 + 300000
    → seconds * 1000 ≤ now + 300000
    → is_stale now seconds ≡ false
unfolding is_stale
fresh_of seconds late early = ground (arith, late, early)

module _ (crypto : Crypto) (safe_integer : String → Option ℕ) (now : ℕ) (raw_body : String)
    (headers : Headers) (event_name : String) where
  -- the three headers are there, the time is within five minutes, and the digits are those of the
  -- authentication code of the time, the name and the body
  pub record IsSigned : Type 0 where
    pub timestamp : String
    pub signature : String
    pub seconds : ℕ
    pub timed : is_truthy (headers "x-eduplus-timestamp") ≡ some timestamp
    pub named : is_truthy (headers "x-eduplus-event") ≡ some event_name
    pub signed : is_truthy (headers "x-eduplus-signature") ≡ some signature
    pub parsed : safe_integer timestamp ≡ some seconds
    pub not_late : now ≤ seconds * 1000 + 300000
    pub not_early : seconds * 1000 ≤ now + 300000
    pub digits : is_hex_digest (hex_of crypto safe_integer signature) ≡ true
    pub authentic :
        decode_hex (hex_of crypto safe_integer signature)
        ≡ crypto.hmac (canonical_of timestamp event_name raw_body)

  check_headers_sound :
      (timestamp name signature : String)
      → is_truthy (headers "x-eduplus-timestamp") ≡ some timestamp
      → is_truthy (headers "x-eduplus-event") ≡ some name
      → is_truthy (headers "x-eduplus-signature") ≡ some signature
      → check_headers crypto safe_integer now raw_body timestamp name signature ≡ ok event_name
      → IsSigned
  unfolding check_headers check_digest is_fresh is_stale
  check_headers_sound timestamp name signature timed named signed h =
      elim (Option-cases (safe_integer timestamp)) [
        | inl missing ↦ absurd (cc (rw missing at h))
        | inr (seconds, parsed) ↦ elim (Bool-cases (is_stale now seconds)) [
          | inl stale ↦ absurd (cc (rw (parsed, stale) at h))
          | inr fresh ↦ elim (Bool-cases (is_hex_digest (hex_of crypto safe_integer signature))) [
            | inr no_digest ↦ absurd (cc (rw (parsed, fresh, no_digest) at h))
            | inl digits ↦
                elim (Bool-cases (
                  same_codes (decode_hex (hex_of crypto safe_integer signature))
                    (crypto.hmac (canonical_of timestamp name raw_body)))) [
                      | inr different ↦ absurd (cc (rw (parsed, fresh, digits, different) at h))
                      | inl same ↦
                          let its_name : name ≡ event_name =
                            cc (rw (parsed, fresh, digits, same) at h) in
                          record {
                            timestamp = timestamp;
                            signature = signature;
                            seconds = seconds;
                            timed = timed;
                            named = named ∙ ap some its_name;
                            signed = signed;
                            parsed = parsed;
                            not_late = ground (arith, fresh);
                            not_early = ground (arith, fresh);
                            digits = digits;
                            authentic =
                                same_codes-eq _ _ same
                                ∙ ap (λ n. crypto.hmac (canonical_of timestamp n raw_body))
                                    its_name;
                          }
                    ]
          ]
        ]
      ]

  check_headers_complete :
      (s : IsSigned)
      → check_headers crypto safe_integer now raw_body s.timestamp event_name s.signature
        ≡ ok event_name
  unfolding check_headers check_digest is_fresh
  check_headers_complete s =
      let fresh : is_stale now s.seconds ≡ false = fresh_of s.seconds s.not_late s.not_early in
      rw (
        s.parsed,
        fresh,
        s.digits,
        s.authentic,
        same_codes_refl (crypto.hmac (canonical_of s.timestamp event_name raw_body)),
      )

  -- A delivery passes, as an event of the given name, exactly if it is signed for that name.
  pub verify_iff : (verify crypto safe_integer now raw_body headers ≡ ok event_name) ↔ IsSigned
  unfolding verify header
  verify_iff = (
    λ h. elim (Option-cases (is_truthy (headers "x-eduplus-timestamp"))) [
      | inl missing ↦ absurd (cc (rw missing at h))
      | inr (timestamp, timed) ↦ elim (Option-cases (is_truthy (headers "x-eduplus-event"))) [
        | inl missing ↦ absurd (cc (rw (timed, missing) at h))
        | inr (name, named) ↦ elim (Option-cases (is_truthy (headers "x-eduplus-signature"))) [
          | inl missing ↦ absurd (cc (rw (timed, named, missing) at h))
          | inr (signature, signed) ↦
              check_headers_sound timestamp name signature timed named signed
                (rw (timed, named, signed) at h)
        ]
      ]
    ],
    λ s. rw (s.timed, s.named, s.signed) (check_headers_complete s),
  )
