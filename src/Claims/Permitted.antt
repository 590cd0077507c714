-- ===== src/Claims/Permitted.antt =====
-- Which widget tokens are accepted.
use mathlib.Core.List.{Memᴰ}
use mathlib.Core.Path.{subst}
use widget_demo.Prelude.{
  String, true, ◌||◌, not, ◌≡◌, ◌≢◌, ◌↔◌, ◌⊎◌, inl, inr, refl, sym, ap, Option, none, some, List,
  [], ◌∷◌, ◌==◌, eq_iff, any, ok, is_some, arith, All, Bool-cases, Option-cases, or_else,
}
use widget_demo.Prelude.Search.{any_sound, any_of_mem, any-false}
use widget_demo.Prelude.Every.{All_of_mem, All_mem}
use widget_demo.Texts.{is_truthy}
use widget_demo.WidgetSessions.{EndpointPair}
use widget_demo.Claims.{
  Payload, Kind, Audience, one, many, WidgetIdentity, WidgetVerifyContext, ◌or◌, text_or_none,
  to_person_type, has_exact_audience, contains_key, is_empty, expected_audience, JwtVerify,
}
use widget_demo.Claims.Widget.{
  widget_identity, has_allowed_pairs, is_permitted, check_widget, read_widget, verify_widget,
}

-- the pair names a widget and an endpoint of the lists
pub IsAllowed : WidgetIdentity → EndpointPair → Type 0
IsAllowed identity pair =
    Memᴰ pair.widget_key identity.widget_keys
    × Memᴰ pair.data_endpoint_key identity.data_endpoint_keys

contains_key_iff :
    (key : String) (keys : List String) → (contains_key key keys ≡ true) ↔ Memᴰ key keys
contains_key_iff key keys = (
  λ h.
      let (k, m, e) = any_sound (λ k. k == key) keys h in
      let same = (eq_iff k key).0 e in subst_mem same m,
  λ m. any_of_mem (λ k. k == key) keys m ((eq_iff key key).1 refl),
)
  where
    subst_mem : {k : String} → k ≡ key → Memᴰ k keys → Memᴰ key keys
    subst_mem e m = rw (sym e) m

has_exact_audience_iff :
    (aud : Audience) (expected : String)
    → (has_exact_audience aud expected ≡ true)
      ↔ ((aud ≡ one expected) ⊎ (aud ≡ many (some expected ∷ [])))
unfolding has_exact_audience
has_exact_audience_iff (one value) expected = (
  λ h. inl (ap one ((eq_iff value expected).0 h)),
  λ h. elim h [ inl e ↦ (eq_iff value expected).1 (cc e) | inr e ↦ absurd (cc) ],
)
has_exact_audience_iff (many []) expected =
    (λ h. absurd (cc), λ h. elim h [ inl e ↦ absurd (cc) | inr e ↦ absurd (cc) ])
has_exact_audience_iff (many (none ∷ l)) expected =
    (λ h. absurd (cc), λ h. elim h [ inl e ↦ absurd (cc) | inr e ↦ absurd (cc) ])
has_exact_audience_iff (many (some value ∷ [])) expected = (
  λ h. inr (ap (λ v. many (some v ∷ [])) ((eq_iff value expected).0 h)),
  λ h. elim h [ inl e ↦ absurd (cc) | inr e ↦ (eq_iff value expected).1 (cc e) ],
)
has_exact_audience_iff (many (some value ∷ x ∷ l)) expected =
    (λ h. absurd (cc), λ h. elim h [ inl e ↦ absurd (cc) | inr e ↦ absurd (cc) ])
has_exact_audience_iff Audience.unreadable expected =
    (λ h. absurd (cc), λ h. elim h [ inl e ↦ absurd (cc) | inr e ↦ absurd (cc) ])

has_allowed_pairs_iff :
    (identity : WidgetIdentity)
    → (has_allowed_pairs identity ≡ true) ↔ All (IsAllowed identity) identity.endpoint_pairs
unfolding has_allowed_pairs IsAllowed
has_allowed_pairs_iff identity = (
  λ h. All_of_mem (IsAllowed identity) identity.endpoint_pairs (λ pair m.
      let no =
        any-false
          (λ p.
            not (contains_key p.widget_key identity.widget_keys)
            || not (contains_key p.data_endpoint_key identity.data_endpoint_keys))
          identity.endpoint_pairs (ground arith) m in
      (
        (contains_key_iff pair.widget_key identity.widget_keys).0 (ground arith),
        (contains_key_iff pair.data_endpoint_key identity.data_endpoint_keys).0 (ground arith),
      )),
  λ h.
      elim (Bool-cases (
        any
          (λ pair.
            not (contains_key pair.widget_key identity.widget_keys)
            || not (contains_key pair.data_endpoint_key identity.data_endpoint_keys))
          identity.endpoint_pairs)) [
            | inl bad ↦
                let (pair, m, e) =
                  any_sound
                    (λ pair.
                      not (contains_key pair.widget_key identity.widget_keys)
                      || not (contains_key pair.data_endpoint_key identity.data_endpoint_keys))
                    identity.endpoint_pairs bad in
                let (w, d) = All_mem (IsAllowed identity) identity.endpoint_pairs h m in
                absurd (
                  ground (
                    arith,
                    (contains_key_iff pair.widget_key identity.widget_keys).1 w,
                    (contains_key_iff pair.data_endpoint_key identity.data_endpoint_keys).1 d,
                  ))
            | inr good ↦ rw good refl
          ],
)

given_iff : (a : String) → (not (a == "") ≡ true) ↔ (a ≢ "")
given_iff a = (
  λ h e. cc (h, (eq_iff a "").1 e),
  λ h. elim (Bool-cases (a == "")) [ inl e ↦ absurd (h ((eq_iff a "").0 e)) | inr e ↦ rw e refl ],
)

truthy_iff :
    (o : Option String) → (is_some (is_truthy o) ≡ true) ↔ ((t : String) × (o ≡ some t) × (t ≢ ""))
unfolding is_truthy
truthy_iff none = (λ h. absurd (cc), λ w. absurd (cc w.1))
truthy_iff (some t) = (
  λ h. elim (Bool-cases (t == "")) [
    | inl e ↦ absurd (cc (rw e at h))
    | inr e ↦ (t, refl, (given_iff t).0 (rw e refl))
  ],
  λ w. elim (Bool-cases (t == "")) [
    | inl e ↦ absurd (w.2 (cc (w.1, (eq_iff t "").0 e)))
    | inr e ↦ rw e refl
  ],
)

given_list_iff : {A : Type 0} (l : List A) → (not (is_empty l) ≡ true) ↔ (l ≢ [])
given_list_iff [] = (λ h e. cc, λ h. absurd (h refl))
given_list_iff (x ∷ l) = (λ h e. cc, λ h. refl)

text_or_none_iff :
    (o : Option String) → (or_else o "" == "widget_data" ≡ true) ↔ (o ≡ some "widget_data")
text_or_none_iff none = (λ h. absurd (cc ((eq_iff "" "widget_data").0 h)), λ h. absurd (cc))
text_or_none_iff (some t) =
    (λ h. ap some ((eq_iff t "widget_data").0 h), λ h. (eq_iff t "widget_data").1 (cc h))

-- the claims of a token that may read the data of widgets, independently of how they are checked
pub record IsAccepted (context : WidgetVerifyContext) (payload : Payload)
    (identity : WidgetIdentity) : Type 0 where
  pub sub : (t : String) × (payload.sub ≡ some t) × (t ≢ "")
  pub jti : (t : String) × (payload.jti ≡ some t) × (t ≢ "")
  pub expiry : payload.has_expiry ≡ true
  pub tenant : identity.tenant_id ≢ ""
  pub person : identity.identity_id ≢ ""
  pub client : identity.client_id ≡ context.client_id
  pub app : identity.app_code ≡ context.app_code
  pub audience :
      (payload.aud ≡ one (expected_audience context.app_code))
      ⊎ (payload.aud ≡ many (some (expected_audience context.app_code) ∷ []))
  pub handoff : text_or_none payload.handoff_type ≡ some "widget_data"
  pub scope : identity.scope ≡ "widget.data.read"
  pub widgets : identity.widget_keys ≢ []
  pub endpoints : identity.data_endpoint_keys ≢ []
  pub pairs : identity.endpoint_pairs ≢ []
  pub allowed : All (IsAllowed identity) identity.endpoint_pairs

module _ (context : WidgetVerifyContext) (payload : Payload) (identity : WidgetIdentity) where
  is_permitted_iff :
      (is_permitted context payload identity ≡ true) ↔ IsAccepted context payload identity
  unfolding is_permitted
  is_permitted_iff = (
    λ h. record {
      sub = (truthy_iff payload.sub).0 (ground arith);
      jti = (truthy_iff payload.jti).0 (ground arith);
      expiry = ground arith;
      tenant = (given_iff identity.tenant_id).0 (ground arith);
      person = (given_iff identity.identity_id).0 (ground arith);
      client = (eq_iff _ _).0 (ground arith);
      app = (eq_iff _ _).0 (ground arith);
      audience =
          (has_exact_audience_iff payload.aud (expected_audience context.app_code)).0
            (ground arith);
      handoff = (text_or_none_iff (text_or_none payload.handoff_type)).0 (ground arith);
      scope = (eq_iff _ _).0 (ground arith);
      widgets = (given_list_iff identity.widget_keys).0 (ground arith);
      endpoints = (given_list_iff identity.data_endpoint_keys).0 (ground arith);
      pairs = (given_list_iff identity.endpoint_pairs).0 (ground arith);
      allowed = (has_allowed_pairs_iff identity).0 (ground arith);
    },
    λ a.
        rw
          (
            (truthy_iff payload.sub).1 a.sub,
            (truthy_iff payload.jti).1 a.jti,
            a.expiry,
            (given_iff identity.tenant_id).1 a.tenant,
            (given_iff identity.identity_id).1 a.person,
            (eq_iff identity.client_id context.client_id).1 a.client,
            (eq_iff identity.app_code context.app_code).1 a.app,
            (has_exact_audience_iff payload.aud (expected_audience context.app_code)).1 a.audience,
            (text_or_none_iff (text_or_none payload.handoff_type)).1 a.handoff,
            (eq_iff identity.scope "widget.data.read").1 a.scope,
            (given_list_iff identity.widget_keys).1 a.widgets,
            (given_list_iff identity.data_endpoint_keys).1 a.endpoints,
            (given_list_iff identity.endpoint_pairs).1 a.pairs,
            (has_allowed_pairs_iff identity).1 a.allowed,
          )
          refl,
  )

module _ (jwt_verify : JwtVerify) (token : String) (context : WidgetVerifyContext)
    (identity : WidgetIdentity) where
  -- what the token must be
  pub record IsVerified : Type 0 where
    pub payload : Payload
    pub kind : Kind
    pub signed :
        jwt_verify token context.jwks_uri context.issuer
          (expected_audience context.app_code)
          context.clock_tolerance
        ≡ some payload
    pub kind_of : to_person_type (payload.identity_type or payload.eit) ≡ some kind
    pub identity_of : widget_identity payload kind ≡ identity
    pub accepted : IsAccepted context payload identity

  -- `verifyWidget` returns an identity exactly if `jwtVerify` accepts the token for the application's
  -- audience, the payload names a kind of person, gives this identity and has all of the claims of a
  -- token for widget data; each pair of its list names a widget and an endpoint that the token allows.
  pub verify_widget_iff : (verify_widget jwt_verify token context ≡ ok identity) ↔ IsVerified
  unfolding verify_widget read_widget check_widget
  verify_widget_iff = (
    λ h.
        elim (Option-cases (
          jwt_verify token context.jwks_uri context.issuer (expected_audience context.app_code)
            context.clock_tolerance)) [
              | inl bad ↦ absurd (cc (rw bad at h))
              | inr (payload, signed) ↦
                  elim (Option-cases (to_person_type (payload.identity_type or payload.eit))) [
                    | inl bad ↦ absurd (cc (rw (signed, bad) at h))
                    | inr (kind, known) ↦
                        elim (Bool-cases
                          (is_permitted context payload (widget_identity payload kind))) [
                            | inr bad ↦ absurd (cc (rw (signed, known, bad) at h))
                            | inl good ↦
                                let same : widget_identity payload kind ≡ identity =
                                  cc (rw (signed, known, good) at h) in
                                record {
                                  payload = payload;
                                  kind = kind;
                                  signed = signed;
                                  kind_of = known;
                                  identity_of = same;
                                  accepted = subst (IsAccepted context payload) same (
                                      (is_permitted_iff context payload
                                          (widget_identity payload kind)).0
                                        good);
                                }
                          ]
                  ]
            ],
    λ v.
        let good = (is_permitted_iff context v.payload identity).1 v.accepted in
        rw (v.signed, v.kind_of, v.identity_of, good) refl,
  )
