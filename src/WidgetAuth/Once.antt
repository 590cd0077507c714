-- ===== src/WidgetAuth/Once.antt =====
-- An idempotency key gives one response.
use widget_demo.Prelude.{
  ℕ, ◌<◌, String, ◌≡◌, refl, sym, ap, ◌∙◌, Option, some, HttpError, Result, ok,
}
use mathlib.Core.Path.{subst}
use widget_demo.WidgetAuth.{AuthExchange}
use widget_demo.WidgetAuth.Replay.{key_hash}
use widget_demo.Table.{string_eq, lookup}
use widget_demo.Crypto.{Crypto, IsCrypto}
use widget_demo.WidgetSessions.{Json}
use widget_demo.Claims.{WidgetIdentity, WidgetVerifyContext}
use widget_demo.WidgetRequests.{AuthBody, AuthRequest, validate_auth_input}
use widget_demo.WidgetAuth.{WidgetTokenResponse, WidgetTokens, ReplayCodec, WidgetState}
use widget_demo.WidgetAuth.Loaded.{IsCodec, IsAnswered, load_replay-answered}
use widget_demo.WidgetAuth.Authorize.{unless_replayed, authorize_request, authorize}
use widget_demo.WidgetAuth.Ended.{IsEnded, authorize-IsEnded}

module _ (crypto : Crypto) (json : Json) (codec : ReplayCodec) (app_code : String)
    (request : AuthRequest) where
  authorize-replays :
      (exchange : String → String → String → Result HttpError WidgetTokens)
      (verify : String → WidgetVerifyContext → Result HttpError WidgetIdentity)
      (start claimed done : ℕ) (id session_iv replay_iv : String) (body : Option AuthBody)
      (state : WidgetState crypto json) (response : WidgetTokenResponse)
      → validate_auth_input body ≡ ok request
      → (a : IsAnswered crypto json codec request state response) → start < a.row.expires_at
      → authorize crypto json codec app_code exchange verify start claimed done id session_iv
          replay_iv body state
        ≡ (ok response, state)
  unfolding authorize authorize_request unless_replayed
  authorize-replays exchange verify start claimed done id session_iv replay_iv body state response
        valid a fresh =
      rw (valid, load_replay-answered crypto json codec request start state response a fresh) refl

  module _ (is_crypto : IsCrypto crypto) (is_codec : IsCodec codec)
      (exchange : String → String → String → Result HttpError WidgetTokens)
      (verify : String → WidgetVerifyContext → Result HttpError WidgetIdentity)
      (start claimed done : ℕ) (id session_iv replay_iv : String) where
    moved :
        (before after : WidgetState crypto json) (other response : WidgetTokenResponse)
        → ◌≡◌ {A = Result HttpError WidgetTokenResponse × WidgetState crypto json}
            (ok other, before)
            (ok response, after)
        → IsAnswered crypto json codec request before other
        → IsAnswered crypto json codec request after response
    moved before after other response e a =
        let same : other ≡ response = cc (ap (λ r. r.0) e) in
        subst (λ s. IsAnswered crypto json codec request s response) (ap (λ r. r.1) e)
          (subst (IsAnswered crypto json codec request before) same a)

    answered :
        (before after : WidgetState crypto json) (response : WidgetTokenResponse)
        (r : Result HttpError WidgetTokenResponse × WidgetState crypto json)
        → IsEnded crypto json codec is_crypto is_codec app_code exchange verify start claimed done
            id session_iv replay_iv request before r
        → r ≡ (ok response, after)
        → IsAnswered crypto json codec request after response
    answered before after response _ (IsEnded.refused why row f b) e = absurd (cc (ap (λ r. r.0) e))
    answered before after response _ (IsEnded.replayed other a fresh) e =
        moved before after other response e a
    answered before after response _ (IsEnded.freed why s f u) e = absurd (cc (ap (λ r. r.0) e))
    answered before after response _ (IsEnded.spent why free client tokens f l x) e =
        absurd (cc (ap (λ r. r.0) e))
    answered before after response _ (IsEnded.granted other free s client tokens f l x g) e =
        moved s after other response e g.answered

    -- When a request has been given a response, then until the exchange under its key expires the
    -- request is given the same response again and changes nothing, whatever the remote service and
    -- the verifier would answer then.
    pub authorize_again :
        (body : Option AuthBody) (before after : WidgetState crypto json)
        (response : WidgetTokenResponse) (row : AuthExchange crypto.Sealed)
        (exchange' : String → String → String → Result HttpError WidgetTokens)
        (verify' : String → WidgetVerifyContext → Result HttpError WidgetIdentity)
        (later claimed' done' : ℕ) (id' session_iv' replay_iv' : String)
        → validate_auth_input body ≡ ok request
        → authorize crypto json codec app_code exchange verify start claimed done id session_iv
            replay_iv body before
          ≡ (ok response, after)
        → lookup (key_hash crypto json codec request) after.exchanges ≡ some row
        → later < row.expires_at
        → authorize crypto json codec app_code exchange' verify' later claimed' done' id'
            session_iv' replay_iv' body after
          ≡ (ok response, after)
    authorize_again body before after response row exchange' verify' later claimed' done' id'
          session_iv' replay_iv' valid h found fresh =
        let a =
          answered before after response _
            (authorize-IsEnded crypto json codec is_crypto is_codec app_code exchange verify start
              claimed done id session_iv replay_iv request body before valid)
            h in
        let same : row ≡ a.row = cc (sym found ∙ a.found) in
        let early : later < a.row.expires_at = subst (λ r. later < r.expires_at) same fresh in
        authorize-replays exchange' verify' later claimed' done' id' session_iv' replay_iv' body
          after response valid a early
