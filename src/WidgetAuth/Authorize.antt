-- ===== src/WidgetAuth/Authorize.antt =====
-- `authorize` of backend/src/widgets/widget-auth.service.ts.
use widget_demo.Prelude.{
  ℕ, ◌+◌, ◌*◌, String, Bool, true, false, not, Option, none, some, or_else, HttpError, unauthorized,
  type_error, Result, pure, raise, gets, lift, raise_if, required, transaction, attempt, ◌>>=◌,
  ◌>>◌,
}
use widget_demo.Crypto.{Crypto}
use widget_demo.Sessions.{has_text}
use widget_demo.WidgetSessions.{Json, create}
use widget_demo.Texts.{is_truthy}
use widget_demo.Claims.{Kind, role, inherited, WidgetIdentity, WidgetVerifyContext}
use widget_demo.WidgetRequests.{AuthBody, AuthRequest, validate_auth_input}
use widget_demo.WidgetAuth.{
  WidgetTokenResponse, WidgetTokens, ReplayCodec, Client, Action, in_sessions, positive,
  refresh_after_of, load_credential, verify_context, session_context,
}
use widget_demo.WidgetAuth.Replay.{load_replay, claim_exchange, release, store_replay}

abbrev pub is_inherited : Kind → Bool
is_inherited (role type) = false
is_inherited inherited = true

-- `exchange` gets the client's identifier, its secret and the code, `verify` is `verifyWidget`. A
-- request starts, claims its exchange and is done at three instants; `id` is the new session's
-- identifier, `session_iv` and `replay_iv` are the random vectors.
module _ (crypto : Crypto) (json : Json) (codec : ReplayCodec) (app_code : String)
    (exchange : String → String → String → Result HttpError WidgetTokens)
    (verify : String → WidgetVerifyContext → Result HttpError WidgetIdentity)
    (start claimed done : ℕ) (id session_iv replay_iv : String) where
  -- `finish` below works on a request, with its client
  module _ (request : AuthRequest) (client : Client crypto.Sealed) where
    abbrev pub response_of : WidgetTokens → ℕ → WidgetIdentity → String → WidgetTokenResponse
    response_of tokens expires_in identity session_id = record {
      access_token = tokens.access_token;
      expires_in = expires_in;
      scope = identity.scope;
      refresh_session_id = session_id;
      refresh_after = refresh_after_of expires_in;
    }

    -- the database refuses a session whose kind is no person type
    unfoldable pub save_session :
        WidgetTokens → String → ℕ → WidgetIdentity → Action crypto json WidgetTokenResponse
    save_session tokens refresh_token expires_in identity = transaction (
        raise_if (is_inherited identity.identity_type) type_error
        >> in_sessions crypto json (
            create crypto json id session_iv (session_context client.context.tenant.id identity)
              tokens.access_token refresh_token
              (done + or_else (positive tokens.refresh_expires_in) 1800 * 1000))
        >>= λ session_id.
            store_replay crypto json codec request replay_iv
              (response_of tokens expires_in identity session_id)
            >> pure (response_of tokens expires_in identity session_id))

    unfoldable pub accept_identity :
        WidgetTokens → String → ℕ → WidgetIdentity → Action crypto json WidgetTokenResponse
    accept_identity tokens refresh_token expires_in identity =
        raise_if (not (has_text client.context.tenant.eduplus_tenant_id identity.tenant_id))
          (unauthorized "Widget token context does not match the selected tenant")
        >> save_session tokens refresh_token expires_in identity

    abbrev incomplete : HttpError
    incomplete = unauthorized "Widget handoff token response is incomplete"

    -- what follows a completed exchange
    unfoldable pub accept_tokens : WidgetTokens → Action crypto json WidgetTokenResponse
    accept_tokens tokens =
        lift (required (is_truthy tokens.refresh_token) incomplete) >>= λ refresh_token.
        lift (required (positive tokens.expires_in) incomplete) >>= λ expires_in.
        lift (verify tokens.access_token (verify_context app_code 0 client))
        >>= accept_identity tokens refresh_token expires_in

    unfoldable pub exchange_code : Action crypto json WidgetTokens
    exchange_code =
        lift (required (crypto.decrypt "" client.context.secret) type_error) >>= λ secret.
        lift (exchange request.client_id secret request.handoff_code)

    -- the `try`: until the exchange is completed, an exception gives the claim up
    unfoldable pub run_exchange : Action crypto json WidgetTokenResponse
    run_exchange =
        attempt exchange_code (λ why. release crypto json codec request >> raise why)
        >>= accept_tokens

    unfoldable pub unless_taken :
        Option WidgetTokenResponse → Action crypto json WidgetTokenResponse
    unless_taken none = run_exchange
    unless_taken (some response) = pure response

  module _ (request : AuthRequest) where
    unfoldable pub unless_replayed :
        Option WidgetTokenResponse → Action crypto json WidgetTokenResponse
    unless_replayed (some response) = pure response
    unless_replayed none =
        gets (λ state. load_credential request.client_id state.tenancy) >>= lift >>= λ client.
        claim_exchange crypto json codec request claimed >>= unless_taken request client

    unfoldable pub authorize_request : Action crypto json WidgetTokenResponse
    authorize_request = load_replay crypto json codec request start >>= unless_replayed

  unfoldable pub authorize : Option AuthBody → Action crypto json WidgetTokenResponse
  authorize body = lift (validate_auth_input body) >>= authorize_request
