-- ===== src/WidgetAuth/Retried.antt =====
-- A request to `authorize` whose exchange failed can be made again.
use widget_demo.Prelude.{
  ℕ, String, true, false, ◌≡◌, refl, Option, none, some, HttpError, Result, ok, err,
}
use widget_demo.Table.{string_eq, lookup, insert, erase}
use widget_demo.Table.Laws.{lookup-insert_self, lookup-erase_self}
use widget_demo.Crypto.{Crypto}
use widget_demo.Texts.{is_truthy}
use widget_demo.Sessions.{has_text}
use widget_demo.WidgetSessions.{Json, create}
use widget_demo.Claims.{WidgetIdentity, WidgetVerifyContext}
use widget_demo.WidgetRequests.{AuthBody, AuthRequest, validate_auth_input}
use widget_demo.WidgetAuth.{
  WidgetTokenResponse, WidgetTokens, ReplayCodec, Client, WidgetState, positive, load_credential,
  verify_context,
}
use widget_demo.WidgetAuth.Replay.{
  key_hash, load_replay, replay_of, new_exchange, claim_on, claim_exchange, release_on, release,
  store_on, store_replay,
}
use widget_demo.WidgetAuth.Authorize.{
  is_inherited, save_session, accept_identity, accept_tokens, exchange_code, run_exchange,
  unless_taken, unless_replayed, authorize_request, authorize,
}

module _ (crypto : Crypto) (json : Json) (codec : ReplayCodec) (app_code : String)
    (verify : String → WidgetVerifyContext → Result HttpError WidgetIdentity)
    (request : AuthRequest) (body : Option AuthBody) (valid : validate_auth_input body ≡ ok request)
    (before : WidgetState crypto json) (client : Client crypto.Sealed) (secret : String)
    (free : lookup (key_hash crypto json codec request) before.exchanges ≡ none)
    (loaded : load_credential request.client_id before.tenancy ≡ ok client)
    (opened : crypto.decrypt "" client.context.secret ≡ some secret) where
  -- the exchange gives complete tokens of a person of the tenant
  pub record IsAvailable (exchange : String → String → String → Result HttpError WidgetTokens)
      : Type 0 where
    pub tokens : WidgetTokens
    pub given : exchange request.client_id secret request.handoff_code ≡ ok tokens
    pub refresh_token : String
    pub refreshable : is_truthy tokens.refresh_token ≡ some refresh_token
    pub expires_in : ℕ
    pub lasts : positive tokens.expires_in ≡ some expires_in
    pub identity : WidgetIdentity
    pub verified : verify tokens.access_token (verify_context app_code 0 client) ≡ ok identity
    pub tenant : has_text client.context.tenant.eduplus_tenant_id identity.tenant_id ≡ true
    pub is_person : is_inherited identity.identity_type ≡ false

  -- the request was answered with the access token, and the session's identifier
  pub data IsGranted (access_token id : String)
      : Result HttpError WidgetTokenResponse × WidgetState crypto json → Type 0 where
    granted :
        (response : WidgetTokenResponse) (after : WidgetState crypto json)
        → response.access_token ≡ access_token
        → response.refresh_session_id ≡ id
        → IsGranted access_token id (ok response, after)

  -- after a failed exchange: the claim has been made and given up
  abbrev given_up : ℕ → WidgetState crypto json
  given_up claimed = record before {
    exchanges = erase (key_hash crypto json codec request) (
        insert (key_hash crypto json codec request) (new_exchange crypto json codec request claimed)
          before.exchanges);
  }

  authorize-fails :
      (exchange : String → String → String → Result HttpError WidgetTokens) (start claimed done : ℕ)
      (id session_iv replay_iv : String) (why : HttpError)
      → exchange request.client_id secret request.handoff_code ≡ err why
      → authorize crypto json codec app_code exchange verify start claimed done id session_iv
          replay_iv body before
        ≡ (err why, given_up claimed)
  unfolding authorize authorize_request load_replay replay_of unless_replayed claim_exchange
      claim_on unless_taken run_exchange exchange_code release release_on
  authorize-fails exchange start claimed done id session_iv replay_iv why failed =
      rw
        (
          valid,
          free,
          loaded,
          free,
          opened,
          failed,
          lookup-insert_self (key_hash crypto json codec request)
              (new_exchange crypto json codec request claimed) before.exchanges,
        )
        refl

  authorize-grants :
      (exchange : String → String → String → Result HttpError WidgetTokens) (start claimed done : ℕ)
      (id session_iv replay_iv : String) (state : WidgetState crypto json)
      → lookup (key_hash crypto json codec request) state.exchanges ≡ none
      → load_credential request.client_id state.tenancy ≡ ok client
      → (a : IsAvailable exchange)
      → IsGranted a.tokens.access_token id (
          authorize crypto json codec app_code exchange verify start claimed done id session_iv
            replay_iv body state)
  unfolding authorize authorize_request load_replay replay_of unless_replayed claim_exchange
      claim_on unless_taken run_exchange exchange_code accept_tokens accept_identity save_session
      create store_replay store_on
  authorize-grants exchange start claimed done id session_iv replay_iv state vacant known a =
      rw
        (
          valid,
          vacant,
          known,
          vacant,
          opened,
          a.given,
          a.refreshable,
          a.lasts,
          a.verified,
          a.tenant,
          a.is_person,
          lookup-insert_self (key_hash crypto json codec request)
              (new_exchange crypto json codec request claimed) state.exchanges,
        )
        (IsGranted.granted _ _ refl refl)

  -- A request on a free key whose exchange failed, of a client that is known, is answered with the
  -- error, and made again at any time it is granted the token, once the exchange is available and the
  -- token verified; nobody has to wait for the failed claim to expire.
  pub authorize_retry :
      (failing exchange : String → String → String → Result HttpError WidgetTokens)
      (why : HttpError) (start claimed done start' claimed' done' : ℕ)
      (id session_iv replay_iv id' session_iv' replay_iv' : String)
      → failing request.client_id secret request.handoff_code ≡ err why
      → (a : IsAvailable exchange)
      → (between : WidgetState crypto json) × (authorize crypto json codec app_code failing verify
            start claimed done id session_iv replay_iv body before
          ≡ (err why, between))
        × IsGranted a.tokens.access_token id' (
            authorize crypto json codec app_code exchange verify start' claimed' done' id'
              session_iv' replay_iv' body between)
  authorize_retry failing exchange why start claimed done start' claimed' done' id session_iv
        replay_iv id' session_iv' replay_iv' failed a =
      (
        given_up claimed,
        authorize-fails failing start claimed done id session_iv replay_iv why failed,
        authorize-grants exchange start' claimed' done' id' session_iv' replay_iv'
            (given_up claimed) (lookup-erase_self (key_hash crypto json codec request) _) loaded a,
      )
