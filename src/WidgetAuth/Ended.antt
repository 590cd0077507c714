-- ===== src/WidgetAuth/Ended.antt =====
-- How `authorize` ends.
use widget_demo.Prelude.{
  type_error, ℕ, ◌+◌, ◌*◌, ◌<◌, String, true, ◌≡◌, refl, inl, inr, Option, none, some, or_else,
  HttpError, Result, ok, err, Bool-cases, Option-cases, Result-cases,
}
use widget_demo.Table.{lookup, string_eq, insert, erase}
use widget_demo.Table.Laws.{
  lookup-insert_self, lookup-insert_ne, lookup-erase_self, lookup-erase, beq_ne,
}
use widget_demo.Crypto.{Crypto, IsCrypto}
use widget_demo.Texts.{is_truthy}
use widget_demo.Sessions.{has_text}
use widget_demo.Tenancy.{Tenancy}
use widget_demo.WidgetSessions.{Json, create}
use widget_demo.Claims.{WidgetIdentity, WidgetVerifyContext}
use widget_demo.WidgetRequests.{AuthBody, AuthRequest, validate_auth_input}
use widget_demo.WidgetAuth.{
  WidgetTokenResponse, WidgetTokens, ReplayCodec, AuthExchange, Client, WidgetState, positive,
  load_credential, verify_context, session_context,
}
use widget_demo.WidgetAuth.Replay.{
  key_hash, bound_to, load_replay, new_exchange, claim_on, claim_exchange, release_on, release,
  store_on, store_replay,
}
use widget_demo.WidgetAuth.Loaded.{
  IsRefused, IsCodec, IsAnswered, IsFreed, IsLoaded, load_replay-IsLoaded,
}
use widget_demo.WidgetAuth.Authorize.{
  is_inherited, response_of, save_session, accept_identity, accept_tokens, exchange_code,
  run_exchange, unless_taken, unless_replayed, authorize_request, authorize,
}

module _ (crypto : Crypto) (json : Json) (codec : ReplayCodec) (is_crypto : IsCrypto crypto)
    (is_codec : IsCodec codec) (app_code : String)
    (exchange : String → String → String → Result HttpError WidgetTokens)
    (verify : String → WidgetVerifyContext → Result HttpError WidgetIdentity)
    (start claimed done : ℕ) (id session_iv replay_iv : String) (request : AuthRequest) where
  -- the state with the claim of the request
  abbrev claimed_in : WidgetState crypto json → WidgetState crypto json
  claimed_in state = record state {
    exchanges =
        insert (key_hash crypto json codec request) (new_exchange crypto json codec request claimed)
          state.exchanges;
  }

  abbrev answer : Client crypto.Sealed → WidgetTokens → ℕ → WidgetIdentity → WidgetTokenResponse
  answer client tokens expires_in identity =
      response_of crypto json codec app_code exchange verify start claimed done id session_iv
        replay_iv request client tokens expires_in identity id

  -- the code was exchanged for tokens
  pub record IsExchanged (client : Client crypto.Sealed) (tokens : WidgetTokens) : Type 0 where
    pub secret : String
    pub opened : crypto.decrypt "" client.context.secret ≡ some secret
    pub given : exchange request.client_id secret request.handoff_code ≡ ok tokens

  -- why the code was not exchanged
  pub data IsUnspent (tenancy : Tenancy crypto.Sealed) : HttpError → Type 0 where
    no_client :
        (why : HttpError)
        → load_credential request.client_id tenancy ≡ err why
        → IsUnspent tenancy why
    no_secret :
        (client : Client crypto.Sealed)
        → load_credential request.client_id tenancy ≡ ok client
        → crypto.decrypt "" client.context.secret ≡ none
        → IsUnspent tenancy type_error
    not_given :
        (client : Client crypto.Sealed) (secret : String) (why : HttpError)
        → load_credential request.client_id tenancy ≡ ok client
        → crypto.decrypt "" client.context.secret ≡ some secret
        → exchange request.client_id secret request.handoff_code ≡ err why
        → IsUnspent tenancy why

  -- the response's token was verified for the tenant, a session was created from it, and the
  -- response is stored for the next minute
  pub record IsGranted (client : Client crypto.Sealed) (tokens : WidgetTokens)
      (before after : WidgetState crypto json) (response : WidgetTokenResponse) : Type 0 where
    pub identity : WidgetIdentity
    pub refresh_token : String
    pub expires_in : ℕ
    pub verified : verify tokens.access_token (verify_context app_code 0 client) ≡ ok identity
    pub tenant : has_text client.context.tenant.eduplus_tenant_id identity.tenant_id ≡ true
    pub refreshable : is_truthy tokens.refresh_token ≡ some refresh_token
    pub lasts : positive tokens.expires_in ≡ some expires_in
    pub is_response : response ≡ answer client tokens expires_in identity
    pub session :
        after.sessions
        ≡ (create crypto json id session_iv
            (session_context client.context.tenant.id identity)
            tokens.access_token
            refresh_token
            (done + or_else (positive tokens.refresh_expires_in) 1800 * 1000)
            before.sessions).1
    pub tenancy : after.tenancy ≡ before.tenancy
    pub answered : IsAnswered crypto json codec request after response
    pub expires : answered.row.expires_at ≡ claimed + 60000

  -- how a request that is well formed ends
  pub data IsEnded (before : WidgetState crypto json)
      : Result HttpError WidgetTokenResponse × WidgetState crypto json → Type 0 where
    -- the key's exchange is of another client or request, in progress, or cannot be read: nothing
    -- changes, and no code is exchanged
    refused :
        (why : HttpError) (row : AuthExchange crypto.Sealed)
        → lookup (key_hash crypto json codec request) before.exchanges ≡ some row
        → IsRefused crypto json codec request start row why
        → IsEnded before (err why, before)
    replayed :
        (response : WidgetTokenResponse) (a : IsAnswered crypto json codec request before response)
        → start < a.row.expires_at
        → IsEnded before (ok response, before)
    -- no client, no secret, or a failed exchange, so that no code is spent: the key is free again
    freed :
        (why : HttpError) (after : WidgetState crypto json)
        → IsFreed crypto json codec request before after
        → IsUnspent after.tenancy why
        → IsEnded before (err why, after)
    -- the code is spent and its tokens are refused: the claim stays
    spent :
        (why : HttpError) (free : WidgetState crypto json) (client : Client crypto.Sealed)
        (tokens : WidgetTokens)
        → IsFreed crypto json codec request before free
        → load_credential request.client_id free.tenancy ≡ ok client
        → IsExchanged client tokens
        → IsEnded before (err why, claimed_in free)
    granted :
        (response : WidgetTokenResponse) (free after : WidgetState crypto json)
        (client : Client crypto.Sealed) (tokens : WidgetTokens)
        → IsFreed crypto json codec request before free
        → load_credential request.client_id free.tenancy ≡ ok client
        → IsExchanged client tokens
        → IsGranted client tokens free after response
        → IsEnded before (ok response, after)

  module _ (before free : WidgetState crypto json)
      (is_freed : IsFreed crypto json codec request before free) (client : Client crypto.Sealed)
      (loaded : load_credential request.client_id free.tenancy ≡ ok client) where
    abbrev released : WidgetState crypto json
    released = record (claimed_in free) {
      exchanges = erase (key_hash crypto json codec request) (claimed_in free).exchanges;
    }

    release-claimed : release crypto json codec request (claimed_in free) ≡ (ok tt, released)
    unfolding release release_on
    release-claimed =
        rw
          (lookup-insert_self (key_hash crypto json codec request)
            (new_exchange crypto json codec request claimed) free.exchanges)
          refl

    released-IsEnded :
        (why : HttpError) → IsUnspent free.tenancy why → IsEnded before (err why, released)
    released-IsEnded why unspent =
        IsEnded.freed why released
          (record {
            tenancy = is_freed.tenancy;
            sessions = is_freed.sessions;
            free = lookup-erase_self (key_hash crypto json codec request) _;
            others = λ key ne.
                rw
                  (
                    lookup-erase,
                    beq_ne (key_hash crypto json codec request) key ne,
                    lookup-insert_ne (key_hash crypto json codec request) key
                        (new_exchange crypto json codec request claimed) free.exchanges ne,
                  )
                  (is_freed.others key ne);
          })
          unspent

    module _ (tokens : WidgetTokens) (exchanged : IsExchanged client tokens) where
      save_session-IsEnded :
          (refresh_token : String) (expires_in : ℕ) (identity : WidgetIdentity)
          → verify tokens.access_token (verify_context app_code 0 client) ≡ ok identity
          → has_text client.context.tenant.eduplus_tenant_id identity.tenant_id ≡ true
          → is_truthy tokens.refresh_token ≡ some refresh_token
          → positive tokens.expires_in ≡ some expires_in
          → IsEnded before (
              save_session crypto json codec app_code exchange verify start claimed done id
                session_iv replay_iv request client tokens refresh_token expires_in identity
                (claimed_in free))
      unfolding save_session create store_replay store_on
      save_session-IsEnded refresh_token expires_in identity verified tenant refreshable lasts =
          let new = new_exchange crypto json codec request claimed in
          let key = key_hash crypto json codec request in
          elim (Bool-cases (is_inherited identity.identity_type)) [
            | inl bad ↦ rw bad (IsEnded.spent _ free client tokens is_freed loaded exchanged)
            | inr good ↦
                rw (good, lookup-insert_self key new free.exchanges)
                  (IsEnded.granted _ free _ client tokens is_freed loaded exchanged (record {
                    identity = identity;
                    refresh_token = refresh_token;
                    expires_in = expires_in;
                    verified = verified;
                    tenant = tenant;
                    refreshable = refreshable;
                    lasts = lasts;
                    is_response = refl;
                    session = refl;
                    tenancy = refl;
                    answered = record {
                      row = record new { response = some _ };
                      sealed = _;
                      found = lookup-insert_self key _ _;
                      client = refl;
                      same = refl;
                      stored = refl;
                      opens =
                          rw
                            (is_crypto.opens replay_iv (bound_to crypto json codec request)
                              (codec.print (answer client tokens expires_in identity)))
                            (is_codec.reads (answer client tokens expires_in identity));
                    };
                    expires = refl;
                  }))
          ]

      accept_tokens-IsEnded : IsEnded before (
          accept_tokens crypto json codec app_code exchange verify start claimed done id session_iv
            replay_iv request client tokens
            (claimed_in free))
      unfolding accept_tokens accept_identity
      accept_tokens-IsEnded = elim (Option-cases (is_truthy tokens.refresh_token)) [
        | inl missing ↦ rw missing (IsEnded.spent _ free client tokens is_freed loaded exchanged)
        | inr (refresh_token, a) ↦ elim (Option-cases (positive tokens.expires_in)) [
          | inl missing ↦
              rw (a, missing) (IsEnded.spent _ free client tokens is_freed loaded exchanged)
          | inr (expires_in, b) ↦
              elim (Result-cases (verify tokens.access_token (verify_context app_code 0 client))) [
                | inl (why, c) ↦
                    rw (a, b, c) (IsEnded.spent _ free client tokens is_freed loaded exchanged)
                | inr (identity, c) ↦
                    elim (Bool-cases
                      (has_text client.context.tenant.eduplus_tenant_id identity.tenant_id)) [
                        | inr other ↦
                            rw (a, b, c, other)
                              (IsEnded.spent _ free client tokens is_freed loaded exchanged)
                        | inl tenant ↦
                            rw (a, b, c, tenant)
                              (save_session-IsEnded refresh_token expires_in identity c tenant a b)
                      ]
              ]
        ]
      ]

    run_exchange-IsEnded : IsEnded before (
        run_exchange crypto json codec app_code exchange verify start claimed done id session_iv
          replay_iv request client
          (claimed_in free))
    unfolding run_exchange exchange_code
    run_exchange-IsEnded = elim (Option-cases (crypto.decrypt "" client.context.secret)) [
      | inl missing ↦
          rw (missing, release-claimed)
            (released-IsEnded _ (IsUnspent.no_secret client loaded missing))
      | inr (secret, opened) ↦
          elim (Result-cases (exchange request.client_id secret request.handoff_code)) [
            | inl (why, failed) ↦
                rw (opened, failed, release-claimed)
                  (released-IsEnded why
                    (IsUnspent.not_given client secret why loaded opened failed))
            | inr (tokens, given) ↦
                rw (opened, given)
                  (accept_tokens-IsEnded tokens
                    (record { secret = secret; opened = opened; given = given }))
          ]
    ]

  pub unless_replayed-IsEnded :
      (before free : WidgetState crypto json)
      → IsFreed crypto json codec request before free
      → IsEnded before (
          unless_replayed crypto json codec app_code exchange verify start claimed done id
            session_iv replay_iv request none free)
  unfolding unless_replayed unless_taken claim_exchange claim_on
  unless_replayed-IsEnded before free is_freed =
      elim (Result-cases (load_credential request.client_id free.tenancy)) [
        | inl (why, bad) ↦ rw bad (IsEnded.freed why free is_freed (IsUnspent.no_client why bad))
        | inr (client, loaded) ↦
            rw (loaded, is_freed.free) (run_exchange-IsEnded before free is_freed client loaded)
      ]

  after_replay :
      (before : WidgetState crypto json)
      (r : Result HttpError (Option WidgetTokenResponse) × WidgetState crypto json)
      → IsLoaded crypto json codec request start before r
      → load_replay crypto json codec request start before ≡ r
      → IsEnded before (
          authorize_request crypto json codec app_code exchange verify start claimed done id
            session_iv replay_iv request before)
  unfolding authorize_request unless_replayed
  after_replay before _ (IsLoaded.refused why row found because) e =
      rw e (IsEnded.refused why row found because)
  after_replay before _ (IsLoaded.replayed response a fresh) e =
      rw e (IsEnded.replayed response a fresh)
  after_replay before _ (IsLoaded.freed free is_freed) e =
      rw e (unless_replayed-IsEnded before free is_freed)

  -- A request that is well formed ends in one of five ways: the exchange that its key has is of
  -- another client or request, in progress, or unreadable, and the request is refused with the error
  -- of that case and changes nothing; it is answered with the response that its key holds and that has
  -- not expired; there is no client, no secret or the exchange fails, and the request raises that error
  -- and leaves its key without an exchange; the code has been exchanged but its tokens are refused, and
  -- the claim stays; or it is granted: the token is verified for the tenant, one session is created, and the
  -- response is stored for the key until a minute after the claim.
  pub authorize-IsEnded :
      (body : Option AuthBody) (before : WidgetState crypto json)
      → validate_auth_input body ≡ ok request
      → IsEnded before (
          authorize crypto json codec app_code exchange verify start claimed done id session_iv
            replay_iv body before)
  unfolding authorize
  authorize-IsEnded body before valid =
      rw valid
        (after_replay before _ (load_replay-IsLoaded crypto json codec request start before) refl)
