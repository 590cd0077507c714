-- ===== src/WidgetAuth/Replay.antt =====
-- The table of exchanges of backend/src/widgets/widget-auth.service.ts: each idempotency key has at
-- most one exchange in progress, or its response.
use Prim.Native.String.{◌++◌ as concat}
use widget_demo.Prelude.{
  ℕ, ◌+◌, String, not, Option, none, some, ◌==◌, leb, if◌then◌else◌, is_some, HttpError, conflict,
  unauthorized, Result, ok, err, pure, raise, gets, modify, ◌>>=◌, ◌>>◌,
}
use widget_demo.Table.{string_eq, lookup, insert, erase}
use widget_demo.Crypto.{Crypto}
use widget_demo.WidgetSessions.{Json}
use widget_demo.WidgetRequests.{AuthRequest}
use widget_demo.WidgetAuth.{WidgetTokenResponse, ReplayCodec, AuthExchange, Action}

module _ (crypto : Crypto) (json : Json) (codec : ReplayCodec) where
  -- `hashIdempotencyKey` and `hashAuthRequest`; the type of the grant is known
  unfoldable pub key_hash : AuthRequest → String
  key_hash request = crypto.hash (concat request.client_id (concat "\0" request.idempotency_key))

  unfoldable pub request_hash : AuthRequest → String
  request_hash request = crypto.hash (
      concat "eduplus_widget_handoff\0"
        (concat request.client_id (concat "\0" request.handoff_code)))

  abbrev pub put_exchange : String → AuthExchange crypto.Sealed → Action crypto json Unit
  put_exchange key row =
      modify (λ state. record state { exchanges = insert key row state.exchanges })

  abbrev pub erase_exchange : String → Action crypto json Unit
  erase_exchange key = modify (λ state. record state { exchanges = erase key state.exchanges })

  module _ (request : AuthRequest) where
    abbrev pub bound_to : String
    bound_to = codec.bound_to (key_hash request) request.client_id (request_hash request)

    abbrev pub parse_text : Option String → Option WidgetTokenResponse
    parse_text none = none
    parse_text (some text) = codec.parse text

    abbrev replayed : Option WidgetTokenResponse → Result HttpError (Option WidgetTokenResponse)
    replayed none = err (unauthorized "Widget auth replay is invalid")
    replayed (some response) = ok (some response)

    unfoldable pub open_response :
        Option crypto.Sealed → Result HttpError (Option WidgetTokenResponse)
    open_response none = err (conflict "Widget auth exchange is already in progress")
    open_response (some sealed) = replayed (parse_text (crypto.decrypt bound_to sealed))

    unfoldable pub replay_of :
        ℕ → Option (AuthExchange crypto.Sealed) → Action crypto json (Option WidgetTokenResponse)
    replay_of now none = pure none
    replay_of now (some existing) =
        if not (existing.client_id == request.client_id)
        then raise (conflict "Idempotency key belongs to another OAuth client")
        else if not (existing.request_hash == request_hash request)
        then raise (conflict "Idempotency key belongs to another request")
        else if leb existing.expires_at now
        then erase_exchange (key_hash request) >> pure none
        else λ state. (open_response existing.response, state)

    unfoldable pub load_replay : ℕ → Action crypto json (Option WidgetTokenResponse)
    load_replay now = gets (λ state. lookup (key_hash request) state.exchanges) >>= replay_of now

    abbrev pub new_exchange : ℕ → AuthExchange crypto.Sealed
    new_exchange now = record {
      client_id = request.client_id;
      request_hash = request_hash request;
      response = none;
      expires_at = now + 60000;
    }

    abbrev taken : Option WidgetTokenResponse → Action crypto json (Option WidgetTokenResponse)
    taken none = raise (conflict "Widget auth exchange is already in progress")
    taken (some response) = pure (some response)

    -- `create`, which violates the unique key if the exchange exists
    unfoldable pub claim_on :
        ℕ → Option (AuthExchange crypto.Sealed) → Action crypto json (Option WidgetTokenResponse)
    claim_on now none = put_exchange (key_hash request) (new_exchange now) >> pure none
    claim_on now (some existing) = load_replay now >>= taken

    unfoldable pub claim_exchange : ℕ → Action crypto json (Option WidgetTokenResponse)
    claim_exchange now = gets (λ state. lookup (key_hash request) state.exchanges) >>= claim_on now

    -- `deleteMany` of the exchange that has no response
    unfoldable pub release_on : Option (AuthExchange crypto.Sealed) → Action crypto json Unit
    release_on none = pure tt
    release_on (some existing) =
        if is_some existing.response then pure tt else erase_exchange (key_hash request)

    unfoldable pub release : Action crypto json Unit
    release = gets (λ state. lookup (key_hash request) state.exchanges) >>= release_on

    unfoldable pub store_on :
        String → WidgetTokenResponse → Option (AuthExchange crypto.Sealed) → Action crypto json Unit
    -- `update` of a row that is not there is an error of the database
    store_on iv response none = raise HttpError.type_error
    store_on iv response (some existing) =
        put_exchange (key_hash request)
          (record existing { response = some (crypto.encrypt iv bound_to (codec.print response)) })

    unfoldable pub store_replay : String → WidgetTokenResponse → Action crypto json Unit
    store_replay iv response =
        gets (λ state. lookup (key_hash request) state.exchanges) >>= store_on iv response
