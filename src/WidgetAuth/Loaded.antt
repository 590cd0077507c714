-- ===== src/WidgetAuth/Loaded.antt =====
-- What the table of exchanges says of an idempotency key.
use widget_demo.Prelude.{
  conflict, unauthorized, ℕ, ◌<◌, String, false, ◌≡◌, ◌≢◌, refl, inl, inr, Option, none, some, ◌==◌,
  eq_iff, leb, arith, HttpError, Result, ok, err, Bool-cases, Option-cases,
}
use widget_demo.Table.{string_eq, lookup, erase}
use widget_demo.Table.Laws.{lookup-erase_self, lookup-erase, beq_ne}
use widget_demo.Crypto.{Crypto}
use widget_demo.WidgetSessions.{Json}
use widget_demo.WidgetRequests.{AuthRequest}
use widget_demo.WidgetAuth.{WidgetTokenResponse, ReplayCodec, AuthExchange, WidgetState}
use widget_demo.WidgetAuth.Replay.{
  key_hash, request_hash, bound_to, parse_text, open_response, replay_of, load_replay,
}

ne_of_beq : (a b : String) → (a == b) ≡ false → a ≢ b
ne_of_beq a b h e = absurd (cc (h, (eq_iff a b).1 e))

-- a response can be stored as a text
pub record IsCodec (codec : ReplayCodec) : Type 0 where
  pub reads : (response : WidgetTokenResponse) → codec.parse (codec.print response) ≡ some response

module _ (crypto : Crypto) (json : Json) (codec : ReplayCodec) (request : AuthRequest) where
  -- the key has a response, that of this request
  pub record IsAnswered (state : WidgetState crypto json) (response : WidgetTokenResponse)
      : Type 0 where
    pub row : AuthExchange crypto.Sealed
    pub sealed : crypto.Sealed
    pub found : lookup (key_hash crypto json codec request) state.exchanges ≡ some row
    pub client : row.client_id ≡ request.client_id
    pub same : row.request_hash ≡ request_hash crypto json codec request
    pub stored : row.response ≡ some sealed
    pub opens :
        parse_text crypto json codec request
          (crypto.decrypt (bound_to crypto json codec request) sealed)
        ≡ some response

  -- the key has no exchange, and all else is as it was
  pub record IsFreed (before after : WidgetState crypto json) : Type 0 where
    pub tenancy : after.tenancy ≡ before.tenancy
    pub sessions : after.sessions ≡ before.sessions
    pub free : lookup (key_hash crypto json codec request) after.exchanges ≡ none
    pub others :
        (key : String)
        → key_hash crypto json codec request ≢ key
        → lookup key after.exchanges ≡ lookup key before.exchanges

  -- why `loadReplay` refuses the exchange that the key has
  pub data IsRefused (now : ℕ) (row : AuthExchange crypto.Sealed) : HttpError → Type 0 where
    other_client :
        row.client_id ≢ request.client_id
        → IsRefused now row (conflict "Idempotency key belongs to another OAuth client")
    other_request :
        row.client_id ≡ request.client_id
        → row.request_hash ≢ request_hash crypto json codec request
        → IsRefused now row (conflict "Idempotency key belongs to another request")
    in_progress :
        now < row.expires_at
        → row.response ≡ none
        → IsRefused now row (conflict "Widget auth exchange is already in progress")
    unreadable :
        (sealed : crypto.Sealed)
        → now < row.expires_at
        → row.response ≡ some sealed
        → parse_text crypto json codec request
            (crypto.decrypt (bound_to crypto json codec request) sealed)
          ≡ none
        → IsRefused now row (unauthorized "Widget auth replay is invalid")

  -- how `loadReplay` ends
  pub data IsLoaded (now : ℕ) (before : WidgetState crypto json)
      : Result HttpError (Option WidgetTokenResponse) × WidgetState crypto json → Type 0 where
    refused :
        (why : HttpError) (row : AuthExchange crypto.Sealed)
        → lookup (key_hash crypto json codec request) before.exchanges ≡ some row
        → IsRefused now row why
        → IsLoaded now before (err why, before)
    replayed :
        (response : WidgetTokenResponse) (a : IsAnswered before response)
        → now < a.row.expires_at
        → IsLoaded now before (ok (some response), before)
    freed :
        (after : WidgetState crypto json)
        → IsFreed before after
        → IsLoaded now before (ok none, after)

  erase-IsFreed :
      (before : WidgetState crypto json)
      → IsFreed before (record before {
        exchanges = erase (key_hash crypto json codec request) before.exchanges;
      })
  erase-IsFreed before = record {
    tenancy = refl;
    sessions = refl;
    free = lookup-erase_self (key_hash crypto json codec request) before.exchanges;
    others = λ key ne. rw (lookup-erase, beq_ne (key_hash crypto json codec request) key ne) refl;
  }

  pub load_replay-IsLoaded :
      (now : ℕ) (before : WidgetState crypto json)
      → IsLoaded now before (load_replay crypto json codec request now before)
  unfolding load_replay replay_of open_response
  load_replay-IsLoaded now before =
      elim (Option-cases (lookup (key_hash crypto json codec request) before.exchanges)) [
        | inl free ↦ rw free (
            IsLoaded.freed before
              (record { tenancy = refl; sessions = refl; free = free; others = λ key ne. refl }))
        | inr (row, found) ↦ elim (Bool-cases (row.client_id == request.client_id)) [
          | inr other ↦
              rw (found, other)
                (IsLoaded.refused _ row found (IsRefused.other_client (ne_of_beq _ _ other)))
          | inl client ↦
              elim (Bool-cases (row.request_hash == request_hash crypto json codec request)) [
                | inr other ↦
                    rw (found, client, other)
                      (IsLoaded.refused _ row found
                        (IsRefused.other_request ((eq_iff _ _).0 client) (ne_of_beq _ _ other)))
                | inl same ↦ elim (Bool-cases (leb row.expires_at now)) [
                  | inl expired ↦
                      rw (found, client, same, expired) (IsLoaded.freed _ (erase-IsFreed before))
                  | inr fresh ↦ elim (Option-cases row.response) [
                    | inl missing ↦
                        rw (found, client, same, fresh, missing)
                          (IsLoaded.refused _ row found
                            (IsRefused.in_progress (ground arith) missing))
                    | inr (sealed, stored) ↦
                        elim (Option-cases (
                          parse_text crypto json codec request
                            (crypto.decrypt (bound_to crypto json codec request) sealed))) [
                              | inl broken ↦
                                  rw (found, client, same, fresh, stored, broken)
                                    (IsLoaded.refused _ row found
                                      (IsRefused.unreadable sealed (ground arith) stored broken))
                              | inr (response, opens) ↦
                                  rw (found, client, same, fresh, stored, opens)
                                    (IsLoaded.replayed response
                                      (record {
                                        row = row;
                                        sealed = sealed;
                                        found = found;
                                        client = (eq_iff _ _).0 client;
                                        same = (eq_iff _ _).0 same;
                                        stored = stored;
                                        opens = opens;
                                      })
                                      (ground arith))
                            ]
                  ]
                ]
              ]
        ]
      ]

  -- A response that is stored and has not expired is given again.
  pub load_replay-answered :
      (now : ℕ) (state : WidgetState crypto json) (response : WidgetTokenResponse)
      (a : IsAnswered state response)
      → now < a.row.expires_at
      → load_replay crypto json codec request now state ≡ (ok (some response), state)
  unfolding load_replay replay_of open_response
  load_replay-answered now state response a fresh =
      let later : leb a.row.expires_at now ≡ false = ground arith in
      rw
        (
          a.found,
          (eq_iff a.row.client_id request.client_id).1 a.client,
          (eq_iff a.row.request_hash (request_hash crypto json codec request)).1 a.same,
          later,
          a.stored,
          a.opens,
        )
        refl
