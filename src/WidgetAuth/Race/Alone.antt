-- ===== src/WidgetAuth/Race/Alone.antt =====
-- The steps of a request are those of `authorize`.
use mathlib.Core.Path.{subst}
use widget_demo.Prelude.{
  err, ok, ◌<◌, ap, ℕ, ◌≤◌, String, true, false, ◌≡◌, refl, sym, ◌∙◌, inl, inr, Option, none, some,
  ◌==◌, eq_iff, leb, arith, HttpError, Result, Bool-cases, Option-cases,
}
use widget_demo.Table.{string_eq, lookup, erase}
use widget_demo.Table.Laws.{lookup-insert_self, lookup-erase_self}
use widget_demo.Crypto.{Crypto, IsCrypto}
use widget_demo.WidgetSessions.{Json}
use widget_demo.Tenancy.{Tenancy}
use widget_demo.Claims.{WidgetIdentity, WidgetVerifyContext}
use widget_demo.WidgetRequests.{AuthRequest}
use widget_demo.WidgetAuth.{
  WidgetTokenResponse, WidgetTokens, Client, load_credential, ReplayCodec, AuthExchange,
  WidgetState,
}
use widget_demo.WidgetAuth.Replay.{
  key_hash, request_hash, parse_text, bound_to, open_response, replay_of, load_replay, new_exchange,
}
use widget_demo.WidgetAuth.Loaded.{IsRefused, IsAnswered, IsCodec}
use widget_demo.WidgetAuth.Authorize.{unless_replayed, authorize_request}
use widget_demo.WidgetAuth.Ended as Ended
use widget_demo.WidgetAuth.Ended.{unless_replayed-IsEnded}
use widget_demo.WidgetAuth.Race as Race
use widget_demo.WidgetAuth.Race.{
  Phase, waiting, erasing, claiming, exchanging, completed, ended, set_phase, Shared, Step, Reach,
  here, next,
}
use widget_demo.WidgetAuth.Race.Paths.{
  set_phase_self, IsPath, last_step, after_step, claim_step, fail-IsPath, claimed_at,
}

same_row :
    {Sealed : Type 0} (row : AuthExchange Sealed) {client_id hash : String}
    {response : Option Sealed} {expires_at : ℕ}
    → row.client_id ≡ client_id
    → row.request_hash ≡ hash
    → row.response ≡ response
    → row.expires_at ≡ expires_at
    → row ≡ record {
      client_id = client_id;
      request_hash = hash;
      response = response;
      expires_at = expires_at;
    }
same_row row a b c d = rw (sym a, sym b, sym c, sym d) refl

module _ (crypto : Crypto) (json : Json) (codec : ReplayCodec) (request : AuthRequest) where
  module _ (is_crypto : IsCrypto crypto) (is_codec : IsCodec codec) (app_code : String)
      (exchange : String → String → String → Result HttpError WidgetTokens)
      (verify : String → WidgetVerifyContext → Result HttpError WidgetIdentity)
      (start claimed done : ℕ) (id session_iv replay_iv : String) (i : ℕ) where
    abbrev pub IsUnspent : Tenancy crypto.Sealed → HttpError → Type 0
    IsUnspent =
        Ended.IsUnspent crypto json codec is_crypto is_codec app_code exchange verify start claimed
          done id session_iv replay_iv request

    abbrev pub IsExchanged : Client crypto.Sealed → WidgetTokens → Type 0
    IsExchanged =
        Ended.IsExchanged crypto json codec is_crypto is_codec app_code exchange verify start
          claimed done id session_iv replay_iv request

    abbrev pub row_in : WidgetState crypto json → Option (AuthExchange crypto.Sealed)
    row_in state = lookup (key_hash crypto json codec request) state.exchanges

    -- a request that finds no exchange: without the code it gives its claim up; with it, its claim
    -- stays, without a response or with one
    pub data IsRun (s : Shared crypto json codec request) (tenancy : Tenancy crypto.Sealed)
        : Result HttpError WidgetTokenResponse × WidgetState crypto json → Type 0 where
      unspent :
          (why : HttpError) (after : WidgetState crypto json)
          → IsUnspent tenancy why
          → row_in after ≡ none
          → IsPath crypto json codec request i s ended (row_in after)
          → IsRun s tenancy (err why, after)
      spent :
          (why : HttpError) (after : WidgetState crypto json) (client : Client crypto.Sealed)
          (tokens : WidgetTokens) (row : AuthExchange crypto.Sealed)
          → load_credential request.client_id tenancy ≡ ok client
          → IsExchanged client tokens
          → row_in after ≡ some row
          → row.response ≡ none
          → IsPath crypto json codec request i s completed (row_in after)
          → IsRun s tenancy (err why, after)
      granted :
          (response : WidgetTokenResponse) (after : WidgetState crypto json)
          (client : Client crypto.Sealed) (tokens : WidgetTokens)
          → load_credential request.client_id tenancy ≡ ok client
          → IsExchanged client tokens
          → IsAnswered crypto json codec request after response
          → IsPath crypto json codec request i s completed (row_in after)
          → IsRun s tenancy (ok response, after)

    pub data IsExplained (s : Shared crypto json codec request) (before : WidgetState crypto json)
        : Result HttpError WidgetTokenResponse × WidgetState crypto json → Type 0 where
      refused :
          (why : HttpError) (row : AuthExchange crypto.Sealed)
          → row_in before ≡ some row
          → IsRefused crypto json codec request start row why
          → IsPath crypto json codec request i s ended (row_in before)
          → IsExplained s before (err why, before)
      replayed :
          (response : WidgetTokenResponse)
          (a : IsAnswered crypto json codec request before response)
          → start < a.row.expires_at
          → IsPath crypto json codec request i s ended (row_in before)
          → IsExplained s before (ok response, before)
      ran :
          (r : Result HttpError WidgetTokenResponse × WidgetState crypto json)
          → IsRun s before.tenancy r
          → IsExplained s before r

    -- from the claim on, by how the request ends
    claiming-IsRun :
        (s : Shared crypto json codec request) (before : WidgetState crypto json)
        (r : Result HttpError WidgetTokenResponse × WidgetState crypto json)
        → s.phase i ≡ claiming
        → s.row ≡ none
        → s.now ≤ claimed
        → row_in before ≡ none
        → Ended.IsEnded crypto json codec is_crypto is_codec app_code exchange verify start claimed
            done id session_iv replay_iv request before r
        → IsRun s before.tenancy r
    claiming-IsRun s before _ at free le vacant (Ended.IsEnded.refused why row found because) =
        absurd (cc (sym vacant ∙ found))
    claiming-IsRun s before _ at free le vacant (Ended.IsEnded.replayed response a fresh) =
        absurd (cc (sym vacant ∙ a.found))
    claiming-IsRun s before _ at free le vacant
          (Ended.IsEnded.freed why after is_freed (Ended.IsUnspent.no_client w missing)) =
        IsRun.unspent why after
          (subst (λ t. IsUnspent t why) is_freed.tenancy (Ended.IsUnspent.no_client w missing))
          is_freed.free
          (rw is_freed.free (
            subst (IsPath crypto json codec request i s ended) free
              (last_step crypto json codec request i ended s s.row (Race.no_client s i at))))
    claiming-IsRun s before _ at free le vacant
          (Ended.IsEnded.freed why after is_freed (Ended.IsUnspent.no_secret client l missing)) =
        IsRun.unspent why after
          (subst (λ t. IsUnspent t why) is_freed.tenancy
            (Ended.IsUnspent.no_secret client l missing))
          is_freed.free
          (rw is_freed.free (fail-IsPath crypto json codec request i s claimed at free le))
    claiming-IsRun s before _ at free le vacant
          (Ended.IsEnded.freed why after is_freed
            (Ended.IsUnspent.not_given client secret w l opened failed)) =
        IsRun.unspent why after
          (subst (λ t. IsUnspent t why) is_freed.tenancy
            (Ended.IsUnspent.not_given client secret w l opened failed))
          is_freed.free
          (rw is_freed.free (fail-IsPath crypto json codec request i s claimed at free le))
    claiming-IsRun s before _ at free le vacant
          (Ended.IsEnded.spent why state client tokens f l x) =
        IsRun.spent why _ client tokens (new_exchange crypto json codec request claimed)
          (subst (λ t. load_credential request.client_id t ≡ ok client) f.tenancy l) x
          (lookup-insert_self _ _ _) refl
          (subst (IsPath crypto json codec request i s completed) (sym (lookup-insert_self _ _ _)) (
            claim_step crypto json codec request i s claimed at free le (
              last_step crypto json codec request i completed
                (claimed_at crypto json codec request claimed i s) _
                (Race.spend (claimed_at crypto json codec request claimed i s) i
                  (set_phase_self i exchanging s.phase)))))
    claiming-IsRun s before _ at free le vacant
          (Ended.IsEnded.granted response state after client tokens f l x g) =
        IsRun.granted response after client tokens
          (subst (λ t. load_credential request.client_id t ≡ ok client) f.tenancy l) x g.answered
          (subst (IsPath crypto json codec request i s completed)
            (sym (
              g.answered.found
              ∙ ap some (
                  same_row g.answered.row g.answered.client g.answered.same g.answered.stored
                    g.expires)))
            (claim_step crypto json codec request i s claimed at free le (
              last_step crypto json codec request i completed
                (claimed_at crypto json codec request claimed i s) _
                (Race.store (claimed_at crypto json codec request claimed i s) i _ g.answered.sealed
                  (set_phase_self i exchanging s.phase) refl))))

    -- from `loadReplay` on, if the key has no exchange
    vacant-IsRun :
        (s : Shared crypto json codec request) (before : WidgetState crypto json)
        → s.phase i ≡ claiming
        → s.row ≡ none
        → s.now ≤ claimed
        → row_in before ≡ none
        → IsRun s before.tenancy (
            unless_replayed crypto json codec app_code exchange verify start claimed done id
              session_iv replay_iv request none before)
    vacant-IsRun s before at free le vacant = claiming-IsRun s before _ at free le vacant (
        unless_replayed-IsEnded crypto json codec is_crypto is_codec app_code exchange verify start
          claimed done id session_iv replay_iv request before before
          (record { tenancy = refl; sessions = refl; free = vacant; others = λ key ne. refl }))

    -- a step before the run
    before_run :
        (q : Phase) (r s : Shared crypto json codec request) (tenancy : Tenancy crypto.Sealed)
        (t : Result HttpError WidgetTokenResponse × WidgetState crypto json)
        → Step crypto json codec request r s
        → s.phase ≡ set_phase i q r.phase
        → IsRun s tenancy t
        → IsRun r tenancy t
    before_run q r s tenancy _ step same (IsRun.unspent why after u none_left path) =
        IsRun.unspent why after u none_left
          (after_step crypto json codec request i q r s step same path)
    before_run q r s tenancy _ step same (IsRun.spent why after client tokens row l x e n path) =
        IsRun.spent why after client tokens row l x e n
          (after_step crypto json codec request i q r s step same path)
    before_run q r s tenancy _ step same (IsRun.granted response after client tokens l x a path) =
        IsRun.granted response after client tokens l x a
          (after_step crypto json codec request i q r s step same path)

    -- a fresh exchange of this request
    taken-IsExplained :
        (before : WidgetState crypto json) (s : Shared crypto json codec request)
        (row : AuthExchange crypto.Sealed)
        → IsPath crypto json codec request i s ended (row_in before)
        → row_in before ≡ some row
        → row.client_id ≡ request.client_id
        → row.request_hash ≡ request_hash crypto json codec request
        → leb row.expires_at start ≡ false
        → IsExplained s before (
            authorize_request crypto json codec app_code exchange verify start claimed done id
              session_iv replay_iv request before)
    unfolding authorize_request load_replay replay_of open_response unless_replayed
    taken-IsExplained before s row path found client same fresh =
        let bc : (row.client_id == request.client_id) ≡ true = (eq_iff _ _).1 client in
        let bh : (row.request_hash == request_hash crypto json codec request) ≡ true =
          (eq_iff _ _).1 same in
        elim (Option-cases row.response) [
          | inl missing ↦
              rw (found, bc, bh, fresh, missing)
                (IsExplained.refused _ row found (IsRefused.in_progress (ground arith) missing)
                  path)
          | inr (sealed, stored) ↦
              elim (Option-cases (
                parse_text crypto json codec request
                  (crypto.decrypt (bound_to crypto json codec request) sealed))) [
                    | inl broken ↦
                        rw (found, bc, bh, fresh, stored, broken)
                          (IsExplained.refused _ row found
                            (IsRefused.unreadable sealed (ground arith) stored broken) path)
                    | inr (response, opened) ↦
                        rw (found, bc, bh, fresh, stored, opened)
                          (IsExplained.replayed response
                            (record {
                              row = row;
                              sealed = sealed;
                              found = found;
                              client = client;
                              same = same;
                              stored = stored;
                              opens = opened;
                            })
                            (ground arith) path)
                  ]
        ]

    -- `authorize`, run alone on a well-formed request, goes through steps of the interleaving, which
    -- move no other request and lead from the key's row before to its row after. The request ends in
    -- the phase `completed` if the code was exchanged, and then the claim stays: without a response if
    -- an error is raised, with the one that is returned otherwise. It ends in the phase `ended` if the
    -- code was not exchanged: refused by the exchange that the key has, or answered with its response,
    -- or without client, secret or exchange, and then the key has no row. A row that is there before
    -- is of this request.
    pub authorize_request-IsExplained :
        (before : WidgetState crypto json) (phase : ℕ → Phase)
        → phase i ≡ waiting
        → start ≤ claimed
        → ((row : AuthExchange crypto.Sealed)
            → row_in before ≡ some row
            → (row.client_id ≡ request.client_id)
              × (row.request_hash ≡ request_hash crypto json codec request))
        → IsExplained
            (record { now = start; row = row_in before; phase = phase })
            before
            (authorize_request crypto json codec app_code exchange verify start claimed done id
              session_iv replay_iv request before)
    unfolding authorize_request load_replay replay_of
    authorize_request-IsExplained before phase at le ours = elim (Option-cases (row_in before)) [
      | inl free ↦ rw free (
          IsExplained.ran _ (
            before_run claiming _ _ before.tenancy _ (Race.read_free _ i at refl) refl (
              vacant-IsRun (record { now = start; row = none; phase = set_phase i claiming phase })
                before (set_phase_self i claiming phase) refl le free)))
      | inr (row, found) ↦ elim (Bool-cases (leb row.expires_at start)) [
        | inr fresh ↦
            taken-IsExplained before _ row
              (last_step crypto json codec request i ended _ (row_in before)
                (Race.read_taken _ i row at found fresh))
              found (ours row found).0 (ours row found).1 fresh
        | inl expired ↦
            rw
              (
                found,
                (eq_iff row.client_id request.client_id).1 (ours row found).0,
                (eq_iff row.request_hash (request_hash crypto json codec request)).1
                    (ours row found).1,
                expired,
              )
              (IsExplained.ran _ (
                before_run erasing _ _ before.tenancy _ (Race.read_expired _ i row at refl expired)
                  refl
                  (before_run claiming _ _ before.tenancy _
                    (Race.erase
                      (record { now = start; row = some row; phase = set_phase i erasing phase }) i
                      (set_phase_self i erasing phase))
                    refl
                    (vacant-IsRun
                      (record {
                        now = start;
                        row = none;
                        phase = set_phase i claiming (set_phase i erasing phase);
                      })
                      (record before {
                        exchanges = erase (key_hash crypto json codec request) before.exchanges;
                      })
                      (set_phase_self i claiming (set_phase i erasing phase)) refl le
                      (lookup-erase_self _ before.exchanges)))))
      ]
    ]
