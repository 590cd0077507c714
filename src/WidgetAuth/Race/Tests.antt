-- ===== src/WidgetAuth/Race/Tests.antt =====
-- Runs of interleaved requests.
use widget_demo.Prelude.{ap, sym, ◌∙◌, ℕ, true, false, ◌≡◌, refl, none, some, [], arith}
use widget_demo.Samples.{toy_crypto}
use widget_demo.Table.{string_eq, lookup, insert}
use widget_demo.Table.Laws.{lookup-insert_self}
use widget_demo.WidgetSamples.{
  toy_json, toy_crypto-IsCrypto, request, empty_state, exchange, verify,
}
use widget_demo.WidgetAuth.{AuthExchange, WidgetState}
use widget_demo.WidgetAuth.Authorize.{authorize_request}
use widget_demo.WidgetAuth.Race.Alone.{IsExplained, authorize_request-IsExplained}
use widget_demo.WidgetAuth.Replay.{key_hash, new_exchange}
use widget_demo.WidgetAuth.ToyCodec.{toy_codec, toy_codec-IsCodec}
use widget_demo.WidgetAuth.Race as Race
use widget_demo.WidgetAuth.Race.{
  Phase, waiting, erasing, claiming, exchanging, set_phase, Shared, Step, Reach, here, next,
  unclaimed, read_free, read_expired,
}
use widget_demo.WidgetAuth.Race.Single.{has_code, one_exchange}

abbrev none_yet : Shared toy_crypto toy_json toy_codec request
none_yet = unclaimed toy_crypto toy_json toy_codec request 5

abbrev one_claims : Shared toy_crypto toy_json toy_codec request
one_claims = record none_yet { phase = set_phase 0 claiming none_yet.phase }

abbrev one_exchanges : Shared toy_crypto toy_json toy_codec request
one_exchanges = record {
  now = 5;
  row = some (new_exchange toy_crypto toy_json toy_codec request 5);
  phase = set_phase 0 exchanging one_claims.phase;
}

one_exchange_example : has_code (one_exchanges.phase 1) ≡ false
unfolding has_code
one_exchange_example =
    one_exchange toy_crypto toy_json toy_codec request 5 one_exchanges 0 1
      (next (next here (read_free none_yet 0 refl refl)) (Race.claim one_claims 0 refl refl))
      (omega arith) refl (omega arith)

abbrev claimed_at : ℕ → AuthExchange (toy_crypto.Sealed)
claimed_at now = new_exchange toy_crypto toy_json toy_codec request now

abbrev stale : Shared toy_crypto toy_json toy_codec request
stale = record { now = 70000; row = some (claimed_at 5); phase = λ i. waiting }

abbrev one_saw : Shared toy_crypto toy_json toy_codec request
one_saw = record stale { phase = set_phase 0 erasing stale.phase }

abbrev both_saw : Shared toy_crypto toy_json toy_codec request
both_saw = record one_saw { phase = set_phase 1 erasing one_saw.phase }

abbrev one_erased : Shared toy_crypto toy_json toy_codec request
one_erased = record both_saw { row = none; phase = set_phase 0 claiming both_saw.phase }

abbrev one_claimed : Shared toy_crypto toy_json toy_codec request
one_claimed = record one_erased {
  row = some (claimed_at 70000);
  phase = set_phase 0 exchanging one_erased.phase;
}

abbrev both_erased : Shared toy_crypto toy_json toy_codec request
both_erased = record one_claimed { row = none; phase = set_phase 1 claiming one_claimed.phase }

abbrev both_claimed : Shared toy_crypto toy_json toy_codec request
both_claimed = record both_erased {
  row = some (claimed_at 70000);
  phase = set_phase 1 exchanging both_erased.phase;
}

-- two requests that saw an expired exchange: the second erases the claim of the first
both_exchange :
    Reach toy_crypto toy_json toy_codec request stale both_claimed
    × (has_code (both_claimed.phase 0) ≡ true)
    × (has_code (both_claimed.phase 1) ≡ true)
unfolding has_code
both_exchange = (
  next
      (next
        (next
          (next
            (next (next here (read_expired stale 0 (claimed_at 5) refl refl refl))
              (read_expired one_saw 1 (claimed_at 5) refl refl refl))
            (Race.erase both_saw 0 refl))
          (Race.claim one_erased 0 refl refl))
        (Race.erase one_claimed 1 refl))
      (Race.claim both_erased 1 refl refl),
  refl,
  refl,
)

-- an exchange that has expired when the request comes
abbrev expired_state : WidgetState toy_crypto toy_json
expired_state = record empty_state {
  exchanges = insert (key_hash toy_crypto toy_json toy_codec request) (claimed_at 5) [];
}

authorize_request-IsExplained_example :
    IsExplained toy_crypto toy_json toy_codec request toy_crypto-IsCrypto toy_codec-IsCodec "exams"
      exchange verify 70000 70001 70002 "s" "iv" "iv2" 0
      (record {
        now = 70000;
        row = lookup (key_hash toy_crypto toy_json toy_codec request) expired_state.exchanges;
        phase = λ i. waiting;
      })
      expired_state
      (authorize_request toy_crypto toy_json toy_codec "exams" exchange verify 70000 70001 70002 "s"
        "iv" "iv2" request expired_state)
authorize_request-IsExplained_example =
    authorize_request-IsExplained toy_crypto toy_json toy_codec request toy_crypto-IsCrypto
      toy_codec-IsCodec "exams" exchange verify 70000 70001 70002 "s" "iv" "iv2" 0 expired_state
      (λ i. waiting) refl (omega arith)
      (λ row e.
        let same : claimed_at 5 ≡ row = cc (sym (lookup-insert_self _ (claimed_at 5) []) ∙ e) in
        (
          ap (λ (r : AuthExchange (toy_crypto.Sealed)). r.client_id) (sym same),
          ap (λ (r : AuthExchange (toy_crypto.Sealed)). r.request_hash) (sym same),
        ))
