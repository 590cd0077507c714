-- ===== src/WidgetAuth/Race/Paths.antt =====
-- Runs of steps that one request makes alone.
use widget_demo.Prelude.{ℕ, ◌≤◌, ◌≡◌, ◌≢◌, refl, ◌∙◌, Option, none, some, arith}
use widget_demo.Table.{string_eq}
use widget_demo.Crypto.{Crypto}
use widget_demo.WidgetSessions.{Json}
use widget_demo.WidgetRequests.{AuthRequest}
use widget_demo.WidgetAuth.{ReplayCodec, AuthExchange}
use widget_demo.WidgetAuth.Replay.{new_exchange}
use widget_demo.WidgetAuth.Race as Race
use widget_demo.WidgetAuth.Race.{
  Phase, waiting, erasing, claiming, exchanging, completed, ended, set_phase, Shared, Step, Reach,
  here, next,
}

pub set_phase_self : (i : ℕ) (p : Phase) (phase : ℕ → Phase) → set_phase i p phase i ≡ p
set_phase_self i p phase = ground arith

module _ (crypto : Crypto) (json : Json) (codec : ReplayCodec) (request : AuthRequest) where
  Reach-trans :
      {r s t : Shared crypto json codec request}
      → Reach crypto json codec request r s
      → Reach crypto json codec request s t
      → Reach crypto json codec request r t
  Reach-trans a here = a
  Reach-trans a (next b step) = next (Reach-trans a b) step

  -- steps of the request lead to a row, and to a phase of the request
  pub record IsPath (i : ℕ) (s : Shared crypto json codec request) (p : Phase)
      (row : Option (AuthExchange crypto.Sealed)) : Type 0 where
    pub final : Shared crypto json codec request
    pub reach : Reach crypto json codec request s final
    pub is_row : final.row ≡ row
    pub others : (j : ℕ) → i ≢ j → final.phase j ≡ s.phase j
    pub is_phase : final.phase i ≡ p

  -- the last step of the request
  pub last_step :
      (i : ℕ) (p : Phase) (s : Shared crypto json codec request)
      (row : Option (AuthExchange crypto.Sealed))
      → Step crypto json codec request s (record s { row = row; phase = set_phase i p s.phase })
      → IsPath i s p row
  last_step i p s row step = record {
    final = record s { row = row; phase = set_phase i p s.phase };
    reach = next here step;
    is_row = refl;
    others = λ j other. ground arith;
    is_phase = set_phase_self i p s.phase;
  }

  -- a step to another phase, before the others
  pub after_step :
      (i : ℕ) (q : Phase) (r s : Shared crypto json codec request) {p : Phase}
      {row : Option (AuthExchange crypto.Sealed)}
      → Step crypto json codec request r s
      → s.phase ≡ set_phase i q r.phase
      → IsPath i s p row
      → IsPath i r p row
  after_step i q r s step same e = record {
    final = e.final;
    reach = Reach-trans (next here step) e.reach;
    is_row = e.is_row;
    others = λ j other. e.others j other ∙ kept j other;
    is_phase = e.is_phase;
  }
    where
      kept : (j : ℕ) → i ≢ j → s.phase j ≡ r.phase j
      kept j other = rw same (ground arith)

  pub tick_step :
      (i : ℕ) (s : Shared crypto json codec request) (later : ℕ) {p : Phase}
      {row : Option (AuthExchange crypto.Sealed)}
      → s.now ≤ later
      → IsPath i (record s { now = later }) p row
      → IsPath i s p row
  tick_step i s later le e = record {
    final = e.final;
    reach = Reach-trans (next here (Race.tick s later le)) e.reach;
    is_row = e.is_row;
    others = e.others;
    is_phase = e.is_phase;
  }

  -- the state after the request's claim
  abbrev pub claimed_at :
      ℕ → ℕ → Shared crypto json codec request → Shared crypto json codec request
  claimed_at now i s = record {
    now = now;
    row = some (new_exchange crypto json codec request now);
    phase = set_phase i exchanging s.phase;
  }

  pub claim_step :
      (i : ℕ) (s : Shared crypto json codec request) (claimed : ℕ) {p : Phase}
      {row : Option (AuthExchange crypto.Sealed)}
      → s.phase i ≡ claiming
      → s.row ≡ none
      → s.now ≤ claimed
      → IsPath i (claimed_at claimed i s) p row
      → IsPath i s p row
  claim_step i s claimed at free le e = tick_step i s claimed le (
      after_step i exchanging (record s { now = claimed }) (claimed_at claimed i s)
        (Race.claim (record s { now = claimed }) i at free) refl e)

  -- a claim that is given up
  pub fail-IsPath :
      (i : ℕ) (s : Shared crypto json codec request) (claimed : ℕ)
      → s.phase i ≡ claiming
      → s.row ≡ none
      → s.now ≤ claimed
      → IsPath i s ended none
  fail-IsPath i s claimed at free le = claim_step i s claimed at free le (
      last_step i ended (claimed_at claimed i s) none
        (Race.fail (claimed_at claimed i s) i (set_phase_self i exchanging s.phase)))
