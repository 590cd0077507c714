-- ===== src/WidgetAuth/Race.antt =====
-- Requests to `authorize` under one idempotency key, interleaved at their database operations: each
-- reads the exchange, erases what it saw expired, claims, and stores or gives up. The requests are
-- the same and well formed, so that none is refused for another client or request.
pub mod Single
pub mod Paths
pub mod Alone
mod Tests
use widget_demo.Prelude.{
  ℕ, ◌≤◌, Bool, true, false, ◌≡◌, Option, none, some, leb, if◌then◌else◌, is_some, ◌=ℕ◌,
}
use widget_demo.Crypto.{Crypto}
use widget_demo.WidgetSessions.{Json}
use widget_demo.WidgetRequests.{AuthRequest}
use widget_demo.WidgetAuth.{ReplayCodec, AuthExchange}
use widget_demo.WidgetAuth.Replay.{new_exchange}

-- Where a request stands: before `loadReplay`; having seen an expired exchange; before `create`; having
-- found the key taken; having seen an expired exchange then; exchanging the code; after a completed
-- exchange; ended without one.
pub data Phase : Type 0 where
  waiting erasing claiming rereading erasing_again exchanging completed ended : Phase

abbrev pub set_phase : ℕ → Phase → (ℕ → Phase) → ℕ → Phase
set_phase i p phase j = if i =ℕ j then p else phase j

module _ (crypto : Crypto) (json : Json) (codec : ReplayCodec) (request : AuthRequest) where
  -- the time, the row of the key, and the phase of each request
  pub record Shared : Type 0 where
    pub now : ℕ
    pub row : Option (AuthExchange crypto.Sealed)
    pub phase : ℕ → Phase

  -- `deleteMany` of the row that has no response
  abbrev pub released : Option (AuthExchange crypto.Sealed) → Option (AuthExchange crypto.Sealed)
  released none = none
  released (some row) = if is_some row.response then some row else none

  pub data Step : Shared → Shared → Type 0 where
    tick : (s : Shared) (later : ℕ) → s.now ≤ later → Step s (record s { now = later })
    read_free :
        (s : Shared) (i : ℕ)
        → s.phase i ≡ waiting
        → s.row ≡ none
        → Step s (record s { phase = set_phase i claiming s.phase })
    read_expired :
        (s : Shared) (i : ℕ) (row : AuthExchange crypto.Sealed)
        → s.phase i ≡ waiting
        → s.row ≡ some row
        → leb row.expires_at s.now ≡ true
        → Step s (record s { phase = set_phase i erasing s.phase })
    -- the response is replayed, or the exchange is in progress
    read_taken :
        (s : Shared) (i : ℕ) (row : AuthExchange crypto.Sealed)
        → s.phase i ≡ waiting
        → s.row ≡ some row
        → leb row.expires_at s.now ≡ false
        → Step s (record s { phase = set_phase i ended s.phase })
    erase :
        (s : Shared) (i : ℕ)
        → s.phase i ≡ erasing
        → Step s (record s { row = none; phase = set_phase i claiming s.phase })
    -- the client is unavailable
    no_client :
        (s : Shared) (i : ℕ)
        → s.phase i ≡ claiming
        → Step s (record s { phase = set_phase i ended s.phase })
    claim :
        (s : Shared) (i : ℕ)
        → s.phase i ≡ claiming
        → s.row ≡ none
        → Step s (record s {
          row = some (new_exchange crypto json codec request s.now);
          phase = set_phase i exchanging s.phase;
        })
    clash :
        (s : Shared) (i : ℕ) (row : AuthExchange crypto.Sealed)
        → s.phase i ≡ claiming
        → s.row ≡ some row
        → Step s (record s { phase = set_phase i rereading s.phase })
    reread_free :
        (s : Shared) (i : ℕ)
        → s.phase i ≡ rereading
        → s.row ≡ none
        → Step s (record s { phase = set_phase i ended s.phase })
    reread_taken :
        (s : Shared) (i : ℕ) (row : AuthExchange crypto.Sealed)
        → s.phase i ≡ rereading
        → s.row ≡ some row
        → leb row.expires_at s.now ≡ false
        → Step s (record s { phase = set_phase i ended s.phase })
    reread_expired :
        (s : Shared) (i : ℕ) (row : AuthExchange crypto.Sealed)
        → s.phase i ≡ rereading
        → s.row ≡ some row
        → leb row.expires_at s.now ≡ true
        → Step s (record s { phase = set_phase i erasing_again s.phase })
    erase_again :
        (s : Shared) (i : ℕ)
        → s.phase i ≡ erasing_again
        → Step s (record s { row = none; phase = set_phase i ended s.phase })
    -- the exchange fails, and its claim is given up
    fail :
        (s : Shared) (i : ℕ)
        → s.phase i ≡ exchanging
        → Step s (record s { row = released s.row; phase = set_phase i ended s.phase })
    -- the exchange is completed, and its tokens are refused
    spend :
        (s : Shared) (i : ℕ)
        → s.phase i ≡ exchanging
        → Step s (record s { phase = set_phase i completed s.phase })
    store :
        (s : Shared) (i : ℕ) (row : AuthExchange crypto.Sealed) (sealed : crypto.Sealed)
        → s.phase i ≡ exchanging
        → s.row ≡ some row
        → Step s (record s {
          row = some (record row { response = some sealed });
          phase = set_phase i completed s.phase;
        })
    -- the claim is gone: the update raises
    store_lost :
        (s : Shared) (i : ℕ)
        → s.phase i ≡ exchanging
        → s.row ≡ none
        → Step s (record s { phase = set_phase i completed s.phase })

  pub data Reach (start : Shared) : Shared → Type 0 where
    here : Reach start start
    next : {s t : Shared} → Reach start s → Step s t → Reach start t

  -- nobody has claimed the key yet
  abbrev pub unclaimed : ℕ → Shared
  unclaimed now = record { now = now; row = none; phase = λ i. waiting }
