-- ===== src/WidgetAuth/Race/Single.antt =====
-- Within a minute only one of the requests exchanges the code.
use widget_demo.Prelude.{
  ℕ, ◌+◌, ◌≤◌, ◌<◌, Bool, true, false, ◌≡◌, ◌≢◌, refl, Option, none, some, arith, is_some,
  Bool-cases, inl, inr,
}
use widget_demo.Crypto.{Crypto}
use widget_demo.WidgetSessions.{Json}
use widget_demo.WidgetRequests.{AuthRequest}
use widget_demo.WidgetAuth.{ReplayCodec, AuthExchange}
use widget_demo.WidgetAuth.Replay.{new_exchange}
use widget_demo.WidgetAuth.Race.{
  Phase, erasing, claiming, rereading, erasing_again, exchanging, completed, ended, set_phase,
  Shared, released, Step, Reach, here, next, unclaimed, tick, read_free, read_expired, read_taken,
  erase, no_client, claim, clash, reread_free, reread_taken, reread_expired, erase_again, fail,
  spend, store, store_lost,
}

-- the request is exchanging the code, or has exchanged it
unfoldable pub has_code : Phase → Bool
has_code exchanging = true
has_code completed = true
has_code _ = false

unfoldable pub is_erasing : Phase → Bool
is_erasing erasing = true
is_erasing erasing_again = true
is_erasing _ = false

module _ (crypto : Crypto) (json : Json) (codec : ReplayCodec) (request : AuthRequest)
    (began : ℕ) where
  record Inv (s : Shared crypto json codec request) : Type 0 where
    since : began ≤ s.now
    late : (row : AuthExchange crypto.Sealed) → s.row ≡ some row → began + 60000 ≤ row.expires_at
    calm : (i : ℕ) → is_erasing (s.phase i) ≡ false
    held : (i : ℕ) → has_code (s.phase i) ≡ true → is_some s.row ≡ true
    unique : (i j : ℕ) → has_code (s.phase i) ≡ true → has_code (s.phase j) ≡ true → i ≡ j

  Inv-unclaimed : Inv (unclaimed crypto json codec request began)
  unfolding has_code is_erasing
  Inv-unclaimed = record {
    since = omega arith;
    late = λ row e. absurd (cc e);
    calm = λ i. refl;
    held = λ i h. absurd (cc h);
    unique = λ i j h k. absurd (cc h);
  }

  -- a step that moves one request to a phase without the code, and keeps the row
  Inv-move :
      (s : Shared crypto json codec request) (i : ℕ) (p : Phase)
      → Inv s
      → has_code p ≡ false
      → is_erasing p ≡ false
      → Inv (record s { phase = set_phase i p s.phase })
  Inv-move s i p inv quiet calm = record {
    since = inv.since;
    late = inv.late;
    calm = λ j. ground (arith, inv.calm j);
    held = λ j h. ground (arith, inv.held j);
    unique = λ j k h l. ground (arith, inv.unique j k);
  }

  -- a step of a request that has the code, after which it may have it, and the row is there
  Inv-keep :
      (s : Shared crypto json codec request) (i : ℕ) (p : Phase)
      (row new : AuthExchange crypto.Sealed)
      → Inv s
      → has_code (s.phase i) ≡ true
      → is_erasing p ≡ false
      → s.row ≡ some row
      → new.expires_at ≡ row.expires_at
      → Inv (record s { row = some new; phase = set_phase i p s.phase })
  Inv-keep s i p row new inv code calm found same = record {
    since = inv.since;
    late = λ r e. ground (arith, inv.late row found);
    calm = λ j. ground (arith, inv.calm j);
    held = λ j h. refl;
    unique = λ j k h l. ground (arith, inv.unique j k, inv.unique i k, inv.unique j i);
  }

  -- a claim of a key without a row: nobody has the code
  Inv-claim :
      (s : Shared crypto json codec request) (i : ℕ)
      → Inv s
      → s.row ≡ none
      → Inv (record s {
        row = some (new_exchange crypto json codec request s.now);
        phase = set_phase i exchanging s.phase;
      })
  unfolding has_code is_erasing
  Inv-claim s i inv free = record {
    since = inv.since;
    late = λ r e. ground (arith, inv.since);
    calm = λ j. ground (arith, inv.calm j);
    held = λ j h. refl;
    unique = λ j k h l. ground (arith, inv.held j, inv.held k);
  }

  -- the only request with the code gives it up
  Inv-release :
      (s : Shared crypto json codec request) (i : ℕ)
      → Inv s
      → has_code (s.phase i) ≡ true
      → Inv (record s {
        row = released crypto json codec request s.row;
        phase = set_phase i ended s.phase;
      })
  unfolding has_code is_erasing
  Inv-release s i inv code = record {
    since = inv.since;
    late = λ r e. released_late r s.row e inv.late;
    calm = λ j. ground (arith, inv.calm j);
    held = λ j h. ground (arith, inv.unique i j);
    unique = λ j k h l. ground (arith, inv.unique j k);
  }
    where
      released_late :
          (r : AuthExchange crypto.Sealed) (row : Option (AuthExchange crypto.Sealed))
          → released crypto json codec request row ≡ some r
          → ((r : AuthExchange crypto.Sealed) → row ≡ some r → began + 60000 ≤ r.expires_at)
          → began + 60000 ≤ r.expires_at
      released_late r none e late = absurd (cc e)
      released_late r (some row) e late = ground (arith, late row refl)

  -- a request that has the code keeps it
  Inv-spend :
      (s : Shared crypto json codec request) (i : ℕ)
      → Inv s
      → has_code (s.phase i) ≡ true
      → Inv (record s { phase = set_phase i completed s.phase })
  unfolding has_code is_erasing
  Inv-spend s i inv code = record {
    since = inv.since;
    late = inv.late;
    calm = λ j. ground (arith, inv.calm j);
    held = λ j h. ground (arith, inv.held j, inv.held i);
    unique = λ j k h l. ground (arith, inv.unique j k, inv.unique i k, inv.unique j i);
  }

  Step-Inv :
      {s t : Shared crypto json codec request}
      → Step crypto json codec request s t
      → t.now < began + 60000
      → Inv s
      → Inv t
  unfolding has_code is_erasing
  Step-Inv (tick s later passed) early inv = record {
    since = omega (arith, inv.since, passed);
    late = inv.late;
    calm = inv.calm;
    held = inv.held;
    unique = inv.unique;
  }
  Step-Inv (read_free s i at_start free) early inv = Inv-move s i claiming inv refl refl
  Step-Inv (read_expired s i row at_start found expired) early inv =
      absurd (ground (arith, inv.late row found))
  Step-Inv (read_taken s i row at_start found fresh) early inv = Inv-move s i ended inv refl refl
  Step-Inv (erase s i saw) early inv = absurd (ground (arith, inv.calm i))
  Step-Inv (no_client s i at_claim) early inv = Inv-move s i ended inv refl refl
  Step-Inv (claim s i at_claim free) early inv = Inv-claim s i inv free
  Step-Inv (clash s i row at_claim found) early inv = Inv-move s i rereading inv refl refl
  Step-Inv (reread_free s i again free) early inv = Inv-move s i ended inv refl refl
  Step-Inv (reread_taken s i row again found fresh) early inv = Inv-move s i ended inv refl refl
  Step-Inv (reread_expired s i row again found expired) early inv =
      absurd (ground (arith, inv.late row found))
  Step-Inv (erase_again s i saw) early inv = absurd (ground (arith, inv.calm i))
  Step-Inv (fail s i has) early inv = Inv-release s i inv (rw has refl)
  Step-Inv (spend s i has) early inv = Inv-spend s i inv (rw has refl)
  Step-Inv (store s i row sealed has found) early inv =
      Inv-keep s i completed row (record row { response = some sealed }) inv (rw has refl) refl
        found refl
  Step-Inv (store_lost s i has free) early inv = absurd (ground (arith, inv.held i))

  Step-later :
      {s t : Shared crypto json codec request} → Step crypto json codec request s t → s.now ≤ t.now
  Step-later (tick s later passed) = passed
  Step-later (read_free s i h e) = omega arith
  Step-later _ = omega arith

  Reach-Inv :
      {s : Shared crypto json codec request}
      → Reach crypto json codec request (unclaimed crypto json codec request began) s
      → s.now < began + 60000
      → Inv s
  Reach-Inv here early = Inv-unclaimed
  Reach-Inv (next reach step) early =
      Step-Inv step early (Reach-Inv reach (omega (arith, Step-later step)))

  -- However the requests under a key that nobody has claimed interleave, within a minute, while one of
  -- them exchanges the code or has exchanged it, no other does or has.
  pub one_exchange :
      (s : Shared crypto json codec request) (i j : ℕ)
      → Reach crypto json codec request (unclaimed crypto json codec request began) s
      → s.now < began + 60000
      → has_code (s.phase i) ≡ true
      → i ≢ j
      → has_code (s.phase j) ≡ false
  one_exchange s i j reach early has other = elim (Bool-cases (has_code (s.phase j))) [
    | inl both ↦ absurd (other ((Reach-Inv reach early).unique i j has both))
    | inr none_else ↦ none_else
  ]
