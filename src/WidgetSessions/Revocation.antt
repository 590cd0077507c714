-- ===== src/WidgetSessions/Revocation.antt =====
-- A session that has been revoked, through any sequence of requests.
use widget_demo.WidgetSessions.Rotation.{rotate-cases}
use mathlib.Core.Path.{subst}
use widget_demo.Prelude.{
  sym, ap, eq_iff, ℕ, String, ◌≡◌, ◌≢◌, refl, ◌∙◌, ◌⊎◌, true, false, Option, none, some, List, [],
  ◌∷◌, ◌==◌, leb, is_some, All, Bool-cases, Option-cases, inl, inr, ok, err,
}
use widget_demo.Table.{string_eq, lookup}
use widget_demo.Table.Laws.{lookup-insert_ne}
use widget_demo.Crypto.{Crypto}
use widget_demo.WidgetSessions.{
  SessionContext, SessionError, session_not_found, session_expired, session_revoked,
  context_matches, context_of, aad_for, assert_context, WidgetSession, Json, Sessions,
  assert_usable, create, load, rotate, revoke,
}

-- the operations of the service with their arguments
pub data SessionRequest : Type 0 where
  create_request :
      (id iv : String)
      → SessionContext
      → (access_token refresh_token : String) → (expires_at : ℕ) → SessionRequest
  load_request : (now : ℕ) → (id access_token : String) → SessionContext → SessionRequest
  rotate_request :
      (now later : ℕ)
      → (id iv current_token : String) → SessionContext
      → (new_token new_refresh : String) → (expires_at : Option ℕ) → SessionRequest
  revoke_request : (now later : ℕ) → (id : String) → SessionContext → SessionRequest

ne_of_eq : (a b : String) → (a == b) ≡ false → a ≢ b
ne_of_eq a b h e = absurd (cc (h, (eq_iff a b).1 e))

module _ (crypto : Crypto) (json : Json) where
  -- the table after a request
  unfoldable pub perform : SessionRequest → Sessions crypto json → Sessions crypto json
  perform (create_request id iv context access refresh expires_at) db =
      (create crypto json id iv context access refresh expires_at db).1
  perform (load_request now id access context) db = (load crypto json now id access context db).1
  perform (rotate_request now later id iv current context new_token new_refresh expires_at) db =
      (rotate crypto json now later id iv current context new_token new_refresh expires_at db).1
  perform (revoke_request now later id context) db = (revoke crypto json now later id context db).1

  unfoldable pub perform_all : List SessionRequest → Sessions crypto json → Sessions crypto json
  perform_all [] db = db
  perform_all (request ∷ rest) db = perform_all rest (perform request db)

  -- random identifiers of new sessions are not the one of a session that is there
  abbrev pub IsNewFor : String → SessionRequest → Type 0
  IsNewFor id (create_request other _ _ _ _ _) = other ≢ id
  IsNewFor id _ = Unit

  revoked-assert_usable :
      (now : ℕ) (session : WidgetSession crypto.Sealed) (db : Sessions crypto json)
      → is_some session.revoked_at ≡ true
      → assert_usable crypto json now (some session) db ≡ (err session_revoked, db)
  unfolding assert_usable
  revoked-assert_usable now session db gone = rw gone

  module _ (id : String) (session : WidgetSession crypto.Sealed)
      (gone : is_some session.revoked_at ≡ true) (db : Sessions crypto json)
      (found : lookup id db ≡ some session) where
    revoked-load :
        (now : ℕ) (access_token : String) (context : SessionContext)
        → load crypto json now id access_token context db ≡ (err session_revoked, db)
    unfolding load
    revoked-load now access_token context = rw (found, revoked-assert_usable now session db gone)

    revoked-rotate :
        (now later : ℕ) (iv current : String) (context : SessionContext)
        (new_token new_refresh : String) (expires_at : Option ℕ)
        → rotate crypto json now later id iv current context new_token new_refresh expires_at db
          ≡ (err session_revoked, db)
    unfolding rotate
    revoked-rotate now later iv current context new_token new_refresh expires_at =
        rw (found, revoked-assert_usable now session db gone)

    revoked-revoke :
        (now later : ℕ) (context : SessionContext)
        → revoke crypto json now later id context db ≡ (err session_revoked, db)
    unfolding revoke
    revoked-revoke now later context = rw (found, revoked-assert_usable now session db gone)

  module _ (now : ℕ) (id access_token : String) (context : SessionContext)
      (db : Sessions crypto json) where
    usable-cases :
        (found : Option (WidgetSession crypto.Sealed))
        → ((why : SessionError) × (assert_usable crypto json now found db ≡ (err why, db)))
          ⊎ ((s : WidgetSession crypto.Sealed) × (assert_usable crypto json now found db
                ≡ (ok s, db))
              × (found ≡ some s))
    unfolding assert_usable
    usable-cases none = inl (session_not_found, refl)
    usable-cases (some s) = elim (Bool-cases (is_some s.revoked_at)) [
      | inl gone ↦ inl (session_revoked, rw gone)
      | inr kept ↦ elim (Bool-cases (leb s.expires_at now)) [
        | inl expired ↦ inl (session_expired, rw (kept, expired))
        | inr fresh ↦ inr (s, rw (kept, fresh), refl)
      ]
    ]

    load-unchanged : (load crypto json now id access_token context db).1 ≡ db
    unfolding load assert_context
    load-unchanged = elim (usable-cases (lookup id db)) [
      | inl (why, stopped) ↦ rw stopped
      | inr (s, usable, found) ↦
          elim (Bool-cases (s.access_token_hash == crypto.hash access_token)) [
            | inr other ↦ rw (usable, other)
            | inl same ↦
                elim (Bool-cases (context_matches crypto json (context_of crypto json s) context)) [
                  | inr wrong ↦ rw (usable, same, wrong)
                  | inl matches ↦
                      elim (Option-cases (
                        crypto.decrypt (aad_for crypto json id (context_of crypto json s))
                          s.refresh_token)) [
                            | inl broken ↦ rw (usable, same, matches, broken)
                            | inr (t, opened) ↦ rw (usable, same, matches, opened)
                          ]
                ]
          ]
    ]

    revoke-others :
        (later : ℕ) (other : String)
        → id ≢ other
        → lookup other (revoke crypto json now later id context db).1 ≡ lookup other db
    unfolding revoke assert_context
    revoke-others later other differs = elim (usable-cases (lookup id db)) [
      | inl (why, stopped) ↦ rw stopped
      | inr (s, usable, found) ↦
          elim (Bool-cases (context_matches crypto json (context_of crypto json s) context)) [
            | inr wrong ↦ rw (usable, wrong)
            | inl matches ↦ elim (Bool-cases (s.context.tenant_id == context.tenant_id)) [
              | inr foreign ↦ rw (usable, matches, foreign)
              | inl own ↦ rw (usable, matches, own) (lookup-insert_ne id other _ db differs)
            ]
          ]
    ]

  rotate-others :
      (now later : ℕ) (id iv current : String) (context : SessionContext)
      (new_token new_refresh : String) (expires_at : Option ℕ) (db : Sessions crypto json)
      (other : String)
      → id ≢ other
      → lookup other
          (rotate crypto json now later id iv current context new_token new_refresh expires_at db).1
        ≡ lookup other db
  rotate-others now later id iv current context new_token new_refresh expires_at db other differs =
      elim (rotate-cases crypto json now later id iv current context new_token new_refresh
        expires_at db) [
          | inl (why, stopped) ↦ rw stopped
          | inr (after, done, r) ↦ rw done (r.others other differs)
        ]

  create-others :
      (id iv : String) (context : SessionContext) (access refresh : String) (expires_at : ℕ)
      (db : Sessions crypto json) (other : String)
      → id ≢ other
      → lookup other (create crypto json id iv context access refresh expires_at db).1
        ≡ lookup other db
  unfolding create
  create-others id iv context access refresh expires_at db other differs =
      lookup-insert_ne id other _ db differs

  module _ (id : String) (session : WidgetSession crypto.Sealed)
      (gone : is_some session.revoked_at ≡ true) where
    perform-revoked :
        (request : SessionRequest) (db : Sessions crypto json)
        → lookup id db ≡ some session
        → IsNewFor id request
        → lookup id (perform request db) ≡ some session
    unfolding perform
    perform-revoked (create_request other iv context access refresh expires_at) db found new =
        create-others other iv context access refresh expires_at db id new ∙ found
    perform-revoked (load_request now other access context) db found new =
        rw (load-unchanged now other access context db) found
    perform-revoked
          (rotate_request now later other iv current context new_token new_refresh expires_at) db
          found new =
        elim (Bool-cases (other == id)) [
          | inl same ↦
              let e : other ≡ id = (eq_iff other id).0 same in
              subst
                (λ k.
                  lookup id
                    (rotate crypto json now later k iv current context new_token new_refresh
                      expires_at db).1
                  ≡ some session)
                (sym e)
                (ap (λ r. lookup id r.1)
                    (revoked-rotate id session gone db found now later iv current context new_token
                      new_refresh expires_at)
                  ∙ found)
          | inr differs ↦
              rotate-others now later other iv current context new_token new_refresh expires_at db
                id (ne_of_eq other id differs)
              ∙ found
        ]
    perform-revoked (revoke_request now later other context) db found new =
        elim (Bool-cases (other == id)) [
          | inl same ↦
              let e : other ≡ id = (eq_iff other id).0 same in
              subst (λ k. lookup id (revoke crypto json now later k context db).1 ≡ some session)
                (sym e)
                (ap (λ r. lookup id r.1) (revoked-revoke id session gone db found now later context)
                  ∙ found)
          | inr differs ↦
              revoke-others now other "" context db later id (ne_of_eq other id differs) ∙ found
        ]

  -- A session that has been revoked stays as it is through any sequence of requests, and every
  -- request for it after them is refused as one for a revoked session.
  pub perform_all-revoked :
      (id : String) (session : WidgetSession crypto.Sealed) (requests : List SessionRequest)
      (db : Sessions crypto json)
      → is_some session.revoked_at ≡ true
      → lookup id db ≡ some session
      → All (IsNewFor id) requests
      → (now later : ℕ) (iv token new_token new_refresh : String) (context : SessionContext)
        (expires_at : Option ℕ)
      → (lookup id (perform_all requests db) ≡ some session)
        × ((load crypto json now id token context (perform_all requests db)).0
            ≡ err session_revoked)
        × ((rotate crypto json now later id iv token context new_token new_refresh expires_at
              (perform_all requests db)).0
            ≡ err session_revoked)
        × ((revoke crypto json now later id context (perform_all requests db)).0
            ≡ err session_revoked)
  unfolding perform_all
  perform_all-revoked id session [] db gone found new now later iv token new_token new_refresh
        context expires_at =
      (
        found,
        ap (λ r. r.0) (revoked-load id session gone db found now token context),
        ap (λ r. r.0)
            (revoked-rotate id session gone db found now later iv token context new_token
              new_refresh expires_at),
        ap (λ r. r.0) (revoked-revoke id session gone db found now later context),
      )
  perform_all-revoked id session (request ∷ rest) db gone found new now later iv token new_token
        new_refresh context expires_at =
      perform_all-revoked id session rest (perform request db) gone
        (perform-revoked id session gone request db found new.0) new.1 now later iv token new_token
        new_refresh context expires_at
