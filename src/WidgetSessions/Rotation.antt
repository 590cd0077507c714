-- ===== src/WidgetSessions/Rotation.antt =====
-- Reading a session back, and exchanging its tokens.
use widget_demo.Prelude.{
  ℕ, String, ◌≡◌, ◌≢◌, ◌<◌, ◌⊎◌, refl, sym, ap, ◌∙◌, true, false, Option, none, some, ◌==◌, eq_iff,
  arith, leb, is_some, or_else, Bool-cases, Option-cases, inl, inr, ok, err,
}
use mathlib.Core.Path.{subst}
use widget_demo.Table.{string_eq, lookup, insert}
use widget_demo.Table.Laws.{lookup-insert_self, lookup-insert_ne, beq_ne}
use widget_demo.Crypto.{Crypto, IsCrypto}
use widget_demo.WidgetSessions.{
  SessionContext, SessionError, session_not_found, session_revoked, session_expired,
  access_token_mismatch, session_conflict, session_context_mismatch, WidgetSession, Json, Sessions,
  normalized, aad_for, context_of, context_matches, assert_context, assert_usable, LoadedSession,
  create, load, is_rotatable, rotate,
}
use widget_demo.WidgetSessions.Normal.{IsOrdered, normalized_idem, context_matches-normalized}

module _ (crypto : Crypto) (json : Json) where
  -- a session that can be used at an instant
  pub record IsLive (now : ℕ) (session : WidgetSession crypto.Sealed) : Type 0 where
    pub kept : is_some session.revoked_at ≡ false
    pub before : now < session.expires_at

  live-assert_usable :
      (now : ℕ) (session : WidgetSession crypto.Sealed) (db : Sessions crypto json)
      → IsLive now session
      → assert_usable crypto json now (some session) db ≡ (ok session, db)
  unfolding assert_usable
  live-assert_usable now session db live = rw (live.kept, later) refl
    where
      later : leb session.expires_at now ≡ false
      later = ground (arith, live.before)

  -- what a session that can be loaded gives
  load-live :
      (now : ℕ) (id access_token refresh_token : String) (expected : SessionContext)
      (session : WidgetSession crypto.Sealed) (db : Sessions crypto json)
      → lookup id db ≡ some session
      → IsLive now session
      → session.access_token_hash ≡ crypto.hash access_token
      → context_matches crypto json (context_of crypto json session) expected ≡ true
      → crypto.decrypt
          (aad_for crypto json id (context_of crypto json session))
          session.refresh_token
        ≡ some refresh_token
      → load crypto json now id access_token expected db ≡ (
        ok (record {
          expires_at = session.expires_at;
          context = context_of crypto json session;
          refresh_token = refresh_token;
        }),
        db,
      )
  unfolding load assert_context
  load-live now id access_token refresh_token expected session db found live hash matches opened =
      let same : (session.access_token_hash == crypto.hash access_token) ≡ true =
        (eq_iff _ _).1 hash in
      rw (found, live-assert_usable now session db live, same, matches, opened)

  -- A session that has just been created can be loaded with its access token in the same context
  -- until it expires, and gives the refresh token back.
  pub load-create :
      IsCrypto crypto
      → IsOrdered json
      → (now : ℕ) (id iv : String) (context : SessionContext) (access_token refresh_token : String)
        (expires_at : ℕ) (db : Sessions crypto json)
      → now < expires_at
      → (load crypto json now id access_token context
          (create crypto json id iv context access_token refresh_token expires_at db).1).0
        ≡ ok (record {
          expires_at = expires_at;
          context = normalized crypto json context;
          refresh_token = refresh_token;
        })
  unfolding create
  load-create c o now id iv context access_token refresh_token expires_at db early =
      let stored = normalized crypto json context in
      let session : WidgetSession crypto.Sealed = record {
        context = stored;
        access_token_hash = crypto.hash access_token;
        refresh_token = crypto.encrypt iv (aad_for crypto json id stored) refresh_token;
        expires_at = expires_at;
        revoked_at = none;
      } in
      let same : context_of crypto json session ≡ stored =
        unfold context_of in normalized_idem crypto json o context in
      let matches : context_matches crypto json (context_of crypto json session) context ≡ true =
        ap (λ x. context_matches crypto json x context) same
        ∙ context_matches-normalized crypto json o context in
      let opened : crypto.decrypt (aad_for crypto json id (context_of crypto json session))
            session.refresh_token
          ≡ some refresh_token =
        ap (λ x. crypto.decrypt (aad_for crypto json id x) session.refresh_token) same
        ∙ c.opens iv (aad_for crypto json id stored) refresh_token in
      ap (λ r. r.0)
        (load-live now id access_token refresh_token context session (insert id session db)
          (lookup-insert_self id session db) (record { kept = refl; before = early }) refl matches
          opened)
      ∙ ap
          (λ x. ok (record { expires_at = expires_at; context = x; refresh_token = refresh_token }))
          same

  module _ (now later : ℕ) (id iv current_token : String) (context : SessionContext)
      (new_token new_refresh : String) (expires_at : Option ℕ) (db : Sessions crypto json) where
    -- what a rotation that succeeds has found, and what it leaves
    pub record IsRotated (after : Sessions crypto json) : Type 0 where
      pub old : WidgetSession crypto.Sealed
      pub found : lookup id db ≡ some old
      pub kept : is_some old.revoked_at ≡ false
      pub hash : old.access_token_hash ≡ crypto.hash current_token
      pub matches : context_matches crypto json (context_of crypto json old) context ≡ true
      pub stored :
          lookup id after
          ≡ some (record old {
            access_token_hash = crypto.hash new_token;
            refresh_token =
                crypto.encrypt iv (aad_for crypto json id (context_of crypto json old)) new_refresh;
            expires_at = or_else expires_at old.expires_at;
          })
      pub others : (other : String) → id ≢ other → lookup other after ≡ lookup other db

    pub rotate-cases :
        ((why : SessionError) × (rotate crypto json now later id iv current_token context new_token
              new_refresh expires_at db
            ≡ (err why, db)))
        ⊎ ((after : Sessions crypto json) × (rotate crypto json now later id iv current_token
                context new_token new_refresh expires_at db
              ≡ (ok new_token, after))
            × IsRotated after)
    unfolding rotate assert_usable assert_context
    rotate-cases = elim (Option-cases (lookup id db)) [
      | inl missing ↦ inl (session_not_found, rw missing)
      | inr (old, found) ↦ elim (Bool-cases (is_some old.revoked_at)) [
        | inl gone ↦ inl (session_revoked, rw (found, gone))
        | inr kept ↦ elim (Bool-cases (leb old.expires_at now)) [
          | inl expired ↦ inl (session_expired, rw (found, kept, expired))
          | inr fresh ↦ elim (Bool-cases (old.access_token_hash == crypto.hash current_token)) [
            | inr other ↦ inl (session_conflict, rw (found, kept, fresh, other))
            | inl same ↦
                elim (Bool-cases
                  (context_matches crypto json (context_of crypto json old) context)) [
                    | inr wrong ↦
                        inl (session_context_mismatch, rw (found, kept, fresh, same, wrong))
                    | inl matches ↦
                        elim (Bool-cases (
                          is_rotatable crypto json later context.tenant_id
                            (crypto.hash current_token) old)) [
                              | inr lost ↦
                                  inl
                                    (session_conflict, rw (found, kept, fresh, same, matches, lost))
                              | inl won ↦ inr (
                                insert id
                                    (record old {
                                      access_token_hash = crypto.hash new_token;
                                      refresh_token =
                                          crypto.encrypt iv
                                            (aad_for crypto json id (context_of crypto json old))
                                            new_refresh;
                                      expires_at = or_else expires_at old.expires_at;
                                    })
                                    db,
                                rw (found, kept, fresh, same, matches, won),
                                record {
                                  old = old;
                                  found = found;
                                  kept = kept;
                                  hash = (eq_iff _ _).0 same;
                                  matches = matches;
                                  stored = lookup-insert_self id _ db;
                                  others = λ other differs. lookup-insert_ne id other _ db differs;
                                },
                              )
                            ]
                  ]
          ]
        ]
      ]
    ]

    rotate-IsRotated :
        (after : Sessions crypto json)
        → rotate crypto json now later id iv current_token context new_token new_refresh expires_at
            db
          ≡ (ok new_token, after)
        → IsRotated after
    rotate-IsRotated after done = elim rotate-cases [
      | inl (why, stopped) ↦ absurd (cc (stopped, done))
      | inr (d, ended, r) ↦ subst IsRotated (ap (λ q. q.1) (sym ended ∙ done)) r
    ]

  -- a token whose hash is not the stored one is of no use for a live session
  other-rotate :
      (now later : ℕ) (id iv token : String) (context : SessionContext) (token' refresh' : String)
      (expires' : Option ℕ) (session : WidgetSession crypto.Sealed) (db : Sessions crypto json)
      → lookup id db ≡ some session
      → IsLive now session
      → (session.access_token_hash == crypto.hash token) ≡ false
      → rotate crypto json now later id iv token context token' refresh' expires' db
        ≡ (err session_conflict, db)
  unfolding rotate
  other-rotate now later id iv token context token' refresh' expires' session db found live other =
      rw (found, live-assert_usable now session db live, other)

  other-load :
      (now : ℕ) (id token : String) (context : SessionContext)
      (session : WidgetSession crypto.Sealed) (db : Sessions crypto json)
      → lookup id db ≡ some session
      → IsLive now session
      → (session.access_token_hash == crypto.hash token) ≡ false
      → load crypto json now id token context db ≡ (err access_token_mismatch, db)
  unfolding load
  other-load now id token context session db found live other =
      rw (found, live-assert_usable now session db live, other)

  -- After a rotation that succeeds, and while the session lasts, the old access token is of no use:
  -- it neither rotates again nor loads, if it differs in its hash from the new one; and the new
  -- access token loads the new refresh token.
  pub rotate_replaces :
      IsCrypto crypto
      → (now later : ℕ) (id iv current_token : String) (context : SessionContext)
        (new_token new_refresh : String) (new_expiry : ℕ) (db after : Sessions crypto json)
      → rotate crypto json now later id iv current_token context new_token new_refresh
          (some new_expiry)
          db
        ≡ (ok new_token, after)
      → crypto.hash new_token ≢ crypto.hash current_token
      → (now' later' : ℕ) (iv' token' refresh' : String) (expected : SessionContext)
        (expires' : Option ℕ)
      → now' < new_expiry
      → (rotate crypto json now' later' id iv' current_token expected token' refresh' expires' after
          ≡ (err session_conflict, after))
        × (load crypto json now' id current_token expected after
            ≡ (err access_token_mismatch, after))
        × ((r : LoadedSession crypto json) × (load crypto json now' id new_token context after
              ≡ (ok r, after))
            × (r.refresh_token ≡ new_refresh))
  rotate_replaces c now later id iv current_token context new_token new_refresh new_expiry db after
        done differ now' later' iv' token' refresh' expected expires' early =
      let r =
        rotate-IsRotated now later id iv current_token context new_token new_refresh
          (some new_expiry) db after done in
      let session : WidgetSession crypto.Sealed = record r.old {
        access_token_hash = crypto.hash new_token;
        refresh_token =
            crypto.encrypt iv (aad_for crypto json id (context_of crypto json r.old)) new_refresh;
        expires_at = new_expiry;
      } in
      let live : IsLive now' session = record { kept = r.kept; before = early } in
      let other : (crypto.hash new_token == crypto.hash current_token) ≡ false =
        beq_ne (crypto.hash new_token) (crypto.hash current_token) differ in
      let opened = c.opens iv (aad_for crypto json id (context_of crypto json r.old)) new_refresh in
      (
        other-rotate now' later' id iv' current_token expected token' refresh' expires' session
            after r.stored live other,
        other-load now' id current_token expected session after r.stored live other,
        (
          record {
            expires_at = new_expiry;
            context = context_of crypto json session;
            refresh_token = new_refresh;
          },
          unfold context_of in
              load-live now' id new_token new_refresh context session after r.stored live refl
                r.matches opened,
          refl,
        ),
      )
