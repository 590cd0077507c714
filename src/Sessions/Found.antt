-- ===== src/Sessions/Found.antt =====
-- What signing out does to the sessions.
use widget_demo.Prelude.{
  ℕ, String, true, ◌≡◌, refl, sym, ap, ◌∙◌, Option, none, some, ◌≢◌, inl, inr, Bool-cases, is_some,
  ◌==◌,
}
use widget_demo.Table.{string_eq, lookup}
use widget_demo.Table.Laws.{lookup-insert_self, lookup-insert_ne}
use widget_demo.Crypto.{Crypto}
use widget_demo.Tenancy.{Tenant, Tenancy}
use widget_demo.Sessions.{
  AppSession, Accounts, is_live, live_with, session_with, find_session, revoke_session, revoke_row,
  tenant_of,
}

module _ (crypto : Crypto) where
  live_with-none :
      (now : ℕ) (session : AppSession crypto.Sealed) (t : Option (String × Tenant))
      → is_some session.revoked_at ≡ true
      → live_with crypto now session t ≡ none
  unfolding live_with is_live
  live_with-none now session none h = refl
  live_with-none now session (some (tenant_code, tenant)) h = rw h refl

  session_with-none :
      (now : ℕ) (s : Option (AppSession crypto.Sealed)) (tenancy : Tenancy crypto.Sealed)
      → ((session : AppSession crypto.Sealed)
          → s ≡ some session
          → is_some session.revoked_at ≡ true)
      → session_with crypto now s tenancy ≡ none
  unfolding session_with
  session_with-none now none tenancy h = refl
  session_with-none now (some session) tenancy h =
      live_with-none now session (tenant_of session.tenant_id tenancy) (h session refl)

  -- what a row becomes
  revoke_row-lookup :
      (now : ℕ) (key : String) (s : Option (AppSession crypto.Sealed))
      (accounts : Accounts crypto.Sealed)
      → lookup key accounts.sessions ≡ s
      → (session : AppSession crypto.Sealed)
      → lookup key (revoke_row crypto now key s accounts).1.sessions ≡ some session
      → is_some session.revoked_at ≡ true
  unfolding revoke_row
  revoke_row-lookup now key none accounts e session h = absurd (cc (sym e ∙ h))
  revoke_row-lookup now key (some row) accounts e session h =
      elim (Bool-cases (is_some row.revoked_at)) [
        | inl gone ↦
            let same : row ≡ session = cc (sym e ∙ rw gone at h) in
            ap (λ r. is_some r.revoked_at) (sym same) ∙ gone
        | inr live ↦
            let stored =
              lookup-insert_self key (record row { revoked_at = some now }) accounts.sessions in
            let same : (record row { revoked_at = some now }) ≡ session =
              cc (sym stored ∙ rw live at h) in
            ap (λ r. is_some r.revoked_at) (sym same)
      ]

  revoke_row-others :
      (now : ℕ) (key other : String) (s : Option (AppSession crypto.Sealed))
      (accounts : Accounts crypto.Sealed)
      → key ≢ other
      → lookup other (revoke_row crypto now key s accounts).1.sessions
        ≡ lookup other accounts.sessions
  unfolding revoke_row
  revoke_row-others now key other none accounts ne = refl
  revoke_row-others now key other (some row) accounts ne =
      elim (Bool-cases (is_some row.revoked_at)) [
        | inl gone ↦ rw gone refl
        | inr live ↦ rw live (lookup-insert_ne key other _ accounts.sessions ne)
      ]

  revoke_row-tenancy :
      (now : ℕ) (key : String) (s : Option (AppSession crypto.Sealed))
      (accounts : Accounts crypto.Sealed)
      → (revoke_row crypto now key s accounts).1.tenancy ≡ accounts.tenancy
  unfolding revoke_row
  revoke_row-tenancy now key none accounts = refl
  revoke_row-tenancy now key (some row) accounts = elim (Bool-cases (is_some row.revoked_at)) [
    | inl gone ↦ rw gone refl
    | inr live ↦ rw live refl
  ]

  -- Once a token is revoked, it finds no session at any time, and a token with another hash finds what
  -- it found before.
  pub revoke_session-find_session :
      (raw_token other : String) (now later : ℕ) (accounts : Accounts crypto.Sealed)
      → crypto.hash raw_token ≢ crypto.hash other
      → (find_session crypto later
            (some raw_token)
            (revoke_session crypto now (some raw_token) accounts).1
          ≡ none)
        × (find_session crypto later
              (some other)
              (revoke_session crypto now (some raw_token) accounts).1
            ≡ find_session crypto later (some other) accounts)
  unfolding find_session revoke_session
  revoke_session-find_session raw_token other now later accounts ne =
      elim (Bool-cases (raw_token == "")) [
        | inl empty ↦ (rw empty refl, rw empty refl)
        | inr token ↦ (
          rw token (
              session_with-none later _ _ (
                revoke_row-lookup now (crypto.hash raw_token)
                  (lookup (crypto.hash raw_token) accounts.sessions) accounts refl)),
          rw
              (
                token,
                revoke_row-others now (crypto.hash raw_token) (crypto.hash other)
                    (lookup (crypto.hash raw_token) accounts.sessions) accounts ne,
                revoke_row-tenancy now (crypto.hash raw_token)
                    (lookup (crypto.hash raw_token) accounts.sessions) accounts,
              )
              refl,
        )
      ]
