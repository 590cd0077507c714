-- ===== src/WidgetSessions.antt =====
-- backend/src/widgets/widget-refresh-session.service.ts: the sessions behind widget access tokens. The
-- state is the table of sessions; the tenant of a new session exists, since the callers have read it.
pub mod Normal
pub mod Rotation
pub mod Revocation
mod Tests
use widget_demo.Prelude.{
  ℕ, String, Bool, true, false, ◌&&◌, not, Option, none, some, List, [], ◌∷◌, map, ◌==◌, leb, ltb,
  is_some, or_else, if◌then◌else◌, Result, ok, err, Exec, pure, raise, gets, or_raise, raise_if,
  modify, ◌>>=◌, ◌>>◌,
}
use widget_demo.Sorting.{sort}
use widget_demo.Table.{string_eq, Table, lookup, insert}
use widget_demo.Texts.{is_truthy}
use widget_demo.Crypto.{Crypto}

pub record EndpointPair : Type 0 where
  pub widget_key : String
  pub data_endpoint_key : String
  pub query_preset_key : Option String

pub record WidgetAuthorization : Type 0 where
  pub widget_keys : List String
  pub data_endpoint_keys : List String
  pub endpoint_pairs : List EndpointPair

pub record SessionContext : Type 0 where
  pub tenant_id : String
  pub user_id : String
  pub identity_id : String
  pub identity_type : String
  pub app_code : String
  pub config_snapshot_id : String
  pub scope : String
  pub authorization : WidgetAuthorization

pub data SessionError : Type 0 where
  session_not_found session_revoked session_expired access_token_mismatch : SessionError
  session_context_mismatch session_integrity_failed session_conflict : SessionError

pub record WidgetSession (Sealed : Type 0) : Type 0 where
  pub context : SessionContext
  pub access_token_hash : String
  pub refresh_token : Sealed
  pub expires_at : ℕ
  pub revoked_at : Option ℕ

-- The orders of `sort()` on texts and of `localeCompare` on the JSON texts of pairs, and the JSON
-- text of a session's id and context.
pub record Json : Type 0 where
  pub text_le : String → String → Bool
  pub pair_le : EndpointPair → EndpointPair → Bool
  pub stringify : String → SessionContext → String

-- a pair without an empty preset
abbrev pub clean_pair : EndpointPair → EndpointPair
clean_pair pair = record pair { query_preset_key = is_truthy pair.query_preset_key }

abbrev pub same_option : Option String → Option String → Bool
same_option none none = true
same_option (some a) (some b) = a == b
same_option _ _ = false

abbrev pub same_pair : EndpointPair → EndpointPair → Bool
same_pair a b =
    a.widget_key == b.widget_key
    && (a.data_endpoint_key == b.data_endpoint_key
        && same_option a.query_preset_key b.query_preset_key)

abbrev pub same_list : {A : Type 0} → (A → A → Bool) → List A → List A → Bool
same_list same [] [] = true
same_list same (a ∷ xs) (b ∷ ys) = same a b && same_list same xs ys
same_list same _ _ = false

-- `JSON.stringify(left) === JSON.stringify(right)` of two normalized snapshots
unfoldable pub same_authorization : WidgetAuthorization → WidgetAuthorization → Bool
same_authorization a b =
    same_list (λ x y. x == y) a.widget_keys b.widget_keys
    && (same_list (λ x y. x == y) a.data_endpoint_keys b.data_endpoint_keys
        && same_list same_pair a.endpoint_pairs b.endpoint_pairs)

module _ (crypto : Crypto) (json : Json) where
  abbrev pub Sessions : Type 0
  Sessions = Table String (WidgetSession crypto.Sealed)

  abbrev pub Action : Type 0 → Type 0
  Action A = Exec SessionError Sessions A

  unfoldable pub normalize : WidgetAuthorization → WidgetAuthorization
  normalize a = record {
    widget_keys = sort json.text_le a.widget_keys;
    data_endpoint_keys = sort json.text_le a.data_endpoint_keys;
    endpoint_pairs = sort json.pair_le (map clean_pair a.endpoint_pairs);
  }

  abbrev pub normalized : SessionContext → SessionContext
  normalized context = record context { authorization = normalize context.authorization }

  unfoldable pub aad_for : String → SessionContext → String
  aad_for id context = json.stringify id (normalized context)

  unfoldable pub context_of : WidgetSession crypto.Sealed → SessionContext
  context_of session = normalized session.context

  unfoldable pub context_matches : SessionContext → SessionContext → Bool
  context_matches actual expected =
      actual.tenant_id == expected.tenant_id
      && (actual.user_id == expected.user_id
          && (actual.identity_id == expected.identity_id
              && (actual.identity_type == expected.identity_type
                  && (actual.app_code == expected.app_code
                      && (actual.config_snapshot_id == expected.config_snapshot_id
                          && (actual.scope == expected.scope
                              && same_authorization actual.authorization
                                  (normalize expected.authorization)))))))

  unfoldable pub assert_context : SessionContext → SessionContext → Action Unit
  assert_context actual expected =
      raise_if (not (context_matches actual expected)) session_context_mismatch

  unfoldable pub assert_usable :
      (now : ℕ) → Option (WidgetSession crypto.Sealed) → Action (WidgetSession crypto.Sealed)
  assert_usable now none = raise session_not_found
  assert_usable now (some session) =
      if is_some session.revoked_at
      then raise session_revoked
      else if leb session.expires_at now
      then raise session_expired
      else pure session

  abbrev pub put : String → WidgetSession crypto.Sealed → Action Unit
  put id session = modify (insert id session)

  -- `id` is the random identifier, `iv` the random vector of the encryption
  unfoldable pub create :
      (id iv : String)
      → SessionContext
      → (access_token refresh_token : String) → (expires_at : ℕ) → Action String
  create id iv context access_token refresh_token expires_at =
      put id (record {
        context = normalized context;
        access_token_hash = crypto.hash access_token;
        refresh_token = crypto.encrypt iv (aad_for id (normalized context)) refresh_token;
        expires_at = expires_at;
        revoked_at = none;
      })
      >> pure id

  pub record LoadedSession : Type 0 where
    pub expires_at : ℕ
    pub context : SessionContext
    pub refresh_token : String

  unfoldable pub load :
      (now : ℕ) → (id access_token : String) → SessionContext → Action LoadedSession
  load now id access_token expected = do
    found ← gets (lookup id)
    session ← assert_usable now found
    raise_if (not (session.access_token_hash == crypto.hash access_token)) access_token_mismatch
    assert_context (context_of session) expected
    refresh_token ←
        or_raise (crypto.decrypt (aad_for id (context_of session)) session.refresh_token)
          session_integrity_failed
    pure (record {
      expires_at = session.expires_at;
      context = context_of session;
      refresh_token = refresh_token;
    })

  -- the `where` of the update, at the later instant at which it runs
  unfoldable pub is_rotatable :
      (later : ℕ) → (tenant_id hash : String) → WidgetSession crypto.Sealed → Bool
  is_rotatable later tenant_id hash session =
      session.context.tenant_id == tenant_id
      && (session.access_token_hash == hash
          && (not (is_some session.revoked_at) && ltb later session.expires_at))

  unfoldable pub rotate :
      (now later : ℕ)
      → (id iv : String) → (current_access_token : String) → SessionContext
      → (new_access_token new_refresh_token : String) → (expires_at : Option ℕ) → Action String
  rotate now later id iv current_access_token context new_access_token new_refresh_token
        expires_at =
      do
        found ← gets (lookup id)
        session ← assert_usable now found
        raise_if (not (session.access_token_hash == crypto.hash current_access_token))
            session_conflict
        assert_context (context_of session) context
        raise_if
            (not (is_rotatable later context.tenant_id (crypto.hash current_access_token) session))
            session_conflict
        put id (record session {
          access_token_hash = crypto.hash new_access_token;
          refresh_token = crypto.encrypt iv (aad_for id (context_of session)) new_refresh_token;
          expires_at = or_else expires_at session.expires_at;
        })
        pure new_access_token

  unfoldable pub revoke : (now later : ℕ) → (id : String) → SessionContext → Action Unit
  revoke now later id expected = do
    found ← gets (lookup id)
    session ← assert_usable now found
    assert_context (context_of session) expected
    raise_if (not (session.context.tenant_id == expected.tenant_id)) session_conflict
    put id (record session { revoked_at = some later })
