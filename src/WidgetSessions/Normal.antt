-- ===== src/WidgetSessions/Normal.antt =====
-- Normalizing an authorization twice is normalizing it once, so a session is read under the context
-- with which it was written.
use widget_demo.Prelude.{
  String, ◌≡◌, refl, ap, Bool, true, Option, none, some, List, [], ◌∷◌, map, ◌==◌, eq_refl,
  Bool-cases, inl, inr,
}
use widget_demo.Prelude.Every.{All-map, All_of_mem}
use widget_demo.Sorting.{sort, All-sort}
use widget_demo.Sorting.Ordered.{IsTotal, sort_idem, map_fixed}
use widget_demo.Texts.{is_truthy}
use widget_demo.Crypto.{Crypto}
use widget_demo.WidgetSessions.{
  EndpointPair, WidgetAuthorization, SessionContext, Json, clean_pair, same_option, same_pair,
  same_list, same_authorization, normalize, normalized, context_matches,
}

pub record IsOrdered (json : Json) : Type 0 where
  pub texts : IsTotal json.text_le
  pub pairs : IsTotal json.pair_le

is_truthy_idem : (o : Option String) → is_truthy (is_truthy o) ≡ is_truthy o
unfolding is_truthy
is_truthy_idem none = refl
is_truthy_idem (some text) = elim (Bool-cases (text == "")) [
  | inl empty ↦ rw empty refl
  | inr full ↦ rw (full, full)
]

same_list_refl :
    {A : Type 0} (same : A → A → Bool)
    → ((a : A) → same a a ≡ true)
    → (l : List A) → same_list same l l ≡ true
same_list_refl same r [] = refl
same_list_refl same r (x ∷ l) = rw (r x, same_list_refl same r l)

same_option_refl : (o : Option String) → same_option o o ≡ true
same_option_refl none = refl
same_option_refl (some text) = eq_refl text

same_pair_refl : (p : EndpointPair) → same_pair p p ≡ true
same_pair_refl p =
    rw (eq_refl p.widget_key, eq_refl p.data_endpoint_key, same_option_refl p.query_preset_key)

pub same_authorization_refl : (a : WidgetAuthorization) → same_authorization a a ≡ true
unfolding same_authorization
same_authorization_refl a = rw (
  same_list_refl (λ (x : String) y. x == y) eq_refl a.widget_keys,
  same_list_refl (λ (x : String) y. x == y) eq_refl a.data_endpoint_keys,
  same_list_refl same_pair same_pair_refl a.endpoint_pairs,
)

module _ (crypto : Crypto) (json : Json) (o : IsOrdered json) where
  pub normalize_idem :
      (a : WidgetAuthorization)
      → normalize crypto json (normalize crypto json a) ≡ normalize crypto json a
  unfolding normalize
  normalize_idem a = rw (
    sort_idem json.text_le o.texts a.widget_keys,
    sort_idem json.text_le o.texts a.data_endpoint_keys,
    pairs_fixed,
    sort_idem json.pair_le o.pairs (map clean_pair a.endpoint_pairs),
  )
    where
      pairs_fixed :
          map clean_pair (sort json.pair_le (map clean_pair a.endpoint_pairs))
          ≡ sort json.pair_le (map clean_pair a.endpoint_pairs)
      pairs_fixed = map_fixed clean_pair _ (
          All-sort json.pair_le (λ p. clean_pair p ≡ p) _
            (All-map clean_pair (λ p. clean_pair p ≡ p) a.endpoint_pairs
              (All_of_mem (λ p. clean_pair (clean_pair p) ≡ clean_pair p) a.endpoint_pairs
                (λ p m. rw (is_truthy_idem p.query_preset_key)))))

  pub normalized_idem :
      (c : SessionContext)
      → normalized crypto json (normalized crypto json c) ≡ normalized crypto json c
  normalized_idem c =
      ap (λ (a : WidgetAuthorization). record c { authorization = a })
        (normalize_idem c.authorization)

  -- the context that was stored matches the one that it was made from
  pub context_matches-normalized :
      (c : SessionContext) → context_matches crypto json (normalized crypto json c) c ≡ true
  unfolding context_matches
  context_matches-normalized c = rw (
    eq_refl c.tenant_id,
    eq_refl c.user_id,
    eq_refl c.identity_id,
    eq_refl c.identity_type,
    eq_refl c.app_code,
    eq_refl c.config_snapshot_id,
    eq_refl c.scope,
    same_authorization_refl (normalize crypto json c.authorization),
  )
