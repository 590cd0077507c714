-- ===== src/WidgetData/Collected.antt =====
-- The loop over the items of a batch.
use mathlib.Core.List.{Memᴰ}
use widget_demo.Prelude.{
  String, true, ◌≡◌, ◌⊎◌, refl, ap, ◌∙◌, inl, inr, some, List, [], ◌∷◌, ◌==◌, eq_iff, arith, Result,
  Bool-cases, is_some,
}
use widget_demo.Table.{string_eq, lookup}
use widget_demo.Table.Laws.{lookup-insert, lookup-insert_self}
use widget_demo.WidgetData.{BatchItem, Failure, WidgetPayload}
use widget_demo.WidgetData.Batch.{Output, put_result, collect}

module _ {N : Type 0} (result_of : BatchItem → Result Failure (WidgetPayload N)) where
  put_result-some :
      (key other : String) (r : Result Failure (WidgetPayload N)) (output : Output N)
      → is_some (lookup other output) ≡ true
      → is_some (lookup other (put_result key r output)) ≡ true
  unfolding put_result
  put_result-some key other r output h = elim (Bool-cases (key == "__proto__")) [
    | inl proto ↦ rw proto h
    | inr plain ↦ rw (plain, lookup-insert) (ground (arith, eq_iff key other))
  ]

  collect-some :
      (items : List BatchItem) (other : String) (output : Output N)
      → is_some (lookup other output) ≡ true
      → is_some (lookup other (collect result_of items output)) ≡ true
  unfolding collect
  collect-some [] other output h = h
  collect-some (item ∷ items) other output h =
      collect-some items other _ (put_result-some item.widget_key other (result_of item) output h)

  -- every item has a result, but for the key that an object cannot have
  pub collect-covers :
      (items : List BatchItem) (output : Output N) (item : BatchItem)
      → Memᴰ item items
      → (item.widget_key ≡ "__proto__")
        ⊎ (is_some (lookup item.widget_key (collect result_of items output)) ≡ true)
  unfolding collect put_result
  collect-covers [] output item m = elim m [ ]
  collect-covers (x ∷ items) output item (Memᴰ.head e) =
      elim (Bool-cases (x.widget_key == "__proto__")) [
        | inl proto ↦ inl (ap (λ i. i.widget_key) e ∙ (eq_iff _ _).0 proto)
        | inr plain ↦ inr (
            ap (λ k. is_some (lookup k (collect result_of (x ∷ items) output)))
              (ap (λ i. i.widget_key) e)
            ∙ rw plain (
                collect-some items x.widget_key _
                  (rw (lookup-insert_self x.widget_key (result_of x) output) refl)))
      ]
  collect-covers (x ∷ items) output item (Memᴰ.tail m) = collect-covers items _ item m

  -- every result is that of an item
  pub collect_sound :
      (items : List BatchItem) (output : Output N) (key : String)
      (r : Result Failure (WidgetPayload N))
      → lookup key (collect result_of items output) ≡ some r
      → (lookup key output ≡ some r)
        ⊎ ((item : BatchItem) × Memᴰ item items × (item.widget_key ≡ key) × (result_of item ≡ r))
  unfolding collect put_result
  collect_sound [] output key r h = inl h
  collect_sound (item ∷ items) output key r h =
      elim (collect_sound items (put_result item.widget_key (result_of item) output) key r h) [
        | inr (other, m, e, same) ↦ inr (other, Memᴰ.tail m, e, same)
        | inl before ↦ elim (Bool-cases (item.widget_key == "__proto__")) [
          | inl proto ↦ inl (rw proto at before)
          | inr plain ↦ elim (Bool-cases (item.widget_key == key)) [
            | inl here ↦
                let same : result_of item ≡ r = cc (rw (plain, lookup-insert, here) at before) in
                inr (item, Memᴰ.head refl, (eq_iff _ _).0 here, same)
            | inr elsewhere ↦ inl (rw (plain, lookup-insert, elsewhere) at before)
          ]
        ]
      ]
